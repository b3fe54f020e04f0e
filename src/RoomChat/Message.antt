-- ===== src/RoomChat/Message.antt =====
-- client/src/components/room/room-side-panel.tsx: messages of the room and their reactions.
pub mod Laws
use wave_cast.Common.{
  ℕ, ◌+◌, ◌-◌, String, Bool, true, not, ◌&&◌, if◌then◌else◌, Option, none, some, List, [], ◌∷◌,
  filter, or_else, ltb, ◌||◌,
}
use wave_cast.MockData.{person_at}
use wave_cast.Reactions.{
  ReactionAction, like, dislike, QuickReaction, thumbs_up, thumbs_down, quick_reactions, is_action,
  is_reaction, same_reaction, EmojiCounts, no_emoji, Tally, EmojiTally, set_count,
}

pub record Quote : Type 0 where
  pub name : String
  pub body : String

pub record RoomChatMessage : Type 0 where
  pub id : String
  pub name : String
  pub avatar : String
  pub time : String
  pub body : String
  pub reply_to : Option Quote
  pub likes : ℕ
  pub dislikes : ℕ
  pub user_reaction : Option ReactionAction
  pub emoji_reactions : Option EmojiCounts
  pub user_emoji_reaction : Option QuickReaction

abbrev seed_sarah : RoomChatMessage
seed_sarah = record {
  id = "seed-room-message-sarah";
  name = "Sarah Wilson";
  avatar = (person_at 3).avatar;
  time = "2m ago";
  body = "Great insights so far! 👏";
  reply_to = none;
  likes = 12;
  dislikes = 0;
  user_reaction = none;
  emoji_reactions = none;
  user_emoji_reaction = none;
}

abbrev seed_james : RoomChatMessage
seed_james = record {
  id = "seed-room-message-james";
  name = "James Lee";
  avatar = (person_at 4).avatar;
  time = "1m ago";
  body = "Can we talk about the real-world applications of this?";
  reply_to = none;
  likes = 8;
  dislikes = 0;
  user_reaction = none;
  emoji_reactions = none;
  user_emoji_reaction = none;
}

abbrev seed_priya : RoomChatMessage
seed_priya = record {
  id = "seed-room-message-priya";
  name = "Priya Shah";
  avatar = (person_at 5).avatar;
  time = "just now";
  body = "Would love to hear more about the future trends!";
  reply_to = none;
  likes = 5;
  dislikes = 0;
  user_reaction = none;
  emoji_reactions = none;
  user_emoji_reaction = none;
}

abbrev pub seed_room_messages : List RoomChatMessage
seed_room_messages = seed_sarah ∷ seed_james ∷ seed_priya ∷ []

unfoldable pub get_room_reaction_count : RoomChatMessage → QuickReaction → ℕ
get_room_reaction_count message thumbs_up = message.likes
get_room_reaction_count message thumbs_down = message.dislikes
get_room_reaction_count message reaction =
    or_else (or_else message.emoji_reactions no_emoji reaction) 0

unfoldable pub has_room_user_reaction : RoomChatMessage → QuickReaction → Bool
has_room_user_reaction message thumbs_up = is_action like message.user_reaction
has_room_user_reaction message thumbs_down = is_action dislike message.user_reaction
has_room_user_reaction message reaction = is_reaction reaction message.user_emoji_reaction

unfoldable pub get_visible_room_reactions : RoomChatMessage → List QuickReaction
unfolding get_room_reaction_count
get_visible_room_reactions message =
    filter
      (λ reaction.
        same_reaction reaction thumbs_up
        || same_reaction reaction thumbs_down
        || ltb 0 (get_room_reaction_count message reaction))
      quick_reactions

abbrev pub room_tally : RoomChatMessage → Tally
room_tally m = record { likes = m.likes; dislikes = m.dislikes; own = m.user_reaction }

abbrev pub room_emoji_tally : RoomChatMessage → EmojiTally
room_emoji_tally m = record {
  counts = or_else m.emoji_reactions no_emoji;
  own = m.user_emoji_reaction;
}

-- `Math.max(0, count - 1)` and `count + 1` for the likes or the dislikes.
abbrev lower : ReactionAction → RoomChatMessage → RoomChatMessage
lower like m = record m { likes = m.likes - 1 }
lower dislike m = record m { dislikes = m.dislikes - 1 }

abbrev raise : ReactionAction → RoomChatMessage → RoomChatMessage
raise like m = record m { likes = m.likes + 1 }
raise dislike m = record m { dislikes = m.dislikes + 1 }

abbrev lower_current : Option ReactionAction → RoomChatMessage → RoomChatMessage
lower_current none m = m
lower_current (some current_reaction) m = lower current_reaction m

-- What `toggleRoomMessageReaction` makes of the message with the id.
unfoldable pub react_to_room_message : ReactionAction → RoomChatMessage → RoomChatMessage
react_to_room_message action m =
    if is_action action m.user_reaction
    then record (lower action m) { user_reaction = none }
    else record (raise action (lower_current m.user_reaction m)) { user_reaction = some action }

-- One fewer of the reaction that another one replaces, unless it is a thumb.
abbrev release : Option QuickReaction → EmojiCounts → EmojiCounts
release none counts = counts
release (some current_reaction) counts =
    if not (same_reaction current_reaction thumbs_up)
      && not (same_reaction current_reaction thumbs_down)
    then set_count current_reaction (or_else (counts current_reaction) 0 - 1) counts
    else counts

unfoldable pub react_to_room_emoji : QuickReaction → RoomChatMessage → RoomChatMessage
react_to_room_emoji reaction m =
    let emoji_reactions = or_else m.emoji_reactions no_emoji in
    let current_count = or_else (emoji_reactions reaction) 0 in
    if is_reaction reaction m.user_emoji_reaction
    then record m {
      emoji_reactions = some (set_count reaction (current_count - 1) emoji_reactions);
      user_emoji_reaction = none;
    }
    else record m {
      emoji_reactions =
          some (
            set_count reaction (current_count + 1) (release m.user_emoji_reaction emoji_reactions));
      user_emoji_reaction = some reaction;
    }

-- What `toggleRoomEmojiReaction` makes of it: a thumb goes to the function above.
unfoldable pub react_by_emoji : QuickReaction → RoomChatMessage → RoomChatMessage
unfolding react_to_room_message react_to_room_emoji
react_by_emoji thumbs_up m = react_to_room_message like m
react_by_emoji thumbs_down m = react_to_room_message dislike m
react_by_emoji reaction m = react_to_room_emoji reaction m
