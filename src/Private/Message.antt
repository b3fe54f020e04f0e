-- ===== src/Private/Message.antt =====
-- client/src/components/room/listener-panel.tsx: messages and their reactions.
pub mod Laws
use wave_cast.Common.{
  ℕ, String, Bool, true, false, Option, none, some, List, filter, or_else, ltb, ◌||◌,
}
use wave_cast.Reactions.{
  ReactionAction, like, dislike, QuickReaction, thumbs_up, thumbs_down, joy, heart, fire,
  quick_reactions, is_action, is_reaction, same_reaction, EmojiCounts, no_emoji, Tally, react,
  EmojiTally, react_emoji,
}

pub data AttachmentKind : Type 0 where
  file image video other : AttachmentKind

pub record Attachment : Type 0 where
  pub type : AttachmentKind
  pub name : String
  pub size : Option ℕ
  pub mime_type : Option String
  pub source_label : String
  pub preview_url : Option String
  pub download_url : Option String

pub record Reply : Type 0 where
  pub name : String
  pub text : String

pub record P2pMessage : Type 0 where
  pub id : String
  pub name : String
  pub avatar : String
  pub time : String
  pub text : String
  pub reply_to : Option Reply
  pub is_you : Bool
  pub is_unread : Option Bool
  pub likes : Option ℕ
  pub dislikes : Option ℕ
  pub user_reaction : Option ReactionAction
  pub emoji_reactions : Option EmojiCounts
  pub user_emoji_reaction : Option QuickReaction
  pub attachment : Option Attachment

unfoldable pub get_p2p_reaction_count : P2pMessage → QuickReaction → ℕ
get_p2p_reaction_count message thumbs_up = or_else message.likes 0
get_p2p_reaction_count message thumbs_down = or_else message.dislikes 0
get_p2p_reaction_count message reaction =
    or_else (or_else message.emoji_reactions no_emoji reaction) 0

unfoldable pub has_p2p_user_reaction : P2pMessage → QuickReaction → Bool
has_p2p_user_reaction message thumbs_up = is_action like message.user_reaction
has_p2p_user_reaction message thumbs_down = is_action dislike message.user_reaction
has_p2p_user_reaction message reaction = is_reaction reaction message.user_emoji_reaction

unfoldable pub get_visible_p2p_reactions : P2pMessage → List QuickReaction
unfolding get_p2p_reaction_count
get_visible_p2p_reactions message =
    filter
      (λ reaction.
        same_reaction reaction thumbs_up
        || same_reaction reaction thumbs_down
        || ltb 0 (get_p2p_reaction_count message reaction))
      quick_reactions

abbrev pub tally : P2pMessage → Tally
tally m = record {
  likes = or_else m.likes 0;
  dislikes = or_else m.dislikes 0;
  own = m.user_reaction;
}

abbrev pub emoji_tally : P2pMessage → EmojiTally
emoji_tally m = record { counts = or_else m.emoji_reactions no_emoji; own = m.user_emoji_reaction }

-- What `toggleP2PMessageReaction` makes of the message with the id.
unfoldable pub toggle_like : ReactionAction → P2pMessage → P2pMessage
unfolding react
toggle_like action m =
    let t = react action (tally m) in
    record m { likes = some t.likes; dislikes = some t.dislikes; user_reaction = t.own }

-- What `toggleP2PEmojiReaction` makes of it for a reaction that is no thumb.
unfoldable pub toggle_emoji : QuickReaction → P2pMessage → P2pMessage
unfolding react_emoji
toggle_emoji reaction m =
    let t = react_emoji reaction (emoji_tally m) in
    record m { emoji_reactions = some t.counts; user_emoji_reaction = t.own }

-- The dispatch of `toggleP2PEmojiReaction`.
pub toggle_reaction : QuickReaction → P2pMessage → P2pMessage
unfolding toggle_like toggle_emoji
toggle_reaction thumbs_up m = toggle_like like m
toggle_reaction thumbs_down m = toggle_like dislike m
toggle_reaction reaction m = toggle_emoji reaction m
