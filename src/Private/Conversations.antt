-- ===== src/Private/Conversations.antt =====
-- client/src/components/room/listener-panel.tsx: who can be talked to, and the conversations by
-- the id of the other person.
pub mod Unread
pub mod Badges
pub mod Participants
use Prim.Native.Char.{code}
use Prim.Native.String as S
use wave_cast.Common.{
  ℕ, ◌+◌, ◌%◌, suc, String, Bool, true, false, not, ◌&&◌, ◌||◌, List, [], ◌∷◌, ◌++◌, Option, none,
  some, map, any, find, filter, head?, last?, lookup, insert, values, or_else, truthy, is_empty,
  trim, to_lower_case, includes, split, utf16_length, eqb, ◌==◌, if◌then◌else◌,
}
use wave_cast.Common.Int.{ℤ, sub_ℕ}
use wave_cast.Common.Sort.{sort}
use wave_cast.MockData.{alex, room}
use wave_cast.Private.Message.{P2pMessage, toggle_like, toggle_emoji}
use wave_cast.Reactions.{
  ReactionAction, like, dislike, QuickReaction, thumbs_up, thumbs_down, joy, heart, fire,
}
use wave_cast.Types.{Person, SpeakerRequest, is_pending, role_text}

-- The loop over the people of a room, and the map's values.
pub collect_people : List Person → List (String × Person) → List (String × Person)
collect_people [] unique = unique
collect_people (person ∷ rest) unique =
    collect_people rest
      (if not (person.id == alex.id) then insert person.id person unique else unique)

pub participants : List Person → List Person
unfolding collect_people
participants everyone = values (collect_people everyone [])

unfoldable pub room_participants : List Person
unfolding participants insert
room_participants = participants (room.owner ∷ (room.speakers ++ room.listeners))

pub record P2pConversation : Type 0 where
  pub messages : List P2pMessage
  pub unread_count : ℕ

abbrev pub Conversations : Type 0
Conversations = List (String × P2pConversation)

abbrev first_word : String → String
unfolding split
first_word name = or_else (head? (split b' ' name)) ""

pub make_seed_conversation : Person → ℕ → P2pConversation
unfolding split
make_seed_conversation person index =
    let has_history = not (eqb (index % 3) 2) in
    record {
      messages =
          if has_history
          then record {
            id = S.◌++◌ "seed-" (S.◌++◌ person.id "-0");
            name = person.name;
            avatar = person.avatar;
            time = "2m ago";
            text = S.◌++◌ (first_word person.name) " was asking a question.";
            reply_to = none;
            is_you = false;
            is_unread = some (eqb (index % 3) 0);
            likes = some 0;
            dislikes = some 0;
            user_reaction = none;
            emoji_reactions = none;
            user_emoji_reaction = none;
            attachment = none;
          }
            ∷ []
          else [];
      unread_count = if has_history && eqb (index % 3) 0 then 1 else 0;
    }

-- The `reduce` that seeds the conversations, from an index on.
pub seed_from : ℕ → List Person → Conversations → Conversations
unfolding make_seed_conversation
seed_from index [] acc = acc
seed_from index (person ∷ rest) acc =
    seed_from (suc index) rest (insert person.id (make_seed_conversation person index) acc)

unfoldable pub initial_conversations : Conversations
unfolding seed_from room_participants insert
initial_conversations = seed_from 0 room_participants []

unfoldable pub total_unread_count : Conversations → ℕ
total_unread_count [] = 0
total_unread_count ((_, conversation) ∷ rest) = conversation.unread_count + total_unread_count rest

-- The messages of the open conversation.
unfoldable pub active_friend_messages : Option Person → Conversations → List P2pMessage
active_friend_messages none current = []
active_friend_messages (some friend) current = elim (lookup friend.id current) [
  | none ↦ []
  | some conversation ↦ conversation.messages
]

abbrev as_read : P2pMessage → P2pMessage
as_read message = record message { is_unread = some false }

unfoldable pub mark_conversation_thread_as_read : String → Conversations → Conversations
mark_conversation_thread_as_read person_id current = elim (lookup person_id current) [
  | none ↦ current
  | some conversation ↦
      if any (λ m. truthy m.is_unread) conversation.messages
      then current
      else (if eqb conversation.unread_count 0
          then current
          else insert person_id
              (record { messages = map as_read conversation.messages; unread_count = 0 }) current)
]

-- The shell that both reaction handlers share: the message with the id, in one conversation.
unfoldable pub update_message :
    String → String → (P2pMessage → P2pMessage) → Conversations → Conversations
update_message friend_id message_id change current = elim (lookup friend_id current) [
  | none ↦ current
  | some conversation ↦
      insert friend_id
        (record conversation {
          messages =
              map (λ m. if not (m.id == message_id) then m else change m) conversation.messages;
        })
        current
]

toggle_p2p_message_reaction : String → String → ReactionAction → Conversations → Conversations
unfolding update_message
toggle_p2p_message_reaction friend_id message_id action current =
    update_message friend_id message_id (toggle_like action) current

-- A thumb goes to the handler above, any other reaction to the emoji counts.
unfoldable pub toggle_p2p_emoji_reaction :
    String → String → QuickReaction → Conversations → Conversations
unfolding update_message toggle_p2p_message_reaction
toggle_p2p_emoji_reaction friend_id message_id thumbs_up current =
    toggle_p2p_message_reaction friend_id message_id like current
toggle_p2p_emoji_reaction friend_id message_id thumbs_down current =
    toggle_p2p_message_reaction friend_id message_id dislike current
toggle_p2p_emoji_reaction friend_id message_id reaction current =
    update_message friend_id message_id (toggle_emoji reaction) current

-- A message at the end of a conversation that is then read; a missing one is created.
unfoldable pub append_message : String → P2pMessage → Conversations → Conversations
append_message friend_id message current =
    let updated = or_else (lookup friend_id current) (record { messages = []; unread_count = 0 }) in
    insert friend_id (record { messages = updated.messages ++ message ∷ []; unread_count = 0 })
      current
