-- ===== src/Private/Visible.antt =====
-- client/src/components/room/listener-panel.tsx: the list of conversations in the drawer.
pub mod Laws
use wave_cast.Common.{
  ℕ, String, Bool, true, false, not, ◌&&◌, ◌||◌, List, [], ◌∷◌, Option, none, some, map, any,
  filter, find, last?, lookup, or_else, is_empty, trim, to_lower_case, includes, utf16_length, eqb,
  ◌==◌, if◌then◌else◌,
}
use wave_cast.Common.Int.{ℤ, sub_ℕ}
use wave_cast.Common.Sort.{sort}
use wave_cast.Private.Conversations.{P2pConversation, Conversations}
use wave_cast.Private.Message.{P2pMessage}
use wave_cast.Types.{Person, SpeakerRequest, is_pending, role_text}

pub record P2pChatListEntry : Type 0 where
  pub person : Person
  pub messages : List P2pMessage
  pub unread_count : ℕ
  pub last_message : Option P2pMessage
  pub is_active : Bool
  pub is_hand_raised : Bool

abbrev pub same_id : String → Option String → Bool
same_id id none = false
same_id id (some k) = id == k

abbrev pub no_messages : P2pConversation
no_messages = record { messages = []; unread_count = 0 }

module _ (active_friend_id : Option String) (requests : List SpeakerRequest)
    (current : Conversations) where
  pub to_entry : Person → P2pChatListEntry
  to_entry person =
      let conversation = or_else (lookup person.id current) no_messages in
      record {
        person = person;
        messages = conversation.messages;
        unread_count = conversation.unread_count;
        last_message = last? conversation.messages;
        is_active = same_id person.id active_friend_id;
        is_hand_raised = any (λ r. is_pending r.status && r.person.id == person.id) requests;
      }

pub matches_term : String → P2pChatListEntry → Bool
matches_term term entry =
    is_empty term
    || includes (to_lower_case entry.person.name) term
    || includes (to_lower_case entry.person.username) term
    || includes (to_lower_case (role_text entry.person.role)) term

abbrev pub last_length : P2pChatListEntry → ℕ
last_length entry = elim entry.last_message [ none ↦ 0 | some message ↦ utf16_length message.text ]

pub compare_entries : P2pChatListEntry → P2pChatListEntry → ℤ
compare_entries a b =
    if not (eqb a.unread_count b.unread_count)
    then sub_ℕ b.unread_count a.unread_count
    else sub_ℕ (last_length b) (last_length a)

unfoldable pub visible_conversations :
    String
    → List Person
    → Conversations
    → Option String
    → List SpeakerRequest
    → List P2pChatListEntry
unfolding to_entry matches_term compare_entries sort
visible_conversations chat_search room_participants current active_friend_id requests =
    let term = to_lower_case (trim chat_search) in
    sort compare_entries (
      filter (matches_term term)
        (map (to_entry active_friend_id requests current) room_participants))

unfoldable pub active_conversation : List P2pChatListEntry → Option P2pChatListEntry
active_conversation entries = find (λ entry. entry.is_active) entries
