-- ===== src/Private/Drawer.antt =====
-- client/src/components/room/listener-panel.tsx: what the panel, the dialog of listeners and the
-- drawer of chats show, without their styling, and the cells that their inputs set.
pub mod Rows
use Prim.Native.String.{◌++◌}
use wave_cast.Common.{
  ℕ, ◌-◌, String, Bool, true, false, not, ◌||◌, List, [], ◌∷◌, Option, none, some, map, drop,
  length, lookup, or_else, head?, split, ltb, eqb, is_empty, ◌==◌, if◌then◌else◌,
}
use wave_cast.Common.Decimal.{show}
use wave_cast.Media.{Piece, chat_message_text}
use wave_cast.MockData.{room}
use wave_cast.Private.Attachment.{format_attachment_size}
use wave_cast.Private.Conversations.{room_participants, active_friend_messages, total_unread_count}
use wave_cast.Private.Message.{
  P2pMessage, Attachment, AttachmentKind, Reply, get_p2p_reaction_count, has_p2p_user_reaction,
  get_visible_p2p_reactions,
}
use wave_cast.Private.Panel.{Panel, active_friend}
use wave_cast.Private.Visible.{
  P2pChatListEntry, no_messages, visible_conversations, active_conversation,
}
use wave_cast.Reactions.{QuickReaction}
use wave_cast.Stores.Speaker.Defs.{SpeakerState}
use wave_cast.Types.{Person, UserRole, role_text}
use wave_cast.Private.Compose.{send_p2p_message}
use wave_cast.Private.Drawer.Rows.{ChatRow, P2pMessageRow, chat_row, p2p_message_row, count_badge}

abbrev set_chat_search : String → Panel → Panel
set_chat_search text p = record p { chat_search = text }

abbrev set_p2p_text : String → Panel → Panel
set_p2p_text text p = record p { p2p_text = text }

abbrev cancel_p2p_reply : Panel → Panel
cancel_p2p_reply p = record p { replying_p2p_message = none }

abbrev toggle_p2p_emoji_picker : Panel → Panel
toggle_p2p_emoji_picker p = record p { show_p2p_emoji_picker = not p.show_p2p_emoji_picker }

-- Enter in the field of a message, whose id is drawn.
unfoldable pub press_enter : String → Panel → Panel
unfolding send_p2p_message
press_enter fresh_id p = send_p2p_message fresh_id (record p { show_p2p_emoji_picker = false })

-- The button View all listeners.
abbrev view_all_listeners : Panel → Panel
view_all_listeners p = record p { selected_listener = none; is_all_listeners_dialog_open = true }

-- The clean-up: the browser is told to forget every URL of an attachment.
abbrev release_attachments : Panel → Panel
release_attachments p = record p { attachment_urls = [] }

-- The number after the pictures of the listeners, if some have none.
unfoldable pub listeners_remainder : Option ℕ
listeners_remainder =
    if ltb (length room.listeners) room.listener_count
    then some (room.listener_count - length room.listeners)
    else none

abbrev last_four : List P2pMessage → List P2pMessage
last_four messages = drop (length messages - 4) messages

-- The profile of a listener: the number of comments, if there are some, and the last four.
unfoldable pub listener_profile : Person → Panel → Option ℕ × List String
unfolding lookup
listener_profile listener p =
    let conversation =
      if is_empty listener.id
      then no_messages
      else or_else (lookup listener.id p.p2p_conversations) no_messages in
    (
      if ltb 0 (length conversation.messages) then some (length conversation.messages) else none,
      map (λ message. message.text) (last_four conversation.messages),
    )

-- What stands in a chat without messages, unless the friend is typing.
abbrev empty_note : List P2pMessage → Panel → List String
empty_note messages p =
    if ltb 0 (length messages) || p.show_p2p_typing
    then []
    else "No messages yet." ∷ "Send a message to start a conversation." ∷ []

-- The row below the messages while the friend is typing: picture, name and note.
pub record TypingRow : Type 0 where
  pub avatar : String
  pub name : String
  pub note : String

abbrev typing_row : Person → Panel → Option TypingRow
typing_row friend p =
    if p.show_p2p_typing
    then some (record { avatar = friend.avatar; name = friend.name; note = "typing..." })
    else none

-- The open chat. Its badges come from the list of chats as the search leaves it.
pub record Thread : Type 0 where
  pub name : String
  pub username : String
  pub role : String
  pub hand_up : Bool
  pub badge : Option ℕ
  pub rows : List P2pMessageRow
  pub empty_note : List String
  pub typing_row : Option TypingRow
  pub placeholder : String

pub record Drawer : Type 0 where
  pub new_badge : Option ℕ
  pub chats : Option (List ChatRow)
  pub thread : Option Thread

abbrev hand_of : Option P2pChatListEntry → Bool
hand_of none = false
hand_of (some entry) = entry.is_hand_raised

abbrev unread_of : Option P2pChatListEntry → ℕ
unread_of none = 0
unread_of (some entry) = entry.unread_count

listed_chats : SpeakerState → Panel → List P2pChatListEntry
unfolding visible_conversations room_participants
listed_chats st p =
    visible_conversations p.chat_search room_participants p.p2p_conversations
      p.ui.active_p2p_friend_id st.speaker_requests

thread_of : Person → SpeakerState → Panel → Thread
unfolding listed_chats active_conversation active_friend_messages p2p_message_row
thread_of friend st p =
    let entry = active_conversation (listed_chats st p) in
    let messages = active_friend_messages (some friend) p.p2p_conversations in
    record {
      name = friend.name;
      username = friend.username;
      role = role_text friend.role;
      hand_up = hand_of entry;
      badge = count_badge (unread_of entry);
      rows = map p2p_message_row messages;
      empty_note = empty_note messages p;
      typing_row = typing_row friend p;
      placeholder = "Message " ++ friend.name;
    }

unfoldable pub drawer : SpeakerState → Panel → Drawer
unfolding listed_chats thread_of chat_row total_unread_count active_friend
drawer st p = record {
  new_badge = count_badge (total_unread_count p.p2p_conversations);
  chats = if p.is_thread_list_open then some (map chat_row (listed_chats st p)) else none;
  thread = elim (active_friend p) [ none ↦ none | some friend ↦ some (thread_of friend st p) ];
}
