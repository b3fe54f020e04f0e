-- ===== src/Private/Panel.antt =====
-- client/src/components/room/listener-panel.tsx: the state of the panel, its handlers and effects.
pub mod Send
pub mod Reachable
pub mod Typing
pub mod Transcript
use Prim.Native.String as S
use wave_cast.Common.{
  ℕ, String, Bool, true, false, not, ◌&&◌, ◌||◌, List, [], Option, none, some, find, add, is_empty,
  or_else, to_lower_case, trim, ◌==◌, if◌then◌else◌,
}
use wave_cast.MockData.{alex}
use wave_cast.Private.Attachment.{PickedFile, get_attachment_summary}
use wave_cast.Private.Conversations.{
  Conversations, room_participants, initial_conversations, total_unread_count,
  mark_conversation_thread_as_read, append_message, toggle_p2p_emoji_reaction,
}
use wave_cast.Private.Message.{P2pMessage, Reply, Attachment, AttachmentKind, file}
use wave_cast.Private.Visible.{same_id}
use wave_cast.Reactions.{QuickReaction, no_emoji}
use wave_cast.Stores.Ui as Ui
use wave_cast.Types.{Person}

-- The `useState` cells and refs of the panel, and the shared store that it reads and writes.
-- `typing_timer` says whether a timeout to hide the typing dots is set.
pub record Panel : Type 0 where
  pub p2p_conversations : Conversations
  pub p2p_text : String
  pub is_p2p_drawer_open : Bool
  pub chat_search : String
  pub is_all_listeners_dialog_open : Bool
  pub selected_listener : Option Person
  pub show_p2p_emoji_picker : Bool
  pub show_p2p_typing : Bool
  pub is_thread_list_open : Bool
  pub replying_p2p_message : Option P2pMessage
  pub typing_timer : Bool
  pub attachment_urls : List String
  pub ui : Ui.UiState

unfoldable pub initial : Panel
unfolding initial_conversations
initial = record {
  p2p_conversations = initial_conversations;
  p2p_text = "";
  is_p2p_drawer_open = false;
  chat_search = "";
  is_all_listeners_dialog_open = false;
  selected_listener = none;
  show_p2p_emoji_picker = false;
  show_p2p_typing = false;
  is_thread_list_open = true;
  replying_p2p_message = none;
  typing_timer = false;
  attachment_urls = [];
  ui = Ui.initial;
}

unfoldable pub active_friend : Panel → Option Person
active_friend p = find (λ person. same_id person.id p.ui.active_p2p_friend_id) room_participants

-- The effect on the total of unread messages.
unfoldable pub sync_unread_effect : Panel → Panel
unfolding Ui.set_p2p_unread_count
sync_unread_effect p = record p {
  ui = Ui.set_p2p_unread_count (total_unread_count p.p2p_conversations) p.ui;
}

-- The effect on the active friend and the text being written.
unfoldable pub typing_effect : Panel → Panel
typing_effect p =
    if is_empty (or_else p.ui.active_p2p_friend_id "") || is_empty (trim p.p2p_text)
    then record p { show_p2p_typing = false; typing_timer = false }
    else record p { show_p2p_typing = true; typing_timer = true }

abbrev pub same_friend : Option String → Option String → Bool
same_friend none none = true
same_friend (some k) (some j) = k == j
same_friend _ _ = false

-- After a change the effect runs if the friend or the text is another one.
unfoldable pub run_typing_effect : (before after : Panel) → Panel
unfolding typing_effect
run_typing_effect before after =
    if same_friend before.ui.active_p2p_friend_id after.ui.active_p2p_friend_id
      && before.p2p_text == after.p2p_text
    then after
    else typing_effect after

-- The timeout that the effect sets.
unfoldable pub typing_timeout : Panel → Panel
typing_timeout p =
    if p.typing_timer then record p { show_p2p_typing = false; typing_timer = false } else p

-- The effect on the active friend; no id and an empty one count alike.
unfoldable pub friend_effect : Panel → Panel
friend_effect p =
    let friend_id = or_else p.ui.active_p2p_friend_id "" in
    if is_empty friend_id
    then record p {
      is_p2p_drawer_open = false;
      chat_search = "";
      is_thread_list_open = true;
      replying_p2p_message = none;
    }
    else record p {
      is_p2p_drawer_open = true;
      is_thread_list_open = true;
      p2p_conversations = mark_conversation_thread_as_read friend_id p.p2p_conversations;
    }

unfoldable pub handle_open_chat_with_person : Person → Panel → Panel
unfolding Ui.set_active_p2p_friend_id
handle_open_chat_with_person person p = record p {
  p2p_text = "";
  show_p2p_emoji_picker = false;
  ui = Ui.set_active_p2p_friend_id (some person.id) p.ui;
  is_p2p_drawer_open = true;
  is_all_listeners_dialog_open = false;
  selected_listener = none;
  replying_p2p_message = none;
}

unfoldable pub handle_open_listener_detail : Person → Panel → Panel
handle_open_listener_detail listener p = record p { selected_listener = some listener }

unfoldable pub handle_back_from_listener_detail : Panel → Panel
handle_back_from_listener_detail p = record p { selected_listener = none }

pub handle_toggle_conversation_thread : Panel → Panel
unfolding active_friend
handle_toggle_conversation_thread p =
    let next = not p.is_thread_list_open in
    let toggled = record p { is_thread_list_open = next } in
    elim (active_friend p) [
      | none ↦ toggled
      | some friend ↦
          if next && not (is_empty friend.id)
          then record toggled {
            p2p_conversations = mark_conversation_thread_as_read friend.id p.p2p_conversations;
          }
          else toggled
    ]

abbrev same_message : P2pMessage → Option P2pMessage → Bool
same_message message none = false
same_message message (some m) = m.id == message.id

unfoldable pub handle_p2p_reply_message : P2pMessage → Panel → Panel
handle_p2p_reply_message message p =
    if same_message message p.replying_p2p_message
    then record p { replying_p2p_message = none }
    else record p { replying_p2p_message = some message }

pub handle_all_listeners_open_change : Bool → Panel → Panel
handle_all_listeners_open_change open_now p =
    if open_now
    then record p { is_all_listeners_dialog_open = true }
    else record p { is_all_listeners_dialog_open = false; selected_listener = none }

pub handle_p2p_drawer_open_change : Bool → Panel → Panel
unfolding Ui.set_active_p2p_friend_id
handle_p2p_drawer_open_change open_now p =
    if not open_now
    then record p {
      is_p2p_drawer_open = false;
      ui = Ui.set_active_p2p_friend_id none p.ui;
      p2p_text = "";
      show_p2p_emoji_picker = false;
      replying_p2p_message = none;
    }
    else record p { is_p2p_drawer_open = true }
