-- ===== src/Private/Dialogs.antt =====
-- client/src/components/room/listener-panel.tsx: the dialogs of the listeners and of leaving, and the
-- field below an open chat, without their styling.
use Prim.Native.String.{◌++◌}
use wave_cast.Common.{
  ℕ, String, Bool, not, List, [], ◌∷◌, Option, none, some, map, trim, is_empty, if◌then◌else◌,
}
use wave_cast.MockData.{room}
use wave_cast.Private.Drawer.{listener_profile, listeners_remainder}
use wave_cast.Private.Drawer.Rows.{get_role_tone}
use wave_cast.Private.Message.{
  P2pMessage, AttachmentKind, file, image, video, Reply, has_p2p_user_reaction,
}
use wave_cast.Private.Panel.{Panel}
use wave_cast.Reactions.{QuickReaction, quick_reactions}
use wave_cast.Types.{Person, Room, role_text}

-- A listener in the dialog; a click opens the profile.
pub record ListenerRow : Type 0 where
  pub avatar : String
  pub name : String
  pub username : String
  pub role : String
  pub role_tone : String

listener_row : Person → ListenerRow
listener_row listener = record {
  avatar = listener.avatar;
  name = listener.name;
  username = "@" ++ listener.username;
  role = role_text listener.role;
  role_tone = get_role_tone listener.role;
}

-- The profile of one listener, with the number of comments and the last ones, or all listeners.
pub data ListenersView : Type 0 where
  detail : ListenerRow → Option ℕ → List String → ListenersView
  listing : List ListenerRow → ListenersView

listeners_view : Room → Panel → ListenersView
unfolding listener_row listener_profile
listeners_view r p = elim p.selected_listener [
  | none ↦ listing (map listener_row r.listeners)
  | some listener ↦
      detail (listener_row listener) (listener_profile listener p).0 (listener_profile listener p).1
]

-- The number of listeners that the dialog names, and what is below it.
unfoldable listeners_dialog : Panel → Option (ℕ × ListenersView)
unfolding listeners_view
listeners_dialog p =
    if p.is_all_listeners_dialog_open
    then some (room.listener_count, listeners_view room p)
    else none

-- The names beside the pictures, and the number of listeners who have none.
unfoldable listeners_strip : List String × Option ℕ
unfolding listeners_remainder
listeners_strip = (map (λ listener. listener.name) room.listeners, listeners_remainder)

-- Title, description and buttons of the question before leaving.
abbrev leave_dialog : String × String × List String
leave_dialog = (
  "Leave room?",
  "You will stop listening and return to the rooms list.",
  "Cancel" ∷ "Leave Room" ∷ [],
)

-- The menu of a message: each reaction with whether it is the user's own, then the reply.
unfoldable message_menu : P2pMessage → List (QuickReaction × Bool)
unfolding has_p2p_user_reaction
message_menu message =
    map (λ reaction. (reaction, has_p2p_user_reaction message reaction)) quick_reactions

-- The message that is replied to.
reply_preview : Panel → Option Reply
reply_preview p = elim p.replying_p2p_message [
  | none ↦ none
  | some message ↦ some (record { name = message.name; text = message.text })
]

-- The buttons for picking a file, and the types of files that their inputs accept.
abbrev attachment_inputs : List (String × AttachmentKind × Option String)
attachment_inputs =
    ("Attach file", file, none)
    ∷ ("Attach image", image, some "image/*")
    ∷ ("Attach video", video, some "video/*")
    ∷ []

-- The field of a message; `is_ready` is whether the button for sending is drawn as active.
pub record Composer : Type 0 where
  pub reply : Option Reply
  pub shows_emoji : Bool
  pub text : String
  pub send_label : String
  pub is_ready : Bool

unfoldable composer : Person → Panel → Composer
unfolding reply_preview trim
composer friend p = record {
  reply = reply_preview p;
  shows_emoji = p.show_p2p_emoji_picker;
  text = p.p2p_text;
  send_label = "Send message to " ++ friend.name;
  is_ready = not (is_empty (trim p.p2p_text));
}
