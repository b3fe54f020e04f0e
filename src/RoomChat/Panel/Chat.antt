-- ===== src/RoomChat/Panel/Chat.antt =====
-- client/src/components/room/room-side-panel.tsx: the chat of a room over a whole visit.
pub mod Follows
use Prim.Native.String as S
use mathlib.Core.List.{map-append, append_assoc}
use wave_cast.Common.{
  String, Bool, true, false, not, ◌≡◌, refl, sym, ap, ◌∙◌, List, [], ◌∷◌, ◌++◌, Option, none, some,
  map, All, All-append, trim, is_empty, ◌==◌, if◌then◌else◌, arith, Bool-cases, Option-cases, inl,
  inr,
}
use wave_cast.Reactions.{QuickReaction, thumbs_up, thumbs_down}
use wave_cast.RoomChat.Message.{
  RoomChatMessage, seed_room_messages, react_by_emoji, react_to_room_message,
}
use wave_cast.RoomChat.Message.Laws.{IsTallied, react_by_emoji-IsTallied}
use wave_cast.RoomChat.Panel.{
  SidePanel, initial, handle_send_room_chat, handle_kick_person, toggle_room_emoji_reaction,
  toggle_room_message_reaction, add_room_emoji, handle_reply_to_message, request_friend,
  append_room_message, change_message, own_room_message, quote_of,
}
use wave_cast.RoomChat.Rows.{set_chat_text, cancel_reply, toggle_room_emoji_picker}
use wave_cast.Types.{Person}

-- What the user does in the panel. A message is sent under an id that is drawn; a removal has the
-- answer to its question.
pub data Act : Type 0 where
  write emoji send : String → Act
  tap : String → QuickReaction → Act
  reply : RoomChatMessage → Act
  cancel picker : Act
  kick : Bool → Person → Act
  befriend : Person → Act

module _ (me : Person) where
  pub act : Act → SidePanel → SidePanel
  act (write text) p = set_chat_text text p
  act (emoji e) p = add_room_emoji e p
  act (send fresh) p = handle_send_room_chat me fresh p
  act (tap id r) p = toggle_room_emoji_reaction id r p
  act (reply m) p = handle_reply_to_message m p
  act cancel p = cancel_reply p
  act picker p = toggle_room_emoji_picker p
  act (kick confirmed person) p = (handle_kick_person me confirmed person p).0
  act (befriend person) p = (request_friend person p).0

  pub acts : List Act → SidePanel → SidePanel
  acts [] p = p
  acts (a ∷ rest) p = acts rest (act a p)

-- What is written, and the messages that were sent, each with its id.
pub record Transcript : Type 0 where
  pub text : String
  pub said : List (String × String)

abbrev pub say : Act → Transcript → Transcript
say (write text) s = record s { text = text }
say (emoji e) s = record s { text = if is_empty s.text then e else S.◌++◌ s.text (S.◌++◌ " " e) }
say (send fresh) s = record {
  text = "";
  said = if is_empty (trim s.text) then s.said else s.said ++ (fresh, trim s.text) ∷ [];
}
say _ s = s

abbrev pub transcript : List Act → Transcript → Transcript
transcript [] s = s
transcript (a ∷ rest) s = transcript rest (say a s)

abbrev pub nothing_said : Transcript
nothing_said = record { text = ""; said = [] }

abbrev pub line : RoomChatMessage → String × String
line m = (m.id, m.body)
