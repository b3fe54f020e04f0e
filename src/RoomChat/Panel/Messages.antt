-- ===== src/RoomChat/Panel/Messages.antt =====
-- client/src/components/room/room-side-panel.tsx: the messages of the room.
use wave_cast.Common.{
  String, false, ◌≡◌, List, map, has, Distinct, Distinct-append_one, trim, is_empty, Bool-cases,
  inl, inr,
}
use mathlib.Core.List.{map-append}
use wave_cast.RoomChat.Panel.{SidePanel, handle_send_room_chat}
use wave_cast.Types.{Person}

abbrev message_ids : SidePanel → List String
message_ids p = map (λ m. m.id) p.room_messages

-- Ids stay distinct when a new one is drawn for each message that is sent.
handle_send_room_chat-Distinct :
    (alex : Person) (fresh : String) (p : SidePanel)
    → has fresh (message_ids p) ≡ false
    → Distinct (message_ids p)
    → Distinct (message_ids (handle_send_room_chat alex fresh p))
unfolding handle_send_room_chat
handle_send_room_chat-Distinct alex fresh p new d =
    elim (Bool-cases (is_empty (trim p.chat_text))) [
      | inl blank ↦ rw (blank, handle_send_room_chat) d
      | inr said ↦
          rw (said, handle_send_room_chat, map-append)
            (Distinct-append_one (message_ids p) fresh d new)
    ]
