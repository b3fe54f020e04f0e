-- ===== src/Stores/Reminder.antt =====
-- client/src/stores/room-reminder-store.ts: the ids of the rooms to be reminded of.
pub mod Laws
use wave_cast.Common.{String, not, List, [], ◌∷◌, ◌++◌, filter, has, ◌==◌, if◌then◌else◌}

pub record RoomReminderState : Type 0 where
  pub reminded_room_ids : List String

abbrev pub initial : RoomReminderState
initial = record { reminded_room_ids = [] }

pub add_reminder : String → RoomReminderState → RoomReminderState
add_reminder room_id st =
    if has room_id st.reminded_room_ids
    then st
    else record { reminded_room_ids = st.reminded_room_ids ++ room_id ∷ [] }

unfoldable pub remove_reminder : String → RoomReminderState → RoomReminderState
remove_reminder room_id st = record {
  reminded_room_ids = filter (λ id. not (id == room_id)) st.reminded_room_ids;
}

unfoldable pub toggle_reminder : String → RoomReminderState → RoomReminderState
toggle_reminder room_id st =
    if has room_id st.reminded_room_ids
    then record { reminded_room_ids = filter (λ id. not (id == room_id)) st.reminded_room_ids }
    else record { reminded_room_ids = st.reminded_room_ids ++ room_id ∷ [] }
