-- ===== src/Sidebar/Agenda.antt =====
-- client/src/components/room/live-sidebar.tsx and client/src/app/my-room/page.tsx: a reminder that is
-- set in the sidebar is on the agenda of the user's rooms.
use wave_cast.Common.{
  String, true, false, not, ◌&&◌, ◌||◌, ◌≡◌, refl, ◌∙◌, has, has-append, filter, if◌then◌else◌,
  has-delete, delete, [], ◌∷◌, ◌==◌, eq_iff, eq_refl, arith,
}
use wave_cast.MyRooms.{MyRoom, agenda_rooms, agenda_seed}
use wave_cast.MyRooms.Agenda.{agenda_ids, agenda_rooms_lem, is_a_room}
use wave_cast.Sidebar.{Sidebar, handle_upcoming_reminder}
use wave_cast.Stores.Reminder as Reminder

pub has-toggle :
    (k j : String) (st : Reminder.RoomReminderState)
    → has j (Reminder.toggle_reminder k st).reminded_room_ids
      ≡ (if k == j then not (has j st.reminded_room_ids) else has j st.reminded_room_ids)
unfolding Reminder.toggle_reminder delete
has-toggle k j st =
    let removed : has j (filter (λ id. not (id == k)) st.reminded_room_ids)
        ≡ (has j st.reminded_room_ids && not (k == j)) =
      has-delete k j st.reminded_room_ids in
    ground (arith, removed, has-append j st.reminded_room_ids (k ∷ []), eq_iff k j)

pub handle_upcoming_reminder-store :
    (k title : String) (s : Sidebar)
    → (handle_upcoming_reminder k title s).0.store ≡ Reminder.toggle_reminder k s.store
unfolding handle_upcoming_reminder
handle_upcoming_reminder-store k title s = refl

-- The page beside the sidebar: it reads the store that the sidebar writes.
abbrev pub beside : MyRoom → Sidebar → MyRoom
beside p s = record p { store = s.store }

-- One click on an upcoming meetup that exists and was not removed: the room is on the agenda
-- afterwards exactly if it is seeded or had no reminder, and every other room is on it as before.
handle_upcoming_reminder-agenda_rooms :
    (k title : String) (s : Sidebar) (p : MyRoom)
    → is_a_room k ≡ true
    → has k p.removed_room_ids ≡ false
    → let after = beside p (handle_upcoming_reminder k title s).0 in
      (has k (agenda_ids (agenda_rooms after))
        ≡ (has k (agenda_ids agenda_seed) || not (has k s.store.reminded_room_ids)))
      × ((j : String)
          → (k == j) ≡ false
          → has j (agenda_ids (agenda_rooms after))
            ≡ has j (agenda_ids (agenda_rooms (beside p s))))
unfolding handle_upcoming_reminder
handle_upcoming_reminder-agenda_rooms k title s p known kept =
    let (_, before, _) = agenda_rooms_lem (beside p s) in
    let (_, there, _) = agenda_rooms_lem (beside p (handle_upcoming_reminder k title s).0) in
    (
      there k ∙ ground (arith, has-toggle k k s.store, eq_refl k),
      λ j other. there j ∙ ground (arith, has-toggle k j s.store, before j),
    )
