-- ===== src/MyRooms/Card/Finish.antt =====
-- client/src/app/my-room/page.tsx: what the cards and the panel show once a room is finished.
use wave_cast.Common.{
  String, true, ◌≡◌, refl, ap, ◌∙◌, sym, List, [], ◌∷◌, has, has-add, All, arith, eq_refl, is_some,
}
use wave_cast.MyRooms.{AgendaRoom, MyRoom, agenda_rooms, finish_room}
use wave_cast.MyRooms.Agenda.{agenda_ids, agenda_rooms_lem, ShownFinished}
use wave_cast.MyRooms.Card.{TopButton, agenda_card, room_info}
use wave_cast.Types.{RoomStatus}

-- The card offers to remove the room and not to finish it, and so does the panel, which shows the
-- report and the activity.
abbrev IsOver : AgendaRoom → Type 0
IsOver r =
    ((agenda_card r).top_button ≡ TopButton.remove)
    × ((room_info r).button ≡ "Manage")
    × (is_some (room_info r).report_and_activity ≡ true)

finished-IsOver : (r : AgendaRoom) → r.item.status ≡ RoomStatus.finished → IsOver r
unfolding agenda_card room_info
finished-IsOver r h = (rw h refl, rw h refl, rw h refl)

abbrev pub OverAt : String → AgendaRoom → Type 0
OverAt k r = r.item.id ≡ k → IsOver r

shown-OverAt :
    (k : String) (p : MyRoom) (rs : List AgendaRoom)
    → has k p.finished_room_ids ≡ true
    → All (ShownFinished p) rs
    → All (OverAt k) rs
shown-OverAt k p [] over h = tt
shown-OverAt k p (r ∷ rs) over (s, h) = (
  λ same. finished-IsOver r (s (ap (λ i. has i p.finished_room_ids) same ∙ over)).0,
  shown-OverAt k p rs over h,
)

-- Finishing a room leaves the same rooms on the agenda, and the room is shown as one that can be
-- removed but not finished again, with its report and activity.
pub finish_room_lem :
    (k : String) (p : MyRoom)
    → ((j : String)
        → has j (agenda_ids (agenda_rooms (finish_room k p))) ≡ has j (agenda_ids (agenda_rooms p)))
      × All (OverAt k) (agenda_rooms (finish_room k p))
unfolding finish_room
finish_room_lem k p =
    let (_, before, _) = agenda_rooms_lem p in
    let (_, after, shown) = agenda_rooms_lem (finish_room k p) in
    (
      λ j. after j ∙ sym (before j),
      shown-OverAt k (finish_room k p) (agenda_rooms (finish_room k p))
          (ground (arith, has-add k k p.finished_room_ids, eq_refl k)) shown,
    )
