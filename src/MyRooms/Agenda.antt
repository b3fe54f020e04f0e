-- ===== src/MyRooms/Agenda.antt =====
-- client/src/app/my-room/page.tsx: what the agenda lists.
use wave_cast.Common.{
  ℕ, suc, String, Bool, true, false, not, ◌&&◌, ◌||◌, ◌≡◌, refl, List, [], ◌∷◌, ◌++◌, some, map,
  find, insert, keys, values, has, Distinct, has-keys-insert, Distinct-keys-insert, arith,
  if◌then◌else◌, Bool-cases, Option-cases, inl, inr, ◌==◌, eq_iff, ◌∙◌, sym, ap, All, is_some,
}
use mathlib.Core.Path.{subst}
use wave_cast.MockData.{rooms}
use wave_cast.MyRooms.{
  AgendaRoom, MyRoom, Priority, finished, merge, find_room, to_reminder_agenda_room, agenda_seed,
  agenda_rooms, reminder_rooms,
}
use wave_cast.Types.{Room, RoomStatus}

abbrev pub agenda_ids : List AgendaRoom → List String
agenda_ids = map (λ r. r.item.id)

abbrev pub is_a_room : String → Bool
is_a_room k = is_some (find_room k)

find-id : (k : String) (rs : List Room) (q : Room) → find (λ r. r.id == k) rs ≡ some q → q.id ≡ k
find-id k [] q h = cc
find-id k (r ∷ rs) q h = ground (arith, find-id k rs q, eq_iff r.id k)

find_room-id : (k : String) (q : Room) → find_room k ≡ some q → q.id ≡ k
unfolding find_room
find_room-id k q h = find-id k rooms q h

-- The entry of a room that was finished on the page says so.
abbrev pub ShownFinished : MyRoom → AgendaRoom → Type 0
ShownFinished p r =
    has r.item.id p.finished_room_ids ≡ true
    → (r.item.status ≡ RoomStatus.finished)
      × (r.item.recording ≡ false)
      × (r.priority ≡ Priority.saved)

-- Each entry of the map stands under its room's id and shows whether the room is finished.
abbrev Entries : MyRoom → List (String × AgendaRoom) → Type 0
Entries p [] = Unit
Entries p ((k, r) ∷ m) = ((r.item.id ≡ k) × ShownFinished p r) × Entries p m

Entries-insert :
    (p : MyRoom) (k : String) (r : AgendaRoom) (m : List (String × AgendaRoom))
    → r.item.id ≡ k
    → ShownFinished p r
    → Entries p m
    → Entries p (insert k r m)
unfolding insert
Entries-insert p k r [] e s h = ((e, s), tt)
Entries-insert p k r ((j, q) ∷ m) e s (f, h) = elim (Bool-cases (j == k)) [
  | inl same ↦ rw same ((e ∙ sym ((eq_iff j k).0 same), s), h)
  | inr other ↦ rw other (f, Entries-insert p k r m e s h)
]

-- What `merge` writes for a room.
abbrev shown : MyRoom → AgendaRoom → AgendaRoom
shown p r = if has r.item.id p.finished_room_ids then finished r else r

shown-id : (p : MyRoom) (r : AgendaRoom) → (shown p r).item.id ≡ r.item.id
unfolding finished
shown-id p r = ground arith

shown-ShownFinished : (p : MyRoom) (r : AgendaRoom) → ShownFinished p (shown p r)
unfolding finished
shown-ShownFinished p r = elim (Bool-cases (has r.item.id p.finished_room_ids)) [
  | inl over ↦ rw over (λ _. (refl, refl, refl))
  | inr open_now ↦ rw open_now (λ h. absurd (ground (arith, h, open_now)))
]

merge-Entries :
    (p : MyRoom) (xs : List AgendaRoom) (m : List (String × AgendaRoom))
    → Entries p m
    → Entries p (merge p xs m)
unfolding merge
merge-Entries p [] m h = h
merge-Entries p (r ∷ xs) m h = elim (Bool-cases (has r.item.id p.removed_room_ids)) [
  | inl gone ↦ rw gone (merge-Entries p xs m h)
  | inr kept ↦
      rw kept
        (merge-Entries p xs _ (Entries-insert p _ (shown p r) m refl (shown-ShownFinished p r) h))
]

merge-Distinct :
    (p : MyRoom) (xs : List AgendaRoom) (m : List (String × AgendaRoom))
    → Distinct (keys m)
    → Distinct (keys (merge p xs m))
unfolding merge
merge-Distinct p [] m h = h
merge-Distinct p (r ∷ xs) m h = elim (Bool-cases (has r.item.id p.removed_room_ids)) [
  | inl gone ↦ rw gone (merge-Distinct p xs m h)
  | inr kept ↦ rw kept (merge-Distinct p xs _ (Distinct-keys-insert _ (shown p r) m h))
]

merge-has :
    (k : String) (p : MyRoom) (xs : List AgendaRoom) (m : List (String × AgendaRoom))
    → has k (keys (merge p xs m))
      ≡ (has k (keys m) || has k (agenda_ids xs) && not (has k p.removed_room_ids))
unfolding merge
merge-has k p [] m = ground arith
merge-has k p (r ∷ xs) m = elim (Bool-cases (has r.item.id p.removed_room_ids)) [
  | inl gone ↦ rw (gone, merge-has k p xs m) (ground (arith, eq_iff r.item.id k, gone))
  | inr kept ↦
      rw
        (
          kept,
          merge-has k p xs (insert (shown p r).item.id (shown p r) m),
          has-keys-insert (shown p r).item.id k (shown p r) m,
          shown-id p r,
        )
        (ground (arith, eq_iff r.item.id k, kept))
]

Entries-ids :
    (p : MyRoom) (m : List (String × AgendaRoom)) → Entries p m → agenda_ids (values m) ≡ keys m
Entries-ids p [] h = refl
Entries-ids p ((k, r) ∷ m) ((e, s), h) = rw (e, Entries-ids p m h) refl

Entries-All :
    (p : MyRoom) (m : List (String × AgendaRoom)) → Entries p m → All (ShownFinished p) (values m)
Entries-All p [] h = tt
Entries-All p ((k, r) ∷ m) ((e, s), h) = (s, Entries-All p m h)

reminder_ids :
    (k : String) (i : ℕ) (ids : List String)
    → has k (agenda_ids (reminder_rooms i ids)) ≡ (has k ids && is_a_room k)
unfolding reminder_rooms
reminder_ids k i [] = refl
reminder_ids k i (x ∷ ids) = elim (Option-cases (find_room x)) [
  | inl lacks ↦
      rw (reminder_rooms, lacks, reminder_ids k (suc i) ids) (ground (arith, eq_iff x k, lacks))
  | inr (item, found) ↦
      rw (reminder_rooms, found, to_reminder_agenda_room, reminder_ids k (suc i) ids)
        (ground (arith, eq_iff x k, found, find_room-id x item found))
]

listed_ids :
    (k : String) (seed : List AgendaRoom) (ids : List String)
    → has k (agenda_ids (seed ++ reminder_rooms 0 ids))
      ≡ (has k (agenda_ids seed) || has k ids && is_a_room k)
listed_ids k [] ids = reminder_ids k 0 ids
listed_ids k (r ∷ seed) ids = ground (arith, listed_ids k seed ids)

-- The agenda lists no room twice; a room is on it exactly if it is one of the seeded rooms or one
-- that exists and has a reminder, and was not removed; and a room finished on the page is shown
-- as finished, not recording and saved.
pub agenda_rooms_lem :
    (p : MyRoom)
    → Distinct (agenda_ids (agenda_rooms p))
      × ((k : String)
          → has k (agenda_ids (agenda_rooms p)) ≡ (
              (has k (agenda_ids agenda_seed) || has k p.store.reminded_room_ids && is_a_room k)
              && not (has k p.removed_room_ids)))
      × All (ShownFinished p) (agenda_rooms p)
unfolding agenda_rooms
agenda_rooms_lem p =
    let listed = agenda_seed ++ reminder_rooms 0 p.store.reminded_room_ids in
    let entries = merge-Entries p listed [] tt in
    let same = Entries-ids p (merge p listed []) entries in
    (
      subst Distinct (sym same) (merge-Distinct p listed [] tt),
      λ k.
          ap (has k) same
          ∙ (merge-has k p listed []
              ∙ ap (λ b. b && not (has k p.removed_room_ids))
                  (listed_ids k agenda_seed p.store.reminded_room_ids)),
      Entries-All p _ entries,
    )
