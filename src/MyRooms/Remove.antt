-- ===== src/MyRooms/Remove.antt =====
-- client/src/app/my-room/page.tsx: what removing a room leaves.
use wave_cast.Common.{
  String, Bool, true, not, ◌&&◌, ◌||◌, ◌≡◌, ◌≢◌, refl, List, [], ◌∷◌, some, find, filter, has,
  has-delete, delete, has-add, add, head?, arith, Bool-cases, Option-cases, inl, inr, ◌==◌, eq_iff,
  ◌∙◌, sym, ap, eq_refl,
}
use mathlib.Core.Path.{subst}
use wave_cast.MyRooms.{
  AgendaRoom, MyRoom, agenda_seed, agenda_rooms, visible_rooms, selected_room, remove_room,
  or_option, kind_text,
}
use wave_cast.MyRooms.Agenda.{agenda_ids, agenda_rooms_lem, is_a_room}

find-has :
    (t : AgendaRoom → Bool) (rs : List AgendaRoom) (r : AgendaRoom)
    → find t rs ≡ some r
    → has r.item.id (agenda_ids rs) ≡ true
find-has t [] r h = cc
find-has t (q ∷ rs) r h = ground (arith, find-has t rs r, eq_refl r.item.id)

head-has :
    (rs : List AgendaRoom) (r : AgendaRoom)
    → head? rs ≡ some r
    → has r.item.id (agenda_ids rs) ≡ true
head-has [] r h = cc
head-has (q ∷ rs) r h = ground (arith, eq_refl r.item.id)

filter-has :
    (t : AgendaRoom → Bool) (k : String) (rs : List AgendaRoom)
    → has k (agenda_ids (filter t rs)) ≡ true
    → has k (agenda_ids rs) ≡ true
filter-has t k [] h = h
filter-has t k (r ∷ rs) h = ground (arith, filter-has t k rs)

visible-has :
    (k : String) (p : MyRoom)
    → has k (agenda_ids (visible_rooms p)) ≡ true
    → has k (agenda_ids (agenda_rooms p)) ≡ true
unfolding visible_rooms
visible-has k p h = elim (Bool-cases (p.active_tab == "all")) [
  | inl every ↦ subst (λ l. has k (agenda_ids l) ≡ true) (rw (every, visible_rooms) refl) h
  | inr one ↦
      filter-has (λ r. kind_text r.agenda_kind == p.active_tab) k (agenda_rooms p)
        (subst (λ l. has k (agenda_ids l) ≡ true) (rw (one, visible_rooms) refl) h)
]

-- A choice among two lists, the second of which is part of the first.
pick-has :
    (t : AgendaRoom → Bool) (listed part : List AgendaRoom) (r : AgendaRoom)
    → ((k : String) → has k (agenda_ids part) ≡ true → has k (agenda_ids listed) ≡ true)
    → or_option (find t listed) (or_option (head? part) (head? listed)) ≡ some r
    → has r.item.id (agenda_ids listed) ≡ true
pick-has t listed part r sub h = elim (Option-cases (find t listed)) [
  | inr (q, found) ↦
      find-has t listed r
        (found ∙ (sym (ap (λ o. or_option o (or_option (head? part) (head? listed))) found) ∙ h))
  | inl lacks ↦ elim (Option-cases (head? part)) [
    | inr (q, first) ↦ sub r.item.id (
        head-has part r (
          first
          ∙ (sym (
                ap (λ o. or_option o (or_option (head? part) (head? listed))) lacks
                ∙ ap (λ o. or_option o (head? listed)) first)
              ∙ h)))
    | inl bare ↦ head-has listed r (
        sym (
          ap (λ o. or_option o (or_option (head? part) (head? listed))) lacks
          ∙ ap (λ o. or_option o (head? listed)) bare)
        ∙ h)
  ]
]

-- The room shown in the side panel is on the agenda, whatever tab is open.
pub selected_room-has :
    (p : MyRoom) (r : AgendaRoom)
    → selected_room p ≡ some r
    → has r.item.id (agenda_ids (agenda_rooms p)) ≡ true
unfolding selected_room
selected_room-has p r h =
    pick-has (λ q. q.item.id == p.selected_room_id) (agenda_rooms p) (visible_rooms p) r
      (λ k. visible-has k p) h

drop_both :
    (seeded reminded known gone same : Bool)
    → ((seeded || (reminded && not same) && known) && not (gone || same))
      ≡ (((seeded || reminded && known) && not gone) && not same)
drop_both seeded reminded known gone same = ground arith

remove_room-has :
    (k j : String) (p : MyRoom)
    → has j (agenda_ids (agenda_rooms (remove_room k p)))
      ≡ (has j (agenda_ids (agenda_rooms p)) && not (k == j))
unfolding remove_room delete
remove_room-has k j p =
    let (_, before, _) = agenda_rooms_lem p in
    let (_, after, _) = agenda_rooms_lem (remove_room k p) in
    let seeded = has j (agenda_ids agenda_seed) in
    after j
    ∙ (ap (λ b. (seeded || b && is_a_room j) && not (has j (add k p.removed_room_ids)))
          (has-delete k j p.store.reminded_room_ids)
        ∙ (ap
              (λ b.
                (seeded || (has j p.store.reminded_room_ids && not (k == j)) && is_a_room j)
                && not b)
              (has-add k j p.removed_room_ids)
            ∙ (drop_both seeded (has j p.store.reminded_room_ids) (is_a_room j)
                  (has j p.removed_room_ids) (k == j)
                ∙ sym (ap (λ b. b && not (k == j)) (before j)))))

listed_away : (b : Bool) (i k : String) → i ≡ k → (b && not (k == i)) ≡ true → ⊥
listed_away b i k same h = ground (arith, eq_iff k i)

-- Removing a room takes exactly its id off the agenda and its reminder off the store, and the room
-- in the side panel afterwards, if any, is another one.
pub remove_room_lem :
    (k : String) (p : MyRoom)
    → ((j : String)
        → has j (agenda_ids (agenda_rooms (remove_room k p)))
          ≡ (has j (agenda_ids (agenda_rooms p)) && not (k == j)))
      × ((j : String)
          → has j (remove_room k p).store.reminded_room_ids
            ≡ (has j p.store.reminded_room_ids && not (k == j)))
      × ((r : AgendaRoom) → selected_room (remove_room k p) ≡ some r → r.item.id ≢ k)
unfolding remove_room delete
remove_room_lem k p = (
  λ j. remove_room-has k j p,
  λ j. has-delete k j p.store.reminded_room_ids,
  λ r picked same.
      listed_away (has r.item.id (agenda_ids (agenda_rooms p))) r.item.id k same
        (sym (remove_room-has k r.item.id p) ∙ selected_room-has (remove_room k p) r picked),
)
