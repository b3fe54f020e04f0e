-- ===== src/RoomChat/Panel/People.antt =====
-- client/src/components/room/room-side-panel.tsx: who can be removed from the room.
use wave_cast.Common.{
  String, Bool, true, not, ◌&&◌, ◌≡◌, List, [], ◌∷◌, Option, none, some, find, filter, has,
  has-delete, ◌==◌, eq_iff, arith, if◌then◌else◌, inl, inr, Option-cases, ◌∙◌,
}
use wave_cast.RoomChat.Panel.{SidePanel, can_moderate_room, handle_kick_person}
use wave_cast.Types.{Person, is_host}

abbrev pub member : String → SidePanel → Option Person
member k p = find (λ m. m.id == k) p.room_people

-- When a removal goes through: another person, who is no host, removed by someone who may
-- moderate, after a confirmation.
abbrev pub may_kick : Person → Bool → Person → Bool
may_kick viewer confirmed person =
    not (person.id == viewer.id)
    && can_moderate_room viewer.role
    && not (is_host person.role)
    && confirmed

find-filter_ne :
    (k j : String) (ps : List Person)
    → find (λ m. m.id == j) (filter (λ m. not (m.id == k)) ps)
      ≡ (if k == j then none else find (λ m. m.id == j) ps)
find-filter_ne k j [] = ground arith
find-filter_ne k j (m ∷ ps) =
    ground (arith, find-filter_ne k j ps, eq_iff m.id k, eq_iff m.id j, eq_iff k j)

-- Whoever is to be removed, by whomever, and whatever is answered: a member is gone afterwards
-- exactly if the removal may go through and the id is the person's, a request sent to a person is
-- forgotten in the same case, and all other members, requests and messages stay. The removal may
-- go through if the person is not the viewer and no host, the viewer is host, moderator or admin,
-- and the dialog is confirmed.
pub handle_kick_person_lem :
    (viewer person : Person) (confirmed : Bool) (p : SidePanel) (k : String)
    → (member k (handle_kick_person viewer confirmed person p).0
        ≡ (if may_kick viewer confirmed person && person.id == k then none else member k p))
      × (has k (handle_kick_person viewer confirmed person p).0.requested_ids
          ≡ (has k p.requested_ids && not (may_kick viewer confirmed person && person.id == k)))
      × ((handle_kick_person viewer confirmed person p).0.room_messages ≡ p.room_messages)
unfolding handle_kick_person
handle_kick_person_lem viewer person confirmed p k =
    ground (arith, find-filter_ne person.id k p.room_people, has-delete person.id k p.requested_ids)

-- A click on the row of a member.
kick_row : Person → Bool → String → SidePanel → SidePanel
kick_row viewer confirmed id p = elim (member id p) [
  | none ↦ p
  | some person ↦ (handle_kick_person viewer confirmed person p).0
]

kick_rows : List (Person × Bool × String) → SidePanel → SidePanel
kick_rows [] p = p
kick_rows ((viewer, confirmed, id) ∷ rest) p = kick_rows rest (kick_row viewer confirmed id p)

member-id :
    (k : String) (ps : List Person) (q : Person) → find (λ m. m.id == k) ps ≡ some q → q.id ≡ k
member-id k [] q h = cc
member-id k (m ∷ ps) q h = ground (arith, member-id k ps q, eq_iff m.id k)

kick_row-host :
    (viewer : Person) (confirmed : Bool) (id k : String) (p : SidePanel) (q : Person)
    → member k p ≡ some q
    → is_host q.role ≡ true
    → member k (kick_row viewer confirmed id p) ≡ some q
unfolding kick_row
kick_row-host viewer confirmed id k p q h chief = elim (Option-cases (member id p)) [
  | inl missing ↦ rw (missing, kick_row) h
  | inr (person, found) ↦
      rw (found, kick_row)
        ((handle_kick_person_lem viewer person confirmed p k).0
          ∙ ground
              (arith, h, chief, found, eq_iff person.id k, member-id id p.room_people person found))
]

-- Whatever rows are clicked, by whomever and with whatever answers: a host among the members is
-- still a member afterwards.
kick_rows-host :
    (clicks : List (Person × Bool × String)) (k : String) (p : SidePanel) (q : Person)
    → member k p ≡ some q
    → is_host q.role ≡ true
    → member k (kick_rows clicks p) ≡ some q
unfolding kick_rows
kick_rows-host [] k p q h chief = h
kick_rows-host ((viewer, confirmed, id) ∷ rest) k p q h chief =
    kick_rows-host rest k (kick_row viewer confirmed id p) q
      (kick_row-host viewer confirmed id k p q h chief) chief
