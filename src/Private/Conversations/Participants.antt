-- ===== src/Private/Conversations/Participants.antt =====
-- client/src/components/room/listener-panel.tsx: who is offered as a conversation partner.
use wave_cast.Common.{
  String, not, ◌&&◌, ◌||◌, ◌≡◌, refl, List, [], ◌∷◌, map, insert, keys, values, has, Distinct,
  has-keys-insert, Distinct-keys-insert, arith, Bool-cases, inl, inr, ◌==◌, eq_iff, sym,
}
use wave_cast.MockData.{alex}
use wave_cast.Types.{Person}
use wave_cast.Private.Conversations.{collect_people, participants}

abbrev pub ids : List Person → List String
ids = map (λ p. p.id)

-- Each entry of the map stands under its person's id.
abbrev Keyed : List (String × Person) → Type 0
Keyed [] = Unit
Keyed ((k, p) ∷ m) = (p.id ≡ k) × Keyed m

Keyed-insert : (p : Person) (m : List (String × Person)) → Keyed m → Keyed (insert p.id p m)
unfolding insert
Keyed-insert p [] h = (refl, tt)
Keyed-insert p ((k, q) ∷ m) (e, h) = elim (Bool-cases (k == p.id)) [
  | inl same ↦ rw same (sym ((eq_iff k p.id).0 same), h)
  | inr other ↦ rw other (e, Keyed-insert p m h)
]

Keyed-ids : (m : List (String × Person)) → Keyed m → ids (values m) ≡ keys m
Keyed-ids [] h = refl
Keyed-ids ((k, p) ∷ m) (e, h) = rw (e, Keyed-ids m h) refl

collect-Keyed :
    (ps : List Person) (m : List (String × Person)) → Keyed m → Keyed (collect_people ps m)
unfolding collect_people
collect-Keyed [] m h = h
collect-Keyed (p ∷ ps) m h = elim (Bool-cases (p.id == alex.id)) [
  | inl self ↦ rw self (collect-Keyed ps m h)
  | inr other ↦ rw other (collect-Keyed ps _ (Keyed-insert p m h))
]

collect-Distinct :
    (ps : List Person) (m : List (String × Person))
    → Distinct (keys m)
    → Distinct (keys (collect_people ps m))
unfolding collect_people
collect-Distinct [] m h = h
collect-Distinct (p ∷ ps) m h = elim (Bool-cases (p.id == alex.id)) [
  | inl self ↦ rw self (collect-Distinct ps m h)
  | inr other ↦ rw other (collect-Distinct ps _ (Distinct-keys-insert p.id p m h))
]

collect-has :
    (k : String) (ps : List Person) (m : List (String × Person))
    → has k (keys (collect_people ps m)) ≡ (has k (keys m) || has k (ids ps) && not (k == alex.id))
unfolding collect_people
collect-has k [] m = ground arith
collect-has k (p ∷ ps) m = elim (Bool-cases (p.id == alex.id)) [
  | inl self ↦
      rw (self, collect-has k ps m)
        (ground (arith, eq_iff p.id k, eq_iff p.id alex.id, eq_iff k alex.id))
  | inr other ↦
      rw (other, collect-has k ps (insert p.id p m), has-keys-insert p.id k p m)
        (ground (arith, eq_iff p.id k, eq_iff p.id alex.id, eq_iff k alex.id))
]

-- Whatever people a room lists, its conversation partners are distinct, and an id is among theirs
-- exactly when the room lists it and it is not the current user's.
participants_lem :
    (everyone : List Person)
    → Distinct (ids (participants everyone))
      × ((k : String)
          → has k (ids (participants everyone)) ≡ (has k (ids everyone) && not (k == alex.id)))
unfolding participants
participants_lem everyone =
    let same = Keyed-ids (collect_people everyone []) (collect-Keyed everyone [] tt) in
    rw same (collect-Distinct everyone [] tt, λ k. collect-has k everyone [])
