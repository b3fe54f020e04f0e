-- ===== src/Stores/Speaker/Queue.antt =====
-- client/src/stores/speaker-store.ts: lemmas on queues of requests. `ids` and `people` list what
-- must not occur twice.
use wave_cast.Common.{
  String, Bool, true, false, not, ◌&&◌, ◌||◌, ◌≡◌, refl, List, [], ◌∷◌, ◌++◌, some, any, find,
  filter, has, map, Distinct, ◌==◌, if◌then◌else◌, arith, eq_iff, Bool-cases, inl, inr, eq_refl,
}
use wave_cast.Types.{SpeakerRequest, RequestStatus, is_pending}

abbrev pub ids : List SpeakerRequest → List String
ids = map (λ r. r.id)

abbrev pub people : List SpeakerRequest → List String
people = map (λ r. r.person.id)

-- Some request is this person's, whatever its status.
abbrev pub of_person : String → List SpeakerRequest → Bool
of_person p = any (λ r. r.person.id == p)

abbrev pub AllPending : List SpeakerRequest → Type 0
AllPending [] = Unit
AllPending (r ∷ rs) = (r.status ≡ RequestStatus.pending) × AllPending rs

pub of_person-has : (p : String) (rs : List SpeakerRequest) → of_person p rs ≡ has p (people rs)
of_person-has p [] = refl
of_person-has p (r ∷ rs) = ground (arith, of_person-has p rs)

-- Where all are pending, "active" says no more than whose the request is.
pub any_active :
    (p : String) (rs : List SpeakerRequest)
    → AllPending rs
    → any (λ r. r.person.id == p && is_pending r.status) rs ≡ of_person p rs
any_active p [] h = refl
any_active p (r ∷ rs) (e, h) = ground (arith, any_active p rs h)

pub AllPending-append :
    (rs : List SpeakerRequest) (r : SpeakerRequest)
    → AllPending rs
    → r.status ≡ RequestStatus.pending
    → AllPending (rs ++ r ∷ [])
AllPending-append [] r h e = (e, tt)
AllPending-append (q ∷ rs) r (d, h) e = (d, AllPending-append rs r h e)

pub AllPending-filter :
    (p : SpeakerRequest → Bool) (rs : List SpeakerRequest)
    → AllPending rs
    → AllPending (filter p rs)
AllPending-filter p [] h = h
AllPending-filter p (r ∷ rs) (e, h) =
    elim (p r) as (λ b. AllPending (if b then r ∷ filter p rs else filter p rs)) [
      | true ↦ (e, AllPending-filter p rs h)
      | false ↦ AllPending-filter p rs h
    ]

-- Lists of one text of each request, `ids` and `people` alike.
module _ (f : SpeakerRequest → String) where
  pub has-map-filter :
      (p : SpeakerRequest → Bool) (k : String) (rs : List SpeakerRequest)
      → has k (map f rs) ≡ false
      → has k (map f (filter p rs)) ≡ false
  has-map-filter p k [] h = refl
  has-map-filter p k (r ∷ rs) h = ground (arith, has-map-filter p k rs)

  pub Distinct-map-filter :
      (p : SpeakerRequest → Bool) (rs : List SpeakerRequest)
      → Distinct (map f rs)
      → Distinct (map f (filter p rs))
  Distinct-map-filter p [] d = d
  Distinct-map-filter p (r ∷ rs) (n, d) =
      ground (arith, has-map-filter p (f r) rs n, Distinct-map-filter p rs d)

  pub has-map-append :
      (k : String) (rs : List SpeakerRequest) (r : SpeakerRequest)
      → has k (map f (rs ++ r ∷ [])) ≡ (has k (map f rs) || f r == k)
  has-map-append k [] r = ground arith
  has-map-append k (q ∷ rs) r = ground (arith, has-map-append k rs r)

  pub Distinct-map-append :
      (rs : List SpeakerRequest) (r : SpeakerRequest)
      → Distinct (map f rs)
      → has (f r) (map f rs) ≡ false
      → Distinct (map f (rs ++ r ∷ []))
  Distinct-map-append [] r d n = (refl, tt)
  Distinct-map-append (q ∷ rs) r (m, d) n = ground (
    arith,
    Distinct-map-append rs r d,
    has-map-append (f q) rs r,
    eq_iff (f r) (f q),
    eq_iff (f q) (f r),
  )

  pub has-map-filter_ne :
      (k : String) (rs : List SpeakerRequest)
      → has k (map f (filter (λ r. not (f r == k)) rs)) ≡ false
  has-map-filter_ne k [] = refl
  has-map-filter_ne k (r ∷ rs) = ground (arith, has-map-filter_ne k rs)

filter_id_absent :
    (k : String) (rs : List SpeakerRequest)
    → has k (ids rs) ≡ false
    → filter (λ r. not (r.id == k)) rs ≡ rs
filter_id_absent k [] h = refl
filter_id_absent k (r ∷ rs) h = ground (arith, filter_id_absent k rs)

has-people_of_find :
    (k : String) (rs : List SpeakerRequest) (removed : SpeakerRequest)
    → find (λ r. r.id == k) rs ≡ some removed
    → has removed.person.id (people rs) ≡ true
has-people_of_find k [] removed h = cc
has-people_of_find k (r ∷ rs) removed h = elim (Bool-cases (r.id == k)) [
  | inl same ↦ let e : r ≡ removed = ground arith in rw (← e) (ground (arith, eq_refl r.person.id))
  | inr other ↦ ground (arith, has-people_of_find k rs removed (ground arith))
]

-- After the requests with an id are dropped, a person who has none of them is still there.
pub of_person-filter_id :
    (p k : String) (rs : List SpeakerRequest) (removed : SpeakerRequest)
    → Distinct (ids rs)
    → Distinct (people rs)
    → find (λ r. r.id == k) rs ≡ some removed
    → of_person p (filter (λ r. not (r.id == k)) rs)
      ≡ (of_person p rs && not (removed.person.id == p))
of_person-filter_id p k [] removed d e h = cc
of_person-filter_id p k (r ∷ rs) removed (n, d) (m, e) h = elim (Bool-cases (r.id == k)) [
  | inl same ↦
      let absent : has k (ids rs) ≡ false = rw (← (eq_iff r.id k).0 same) n in
      let e : r ≡ removed = ground arith in
      rw (same, filter_id_absent k rs absent, ← e)
        (ground (arith, of_person-has p rs, eq_iff r.person.id p))
  | inr other ↦
      let found : find (λ r'. r'.id == k) rs ≡ some removed = ground arith in
      let there = has-people_of_find k rs removed found in
      rw other (
        ground (
          arith,
          of_person-filter_id p k rs removed d e found,
          of_person-has p rs,
          eq_iff removed.person.id p,
          eq_iff r.person.id p,
        ))
]

pub of_person-filter_ne :
    (p : String) (rs : List SpeakerRequest)
    → of_person p (filter (λ r. not (r.person.id == p)) rs) ≡ false
of_person-filter_ne p [] = refl
of_person-filter_ne p (r ∷ rs) = ground (arith, of_person-filter_ne p rs)

pub of_person-append :
    (p : String) (rs : List SpeakerRequest) (r : SpeakerRequest)
    → of_person p (rs ++ r ∷ []) ≡ (of_person p rs || r.person.id == p)
of_person-append p [] r = ground arith
of_person-append p (q ∷ rs) r = ground (arith, of_person-append p rs r)
