-- ===== src/Stage/Session/Queue.antt =====
-- client/src/components/room/stage-panel.tsx: the requests that the menu offers.
use wave_cast.Common.{
  String, Bool, true, false, not, ◌≡◌, List, [], ◌∷◌, some, filter, find, has, Distinct, ◌==◌,
  arith, eq_iff, eq_refl, Bool-cases, inl, inr, All, All-filter,
}
use wave_cast.Stage.{Stage, on_stage_ids, request_queue}
use wave_cast.Stores.Speaker.Queue.{ids}
use wave_cast.Types.{SpeakerRequest, is_pending}

module _ {ℓ} {A : Type ℓ} where
  find-filter : (p q : A → Bool) (xs : List A) (x : A) → find q (filter p xs) ≡ some x → p x ≡ true
  find-filter p q [] x e = cc
  find-filter p q (y ∷ ys) x e = ground (arith, find-filter p q ys x)

  find-All {κ} :
      (P : A → Type κ) (q : A → Bool) (xs : List A) (x : A) → All P xs → find q xs ≡ some x → P x
  find-All P q [] x h e = absurd (cc)
  find-All P q (y ∷ ys) x (h, hs) e = elim (Bool-cases (q y)) [
    | inl yes_ ↦ let same : y ≡ x = ground arith in rw (← same) h
    | inr no_ ↦ find-All P q ys x hs (ground arith)
  ]

find-has :
    (k : String) (rs : List SpeakerRequest) (r : SpeakerRequest)
    → find (λ q. q.id == k) rs ≡ some r
    → has k (ids rs) ≡ true
find-has k [] r e = cc
find-has k (q ∷ rs) r e = ground (arith, find-has k rs r)

-- Where ids are distinct, each request is the one that is found under its id.
abbrev Found : List SpeakerRequest → SpeakerRequest → Type 0
Found rs r = find (λ q. q.id == r.id) rs ≡ some r

All-Found-cons :
    (q : SpeakerRequest) (rs xs : List SpeakerRequest)
    → has q.id (ids rs) ≡ false
    → All (λ r. Found rs r) xs
    → All (λ r. Found (q ∷ rs) r) xs
All-Found-cons q rs [] n h = tt
All-Found-cons q rs (x ∷ xs) n (found, h) =
    (ground (arith, found, find-has x.id rs x, eq_iff q.id x.id), All-Found-cons q rs xs n h)

All-Found : (rs : List SpeakerRequest) → Distinct (ids rs) → All (λ r. Found rs r) rs
All-Found [] d = tt
All-Found (q ∷ rs) (n, d) =
    (ground (arith, eq_refl q.id), All-Found-cons q rs rs n (All-Found rs d))

-- A request in the queue is found in the store under its id, and its person is not on stage.
pub queue-Found :
    (q : SpeakerRequest → Bool) (st : Stage) (r : SpeakerRequest)
    → Distinct (ids st.store.speaker_requests)
    → find q (request_queue st) ≡ some r
    → (find (λ q. q.id == r.id) st.store.speaker_requests ≡ some r)
      × (has r.person.id (on_stage_ids st) ≡ false)
unfolding request_queue
queue-Found q st r d e =
    let rs = st.store.speaker_requests in
    (
      find-All (λ r. Found rs r) q _ r (All-filter _ _ _ (All-filter _ _ rs (All-Found rs d))) e,
      ground (
        arith,
        find-filter (λ r. not (has r.person.id (on_stage_ids st))) q
            (filter (λ r. is_pending r.status) rs) r e,
      ),
    )
