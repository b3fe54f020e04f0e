-- ===== src/Stage/Order.antt =====
-- client/src/components/room/stage-panel.tsx: the order in which the speakers are shown.
use mathlib.Core.List.{Perm}
use mathlib.Core.List.Perm
use wave_cast.Common.{
  String, true, false, not, ◌≡◌, refl, List, [], ◌∷◌, none, some, filter, find, has, Distinct, ◌==◌,
  eq_iff, arith, if◌then◌else◌, Bool-cases, Option-cases, inl, inr, ap, ◌∙◌, sym, eq_refl,
}
use mathlib.Core.Path.{subst}
use wave_cast.MockData.{alex}
use wave_cast.Stage.{
  Stage, person_ids, on_stage_ids, current_user_speaker, ordered_speakers, visible_speakers,
}
use wave_cast.Types.{Person}

filter_absent :
    (k : String) (ps : List Person)
    → has k (person_ids ps) ≡ false
    → filter (λ s. not (s.id == k)) ps ≡ ps
filter_absent k [] h = refl
filter_absent k (s ∷ ps) h = ground (arith, filter_absent k ps)

-- The one with an id in front of the others.
pub front-perm :
    (k : String) (ps : List Person) (found : Person)
    → Distinct (person_ids ps)
    → find (λ s. s.id == k) ps ≡ some found
    → Perm (found ∷ filter (λ s. not (s.id == k)) ps) ps
front-perm k [] found d h = cc
front-perm k (s ∷ ps) found (n, d) h = elim (Bool-cases (s.id == k)) [
  | inl same ↦
      let e : s ≡ found = ground arith in
      let absent : has k (person_ids ps) ≡ false = rw (← (eq_iff s.id k).0 same) n in
      rw (same, ← e, filter_absent k ps absent) (Perm.refl (s ∷ ps))
  | inr other ↦
      rw other
        (Perm.trans (Perm.swap s found _) (Perm.cons s (front-perm k ps found d (ground arith))))
]

ordered_on :
    (st : Stage) (speaker : Person)
    → current_user_speaker st ≡ some speaker
    → ordered_speakers st ≡ (
        if st.store.mic_enabled
        then speaker ∷ filter (λ s. not (s.id == alex.id)) st.on_stage_speakers
        else st.on_stage_speakers)
unfolding ordered_speakers
ordered_on st speaker found = rw (found, ordered_speakers) (ground arith)

ordered_off :
    (st : Stage) → current_user_speaker st ≡ none → ordered_speakers st ≡ st.on_stage_speakers
unfolding ordered_speakers
ordered_off st away = rw (away, ordered_speakers) refl

visible_on :
    (st : Stage) (speaker : Person)
    → current_user_speaker st ≡ some speaker
    → visible_speakers st ≡ (
        if st.store.mic_enabled
        then filter (λ s. not (s.id == speaker.id)) (ordered_speakers st)
        else [])
unfolding visible_speakers
visible_on st speaker found = rw (found, visible_speakers) (ground arith)

-- With distinct people on stage, the ordered speakers are those on stage, each once.
ordered_speakers-perm :
    (st : Stage) → Distinct (on_stage_ids st) → Perm (ordered_speakers st) st.on_stage_speakers
unfolding current_user_speaker on_stage_ids
ordered_speakers-perm st d = elim (Option-cases (current_user_speaker st)) [
  | inl away ↦ rw (ordered_off st away) (Perm.refl st.on_stage_speakers)
  | inr (speaker, found) ↦ elim (Bool-cases st.store.mic_enabled) [
    | inl talks ↦
        rw (ordered_on st speaker found, talks)
          (front-perm alex.id st.on_stage_speakers speaker d found)
    | inr quiet ↦ rw (ordered_on st speaker found, quiet) (Perm.refl st.on_stage_speakers)
  ]
]

filter_twice :
    (k : String) (ps : List Person)
    → filter (λ s. not (s.id == k)) (filter (λ s. not (s.id == k)) ps)
      ≡ filter (λ s. not (s.id == k)) ps
filter_twice k [] = refl
filter_twice k (s ∷ ps) = ground (arith, filter_twice k ps)

find-id :
    (k : String) (ps : List Person) (q : Person) → find (λ s. s.id == k) ps ≡ some q → q.id ≡ k
find-id k [] q h = cc
find-id k (s ∷ ps) q h = ground (arith, find-id k ps q, eq_iff s.id k)

drop_front :
    (speaker : Person) (ps : List Person)
    → speaker.id ≡ alex.id
    → filter (λ s. not (s.id == speaker.id)) (speaker ∷ filter (λ s. not (s.id == alex.id)) ps)
      ≡ filter (λ s. not (s.id == alex.id)) ps
drop_front speaker ps own =
    let self : (speaker.id == speaker.id) ≡ true = eq_refl speaker.id in
    rw self (
      subst
        (λ k.
          filter (λ s. not (s.id == k)) (filter (λ s. not (s.id == alex.id)) ps)
          ≡ filter (λ s. not (s.id == alex.id)) ps)
        (sym own) (filter_twice alex.id ps))

-- While the current user is on stage with the microphone on, the user's card and the visible
-- speakers are the ordered speakers, and with distinct people on stage they show everybody on
-- stage once.
pub visible_speakers-perm :
    (st : Stage) (speaker : Person)
    → Distinct (on_stage_ids st)
    → current_user_speaker st ≡ some speaker
    → st.store.mic_enabled ≡ true
    → (ordered_speakers st ≡ speaker ∷ visible_speakers st)
      × Perm (speaker ∷ visible_speakers st) st.on_stage_speakers
unfolding current_user_speaker
visible_speakers-perm st speaker d found talks =
    let others = filter (λ s. not (s.id == alex.id)) st.on_stage_speakers in
    let ordered : ordered_speakers st ≡ speaker ∷ others =
      ordered_on st speaker found
      ∙ ap (λ b. if b then speaker ∷ others else st.on_stage_speakers) talks in
    let own = find-id alex.id st.on_stage_speakers speaker found in
    let visible : visible_speakers st ≡ filter (λ s. not (s.id == alex.id)) st.on_stage_speakers =
      visible_on st speaker found ∙ rest_of talks ordered own in
    let same : ordered_speakers st ≡ speaker ∷ visible_speakers st = rw (ordered, visible) refl in
    (same, subst (λ l. Perm l st.on_stage_speakers) same (ordered_speakers-perm st d))
  where
    rest_of :
        st.store.mic_enabled ≡ true
        → ordered_speakers st ≡ speaker ∷ filter (λ s. not (s.id == alex.id)) st.on_stage_speakers
        → speaker.id ≡ alex.id
        → (if st.store.mic_enabled
            then filter (λ s. not (s.id == speaker.id)) (ordered_speakers st)
            else [])
          ≡ filter (λ s. not (s.id == alex.id)) st.on_stage_speakers
    rest_of talks ordered own = rw (ordered, talks) (drop_front speaker st.on_stage_speakers own)
