-- ===== src/Stage/Cards/Shown.antt =====
-- client/src/components/room/stage-panel.tsx: every layout shows everybody on stage.
use mathlib.Core.List.{Perm}
use mathlib.Core.List.Perm
use mathlib.Core.Path.{subst}
use wave_cast.Common.{
  String, Bool, true, ◌≡◌, refl, sym, ap, ◌∙◌, List, [], ◌∷◌, none, some, map, filter, find, has,
  head?, Distinct, ◌==◌, eq_iff, eq_refl, arith, Bool-cases, Option-cases, inl, inr, if◌then◌else◌,
}
use wave_cast.Stage.{
  Stage, person_ids, on_stage_ids, current_user_speaker, is_current_user_speaking, visible_speakers,
  active_speakers, active_speaker_ids, focused_speaker, has_single_active_speaker,
  has_multiple_active_speakers,
}
use wave_cast.Stage.Cards.{
  Options, SpeakerCard, render_speaker_card, prioritized, focused, other_layout, layout,
}
use wave_cast.Stage.Order.{front-perm, visible_speakers-perm}
use wave_cast.Types.{Person}

abbrev pub shown : List SpeakerCard → List Person
shown = map (λ c. c.person)

shown-map :
    (st : Stage) (o : Options) (ps : List Person) → shown (map (render_speaker_card st o) ps) ≡ ps
unfolding render_speaker_card
shown-map st o [] = refl
shown-map st o (p ∷ ps) = ap (λ l. p ∷ l) (shown-map st o ps)

find-has :
    (k : String) (ps : List Person) (found : Person)
    → find (λ s. s.id == k) ps ≡ some found
    → has k (person_ids ps) ≡ true
find-has k [] found h = cc
find-has k (p ∷ ps) found h = ground (arith, find-has k ps found)

-- The first that passes a test is found by its id.
first-find :
    (t : Person → Bool) (ps : List Person) (first : Person)
    → Distinct (person_ids ps)
    → head? (filter t ps) ≡ some first
    → find (λ s. s.id == first.id) ps ≡ some first
first-find t [] first d h = cc
first-find t (p ∷ ps) first (n, d) h = elim (Bool-cases (t p)) [
  | inl passes ↦ ground (arith, eq_refl p.id)
  | inr fails ↦
      let rest : find (λ s. s.id == first.id) ps ≡ some first =
        first-find t ps first d (ground arith) in
      ground (arith, rest, find-has first.id ps first rest, eq_iff p.id first.id)
]

-- The cards of a list show its people.
list-perm :
    (st : Stage) (o : Options) (ps : List Person)
    → Perm (shown (map (render_speaker_card st o) ps)) ps
list-perm st o ps = subst (λ l. Perm l ps) (sym (shown-map st o ps)) (Perm.refl ps)

-- A card in front of compact ones.
front_card-perm :
    (st : Stage) (speaker : Person) (others : List Person)
    → Perm (speaker ∷ others) st.on_stage_speakers
    → Perm
        (speaker ∷ shown (map (render_speaker_card st Options.compact) others))
        st.on_stage_speakers
front_card-perm st speaker others =
    subst (λ l. Perm (speaker ∷ l) st.on_stage_speakers) (sym (shown-map st Options.compact others))

focused-find :
    (st : Stage) (speaker : Person)
    → Distinct (on_stage_ids st)
    → focused st ≡ some speaker
    → find (λ s. s.id == speaker.id) st.on_stage_speakers ≡ some speaker
unfolding focused_speaker active_speakers on_stage_ids
focused-find st speaker d h = elim (Bool-cases (has_single_active_speaker st)) [
  | inl one ↦
      first-find (λ s. has s.id (active_speaker_ids st)) st.on_stage_speakers speaker d
        (sym (ap (λ b. if b then focused_speaker st else none) one) ∙ h)
  | inr other ↦ cc
]

shown-other :
    (st : Stage)
    → Distinct (on_stage_ids st)
    → Perm (shown (other_layout st).1) st.on_stage_speakers
unfolding other_layout on_stage_ids
shown-other st d = elim (Bool-cases (has_multiple_active_speakers st)) [
  | inl many ↦ rw (many, other_layout) (list-perm st Options.compact st.on_stage_speakers)
  | inr few ↦ elim (Option-cases (focused st)) [
    | inl nobody ↦ rw (few, other_layout, nobody) (list-perm st Options.plain st.on_stage_speakers)
    | inr (speaker, one) ↦
        rw (few, other_layout, one)
          (front_card-perm st speaker _
            (front-perm speaker.id st.on_stage_speakers speaker d (focused-find st speaker d one)))
  ]
]

-- The current user comes first only on stage and with the microphone on.
prioritized-on :
    (st : Stage) (speaker : Person)
    → prioritized st ≡ some speaker
    → (current_user_speaker st ≡ some speaker) × (st.store.mic_enabled ≡ true)
unfolding is_current_user_speaking
prioritized-on st speaker h = elim (Bool-cases (is_current_user_speaking st)) [
  | inl speaks ↦ (
    sym (ap (λ b. if b then current_user_speaker st else none) speaks) ∙ h,
    ground (arith, speaks),
  )
  | inr silent ↦ cc
]

-- With distinct people on stage, the cards show everybody on stage once, whichever of the four
-- layouts they are in.
pub layout-perm :
    (st : Stage) → Distinct (on_stage_ids st) → Perm (shown (layout st).1) st.on_stage_speakers
unfolding layout
layout-perm st d = elim (Option-cases (prioritized st)) [
  | inl nobody ↦ rw (nobody, layout) (shown-other st d)
  | inr (speaker, first) ↦
      let (found, talks) = prioritized-on st speaker first in
      rw (first, layout)
        (front_card-perm st speaker (visible_speakers st)
          (visible_speakers-perm st speaker d found talks).1)
]
