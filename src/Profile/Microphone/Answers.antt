-- ===== src/Profile/Microphone/Answers.antt =====
-- client/src/app/profile/page.tsx: a test is over when its promises are answered and it is turned off.
use mathlib.Core.Path.{subst}
use wave_cast.Common.{
  ℕ, suc, ◌+◌, ◌≤◌, Bool, true, false, ◌≡◌, refl, sym, ap, ◌⊎◌, inl, inr, List, [], ◌∷◌, length,
  eqb, arith,
}
use wave_cast.Profile.Microphone.{
  Mic, Await, Event, initial, event, events, click, granted, refused, resumed, listed, is_waiting,
  test_microphone, stop_microphone_test,
}
use wave_cast.Profile.Microphone.Phases.{
  Phase, off, asking, starting, listing, on, Move, Moves, here, move_on, has_grant, has_refusal,
  starts, begins, InPhase, events-InPhase, reachable-InPhase,
}

-- Whether an event answers a promise that is awaited; a failure after the grant is none here.
abbrev pub is_answer : Event → List (ℕ × Await) → Bool
is_answer (granted t) waiting = is_waiting t Await.stream waiting
is_answer (refused t) waiting = is_waiting t Await.stream waiting
is_answer (resumed t) waiting = is_waiting t Await.resume waiting
is_answer (listed t vs f) waiting = is_waiting t Await.devices waiting
is_answer _ waiting = false

-- No test is on, and nothing is awaited or held.
pub record IsOff (p : Mic) : Type 0 where
  pub not_testing : p.is_mic_testing ≡ false
  pub no_stream : p.live_streams ≡ []
  pub no_context : p.open_contexts ≡ []
  pub no_frame : p.frames ≡ []
  pub nothing_awaited : p.waiting ≡ []

-- The answers that are still to come.
abbrev rank : Phase → ℕ
rank (asking t) = 3
rank (starting t) = 2
rank (listing t) = 1
rank _ = 0

rank_bound : (ph : Phase) → rank ph ≤ 3
rank_bound off = omega arith
rank_bound (asking t) = omega arith
rank_bound (starting t) = omega arith
rank_bound (listing t) = omega arith
rank_bound (on t f) = omega arith

eqb-eq : (t u : ℕ) → eqb t u ≡ true → t ≡ u
eqb-eq t u h = ground arith

abbrev waiting_of : Phase → List (ℕ × Await)
waiting_of (asking t) = (t, Await.stream) ∷ []
waiting_of (starting t) = (t, Await.resume) ∷ []
waiting_of (listing t) = (t, Await.devices) ∷ []
waiting_of _ = []

waiting-holds : (ph : Phase) {p : Mic} → InPhase p ph → p.waiting ≡ waiting_of ph
waiting-holds off (s, l, same) = ap (λ q. q.waiting) same
waiting-holds (asking t) (s, l, same) = ap (λ q. q.waiting) same
waiting-holds (starting t) (s, l, same) = ap (λ q. q.waiting) same
waiting-holds (listing t) (s, l, same) = ap (λ q. q.waiting) same
waiting-holds (on t f) (s, l, same) = ap (λ q. q.waiting) same

answer-Move :
    (e : Event) (ph : Phase)
    → is_answer e (waiting_of ph) ≡ true
    → (next : Phase) × Move e ph next × (suc (rank next) ≤ rank ph)
answer-Move (granted u) (asking t) h =
    (starting t, rw (eqb-eq t u (ground arith)) (has_grant u), omega arith)
answer-Move (refused u) (asking t) h =
    (off, rw (eqb-eq t u (ground arith)) (has_refusal u), omega arith)
answer-Move (resumed u) (starting t) h =
    (listing t, rw (eqb-eq t u (ground arith)) (starts u), omega arith)
answer-Move (listed u vs f) (listing t) h =
    (on t f, rw (eqb-eq t u (ground arith)) (begins u vs f), omega arith)
answer-Move _ _ h = absurd (ground arith)

module _ (rounded : ℕ → ℕ → ℕ) where
  -- Each event answers what is awaited when it comes.
  abbrev pub Answers : List Event → Mic → Type 0
  Answers [] p = Unit
  Answers (e ∷ es) p = (is_answer e p.waiting ≡ true) × Answers es (event rounded e p)

  event-InPhase :
      (e : Event) (a b : Phase) (p : Mic) → Move e a b → InPhase p a → InPhase (event rounded e p) b
  unfolding events
  event-InPhase e a b p move h = events-InPhase rounded (e ∷ []) a b p (move_on move here) h

  answered-InPhase :
      (es : List Event) (ph : Phase) (p : Mic)
      → InPhase p ph
      → Answers es p
      → (next : Phase) × InPhase (events rounded es p) next × (length es + rank next ≤ rank ph)
  unfolding events
  answered-InPhase [] ph p h answers = (ph, h, omega arith)
  answered-InPhase (e ∷ es) ph p h (answer, answers) =
      let (middle, move, less) = answer-Move e ph (rw (← waiting-holds ph h) answer) in
      let (next, there, rest) =
        answered-InPhase es middle (event rounded e p) (event-InPhase e ph middle p move h)
          answers in
      (next, there, omega (arith, less, rest))

  -- After a number of answers: another one is awaited, and can come as there were fewer than three;
  -- or the test is over, or a click ends it.
  abbrev pub Ends : (answered clicked : ℕ) → Mic → Type 0
  Ends n s q =
      ((e : Event) × (is_answer e q.waiting ≡ true) × (suc n ≤ 3))
      ⊎ (IsOff q ⊎ IsOff (event rounded (click s) q))

  phase-Ends : (n s : ℕ) (ph : Phase) (q : Mic) → InPhase q ph → n + rank ph ≤ 3 → Ends n s q
  unfolding event test_microphone stop_microphone_test
  phase-Ends n s off q (status, level, same) h = inr (
      inl (
        subst IsOff (sym same) (record {
          not_testing = refl;
          no_stream = refl;
          no_context = refl;
          no_frame = refl;
          nothing_awaited = refl;
        })))
  phase-Ends n s (asking t) q at h =
      inl (refused t, rw (waiting-holds (asking t) at) (ground arith), omega (arith, h))
  phase-Ends n s (starting t) q at h =
      inl (resumed t, rw (waiting-holds (starting t) at) (ground arith), omega (arith, h))
  phase-Ends n s (listing t) q at h =
      inl (listed t [] 0, rw (waiting-holds (listing t) at) (ground arith), omega (arith, h))
  phase-Ends n s (on t f) q (status, level, same) h = inr (
      inr (
        subst (λ p. IsOff (event rounded (click s) p)) (sym same)
          (record {
            not_testing = refl;
            no_stream = ground arith;
            no_context = ground arith;
            no_frame = ground arith;
            nothing_awaited = refl;
          })))

  -- In every state that is reached where nothing was clicked and the page was not left while a
  -- promise was awaited, and nothing failed after the microphone was granted: whatever answers come
  -- to the promises that are awaited, without such a failure, there are at most three; after them an
  -- answer is still awaited and fewer than three have come, or the test is off with no stream, audio
  -- context or frame left, or it is so after one click.
  pub reachable-stops :
      (es : List Event) (ph : Phase) (fs : List Event) (s : ℕ)
      → Moves es off ph
      → Answers fs (events rounded es initial)
      → (length fs ≤ 3) × Ends (length fs) s (events rounded fs (events rounded es initial))
  reachable-stops es ph fs s moves answers =
      let (next, there, bound) =
        answered-InPhase fs ph _ (reachable-InPhase rounded es ph moves) answers in
      let total : length fs + rank next ≤ 3 = omega (arith, bound, rank_bound ph) in
      (omega (arith, total), phase-Ends (length fs) s next _ there total)
