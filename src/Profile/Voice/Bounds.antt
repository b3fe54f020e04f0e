-- ===== src/Profile/Voice/Bounds.antt =====
-- client/src/app/profile/page.tsx: the steps of a voice are in range and rise with it.
use Prim.Native.Nat.{◌≤◌}
use native.Mathlib.Nat.{mul-le-mul}
use wave_cast.Common.{ℕ, ◌≡◌, List, [], ◌∷◌, length, arith, All, refl}
use wave_cast.Profile.Voice.{min, deviation, sum_squares, next_step, input_level, voice_step}

pub next_step-le : (l : ℕ) → next_step l ≤ 3
unfolding next_step
next_step-le l = ground arith

next_step_mono : (l m : ℕ) → l ≤ m → next_step l ≤ next_step m
unfolding next_step
next_step_mono l m h = ground arith

-- The samples of silence.
abbrev pub Silent : List ℕ → Type 0
Silent = All (λ v. v ≡ 128)

sum_squares-Silent : (vs : List ℕ) → Silent vs → sum_squares vs ≡ 0
unfolding sum_squares
sum_squares-Silent [] h = refl
sum_squares-Silent (v ∷ vs) (e, h) = rw (e, sum_squares-Silent vs h) refl

-- Samples of which each deviates from the middle no less than the other.
abbrev pub NoLouder : List ℕ → List ℕ → Type 0
NoLouder [] [] = Unit
NoLouder (v ∷ vs) (w ∷ ws) = (deviation v ≤ deviation w) × NoLouder vs ws
NoLouder _ _ = ⊥

sum_squares_mono : (vs ws : List ℕ) → NoLouder vs ws → sum_squares vs ≤ sum_squares ws
unfolding sum_squares
sum_squares_mono [] [] h = omega arith
sum_squares_mono [] (w ∷ ws) h = absurd h
sum_squares_mono (v ∷ vs) [] h = absurd h
sum_squares_mono (v ∷ vs) (w ∷ ws) (le, h) =
    omega (arith, mul-le-mul le le, sum_squares_mono vs ws h)

length-NoLouder : (vs ws : List ℕ) → NoLouder vs ws → length vs ≡ length ws
length-NoLouder [] [] h = refl
length-NoLouder [] (w ∷ ws) h = absurd h
length-NoLouder (v ∷ vs) [] h = absurd h
length-NoLouder (v ∷ vs) (w ∷ ws) (le, h) = omega (arith, length-NoLouder vs ws h)

-- Where rounding keeps the order of sums and takes silence to 0: a voice lights at most three
-- steps, silence none, and samples that are nowhere louder light no more steps.
pub voice_step_lem :
    (rounded : ℕ → ℕ → ℕ)
    → ((s t n : ℕ) → s ≤ t → rounded s n ≤ rounded t n)
    → ((n : ℕ) → rounded 0 n ≡ 0)
    → (vs ws : List ℕ)
    → (voice_step rounded vs ≤ 3)
      × (Silent vs → voice_step rounded vs ≡ 0)
      × (NoLouder vs ws → voice_step rounded vs ≤ voice_step rounded ws)
unfolding voice_step input_level
voice_step_lem rounded mono still vs ws = (
  next_step-le (input_level rounded vs),
  λ quiet. rw (sum_squares-Silent vs quiet, still) (unfold next_step in refl),
  λ softer. next_step_mono _ _ (
      rising (rounded (sum_squares vs) (length vs)) (rounded (sum_squares ws) (length ws)) (
        rw (length-NoLouder vs ws softer)
          (mono (sum_squares vs) (sum_squares ws) (length ws) (sum_squares_mono vs ws softer)))),
)
  where
    rising : (a b : ℕ) → a ≤ b → min 100 a ≤ min 100 b
    rising a b h = ground arith
