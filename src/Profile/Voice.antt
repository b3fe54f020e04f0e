-- ===== src/Profile/Voice.antt =====
-- client/src/app/profile/page.tsx: the level of a voice, from samples to steps.
pub mod Bounds
use wave_cast.Common.{ℕ, zero, suc, ◌+◌, ◌-◌, ◌*◌, List, [], ◌∷◌, length, ltb, if◌then◌else◌}

-- `Math.min` on numbers that are not negative.
abbrev pub min : ℕ → ℕ → ℕ
min a b = if ltb b a then b else a

-- `value - 128` without its sign, which the square forgets.
abbrev pub deviation : ℕ → ℕ
deviation value = if ltb value 128 then 128 - value else value - 128

-- The sum of squares of the loop over the samples, each 128 * 128 times that of the code.
pub sum_squares : List ℕ → ℕ
sum_squares [] = 0
sum_squares (value ∷ rest) = deviation value * deviation value + sum_squares rest

-- The step that is lit for a level out of 100.
pub next_step : ℕ → ℕ
next_step input_level =
    if ltb 62 input_level
    then 3
    else (if ltb 28 input_level then 2 else (if ltb 8 input_level then 1 else 0))

-- `Math.round(rms * 420)` for a sum of squares and a number of samples is an argument: the code
-- takes it in floating point, with a square root.
module _ (rounded_level : ℕ → ℕ → ℕ) where
  pub input_level : List ℕ → ℕ
  unfolding sum_squares
  input_level time_data = min 100 (rounded_level (sum_squares time_data) (length time_data))

  unfoldable pub voice_step : List ℕ → ℕ
  unfolding input_level next_step
  voice_step time_data = next_step (input_level time_data)
