-- ===== src/Profile/Microphone/Frames.antt =====
-- client/src/app/profile/page.tsx: the loop of animation frames that reads the level of the voice.
use wave_cast.Common.{ℕ, ◌≡◌, false, refl, sym, List, [], ◌∷◌, map, ap, arith}
use mathlib.Core.Path.{subst}
use wave_cast.Profile.Microphone.{
  Mic, Event, initial, event, events, click, listed, frame_fires, stop_microphone_test,
  test_microphone, devices_listed, update_voice_level,
}
use wave_cast.Profile.Microphone.Phases.{Moves, off, listing, reachable-InPhase}

-- Frames that fire: the number of each, the samples then, and the number of the next one.
abbrev pub fires : List (ℕ × List ℕ × ℕ) → List Event
fires = map (λ f. frame_fires f.0 f.1 f.2)

-- Frames that fire one after another, from a first one, each requested by the one before.
abbrev pub chain : ℕ → List (List ℕ × ℕ) → List Event
chain f [] = []
chain f ((vs, g) ∷ rest) = frame_fires f vs g ∷ chain g rest

abbrev last_of : ℕ → List (List ℕ × ℕ) → ℕ
last_of f [] = f
last_of f ((vs, g) ∷ rest) = last_of g rest

-- A loop that runs though no test is on.
pub record Loops (f : ℕ) (p : Mic) : Type 0 where
  pub no_test : p.is_mic_testing ≡ false
  pub one_frame : p.frames ≡ f ∷ []

module _ (rounded : ℕ → ℕ → ℕ) where
  fire-quiet :
      (f g : ℕ) (vs : List ℕ) (p : Mic) → p.frames ≡ [] → event rounded (frame_fires f vs g) p ≡ p
  unfolding event
  fire-quiet f g vs p none_left = ground arith

  fires-quiet :
      (fired : List (ℕ × List ℕ × ℕ)) (p : Mic) → p.frames ≡ [] → events rounded (fires fired) p ≡ p
  unfolding events
  fires-quiet [] p none_left = refl
  fires-quiet (f ∷ fired) p none_left =
      rw (events, fire-quiet f.0 f.2 f.1 p none_left) (fires-quiet fired p none_left)

  -- Where nothing was clicked and the page was not left while a promise was awaited, and nothing
  -- failed after the microphone was granted: when the tests have come to an end, the loop of frames
  -- has ended, and no frame that fires changes anything or requests another one.
  pub fires-end :
      (es : List Event) (fired : List (ℕ × List ℕ × ℕ))
      → Moves es off off
      → events rounded (fires fired) (events rounded es initial) ≡ events rounded es initial
  fires-end es fired moves =
      let (status, level, same) = reachable-InPhase rounded es off moves in
      fires-quiet fired (events rounded es initial) (ap (λ p. p.frames) same)

  chain-Loops :
      (f : ℕ) (rest : List (List ℕ × ℕ)) (p : Mic)
      → Loops f p
      → Loops (last_of f rest) (events rounded (chain f rest) p)
  unfolding events event update_voice_level
  chain-Loops f [] p h = h
  chain-Loops f ((vs, g) ∷ rest) p h =
      chain-Loops g rest _ (record { no_test = ground arith; one_frame = ground arith })

  -- A click while the devices are awaited turns the test off, but the loop of frames is begun all
  -- the same when they are listed, and however many frames fire after that, one more is requested
  -- though no test is on.
  pub stopped_early-Loops :
      (es : List Event) (t s f : ℕ) (vs : List ℕ) (rest : List (List ℕ × ℕ))
      → Moves es off (listing t)
      → Loops (last_of f rest) (
          events rounded
            (chain f rest)
            (events rounded (click s ∷ listed t vs f ∷ []) (events rounded es initial)))
  unfolding events event test_microphone stop_microphone_test devices_listed update_voice_level
  stopped_early-Loops es t s f vs rest moves =
      let (status, level, same) = reachable-InPhase rounded es (listing t) moves in
      chain-Loops f rest _ (
        subst (λ p. Loops f (events rounded (click s ∷ listed t vs f ∷ []) p)) (sym same)
          (record { no_test = ground arith; one_frame = ground arith }))
