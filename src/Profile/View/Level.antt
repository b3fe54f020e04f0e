-- ===== src/Profile/View/Level.antt =====
-- client/src/app/profile/page.tsx: the bars of the voice level and the label beside them.
use wave_cast.Common.{ℕ, ◌≡◌, List, [], ◌∷◌, filter, length, arith, ◌≤◌, if◌then◌else◌}
use wave_cast.Profile.Microphone.{
  Mic, Event, click, granted, refused, context_fails, resumed, resume_fails, devices_fail, listed,
  frame_fires, unmount, initial, event, events, stop_microphone_test, test_microphone, fail,
  stream_granted, context_refused, context_resumed, devices_listed, update_voice_level,
}
use wave_cast.Profile.View.{active_steps}
use wave_cast.Profile.Voice.{voice_step, input_level}
use wave_cast.Profile.Voice.Bounds.{next_step-le}

-- How many bars are lit.
abbrev pub lit : Mic → ℕ
lit m = length (filter (λ b. b) (active_steps m))

lit-level :
    (m : Mic)
    → m.voice_level_step ≤ 3
    → lit m ≡ (if m.is_mic_testing then m.voice_level_step else 0)
unfolding active_steps
lit-level m low = ground arith

module _ (rounded : ℕ → ℕ → ℕ) where
  voice_step-le : (vs : List ℕ) → voice_step rounded vs ≤ 3
  unfolding voice_step
  voice_step-le vs = next_step-le (input_level rounded vs)

  event-le :
      (e : Event) (m : Mic) → m.voice_level_step ≤ 3 → (event rounded e m).voice_level_step ≤ 3
  unfolding event stop_microphone_test test_microphone fail stream_granted context_refused
      context_resumed devices_listed update_voice_level
  event-le (click t) m low = ground arith
  event-le (granted t) m low = ground arith
  event-le (refused t) m low = ground arith
  event-le (context_fails t) m low = ground arith
  event-le (resumed t) m low = ground arith
  event-le (resume_fails t) m low = ground arith
  event-le (devices_fail t) m low = ground arith
  event-le (listed t vs f) m low = ground (arith, voice_step-le vs)
  event-le (frame_fires f vs g) m low = ground (arith, voice_step-le vs)
  event-le unmount m low = ground arith

  events-le :
      (es : List Event) (m : Mic)
      → m.voice_level_step ≤ 3
      → (events rounded es m).voice_level_step ≤ 3
  unfolding events
  events-le [] m low = low
  events-le (e ∷ es) m low = events-le es _ (event-le e m low)

  -- Whatever happens on the page, as many bars are lit as the level says while a test is on, which
  -- is at most three, and none while no test is on.
  pub events-lit :
      (es : List Event)
      → let m = events rounded es initial in
        (m.voice_level_step ≤ 3) × (lit m ≡ (if m.is_mic_testing then m.voice_level_step else 0))
  unfolding initial
  events-lit es = let low = events-le es initial (omega arith) in (low, lit-level _ low)
