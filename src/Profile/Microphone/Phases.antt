-- ===== src/Profile/Microphone/Phases.antt =====
-- client/src/app/profile/page.tsx: the microphone test when tests do not overlap.
use mathlib.Core.Path.{subst}
use wave_cast.Common.{ℕ, true, false, ◌≡◌, refl, sym, List, [], ◌∷◌, Option, none, some, arith}
use wave_cast.Profile.Microphone.{
  Mic, Await, Event, initial, event, events, click, granted, refused, resumed, listed, frame_fires,
  unmount, PermissionStatus, stop_microphone_test, test_microphone, fail, stream_granted,
  context_resumed, devices_listed, update_voice_level,
}
use wave_cast.Profile.Voice.{voice_step}

-- The test as a user sees it: off, asking for the microphone, starting its audio, listing the
-- devices, or on with a frame requested.
pub data Phase : Type 0 where
  off : Phase
  asking starting listing : ℕ → Phase
  on : ℕ → ℕ → Phase

-- The moves of one test at a time, without failures after the microphone was granted. A click while
-- something is awaited would overlap or, while the devices are listed, stop the test early, and the
-- page may be left while something is awaited: neither is a move.
pub data Move : Event → Phase → Phase → Type 0 where
  asks : (t : ℕ) → Move (click t) off (asking t)
  has_grant : (t : ℕ) → Move (granted t) (asking t) (starting t)
  has_refusal : (t : ℕ) → Move (refused t) (asking t) off
  starts : (t : ℕ) → Move (resumed t) (starting t) (listing t)
  begins : (t : ℕ) (vs : List ℕ) (f : ℕ) → Move (listed t vs f) (listing t) (on t f)
  draws : (t f : ℕ) (vs : List ℕ) (g : ℕ) → Move (frame_fires f vs g) (on t f) (on t g)
  ends : (t f s : ℕ) → Move (click s) (on t f) off
  leaves_off : Move unmount off off
  leaves_on : (t f : ℕ) → Move unmount (on t f) off

pub data Moves : List Event → Phase → Phase → Type 0 where
  here : {a : Phase} → Moves [] a a
  move_on :
      {e : Event} {es : List Event} {a b c : Phase} → Move e a b → Moves es b c → Moves (e ∷ es) a c

abbrev quiet : PermissionStatus → ℕ → List ℕ → List (ℕ × Await) → Mic
quiet status level streams waiting = record {
  is_mic_testing = false;
  voice_level_step = level;
  permission_status = status;
  mic_stream = none;
  audio_context = none;
  animation_frame = none;
  live_streams = streams;
  open_contexts = streams;
  frames = [];
  waiting = waiting;
}

abbrev testing : PermissionStatus → ℕ → ℕ → Option ℕ → List ℕ → List (ℕ × Await) → Mic
testing status level test frame requested waiting = record {
  is_mic_testing = true;
  voice_level_step = level;
  permission_status = status;
  mic_stream = some test;
  audio_context = some test;
  animation_frame = frame;
  live_streams = test ∷ [];
  open_contexts = test ∷ [];
  frames = requested;
  waiting = waiting;
}

-- All that the page and the browser hold in a phase.
abbrev pub holds : Phase → PermissionStatus → ℕ → Mic
holds off status level = quiet status level [] []
holds (asking t) status level = quiet status level [] ((t, Await.stream) ∷ [])
holds (starting t) status level = quiet status level (t ∷ []) ((t, Await.resume) ∷ [])
holds (listing t) status level = testing status level t none [] ((t, Await.devices) ∷ [])
holds (on t f) status level = testing status level t (some f) (f ∷ []) []

abbrev pub InPhase : Mic → Phase → Type 0
InPhase p ph = (status : PermissionStatus) × (level : ℕ) × (p ≡ holds ph status level)

module _ (rounded : ℕ → ℕ → ℕ) where
  event-InPhase :
      (e : Event) (a b : Phase) (status : PermissionStatus) (level : ℕ)
      → Move e a b
      → InPhase (event rounded e (holds a status level)) b
  unfolding event stop_microphone_test test_microphone fail stream_granted context_resumed
      devices_listed update_voice_level
  event-InPhase _ _ _ status level (asks t) = (status, level, refl)
  event-InPhase _ _ _ status level (has_grant t) = (status, level, ground arith)
  event-InPhase _ _ _ status level (has_refusal t) = (PermissionStatus.blocked, level, ground arith)
  event-InPhase _ _ _ status level (starts t) = (PermissionStatus.ready, level, ground arith)
  event-InPhase _ _ _ status level (begins t vs f) = (status, voice_step rounded vs, ground arith)
  event-InPhase _ _ _ status level (draws t f vs g) = (status, voice_step rounded vs, ground arith)
  event-InPhase _ _ _ status level (ends t f s) = (status, 0, ground arith)
  event-InPhase _ _ _ status level leaves_off = (status, 0, refl)
  event-InPhase _ _ _ status level (leaves_on t f) = (status, 0, ground arith)

  pub events-InPhase :
      (es : List Event) (a b : Phase) (p : Mic)
      → Moves es a b
      → InPhase p a
      → InPhase (events rounded es p) b
  unfolding events
  events-InPhase _ a _ p here h = h
  events-InPhase _ _ _ p (move_on {e} {es} {a} {b} {c} move rest) (status, level, same) =
      events-InPhase es b c (event rounded e p) rest (
        subst (λ q. InPhase (event rounded e q) b) (sym same)
          (event-InPhase e a b status level move))

  -- As long as nothing is clicked and the page is not left while a promise is awaited, and nothing
  -- fails after the microphone was granted, the page and the browser hold in each phase exactly
  -- what belongs to it: a stream and an audio context run only from the grant to the end of the
  -- test, one frame is requested while it is on with the devices listed, and nothing is left when
  -- it is off.
  pub reachable-InPhase :
      (es : List Event) (ph : Phase) → Moves es off ph → InPhase (events rounded es initial) ph
  unfolding initial
  reachable-InPhase es ph moves =
      events-InPhase es off ph initial moves (PermissionStatus.idle, 0, refl)
