-- ===== src/Profile/Microphone.antt =====
-- client/src/app/profile/page.tsx: the microphone test, with the promises that it awaits.
pub mod Phases
pub mod Orphans
pub mod Leaks
pub mod Frames
pub mod Answers
use wave_cast.Common.{
  ℕ, Bool, true, false, not, List, [], ◌∷◌, ◌++◌, Option, none, some, filter, any, eqb, ◌&&◌,
  if◌then◌else◌,
}
use wave_cast.Profile.Voice.{voice_step}

pub data PermissionStatus : Type 0 where
  idle ready blocked : PermissionStatus

-- What a test that was started waits for: `getUserMedia`, `resume` of its audio context, or the
-- list of devices.
pub data Await : Type 0 where
  stream resume devices : Await

-- A test is known by a number, which its stream and its audio context share. The state and the
-- refs of the page; then the streams with running tracks, the audio contexts that are not closed
-- and the animation frames that are requested, as the browser has them; and the tests that wait.
pub record Mic : Type 0 where
  pub is_mic_testing : Bool
  pub voice_level_step : ℕ
  pub permission_status : PermissionStatus
  pub mic_stream : Option ℕ
  pub audio_context : Option ℕ
  pub animation_frame : Option ℕ
  pub live_streams : List ℕ
  pub open_contexts : List ℕ
  pub frames : List ℕ
  pub waiting : List (ℕ × Await)

unfoldable pub initial : Mic
initial = record {
  is_mic_testing = false;
  voice_level_step = 0;
  permission_status = idle;
  mic_stream = none;
  audio_context = none;
  animation_frame = none;
  live_streams = [];
  open_contexts = [];
  frames = [];
  waiting = [];
}

abbrev pub without : ℕ → List ℕ → List ℕ
without n = filter (λ m. not (eqb m n))

abbrev pub without_ref : Option ℕ → List ℕ → List ℕ
without_ref none ns = ns
without_ref (some n) ns = without n ns

-- The clean-up of the page is this function too.
unfoldable pub stop_microphone_test : Mic → Mic
stop_microphone_test p = record p {
  frames = without_ref p.animation_frame p.frames;
  animation_frame = none;
  live_streams = without_ref p.mic_stream p.live_streams;
  mic_stream = none;
  open_contexts = without_ref p.audio_context p.open_contexts;
  audio_context = none;
  is_mic_testing = false;
  voice_level_step = 0;
}

abbrev pub same_await : Await → Await → Bool
same_await stream stream = true
same_await resume resume = true
same_await devices devices = true
same_await _ _ = false

abbrev pub is_waiting : ℕ → Await → List (ℕ × Await) → Bool
is_waiting test what = any (λ w. eqb w.0 test && same_await what w.1)

abbrev pub no_longer : ℕ → List (ℕ × Await) → List (ℕ × Await)
no_longer test = filter (λ w. not (eqb w.0 test))

-- The call up to its first `await`; the number of a test that is started is new.
unfoldable pub test_microphone : ℕ → Mic → Mic
unfolding stop_microphone_test
test_microphone test p =
    if p.is_mic_testing
    then stop_microphone_test p
    else record p { waiting = p.waiting ++ (test, stream) ∷ [] }

-- The `catch` branch.
unfoldable pub fail : ℕ → Mic → Mic
fail test p = record p {
  permission_status = blocked;
  is_mic_testing = false;
  waiting = no_longer test p.waiting;
}

-- The stream is there: the audio context is made and asked to resume.
unfoldable pub stream_granted : ℕ → Mic → Mic
stream_granted test p = record p {
  live_streams = p.live_streams ++ test ∷ [];
  open_contexts = p.open_contexts ++ test ∷ [];
  waiting = no_longer test p.waiting ++ (test, resume) ∷ [];
}

-- The stream is there and making the audio context throws.
unfoldable pub context_refused : ℕ → Mic → Mic
unfolding fail
context_refused test p = fail test (record p { live_streams = p.live_streams ++ test ∷ [] })

unfoldable pub context_resumed : ℕ → Mic → Mic
context_resumed test p = record p {
  mic_stream = some test;
  audio_context = some test;
  is_mic_testing = true;
  permission_status = ready;
  waiting = no_longer test p.waiting ++ (test, devices) ∷ [];
}

-- What happens around the page. `frame` is the number of the next frame that is requested.
pub data Event : Type 0 where
  click : ℕ → Event
  granted refused context_fails resumed resume_fails devices_fail : ℕ → Event
  listed : ℕ → List ℕ → ℕ → Event
  frame_fires : ℕ → List ℕ → ℕ → Event
  unmount : Event

module _ (rounded_level : ℕ → ℕ → ℕ) where
  unfoldable pub update_voice_level : List ℕ → ℕ → Mic → Mic
  unfolding voice_step
  update_voice_level time_data frame p = record p {
    voice_level_step = voice_step rounded_level time_data;
    animation_frame = some frame;
    frames = p.frames ++ frame ∷ [];
  }

  unfoldable pub devices_listed : ℕ → List ℕ → ℕ → Mic → Mic
  unfolding update_voice_level
  devices_listed test time_data frame p =
      update_voice_level time_data frame (record p { waiting = no_longer test p.waiting })

  abbrev if_waiting : ℕ → Await → Mic → Mic → Mic
  if_waiting test what p q = if is_waiting test what p.waiting then q else p

  -- An event that nothing waits for changes nothing.
  unfoldable pub event : Event → Mic → Mic
  unfolding test_microphone stop_microphone_test fail stream_granted context_refused context_resumed
      devices_listed update_voice_level
  event (click test) p = test_microphone test p
  event (granted test) p = if_waiting test stream p (stream_granted test p)
  event (refused test) p = if_waiting test stream p (fail test p)
  event (context_fails test) p = if_waiting test stream p (context_refused test p)
  event (resumed test) p = if_waiting test resume p (context_resumed test p)
  event (resume_fails test) p = if_waiting test resume p (fail test p)
  event (devices_fail test) p = if_waiting test devices p (fail test p)
  event (listed test time_data frame) p =
      if_waiting test devices p (devices_listed test time_data frame p)
  event (frame_fires frame time_data next_frame) p =
      if any (λ f. eqb f frame) p.frames
      then update_voice_level time_data next_frame (record p { frames = without frame p.frames })
      else p
  event unmount p = stop_microphone_test p

  unfoldable pub events : List Event → Mic → Mic
  unfolding event
  events [] p = p
  events (e ∷ es) p = events es (event e p)
