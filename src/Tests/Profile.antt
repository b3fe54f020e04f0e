-- ===== src/Tests/Profile.antt =====
-- client/src/app/profile/page.tsx: the page's properties at concrete inputs.
use wave_cast.Common.{
  length, ℕ, ◌/◌, ◌≤◌, true, false, ◌≡◌, refl, List, [], ◌∷◌, some, arith, is_empty, head?, is_some,
  if◌then◌else◌,
}
use wave_cast.Profile.Microphone as Microphone
use wave_cast.Profile.Microphone.{
  Event, click, granted, resumed, listed, resume_fails, unmount, events,
}
use wave_cast.Profile.Microphone.Frames.{fires, chain, Loops, fires-end, stopped_early-Loops}
use wave_cast.Profile.Microphone.Leaks.{resume_fails-leaves, overlap-leaves}
use wave_cast.Profile.Microphone.Orphans.{runs}
use wave_cast.Profile.Microphone.Phases.{
  InPhase, Moves, starting, on, off, here, move_on, asks, has_grant, starts, begins, ends,
  reachable-InPhase, asking,
}
use wave_cast.Profile.Microphone.Answers.{Ends, reachable-stops}
use wave_cast.Profile.Page as Page
use wave_cast.Profile.Page.{Device, Profile, refresh_devices, microphones, constraints, of_kind}
use wave_cast.Profile.Page.Avatar.{change, remove, picks, IsHeld, leave, picks-IsHeld}
use wave_cast.Profile.Page.Select.{selected_value, are_ids, first_id, refresh-constraints}
use wave_cast.Profile.View.Level.{lit, events-lit}
use wave_cast.Profile.Voice.{voice_step}
use wave_cast.Profile.Voice.Bounds.{Silent, NoLouder, voice_step_lem}

abbrev hundredth : ℕ → ℕ → ℕ
hundredth s n = s / 100

voice_step_lem_example :
    (voice_step hundredth (128 ∷ 130 ∷ []) ≤ 3)
    × (Silent (128 ∷ 130 ∷ []) → voice_step hundredth (128 ∷ 130 ∷ []) ≡ 0)
    × (NoLouder (128 ∷ 130 ∷ []) (100 ∷ 200 ∷ [])
        → voice_step hundredth (128 ∷ 130 ∷ []) ≤ voice_step hundredth (100 ∷ 200 ∷ []))
voice_step_lem_example =
    voice_step_lem hundredth (λ s t n h. omega arith) (λ n. refl) (128 ∷ 130 ∷ []) (100 ∷ 200 ∷ [])

abbrev a_test : List Event
a_test = click 1 ∷ granted 1 ∷ resumed 1 ∷ listed 1 (128 ∷ 255 ∷ []) 7 ∷ []

abbrev a_test_moves : Moves a_test off (on 1 7)
a_test_moves =
    move_on (asks 1)
      (move_on (has_grant 1) (move_on (starts 1) (move_on (begins 1 (128 ∷ 255 ∷ []) 7) here)))

reachable-InPhase_example : InPhase (events hundredth a_test Microphone.initial) (on 1 7)
reachable-InPhase_example = reachable-InPhase hundredth a_test (on 1 7) a_test_moves

-- The microphone is asked for, and then the test is answered up to the list of devices.
abbrev asked : List Event
asked = click 1 ∷ []

abbrev answers : List Event
answers = granted 1 ∷ resumed 1 ∷ listed 1 (128 ∷ 255 ∷ []) 7 ∷ []

reachable-stops_example :
    (length answers ≤ 3)
    × Ends hundredth
        (length answers)
        2
        (events hundredth answers (events hundredth asked Microphone.initial))
unfolding Microphone.initial Microphone.event events Microphone.test_microphone
    Microphone.stream_granted Microphone.context_resumed
reachable-stops_example =
    reachable-stops hundredth asked (asking 1) answers 2 (move_on (asks 1) here)
      (refl, (refl, (refl, tt)))

abbrev before_resume : List Event
before_resume = click 1 ∷ granted 1 ∷ []

resume_fails-leaves_example :
    runs 1
      (events hundredth
        (resume_fails 1 ∷ click 2 ∷ unmount ∷ [])
        (events hundredth before_resume Microphone.initial)).live_streams
    ≡ true
resume_fails-leaves_example =
    resume_fails-leaves hundredth 1 (click 2 ∷ unmount ∷ [])
      (events hundredth before_resume Microphone.initial)
      (reachable-InPhase hundredth before_resume (starting 1)
        (move_on (asks 1) (move_on (has_grant 1) here)))
      (refl, tt)

-- Two clicks before the first stream is there.
abbrev two_clicks : Microphone.Mic
two_clicks =
    events hundredth (click 1 ∷ click 2 ∷ granted 1 ∷ granted 2 ∷ resumed 1 ∷ []) Microphone.initial

overlap-leaves_example :
    runs 1 (events hundredth (resumed 2 ∷ click 3 ∷ unmount ∷ []) two_clicks).live_streams ≡ true
unfolding events Microphone.initial
overlap-leaves_example =
    overlap-leaves hundredth 1 2 (click 3 ∷ unmount ∷ []) two_clicks refl refl refl refl (refl, tt)

picks-IsHeld_example :
    IsHeld (picks (change (some ("me.png", "blob:1")) ∷ remove ∷ []) Page.initial)
    × ((leave (picks (change (some ("me.png", "blob:1")) ∷ remove ∷ []) Page.initial)).object_urls
        ≡ [])
picks-IsHeld_example = picks-IsHeld (change (some ("me.png", "blob:1")) ∷ remove ∷ [])

abbrev two_devices : List Device
two_devices =
    (record { kind = "audiooutput"; device_id = "out"; label = "" })
    ∷ (record { kind = "audioinput"; device_id = "mic"; label = "Built in" })
    ∷ []

-- A microphone is selected that is not there any more.
abbrev unplugged : Profile
unplugged = record Page.initial { selected_mic = "usb" }

refresh-constraints_example :
    let q = refresh_devices (some two_devices) unplugged in
    let shown = selected_value q.selected_mic (microphones q) in
    let exact = (constraints q).exact_device_id in
    (unplugged.selected_mic ≡ "" → is_some (head? (microphones q)) ≡ true → exact ≡ some shown)
    × (is_empty unplugged.selected_mic ≡ false
        → are_ids unplugged.selected_mic (microphones q) ≡ true
        → exact ≡ some shown)
    × (is_empty unplugged.selected_mic ≡ false
        → are_ids unplugged.selected_mic (microphones q) ≡ false
        → (exact ≡ some unplugged.selected_mic) × (shown ≡ first_id (microphones q)))
refresh-constraints_example = refresh-constraints two_devices unplugged (refl, tt)

events-lit_example :
    let m = events hundredth a_test Microphone.initial in
    (m.voice_level_step ≤ 3) × (lit m ≡ (if m.is_mic_testing then m.voice_level_step else 0))
events-lit_example = events-lit hundredth a_test

abbrev stopped_moves :
    Moves (click 1 ∷ granted 1 ∷ resumed 1 ∷ listed 1 [] 7 ∷ click 1 ∷ []) off off
stopped_moves = move_on (asks 1) (
    move_on (has_grant 1)
      (move_on (starts 1) (move_on (begins 1 [] 7) (move_on (ends 1 7 1) here))))

fires-end_example :
    (let p =
        events hundredth
          (click 1 ∷ granted 1 ∷ resumed 1 ∷ listed 1 [] 7 ∷ click 1 ∷ [])
          Microphone.initial in
      events hundredth (fires ((7, [], 8) ∷ [])) p ≡ p)
fires-end_example =
    fires-end hundredth (click 1 ∷ granted 1 ∷ resumed 1 ∷ listed 1 [] 7 ∷ click 1 ∷ [])
      ((7, [], 8) ∷ []) stopped_moves

abbrev before_listed : List Event
before_listed = click 1 ∷ granted 1 ∷ resumed 1 ∷ []

stopped_early-Loops_example : Loops 9 (
    events hundredth (chain 7 (([], 8) ∷ ([], 9) ∷ [])) (
      events hundredth
        (click 1 ∷ listed 1 [] 7 ∷ [])
        (events hundredth before_listed Microphone.initial)))
stopped_early-Loops_example =
    stopped_early-Loops hundredth before_listed 1 1 7 [] (([], 8) ∷ ([], 9) ∷ [])
      (move_on (asks 1) (move_on (has_grant 1) (move_on (starts 1) here)))
