-- ===== src/Tests/Rooms.antt =====
-- client/src/stores, and the stage that shares one of them, at concrete inputs.
use wave_cast.Common.{String, false, ◌≡◌, refl, List, [], ◌∷◌, Distinct}
use wave_cast.Stage.{on_stage_ids}
use wave_cast.Stage.Session.{Click, start, session}
use wave_cast.Stage.Session.Consistent.{IsConsistent}
use wave_cast.Stage.Session.Clicks.{session-IsConsistent}
use wave_cast.Stores.Reminder as Reminder
use wave_cast.Stores.Reminder.Laws.{Action, add, toggle, run, is_reminded, run_set, run-refines-set}
use wave_cast.Stores.Speaker.Defs as Speaker
use wave_cast.Stores.Speaker.Invariant.{IsValid}
use wave_cast.Stores.Speaker.Reachable.{here, next, request, mic, reachable-IsValid}

abbrev clicks : List Action
clicks = toggle "a" ∷ add "b" ∷ toggle "a" ∷ []

run-refines-set_example :
    Distinct (run clicks Reminder.initial).reminded_room_ids
    × ((j : String) → is_reminded j (run clicks Reminder.initial) ≡ run_set clicks (λ _. false) j)
run-refines-set_example = run-refines-set clicks

abbrev raised : Speaker.SpeakerState
raised = Speaker.toggle_request "r1" (Speaker.toggle_mic Speaker.initial)

reachable-IsValid_example : IsValid raised
reachable-IsValid_example = reachable-IsValid (next (next here mic) (request "r1"))

-- The user raises the hand, Wade's request is answered, the note times out, and Jenny is taken on
-- stage from the listeners.
abbrev an_hour : List Click
an_hour =
    Click.hand "r3" ∷ Click.request "user_wade" ∷ Click.timeout ∷ Click.listener "user_jenny" ∷ []

stage_after :
    on_stage_ids (session an_hour start)
    ≡ "user_alice" ∷ "user_brian" ∷ "user_carol" ∷ "user_wade" ∷ "user_jenny" ∷ []
unfolding session start on_stage_ids
stage_after = refl

session-IsConsistent_example : IsConsistent (session an_hour start)
session-IsConsistent_example = session-IsConsistent an_hour
