-- ===== src/Stores/Speaker/Toggle.antt =====
-- client/src/stores/speaker-store.ts: raising and lowering the hand.
use wave_cast.Common.{
  String, false, not, ◌≡◌, refl, List, [], ◌∷◌, filter, ◌==◌, arith, Bool-cases, inl, inr,
  filter-append, Bool, ◌∙◌, sym,
}
use mathlib.Core.List.{append-nil}
use wave_cast.MockData.{alex}
use wave_cast.Types.{SpeakerRequest}
use wave_cast.Stores.Speaker.Defs.{
  SpeakerState, to_pending_request, toggle_request, add_speaker_request,
}
use wave_cast.Stores.Speaker.Queue.{of_person, of_person-append, any_active}
use wave_cast.Stores.Speaker.Invariant.{IsValid}

-- The queue as the others see it.
abbrev pub others : SpeakerState → List SpeakerRequest
others st = filter (λ r. not (r.person.id == alex.id)) st.speaker_requests

filter_twice :
    (p : SpeakerRequest → Bool) (rs : List SpeakerRequest) → filter p (filter p rs) ≡ filter p rs
filter_twice p [] = refl
filter_twice p (r ∷ rs) = ground (arith, filter_twice p rs)

-- In a valid state the toggle reverses the flag, and leaves the requests of everyone else as they
-- are, in their order.
pub toggle_request_lem :
    (fresh : String) (st : SpeakerState)
    → IsValid st
    → ((toggle_request fresh st).request_pending ≡ not st.request_pending)
      × (others (toggle_request fresh st) ≡ others st)
unfolding toggle_request
toggle_request_lem fresh st v =
    let rs = st.speaker_requests in
    let active = any_active alex.id rs v.all_pending in
    elim (Bool-cases (of_person alex.id rs)) [
      | inl here ↦ rw (active, here, v.flag, here) (refl, filter_twice _ rs)
      | inr away ↦ rw (active, away, v.flag, away) (refl, filter-append _ rs _ ∙ append-nil _)
    ]

-- A request added for the current user by `addSpeakerRequest` while none is queued leaves the
-- flag at false: the state is no longer valid.
add-current_user_invalid :
    (fresh : String) (st : SpeakerState)
    → IsValid st
    → st.request_pending ≡ false
    → ¬ IsValid (add_speaker_request fresh alex st)
unfolding add_speaker_request
add-current_user_invalid fresh st v low bad =
    let rs = st.speaker_requests in
    let away : of_person alex.id rs ≡ false = sym v.flag ∙ low in
    let raised = of_person-append alex.id rs (to_pending_request fresh alex) in
    ground (arith, rw (any_active alex.id rs v.all_pending, away) at bad.flag, raised)
