-- ===== src/Stores/Speaker/Reachable.antt =====
-- client/src/stores/speaker-store.ts: the states that the actions reach.
use wave_cast.Common.{String, false, ◌≡◌, ◌≢◌, has}
use wave_cast.MockData.{alex}
use wave_cast.Types.{Person}
use wave_cast.Stores.Speaker.Defs.{
  SpeakerState, initial, current_user_request_id, toggle_mic, toggle_request, add_speaker_request,
  remove_speaker_request,
}
use wave_cast.Stores.Speaker.Queue.{ids}
use wave_cast.Stores.Speaker.Invariant.{
  IsValid, initial-IsValid, toggle_mic-IsValid, toggle_request-IsValid, add_speaker_request-IsValid,
  remove_speaker_request-IsValid,
}

-- One action of the store. A drawn id is new; a request is added for someone else.
pub data Step (st : SpeakerState) : SpeakerState → Type 0 where
  mic : Step st (toggle_mic st)
  request : (fresh : String) → Step st (toggle_request fresh st)
  add :
      (fresh : String) (person : Person)
      → has fresh (ids st.speaker_requests) ≡ false
      → fresh ≢ current_user_request_id
      → person.id ≢ alex.id
      → Step st (add_speaker_request fresh person st)
  remove : (request_id : String) → Step st (remove_speaker_request request_id st)

pub data Reach (st : SpeakerState) : SpeakerState → Type 0 where
  here : Reach st st
  next : {t u : SpeakerState} → Reach st t → Step t u → Reach st u

Step-IsValid : {st t : SpeakerState} → Step st t → IsValid st → IsValid t
Step-IsValid {st} mic v = toggle_mic-IsValid st v
Step-IsValid {st} (request fresh) v = toggle_request-IsValid fresh st v
Step-IsValid {st} (add fresh person n c o) v = add_speaker_request-IsValid fresh person st n c o v
Step-IsValid {st} (remove k) v = remove_speaker_request-IsValid k st v

Reach-IsValid : {st t : SpeakerState} → IsValid st → Reach st t → IsValid t
Reach-IsValid v here = v
Reach-IsValid v (next r s) = Step-IsValid s (Reach-IsValid v r)

-- In every state that the actions reach from the start, where requests are added for other people
-- under new ids: all queued requests are pending, no request id and no person occurs twice, the own
-- id is used for no one else, and `requestPending` is true exactly when the current user has a
-- request in the queue.
pub reachable-IsValid : {st : SpeakerState} → Reach initial st → IsValid st
reachable-IsValid r = Reach-IsValid initial-IsValid r
