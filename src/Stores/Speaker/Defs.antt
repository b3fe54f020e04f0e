-- ===== src/Stores/Speaker/Defs.antt =====
-- client/src/stores/speaker-store.ts: its state and actions.
use Prim.Native.String as S
use wave_cast.Common.{
  String, Bool, true, false, not, ◌&&◌, List, [], ◌∷◌, ◌++◌, none, some, any, find, filter, ◌==◌,
  if◌then◌else◌,
}
use wave_cast.MockData.{alex, speaker_requests as seeded_speaker_requests}
use wave_cast.Types.{Person, SpeakerRequest, RequestStatus, is_pending}

pub record SpeakerState : Type 0 where
  pub mic_enabled : Bool
  pub request_pending : Bool
  pub speaker_requests : List SpeakerRequest

abbrev pub current_user_request_id : String
current_user_request_id = "request_current_user"

-- The id is the one that `makeRequestId` draws from the clock and the random generator.
abbrev pub to_pending_request : String → Person → SpeakerRequest
to_pending_request fresh_id person = record {
  id = fresh_id;
  person = person;
  message = S.◌++◌ person.name " is requesting to speak.";
  requested_at = "Just now";
  status = RequestStatus.pending;
}

-- An active request of a person: pending, and that person's.
abbrev is_active_of : String → SpeakerRequest → Bool
is_active_of person_id request = request.person.id == person_id && is_pending request.status

unfoldable pub initial : SpeakerState
initial = record {
  mic_enabled = false;
  request_pending =
      any (λ request. is_pending request.status && request.person.id == alex.id)
        seeded_speaker_requests;
  speaker_requests = filter (λ request. is_pending request.status) seeded_speaker_requests;
}

unfoldable pub toggle_mic : SpeakerState → SpeakerState
toggle_mic st = record st { mic_enabled = not st.mic_enabled }

-- The argument is the id that `toPendingRequest` draws; the request keeps the constant id.
unfoldable pub toggle_request : String → SpeakerState → SpeakerState
toggle_request fresh_id st =
    if any (is_active_of alex.id) st.speaker_requests
    then record st {
      request_pending = false;
      speaker_requests = filter (λ request. not (request.person.id == alex.id)) st.speaker_requests;
    }
    else record st {
      request_pending = true;
      speaker_requests =
          st.speaker_requests
          ++ record (to_pending_request fresh_id alex) { id = current_user_request_id } ∷ [];
    }

unfoldable pub add_speaker_request : String → Person → SpeakerState → SpeakerState
add_speaker_request fresh_id person st =
    if any (is_active_of person.id) st.speaker_requests then st else record st {
      speaker_requests = st.speaker_requests ++ to_pending_request fresh_id person ∷ [];
    }

unfoldable pub remove_speaker_request : String → SpeakerState → SpeakerState
remove_speaker_request request_id st =
    elim (find (λ request. request.id == request_id) st.speaker_requests) [
      | none ↦ st
      | some removed ↦ record st {
        request_pending = if removed.person.id == alex.id then false else st.request_pending;
        speaker_requests = filter (λ request. not (request.id == request_id)) st.speaker_requests;
      }
    ]
