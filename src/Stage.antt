-- ===== src/Stage.antt =====
-- client/src/components/room/stage-panel.tsx: the speakers on stage, who of them is heard, and
-- whom to bring up.
pub mod Laws
pub mod Order
pub mod Cards
pub mod Invite
pub mod Pulse
pub mod Session
use Prim.Native.String as S
use wave_cast.Common.{
  ℕ, String, Bool, true, false, not, ◌&&◌, List, [], ◌∷◌, ◌++◌, Option, none, some, map, filter,
  find, has, add, head?, length, truthy, is_some, eqb, ltb, ◌==◌, if◌then◌else◌,
}
use wave_cast.MockData.{alex, room}
use wave_cast.Stores.Speaker.Defs.{SpeakerState, remove_speaker_request}
use wave_cast.Toast.{Toast, success}
use wave_cast.Types.{Person, UserRole, SpeakerRequest, is_pending}

pub record RaiseHandPulse : Type 0 where
  pub id : String
  pub person : Person
  pub requested_at : String

-- The `useState` cells and the ref of the panel, the request whose timeout to hide the pulse is
-- set, and the store that the panel shares.
pub record Stage : Type 0 where
  pub on_stage_speakers : List Person
  pub open_invite_menu : Bool
  pub raise_hand_pulse : Option RaiseHandPulse
  pub seen_request_ids : Option (List String)
  pub pulse_timer : Option String
  pub store : SpeakerState

-- The ids of a list of people; of the sets that the panel builds only membership is asked.
abbrev pub person_ids : List Person → List String
person_ids = map (λ p. p.id)

unfoldable pub on_stage_ids : Stage → List String
on_stage_ids st = person_ids st.on_stage_speakers

pub current_user_speaker : Stage → Option Person
current_user_speaker st = find (λ speaker. speaker.id == alex.id) st.on_stage_speakers

pub is_current_user_speaking : Stage → Bool
unfolding current_user_speaker
is_current_user_speaking st = st.store.mic_enabled && is_some (current_user_speaker st)

pub active_speaker_ids : Stage → List String
unfolding current_user_speaker is_current_user_speaking add
active_speaker_ids st =
    let active_ids = person_ids (filter (λ s. truthy s.is_speaking) st.on_stage_speakers) in
    elim (current_user_speaker st) [
      | none ↦ active_ids
      | some speaker ↦ if is_current_user_speaking st then add speaker.id active_ids else active_ids
    ]

pub active_speakers : Stage → List Person
unfolding active_speaker_ids
active_speakers st = filter (λ s. has s.id (active_speaker_ids st)) st.on_stage_speakers

pub has_single_active_speaker : Stage → Bool
unfolding active_speakers
has_single_active_speaker st = eqb (length (active_speakers st)) 1

pub has_multiple_active_speakers : Stage → Bool
unfolding active_speakers
has_multiple_active_speakers st = ltb 1 (length (active_speakers st))

pub focused_speaker : Stage → Option Person
unfolding active_speakers
focused_speaker st = head? (active_speakers st)

pub ordered_speakers : Stage → List Person
unfolding current_user_speaker is_current_user_speaking
ordered_speakers st = elim (current_user_speaker st) [
  | none ↦ st.on_stage_speakers
  | some speaker ↦
      if is_current_user_speaking st
      then speaker ∷ filter (λ s. not (s.id == alex.id)) st.on_stage_speakers
      else st.on_stage_speakers
]

pub visible_speakers : Stage → List Person
unfolding current_user_speaker is_current_user_speaking ordered_speakers
visible_speakers st = elim (current_user_speaker st) [
  | none ↦ []
  | some speaker ↦
      if is_current_user_speaking st
      then filter (λ s. not (s.id == speaker.id)) (ordered_speakers st)
      else []
]

pub request_queue : Stage → List SpeakerRequest
unfolding on_stage_ids
request_queue st =
    filter (λ r. not (has r.person.id (on_stage_ids st)))
      (filter (λ r. is_pending r.status) st.store.speaker_requests)

pub pending_hand_requests : Stage → List SpeakerRequest
pending_hand_requests st = filter (λ r. is_pending r.status) st.store.speaker_requests

-- The effect on the pending requests: the clean-up of the last one clears its timeout; the first
-- request that was not pending before is shown, and a timeout set to hide it.
pub raise_hand_effect : Stage → Stage
unfolding pending_hand_requests
raise_hand_effect st =
    let pending = pending_hand_requests st in
    let seen_now = record st {
      seen_request_ids = some (map (λ r. r.id) pending);
      pulse_timer = none;
    } in
    elim st.seen_request_ids [
      | none ↦ seen_now
      | some seen ↦ elim (find (λ r. not (has r.id seen)) pending) [
        | none ↦ seen_now
        | some request ↦ record seen_now {
          raise_hand_pulse = some (record {
            id = request.id;
            person = request.person;
            requested_at = request.requested_at;
          });
          pulse_timer = some request.id;
        }
      ]
    ]

abbrev is_pulse_of : String → Option RaiseHandPulse → Bool
is_pulse_of id none = false
is_pulse_of id (some pulse) = pulse.id == id

-- The timeout, where one is set.
pub hide_pulse : Stage → Stage
hide_pulse st = elim st.pulse_timer [
  | none ↦ st
  | some id ↦ record st {
    raise_hand_pulse = if is_pulse_of id st.raise_hand_pulse then none else st.raise_hand_pulse;
    pulse_timer = none;
  }
]

pub listener_invite_candidates : Stage → List Person
unfolding on_stage_ids
listener_invite_candidates st =
    filter (λ listener. not (has listener.id (on_stage_ids st))) room.listeners

abbrev without_request : Option String → SpeakerState → SpeakerState
unfolding remove_speaker_request
without_request none store = store
without_request (some request_id) store =
    if request_id == "" then store else remove_speaker_request request_id store

unfoldable pub add_speaker_to_stage : Person → Option String → Stage → Stage × Option Toast
unfolding on_stage_ids remove_speaker_request
add_speaker_to_stage person request_id st =
    if has person.id (on_stage_ids st) then (st, none) else (
      record st {
        on_stage_speakers = st.on_stage_speakers ++ record person { role = UserRole.speaker } ∷ [];
        store = without_request request_id st.store;
        open_invite_menu = false;
      },
      some (record {
        kind = success;
        title = S.◌++◌ person.name " is now on stage";
        description = "You invited this listener as a speaker.";
      }),
    )
