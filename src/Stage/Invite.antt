-- ===== src/Stage/Invite.antt =====
-- client/src/components/room/stage-panel.tsx: the menu that brings people on stage, what a click in it
-- does, and the note on a raised hand, without their styling.
use Prim.Native.String as S
use wave_cast.Common.{String, Bool, List, Option, none, some, map, ltb, length, if◌then◌else◌}
use wave_cast.Stage.{Stage, request_queue, listener_invite_candidates, add_speaker_to_stage}
use wave_cast.Toast.{Toast}
use wave_cast.Types.{Person, SpeakerRequest}

-- An entry: the person, the line below the name, and the request that a click on it answers.
pub record InviteEntry : Type 0 where
  pub person : Person
  pub detail : String
  pub request_id : Option String

unfoldable pub request_entry : SpeakerRequest → InviteEntry
request_entry request = record {
  person = request.person;
  detail = request.requested_at;
  request_id = some request.id;
}

unfoldable pub listener_entry : Person → InviteEntry
listener_entry listener = record {
  person = listener;
  detail = S.◌++◌ "@" listener.username;
  request_id = none;
}

-- The entries under a title, or the line in their place.
pub data InviteSection : Type 0 where
  entries : List InviteEntry → InviteSection
  nobody : String → InviteSection

abbrev entries_or : String → List InviteEntry → InviteSection
entries_or line es = if ltb 0 (length es) then entries es else nobody line

-- The hands that are raised, and the other listeners.
unfoldable invite_sections : Stage → InviteSection × InviteSection
unfolding request_queue listener_invite_candidates request_entry listener_entry
invite_sections st = (
  entries_or "No listeners are currently raising hand." (map request_entry (request_queue st)),
  entries_or "No additional listeners available."
      (map listener_entry (listener_invite_candidates st)),
)

abbrev pub set_open_invite_menu : Bool → Stage → Stage
set_open_invite_menu is_open st = record st { open_invite_menu = is_open }

unfoldable pub select_entry : InviteEntry → Stage → Stage × Option Toast
unfolding add_speaker_to_stage
select_entry entry st = add_speaker_to_stage entry.person entry.request_id st

-- The picture, the text and the time of the note.
unfoldable pulse_note : Stage → Option (String × String × String)
pulse_note st = elim st.raise_hand_pulse [
  | none ↦ none
  | some pulse ↦
      some (pulse.person.avatar, S.◌++◌ pulse.person.name " raised hand", pulse.requested_at)
]
