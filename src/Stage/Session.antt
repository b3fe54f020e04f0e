-- ===== src/Stage/Session.antt =====
-- client/src/components/room/stage-panel.tsx, listener-panel.tsx and stores/speaker-store.ts: the stage,
-- its menu and the buttons of the hand and the microphone, which act on one store of requests.
pub mod Consistent
pub mod Queue
pub mod Hand
pub mod Clicks
use wave_cast.Common.{
  String, Bool, false, List, [], ◌∷◌, none, some, find, is_empty, ◌==◌, if◌then◌else◌,
}
use wave_cast.MockData.{room}
use wave_cast.Private.Actions.{handle_request_hand}
use wave_cast.Stage.{
  Stage, request_queue, raise_hand_effect, hide_pulse, listener_invite_candidates,
}
use wave_cast.Stage.Invite.{request_entry, listener_entry, select_entry, set_open_invite_menu}
use wave_cast.Stores.Speaker.Defs.{SpeakerState, current_user_request_id, toggle_mic}
use wave_cast.Stores.Speaker.Defs as Speaker
use wave_cast.Types.{SpeakerRequest}

-- The panel as it is shown first, after its effect has run.
unfoldable pub start : Stage
unfolding raise_hand_effect Speaker.initial
start = raise_hand_effect (record {
  on_stage_speakers = room.speakers;
  open_invite_menu = false;
  raise_hand_pulse = none;
  seen_request_ids = none;
  pulse_timer = none;
  store = Speaker.initial;
})

-- The button of the hand, under an id that is drawn; that of the microphone; the menu; a request and
-- a listener that the menu offers, by the person's id; and the timeout of the note.
pub data Click : Type 0 where
  hand : String → Click
  mic : Click
  menu : Bool → Click
  request : String → Click
  listener : String → Click
  timeout : Click

-- The request is answered, and the effect runs if the store has changed.
pub accept : SpeakerRequest → Stage → Stage
unfolding request_entry select_entry raise_hand_effect
accept r st =
    let q = (select_entry (request_entry r) st).0 in
    if is_empty r.id then q else raise_hand_effect q

pub click : Click → Stage → Stage
unfolding handle_request_hand raise_hand_effect toggle_mic request_queue accept
    listener_invite_candidates listener_entry select_entry hide_pulse
click (hand fresh) st =
    raise_hand_effect (record st { store = (handle_request_hand fresh st.store).0 })
click mic st = record st { store = toggle_mic st.store }
click (menu is_open) st = set_open_invite_menu is_open st
click (request id) st = elim (find (λ r. r.person.id == id) (request_queue st)) [
  | none ↦ st
  | some r ↦ accept r st
]
click (listener id) st = elim (find (λ l. l.id == id) (listener_invite_candidates st)) [
  | none ↦ st
  | some l ↦ (select_entry (listener_entry l) st).0
]
click timeout st = hide_pulse st

unfoldable pub session : List Click → Stage → Stage
unfolding click
session [] st = st
session (c ∷ cs) st = session cs (click c st)
