-- ===== src/MyRooms/Card.antt =====
-- client/src/app/my-room/page.tsx: what the card of a room and the panel beside the list show,
-- without their styling, and what their buttons do.
pub mod Finish
pub mod Board
use Prim.Native.String.{◌++◌}
use wave_cast.Common.{
  ℕ, String, Bool, true, false, ◌&&◌, ◌||◌, List, [], ◌∷◌, Option, none, some, find, filter, take,
  length, eqb, includes, to_lower_case, ◌==◌, is_some, if◌then◌else◌,
}
use wave_cast.Common.Decimal.{show}
use wave_cast.MockData.{alex, reports, recordings, realtime_events}
use wave_cast.MyRooms.{
  AgendaRoom, AgendaKind, MyRoom, Priority, finish_room, kind_text, selected_room,
}
use wave_cast.Types.{
  Person, Room, RoomStatus, HlsStatus, Report, ReportStatus, Recording, RecordingStatus,
  RealtimeEvent, status_text,
}

abbrev pub is_live : Room → Bool
is_live room = status_text room.status == "live"

abbrev is_my_room : Room → Bool
is_my_room room = room.owner.id == alex.id

abbrev can_finish_active_room : Room → Bool
can_finish_active_room room = is_live room && is_my_room room

pub data Gradient : Type 0 where
  reminder live offline : Gradient

get_room_state_gradient : AgendaRoom → Gradient
get_room_state_gradient room =
    if kind_text room.agenda_kind == "reminder"
    then Gradient.reminder
    else (if is_live room.item then Gradient.live else Gradient.offline)

abbrev pub status_tone : Room → String
status_tone room =
    if is_live room
    then "live"
    else (if status_text room.status == "scheduled" then "warning" else "neutral")

abbrev priority_text : Priority → String
priority_text Priority.now = "Now"
priority_text Priority.today = "Today"
priority_text Priority.soon = "Soon"
priority_text Priority.saved = "Saved"

-- The button at the top of a card, and the one at its bottom or the mark in its place.
pub data TopButton : Type 0 where
  finish remove : TopButton

pub data EntryButton : Type 0 where
  joined join remind : EntryButton

-- The counts are written by `toLocaleString`, which is not modelled.
pub record AgendaCard : Type 0 where
  pub gradient : Gradient
  pub tone : String
  pub priority : String
  pub host : String
  pub title : String
  pub subtitle : String
  pub top_button : TopButton
  pub note : String
  pub listener_count : ℕ
  pub speaker_count : ℕ
  pub time : String
  pub people : List Person
  pub entry_button : EntryButton

pub agenda_card : AgendaRoom → AgendaCard
unfolding get_room_state_gradient
agenda_card room = record {
  gradient = get_room_state_gradient room;
  tone = status_tone room.item;
  priority = priority_text room.priority;
  host = if is_my_room room.item then "My room" else "Other host";
  title = room.item.title;
  subtitle =
      room.item.topic
      ++ (" • "
          ++ (if is_my_room room.item then "Owned by you" else "By " ++ room.item.owner.name));
  top_button = if can_finish_active_room room.item then finish else remove;
  note = room.note;
  listener_count = room.item.listener_count;
  speaker_count = room.item.speaker_count;
  time = if room.item.duration == "-" then room.item.started_at else room.item.duration;
  people = take 4 room.item.listeners;
  entry_button =
      if can_finish_active_room room.item
      then joined
      else (if is_live room.item then join else remind);
}

same_room_name : String → String → Bool
unfolding includes to_lower_case
same_room_name left right =
    includes (to_lower_case left) (to_lower_case right)
    || includes (to_lower_case right) (to_lower_case left)

abbrev report_text : ReportStatus → String
report_text ReportStatus.ready = "ready"
report_text ReportStatus.generating = "generating"
report_text ReportStatus.failed = "failed"

abbrev pub recording_text : RecordingStatus → String
recording_text RecordingStatus.ready = "ready"
recording_text RecordingStatus.processing = "processing"

abbrev hls_text : HlsStatus → String
hls_text HlsStatus.healthy = "healthy"
hls_text HlsStatus.pending = "pending"
hls_text HlsStatus.off = "off"

abbrev report_row : Option Report → String
report_row none = "No report generated yet"
report_row (some report) = report_text report.status ++ (" • " ++ report.created_at)

abbrev recording_row : Option Recording → String
recording_row none = "No recording yet"
recording_row (some recording) = recording_text recording.status ++ (" • " ++ recording.duration)

abbrev activity_row : ℕ → String
activity_row n =
    if eqb n 0
    then "No activity events yet"
    else show n ++ (" recent update" ++ (if eqb n 1 then "" else "s"))

-- The rows of the part on reports: the report, the recording, the activity, and up to three
-- events.
pub record Available : Type 0 where
  pub report : String
  pub recording : String
  pub activity : String
  pub events : List RealtimeEvent

pub available : Room → Available
unfolding same_room_name show
available room =
    let room_activities = filter (λ event. same_room_name event.room room.title) realtime_events in
    record {
      report = report_row (find (λ report. same_room_name report.room room.title) reports);
      recording =
          recording_row (find (λ recording. same_room_name recording.room room.title) recordings);
      activity = activity_row (length room_activities);
      events = take 3 room_activities;
    }

pub record RoomInfo : Type 0 where
  pub gradient : Gradient
  pub title : String
  pub host : String
  pub tone : String
  pub rows : List (String × String)
  pub report_and_activity : Option Available
  pub button : String

pub room_info : AgendaRoom → RoomInfo
unfolding get_room_state_gradient available
room_info room =
    let can_show_report_and_activity =
      is_live room.item || status_text room.item.status == "finished" in
    record {
      gradient = get_room_state_gradient room;
      title = room.item.title;
      host = if is_my_room room.item then "My room" else "Other host • " ++ room.item.owner.name;
      tone = status_tone room.item;
      rows =
          ("Room ID", room.item.id)
          ∷ ("Owner", room.item.owner.name)
          ∷ ("Language", room.item.language)
          ∷ ("HLS", hls_text room.item.hls_status)
          ∷ ("Recording", if room.item.recording then "On" else "Off")
          ∷ [];
      report_and_activity =
          if can_show_report_and_activity then some (available room.item) else none;
      button = if can_finish_active_room room.item then "Finish room" else "Manage";
    }

-- The main button of the panel, for the room that is selected.
unfoldable click_panel : MyRoom → MyRoom
unfolding finish_room selected_room
click_panel p = elim (selected_room p) [
  | none ↦ p
  | some room ↦ if can_finish_active_room room.item then finish_room room.item.id p else p
]

-- The top button of a card that is finished with.
unfoldable click_finish : AgendaRoom → MyRoom → MyRoom
unfolding finish_room
click_finish room p = if can_finish_active_room room.item then finish_room room.item.id p else p
