-- ===== src/RoomSettings.antt =====
-- client/src/app/room-settings/page.tsx: the settings of a room and its backend object.
pub mod Ids
pub mod Tabs
use Prim.Native.String as S
use wave_cast.Common.{
  String, Option, find, or_else, ◌==◌, Bool, true, false, not, List, [], ◌∷◌, map, filter, split,
  trim, is_empty, to_lower_case, if◌then◌else◌, ◌-◌,
}
use wave_cast.MockData.{room}
use wave_cast.Urls.{chars, drop_chars}

pub data RoomStatus : Type 0 where
  draft scheduled live ending finished cancelled : RoomStatus

pub data StreamProtocol : Type 0 where
  hls ll_hls : StreamProtocol

unfoldable pub room_status_text : RoomStatus → String
room_status_text RoomStatus.draft = "draft"
room_status_text RoomStatus.scheduled = "scheduled"
room_status_text RoomStatus.live = "live"
room_status_text RoomStatus.ending = "ending"
room_status_text RoomStatus.finished = "finished"
room_status_text RoomStatus.cancelled = "cancelled"

unfoldable pub protocol_text : StreamProtocol → String
protocol_text hls = "hls"
protocol_text ll_hls = "ll_hls"

abbrev pub room_statuses : List RoomStatus
room_statuses =
    RoomStatus.draft ∷ RoomStatus.scheduled ∷ RoomStatus.live ∷ RoomStatus.ending
    ∷ RoomStatus.finished ∷ RoomStatus.cancelled ∷ []

abbrev pub stream_protocols : List StreamProtocol
stream_protocols = hls ∷ ll_hls ∷ []

-- The method, the path and the label of each endpoint of a group.
abbrev pub endpoint_groups : List (String × List (String × String × String))
endpoint_groups =
    (
      "Lifecycle",
      ("POST", "/v1/rooms", "Create room")
          ∷ ("GET", "/v1/rooms/{roomId}", "Get room")
          ∷ ("POST", "/v1/rooms/{roomId}/start", "Start room")
          ∷ ("POST", "/v1/rooms/{roomId}/finish", "Finish room")
          ∷ ("GET", "/v1/rooms/{roomId}/active-counts", "Active counts")
          ∷ [],
    )
    ∷ (
      "Access",
      ("POST", "/v1/rooms/{roomId}/join", "Join room")
          ∷ ("POST", "/v1/rooms/{roomId}/leave", "Leave room")
          ∷ (
            "POST", "/v1/rooms/{roomId}/listener-sessions/{sessionId}/heartbeat",
            "Listener heartbeat",
          )
          ∷ ("GET", "/v1/rooms/{roomId}/listener-stream", "Listener stream")
          ∷ [],
    )
    ∷ (
      "Moderation",
      ("POST", "/v1/rooms/{roomId}/speaker-requests", "Request to speak")
          ∷ ("POST", "/v1/rooms/{roomId}/speaker-requests/{requestId}/approve", "Approve speaker")
          ∷ ("POST", "/v1/rooms/{roomId}/participants/{userId}/block-speaking", "Block speaking")
          ∷ ("POST", "/v1/rooms/{roomId}/participants/{userId}/remove", "Remove participant")
          ∷ [],
    )
    ∷ (
      "Recording and reports",
      ("POST", "/v1/rooms/{roomId}/recording/start", "Start recording")
          ∷ ("POST", "/v1/rooms/{roomId}/recording/stop", "Stop recording")
          ∷ ("GET", "/v1/rooms/{roomId}/recordings", "List recordings")
          ∷ ("POST", "/v1/rooms/{roomId}/report/generate", "Generate report")
          ∷ ("GET", "/v1/rooms/{roomId}/report", "Get report")
          ∷ [],
    )
    ∷ []

-- The label and the path of each action.
abbrev pub moderation_actions : List (String × String)
moderation_actions =
    ("Approve speaker", "speaker-requests/{requestId}/approve")
    ∷ ("Decline request", "speaker-requests/{requestId}/decline")
    ∷ ("Revoke speaker", "participants/{userId}/revoke-speaker")
    ∷ ("Block speaking", "participants/{userId}/block-speaking")
    ∷ ("Remove participant", "participants/{userId}/remove")
    ∷ []

-- The fields of the page hold texts, those of the numbers too.
pub record Settings : Type 0 where
  pub title : String
  pub status : RoomStatus
  pub owner_id : String
  pub admin_ids : String
  pub moderator_ids : String
  pub recording_enabled : Bool
  pub passive_enabled : Bool
  pub protocol : StreamProtocol
  pub target_latency : String
  pub segment_duration : String
  pub part_duration : String
  pub report_enabled : Bool
  pub moderation_enabled : Bool

unfoldable pub initial : Settings
initial = record {
  title = room.title;
  status = RoomStatus.live;
  owner_id = room.owner.id;
  admin_ids = "user_brian,user_floyd";
  moderator_ids = "user_floyd";
  recording_enabled = room.recording;
  passive_enabled = true;
  protocol = ll_hls;
  target_latency = "2500";
  segment_duration = "2000";
  part_duration = "500";
  report_enabled = true;
  moderation_enabled = true;
}

pub record BackendRoom : Type 0 where
  pub id : String
  pub live_kit_room_name : String
  pub listener_stream_id : String
  pub owner_id : String
  pub admin_ids : List String
  pub moderator_ids : List String

-- The ids of a text that separates them by commas.
pub parse_ids : String → List String
unfolding split trim
parse_ids text = filter (λ item. not (is_empty item)) (map trim (split b',' text))

-- `id.slice(-8)`; the id of the room has no character of two code units.
abbrev last_eight : String → String
last_eight id = drop_chars (chars id - 8) id

pub backend_room : Settings → BackendRoom
unfolding parse_ids to_lower_case
backend_room s = record {
  id = room.id;
  live_kit_room_name = S.◌++◌ "lk_" room.id;
  listener_stream_id = S.◌++◌ "lst_" (to_lower_case (last_eight room.id));
  owner_id = s.owner_id;
  admin_ids = parse_ids s.admin_ids;
  moderator_ids = parse_ids s.moderator_ids;
}

pub status_tone : RoomStatus → String
status_tone RoomStatus.live = "live"
status_tone RoomStatus.finished = "neutral"
status_tone RoomStatus.cancelled = "neutral"
status_tone _ = "brand"

-- The fields and the choices of the page, each with its setter, and the four switches.
pub data Edit : Type 0 where
  title owner_id admin_ids moderator_ids : String → Edit
  target_latency segment_duration part_duration : String → Edit
  status protocol : String → Edit
  toggle_passive toggle_recording toggle_report toggle_moderation : Edit

-- A choice hands over a text, which the page casts to the type. One that the choice does not offer
-- is not that of a value of the type, and is left out here.
abbrev as_room_status : String → Option RoomStatus
as_room_status value = find (λ s. room_status_text s == value) room_statuses

abbrev as_stream_protocol : String → Option StreamProtocol
as_stream_protocol value = find (λ p. protocol_text p == value) stream_protocols

pub edit : Edit → Settings → Settings
unfolding room_status_text protocol_text
edit (Edit.title value) s = record s { title = value }
edit (Edit.owner_id value) s = record s { owner_id = value }
edit (Edit.admin_ids value) s = record s { admin_ids = value }
edit (Edit.moderator_ids value) s = record s { moderator_ids = value }
edit (Edit.target_latency value) s = record s { target_latency = value }
edit (Edit.segment_duration value) s = record s { segment_duration = value }
edit (Edit.part_duration value) s = record s { part_duration = value }
edit (Edit.status value) s = record s { status = or_else (as_room_status value) s.status }
edit (Edit.protocol value) s = record s { protocol = or_else (as_stream_protocol value) s.protocol }
edit toggle_passive s = record s { passive_enabled = not s.passive_enabled }
edit toggle_recording s = record s { recording_enabled = not s.recording_enabled }
edit toggle_report s = record s { report_enabled = not s.report_enabled }
edit toggle_moderation s = record s { moderation_enabled = not s.moderation_enabled }

-- What the page says of the active recording.
pub active_recording : Settings → String
active_recording s = if s.recording_enabled then "activeRecordingId pending" else "disabled"
