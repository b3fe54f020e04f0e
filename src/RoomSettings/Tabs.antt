-- ===== src/RoomSettings/Tabs.antt =====
-- client/src/app/room-settings/page.tsx: what the tabs of the page show, without their styling.
use Prim.Native.String as S
use wave_cast.Common.{String, Bool, true, List, [], ◌∷◌, map, if◌then◌else◌}
use wave_cast.MockData.{alex, room}
use wave_cast.RoomSettings.{
  room_status_text, protocol_text, Settings, room_statuses, stream_protocols, endpoint_groups,
  moderation_actions, backend_room, status_tone, active_recording,
}
use wave_cast.Widgets.{without_ago}

-- What a panel is made of: an input, a choice among options, a switch, a named value, a named badge
-- and its tone, the user, a line, buttons without a handler, and a group with its endpoints.
pub data Part : Type 0 where
  field : String → String → Part
  choice : String → String → List String → Part
  toggle_row : String → String → Bool → Part
  value : String → String → Part
  badge : String → String → String → Part
  user : String → String → String → Part
  line : String → Part
  buttons : List String → Part
  group : String → List (String × String × String) → Part

pub record SettingPanel : Type 0 where
  pub title : String
  pub description : String
  pub parts : List Part

abbrev permissions : List (String × Bool)
permissions =
    ("Can speak", true) ∷ ("Can moderate", true) ∷ ("Can record", true) ∷ ("Can report", true) ∷ []

lifecycle : Settings → SettingPanel
unfolding room_status_text without_ago
lifecycle s = record {
  title = "Lifecycle";
  description = "Room state and host-owned identity.";
  parts =
      field "Title" s.title
      ∷ choice "Status" (room_status_text s.status) (map room_status_text room_statuses)
      ∷ value "Started" (without_ago room.started_at)
      ∷ value "Duration" room.duration
      ∷ [];
}

room_object : Settings → SettingPanel
unfolding backend_room
room_object s = record {
  title = "Room Object";
  description = "Fields returned by GET /v1/rooms/{roomId}.";
  parts =
      value "roomId" (backend_room s).id
      ∷ value "livekitRoomName" (backend_room s).live_kit_room_name
      ∷ value "listenerStreamId" (backend_room s).listener_stream_id
      ∷ value "ownerId" (backend_room s).owner_id
      ∷ [];
}

pub roles : Settings → SettingPanel
roles s = record {
  title = "Roles";
  description = "Owner, admins, and moderators from the backend room model.";
  parts =
      field "Owner ID" s.owner_id
      ∷ field "Admin IDs" s.admin_ids
      ∷ field "Moderator IDs" s.moderator_ids
      ∷ [];
}

permission_part : String × Bool → Part
permission_part (label, enabled) =
    badge label (if enabled then "allowed" else "off") (if enabled then "success" else "neutral")

resolved_permissions : SettingPanel
unfolding permission_part
resolved_permissions = record {
  title = "Resolved Permissions";
  description = "Permissions returned from join room.";
  parts = user alex.avatar alex.name "owner session" ∷ map permission_part permissions;
}

listener_stream : Settings → SettingPanel
unfolding protocol_text
listener_stream s = record {
  title = "Listener Stream";
  description = "Passive HLS or LL-HLS path for listeners.";
  parts =
      toggle_row "Passive stream" "listenerStream endpoint" s.passive_enabled
      ∷ choice "Protocol" (protocol_text s.protocol) (map protocol_text stream_protocols)
      ∷ field "Latency MS" s.target_latency
      ∷ field "Segment MS" s.segment_duration
      ∷ field "Part MS" s.part_duration
      ∷ [];
}

speaker_path : Settings → SettingPanel
unfolding backend_room
speaker_path s = record {
  title = "Speaker Path";
  description = "LiveKit participant session for speakers and moderators.";
  parts =
      value "Provider" "livekit"
      ∷ value "Room name" (backend_room s).live_kit_room_name
      ∷ value "Session endpoint"
          (S.◌++◌ "POST /v1/rooms/" (S.◌++◌ (backend_room s).id "/speaker-session"))
      ∷ [];
}

pub recording_panel : Settings → SettingPanel
unfolding active_recording
recording_panel s = record {
  title = "Recording";
  description = "Room recording config and active recording ID.";
  parts =
      toggle_row "Recording enabled" "recording.enabled" s.recording_enabled
      ∷ buttons ("Start" ∷ "Stop" ∷ [])
      ∷ value "Active recording" (active_recording s)
      ∷ [];
}

report_jobs : Settings → SettingPanel
report_jobs s = record {
  title = "Reports";
  description = "Generate room report after finish.";
  parts =
      toggle_row "Report jobs" "generate_room_report" s.report_enabled
      ∷ value "Report status" "requested / generating / completed"
      ∷ buttons ("Generate report" ∷ [])
      ∷ [];
}

action_part : String × String → Part
action_part (label, path) = value label path

speaker_queue : Settings → SettingPanel
unfolding action_part
speaker_queue s = record {
  title = "Speaker Queue";
  description = "Speaker requests and speaking blocks.";
  parts =
      toggle_row "Moderation queue" "speaker-requests" s.moderation_enabled
      ∷ map action_part moderation_actions;
}

event_stream : SettingPanel
event_stream = record {
  title = "Realtime Events";
  description = "Room event stream and connection tokens.";
  parts = map line (
      "voice.room.started" ∷ "voice.speaker.requested" ∷ "voice.speaker.approved"
      ∷ "voice.moderation.user_removed" ∷ "voice.recording.completed" ∷ "voice.report.completed"
      ∷ []);
}

group_part : String × List (String × String × String) → Part
group_part (title, endpoints) = group title endpoints

unfoldable backend_map : SettingPanel
unfolding group_part
backend_map = record {
  title = "Backend Map";
  description = "Current HTTP surface for this settings page.";
  parts = map group_part endpoint_groups;
}

-- The bar of the page: the status, its tone, the id of the room, the title and the buttons.
unfoldable pub settings_head : Settings → String × String × String × String × List String
unfolding room_status_text status_tone backend_room
settings_head s = (
  room_status_text s.status,
  status_tone s.status,
  (backend_room s).id,
  "Room Settings",
  "Schedule" ∷ "Finish Room" ∷ "Save" ∷ [],
)

-- The tabs with their panels; the map of the backend stands beside them.
unfoldable pub tabs : Settings → List (String × List SettingPanel)
unfolding lifecycle room_object roles resolved_permissions listener_stream speaker_path
    recording_panel report_jobs speaker_queue event_stream
tabs s =
    ("General", lifecycle s ∷ room_object s ∷ [])
    ∷ ("Access", roles s ∷ resolved_permissions ∷ [])
    ∷ ("Media", listener_stream s ∷ speaker_path s ∷ [])
    ∷ ("Recording", recording_panel s ∷ report_jobs s ∷ [])
    ∷ ("Moderation", speaker_queue s ∷ event_stream ∷ [])
    ∷ []
