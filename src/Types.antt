-- ===== src/Types.antt =====
-- client/src/types/wavecast.ts: the client's data. An optional field is an `Option`.
use wave_cast.Common.{ℕ, String, Bool, true, false, ◌==◌, Option, List}

pub data RoomStatus : Type 0 where
  live scheduled finished : RoomStatus

pub data UserRole : Type 0 where
  host speaker listener moderator admin : UserRole

pub record Person : Type 0 where
  pub id : String
  pub name : String
  pub username : String
  pub role : UserRole
  pub avatar : String
  pub is_friend : Option Bool
  pub online : Option Bool
  pub is_speaking : Option Bool

pub data HlsStatus : Type 0 where
  healthy pending off : HlsStatus

pub record Room : Type 0 where
  pub id : String
  pub title : String
  pub topic : String
  pub status : RoomStatus
  pub listener_count : ℕ
  pub speaker_count : ℕ
  pub started_at : String
  pub duration : String
  pub recording : Bool
  pub hls_status : HlsStatus
  pub language : String
  pub owner : Person
  pub speakers : List Person
  pub listeners : List Person

pub data RequestStatus : Type 0 where
  pending approved declined : RequestStatus

pub record SpeakerRequest : Type 0 where
  pub id : String
  pub person : Person
  pub message : String
  pub requested_at : String
  pub status : RequestStatus

pub data JobStatus : Type 0 where
  running completed retrying failed : JobStatus

pub record SystemJob : Type 0 where
  pub id : String
  pub type : String
  pub status : JobStatus
  pub created_at : String

pub data ReportStatus : Type 0 where
  ready generating failed : ReportStatus

pub record Report : Type 0 where
  pub id : String
  pub room : String
  pub status : ReportStatus
  pub created_at : String

pub data RecordingStatus : Type 0 where
  ready processing : RecordingStatus

pub record Recording : Type 0 where
  pub id : String
  pub room : String
  pub duration : String
  pub size : String
  pub status : RecordingStatus

pub record RealtimeEvent : Type 0 where
  pub time : String
  pub event : String
  pub room : String
  pub user : String
  pub details : String

-- `role === "Host"` and the like; the texts are those that the client shows and searches.
abbrev pub role_text : UserRole → String
role_text host = "Host"
role_text speaker = "Speaker"
role_text listener = "Listener"
role_text moderator = "Moderator"
role_text admin = "Admin"

abbrev pub status_text : RoomStatus → String
status_text live = "live"
status_text scheduled = "scheduled"
status_text finished = "finished"

abbrev pub is_host : UserRole → Bool
is_host r = role_text r == "Host"

abbrev pub is_pending : RequestStatus → Bool
is_pending RequestStatus.pending = true
is_pending RequestStatus.approved = false
is_pending RequestStatus.declined = false
