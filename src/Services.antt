-- ===== src/Services.antt =====
-- client/src/services/mock-api.ts and http-client.ts. Each function of the mock API returns a
-- promise that is kept already: the model has the value that awaiting it gives.
use wave_cast.Common.{ℕ, String, List, Option, or_else}
use wave_cast.MockData as MockData
use wave_cast.Types.{Person, Room, SpeakerRequest, SystemJob, Report, Recording, RealtimeEvent}

-- The cards with label, value and delta, the chart with label, listeners and speakers.
pub record Analytics : Type 0 where
  pub cards : List (String × String × String)
  pub chart_data : List (String × ℕ × ℕ)

pub record MockApi : Type 0 where
  pub get_rooms : List Room
  pub get_room : Room
  pub get_people : List Person
  pub get_speaker_requests : List SpeakerRequest
  pub get_jobs : List SystemJob
  pub get_reports : List Report
  pub get_recordings : List Recording
  pub get_analytics : Analytics
  pub get_realtime_events : List RealtimeEvent

unfoldable mock_api : MockApi
mock_api = record {
  get_rooms = MockData.rooms;
  get_room = MockData.room;
  get_people = MockData.people;
  get_speaker_requests = MockData.speaker_requests;
  get_jobs = MockData.jobs;
  get_reports = MockData.reports;
  get_recordings = MockData.recordings;
  get_analytics = record { cards = MockData.analytics_cards; chart_data = MockData.chart_data };
  get_realtime_events = MockData.realtime_events;
}

-- What the client of the library `ky` is created with; an address that is set but empty is kept.
pub record HttpOptions : Type 0 where
  pub prefix_url : String
  pub timeout : ℕ

unfoldable http : Option String → HttpOptions
http next_public_wavecast_api_url = record {
  prefix_url = or_else next_public_wavecast_api_url "http://localhost:8080";
  timeout = 10000;
}
