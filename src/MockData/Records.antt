-- ===== src/MockData/Records.antt =====
-- client/src/features/wavecast/mock-data.ts: jobs, reports, recordings, events and figures.
use wave_cast.Common.{ℕ, String, List, [], ◌∷◌}
use wave_cast.Types.{
  SystemJob, JobStatus, Report, ReportStatus, Recording, RecordingStatus, RealtimeEvent,
}

abbrev job_0 : SystemJob
job_0 = record {
  id = "job_0TH0XSZ73XK0R6";
  type = "generate_report";
  status = JobStatus.running;
  created_at = "2m ago";
}

abbrev job_1 : SystemJob
job_1 = record {
  id = "job_0H4M6JHSK2Q";
  type = "finalize_recording";
  status = JobStatus.completed;
  created_at = "10m ago";
}

abbrev job_2 : SystemJob
job_2 = record {
  id = "job_0IHIC3YF2Q7LBD";
  type = "expire_sessions";
  status = JobStatus.completed;
  created_at = "15m ago";
}

abbrev job_3 : SystemJob
job_3 = record {
  id = "job_01H2KJ28MN";
  type = "dispatch_event";
  status = JobStatus.retrying;
  created_at = "18m ago";
}

abbrev job_4 : SystemJob
job_4 = record {
  id = "job_0IHXUTNQSP4B";
  type = "sync_analytics";
  status = JobStatus.failed;
  created_at = "25m ago";
}

abbrev pub jobs : List SystemJob
jobs = job_0 ∷ job_1 ∷ job_2 ∷ job_3 ∷ job_4 ∷ []

abbrev report_0 : Report
report_0 = record {
  id = "report_01HXSZ73XK0R6";
  room = "The Future of AI in Everyday Life";
  status = ReportStatus.ready;
  created_at = "2m ago";
}

abbrev report_1 : Report
report_1 = record {
  id = "report_01H4M6JH1K2Q";
  room = "Building in Public: Lessons Learned";
  status = ReportStatus.ready;
  created_at = "15m ago";
}

abbrev report_2 : Report
report_2 = record {
  id = "report_0HIC3YFQ7LBD";
  room = "Open discussion: Startups & VC";
  status = ReportStatus.generating;
  created_at = "22m ago";
}

abbrev report_3 : Report
report_3 = record {
  id = "report_01HX2KJ28MN";
  room = "SaaS Growth Tactics That Work";
  status = ReportStatus.failed;
  created_at = "1h ago";
}

abbrev report_4 : Report
report_4 = record {
  id = "report_01HXUTNQSP4B";
  room = "Morning Mindset & Productivity";
  status = ReportStatus.ready;
  created_at = "1h ago";
}

abbrev pub reports : List Report
reports = report_0 ∷ report_1 ∷ report_2 ∷ report_3 ∷ report_4 ∷ []

abbrev recording_0 : Recording
recording_0 = record {
  id = "rec_0TH0XSZ73XK0R6";
  room = "The Future of AI in Everyday Life";
  duration = "01:23:45";
  size = "124.4 MB";
  status = RecordingStatus.ready;
}

abbrev recording_1 : Recording
recording_1 = record {
  id = "rec_0H4M6JHSK2Q";
  room = "Building in Public";
  duration = "00:45:30";
  size = "86.3 MB";
  status = RecordingStatus.ready;
}

abbrev recording_2 : Recording
recording_2 = record {
  id = "rec_0IHIC3YF2Q7LBD";
  room = "Open discussion";
  duration = "00:32:10";
  size = "60.1 MB";
  status = RecordingStatus.processing;
}

abbrev recording_3 : Recording
recording_3 = record {
  id = "rec_01H2KJ28MN";
  room = "Product Design Trends";
  duration = "01:15:22";
  size = "110.3 MB";
  status = RecordingStatus.ready;
}

abbrev pub recordings : List Recording
recordings = recording_0 ∷ recording_1 ∷ recording_2 ∷ recording_3 ∷ []

abbrev event_0 : RealtimeEvent
event_0 = record {
  time = "12:30:45";
  event = "speaker.joined";
  room = "The Future of AI in Everyday Life";
  user = "user_877u24";
  details = "Brian Miller joined the stage";
}

abbrev event_1 : RealtimeEvent
event_1 = record {
  time = "12:30:30";
  event = "listener.joined";
  room = "The Future of AI in Everyday Life";
  user = "user_a7h3d3";
  details = "Listener joined";
}

abbrev event_2 : RealtimeEvent
event_2 = record {
  time = "12:30:15";
  event = "request.approved";
  room = "The Future of AI in Everyday Life";
  user = "user_3x4ds";
  details = "Jenny Wilson approved";
}

abbrev event_3 : RealtimeEvent
event_3 = record {
  time = "12:30:10";
  event = "message.sent";
  room = "The Future of AI in Everyday Life";
  user = "user_64edf6";
  details = "Great insights so far!";
}

abbrev event_4 : RealtimeEvent
event_4 = record {
  time = "12:30:05";
  event = "listener.left";
  room = "Building in Public";
  user = "user_Mgfh8";
  details = "Listener left";
}

abbrev pub realtime_events : List RealtimeEvent
realtime_events = event_0 ∷ event_1 ∷ event_2 ∷ event_3 ∷ event_4 ∷ []

-- Label, value and delta.
abbrev pub analytics_cards : List (String × String × String)
analytics_cards =
    ("Total Listeners", "12,456", "+12.5%")
    ∷ ("Total Rooms", "128", "+8.3%")
    ∷ ("Total Speakers", "342", "+15.2%")
    ∷ ("Total Duration", "240h 32m", "+10.7%")
    ∷ []

-- Label, listeners and speakers.
abbrev pub chart_data : List (String × ℕ × ℕ)
chart_data =
    ("May 12", 500, 18)
    ∷ ("May 13", 920, 26)
    ∷ ("May 14", 1480, 47)
    ∷ ("May 15", 1160, 33)
    ∷ ("May 16", 1530, 52)
    ∷ ("May 17", 1330, 42)
    ∷ ("May 18", 1690, 56)
    ∷ []

-- Label and value.
abbrev listener_chart_data : List (String × ℕ)
listener_chart_data =
    ("00:00", 180) ∷ ("00:20", 520) ∷ ("00:40", 650) ∷ ("01:00", 760) ∷ ("01:20", 1248) ∷ []

-- Label and value.
abbrev speaker_bar_data : List (String × ℕ)
speaker_bar_data =
    ("00:00", 24) ∷ ("00:20", 42) ∷ ("00:40", 51) ∷ ("01:00", 38) ∷ ("01:20", 78) ∷ []

abbrev pub waveform : List ℕ
waveform =
    34 ∷ 55 ∷ 29 ∷ 64 ∷ 42 ∷ 75 ∷ 51 ∷ 88 ∷ 47 ∷ 70 ∷ 39 ∷ 62 ∷ 82 ∷ 45 ∷ 58 ∷ 33 ∷ 73 ∷ 52 ∷ 86
    ∷ 31 ∷ 54 ∷ 69 ∷ 43 ∷ 77 ∷ 36 ∷ 61 ∷ 49 ∷ 84 ∷ 57 ∷ 35 ∷ 68 ∷ 91 ∷ []
