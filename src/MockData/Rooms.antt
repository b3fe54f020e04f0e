-- ===== src/MockData/Rooms.antt =====
-- client/src/features/wavecast/mock-data.ts, the rooms and the requests to speak.
use wave_cast.Common.{true, false, List, [], ◌∷◌, take, drop}
use wave_cast.Types.{Room, live, scheduled, finished, healthy, off, SpeakerRequest, RequestStatus}
use wave_cast.MockData.People.{alex, people, person_at}

abbrev pub room : Room
room = record {
  id = "room_0TH0XSZ73XK0R6";
  title = "The Future of AI in Everyday Life";
  topic = "Tech Talk";
  status = live;
  listener_count = 1197;
  speaker_count = 78;
  started_at = "00:23:45 ago";
  duration = "01:23:45";
  recording = true;
  hls_status = healthy;
  language = "English";
  owner = alex;
  speakers = person_at 0 ∷ person_at 1 ∷ person_at 2 ∷ [];
  listeners = drop 1 (take 14 people);
}

abbrev live_future : Room
live_future = record room {
  listener_count = 1248;
  speaker_count = 78;
  started_at = "00:23:45 ago";
  duration = "01:23:45";
}

abbrev live_building : Room
live_building = record room {
  id = "room_0THOX4M6JHSK2Q";
  title = "Building in Public: Lessons Learned";
  topic = "Entrepreneurship";
  listener_count = 412;
  speaker_count = 24;
  started_at = "01:12:10 ago";
  duration = "45:30";
}

abbrev live_startups : Room
live_startups = record room {
  id = "room_0IHIC3YF2Q7LBD";
  title = "Open discussion: Startups & VC";
  topic = "Business";
  listener_count = 623;
  speaker_count = 45;
  started_at = "02:05:27 ago";
  duration = "32:10";
}

abbrev saas_growth : Room
saas_growth = record room {
  id = "room_01HX2KJ28MN";
  title = "SaaS Growth Tactics That Work";
  topic = "Marketing";
  status = scheduled;
  listener_count = 184;
  speaker_count = 6;
  started_at = "Today, 7:00 PM";
  duration = "-";
  recording = false;
  hls_status = off;
}

abbrev morning_mindset : Room
morning_mindset = record room {
  id = "room_0IHXUTNQSP4B";
  title = "Morning Mindset & Productivity";
  topic = "Health";
  status = scheduled;
  listener_count = 92;
  speaker_count = 4;
  started_at = "Tomorrow, 9:00 AM";
  duration = "-";
  recording = false;
  hls_status = off;
}

abbrev learning_systems : Room
learning_systems = record room {
  id = "room_0EDU41K8Q7";
  title = "Learning Systems for Busy Teams";
  topic = "Education";
  status = scheduled;
  listener_count = 136;
  speaker_count = 5;
  started_at = "Tomorrow, 2:30 PM";
  duration = "-";
  recording = false;
  hls_status = off;
}

abbrev indie_music : Room
indie_music = record room {
  id = "room_0MUS91N4X2";
  title = "Indie Music Discovery Hour";
  topic = "Music";
  status = scheduled;
  listener_count = 248;
  speaker_count = 8;
  started_at = "Friday, 6:00 PM";
  duration = "-";
  recording = false;
  hls_status = off;
}

abbrev reset_routines : Room
reset_routines = record room {
  id = "room_0LIF72P9A3";
  title = "Reset Routines for Remote Work";
  topic = "Lifestyle";
  status = scheduled;
  listener_count = 117;
  speaker_count = 3;
  started_at = "Saturday, 11:00 AM";
  duration = "-";
  recording = false;
  hls_status = off;
}

abbrev operator_roundtable : Room
operator_roundtable = record room {
  id = "room_0BUS88V6C1";
  title = "Operator Roundtable: Pricing Signals";
  topic = "Business";
  status = scheduled;
  listener_count = 312;
  speaker_count = 9;
  started_at = "Sunday, 4:00 PM";
  duration = "-";
  recording = false;
  hls_status = off;
}

abbrev product_design : Room
product_design = record room {
  id = "room_01THWXY7632T2";
  title = "Product Design Trends 2024";
  topic = "Design";
  status = finished;
  listener_count = 856;
  speaker_count = 56;
  started_at = "May 17, 11:00 AM";
  duration = "01:15:22";
  recording = false;
  hls_status = off;
}

abbrev pub rooms : List Room
rooms =
    live_future ∷ live_building ∷ live_startups ∷ saas_growth ∷ morning_mindset ∷ learning_systems
    ∷ indie_music ∷ reset_routines ∷ operator_roundtable ∷ product_design ∷ []

abbrev request_wade : SpeakerRequest
request_wade = record {
  id = "request_wade";
  person = person_at 6;
  message = "I'd love to share my thoughts on this topic.";
  requested_at = "2m ago";
  status = RequestStatus.pending;
}

abbrev request_jenny : SpeakerRequest
request_jenny = record {
  id = "request_jenny";
  person = person_at 7;
  message = "Can I discuss the real-world use cases?";
  requested_at = "4m ago";
  status = RequestStatus.pending;
}

abbrev pub speaker_requests : List SpeakerRequest
speaker_requests = request_wade ∷ request_jenny ∷ []
