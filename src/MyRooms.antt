-- ===== src/MyRooms.antt =====
-- client/src/app/my-room/page.tsx: the agenda of own rooms, market rooms and reminders.
pub mod Agenda
pub mod Remove
pub mod Card
pub mod Visits
use wave_cast.Common.{
  ℕ, ◌%◌, suc, String, Bool, true, false, not, List, [], ◌∷◌, ◌++◌, Option, none, some, map, filter,
  find, has, add, head?, get_or, insert, values, or_else, ◌==◌, if◌then◌else◌,
}
use wave_cast.MockData.{alex, person_at, room, rooms}
use wave_cast.Stores.Reminder as Reminder
use wave_cast.Types.{Person, Room, RoomStatus, HlsStatus}

pub data AgendaKind : Type 0 where
  mine market reminder : AgendaKind

pub data Priority : Type 0 where
  now today soon saved : Priority

-- The fields of the room stand in `item`.
pub record AgendaRoom : Type 0 where
  pub item : Room
  pub agenda_kind : AgendaKind
  pub accent : String
  pub note : String
  pub backend_actions : List String
  pub priority : Priority

abbrev room_actions : AgendaKind → List String
room_actions mine =
    "GET /v1/rooms/{roomId}" ∷ "POST /v1/rooms/{roomId}/start" ∷ "POST /v1/rooms/{roomId}/finish"
    ∷ "GET /v1/rooms/{roomId}/report" ∷ []
room_actions market =
    "GET /v1/rooms/{roomId}" ∷ "POST /v1/rooms/{roomId}/join" ∷ "POST /v1/rooms/{roomId}/leave"
    ∷ "GET /v1/rooms/{roomId}/active-counts" ∷ []
room_actions reminder =
    "GET /v1/rooms/{roomId}" ∷ "POST /v1/rooms/{roomId}/join" ∷ "GET /v1/rooms/{roomId}/recordings"
    ∷ "POST /v1/rooms/{roomId}/report/generate" ∷ []

abbrev room_at : ℕ → Room
room_at i = get_or rooms i room

abbrev pub agenda_seed : List AgendaRoom
agenda_seed =
    (record {
      item = room_at 0;
      agenda_kind = mine;
      accent = "from-[#6684FF]/22 via-sky-400/10 to-emerald-400/10";
      note = "Host controls, speaker queue, recording, and room finish actions are available.";
      backend_actions = room_actions mine;
      priority = now;
    })
    ∷ (record {
      item = record (room_at 1) { status = RoomStatus.scheduled; owner = alex };
      agenda_kind = mine;
      accent = "from-emerald-400/20 via-teal-400/10 to-[#6684FF]/10";
      note = "Draft the run-of-show, start the room, or open the room object.";
      backend_actions = room_actions mine;
      priority = today;
    })
    ∷ (record {
      item = record (room_at 2) { owner = person_at 0 };
      agenda_kind = market;
      accent = "from-amber-300/20 via-orange-400/10 to-rose-400/10";
      note = "Public market room with live audience signals and join/leave actions.";
      backend_actions = room_actions market;
      priority = now;
    })
    ∷ (record {
      item = record (room_at 8) { owner = person_at 11 };
      agenda_kind = market;
      accent = "from-cyan-300/20 via-[#6684FF]/10 to-indigo-400/10";
      note = "Finished market session with report and recording follow-up.";
      backend_actions = room_actions reminder;
      priority = saved;
    })
    ∷ (record {
      item = record (room_at 3) { owner = person_at 6 };
      agenda_kind = reminder;
      accent = "from-pink-300/20 via-rose-400/10 to-amber-300/10";
      note = "Reminder set for later today. Join when it opens.";
      backend_actions = room_actions reminder;
      priority = soon;
    })
    ∷ (record {
      item = record (room_at 5) { owner = person_at 2 };
      agenda_kind = reminder;
      accent = "from-lime-300/20 via-emerald-400/10 to-cyan-300/10";
      note = "Saved learning room with recording/report actions after the session.";
      backend_actions = room_actions reminder;
      priority = soon;
    })
    ∷ []

-- The length of the list is written out.
abbrev reminder_accent : ℕ → String
reminder_accent i =
    get_or
      ("from-pink-300/20 via-rose-400/10 to-amber-300/10"
        ∷ "from-lime-300/20 via-emerald-400/10 to-cyan-300/10"
        ∷ "from-emerald-400/20 via-teal-400/10 to-[#6684FF]/10"
        ∷ "from-amber-300/20 via-orange-400/10 to-rose-400/10" ∷ [])
      i ""

pub to_reminder_agenda_room : Room → ℕ → AgendaRoom
to_reminder_agenda_room item index = record {
  item = item;
  agenda_kind = reminder;
  accent = reminder_accent (index % 4);
  note = "Reminder set from the upcoming list. Join when the room opens.";
  backend_actions = room_actions reminder;
  priority = soon;
}

-- The `useState` cells of the page, and the store that it shares.
pub record MyRoom : Type 0 where
  pub removed_room_ids : List String
  pub finished_room_ids : List String
  pub active_tab : String
  pub selected_room_id : String
  pub store : Reminder.RoomReminderState

unfoldable pub initial : Reminder.RoomReminderState → MyRoom
initial store = record {
  removed_room_ids = [];
  finished_room_ids = [];
  active_tab = "all";
  selected_room_id = (room_at 0).id;
  store = store;
}

unfoldable pub find_room : String → Option Room
find_room room_id = find (λ candidate. candidate.id == room_id) rooms

-- The reminded rooms from an index on; an id that no room has is left out.
pub reminder_rooms : ℕ → List String → List AgendaRoom
unfolding to_reminder_agenda_room
reminder_rooms index [] = []
reminder_rooms index (room_id ∷ rest) =
    let others = reminder_rooms (suc index) rest in
    elim (find_room room_id) [
      | none ↦ others
      | some item ↦ to_reminder_agenda_room item index ∷ others
    ]

pub finished : AgendaRoom → AgendaRoom
finished room_item = record room_item {
  item = record (room_item.item) {
    status = RoomStatus.finished;
    hls_status = HlsStatus.off;
    recording = false;
  };
  priority = saved;
  note = "Room finished. You can review the report or remove it from your list.";
}

pub merge : MyRoom → List AgendaRoom → List (String × AgendaRoom) → List (String × AgendaRoom)
unfolding finished
merge p [] unique_rooms = unique_rooms
merge p (room_item ∷ rest) unique_rooms =
    let item =
      if has room_item.item.id p.finished_room_ids then finished room_item else room_item in
    merge p rest (
      if not (has room_item.item.id p.removed_room_ids)
      then insert item.item.id item unique_rooms
      else unique_rooms)

pub agenda_rooms : MyRoom → List AgendaRoom
unfolding merge reminder_rooms
agenda_rooms p = values (merge p (agenda_seed ++ reminder_rooms 0 p.store.reminded_room_ids) [])

abbrev pub kind_text : AgendaKind → String
kind_text mine = "mine"
kind_text market = "market"
kind_text reminder = "reminder"

pub visible_rooms : MyRoom → List AgendaRoom
unfolding agenda_rooms
visible_rooms p =
    if p.active_tab == "all"
    then agenda_rooms p
    else filter (λ room_item. kind_text room_item.agenda_kind == p.active_tab) (agenda_rooms p)

abbrev pub or_option {ℓ} : {A : Type ℓ} → Option A → Option A → Option A
or_option none d = d
or_option (some a) d = some a

pub selected_room : MyRoom → Option AgendaRoom
unfolding visible_rooms
selected_room p =
    or_option (find (λ r. r.item.id == p.selected_room_id) (agenda_rooms p))
      (or_option (head? (visible_rooms p)) (head? (agenda_rooms p)))

abbrev id_or_empty : Option AgendaRoom → String
id_or_empty none = ""
id_or_empty (some r) = r.item.id

-- The agenda that the new selection is taken from is that of the page as it was.
pub remove_room : String → MyRoom → MyRoom
unfolding agenda_rooms add Reminder.remove_reminder
remove_room room_id p = record p {
  store = Reminder.remove_reminder room_id p.store;
  removed_room_ids = add room_id p.removed_room_ids;
  selected_room_id =
      if p.selected_room_id == room_id
      then id_or_empty (
          or_option (find (λ r. not (r.item.id == room_id)) (agenda_rooms p))
            (head? (agenda_rooms p)))
      else p.selected_room_id;
}

pub finish_room : String → MyRoom → MyRoom
unfolding add
finish_room room_id p = record p { finished_room_ids = add room_id p.finished_room_ids }

unfoldable select_room : String → MyRoom → MyRoom
select_room room_id p = record p { selected_room_id = room_id }
