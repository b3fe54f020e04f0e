-- ===== src/Tests/Pages.antt =====
-- client/src/app and client/src/components: the properties of the settings, the rooms of the user,
-- the bars and the raised hands at concrete inputs.
use wave_cast.Common.{
  arith, eq_iff, String, ◌≡◌, refl, true, false, not, ◌==◌, List, [], ◌∷◌, some, none, has, filter,
  last?, All, Distinct,
}
use wave_cast.MockData.{alex, people, person_at, room}
use wave_cast.LiveRoom.Page as LiveRoom
use wave_cast.LiveRoom.PrivateChat.{click_private_chat, click_private_chat_lem}
use wave_cast.LiveRoom.View.{page_view}
use wave_cast.Private.Conversations.{total_unread_count}
use wave_cast.Private.Drawer.Rows.{count_badge}
use wave_cast.Private.Panel as Panel
use wave_cast.Private.Panel.{active_friend}
use wave_cast.Private.Panel.Reachable.{Reach}
use wave_cast.MyRooms as MyRooms
use wave_cast.MyRooms.{AgendaRoom, agenda_rooms, selected_room, finish_room, agenda_seed}
use wave_cast.MyRooms.Visits.{
  Visit, remind, enter, remove, visit, visits, start, wanted, wishes, no_wish, visits-wanted,
}
use wave_cast.MyRooms.Agenda.{agenda_ids}
use wave_cast.MyRooms.Card.Finish.{OverAt, finish_room_lem}
use wave_cast.Hands.{raise_hands_list, add_speaker_to_stage-raising_hands}
use wave_cast.Hands.Left.{select_entry-raise_hands_list}
use wave_cast.Private.Actions.{raising_hands}
use wave_cast.RoomSettings.{parse_ids}
use wave_cast.RoomSettings.Ids.{IsTidy, join, parse_ids-IsTidy}
use wave_cast.Stage.{Stage, on_stage_ids, add_speaker_to_stage, raise_hand_effect, hide_pulse}
use wave_cast.Stage.Invite.{listener_entry, select_entry}
use wave_cast.Stage.Laws.{queued}
use wave_cast.Stage.Pulse.{change, expires, run, note_on, new-other_accepted-stays}
use wave_cast.Stores.Reminder as Reminder
use wave_cast.Stores.Speaker.Defs as Speaker
use wave_cast.TopBar.Network as Network
use wave_cast.TopBar.Network.{Navigator, NetworkQuality, updates, network_status_label}
use wave_cast.TopBar.Network.Laws.{is_online, quality_of, label_of, last_or, updates_lem}
use wave_cast.Types.{SpeakerRequest, RequestStatus}

parse_ids-IsTidy_example :
    All IsTidy (parse_ids " a, ,b")
    × (All IsTidy ("a" ∷ []) → parse_ids (join ("a" ∷ [])) ≡ "a" ∷ [])
parse_ids-IsTidy_example = parse_ids-IsTidy " a, ,b" ("a" ∷ [])

abbrev my_rooms : MyRooms.MyRoom
my_rooms = MyRooms.initial Reminder.initial

finish_room_lem_example :
    ((j : String)
      → has j (agenda_ids (agenda_rooms (finish_room "room_0TH0XSZ73XK0R6" my_rooms)))
        ≡ has j (agenda_ids (agenda_rooms my_rooms)))
    × All (OverAt "room_0TH0XSZ73XK0R6") (agenda_rooms (finish_room "room_0TH0XSZ73XK0R6" my_rooms))
finish_room_lem_example = finish_room_lem "room_0TH0XSZ73XK0R6" my_rooms

-- On line with a fast connection, then off line.
abbrev on_then_off : List Navigator
on_then_off =
    (record {
      on_line = some true;
      connection = some (record { effective_type = some "4g"; downlink = some 400 });
    })
    ∷ (record { on_line = some false; connection = none })
    ∷ []

updates_lem_example :
    let n = updates on_then_off Network.initial in
    let on = last_or is_online (last? on_then_off) true in
    let last_quality =
      last_or quality_of (last? (filter is_online on_then_off)) NetworkQuality.good in
    (n.is_offline ≡ not on)
    × (n.network_quality ≡ last_quality)
    × (network_status_label n ≡ label_of on last_quality)
updates_lem_example = updates_lem on_then_off (refl, (refl, tt))

-- A meetup that is upcoming and has no reminder yet.
-- A reminder is set, the page is opened, and two rooms are removed there, one of them for good.
abbrev two_visits : List Visit
two_visits =
    remind "room_0EDU41K8Q7" "Class"
    ∷ enter
    ∷ remove "room_0EDU41K8Q7"
    ∷ remove "room_0TH0XSZ73XK0R6"
    ∷ []

visits-wanted_example :
    let p = (visits two_visits start).page in
    Distinct (agenda_ids (agenda_rooms p))
    × ((k : String) → has k (agenda_ids (agenda_rooms p)) ≡ wanted (wishes two_visits no_wish) k)
    × ((r : AgendaRoom)
        → selected_room p ≡ some r
        → has r.item.id (agenda_ids (agenda_rooms p)) ≡ true)
    × ((k : String)
        → has k (agenda_ids agenda_seed) ≡ true
        → has k (agenda_ids (agenda_rooms (visit enter (visits two_visits start)).page)) ≡ true)
visits-wanted_example = visits-wanted two_visits

-- Nobody on stage yet.
abbrev empty_stage : Stage
empty_stage = record {
  on_stage_speakers = [];
  open_invite_menu = true;
  raise_hand_pulse = none;
  seen_request_ids = none;
  pulse_timer = none;
  store = Speaker.initial;
}

add_speaker_to_stage-raising_hands_example :
    let q = (add_speaker_to_stage (person_at 6) (some "request_wade") empty_stage).0 in
    (has (person_at 6).id (on_stage_ids q) ≡ true)
    × (raising_hands q.store
        ≡ filter (λ h. not (h.id == "request_wade")) (raising_hands empty_stage.store))
unfolding on_stage_ids
add_speaker_to_stage-raising_hands_example =
    add_speaker_to_stage-raising_hands (person_at 6) "request_wade" empty_stage refl refl

-- The listener has a pending request.
select_entry-raise_hands_list_example :
    let q = (select_entry (listener_entry (person_at 6)) empty_stage).0 in
    (has (person_at 6).id (on_stage_ids q) ≡ true)
    × (raise_hands_list q.store ≡ raise_hands_list empty_stage.store)
    × (queued (person_at 6).id q ≡ false)
select_entry-raise_hands_list_example = select_entry-raise_hands_list (person_at 6) empty_stage

-- The first request of the mock data.
abbrev wade : SpeakerRequest
wade = record {
  id = "request_wade";
  person = person_at 6;
  message = "I'd love to share my thoughts on this topic.";
  requested_at = "2m ago";
  status = RequestStatus.pending;
}

-- The user raises the hand in the room as it is entered, and Wade's request is accepted then.
abbrev raised : Speaker.SpeakerState
raised = Speaker.toggle_request "r1" Speaker.initial

-- The stage of the room, which has seen the requests of the mock data.
abbrev entered : Stage
entered = record empty_stage {
  on_stage_speakers = room.speakers;
  seen_request_ids = some ("request_wade" ∷ "request_jenny" ∷ []);
}

abbrev own_request : SpeakerRequest
own_request = record (Speaker.to_pending_request "r1" alex) { id = Speaker.current_user_request_id }

new-other_accepted-stays_example :
    let p = raise_hand_effect (record entered { store = raised }) in
    let q = (add_speaker_to_stage wade.person (some wade.id) p).0 in
    ((hide_pulse p).raise_hand_pulse ≡ none)
    × ((run (change q.store ∷ expires ∷ expires ∷ []) q).raise_hand_pulse
        ≡ some (note_on own_request))
unfolding Speaker.initial Speaker.toggle_request on_stage_ids Speaker.remove_speaker_request
new-other_accepted-stays_example =
    new-other_accepted-stays raised ("request_wade" ∷ "request_jenny" ∷ []) own_request wade entered
      (expires ∷ expires ∷ []) refl refl refl refl (ground (arith, eq_iff wade.id "")) tt

click_private_chat_lem_example :
    let q = click_private_chat LiveRoom.initial Panel.initial in
    (q.is_p2p_drawer_open ≡ true)
    × (active_friend q ≡ LiveRoom.default_private_chat_target room)
    × ((page_view room people alex.role Network.initial
          (record (LiveRoom.initial) { ui = q.ui })).bar.private_chat
        ≡ some (record {
          is_disabled = false;
          badge = count_badge (total_unread_count Panel.initial.p2p_conversations);
        }))
unfolding Panel.initial
click_private_chat_lem_example =
    click_private_chat_lem room people alex.role Network.initial LiveRoom.initial Reach.here refl
