-- ===== src/Tests/Lists.antt =====
-- client/src/app/my-room/page.tsx and client/src/components/room/live-sidebar.tsx at concrete
-- inputs.
use wave_cast.Common.{
  String, true, not, ◌≡◌, ◌≢◌, [], ◌∷◌, some, ◌&&◌, ◌||◌, has, Distinct, All, ◌==◌,
}
use wave_cast.Common.Int.{ℤ, pos}
use wave_cast.MockData.{rooms}
use wave_cast.MyRooms as MyRooms
use wave_cast.MyRooms.Agenda.{agenda_ids, agenda_rooms_lem, is_a_room, ShownFinished}
use wave_cast.MyRooms.Remove.{remove_room_lem}
use wave_cast.Sidebar as Sidebar
use wave_cast.Sidebar.Topics.{labels, topics, rooms_with, topic_list_lem}

-- A page with a reminder set, a room finished and one removed.
abbrev page : MyRooms.MyRoom
page = record {
  removed_room_ids = "room_0IHIC3YF2Q7LBD" ∷ [];
  finished_room_ids = "room_0TH0XSZ73XK0R6" ∷ [];
  active_tab = "mine";
  selected_room_id = "room_0TH0XSZ73XK0R6";
  store = record { reminded_room_ids = "room_0LIF72P9A3" ∷ [] };
}

agenda_rooms_lem_example :
    Distinct (agenda_ids (MyRooms.agenda_rooms page))
    × ((k : String)
        → has k (agenda_ids (MyRooms.agenda_rooms page)) ≡ (
            (has k (agenda_ids MyRooms.agenda_seed)
              || has k page.store.reminded_room_ids && is_a_room k)
            && not (has k page.removed_room_ids)))
    × All (ShownFinished page) (MyRooms.agenda_rooms page)
agenda_rooms_lem_example = agenda_rooms_lem page

remove_room_lem_example :
    ((j : String)
      → has j (agenda_ids (MyRooms.agenda_rooms (MyRooms.remove_room "room_0LIF72P9A3" page)))
        ≡ (has j (agenda_ids (MyRooms.agenda_rooms page)) && not ("room_0LIF72P9A3" == j)))
    × ((j : String)
        → has j (MyRooms.remove_room "room_0LIF72P9A3" page).store.reminded_room_ids
          ≡ (has j page.store.reminded_room_ids && not ("room_0LIF72P9A3" == j)))
    × ((r : MyRooms.AgendaRoom)
        → MyRooms.selected_room (MyRooms.remove_room "room_0LIF72P9A3" page) ≡ some r
        → r.item.id ≢ "room_0LIF72P9A3")
remove_room_lem_example = remove_room_lem "room_0LIF72P9A3" page

-- An order of texts in which all are equal.
abbrev as_they_are : String → String → ℤ
as_they_are s t = pos 0

topic_list_lem_example :
    Distinct (labels (Sidebar.topic_list as_they_are Sidebar.topic_chips rooms))
    × ((k : String)
        → has k (labels (Sidebar.topic_list as_they_are Sidebar.topic_chips rooms))
          ≡ (has k (topics rooms) || has k Sidebar.topic_chips))
    × All
        (λ e. e.room_count ≡ rooms_with e.label rooms)
        (Sidebar.topic_list as_they_are Sidebar.topic_chips rooms)
topic_list_lem_example = topic_list_lem as_they_are Sidebar.topic_chips rooms

abbrev searching : Sidebar.Sidebar
searching = record {
  live_now_mode = Sidebar.LiveNowMode.list;
  is_topics_menu_open = true;
  room_search = " ";
  active_topic_filters = "Health" ∷ [];
  bookmarked_room_ids = [];
  store = record { reminded_room_ids = [] };
}
