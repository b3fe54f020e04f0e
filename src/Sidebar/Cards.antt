-- ===== src/Sidebar/Cards.antt =====
-- client/src/components/room/live-sidebar.tsx: what the sidebar shows, without its styling.
use Prim.Native.String as S
use wave_cast.Common.{
  ℕ, suc, String, Bool, List, [], ◌∷◌, Option, none, some, map, take, has, length, eqb, ◌==◌,
  if◌then◌else◌,
}
use wave_cast.Common.Decimal.{show}
use wave_cast.Common.Int.{ℤ}
use wave_cast.MockData.{room, rooms}
use wave_cast.Sidebar.{
  Sidebar, LiveNowMode, topic_chips, topic_list, live_now_rooms, upcoming_meetups,
  resolve_topic_class, filtered_room_results, has_topic_filter,
}
use wave_cast.Types.{Person, Room, status_text}

-- The card of a live room. Its label is fixed in the list, where the room's own one is shown on a
-- card; the people are those of the current room, three in the list and four on a card.
pub record LiveNowItem : Type 0 where
  pub is_first : Bool
  pub label : String
  pub duration : String
  pub speaker_count : ℕ
  pub listener_count : ℕ
  pub title : String
  pub topic : String
  pub topic_class : String
  pub is_current_room : Bool
  pub people : List Person
  pub remainder : String

abbrev live_label : LiveNowMode → Room → String
live_label LiveNowMode.list item = "Live now"
live_label LiveNowMode.cards item =
    if status_text item.status == "live" then "Live now" else "Scheduled"

abbrev max_people : LiveNowMode → ℕ
max_people LiveNowMode.list = 3
max_people LiveNowMode.cards = 4

render_live_now_item : LiveNowMode → Room → ℕ → LiveNowItem
unfolding resolve_topic_class
render_live_now_item mode item index = record {
  is_first = eqb index 0;
  label = live_label mode item;
  duration = item.duration;
  speaker_count = item.speaker_count;
  listener_count = item.listener_count;
  title = item.title;
  topic = item.topic;
  topic_class = resolve_topic_class item.topic;
  is_current_room = item.id == room.id;
  people = take (max_people mode) room.listeners;
  remainder = if eqb index 0 then "+32" else "+24";
}

abbrev items_from : LiveNowMode → ℕ → List Room → List LiveNowItem
items_from mode index [] = []
items_from mode index (item ∷ rest) =
    render_live_now_item mode item index ∷ items_from mode (suc index) rest

pub record UpcomingItem : Type 0 where
  pub is_first : Bool
  pub started_at : String
  pub title : String
  pub topic : String
  pub topic_class : String
  pub is_reminded : Bool
  pub hint : String

upcoming_from : List String → ℕ → List Room → List UpcomingItem
unfolding resolve_topic_class
upcoming_from reminded_room_ids index [] = []
upcoming_from reminded_room_ids index (item ∷ rest) =
    (record {
      is_first = eqb index 0;
      started_at = item.started_at;
      title = item.title;
      topic = item.topic;
      topic_class = resolve_topic_class item.topic;
      is_reminded = has item.id reminded_room_ids;
      hint = if has item.id reminded_room_ids then "Reminder active" else "Set reminder";
    })
    ∷ upcoming_from reminded_room_ids (suc index) rest

pub record RoomRow : Type 0 where
  pub title : String
  pub topic : String
  pub topic_class : String
  pub badge : String
  pub listener_count : ℕ
  pub speaker_count : ℕ
  pub is_bookmarked : Bool

room_row : Sidebar → Room → RoomRow
unfolding resolve_topic_class
room_row s item = record {
  title = item.title;
  topic = item.topic;
  topic_class = resolve_topic_class item.topic;
  badge = if status_text item.status == "live" then "Live" else "Offline";
  listener_count = item.listener_count;
  speaker_count = item.speaker_count;
  is_bookmarked = has item.id s.bookmarked_room_ids;
}

-- The drawer of topics: how much is selected and found, whether the filters can be cleared, the
-- topics with whether they are selected, and the rooms.
pub record TopicsMenu : Type 0 where
  pub summary : String
  pub can_clear : Bool
  pub topics : List (String × Bool)
  pub room_rows : List RoomRow

pub record View : Type 0 where
  pub live_now : List LiveNowItem
  pub upcoming : List UpcomingItem
  pub menu : Option TopicsMenu
  pub chips : List (String × String)

-- The order of texts, `localeCompare`, is an argument.
module _ (locale_compare : String → String → ℤ) where
  pub topics_menu : Sidebar → TopicsMenu
  unfolding topic_list filtered_room_results has_topic_filter room_row show
  topics_menu s =
      let found = filtered_room_results rooms s in
      record {
        summary = S.◌++◌ (show (length s.active_topic_filters)) (
            S.◌++◌ " selected • " (
              S.◌++◌ (show (length found))
                (S.◌++◌ " room" (if eqb (length found) 1 then "" else "s"))));
        can_clear = has_topic_filter s;
        topics =
            map (λ topic. (topic.label, has topic.label s.active_topic_filters))
              (topic_list locale_compare topic_chips rooms);
        room_rows = map (room_row s) found;
      }

  unfoldable pub view : Sidebar → View
  unfolding topics_menu render_live_now_item upcoming_from live_now_rooms upcoming_meetups
      resolve_topic_class
  view s = record {
    live_now = items_from s.live_now_mode 0 live_now_rooms;
    upcoming = upcoming_from s.store.reminded_room_ids 0 upcoming_meetups;
    menu = if s.is_topics_menu_open then some (topics_menu s) else none;
    chips = map (λ label. (label, resolve_topic_class label)) topic_chips;
  }
