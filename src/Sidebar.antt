-- ===== src/Sidebar.antt =====
-- client/src/components/room/live-sidebar.tsx: topics, the search for rooms, bookmarks and reminders.
pub mod Topics
pub mod Results
pub mod Cards
pub mod Icons
pub mod Agenda
use Prim.Native.String as S
use wave_cast.Common.{
  ℕ, ◌+◌, String, Bool, true, false, not, ◌&&◌, ◌||◌, List, [], ◌∷◌, Option, none, some, map, any,
  filter, find, has, add, delete, lookup, insert, or_else, is_empty, trim, to_lower_case, includes,
  ltb, length, ◌==◌, if◌then◌else◌,
}
use wave_cast.Common.Int.{ℤ}
use wave_cast.Common.Sort.{sort}
use wave_cast.MockData.{rooms}
use wave_cast.Stores.Reminder as Reminder
use wave_cast.Toast.{Toast, success}
use wave_cast.Types.{Room, RoomStatus, status_text}

pub record TopicEntry : Type 0 where
  pub label : String
  pub room_count : ℕ

-- The labels of the chips; which icon stands for a topic is in Sidebar/Icons.
abbrev pub topic_chips : List String
topic_chips = "Tech" ∷ "Business" ∷ "Health" ∷ "Education" ∷ "Music" ∷ "Lifestyle" ∷ []

abbrev tech_class : String
tech_class = "border-primary/35 bg-primary/12 text-primary"

abbrev business_class : String
business_class = "border-chart-2/35 bg-chart-2/12 text-chart-2"

abbrev education_class : String
education_class = "border-chart-4/35 bg-chart-4/12 text-chart-4"

abbrev topic_badge_classes : List (String × String)
topic_badge_classes =
    ("Tech", tech_class)
    ∷ ("Business", business_class)
    ∷ ("Health", "border-chart-3/35 bg-chart-3/12 text-chart-3")
    ∷ ("Education", education_class)
    ∷ ("Music", tech_class)
    ∷ ("Lifestyle", "border-chart-5/35 bg-chart-5/12 text-chart-5")
    ∷ []

pub resolve_topic_class : String → String
resolve_topic_class topic =
    let lower = to_lower_case topic in
    elim (find (λ e. includes lower (to_lower_case e.0)) topic_badge_classes) [
      | some (key, badge) ↦ badge
      | none ↦
          if includes lower "entrepreneur"
          then business_class
          else (if includes lower "design"
              then education_class
              else (if includes lower "marketing"
                  then tech_class
                  else (if includes lower "talk"
                      then tech_class
                      else "border-border bg-muted text-muted-foreground")))
    ]

pub topic_matches_room : String → String → Bool
topic_matches_room topic room_topic =
    let t = to_lower_case topic in
    let r = to_lower_case room_topic in
    if includes r t || includes t r
    then true
    else (if includes t "tech"
        then includes r "tech" || includes r "talk"
        else (if includes t "business"
            then includes r "business"
              || includes r "entrepreneur"
              || includes r "startup"
              || includes r "vc"
            else (if includes t "education"
                then includes r "education" || includes r "design"
                else (if includes t "music"
                    then includes r "music" || includes r "marketing"
                    else (if includes t "lifestyle"
                        then includes r "lifestyle" || includes r "productivity"
                        else false)))))

is_live : RoomStatus → Bool
is_live status = status_text status == "live"

is_scheduled : RoomStatus → Bool
is_scheduled status = status_text status == "scheduled"

pub live_now_rooms : List Room
unfolding is_live
live_now_rooms = filter (λ item. is_live item.status) rooms

pub upcoming_meetups : List Room
unfolding is_scheduled
upcoming_meetups = filter (λ item. is_scheduled item.status) rooms

-- A count, with `topicCounts.get(label) ?? 0` as what was counted before.
pub count_rooms : List Room → List (String × ℕ) → List (String × ℕ)
count_rooms [] counts = counts
count_rooms (item ∷ rest) counts =
    count_rooms rest (insert item.topic (or_else (lookup item.topic counts) 0 + 1) counts)

pub add_chips : List String → List (String × ℕ) → List (String × ℕ)
add_chips [] counts = counts
add_chips (chip ∷ rest) counts =
    add_chips rest (insert chip (or_else (lookup chip counts) 0) counts)

-- The chips and the order of texts, `localeCompare`, are arguments.
pub topic_list : (String → String → ℤ) → List String → List Room → List TopicEntry
unfolding count_rooms add_chips sort
topic_list locale_compare chips all_rooms =
    sort (λ a b. locale_compare a.label b.label)
      (map (λ e. record { label = e.0; room_count = e.1 })
        (add_chips chips (count_rooms all_rooms [])))

-- The `useState` cells of the sidebar, and the store that it shares.
pub data LiveNowMode : Type 0 where
  cards list : LiveNowMode

pub record Sidebar : Type 0 where
  pub live_now_mode : LiveNowMode
  pub is_topics_menu_open : Bool
  pub room_search : String
  pub active_topic_filters : List String
  pub bookmarked_room_ids : List String
  pub store : Reminder.RoomReminderState

unfoldable pub initial : Reminder.RoomReminderState → Sidebar
initial store = record {
  live_now_mode = list;
  is_topics_menu_open = false;
  room_search = "";
  active_topic_filters = [];
  bookmarked_room_ids = [];
  store = store;
}

pub matches_selected_topic : List String → Room → Bool
matches_selected_topic [] item = true
matches_selected_topic selected item = any (λ topic. topic_matches_room topic item.topic) selected

pub matches_room_search : String → Room → Bool
matches_room_search term item =
    is_empty term
    || includes (to_lower_case item.title) term
    || includes (to_lower_case item.topic) term
    || includes (to_lower_case (status_text item.status)) term

pub filtered_room_results : List Room → Sidebar → List Room
unfolding matches_selected_topic matches_room_search
filtered_room_results all_rooms s =
    let term = to_lower_case (trim s.room_search) in
    filter
      (λ item. matches_selected_topic s.active_topic_filters item && matches_room_search term item)
      all_rooms

pub has_topic_filter : Sidebar → Bool
has_topic_filter s = ltb 0 (length s.active_topic_filters)

abbrev pub toggled : String → List String → List String
toggled k ids = if has k ids then delete k ids else add k ids

pub toggle_topic_filter : String → Sidebar → Sidebar
unfolding add delete
toggle_topic_filter label s = record s {
  active_topic_filters = toggled label s.active_topic_filters;
}

pub clear_topic_filters : Sidebar → Sidebar
clear_topic_filters s = record s { active_topic_filters = [] }

unfoldable handle_topics_menu_open_change : Bool → Sidebar → Sidebar
handle_topics_menu_open_change open_now s = record s {
  is_topics_menu_open = open_now;
  room_search = if not open_now then "" else s.room_search;
}

-- The text of the message is taken from a variable that the state's updater sets; `updated` says
-- whether React has run it by then, which it does not promise.
unfoldable handle_topic_room_bookmark : Bool → String → String → Sidebar → Sidebar × Toast
unfolding add delete
handle_topic_room_bookmark updated item_id room_title s =
    let is_now_bookmarked = updated && not (has item_id s.bookmarked_room_ids) in
    (
      record s { bookmarked_room_ids = toggled item_id s.bookmarked_room_ids },
      record {
        kind = success;
        title = "Bookmarks updated";
        description =
            if is_now_bookmarked
            then S.◌++◌ "Saved " (S.◌++◌ room_title " to bookmarks.")
            else S.◌++◌ "Removed " (S.◌++◌ room_title " from bookmarks.");
      },
    )

pub handle_upcoming_reminder : String → String → Sidebar → Sidebar × Toast
unfolding Reminder.toggle_reminder
handle_upcoming_reminder item_id room_title s =
    let will_remind = not (has item_id s.store.reminded_room_ids) in
    (
      record s { store = Reminder.toggle_reminder item_id s.store },
      record {
        kind = success;
        title = if will_remind then "Reminder added" else "Reminder removed";
        description =
            if will_remind
            then S.◌++◌ room_title " was added to your room reminders."
            else S.◌++◌ room_title " was removed from your room reminders.";
      },
    )

abbrev set_live_now_mode : LiveNowMode → Sidebar → Sidebar
set_live_now_mode mode s = record s { live_now_mode = mode }

abbrev set_room_search : String → Sidebar → Sidebar
set_room_search text s = record s { room_search = text }

unfoldable handle_topic_room_join : String → Toast
handle_topic_room_join room_title = record {
  kind = success;
  title = "Joining room";
  description = S.◌++◌ "Opening " (S.◌++◌ room_title " from the topic list.");
}
