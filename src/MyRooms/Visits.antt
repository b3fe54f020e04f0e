-- ===== src/MyRooms/Visits.antt =====
-- client/src/app/my-room/page.tsx and client/src/components/room/live-sidebar.tsx: visits of the page of
-- one's rooms, and reminders that are set in between. The page
-- and the sidebar forget their own state when they are left.
use wave_cast.Common.{
  String, Bool, true, false, not, ◌&&◌, ◌||◌, ◌≡◌, refl, ap, ◌∙◌, List, [], ◌∷◌, some, has, has-add,
  Distinct, ◌==◌, if◌then◌else◌, arith,
}
use wave_cast.MyRooms.{
  AgendaRoom, MyRoom, initial, agenda_seed, agenda_rooms, selected_room, remove_room, finish_room,
  select_room,
}
use wave_cast.MyRooms.Agenda.{agenda_ids, agenda_rooms_lem, is_a_room}
use wave_cast.MyRooms.Remove.{remove_room_lem, selected_room-has}
use wave_cast.Sidebar.{Sidebar, handle_upcoming_reminder}
use wave_cast.Sidebar as SidebarOf
use wave_cast.Sidebar.Agenda.{beside, has-toggle, handle_upcoming_reminder-store}
use wave_cast.Stores.Reminder as Reminder

-- The sidebar and the page, and the store that both read: the page's.
pub record Client : Type 0 where
  pub sidebar : Sidebar
  pub page : MyRoom

-- A reminder is clicked in the sidebar, for a room with an id and a title; the page is opened; or,
-- on the page, a room is removed, finished or selected, or a tab chosen.
pub data Visit : Type 0 where
  remind : String → String → Visit
  enter : Visit
  remove finish select tab : String → Visit

pub visit : Visit → Client → Client
visit (remind id title) c =
    let s = (handle_upcoming_reminder id title (record (c.sidebar) { store = c.page.store })).0 in
    record { sidebar = s; page = beside c.page s }
visit enter c = record { sidebar = SidebarOf.initial c.page.store; page = initial c.page.store }
visit (remove id) c = record c { page = remove_room id c.page }
visit (finish id) c = record c { page = finish_room id c.page }
visit (select id) c = record c { page = select_room id c.page }
visit (tab name) c = record c { page = record (c.page) { active_tab = name } }

pub visits : List Visit → Client → Client
unfolding visit
visits [] c = c
visits (v ∷ vs) c = visits vs (visit v c)

pub start : Client
start = record { sidebar = SidebarOf.initial Reminder.initial; page = initial Reminder.initial }

-- What the user wants: rooms to be reminded of, and rooms not to be shown.
pub record Wish : Type 0 where
  pub reminded : String → Bool
  pub unwanted : String → Bool

abbrev pub wish : Visit → Wish → Wish
wish (remind id title) w = record w {
  reminded = λ j. if id == j then not (w.reminded j) else w.reminded j;
}
wish enter w = record w { unwanted = λ j. false }
wish (remove id) w = record {
  reminded = λ j. w.reminded j && not (id == j);
  unwanted = λ j. w.unwanted j || id == j;
}
wish _ w = w

abbrev pub wishes : List Visit → Wish → Wish
wishes [] w = w
wishes (v ∷ vs) w = wishes vs (wish v w)

abbrev pub no_wish : Wish
no_wish = record { reminded = λ j. false; unwanted = λ j. false }

-- The rooms that the agenda should list.
abbrev pub wanted : Wish → String → Bool
wanted w k = (has k (agenda_ids agenda_seed) || w.reminded k && is_a_room k) && not (w.unwanted k)

record Meets (w : Wish) (p : MyRoom) : Type 0 where
  reminded : (j : String) → has j p.store.reminded_room_ids ≡ w.reminded j
  unwanted : (j : String) → has j p.removed_room_ids ≡ w.unwanted j

remind-Meets :
    (id title : String) (w : Wish) (c : Client)
    → Meets w c.page
    → Meets (wish (remind id title) w) (visit (remind id title) c).page
unfolding visit
remind-Meets id title w c m =
    let s = record (c.sidebar) { store = c.page.store } in
    record {
      reminded = λ j.
          ap (λ st. has j st.reminded_room_ids) (handle_upcoming_reminder-store id title s)
          ∙ has-toggle id j c.page.store
          ∙ ap (λ b. if id == j then not b else b) (m.reminded j);
      unwanted = m.unwanted;
    }

remove-Meets :
    (id : String) (w : Wish) (c : Client)
    → Meets w c.page
    → Meets (wish (remove id) w) (visit (remove id) c).page
unfolding visit remove_room
remove-Meets id w c m = record {
  reminded = λ j. (remove_room_lem id c.page).1 j ∙ ap (λ b. b && not (id == j)) (m.reminded j);
  unwanted = λ j. has-add id j c.page.removed_room_ids ∙ ap (λ b. b || id == j) (m.unwanted j);
}

visit-Meets :
    (v : Visit) (w : Wish) (c : Client) → Meets w c.page → Meets (wish v w) (visit v c).page
unfolding visit initial finish_room select_room
visit-Meets (remind id title) w c m = remind-Meets id title w c m
visit-Meets enter w c m = record { reminded = m.reminded; unwanted = λ j. refl }
visit-Meets (remove id) w c m = remove-Meets id w c m
visit-Meets (finish id) w c m = record { reminded = m.reminded; unwanted = m.unwanted }
visit-Meets (select id) w c m = record { reminded = m.reminded; unwanted = m.unwanted }
visit-Meets (tab name) w c m = record { reminded = m.reminded; unwanted = m.unwanted }

visits-Meets :
    (vs : List Visit) (w : Wish) (c : Client)
    → Meets w c.page
    → Meets (wishes vs w) (visits vs c).page
unfolding visits
visits-Meets [] w c m = m
visits-Meets (v ∷ vs) w c m = visits-Meets vs (wish v w) (visit v c) (visit-Meets v w c m)

start-Meets : Meets no_wish start.page
unfolding start initial
start-Meets = record { reminded = λ j. refl; unwanted = λ j. refl }

Meets-wanted :
    (w : Wish) (p : MyRoom) (k : String)
    → Meets w p
    → has k (agenda_ids (agenda_rooms p)) ≡ wanted w k
Meets-wanted w p k m = (agenda_rooms_lem p).1 k ∙ rw (m.reminded k, m.unwanted k) refl

-- However the page is visited and reminders are set in the sidebar: the agenda lists each room once,
-- and a room exactly if it is seeded, or exists and is to be reminded of, and was not removed since
-- the page was opened; the room in the side panel is one of the agenda; and when the page is opened
-- again, every seeded room is back, removed or not.
pub visits-wanted :
    (vs : List Visit)
    → let p = (visits vs start).page in
      Distinct (agenda_ids (agenda_rooms p))
      × ((k : String) → has k (agenda_ids (agenda_rooms p)) ≡ wanted (wishes vs no_wish) k)
      × ((r : AgendaRoom)
          → selected_room p ≡ some r
          → has r.item.id (agenda_ids (agenda_rooms p)) ≡ true)
      × ((k : String)
          → has k (agenda_ids agenda_seed) ≡ true
          → has k (agenda_ids (agenda_rooms (visit enter (visits vs start)).page)) ≡ true)
visits-wanted vs =
    let c = visits vs start in
    let met = visits-Meets vs no_wish start start-Meets in
    (
      (agenda_rooms_lem c.page).0,
      λ k. Meets-wanted _ c.page k met,
      λ r shown. selected_room-has c.page r shown,
      λ k seeded. Meets-wanted _ _ k (visit-Meets enter _ c met) ∙ ground (arith, seeded),
    )
