-- ===== src/MyRooms/Card/Board.antt =====
-- client/src/app/my-room/page.tsx: the page around the cards: the figures at its top, the tabs, the
-- list and the panel beside it.
use wave_cast.Common.{
  String, Bool, false, List, [], ◌∷◌, Option, none, some, map, length, eqb, ◌==◌, if◌then◌else◌,
}
use wave_cast.MyRooms.{AgendaRoom, MyRoom, visible_rooms, selected_room}
use wave_cast.MyRooms.Card.{AgendaCard, RoomInfo, agenda_card, room_info}

-- Labels and values, which are fixed texts.
abbrev pub stat_cards : List (String × String)
stat_cards = ("Owned", "2") ∷ ("Market", "2") ∷ ("Reminders", "2") ∷ ("Reports", "4") ∷ []

-- Values and labels.
abbrev pub agenda_tabs : List (String × String)
agenda_tabs =
    ("all", "My Rooms")
    ∷ ("mine", "My rooms")
    ∷ ("market", "Market")
    ∷ ("reminder", "Reminders")
    ∷ []

-- A card, whether its room is the one in the panel, and the id that its buttons hand over.
pub record BoardCard : Type 0 where
  pub card : AgendaCard
  pub is_selected : Bool
  pub id : String

-- The panel without a room shows a line.
unfoldable pub room_info_panel : Option AgendaRoom → Option RoomInfo × Option String
unfolding room_info
room_info_panel none = (none, some "Select a room to see information.")
room_info_panel (some room) = (some (room_info room), none)

abbrev is_selected_id : String → Option AgendaRoom → Bool
is_selected_id id none = false
is_selected_id id (some room) = room.item.id == id

pub record Board : Type 0 where
  pub cards : List BoardCard
  pub nobody : Option String
  pub panel : Option RoomInfo × Option String

unfoldable pub board : MyRoom → Board
unfolding visible_rooms selected_room agenda_card room_info_panel
board p = record {
  cards =
      map
        (λ item. record {
          card = agenda_card item;
          is_selected = is_selected_id item.item.id (selected_room p);
          id = item.item.id;
        })
        (visible_rooms p);
  nobody = if eqb (length (visible_rooms p)) 0 then some "No rooms left in this list." else none;
  panel = room_info_panel (selected_room p);
}
