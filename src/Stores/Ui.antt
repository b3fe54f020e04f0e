-- ===== src/Stores/Ui.antt =====
-- client/src/stores/ui-store.ts.
use wave_cast.Common.{ℕ, String, Option, none, some}

pub data RoomTab : Type 0 where
  chat people activity : RoomTab

pub record UiState : Type 0 where
  pub active_room_tab : RoomTab
  pub active_p2p_friend_id : Option String
  pub p2p_unread_count : ℕ
  pub active_room_id : Option String
  pub active_room_title : Option String

abbrev pub initial : UiState
initial = record {
  active_room_tab = chat;
  active_p2p_friend_id = none;
  p2p_unread_count = 0;
  active_room_id = none;
  active_room_title = none;
}

unfoldable set_active_room_tab : RoomTab → UiState → UiState
set_active_room_tab tab st = record st { active_room_tab = tab }

unfoldable pub set_active_p2p_friend_id : Option String → UiState → UiState
set_active_p2p_friend_id friend st = record st { active_p2p_friend_id = friend }

unfoldable pub set_p2p_unread_count : ℕ → UiState → UiState
set_p2p_unread_count count st = record st { p2p_unread_count = count }

unfoldable pub set_active_room : String → String → UiState → UiState
set_active_room id title st = record st { active_room_id = some id; active_room_title = some title }

unfoldable clear_active_room : UiState → UiState
clear_active_room st = record st { active_room_id = none; active_room_title = none }
