-- ===== src/TopBar.antt =====
-- client/src/components/common/top-bar.tsx, notification-menu.tsx, user-menu.tsx, theme-toggle.tsx
-- and active-room-back-bar.tsx: what the bars show, without their styling, and what they do.
pub mod Network
pub mod Notifications
use wave_cast.Common.{
  ℕ, String, Bool, true, false, not, ◌&&◌, ◌||◌, List, [], ◌∷◌, Option, none, some, or_else, ltb,
  is_empty, ◌==◌, if◌then◌else◌,
}
use wave_cast.MockData.{alex}
use wave_cast.Stores.Ui as Ui
use wave_cast.TopBar.Network as Network
use wave_cast.TopBar.Notifications as Notifications
use wave_cast.Types.{role_text}

-- The button of the private chat: whether it can be clicked, and the number on its badge.
pub record ChatButton : Type 0 where
  pub is_disabled : Bool
  pub badge : Option ℕ

pub record Bar : Type 0 where
  pub private_chat : Option ChatButton
  pub network_label : String
  pub network_badge : String
  pub network_bars : ℕ × ℕ × String
  pub notifications : Notifications.Menu

-- The unread count and whether there is a click handler are properties of the component.
unfoldable pub top_bar : Bool → ℕ → Bool → Network.Network → Bar
unfolding Network.network_status_label Network.network_status_badge Network.network_bars
    Notifications.notification_menu
top_bar show_private_chat private_chat_unread_count has_click n = record {
  private_chat =
      if show_private_chat
      then some (record {
        is_disabled = not has_click;
        badge = if ltb 0 private_chat_unread_count then some private_chat_unread_count else none;
      })
      else none;
  network_label = Network.network_status_label n;
  network_badge = Network.network_status_badge n;
  network_bars = Network.network_bars n;
  notifications = Notifications.notification_menu Notifications.notifications;
}

-- The picture, name and role of the user, and the items of the menu with their addresses; the last
-- one has neither an address nor a handler.
pub record UserMenu : Type 0 where
  pub avatar : String
  pub user_name : String
  pub user_role : String
  pub is_online : Bool
  pub menu_items : List (Option String × String)

unfoldable pub user_menu : UserMenu
user_menu = record {
  avatar = alex.avatar;
  user_name = alex.name;
  user_role = role_text alex.role;
  is_online = true;
  menu_items =
      (some "/profile", "Profile") ∷ (some "/my-room", "My Room") ∷ (none, "Sign out") ∷ [];
}

-- The theme is known only after the first effect; a click sets the other one.
abbrev is_dark : Bool → String → Bool
is_dark mounted resolved_theme = mounted && resolved_theme == "dark"

unfoldable theme_toggle : Bool → String → String × String
theme_toggle mounted resolved_theme =
    if is_dark mounted resolved_theme
    then ("Switch to light mode", "light")
    else ("Switch to dark mode", "dark")

-- The text beside the way back to the room, if the bar is shown.
unfoldable active_room_back_bar : String → Ui.UiState → Option String
active_room_back_bar pathname ui = elim ui.active_room_id [
  | none ↦ none
  | some room_id ↦
      if is_empty room_id || is_empty pathname || pathname == "/"
      then none
      else some (or_else ui.active_room_title "Current room")
]
