-- ===== src/LiveRoom/View.antt =====
-- client/src/components/room/live-room-page.tsx: what the page shows between its panels, without the
-- styling, and what its menus do.
pub mod Menu
use Prim.Native.String as S
use wave_cast.Common.{
  ℕ, String, Bool, true, false, not, List, [], ◌∷◌, Option, none, some, map, ltb, length,
  if◌then◌else◌,
}
use wave_cast.LiveRoom.Page.{
  Page, FriendInvite, room_topic_class, friend_invites, filtered_friends_in_room,
  filtered_friends_not_in_room, has_search_results, permission_denied,
}
use wave_cast.LiveRoom.Timer.{format_timer}
use wave_cast.Toast.{Toast}
use wave_cast.TopBar.{Bar, top_bar}
use wave_cast.TopBar.Network.{Network}
use wave_cast.Types.{Person, Room, UserRole, is_host}

-- The button of a friend in the invite menu: its label, and whether it can be clicked.
pub record InviteButton : Type 0 where
  pub label : String
  pub is_disabled : Bool

pub record InviteItem : Type 0 where
  pub id : String
  pub avatar : String
  pub name : String
  pub handle : String
  pub badge : String
  pub button : Option InviteButton

pub render_invite_friend_item : FriendInvite → Bool → InviteItem
render_invite_friend_item friend in_room = record {
  id = friend.person.id;
  avatar = friend.person.avatar;
  name = friend.person.name;
  handle = S.◌++◌ "@" friend.person.username;
  badge = if in_room then "In room" else (if friend.is_invited then "Invited" else "Not in room");
  button =
      if not in_room
      then some (record {
        label = if friend.is_invited then "Invited" else "Invite";
        is_disabled = friend.is_invited;
      })
      else none;
}

-- A section of the menu: its items, or the line that stands in their place.
pub data Section : Type 0 where
  items : List InviteItem → Section
  no_friends : String → Section

abbrev friends_section : String → List InviteItem → Section
friends_section line rows = if ltb 0 (length rows) then items rows else no_friends line

-- The two sections, or the line that stands in their place.
pub data InviteMenu : Type 0 where
  sections : Section → Section → InviteMenu
  no_results : String → InviteMenu

rows_in_room : Room → List Person → Page → List InviteItem
unfolding filtered_friends_in_room render_invite_friend_item
rows_in_room r everybody p =
    map (λ friend. render_invite_friend_item friend true) (filtered_friends_in_room r everybody p)

pub rows_not_in_room : Room → List Person → Page → List InviteItem
unfolding filtered_friends_not_in_room render_invite_friend_item
rows_not_in_room r everybody p =
    map (λ friend. render_invite_friend_item friend false)
      (filtered_friends_not_in_room r everybody p)

invite_menu : Room → List Person → Page → InviteMenu
unfolding has_search_results rows_in_room rows_not_in_room friend_invites
invite_menu r everybody p =
    if has_search_results r everybody p
    then sections (friends_section "No friends in this room." (rows_in_room r everybody p))
        (friends_section "No friends to invite right now." (rows_not_in_room r everybody p))
    else no_results (
        if ltb 0 (length (friend_invites r everybody p))
        then "No friends match your search."
        else "No friends found to invite.")

-- Typing in the search of the invite menu.
abbrev set_invite_search_query : String → Page → Page
set_invite_search_query query p = record p { invite_search_query = query }

abbrev set_open_room_actions_menu : Bool → Page → Page
set_open_room_actions_menu is_open p = record p { open_room_actions_menu = is_open }

abbrev set_open_end_room_dialog : Bool → Page → Page
set_open_end_room_dialog is_open p = record p { open_end_room_dialog = is_open }

-- The entry for the settings, a link to `/room-settings`, closes the menu.
abbrev click_room_settings : Page → Page
click_room_settings p = set_open_room_actions_menu false p

-- The entry for ending the room asks first, and only the host.
unfoldable select_end_room : UserRole → Page → Page × Option Toast
select_end_room role p =
    if not (is_host role)
    then (p, some permission_denied)
    else (record p { open_end_room_dialog = true; open_room_actions_menu = false }, none)

-- The head of the page; the title and the counts are the same for every room.
pub record Head : Type 0 where
  pub badge : String
  pub title : String
  pub topic : String
  pub topic_class : String
  pub facts : List String

pub head : Room → Head
unfolding room_topic_class
head r = record {
  badge = "LIVE";
  title = "The Future of AI in Everyday Life";
  topic = r.topic;
  topic_class = room_topic_class r.topic;
  facts = "1.2K listening" ∷ "78 speaking" ∷ "Recording On" ∷ "Room Rules 5" ∷ [];
}

-- The question that is asked before the room is ended: title, description and the two buttons.
end_room_dialog : Page → Option (String × String × List String)
end_room_dialog p =
    if p.open_end_room_dialog
    then some (
      "End room?",
      "This action will remove everyone from the room and end the session.",
      "Cancel" ∷ "End Room" ∷ [],
    )
    else none

-- The panels stand in components of their own.
pub record PageView : Type 0 where
  pub bar : Bar
  pub head_of_room : Head
  pub menu : InviteMenu
  pub can_end_room : Bool
  pub clock : String
  pub dialog : Option (String × String × List String)

unfoldable pub page_view : Room → List Person → UserRole → Network → Page → PageView
unfolding top_bar head invite_menu format_timer end_room_dialog
page_view r everybody role network p = record {
  bar = top_bar true p.ui.p2p_unread_count true network;
  head_of_room = head r;
  menu = invite_menu r everybody p;
  can_end_room = is_host role;
  clock = format_timer p.room_duration;
  dialog = end_room_dialog p;
}
