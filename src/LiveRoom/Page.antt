-- ===== src/LiveRoom/Page.antt =====
-- client/src/components/room/live-room-page.tsx: inviting friends, private chat, ending the room
-- and the running clock.
pub mod Invites
use Prim.Native.String as S
use wave_cast.Common.{
  ℕ, ◌+◌, String, Bool, true, false, not, ◌&&◌, ◌||◌, List, [], ◌∷◌, ◌++◌, Option, none, some, map,
  filter, has, add, head?, length, ltb, insert, values, truthy, trim, to_lower_case, includes, ◌==◌,
  if◌then◌else◌,
}
use wave_cast.Common.Int.{ℤ, pos, ◌+ℤ◌}
use wave_cast.LiveRoom.Timer.{parse_duration}
use wave_cast.MockData.{alex, people, room}
use wave_cast.RoomChat.Panel.{by_id}
use wave_cast.Stores.Ui as Ui
use wave_cast.Toast.{Toast, success, error}
use wave_cast.Types.{Person, Room, UserRole, is_host}

-- The Tailwind classes of a topic's badge, as the page writes them.
abbrev tech_class : String
tech_class = "border-primary/35 bg-primary/12 text-primary"

abbrev business_class : String
business_class = "border-chart-2/35 bg-chart-2/12 text-chart-2"

abbrev health_class : String
health_class = "border-chart-3/35 bg-chart-3/12 text-chart-3"

abbrev design_class : String
design_class = "border-chart-4/35 bg-chart-4/12 text-chart-4"

abbrev plain_class : String
plain_class = "border-border bg-muted text-muted-foreground"

unfoldable pub room_topic_class : String → String
room_topic_class topic =
    let normalized = to_lower_case topic in
    if includes normalized "tech"
    then tech_class
    else (if includes normalized "entrepreneur" || includes normalized "business"
        then business_class
        else (if includes normalized "health"
            then health_class
            else (if includes normalized "design" || includes normalized "education"
                then design_class
                else (if includes normalized "marketing" || includes normalized "music"
                    then tech_class
                    else plain_class))))

-- The `useState` cells of the page, and the store that it shares.
pub record Page : Type 0 where
  pub room_duration : ℤ
  pub time_tick_key : ℕ
  pub invited_friend_ids : List String
  pub invite_search_query : String
  pub open_end_room_dialog : Bool
  pub open_room_actions_menu : Bool
  pub ui : Ui.UiState

unfoldable pub initial : Page
unfolding parse_duration
initial = record {
  room_duration = parse_duration room.duration;
  time_tick_key = 0;
  invited_friend_ids = [];
  invite_search_query = "";
  open_end_room_dialog = false;
  open_room_actions_menu = false;
  ui = Ui.initial;
}

abbrev everyone : Room → List Person
everyone r = r.owner ∷ (r.speakers ++ r.listeners)

-- The first person of the room who is not the current user.
unfoldable pub default_private_chat_target : Room → Option Person
unfolding by_id
default_private_chat_target r =
    head? (values (by_id (filter (λ person. not (person.id == alex.id)) (everyone r)) []))

-- A set of ids; only membership is asked of it.
pub room_person_ids : Room → List String
room_person_ids r = map (λ person. person.id) (everyone r)

pub record FriendInvite : Type 0 where
  pub person : Person
  pub in_room : Bool
  pub is_invited : Bool

-- The room and the people are the constants of the mock data in the code.
unfoldable pub friend_invites : Room → List Person → Page → List FriendInvite
unfolding room_person_ids
friend_invites r everybody p =
    map
      (λ friend. record {
        person = friend;
        in_room = has friend.id (room_person_ids r);
        is_invited = has friend.id p.invited_friend_ids;
      })
      (filter (λ person. truthy person.is_friend) everybody)

friends_in_room : Room → List Person → Page → List FriendInvite
unfolding friend_invites
friends_in_room r everybody p = filter (λ friend. friend.in_room) (friend_invites r everybody p)

unfoldable pub friends_not_in_room : Room → List Person → Page → List FriendInvite
unfolding friend_invites
friends_not_in_room r everybody p =
    filter (λ friend. not friend.in_room) (friend_invites r everybody p)

unfoldable pub matches_search : String → FriendInvite → Bool
matches_search search friend =
    includes (to_lower_case friend.person.name) search
    || includes (to_lower_case friend.person.username) search
    || includes (S.◌++◌ "@" (to_lower_case friend.person.username)) search

abbrev normalized_invite_search : Page → String
normalized_invite_search p = to_lower_case (trim p.invite_search_query)

unfoldable pub filtered_friends_in_room : Room → List Person → Page → List FriendInvite
unfolding friends_in_room matches_search to_lower_case trim
filtered_friends_in_room r everybody p =
    filter (matches_search (normalized_invite_search p)) (friends_in_room r everybody p)

unfoldable pub filtered_friends_not_in_room : Room → List Person → Page → List FriendInvite
unfolding friends_not_in_room matches_search to_lower_case trim
filtered_friends_not_in_room r everybody p =
    filter (matches_search (normalized_invite_search p)) (friends_not_in_room r everybody p)

unfoldable pub has_search_results : Room → List Person → Page → Bool
unfolding filtered_friends_in_room filtered_friends_not_in_room
has_search_results r everybody p = ltb 0 (
    length (filtered_friends_in_room r everybody p)
    + length (filtered_friends_not_in_room r everybody p))

-- The effect that tells the store which room is open.
unfoldable active_room_effect : Room → Page → Page
unfolding Ui.set_active_room
active_room_effect r p = record p { ui = Ui.set_active_room r.id r.title p.ui }

pub handle_invite_friend : Room → String → String → Page → Page × Option Toast
unfolding add
handle_invite_friend r person_id person_name p =
    if has person_id (room_person_ids r) || has person_id p.invited_friend_ids then (p, none) else (
      record p { invited_friend_ids = add person_id p.invited_friend_ids },
      some (record {
        kind = success;
        title = S.◌++◌ "Invite sent to " person_name;
        description = S.◌++◌ "You sent a room invite to " (S.◌++◌ person_name ".");
      }),
    )

unfoldable pub handle_open_private_chat : Room → Page → Page × Option Toast
unfolding default_private_chat_target Ui.set_active_p2p_friend_id
handle_open_private_chat r p = elim (default_private_chat_target r) [
  | none ↦ (
    p,
    some (record {
      kind = error;
      title = "No one available";
      description = "There is no room member available to start a private chat.";
    }),
  )
  | some person ↦ (record p { ui = Ui.set_active_p2p_friend_id (some person.id) p.ui }, none)
]

abbrev pub permission_denied : Toast
permission_denied = record {
  kind = error;
  title = "Permission denied";
  description = "Only the host can end this room.";
}

-- The role is the current user's.
unfoldable handle_end_room : UserRole → Toast
handle_end_room role = if not (is_host role) then permission_denied else record {
  kind = success;
  title = "Room ended";
  description = "You have ended the room. In a real environment this would notify all listeners.";
}

-- The interval that runs once in a second.
unfoldable tick : Page → Page
tick p = record p { room_duration = p.room_duration +ℤ pos 1; time_tick_key = p.time_tick_key + 1 }
