-- ===== src/RoomChat/Panel.antt =====
-- client/src/components/room/room-side-panel.tsx: the state of the panel and its handlers.
pub mod People
pub mod Messages
pub mod Chat
use Prim.Native.String as S
use wave_cast.Common.{
  String, Bool, true, false, not, ◌&&◌, ◌||◌, List, [], ◌∷◌, ◌++◌, Option, none, some, map, filter,
  find, has, add, delete, insert, values, keys, truthy, is_empty, trim, ◌==◌, if◌then◌else◌,
}
use wave_cast.MockData.{room, realtime_events}
use wave_cast.Reactions.{
  ReactionAction, QuickReaction, like, dislike, thumbs_up, thumbs_down, no_emoji,
}
use wave_cast.RoomChat.Message.{
  RoomChatMessage, Quote, seed_room_messages, react_to_room_message, react_by_emoji,
}
use wave_cast.Toast.{Toast, success, error}
use wave_cast.Types.{Person, UserRole, RealtimeEvent, role_text, is_host}

-- `new Map(people.map((person) => [person.id, person]))`
unfoldable pub by_id : List Person → List (String × Person) → List (String × Person)
by_id [] unique = unique
by_id (person ∷ rest) unique = by_id rest (insert person.id person unique)

initial_room_people : List Person
unfolding by_id insert
initial_room_people = values (by_id (room.owner ∷ room.listeners) [])

-- The `useState` cells of the panel.
pub record SidePanel : Type 0 where
  pub room_people : List Person
  pub room_messages : List RoomChatMessage
  pub requested_ids : List String
  pub chat_text : String
  pub show_room_emoji_picker : Bool
  pub replying_to_message : Option RoomChatMessage

unfoldable pub initial : SidePanel
unfolding initial_room_people
initial = record {
  room_people = initial_room_people;
  room_messages = seed_room_messages;
  requested_ids = [];
  chat_text = "";
  show_room_emoji_picker = false;
  replying_to_message = none;
}

unfoldable pub is_friend : String → SidePanel → Bool
is_friend person_id p =
    has person_id (map (λ q. q.id) (filter (λ person. truthy person.is_friend) p.room_people))

-- The roles that may remove people; the code asks it of the current user's.
unfoldable pub can_moderate_room : UserRole → Bool
can_moderate_room role = has (role_text role) ("Host" ∷ "Moderator" ∷ "Admin" ∷ [])

unfoldable pub room_activity : List RealtimeEvent
room_activity = filter (λ event. event.room == room.title) realtime_events

-- The current user is an argument, of which the code reads id, role and picture.
module _ (alex : Person) where
  unfoldable pub is_self : String → Bool
  is_self person_id = person_id == alex.id

  abbrev pub quote_of : Option RoomChatMessage → Option Quote
  quote_of none = none
  quote_of (some m) = some (record { name = m.name; body = m.body })

  -- The user's message, under the id that `makeMessageId` draws.
  abbrev pub own_room_message : String → String → Option Quote → RoomChatMessage
  own_room_message fresh_id text reply_to = record {
    id = fresh_id;
    name = "You";
    avatar = alex.avatar;
    time = "just now";
    body = text;
    reply_to = reply_to;
    likes = 0;
    dislikes = 0;
    user_reaction = none;
    emoji_reactions = some no_emoji;
    user_emoji_reaction = none;
  }

  pub append_room_message : String → String → SidePanel → SidePanel
  append_room_message fresh_id body p =
      let text = trim body in
      if is_empty text then p else record p {
        room_messages =
            p.room_messages ++ own_room_message fresh_id text (quote_of p.replying_to_message) ∷ [];
        replying_to_message = none;
      }

  unfoldable pub handle_send_room_chat : String → SidePanel → SidePanel
  unfolding append_room_message
  handle_send_room_chat fresh_id p = record (append_room_message fresh_id p.chat_text p) {
    chat_text = "";
    show_room_emoji_picker = false;
  }

  -- The Boolean is the answer to `window.confirm`; the toast is the last one shown.
  pub handle_kick_person : Bool → Person → SidePanel → SidePanel × Option Toast
  unfolding delete
  handle_kick_person confirmed person p =
      if person.id == alex.id
      then (
        p,
        some (record {
          kind = error;
          title = "Cannot remove yourself";
          description = "You cannot remove yourself from this room from the people list.";
        }),
      )
      else (if not (can_moderate_room alex.role)
          then (
            p,
            some (record {
              kind = error;
              title = "Permission denied";
              description = "Only moderators can remove people from the room.";
            }),
          )
          else (if is_host person.role
              then (
                p,
                some (record {
                  kind = error;
                  title = "Cannot remove host";
                  description = "The room host cannot be removed from the room.";
                }),
              )
              else (if confirmed
                  then (
                    record p {
                      room_people = filter (λ member. not (member.id == person.id)) p.room_people;
                      requested_ids = delete person.id p.requested_ids;
                    },
                    some (record {
                      kind = success;
                      title = "Person removed";
                      description = S.◌++◌ person.name " has been kicked from the room.";
                    }),
                  )
                  else (p, none))))

abbrev change_message :
    String → (RoomChatMessage → RoomChatMessage) → List RoomChatMessage → List RoomChatMessage
change_message message_id change = map (λ m. if not (m.id == message_id) then m else change m)

toggle_room_message_reaction : String → ReactionAction → SidePanel → SidePanel
unfolding react_to_room_message
toggle_room_message_reaction message_id action p = record p {
  room_messages = change_message message_id (react_to_room_message action) p.room_messages;
}

unfoldable toggle_room_emoji_reaction : String → QuickReaction → SidePanel → SidePanel
unfolding toggle_room_message_reaction react_by_emoji
toggle_room_emoji_reaction message_id thumbs_up p = toggle_room_message_reaction message_id like p
toggle_room_emoji_reaction message_id thumbs_down p =
    toggle_room_message_reaction message_id dislike p
toggle_room_emoji_reaction message_id reaction p = record p {
  room_messages = change_message message_id (react_by_emoji reaction) p.room_messages;
}

unfoldable add_room_emoji : String → SidePanel → SidePanel
add_room_emoji emoji p = record p {
  chat_text = if is_empty p.chat_text then emoji else S.◌++◌ p.chat_text (S.◌++◌ " " emoji);
  show_room_emoji_picker = false;
}

abbrev replies_to : RoomChatMessage → Option RoomChatMessage → Bool
replies_to message none = false
replies_to message (some m) = m.id == message.id

unfoldable handle_reply_to_message : RoomChatMessage → SidePanel → SidePanel
handle_reply_to_message message p =
    if replies_to message p.replying_to_message
    then record p { replying_to_message = none }
    else record p { replying_to_message = some message }

unfoldable request_friend : Person → SidePanel → SidePanel × Toast
unfolding add
request_friend person p = (
  record p { requested_ids = add person.id p.requested_ids },
  record {
    kind = success;
    title = "Connection request sent";
    description = S.◌++◌ "Your request was sent to " (S.◌++◌ person.name ".");
  },
)
