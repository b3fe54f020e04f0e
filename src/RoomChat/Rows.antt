-- ===== src/RoomChat/Rows.antt =====
-- client/src/components/room/room-side-panel.tsx: what the three tabs of the panel show, without
-- their styling, and the cells that their inputs set.
use Prim.Native.Char.{code}
use Prim.Native.String.{[], ◌∷◌, char_at}
use mathlib.Core.List as L
use wave_cast.Common.{
  ℕ, String, Bool, false, not, List, Option, none, some, map, has, eqb, ◌==◌, trim, is_empty, ltb,
  length, if◌then◌else◌,
}
use wave_cast.Media.{Piece, chat_message_text}
use wave_cast.Reactions.{QuickReaction, quick_reactions}
use wave_cast.RoomChat.Message.{
  RoomChatMessage, Quote, get_room_reaction_count, has_room_user_reaction,
  get_visible_room_reactions,
}
use wave_cast.RoomChat.Panel.{
  SidePanel, is_friend, can_moderate_room, is_self, room_activity, handle_send_room_chat,
}
use wave_cast.Stores.Ui.{RoomTab}
use wave_cast.Types.{Person, role_text}

abbrev pub set_chat_text : String → SidePanel → SidePanel
set_chat_text text p = record p { chat_text = text }

abbrev pub cancel_reply : SidePanel → SidePanel
cancel_reply p = record p { replying_to_message = none }

abbrev pub toggle_room_emoji_picker : SidePanel → SidePanel
toggle_room_emoji_picker p = record p { show_room_emoji_picker = not p.show_room_emoji_picker }

-- The button of a reaction below a message: its count, and whether the user has it.
pub record ReactionButton : Type 0 where
  pub reaction : QuickReaction
  pub count : ℕ
  pub is_pressed : Bool

pub record MessageRow : Type 0 where
  pub is_own : Bool
  pub name : String
  pub time : String
  pub quote : Option Quote
  pub pieces : List Piece
  pub reactions : List ReactionButton
  pub menu : List (QuickReaction × Bool)

unfoldable message_row : RoomChatMessage → MessageRow
unfolding get_room_reaction_count has_room_user_reaction get_visible_room_reactions
    chat_message_text
message_row message = record {
  is_own = message.name == "You";
  name = message.name;
  time = message.time;
  quote = message.reply_to;
  pieces = chat_message_text message.body;
  reactions =
      map
        (λ reaction. record {
          reaction = reaction;
          count = get_room_reaction_count message reaction;
          is_pressed = has_room_user_reaction message reaction;
        })
        (get_visible_room_reactions message);
  menu = map (λ reaction. (reaction, has_room_user_reaction message reaction)) quick_reactions;
}

-- What stands at the end of a person's row.
pub data PersonActions : Type 0 where
  you : PersonActions
  chat : Bool → PersonActions
  request : Bool → Bool → PersonActions

pub record PersonRow : Type 0 where
  pub name : String
  pub username : String
  pub role : String
  pub actions : PersonActions

-- The Boolean of `chat`, and the second of `request`, is whether the row has a button that
-- removes the person; the first of `request` is whether a request was sent.
module _ (alex : Person) where
  pub person_actions : SidePanel → Person → PersonActions
  unfolding is_self is_friend can_moderate_room
  person_actions p person =
      if is_self alex person.id
      then you
      else (if is_friend person.id p
          then chat (can_moderate_room alex.role)
          else request (has person.id p.requested_ids) (can_moderate_room alex.role))

  pub person_row : SidePanel → Person → PersonRow
  unfolding person_actions
  person_row p person = record {
    name = person.name;
    username = person.username;
    role = role_text person.role;
    actions = person_actions p person;
  }

  -- Enter in the field of the chat.
  pub press_enter : String → SidePanel → SidePanel
  unfolding handle_send_room_chat
  press_enter fresh_id p =
      handle_send_room_chat alex fresh_id (record p { show_room_emoji_picker = false })

-- `event.replace(/\./g, " ")`
dots_to_spaces : String → String
dots_to_spaces [] = []
dots_to_spaces (c ∷ s) = (if eqb (code c) b'.' then char_at " " 0 else c) ∷ dots_to_spaces s

-- The time and the name of an event, and its details.
activity_rows : List (String × String × String)
unfolding room_activity dots_to_spaces
activity_rows = map (λ event. (event.time, dots_to_spaces event.event, event.details)) room_activity

-- The tabs: each is the value of the tab in the store and its label.
abbrev tabs_of_hub : List (RoomTab × String)
tabs_of_hub =
    L.◌∷◌ (RoomTab.chat, "Room")
      (L.◌∷◌ (RoomTab.people, "People") (L.◌∷◌ (RoomTab.activity, "Activity") L.[]))

-- The note after the messages, the same at any time: name, time, text and a button without a handler.
abbrev invitation : String × String × String × String
invitation = ("WaveCast", "just now", "Brian Miller has invited you to speak", "Go On Stage")

-- The field of a message; `is_ready` is whether the button for sending is drawn as active.
pub record RoomComposer : Type 0 where
  pub reply : Option Quote
  pub text : String
  pub shows_emoji : Bool
  pub is_ready : Bool

unfoldable room_composer : SidePanel → RoomComposer
unfolding trim
room_composer p = record {
  reply = elim p.replying_to_message [
    | none ↦ none
    | some message ↦ some (record { name = message.name; body = message.body })
  ];
  text = p.chat_text;
  shows_emoji = p.show_room_emoji_picker;
  is_ready = not (is_empty (trim p.chat_text));
}

-- The tab of the events, or the line in their place.
unfoldable activity_view : List (String × String × String) × Option String
unfolding activity_rows
activity_view =
    (activity_rows, if ltb 0 (length activity_rows) then none else some "No activity updates yet.")
