-- ===== src/Tests/Chats.antt =====
-- client/src/components/room/listener-panel.tsx: the properties at concrete inputs.
use mathlib.Core.List.{Perm}
use wave_cast.Common.{
  true, false, not, ◌&&◌, ◌==◌, List, ◌≡◌, refl, [], ◌∷◌, ◌++◌, map, filter, none, some, trim,
  to_lower_case, arith, if◌then◌else◌,
}
use wave_cast.MockData.{alex, person_at, people}
use wave_cast.Private.Conversations.{room_participants, initial_conversations}
use wave_cast.Private.Message.{P2pMessage, get_p2p_reaction_count, has_p2p_user_reaction}
use wave_cast.Private.Message.Laws.{IsTallied, p2p_reactable}
use wave_cast.Reactions.Agreement.{chats-agree}
use wave_cast.Reactions.Reactable.{tap_all}
use wave_cast.RoomChat.Message.{RoomChatMessage, get_room_reaction_count, has_room_user_reaction}
use wave_cast.RoomChat.Message.Laws as Room
use wave_cast.RoomChat.Message.Laws.{room_reactable}
use wave_cast.RoomChat.Panel.{own_room_message}
use wave_cast.Private.Compose as Compose
use wave_cast.Private.Panel as Panel
use wave_cast.Private.Panel.Reachable.{
  Action, here, next, apply, open_chat, friend, write, send, reply, timeout,
}
use wave_cast.Private.Conversations.Badges.{unread_badge, has_written, reachable-unread_badge}
use wave_cast.Private.Panel.Typing.{visit, act, is_idle, acts-show_p2p_typing}
use wave_cast.Private.Panel.Send.{thread, line, sent}
use wave_cast.Private.Panel.Transcript as Transcript
use wave_cast.Private.Visible.{visible_conversations, matches_term, to_entry}
use wave_cast.Private.Visible.Laws.{Ordered, visible_conversations_lem}
use wave_cast.Reactions.{QuickReaction, thumbs_up, joy, fire}

-- The chat with the first participant is opened, and the effect of that runs.
abbrev opened : Panel.Panel
opened = apply friend (apply (open_chat (person_at 0)) Panel.initial)

-- A friend is chosen and a text is written; then the timeout runs.
abbrev writing : List Action
writing = open_chat (person_at 0) ∷ friend ∷ write "hi" ∷ []

typing_row_shown : (visit writing).show_p2p_typing ≡ true
unfolding apply Panel.run_typing_effect Panel.typing_effect Panel.initial
    Panel.handle_open_chat_with_person Panel.friend_effect trim
typing_row_shown = refl

acts-show_p2p_typing_example :
    (((visit writing).show_p2p_typing
        && is_idle (visit writing).ui.active_p2p_friend_id (visit writing).p2p_text)
      ≡ false)
    × ((act timeout (visit writing)).show_p2p_typing ≡ false)
    × ((act (write " ") (visit writing)).show_p2p_typing ≡ (
        if (visit writing).p2p_text == " "
        then (visit writing).show_p2p_typing
        else not (is_idle (visit writing).ui.active_p2p_friend_id " ")))
acts-show_p2p_typing_example = acts-show_p2p_typing writing " "

abbrev answered : Panel.Panel
answered = apply (send "m0") (apply (write " hi ") opened)

reachable-unread_badge_example : unread_badge "user_alice" answered.p2p_conversations ≡ (
    if has_written "user_alice" answered.p2p_conversations
    then 0
    else unread_badge "user_alice" initial_conversations)
reachable-unread_badge_example =
    reachable-unread_badge "user_alice"
      (next (next (next (next here (open_chat (person_at 0))) friend) (write " hi ")) (send "m0"))

abbrev message : P2pMessage
message = record (Compose.own_message "m1" "hello" none none) { likes = some 2 }

message-IsTallied : IsTallied message
message-IsTallied = record {
  thumbs = record { up = omega arith; down = omega arith };
  emojis = record {
    no_thumbs_up = refl;
    no_thumbs_down = refl;
    joys = omega arith;
    hearts = omega arith;
    fires = omega arith;
  };
}

-- The same message in the room.
abbrev twin : RoomChatMessage
twin = record (own_room_message alex "m2" "hello" none) { likes = 2 }

twin-IsTallied : Room.IsTallied twin
twin-IsTallied = record {
  thumbs = record { up = omega arith; down = omega arith };
  emojis = record {
    no_thumbs_up = refl;
    no_thumbs_down = refl;
    joys = omega arith;
    hearts = omega arith;
    fires = omega arith;
  };
}

same_counts :
    (q : QuickReaction) → get_p2p_reaction_count message q ≡ get_room_reaction_count twin q
unfolding get_p2p_reaction_count get_room_reaction_count
same_counts thumbs_up = refl
same_counts _ = refl

same_own : (q : QuickReaction) → has_p2p_user_reaction message q ≡ has_room_user_reaction twin q
unfolding has_p2p_user_reaction has_room_user_reaction
same_own thumbs_up = refl
same_own _ = refl

chats-agree_example :
    (get_p2p_reaction_count (tap_all (joy ∷ fire ∷ []) message) fire
      ≡ get_room_reaction_count (tap_all (joy ∷ fire ∷ []) twin) fire)
    × (has_p2p_user_reaction (tap_all (joy ∷ fire ∷ []) message) fire
        ≡ has_room_user_reaction (tap_all (joy ∷ fire ∷ []) twin) fire)
chats-agree_example =
    chats-agree (joy ∷ fire ∷ []) message twin message-IsTallied twin-IsTallied same_counts same_own
      fire

visible_conversations_lem_example :
    Ordered (visible_conversations " A " people initial_conversations none [])
    × Perm (visible_conversations " A " people initial_conversations none []) (
        filter
          (matches_term (to_lower_case (trim " A ")))
          (map (to_entry none [] initial_conversations) people))
visible_conversations_lem_example =
    visible_conversations_lem " A " people initial_conversations none []

-- A friend is chosen, a message is answered and sent, and a blank text after it.
abbrev a_visit : List Action
a_visit =
    open_chat (person_at 0)
    ∷ friend
    ∷ write " hi "
    ∷ reply message
    ∷ send "m2"
    ∷ write " "
    ∷ send "m3"
    ∷ []

visit-thread_said :
    Transcript.all_said "user_alice" a_visit Panel.initial
    ≡ (record {
      id = "m2";
      is_you = true;
      name = "You";
      text = "hi";
      quote = some ("You", "hello");
    })
      ∷ []
unfolding apply Panel.initial Panel.active_friend room_participants
    Panel.handle_open_chat_with_person Panel.friend_effect Panel.handle_p2p_reply_message
    Compose.send_p2p_message trim
visit-thread_said = refl

visit-thread_example :
    (map line (thread "user_alice" (Transcript.visit a_visit Panel.initial).p2p_conversations)
      ≡ map line (thread "user_alice" initial_conversations)
        ++ Transcript.all_said "user_alice" a_visit Panel.initial)
    × (Transcript.all_said "user_alice"
          (send "m4" ∷ send "m5" ∷ [])
          (Transcript.visit a_visit Panel.initial)
        ≡ sent "user_alice" "m4" (Transcript.visit a_visit Panel.initial))
visit-thread_example = Transcript.visit-thread "user_alice" a_visit "m4" "m5"
