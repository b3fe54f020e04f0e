-- ===== src/RoomChat/Panel/Chat/Follows.antt =====
-- client/src/components/room/room-side-panel.tsx: the chat is what was written and sent.
use Prim.Native.String as S
use mathlib.Core.List.{map-append}
use wave_cast.Common.{
  String, Bool, ◌≡◌, refl, ap, ◌∙◌, List, [], ◌∷◌, ◌++◌, none, map, All, All-append, trim, is_empty,
  ◌==◌, if◌then◌else◌, arith, Bool-cases, inl, inr,
}
use wave_cast.Reactions.{QuickReaction, thumbs_up}
use wave_cast.RoomChat.Message.{
  RoomChatMessage, seed_room_messages, react_by_emoji, react_to_room_message,
}
use wave_cast.RoomChat.Message.Laws.{IsTallied, react_by_emoji-IsTallied}
use wave_cast.RoomChat.Panel.{
  SidePanel, initial, handle_send_room_chat, handle_kick_person, toggle_room_emoji_reaction,
  toggle_room_message_reaction, add_room_emoji, handle_reply_to_message, request_friend,
  append_room_message, change_message,
}
use wave_cast.Types.{Person}
use wave_cast.RoomChat.Panel.Chat.{
  Act, write, emoji, send, tap, reply, cancel, picker, kick, befriend, act, acts, Transcript, say,
  transcript, nothing_said, line,
}

-- The panel shows what the transcript says, in messages that are counted.
record Follows (s : Transcript) (p : SidePanel) : Type 0 where
  text : p.chat_text ≡ s.text
  lines : map line p.room_messages ≡ map line seed_room_messages ++ s.said
  tallied : All IsTallied p.room_messages

react-line : (r : QuickReaction) (m : RoomChatMessage) → line (react_by_emoji r m) ≡ line m
unfolding react_by_emoji react_to_room_message
react-line thumbs_up m = ground arith
react-line _ m = ground arith

change-lines :
    (id : String) (r : QuickReaction) (ms : List RoomChatMessage)
    → map line (change_message id (react_by_emoji r) ms) ≡ map line ms
change-lines id r [] = refl
change-lines id r (m ∷ ms) = ground (arith, react-line r m, change-lines id r ms)

change-IsTallied :
    (id : String) (r : QuickReaction) (ms : List RoomChatMessage)
    → All IsTallied ms
    → All IsTallied (change_message id (react_by_emoji r) ms)
change-IsTallied id r [] h = tt
change-IsTallied id r (m ∷ ms) (t, h) = elim (Bool-cases (m.id == id)) [
  | inl this ↦ rw this (react_by_emoji-IsTallied r m t, change-IsTallied id r ms h)
  | inr other ↦ rw other (t, change-IsTallied id r ms h)
]

tapped :
    (id : String) (r : QuickReaction) (p : SidePanel)
    → toggle_room_emoji_reaction id r p
      ≡ record p { room_messages = change_message id (react_by_emoji r) p.room_messages }
unfolding toggle_room_emoji_reaction toggle_room_message_reaction react_by_emoji
tapped id thumbs_up p = refl
tapped id _ p = refl

tap-Follows :
    (id : String) (r : QuickReaction) (s : Transcript) (p : SidePanel)
    → Follows s p
    → Follows s (toggle_room_emoji_reaction id r p)
tap-Follows id r s p f = rw (tapped id r p) (record {
  text = f.text;
  lines = change-lines id r p.room_messages ∙ f.lines;
  tallied = change-IsTallied id r p.room_messages f.tallied;
})

-- A message with no reaction of the user's own.
unused-IsTallied :
    (m : RoomChatMessage) → m.user_reaction ≡ none → m.user_emoji_reaction ≡ none → IsTallied m
unused-IsTallied m no_thumb no_emoji = record {
  thumbs = record { up = ground arith; down = ground arith };
  emojis = record {
    no_thumbs_up = ground arith;
    no_thumbs_down = ground arith;
    joys = ground arith;
    hearts = ground arith;
    fires = ground arith;
  };
}

send-Follows :
    (me : Person) (fresh : String) (s : Transcript) (p : SidePanel)
    → Follows s p
    → Follows (say (send fresh) s) (handle_send_room_chat me fresh p)
unfolding handle_send_room_chat append_room_message
send-Follows me fresh s p f = elim (Bool-cases (is_empty (trim s.text))) [
  | inl blank ↦
      rw (handle_send_room_chat, f.text, blank)
        (record { text = refl; lines = f.lines; tallied = f.tallied })
  | inr spoken ↦
      rw (handle_send_room_chat, f.text, spoken)
        (record {
          text = refl;
          lines =
              map-append line p.room_messages _ ∙ ap (λ l. l ++ (fresh, trim s.text) ∷ []) f.lines;
          tallied =
              All-append IsTallied p.room_messages _ f.tallied (unused-IsTallied _ refl refl, tt);
        })
]

emoji-Follows :
    (e : String) (s : Transcript) (p : SidePanel)
    → Follows s p
    → Follows (say (emoji e) s) (add_room_emoji e p)
unfolding add_room_emoji
emoji-Follows e s p f = record {
  text = ap (λ t. if is_empty t then e else S.◌++◌ t (S.◌++◌ " " e)) f.text;
  lines = f.lines;
  tallied = f.tallied;
}

-- What leaves the text and the messages as they are.
same-Follows :
    (s : Transcript) (p q : SidePanel)
    → (q.chat_text ≡ p.chat_text) × (q.room_messages ≡ p.room_messages)
    → Follows s p
    → Follows s q
same-Follows s p q (text, messages) f = record {
  text = text ∙ f.text;
  lines = ap (map line) messages ∙ f.lines;
  tallied = rw messages f.tallied;
}

kick-same :
    (me : Person) (confirmed : Bool) (person : Person) (p : SidePanel)
    → ((handle_kick_person me confirmed person p).0.chat_text ≡ p.chat_text)
      × ((handle_kick_person me confirmed person p).0.room_messages ≡ p.room_messages)
unfolding handle_kick_person
kick-same me confirmed person p = ground arith

reply-same :
    (m : RoomChatMessage) (p : SidePanel)
    → ((handle_reply_to_message m p).chat_text ≡ p.chat_text)
      × ((handle_reply_to_message m p).room_messages ≡ p.room_messages)
unfolding handle_reply_to_message
reply-same m p = ground arith

act-Follows :
    (me : Person) (a : Act) (s : Transcript) (p : SidePanel)
    → Follows s p
    → Follows (say a s) (act me a p)
unfolding act request_friend
act-Follows me (write text) s p f = record { text = refl; lines = f.lines; tallied = f.tallied }
act-Follows me (emoji e) s p f = emoji-Follows e s p f
act-Follows me (send fresh) s p f = send-Follows me fresh s p f
act-Follows me (tap id r) s p f = tap-Follows id r s p f
act-Follows me (reply m) s p f = same-Follows s p _ (reply-same m p) f
act-Follows me cancel s p f = same-Follows s p _ (refl, refl) f
act-Follows me picker s p f = same-Follows s p _ (refl, refl) f
act-Follows me (kick b q) s p f = same-Follows s p _ (kick-same me b q p) f
act-Follows me (befriend q) s p f = same-Follows s p _ (refl, refl) f

acts-Follows :
    (me : Person) (done : List Act) (s : Transcript) (p : SidePanel)
    → Follows s p
    → Follows (transcript done s) (acts me done p)
unfolding acts
acts-Follows me [] s p f = f
acts-Follows me (a ∷ rest) s p f =
    acts-Follows me rest (say a s) (act me a p) (act-Follows me a s p f)

initial-Follows : Follows nothing_said initial
unfolding initial
initial-Follows = record {
  text = refl;
  lines = refl;
  tallied = (
    unused-IsTallied _ refl refl,
    (unused-IsTallied _ refl refl, (unused-IsTallied _ refl refl, tt)),
  );
}

-- Whatever the user does in the panel: the messages are those that the room began with and then those
-- that the user sent, in this order, each with the text that was written, without the white space
-- around it, and none for a blank text; what stands in the text field is what was written since; and
-- the counts of every message hold the user's own reactions.
pub acts-transcript :
    (me : Person) (done : List Act)
    → let p = acts me done initial in
      let s = transcript done nothing_said in
      (map line p.room_messages ≡ map line seed_room_messages ++ s.said)
      × (p.chat_text ≡ s.text)
      × All IsTallied p.room_messages
acts-transcript me done =
    let f = acts-Follows me done nothing_said initial initial-Follows in
    (f.lines, f.text, f.tallied)
