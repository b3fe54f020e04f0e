-- ===== src/Private/Panel/Send.antt =====
-- client/src/components/room/listener-panel.tsx: what a sent message adds to a conversation.
use mathlib.Core.List.{append-nil, map-append}
use wave_cast.Common.{
  String, Bool, true, false, not, ◌&&◌, Option, none, some, ◌≡◌, refl, sym, ◌∙◌, ap, List, [], ◌∷◌,
  ◌++◌, map, insert, lookup, lookup-insert, or_else, trim, is_empty, eq_iff, arith, ◌==◌,
  if◌then◌else◌, Bool-cases, Option-cases, inl, inr,
}
use wave_cast.Private.Attachment.{PickedFile, get_attachment_summary}
use wave_cast.Private.Compose.{
  send_p2p_message, append_p2p_message_with_attachment, shared_label, own_message, reply_of,
}
use wave_cast.Private.Conversations.{P2pConversation, Conversations, append_message}
use wave_cast.Private.Message.{P2pMessage, Reply, AttachmentKind}
use wave_cast.Private.Panel.{Panel, active_friend}
use wave_cast.Private.Visible.{no_messages}
use wave_cast.Types.{Person}
use Prim.Native.String as S

-- The messages of the conversation with a person; none where there is no conversation.
abbrev pub thread : String → Conversations → List P2pMessage
thread k current = (or_else (lookup k current) no_messages).messages

-- What a reader sees of a message: the id, who wrote it, the text, and the name and text of the
-- message that it answers.
pub record Line : Type 0 where
  pub id : String
  pub is_you : Bool
  pub name : String
  pub text : String
  pub quote : Option (String × String)

abbrev quoted : Option Reply → Option (String × String)
quoted none = none
quoted (some reply) = some (reply.name, reply.text)

abbrev pub line : P2pMessage → Line
line m = record {
  id = m.id;
  is_you = m.is_you;
  name = m.name;
  text = m.text;
  quote = quoted m.reply_to;
}

-- The name and text of the message that is chosen to be answered.
abbrev pub chosen_quote : Option P2pMessage → Option (String × String)
chosen_quote none = none
chosen_quote (some m) = some (m.name, m.text)

-- A line of the user's own for one conversation, if that is the open one.
abbrev pub own_line : String → Option Person → Line → List Line
own_line k none l = []
own_line k (some friend) l = if friend.id == k && not (is_empty friend.id) then l ∷ [] else []

-- What the button Send adds to a conversation.
abbrev pub sent : String → String → Panel → List Line
sent k fresh p =
    if is_empty (trim p.p2p_text)
    then []
    else own_line k (active_friend p) (record {
      id = fresh;
      is_you = true;
      name = "You";
      text = trim p.p2p_text;
      quote = chosen_quote p.replying_p2p_message;
    })

-- What the choice of a file adds.
abbrev pub shared :
    String → String → String → Option PickedFile → AttachmentKind → Panel → List Line
shared k url fresh none kind p = []
shared k url fresh (some picked) kind p = own_line k (active_friend p) (record {
  id = fresh;
  is_you = true;
  name = "You";
  text = S.◌++◌ "Shared " (
      S.◌++◌ (shared_label kind (get_attachment_summary url picked kind))
        (S.◌++◌ ": " picked.name));
  quote = none;
})

messages_if :
    (b : Bool) (c : P2pConversation) (o : Option P2pConversation)
    → (or_else (if b then some c else o) no_messages).messages
      ≡ (if b then c.messages else (or_else o no_messages).messages)
messages_if true c o = refl
messages_if false c o = refl

pub thread-insert :
    (k j : String) (c : P2pConversation) (current : Conversations)
    → thread k (insert j c current) ≡ (if j == k then c.messages else thread k current)
thread-insert k j c current =
    ap (λ o. (or_else o no_messages).messages) (lookup-insert j k c current)
    ∙ messages_if (j == k) c (lookup k current)

append-lines :
    (k j : String) (m : P2pMessage) (current : Conversations)
    → map line (thread k (append_message j m current))
      ≡ map line (thread k current) ++ (if j == k then line m ∷ [] else [])
unfolding append_message
append-lines k j m current =
    ap (map line) (thread-insert k j _ current) ∙ elim (Bool-cases (j == k)) [
      | inl same ↦ rw (same, (eq_iff j k).0 same) (map-append line (thread k current) (m ∷ []))
      | inr other ↦ rw other (sym (append-nil (map line (thread k current))))
    ]

-- The quotation of a message of the user's own is that of the message chosen to be answered.
own-line :
    (fresh text : String) (o : Option P2pMessage)
    → line (own_message fresh text (reply_of o) none)
      ≡ record { id = fresh; is_you = true; name = "You"; text = text; quote = chosen_quote o }
own-line fresh text none = refl
own-line fresh text (some m) = refl

if_and_true :
    (b : Bool) (l : Line) → (if b then l ∷ [] else []) ≡ (if b && true then l ∷ [] else [])
if_and_true true l = refl
if_and_true false l = refl

pub send-lines :
    (k fresh : String) (p : Panel)
    → map line (thread k (send_p2p_message fresh p).p2p_conversations)
      ≡ map line (thread k p.p2p_conversations) ++ sent k fresh p
unfolding send_p2p_message
send-lines k fresh p = elim (Option-cases (active_friend p)) [
  | inl closed ↦
      rw (closed, send_p2p_message)
        (ground (arith, append-nil (map line (thread k p.p2p_conversations))))
  | inr (f, chosen) ↦ elim (Bool-cases (is_empty (trim p.p2p_text))) [
    | inl blank ↦
        rw (chosen, send_p2p_message, blank)
          (sym (append-nil (map line (thread k p.p2p_conversations))))
    | inr said ↦ elim (Bool-cases (is_empty f.id)) [
      | inl unnamed ↦
          rw (chosen, send_p2p_message, said, unnamed)
            (ground (arith, append-nil (map line (thread k p.p2p_conversations))))
      | inr named ↦
          rw (chosen, send_p2p_message, said, named, append-lines)
            (ap (λ x. map line (thread k p.p2p_conversations) ++ (if f.id == k then x ∷ [] else []))
                (own-line fresh (trim p.p2p_text) p.replying_p2p_message)
              ∙ ap (λ x. map line (thread k p.p2p_conversations) ++ x) (if_and_true (f.id == k) _))
    ]
  ]
]

pub attach-lines :
    (k url fresh : String) (picked : Option PickedFile) (kind : AttachmentKind) (p : Panel)
    → map line
        (thread k (append_p2p_message_with_attachment url fresh picked kind p).p2p_conversations)
      ≡ map line (thread k p.p2p_conversations) ++ shared k url fresh picked kind p
unfolding append_p2p_message_with_attachment
attach-lines k url fresh none kind p = sym (append-nil _)
attach-lines k url fresh (some picked) kind p = elim (Option-cases (active_friend p)) [
  | inl closed ↦
      rw (closed, append_p2p_message_with_attachment)
        (sym (append-nil (map line (thread k p.p2p_conversations))))
  | inr (f, chosen) ↦ elim (Bool-cases (is_empty f.id)) [
    | inl unnamed ↦
        rw (chosen, append_p2p_message_with_attachment, unnamed)
          (ground (arith, append-nil (map line (thread k p.p2p_conversations))))
    | inr named ↦
        rw (chosen, append_p2p_message_with_attachment, named, append-lines)
          (ap (λ x. map line (thread k p.p2p_conversations) ++ x) (if_and_true (f.id == k) _))
  ]
]

-- What was sent is not sent again.
pub sent-send : (k fresh again : String) (p : Panel) → sent k again (send_p2p_message fresh p) ≡ []
unfolding send_p2p_message trim
sent-send k fresh again p = elim (Option-cases (active_friend p)) [
  | inl closed ↦ rw (closed, send_p2p_message, closed) (ground arith)
  | inr (f, chosen) ↦ elim (Bool-cases (is_empty (trim p.p2p_text))) [
    | inl blank ↦ rw (chosen, send_p2p_message, blank, blank) refl
    | inr said ↦ elim (Bool-cases (is_empty f.id)) [
      | inl unnamed ↦
          rw (chosen, send_p2p_message, said, unnamed, said, chosen, unnamed) (ground arith)
      | inr named ↦ rw (chosen, send_p2p_message, said, named) refl
    ]
  ]
]
