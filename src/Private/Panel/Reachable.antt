-- ===== src/Private/Panel/Reachable.antt =====
-- client/src/components/room/listener-panel.tsx: every state that handlers and effects reach.
use wave_cast.Common.{
  String, Bool, true, Option, none, some, ◌≡◌, refl, sym, ◌||◌, is_empty, trim, Bool-cases,
  Option-cases, or_else, inl, inr, arith,
}
use mathlib.Core.Path.{subst}
use wave_cast.Private.Attachment.{PickedFile}
use wave_cast.Private.Conversations.{
  Conversations, mark_conversation_thread_as_read, toggle_p2p_emoji_reaction, append_message,
}
use wave_cast.Private.Conversations.Unread.{
  BadgesBacked, mark_as_read_noop, initial-BadgesBacked, append_message-BadgesBacked,
  toggle_p2p_emoji_reaction-BadgesBacked,
}
use wave_cast.Private.Message.{P2pMessage, AttachmentKind}
use wave_cast.Private.Panel.{
  Panel, initial, sync_unread_effect, typing_effect, typing_timeout, friend_effect,
  handle_open_chat_with_person, handle_open_listener_detail, handle_back_from_listener_detail,
  handle_toggle_conversation_thread, handle_p2p_reply_message, handle_all_listeners_open_change,
  handle_p2p_drawer_open_change, active_friend,
}
use wave_cast.Private.Compose.{send_p2p_message, add_p2p_emoji, append_p2p_message_with_attachment}
use wave_cast.Reactions.{QuickReaction}
use wave_cast.Stores.Ui as Ui
use wave_cast.Types.{Person}

-- A handler, an effect or the timeout, in any order. `befriend` is another component that sets the
-- active friend in the shared store.
pub data Action : Type 0 where
  open_chat open_detail : Person → Action
  back toggle_thread sync_unread typing timeout friend : Action
  reply : P2pMessage → Action
  all_listeners drawer : Bool → Action
  send emoji write search : String → Action
  attach : String → String → Option PickedFile → AttachmentKind → Action
  tap : String → String → QuickReaction → Action
  befriend : Option String → Action

unfoldable pub apply : Action → Panel → Panel
apply (open_chat person) p = handle_open_chat_with_person person p
apply (open_detail person) p = handle_open_listener_detail person p
apply back p = handle_back_from_listener_detail p
apply toggle_thread p = handle_toggle_conversation_thread p
apply sync_unread p = sync_unread_effect p
apply typing p = typing_effect p
apply timeout p = typing_timeout p
apply friend p = friend_effect p
apply (reply m) p = handle_p2p_reply_message m p
apply (all_listeners b) p = handle_all_listeners_open_change b p
apply (drawer b) p = handle_p2p_drawer_open_change b p
apply (send fresh) p = send_p2p_message fresh p
apply (emoji e) p = add_p2p_emoji e p
apply (write text) p = record p { p2p_text = text }
apply (search text) p = record p { chat_search = text }
apply (attach url fresh picked kind) p = append_p2p_message_with_attachment url fresh picked kind p
apply (tap friend_id message_id r) p = record p {
  p2p_conversations = toggle_p2p_emoji_reaction friend_id message_id r p.p2p_conversations;
}
apply (befriend k) p = record p { ui = Ui.set_active_p2p_friend_id k p.ui }

pub data Reach (p : Panel) : Panel → Type 0 where
  here : Reach p p
  next : {q : Panel} → Reach p q → (a : Action) → Reach p (apply a q)

pub typing-keeps : (p : Panel) → (typing_effect p).p2p_conversations ≡ p.p2p_conversations
unfolding typing_effect
typing-keeps p = ground arith

pub timeout-keeps : (p : Panel) → (typing_timeout p).p2p_conversations ≡ p.p2p_conversations
unfolding typing_timeout
timeout-keeps p = ground arith

pub reply-keeps :
    (m : P2pMessage) (p : Panel)
    → (handle_p2p_reply_message m p).p2p_conversations ≡ p.p2p_conversations
unfolding handle_p2p_reply_message
reply-keeps m p = ground arith

pub all_listeners-keeps :
    (o : Bool) (p : Panel)
    → (handle_all_listeners_open_change o p).p2p_conversations ≡ p.p2p_conversations
unfolding handle_all_listeners_open_change
all_listeners-keeps o p = ground arith

pub drawer-keeps :
    (o : Bool) (p : Panel)
    → (handle_p2p_drawer_open_change o p).p2p_conversations ≡ p.p2p_conversations
unfolding handle_p2p_drawer_open_change
drawer-keeps o p = ground arith

-- What is kept by a message of the user's own and by a reaction, and lets nothing be marked as read,
-- is kept by every action.
module _ (P : Conversations → Type 0)
    (noop : (k : String) (c : Conversations) → P c → mark_conversation_thread_as_read k c ≡ c)
    (appended : (k : String) (m : P2pMessage) (c : Conversations)
      → m.is_you ≡ true
      → P c
      → P (append_message k m c))
    (tapped : (k id : String) (r : QuickReaction) (c : Conversations)
      → P c
      → P (toggle_p2p_emoji_reaction k id r c)) where
  keep : {c d : Conversations} → d ≡ c → P c → P d
  keep e b = subst P (sym e) b

  pub friend-keeps :
      (p : Panel)
      → P p.p2p_conversations
      → (friend_effect p).p2p_conversations ≡ p.p2p_conversations
  unfolding friend_effect
  friend-keeps p b =
      let friend_id = or_else p.ui.active_p2p_friend_id "" in
      ground (arith, noop friend_id p.p2p_conversations b)

  pub toggle_thread-keeps :
      (p : Panel)
      → P p.p2p_conversations
      → (handle_toggle_conversation_thread p).p2p_conversations ≡ p.p2p_conversations
  unfolding handle_toggle_conversation_thread
  toggle_thread-keeps p b = elim (Option-cases (active_friend p)) [
    | inl closed ↦ rw (closed, handle_toggle_conversation_thread) refl
    | inr (f, chosen) ↦
        rw (chosen, handle_toggle_conversation_thread)
          (ground (arith, noop f.id p.p2p_conversations b))
  ]

  send_kept :
      (fresh : String) (p : Panel)
      → P p.p2p_conversations
      → P (send_p2p_message fresh p).p2p_conversations
  unfolding send_p2p_message
  send_kept fresh p b = elim (Option-cases (active_friend p)) [
    | inl closed ↦ rw (closed, send_p2p_message) b
    | inr (f, chosen) ↦ elim (Bool-cases (is_empty (trim p.p2p_text) || is_empty f.id)) [
      | inl blank ↦ rw (chosen, send_p2p_message, blank) b
      | inr said ↦ rw (chosen, send_p2p_message, said) (appended f.id _ p.p2p_conversations refl b)
    ]
  ]

  attach_kept :
      (url fresh : String) (picked : Option PickedFile) (kind : AttachmentKind) (p : Panel)
      → P p.p2p_conversations
      → P (append_p2p_message_with_attachment url fresh picked kind p).p2p_conversations
  unfolding append_p2p_message_with_attachment
  attach_kept url fresh none kind p b = b
  attach_kept url fresh (some picked) kind p b = elim (Option-cases (active_friend p)) [
    | inl closed ↦ rw (closed, append_p2p_message_with_attachment) b
    | inr (f, chosen) ↦ elim (Bool-cases (is_empty f.id)) [
      | inl blank ↦ rw (chosen, append_p2p_message_with_attachment, blank) b
      | inr said ↦
          rw (chosen, append_p2p_message_with_attachment, said)
            (appended f.id _ p.p2p_conversations refl b)
    ]
  ]

  apply_kept : (a : Action) (p : Panel) → P p.p2p_conversations → P (apply a p).p2p_conversations
  unfolding apply
  apply_kept (open_chat person) p b = unfold handle_open_chat_with_person in b
  apply_kept (open_detail person) p b = unfold handle_open_listener_detail in b
  apply_kept back p b = unfold handle_back_from_listener_detail in b
  apply_kept toggle_thread p b = keep (toggle_thread-keeps p b) b
  apply_kept sync_unread p b = unfold sync_unread_effect in b
  apply_kept typing p b = keep (typing-keeps p) b
  apply_kept timeout p b = keep (timeout-keeps p) b
  apply_kept friend p b = keep (friend-keeps p b) b
  apply_kept (reply m) p b = keep (reply-keeps m p) b
  apply_kept (all_listeners o) p b = keep (all_listeners-keeps o p) b
  apply_kept (drawer o) p b = keep (drawer-keeps o p) b
  apply_kept (send fresh) p b = send_kept fresh p b
  apply_kept (emoji e) p b = unfold add_p2p_emoji in b
  apply_kept (write text) p b = b
  apply_kept (search text) p b = b
  apply_kept (attach url fresh picked kind) p b = attach_kept url fresh picked kind p b
  apply_kept (tap k id r) p b = tapped k id r p.p2p_conversations b
  apply_kept (befriend k) p b = b

  pub reachable_kept : {p q : Panel} → Reach p q → P p.p2p_conversations → P q.p2p_conversations
  reachable_kept here b = b
  reachable_kept (next {q} r a) b = apply_kept a q (reachable_kept r b)

-- In every state that handlers and effects reach, in whatever order, marking a conversation as
-- read changes nothing, whichever conversation it is: a badge that is there is never cleared by
-- opening the conversation.
pub reachable-mark_noop :
    (k : String) {p : Panel}
    → Reach initial p
    → mark_conversation_thread_as_read k p.p2p_conversations ≡ p.p2p_conversations
unfolding initial
reachable-mark_noop k {p} r = mark_as_read_noop k p.p2p_conversations (
    reachable_kept BadgesBacked mark_as_read_noop
      (λ j m c own b. append_message-BadgesBacked j m c b) toggle_p2p_emoji_reaction-BadgesBacked r
      initial-BadgesBacked)
