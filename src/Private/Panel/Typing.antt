-- ===== src/Private/Panel/Typing.antt =====
-- client/src/components/room/listener-panel.tsx: the row that says that the friend is typing, over
-- all that happens in the panel, with the effect on the friend and the text after every change.
use wave_cast.Common.{
  String, Bool, true, false, not, ◌&&◌, ◌||◌, List, [], ◌∷◌, Option, none, some, ◌≡◌, refl, sym,
  ◌∙◌, is_empty, trim, or_else, if◌then◌else◌, Bool-cases, Option-cases, inl, inr, arith, ◌==◌,
  eq_iff, eq_refl,
}
use wave_cast.Private.Attachment.{PickedFile}
use wave_cast.Private.Compose.{send_p2p_message, add_p2p_emoji, append_p2p_message_with_attachment}
use wave_cast.Private.Message.{P2pMessage, AttachmentKind}
use wave_cast.Private.Panel.{
  Panel, initial, sync_unread_effect, typing_effect, run_typing_effect, typing_timeout,
  friend_effect, same_friend, handle_open_chat_with_person, handle_open_listener_detail,
  handle_back_from_listener_detail, handle_toggle_conversation_thread, handle_p2p_reply_message,
  handle_all_listeners_open_change, handle_p2p_drawer_open_change, active_friend,
}
use wave_cast.Private.Panel.Reachable.{
  Action, apply, open_chat, open_detail, back, toggle_thread, sync_unread, typing, timeout, friend,
  reply, all_listeners, drawer, send, emoji, write, search, attach, tap, befriend,
}

-- An action, and the effect after it.
abbrev pub act : Action → Panel → Panel
act a p = run_typing_effect p (apply a p)

abbrev pub acts : List Action → Panel → Panel
acts [] p = p
acts (a ∷ rest) p = acts rest (act a p)

-- No friend is chosen, or nothing but white space is written.
abbrev pub is_idle : Option String → String → Bool
is_idle friend_id text = is_empty (or_else friend_id "") || is_empty (trim text)

-- A timeout is set exactly while the row is shown, and it is shown to a friend with a text only.
abbrev IsTyping : Panel → Type 0
IsTyping p =
    (p.show_p2p_typing ≡ p.typing_timer)
    × ((p.show_p2p_typing && is_idle p.ui.active_p2p_friend_id p.p2p_text) ≡ false)

-- What handlers leave alone.
abbrev AsShown : Panel → Panel → Type 0
AsShown p q = (q.show_p2p_typing ≡ p.show_p2p_typing) × (q.typing_timer ≡ p.typing_timer)

same_friend-or_else : (k j : Option String) → same_friend k j ≡ true → or_else k "" ≡ or_else j ""
same_friend-or_else none none same = refl
same_friend-or_else (some k) (some j) same = (eq_iff k j).0 same
same_friend-or_else none (some j) same = ground arith
same_friend-or_else (some k) none same = ground arith

same_friend_refl : (k : Option String) → same_friend k k ≡ true
same_friend_refl none = refl
same_friend_refl (some k) = eq_refl k

typing_effect-IsTyping : (p : Panel) → IsTyping (typing_effect p)
unfolding typing_effect
typing_effect-IsTyping p = ground arith

typing_timeout-IsTyping : (p : Panel) → IsTyping p → IsTyping (typing_timeout p)
unfolding typing_timeout
typing_timeout-IsTyping p t = ground arith

unchanged-IsTyping :
    (p q : Panel)
    → IsTyping p
    → AsShown p q
    → or_else p.ui.active_p2p_friend_id "" ≡ or_else q.ui.active_p2p_friend_id ""
    → p.p2p_text ≡ q.p2p_text
    → IsTyping q
unchanged-IsTyping p q (timed, shown) (show_kept, timer_kept) same_id same_text =
    (show_kept ∙ timed ∙ sym timer_kept, cc)

run_typing_effect-IsTyping :
    (p q : Panel) → IsTyping p → AsShown p q → IsTyping (run_typing_effect p q)
unfolding run_typing_effect
run_typing_effect-IsTyping p q t kept =
    elim (Bool-cases (
      same_friend p.ui.active_p2p_friend_id q.ui.active_p2p_friend_id
      && p.p2p_text == q.p2p_text)) [
        | inl same ↦
            rw (run_typing_effect, same)
              (unchanged-IsTyping p q t kept
                (same_friend-or_else p.ui.active_p2p_friend_id q.ui.active_p2p_friend_id
                  (ground arith))
                ((eq_iff p.p2p_text q.p2p_text).0 (ground arith)))
        | inr other ↦ rw (run_typing_effect, other) (typing_effect-IsTyping q)
      ]

run_typing_effect-of : (p q : Panel) → IsTyping q → IsTyping (run_typing_effect p q)
unfolding run_typing_effect
run_typing_effect-of p q t =
    elim (Bool-cases (
      same_friend p.ui.active_p2p_friend_id q.ui.active_p2p_friend_id
      && p.p2p_text == q.p2p_text)) [
        | inl same ↦ rw (run_typing_effect, same) t
        | inr other ↦ rw (run_typing_effect, other) (typing_effect-IsTyping q)
      ]

toggle_thread-AsShown : (p : Panel) → AsShown p (handle_toggle_conversation_thread p)
unfolding handle_toggle_conversation_thread
toggle_thread-AsShown p = elim (Option-cases (active_friend p)) [
  | inl closed ↦ rw (closed, handle_toggle_conversation_thread) (refl, refl)
  | inr (f, chosen) ↦ rw (chosen, handle_toggle_conversation_thread) (ground arith)
]

send-AsShown : (fresh : String) (p : Panel) → AsShown p (send_p2p_message fresh p)
unfolding send_p2p_message
send-AsShown fresh p = elim (Option-cases (active_friend p)) [
  | inl closed ↦ rw (closed, send_p2p_message) (refl, refl)
  | inr (f, chosen) ↦ rw (chosen, send_p2p_message) (ground arith)
]

attach-AsShown :
    (url fresh : String) (picked : Option PickedFile) (kind : AttachmentKind) (p : Panel)
    → AsShown p (append_p2p_message_with_attachment url fresh picked kind p)
unfolding append_p2p_message_with_attachment
attach-AsShown url fresh none kind p = (refl, refl)
attach-AsShown url fresh (some picked) kind p = elim (Option-cases (active_friend p)) [
  | inl closed ↦ rw (closed, append_p2p_message_with_attachment) (refl, refl)
  | inr (f, chosen) ↦ rw (chosen, append_p2p_message_with_attachment) (ground arith)
]

friend-AsShown : (p : Panel) → AsShown p (friend_effect p)
unfolding friend_effect
friend-AsShown p = ground arith

reply-AsShown : (m : P2pMessage) (p : Panel) → AsShown p (handle_p2p_reply_message m p)
unfolding handle_p2p_reply_message
reply-AsShown m p = ground arith

all_listeners-AsShown : (o : Bool) (p : Panel) → AsShown p (handle_all_listeners_open_change o p)
unfolding handle_all_listeners_open_change
all_listeners-AsShown o p = ground arith

drawer-AsShown : (o : Bool) (p : Panel) → AsShown p (handle_p2p_drawer_open_change o p)
unfolding handle_p2p_drawer_open_change
drawer-AsShown o p = ground arith

act-IsTyping : (a : Action) (p : Panel) → IsTyping p → IsTyping (act a p)
unfolding apply
act-IsTyping (open_chat person) p t =
    run_typing_effect-IsTyping p _ t (unfold handle_open_chat_with_person in (refl, refl))
act-IsTyping (open_detail person) p t =
    run_typing_effect-IsTyping p _ t (unfold handle_open_listener_detail in (refl, refl))
act-IsTyping back p t =
    run_typing_effect-IsTyping p _ t (unfold handle_back_from_listener_detail in (refl, refl))
act-IsTyping toggle_thread p t = run_typing_effect-IsTyping p _ t (toggle_thread-AsShown p)
act-IsTyping sync_unread p t =
    run_typing_effect-IsTyping p _ t (unfold sync_unread_effect in (refl, refl))
act-IsTyping typing p t = run_typing_effect-of p _ (typing_effect-IsTyping p)
act-IsTyping timeout p t = run_typing_effect-of p _ (typing_timeout-IsTyping p t)
act-IsTyping friend p t = run_typing_effect-IsTyping p _ t (friend-AsShown p)
act-IsTyping (reply m) p t = run_typing_effect-IsTyping p _ t (reply-AsShown m p)
act-IsTyping (all_listeners o) p t = run_typing_effect-IsTyping p _ t (all_listeners-AsShown o p)
act-IsTyping (drawer o) p t = run_typing_effect-IsTyping p _ t (drawer-AsShown o p)
act-IsTyping (send fresh) p t = run_typing_effect-IsTyping p _ t (send-AsShown fresh p)
act-IsTyping (emoji e) p t = run_typing_effect-IsTyping p _ t (unfold add_p2p_emoji in (refl, refl))
act-IsTyping (write text) p t = run_typing_effect-IsTyping p _ t (refl, refl)
act-IsTyping (search text) p t = run_typing_effect-IsTyping p _ t (refl, refl)
act-IsTyping (attach url fresh picked kind) p t =
    run_typing_effect-IsTyping p _ t (attach-AsShown url fresh picked kind p)
act-IsTyping (tap k id r) p t = run_typing_effect-IsTyping p _ t (refl, refl)
act-IsTyping (befriend k) p t = run_typing_effect-IsTyping p _ t (refl, refl)

acts-IsTyping : (actions : List Action) (p : Panel) → IsTyping p → IsTyping (acts actions p)
acts-IsTyping [] p t = t
acts-IsTyping (a ∷ rest) p t = acts-IsTyping rest (act a p) (act-IsTyping a p t)

timeout-hides : (p : Panel) → IsTyping p → (act timeout p).show_p2p_typing ≡ false
unfolding apply run_typing_effect typing_timeout
timeout-hides p (timed, shown) = elim (Bool-cases p.typing_timer) [
  | inl set ↦ rw (set, same_friend_refl p.ui.active_p2p_friend_id, eq_refl p.p2p_text) refl
  | inr unset ↦
      rw (unset, same_friend_refl p.ui.active_p2p_friend_id, eq_refl p.p2p_text, timed) unset
]

write-shows :
    (text : String) (p : Panel)
    → (act (write text) p).show_p2p_typing ≡ (
        if p.p2p_text == text
        then p.show_p2p_typing
        else not (is_idle p.ui.active_p2p_friend_id text))
unfolding apply run_typing_effect typing_effect
write-shows text p = rw (same_friend_refl p.ui.active_p2p_friend_id) (ground arith)

initial-IsTyping : IsTyping initial
unfolding initial
initial-IsTyping = (refl, refl)

abbrev pub visit : List Action → Panel
visit actions = acts actions initial

-- Whatever the user does in the panel, and whatever effects and timeouts run: the row that says that
-- the friend is typing is shown only while a friend is chosen and the user's own field holds more
-- than white space; the timeout hides it; and when the user writes another text, it is shown then
-- exactly if a friend is chosen and that text is more than white space, while the same text again
-- leaves it as it is.
pub acts-show_p2p_typing :
    (actions : List Action) (text : String)
    → (((visit actions).show_p2p_typing
          && is_idle (visit actions).ui.active_p2p_friend_id (visit actions).p2p_text)
        ≡ false)
      × ((act timeout (visit actions)).show_p2p_typing ≡ false)
      × ((act (write text) (visit actions)).show_p2p_typing ≡ (
          if (visit actions).p2p_text == text
          then (visit actions).show_p2p_typing
          else not (is_idle (visit actions).ui.active_p2p_friend_id text)))
acts-show_p2p_typing actions text =
    let t = acts-IsTyping actions initial initial-IsTyping in
    (t.1, timeout-hides (visit actions) t, write-shows text (visit actions))
