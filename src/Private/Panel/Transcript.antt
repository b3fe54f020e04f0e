-- ===== src/Private/Panel/Transcript.antt =====
-- client/src/components/room/listener-panel.tsx: the private conversations over a whole visit.
use mathlib.Core.List.{append-nil, append_assoc}
use wave_cast.Common.{
  String, true, not, ◌≡◌, refl, sym, ◌∙◌, ap, List, [], ◌∷◌, ◌++◌, map, lookup, or_else, arith,
  ◌==◌, if◌then◌else◌, Bool-cases, Option-cases, inl, inr, eq_iff,
}
use wave_cast.Private.Conversations.{
  Conversations, initial_conversations, append_message, update_message, toggle_p2p_emoji_reaction,
}
use wave_cast.Private.Conversations.Unread.{
  BadgesBacked, mark_as_read_noop, initial-BadgesBacked, append_message-BadgesBacked,
  toggle_p2p_emoji_reaction-BadgesBacked,
}
use wave_cast.Private.Message.{P2pMessage, toggle_like, toggle_emoji}
use wave_cast.Private.Panel.{
  Panel, initial, sync_unread_effect, handle_open_chat_with_person, handle_open_listener_detail,
  handle_back_from_listener_detail,
}
use wave_cast.Private.Compose.{add_p2p_emoji}
use wave_cast.Private.Panel.Reachable.{
  Action, apply, here, next, open_chat, open_detail, back, toggle_thread, sync_unread, typing,
  timeout, friend, reply, all_listeners, drawer, send, emoji, write, search, attach, tap, befriend,
  typing-keeps, timeout-keeps, reply-keeps, all_listeners-keeps, drawer-keeps, friend-keeps,
  toggle_thread-keeps, reachable_kept,
}
use wave_cast.Private.Panel.Send.{
  Line, line, thread, sent, shared, thread-insert, send-lines, attach-lines, sent-send,
}
use wave_cast.Private.Visible.{no_messages}
use wave_cast.Reactions.{QuickReaction, thumbs_up}

-- What an action adds to a conversation.
abbrev pub said : String → Action → Panel → List Line
said k (send fresh) p = sent k fresh p
said k (attach url fresh picked kind) p = shared k url fresh picked kind p
said k _ p = []

-- The panel after a visit, and what the user said in a conversation meanwhile.
pub visit : List Action → Panel → Panel
visit [] p = p
visit (a ∷ rest) p = visit rest (apply a p)

abbrev pub all_said : String → List Action → Panel → List Line
all_said k [] p = []
all_said k (a ∷ rest) p = said k a p ++ all_said k rest (apply a p)

lines_of : String → Panel → List Line
lines_of k p = map line (thread k p.p2p_conversations)

-- An action that leaves the conversations alone adds nothing.
nothing_added :
    (k : String) (a : Action) (p : Panel)
    → (apply a p).p2p_conversations ≡ p.p2p_conversations
    → lines_of k (apply a p) ≡ lines_of k p ++ []
unfolding lines_of
nothing_added k a p same =
    ap (λ c. map line (thread k c)) same
    ∙ sym (append-nil (map line (thread k p.p2p_conversations)))

map-line :
    (f : P2pMessage → P2pMessage) (ms : List P2pMessage)
    → ((m : P2pMessage) → line (f m) ≡ line m)
    → map line (map f ms) ≡ map line ms
map-line f [] h = refl
map-line f (m ∷ ms) h = rw (h m, map-line f ms h) refl

update-lines :
    (k j id : String) (f : P2pMessage → P2pMessage) (current : Conversations)
    → ((m : P2pMessage) → line (f m) ≡ line m)
    → map line (thread k (update_message j id f current)) ≡ map line (thread k current)
unfolding update_message
update-lines k j id f current h = elim (Option-cases (lookup j current)) [
  | inl missing ↦ rw (missing, update_message) refl
  | inr (c, found) ↦
      rw (found, update_message)
        (ap (map line) (thread-insert k j _ current) ∙ elim (Bool-cases (j == k)) [
          | inl same ↦ rw same (
              map-line (λ m. if not (m.id == id) then m else f m) c.messages
                (λ m. ground (arith, h m))
              ∙ ap (λ o. map line (or_else o no_messages).messages) (sym found)
              ∙ ap (λ i. map line (thread i current)) ((eq_iff j k).0 same))
          | inr other ↦ rw other refl
        ])
]

tap-lines :
    (k j id : String) (r : QuickReaction) (current : Conversations)
    → map line (thread k (toggle_p2p_emoji_reaction j id r current)) ≡ map line (thread k current)
unfolding toggle_p2p_emoji_reaction toggle_like toggle_emoji
tap-lines k j id thumbs_up current = update-lines k j id _ current (λ m. refl)
tap-lines k j id _ current = update-lines k j id _ current (λ m. refl)

own_kept :
    (j : String) (m : P2pMessage) (c : Conversations)
    → m.is_you ≡ true
    → BadgesBacked c
    → BadgesBacked (append_message j m c)
own_kept j m c own b = append_message-BadgesBacked j m c b

-- One action, in a state where marking a conversation as read changes nothing.
apply-lines :
    (k : String) (a : Action) (p : Panel)
    → BadgesBacked p.p2p_conversations
    → lines_of k (apply a p) ≡ lines_of k p ++ said k a p
unfolding lines_of apply
apply-lines k (open_chat person) p b =
    nothing_added k (open_chat person) p (unfold handle_open_chat_with_person in refl)
apply-lines k (open_detail person) p b =
    nothing_added k (open_detail person) p (unfold handle_open_listener_detail in refl)
apply-lines k back p b = nothing_added k back p (unfold handle_back_from_listener_detail in refl)
apply-lines k toggle_thread p b = nothing_added k toggle_thread p (
    toggle_thread-keeps BadgesBacked mark_as_read_noop own_kept
      toggle_p2p_emoji_reaction-BadgesBacked p b)
apply-lines k sync_unread p b = nothing_added k sync_unread p (unfold sync_unread_effect in refl)
apply-lines k typing p b = nothing_added k typing p (typing-keeps p)
apply-lines k timeout p b = nothing_added k timeout p (timeout-keeps p)
apply-lines k friend p b = nothing_added k friend p (
    friend-keeps BadgesBacked mark_as_read_noop own_kept toggle_p2p_emoji_reaction-BadgesBacked p b)
apply-lines k (reply m) p b = nothing_added k (reply m) p (reply-keeps m p)
apply-lines k (all_listeners o) p b = nothing_added k (all_listeners o) p (all_listeners-keeps o p)
apply-lines k (drawer o) p b = nothing_added k (drawer o) p (drawer-keeps o p)
apply-lines k (send fresh) p b = send-lines k fresh p
apply-lines k (emoji e) p b = nothing_added k (emoji e) p (unfold add_p2p_emoji in refl)
apply-lines k (write text) p b = nothing_added k (write text) p refl
apply-lines k (search text) p b = nothing_added k (search text) p refl
apply-lines k (attach url fresh picked kind) p b = attach-lines k url fresh picked kind p
apply-lines k (tap j id r) p b =
    tap-lines k j id r p.p2p_conversations
    ∙ sym (append-nil (map line (thread k p.p2p_conversations)))
apply-lines k (befriend j) p b = nothing_added k (befriend j) p refl

visit-lines :
    (k : String) (actions : List Action) (p : Panel)
    → BadgesBacked p.p2p_conversations
    → lines_of k (visit actions p) ≡ lines_of k p ++ all_said k actions p
unfolding visit
visit-lines k [] p b = sym (append-nil (lines_of k p))
visit-lines k (a ∷ rest) p b =
    visit-lines k rest (apply a p) (
      reachable_kept BadgesBacked mark_as_read_noop own_kept toggle_p2p_emoji_reaction-BadgesBacked
        (next here a) b)
    ∙ ap (λ l. l ++ all_said k rest (apply a p)) (apply-lines k a p b)
    ∙ append_assoc (lines_of k p) (said k a p) (all_said k rest (apply a p))

-- Whatever the user does in the panel, and whatever effects and timeouts run: a conversation holds
-- the messages that it began with and then those that the user sent in it, in this order, each by
-- the user, under its id, with the text of the field without the white space around it and the name
-- and text of the message chosen to be answered, and none for a blank text; a file that is shared
-- adds its name without a quotation. Sending again adds nothing.
pub visit-thread :
    (k : String) (actions : List Action) (fresh again : String)
    → (map line (thread k (visit actions initial).p2p_conversations)
        ≡ map line (thread k initial_conversations) ++ all_said k actions initial)
      × (all_said k (send fresh ∷ send again ∷ []) (visit actions initial)
          ≡ sent k fresh (visit actions initial))
unfolding lines_of initial apply
visit-thread k actions fresh again = (
  visit-lines k actions initial initial-BadgesBacked,
  let q = visit actions initial in
      ap (λ l. sent k fresh q ++ l) (append-nil _ ∙ sent-send k fresh again q)
      ∙ append-nil (sent k fresh q),
)
