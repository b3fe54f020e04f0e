-- ===== src/Private/Conversations/Badges.antt =====
-- client/src/components/room/listener-panel.tsx: what an unread badge says.
use wave_cast.Common.{
  ℕ, String, Bool, true, false, not, ◌≡◌, refl, sym, [], ◌∷◌, any, lookup, lookup-insert, or_else,
  any-append, ◌==◌, if◌then◌else◌, arith, eq_iff, Bool-cases, Option-cases, inl, inr,
}
use mathlib.Core.Path.{subst}
use wave_cast.Private.Conversations.{
  P2pConversation, Conversations, initial_conversations, append_message, update_message,
  toggle_p2p_emoji_reaction, make_seed_conversation,
}
use wave_cast.Private.Conversations.Unread.{
  BadgesBacked, any-map, initial-Every, initial-BadgesBacked, mark_as_read_noop,
  append_message-BadgesBacked, toggle_p2p_emoji_reaction-BadgesBacked,
}
use wave_cast.Private.Message.{P2pMessage, toggle_like, toggle_emoji}
use wave_cast.Private.Panel.{Panel, initial}
use wave_cast.Private.Panel.Reachable.{Reach, reachable_kept}
use wave_cast.Private.Panel.Send.{thread}
use wave_cast.Private.Visible.{no_messages}
use wave_cast.Reactions.{QuickReaction, thumbs_up}
use wave_cast.Types.{Person}

abbrev pub unread_badge : String → Conversations → ℕ
unread_badge k current = (or_else (lookup k current) no_messages).unread_count

-- The user has written in the conversation.
abbrev pub has_written : String → Conversations → Bool
has_written k current = any (λ m. m.is_you) (thread k current)

-- The badge is that of the start, or gone where the user has written.
abbrev Tells : String → P2pConversation → Type 0
Tells k c =
    c.unread_count
    ≡ (if any (λ m. m.is_you) c.messages then 0 else unread_badge k initial_conversations)

abbrev IsLedger : Conversations → Type 0
IsLedger current = (k : String) → Tells k (or_else (lookup k current) no_messages)

append-IsLedger :
    (k : String) (m : P2pMessage) (current : Conversations)
    → m.is_you ≡ true
    → IsLedger current
    → IsLedger (append_message k m current)
unfolding append_message
append-IsLedger k m current own h j =
    subst (λ o. Tells j (or_else o no_messages)) (sym (lookup-insert k j _ current))
      (elim (Bool-cases (k == j)) [
        | inl same ↦
            rw same (ground (arith, any-append (λ q. q.is_you) (thread k current) (m ∷ [])))
        | inr other ↦ rw other (h j)
      ])

update-IsLedger :
    (k id : String) (f : P2pMessage → P2pMessage) (current : Conversations)
    → ((m : P2pMessage) → (f m).is_you ≡ m.is_you)
    → IsLedger current
    → IsLedger (update_message k id f current)
unfolding update_message
update-IsLedger k id f current same_author h j = elim (Option-cases (lookup k current)) [
  | inl missing ↦ rw (missing, update_message) (h j)
  | inr (c, found) ↦
      let written =
        any-map (λ m. m.is_you) (λ m. if not (m.id == id) then m else f m) c.messages
          (λ m. ground (arith, same_author m)) in
      rw (found, update_message)
        (subst (λ o. Tells j (or_else o no_messages)) (sym (lookup-insert k j _ current))
          (elim (Bool-cases (k == j)) [
            | inl same ↦ rw (same, written) (ground (arith, h k, found, eq_iff k j))
            | inr other ↦ rw other (h j)
          ]))
]

tap-IsLedger :
    (k id : String) (r : QuickReaction) (current : Conversations)
    → IsLedger current
    → IsLedger (toggle_p2p_emoji_reaction k id r current)
unfolding toggle_p2p_emoji_reaction toggle_like toggle_emoji
tap-IsLedger k id thumbs_up current h = update-IsLedger k id _ current (λ m. refl) h
tap-IsLedger k id _ current h = update-IsLedger k id _ current (λ m. refl) h

seed_not_own :
    (person : Person) (i : ℕ)
    → any (λ m. m.is_you) (make_seed_conversation person i).messages ≡ false
unfolding make_seed_conversation
seed_not_own person i = ground arith

initial-IsLedger : IsLedger initial_conversations
initial-IsLedger k =
    let not_own = initial-Every (λ c. any (λ m. m.is_you) c.messages ≡ false) seed_not_own in
    elim (Option-cases (lookup k initial_conversations)) [
      | inl missing ↦ ground arith
      | inr (c, found) ↦ ground (arith, not_own k c found)
    ]

-- In every state that handlers and effects reach, in whatever order: the unread badge of a
-- conversation is the one that it started with, until the user has written in it, and is gone then;
-- neither opening it nor a reaction changes it.
pub reachable-unread_badge :
    (k : String) {p : Panel}
    → Reach initial p
    → unread_badge k p.p2p_conversations
      ≡ (if has_written k p.p2p_conversations then 0 else unread_badge k initial_conversations)
unfolding initial
reachable-unread_badge k r =
    (reachable_kept (λ c. BadgesBacked c × IsLedger c) (λ j c b. mark_as_read_noop j c b.0)
        (λ j m c own b. (append_message-BadgesBacked j m c b.0, append-IsLedger j m c own b.1))
        (λ j id t c b.
          (toggle_p2p_emoji_reaction-BadgesBacked j id t c b.0, tap-IsLedger j id t c b.1))
        r (initial-BadgesBacked, initial-IsLedger)).1
      k
