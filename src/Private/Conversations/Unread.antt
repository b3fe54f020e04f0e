-- ===== src/Private/Conversations/Unread.antt =====
-- client/src/components/room/listener-panel.tsx: what becomes of an unread badge.
use wave_cast.Common.{
  ℕ, suc, String, Bool, true, not, ◌≡◌, ◌≢◌, refl, List, [], ◌∷◌, some, any, map, lookup, insert,
  lookup-insert, truthy, arith, if◌then◌else◌, Bool-cases, Option-cases, inl, inr, ◌==◌, ◌∙◌, sym,
}
use wave_cast.Reactions.{QuickReaction, thumbs_up}
use wave_cast.Types.{Person}
use wave_cast.Private.Conversations.{
  P2pConversation, Conversations, mark_conversation_thread_as_read, update_message, append_message,
  seed_from, make_seed_conversation, initial_conversations, toggle_p2p_emoji_reaction,
  room_participants,
}
use wave_cast.Private.Message.{P2pMessage, toggle_like, toggle_emoji}

abbrev any_unread : List P2pMessage → Bool
any_unread = any (λ m. truthy m.is_unread)

-- An unread badge stands only on a conversation with an unread message.
abbrev IsBacked : P2pConversation → Type 0
IsBacked c = c.unread_count ≢ 0 → any_unread c.messages ≡ true

-- Each conversation has the property.
abbrev pub Every : (P2pConversation → Type 0) → Conversations → Type 0
Every Q current = (k : String) (c : P2pConversation) → lookup k current ≡ some c → Q c

abbrev pub BadgesBacked : Conversations → Type 0
BadgesBacked = Every IsBacked

pub mark_as_read_noop :
    (k : String) (current : Conversations)
    → BadgesBacked current
    → mark_conversation_thread_as_read k current ≡ current
unfolding mark_conversation_thread_as_read
mark_as_read_noop k current b = elim (Option-cases (lookup k current)) [
  | inl missing ↦ rw (missing, mark_conversation_thread_as_read) refl
  | inr (c, found) ↦ rw (found, mark_conversation_thread_as_read) (ground (arith, b k c found))
]

Every-insert :
    (Q : P2pConversation → Type 0) (k : String) (c : P2pConversation) (current : Conversations)
    → Q c
    → Every Q current
    → Every Q (insert k c current)
Every-insert Q k c current h b j d e = elim (Bool-cases (k == j)) [
  | inl same ↦
      let p : some c ≡ some d = sym (rw (lookup-insert, same) refl) ∙ e in
      let q : c ≡ d = cc in rw (← q) h
  | inr other ↦ b j d (sym (rw (lookup-insert k j c current, other) refl) ∙ e)
]

-- A test that a change of messages does not touch.
pub any-map :
    (g : P2pMessage → Bool) (f : P2pMessage → P2pMessage) (ms : List P2pMessage)
    → ((m : P2pMessage) → g (f m) ≡ g m)
    → any g (map f ms) ≡ any g ms
any-map g f [] h = refl
any-map g f (m ∷ ms) h = rw (h m, any-map g f ms h) refl

update_message-BadgesBacked :
    (friend id : String) (f : P2pMessage → P2pMessage) (current : Conversations)
    → ((m : P2pMessage) → (f m).is_unread ≡ m.is_unread)
    → BadgesBacked current
    → BadgesBacked (update_message friend id f current)
unfolding update_message
update_message-BadgesBacked friend id f current h b = elim (Option-cases (lookup friend current)) [
  | inl missing ↦ rw (missing, update_message) b
  | inr (c, found) ↦
      rw (found, update_message)
        (Every-insert IsBacked friend _ current
          (λ n.
            any-map (λ m. truthy m.is_unread) (λ m. if not (m.id == id) then m else f m) c.messages
              (λ m. ground (arith, h m))
            ∙ b friend c found n)
          b)
]

pub toggle_p2p_emoji_reaction-BadgesBacked :
    (friend id : String) (r : QuickReaction) (current : Conversations)
    → BadgesBacked current
    → BadgesBacked (toggle_p2p_emoji_reaction friend id r current)
unfolding toggle_p2p_emoji_reaction toggle_like toggle_emoji
toggle_p2p_emoji_reaction-BadgesBacked friend id thumbs_up current b =
    update_message-BadgesBacked friend id _ current (λ m. refl) b
toggle_p2p_emoji_reaction-BadgesBacked friend id _ current b =
    update_message-BadgesBacked friend id _ current (λ m. refl) b

pub append_message-BadgesBacked :
    (friend : String) (m : P2pMessage) (current : Conversations)
    → BadgesBacked current
    → BadgesBacked (append_message friend m current)
unfolding append_message
append_message-BadgesBacked friend m current b =
    Every-insert IsBacked friend _ current (λ n. absurd (n refl)) b

seed-IsBacked : (person : Person) (i : ℕ) → IsBacked (make_seed_conversation person i)
unfolding make_seed_conversation
seed-IsBacked person i n = ground arith

seed_from-Every :
    (Q : P2pConversation → Type 0)
    → ((person : Person) (i : ℕ) → Q (make_seed_conversation person i))
    → (i : ℕ) (people : List Person) (acc : Conversations) → Every Q acc
    → Every Q (seed_from i people acc)
unfolding seed_from
seed_from-Every Q h i [] acc b = b
seed_from-Every Q h i (person ∷ rest) acc b =
    seed_from-Every Q h (suc i) rest _ (Every-insert Q person.id _ acc (h person i) b)

pub initial-Every :
    (Q : P2pConversation → Type 0)
    → ((person : Person) (i : ℕ) → Q (make_seed_conversation person i))
    → Every Q initial_conversations
unfolding initial_conversations lookup
initial-Every Q h = seed_from-Every Q h 0 room_participants [] (λ k c e. absurd (cc))

pub initial-BadgesBacked : BadgesBacked initial_conversations
initial-BadgesBacked = initial-Every IsBacked seed-IsBacked
