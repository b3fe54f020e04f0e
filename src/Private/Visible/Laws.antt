-- ===== src/Private/Visible/Laws.antt =====
-- client/src/components/room/listener-panel.tsx: the order of the list of conversations.
use mathlib.Core.List.{Perm}
use wave_cast.Common.{
  ◌≤◌, ◌<◌, String, true, false, ◌≡◌, ◌⊎◌, List, [], ◌∷◌, Option, map, filter, All, arith, trim,
  to_lower_case,
}
use wave_cast.Common.Int.{is_positive}
use wave_cast.Common.Sort.{sort-perm, sort-IsSorted, IsSorted}
use wave_cast.Private.Conversations.{Conversations}
use wave_cast.Private.Visible.{
  P2pChatListEntry, to_entry, matches_term, last_length, compare_entries, visible_conversations,
}
use wave_cast.Types.{Person, SpeakerRequest}

-- `a` may stand before `b`: it has more unread messages, or as many and no shorter a last message.
abbrev Before : P2pChatListEntry → P2pChatListEntry → Type 0
Before a b =
    (b.unread_count < a.unread_count)
    ⊎ ((a.unread_count ≡ b.unread_count) × (last_length b ≤ last_length a))

Before-of_compare :
    (a b : P2pChatListEntry) → is_positive (compare_entries a b) ≡ false → Before a b
unfolding compare_entries
Before-of_compare a b h = grind arith

compare_turn :
    (a b : P2pChatListEntry)
    → is_positive (compare_entries a b) ≡ true
    → is_positive (compare_entries b a) ≡ false
unfolding compare_entries
compare_turn a b h = ground arith

compare_chain :
    (a b c : P2pChatListEntry)
    → is_positive (compare_entries a b) ≡ false
    → is_positive (compare_entries b c) ≡ false
    → is_positive (compare_entries a c) ≡ false
unfolding compare_entries
compare_chain a b c h k = ground arith

abbrev pub Ordered : List P2pChatListEntry → Type 0
Ordered [] = Unit
Ordered (x ∷ xs) = All (Before x) xs × Ordered xs

All-Before :
    (x : P2pChatListEntry) (xs : List P2pChatListEntry)
    → All (λ y. is_positive (compare_entries x y) ≡ false) xs
    → All (Before x) xs
All-Before x [] h = h
All-Before x (y ∷ ys) (e, h) = (Before-of_compare x y e, All-Before x ys h)

Ordered-of_sorted : (xs : List P2pChatListEntry) → IsSorted compare_entries xs → Ordered xs
Ordered-of_sorted [] h = h
Ordered-of_sorted (x ∷ xs) (e, h) = (All-Before x xs e, Ordered-of_sorted xs h)

-- The drawer lists the entries of those participants that match the search term, each once, with
-- more unread messages first and among equals the longer last message first.
pub visible_conversations_lem :
    (chat_search : String) (people : List Person) (current : Conversations) (active : Option String)
    (requests : List SpeakerRequest)
    → Ordered (visible_conversations chat_search people current active requests)
      × Perm (visible_conversations chat_search people current active requests) (
          filter
            (matches_term (to_lower_case (trim chat_search)))
            (map (to_entry active requests current) people))
unfolding visible_conversations
visible_conversations_lem chat_search people current active requests = (
  Ordered-of_sorted _ (sort-IsSorted compare_entries compare_turn compare_chain found),
  sort-perm compare_entries found,
)
  where
    found : List P2pChatListEntry
    found =
        filter (matches_term (to_lower_case (trim chat_search)))
          (map (to_entry active requests current) people)
