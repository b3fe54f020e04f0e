-- ===== src/Reactions.antt =====
-- client/src/components/room/listener-panel.tsx: the blocks that count reactions, and the types of
-- reactions, which room-side-panel.tsx has as well.
pub mod Laws
pub mod Reactable
pub mod Agreement
use wave_cast.Common.{
  ℕ, ◌+◌, ◌-◌, Bool, true, false, Option, none, some, List, [], ◌∷◌, or_else, if◌then◌else◌,
}

-- `"like" | "dislike"`
pub data ReactionAction : Type 0 where
  like dislike : ReactionAction

-- The five quick reactions: thumbs up and down, the tears of joy, the heart and the fire.
pub data QuickReaction : Type 0 where
  thumbs_up thumbs_down joy heart fire : QuickReaction

abbrev pub quick_reactions : List QuickReaction
quick_reactions = thumbs_up ∷ thumbs_down ∷ joy ∷ heart ∷ fire ∷ []

abbrev pub is_action : ReactionAction → Option ReactionAction → Bool
is_action like (some like) = true
is_action dislike (some dislike) = true
is_action _ _ = false

abbrev pub same_reaction : QuickReaction → QuickReaction → Bool
same_reaction thumbs_up thumbs_up = true
same_reaction thumbs_down thumbs_down = true
same_reaction joy joy = true
same_reaction heart heart = true
same_reaction fire fire = true
same_reaction _ _ = false

abbrev pub is_reaction : QuickReaction → Option QuickReaction → Bool
is_reaction r none = false
is_reaction r (some q) = same_reaction q r

-- `likes`, `dislikes` and the user's own reaction, as the block reads and writes them.
pub record Tally : Type 0 where
  pub likes : ℕ
  pub dislikes : ℕ
  pub own : Option ReactionAction

-- `Math.max(0, count - 1)` for the reaction that is taken back.
abbrev take_back : Option ReactionAction → Tally → Tally
take_back none t = t
take_back (some like) t = record t { likes = t.likes - 1 }
take_back (some dislike) t = record t { dislikes = t.dislikes - 1 }

abbrev count_up : ReactionAction → Tally → Tally
count_up like t = record t { likes = t.likes + 1 }
count_up dislike t = record t { dislikes = t.dislikes + 1 }

unfoldable pub react : ReactionAction → Tally → Tally
react action t =
    if is_action action t.own
    then record (take_back (some action) t) { own = none }
    else record (count_up action (take_back t.own t)) { own = some action }

-- A partial record of counts, keyed by the quick reactions.
abbrev pub EmojiCounts : Type 0
EmojiCounts = QuickReaction → Option ℕ

abbrev pub no_emoji : EmojiCounts
no_emoji _ = none

abbrev pub set_count : QuickReaction → ℕ → EmojiCounts → EmojiCounts
set_count r n counts q = if same_reaction r q then some n else counts q

pub record EmojiTally : Type 0 where
  pub counts : EmojiCounts
  pub own : Option QuickReaction

-- The count of the reaction that another one replaces; the thumbs are not counted here.
abbrev take_back_emoji : Option QuickReaction → EmojiCounts → EmojiCounts
take_back_emoji none counts = counts
take_back_emoji (some thumbs_up) counts = counts
take_back_emoji (some thumbs_down) counts = counts
take_back_emoji (some r) counts = set_count r (or_else (counts r) 0 - 1) counts

unfoldable pub react_emoji : QuickReaction → EmojiTally → EmojiTally
react_emoji r t =
    let current_count = or_else (t.counts r) 0 in
    if is_reaction r t.own
    then record { counts = set_count r (current_count - 1) t.counts; own = none }
    else record {
      counts = set_count r (current_count + 1) (take_back_emoji t.own t.counts);
      own = some r;
    }
