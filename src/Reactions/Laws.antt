-- ===== src/Reactions/Laws.antt =====
-- A tap on a reaction keeps the user's own reactions among those counted.
use wave_cast.Common.{ℕ, ◌≤◌, ◌≡◌, Bool, true, false, not, or_else, arith, if◌then◌else◌}
use wave_cast.Reactions.{
  ReactionAction, like, dislike, QuickReaction, thumbs_up, thumbs_down, joy, heart, fire, Tally,
  react, is_action, EmojiTally, react_emoji, is_reaction,
}

abbrev pub one_if : Bool → ℕ
one_if true = 1
one_if false = 0

-- The user's own reaction is among those counted.
pub record IsCounted (t : Tally) : Type 0 where
  pub up : one_if (is_action like t.own) ≤ t.likes
  pub down : one_if (is_action dislike t.own) ≤ t.dislikes

pub record IsCountedEmoji (t : EmojiTally) : Type 0 where
  pub no_thumbs_up : is_reaction thumbs_up t.own ≡ false
  pub no_thumbs_down : is_reaction thumbs_down t.own ≡ false
  pub joys : one_if (is_reaction joy t.own) ≤ or_else (t.counts joy) 0
  pub hearts : one_if (is_reaction heart t.own) ≤ or_else (t.counts heart) 0
  pub fires : one_if (is_reaction fire t.own) ≤ or_else (t.counts fire) 0

pub react-IsCounted : (a : ReactionAction) (t : Tally) → IsCounted t → IsCounted (react a t)
unfolding react
react-IsCounted like t c = ground arith
react-IsCounted dislike t c = ground arith

abbrev IsEmoji : QuickReaction → Type 0
IsEmoji thumbs_up = ⊥
IsEmoji thumbs_down = ⊥
IsEmoji _ = Unit

pub react_emoji-IsCountedEmoji :
    (r : QuickReaction) (t : EmojiTally)
    → IsEmoji r
    → IsCountedEmoji t
    → IsCountedEmoji (react_emoji r t)
unfolding react_emoji
react_emoji-IsCountedEmoji joy t e c = ground arith
react_emoji-IsCountedEmoji _ t e c = ground arith

abbrev is_thumb : QuickReaction → Bool
is_thumb thumbs_up = true
is_thumb thumbs_down = true
is_thumb _ = false

-- A thumb replaces the other thumb, and an emoji any other emoji.
abbrev pub same_group : QuickReaction → QuickReaction → Bool
same_group r q = if is_thumb r then is_thumb q else not (is_thumb q)
