-- ===== src/Private/Message/Laws.antt =====
-- client/src/components/room/listener-panel.tsx: what a reaction changes of a message.
use wave_cast.Common.{ℕ, ◌+◌, ◌-◌, false, not, ◌≡◌, if◌then◌else◌, arith}
use wave_cast.Reactions.{
  like, dislike, QuickReaction, thumbs_up, thumbs_down, joy, heart, fire, same_reaction,
}
use wave_cast.Reactions.Laws.{
  one_if, same_group, IsCounted, IsCountedEmoji, react-IsCounted, react_emoji-IsCountedEmoji,
}
use wave_cast.Reactions.Reactable.{Reactable}
use wave_cast.Private.Message.{
  P2pMessage, tally, emoji_tally, toggle_reaction, get_p2p_reaction_count, has_p2p_user_reaction,
}

-- The user's own reactions to the message are among those counted.
pub record IsTallied (m : P2pMessage) : Type 0 where
  pub thumbs : IsCounted (tally m)
  pub emojis : IsCountedEmoji (emoji_tally m)

-- The count of everyone else.
abbrev others_count : P2pMessage → QuickReaction → ℕ
others_count m r = get_p2p_reaction_count m r - one_if (has_p2p_user_reaction m r)

pub toggle_reaction-IsTallied :
    (r : QuickReaction) (m : P2pMessage) → IsTallied m → IsTallied (toggle_reaction r m)
unfolding toggle_reaction
toggle_reaction-IsTallied thumbs_up m h = record {
  thumbs = react-IsCounted like (tally m) h.thumbs;
  emojis = h.emojis;
}
toggle_reaction-IsTallied thumbs_down m h = record {
  thumbs = react-IsCounted dislike (tally m) h.thumbs;
  emojis = h.emojis;
}
toggle_reaction-IsTallied joy m h = record {
  thumbs = h.thumbs;
  emojis = react_emoji-IsCountedEmoji joy (emoji_tally m) tt h.emojis;
}
toggle_reaction-IsTallied heart m h = record {
  thumbs = h.thumbs;
  emojis = react_emoji-IsCountedEmoji heart (emoji_tally m) tt h.emojis;
}
toggle_reaction-IsTallied fire m h = record {
  thumbs = h.thumbs;
  emojis = react_emoji-IsCountedEmoji fire (emoji_tally m) tt h.emojis;
}

-- For a message whose counts hold the user's own reactions, a tap on a quick reaction leaves the
-- count of everyone else at each of the five reactions as it is; it reverses the user's own use of
-- the reaction, ends the user's use of the others in its group (the thumbs, or the emojis) and
-- leaves the other group.
pub toggle_reaction_lem :
    (r q : QuickReaction) (m : P2pMessage)
    → IsTallied m
    → (others_count (toggle_reaction r m) q ≡ others_count m q)
      × (has_p2p_user_reaction (toggle_reaction r m) q ≡ (
          if same_reaction r q
          then not (has_p2p_user_reaction m q)
          else (if same_group r q then false else has_p2p_user_reaction m q)))
unfolding toggle_reaction get_p2p_reaction_count has_p2p_user_reaction
toggle_reaction_lem thumbs_up thumbs_up m h = ground arith
toggle_reaction_lem _ _ m h = ground arith

pub toggle_reaction-count :
    (r q : QuickReaction) (m : P2pMessage)
    → IsTallied m
    → get_p2p_reaction_count (toggle_reaction r m) q + one_if (has_p2p_user_reaction m q)
      ≡ get_p2p_reaction_count m q + one_if (has_p2p_user_reaction (toggle_reaction r m) q)
unfolding toggle_reaction get_p2p_reaction_count has_p2p_user_reaction
toggle_reaction-count thumbs_up thumbs_up m h = ground arith
toggle_reaction-count _ _ m h = ground arith

instance abbrev pub p2p_reactable : Reactable P2pMessage
p2p_reactable = record {
  IsTallied = IsTallied;
  tap = toggle_reaction;
  count = get_p2p_reaction_count;
  own = has_p2p_user_reaction;
  keeps_tallied = toggle_reaction-IsTallied;
  own_tapped = λ r q m h. (toggle_reaction_lem r q m h).1;
  count_tapped = toggle_reaction-count;
}
