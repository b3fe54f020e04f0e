-- ===== src/RoomChat/Message/Laws.antt =====
-- client/src/components/room/room-side-panel.tsx: reactions over a whole history of taps.
use wave_cast.Common.{◌+◌, List, ◌≡◌, arith}
use wave_cast.Reactions.{QuickReaction, thumbs_up, thumbs_down, joy, heart, fire}
use wave_cast.Reactions.Laws.{one_if, IsCounted, IsCountedEmoji}
use wave_cast.Reactions.Reactable.{Reactable, tap_own, taps_own, tap_all, tap_all-tally}
use wave_cast.RoomChat.Message.{
  RoomChatMessage, room_tally, room_emoji_tally, react_by_emoji, get_room_reaction_count,
  has_room_user_reaction,
}

pub record IsTallied (m : RoomChatMessage) : Type 0 where
  pub thumbs : IsCounted (room_tally m)
  pub emojis : IsCountedEmoji (room_emoji_tally m)

pub react_by_emoji-IsTallied :
    (r : QuickReaction) (m : RoomChatMessage) → IsTallied m → IsTallied (react_by_emoji r m)
unfolding react_by_emoji
react_by_emoji-IsTallied thumbs_up m h = ground arith
react_by_emoji-IsTallied thumbs_down m h = ground arith
react_by_emoji-IsTallied joy m h = ground arith
react_by_emoji-IsTallied heart m h = ground arith
react_by_emoji-IsTallied fire m h = ground arith

pub tap-own :
    (r q : QuickReaction) (m : RoomChatMessage)
    → IsTallied m
    → has_room_user_reaction (react_by_emoji r m) q ≡ tap_own r (has_room_user_reaction m) q
unfolding react_by_emoji has_room_user_reaction
tap-own thumbs_up thumbs_up m h = ground arith
tap-own _ _ m h = ground arith

pub tap-count :
    (r q : QuickReaction) (m : RoomChatMessage)
    → IsTallied m
    → get_room_reaction_count (react_by_emoji r m) q + one_if (has_room_user_reaction m q)
      ≡ get_room_reaction_count m q + one_if (has_room_user_reaction (react_by_emoji r m) q)
unfolding react_by_emoji get_room_reaction_count has_room_user_reaction
tap-count thumbs_up thumbs_up m h = ground arith
tap-count _ _ m h = ground arith

instance abbrev pub room_reactable : Reactable RoomChatMessage
room_reactable = record {
  IsTallied = IsTallied;
  tap = react_by_emoji;
  count = get_room_reaction_count;
  own = has_room_user_reaction;
  keeps_tallied = react_by_emoji-IsTallied;
  own_tapped = tap-own;
  count_tapped = tap-count;
}

-- After any sequence of taps on a message whose counts hold the user's own reactions, the count of
-- each of the five reactions has changed by exactly what the user's own use of it has, and the
-- user is left with the reactions that the taps give one after another: a tap reverses its own
-- reaction and ends the others of its group, the thumbs or the emojis.
pub tap_all_lem :
    (rs : List QuickReaction) (q : QuickReaction) (m : RoomChatMessage)
    → IsTallied m
    → (get_room_reaction_count (tap_all rs m) q + one_if (has_room_user_reaction m q)
        ≡ get_room_reaction_count m q + one_if (has_room_user_reaction (tap_all rs m) q))
      × (has_room_user_reaction (tap_all rs m) q ≡ taps_own rs (has_room_user_reaction m) q)
tap_all_lem = tap_all-tally
