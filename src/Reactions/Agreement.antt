-- ===== src/Reactions/Agreement.antt =====
-- client/src/components/room/listener-panel.tsx and room-side-panel.tsx: reactions in the two chats,
-- which the code writes out twice.
use wave_cast.Common.{List, ◌≡◌}
use wave_cast.Private.Message.{P2pMessage, get_p2p_reaction_count, has_p2p_user_reaction}
use wave_cast.Private.Message.Laws as Private
use wave_cast.Private.Message.Laws.{p2p_reactable}
use wave_cast.Reactions.{QuickReaction}
use wave_cast.Reactions.Reactable.{tap_all, tap_all-agree}
use wave_cast.RoomChat.Message.{RoomChatMessage, get_room_reaction_count, has_room_user_reaction}
use wave_cast.RoomChat.Message.Laws as Room
use wave_cast.RoomChat.Message.Laws.{room_reactable}

-- A private message and a room message whose counts hold the user's own reactions, and which show
-- the same counts and own reactions, show the same after any sequence of taps on both.
pub chats-agree :
    (rs : List QuickReaction) (m : P2pMessage) (n : RoomChatMessage)
    → Private.IsTallied m
    → Room.IsTallied n
    → ((q : QuickReaction) → get_p2p_reaction_count m q ≡ get_room_reaction_count n q)
    → ((q : QuickReaction) → has_p2p_user_reaction m q ≡ has_room_user_reaction n q)
    → (q : QuickReaction)
    → (get_p2p_reaction_count (tap_all rs m) q ≡ get_room_reaction_count (tap_all rs n) q)
      × (has_p2p_user_reaction (tap_all rs m) q ≡ has_room_user_reaction (tap_all rs n) q)
chats-agree = tap_all-agree
