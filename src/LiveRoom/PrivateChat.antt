-- ===== src/LiveRoom/PrivateChat.antt =====
-- client/src/components/room/live-room-page.tsx, common/top-bar.tsx and listener-panel.tsx: the
-- button of the private chat in the bar, which acts on the listener panel through the shared store.
use wave_cast.Common.{
  String, true, false, List, ◌≡◌, refl, ap, ◌∙◌, none, some, arith, if◌then◌else◌, is_empty, insert,
}
use wave_cast.LiveRoom.Page.{Page, default_private_chat_target, handle_open_private_chat}
use wave_cast.LiveRoom.View.{page_view}
use wave_cast.MockData.{room}
use wave_cast.Private.Conversations.{
  total_unread_count, room_participants, mark_conversation_thread_as_read,
}
use wave_cast.Private.Drawer.Rows.{count_badge}
use wave_cast.Private.Panel.{
  Panel, initial, active_friend, typing_effect, friend_effect, sync_unread_effect, same_friend,
}
use wave_cast.Private.Panel.Reachable.{Reach, reachable-mark_noop}
use wave_cast.TopBar.Network.{Network}
use wave_cast.Types.{Person, Room, UserRole}

-- The click, and the effects of the panel that it sets off: if the active friend is another one
-- now, that on the text and the friend and that on the friend; and that on the unread messages.
pub click_private_chat : Page → Panel → Panel
unfolding handle_open_private_chat friend_effect sync_unread_effect
click_private_chat page p =
    let clicked = record p {
      ui = (handle_open_private_chat room (record page { ui = p.ui })).0.ui;
    } in
    sync_unread_effect (
      if same_friend p.ui.active_p2p_friend_id clicked.ui.active_p2p_friend_id
      then clicked
      else friend_effect (typing_effect clicked))

chosen :
    (page : Page) (p : Panel)
    → (handle_open_private_chat room (record page { ui = p.ui })).0.ui
      ≡ record (p.ui) { active_p2p_friend_id = some "user_alice" }
unfolding handle_open_private_chat default_private_chat_target insert
chosen page p = refl

alice_of_room :
    (p : Panel)
    → p.ui.active_p2p_friend_id ≡ some "user_alice"
    → active_friend p ≡ default_private_chat_target room
unfolding active_friend default_private_chat_target room_participants insert
alice_of_room p e = rw (active_friend, e) refl

-- What the effects make of the panel for a friend.
friend_effect-opens :
    (p : Panel) (k : String)
    → p.ui.active_p2p_friend_id ≡ some k
    → is_empty k ≡ false
    → (friend_effect p).is_p2p_drawer_open ≡ true
unfolding friend_effect
friend_effect-opens p k e named = ground arith

typing_effect-keeps :
    (p : Panel)
    → ((typing_effect p).ui ≡ p.ui) × ((typing_effect p).p2p_conversations ≡ p.p2p_conversations)
unfolding typing_effect
typing_effect-keeps p = ground arith

friend_effect-ui : (p : Panel) → (friend_effect p).ui ≡ p.ui
unfolding friend_effect
friend_effect-ui p = ground arith

friend_effect-keeps :
    (p : Panel) (k : String)
    → p.ui.active_p2p_friend_id ≡ some k
    → mark_conversation_thread_as_read k p.p2p_conversations ≡ p.p2p_conversations
    → (friend_effect p).p2p_conversations ≡ p.p2p_conversations
unfolding friend_effect
friend_effect-keeps p k e same = ground arith

abbrev with_alice : Panel → Panel
with_alice p = record p { ui = record (p.ui) { active_p2p_friend_id = some "user_alice" } }

clicked :
    (page : Page) (p : Panel)
    → p.ui.active_p2p_friend_id ≡ none
    → click_private_chat page p ≡ sync_unread_effect (friend_effect (typing_effect (with_alice p)))
unfolding click_private_chat handle_open_private_chat default_private_chat_target insert
clicked page p closed = ground (arith, chosen page p)

badge_of :
    (r : Room) (everybody : List Person) (role : UserRole) (network : Network) (page : Page)
    → (page_view r everybody role network page).bar.private_chat
      ≡ some (record { is_disabled = false; badge = count_badge page.ui.p2p_unread_count })
unfolding page_view
badge_of r everybody role network page = refl

-- While no chat is open, in any state that the panel's handlers and effects reach, a click on the
-- button of the private chat opens the drawer on the first person of the room besides the user, and
-- the bar then shows the number of unread messages that there were before the click, those of the
-- conversation that is open now among them.
pub click_private_chat_lem :
    (r : Room) (everybody : List Person) (role : UserRole) (network : Network) (page : Page)
    {p : Panel}
    → Reach initial p
    → p.ui.active_p2p_friend_id ≡ none
    → let q = click_private_chat page p in
      (q.is_p2p_drawer_open ≡ true)
      × (active_friend q ≡ default_private_chat_target room)
      × ((page_view r everybody role network (record page { ui = q.ui })).bar.private_chat
          ≡ some (record {
            is_disabled = false;
            badge = count_badge (total_unread_count p.p2p_conversations);
          }))
unfolding sync_unread_effect
click_private_chat_lem r everybody role network page {p} reached closed =
    let t = typing_effect (with_alice p) in
    let (ui_kept, kept) = typing_effect-keeps (with_alice p) in
    let with_friend : t.ui.active_p2p_friend_id ≡ some "user_alice" =
      ap (λ u. u.active_p2p_friend_id) ui_kept in
    let noop : mark_conversation_thread_as_read "user_alice" t.p2p_conversations
        ≡ t.p2p_conversations =
      rw kept (reachable-mark_noop "user_alice" reached) in
    rw (clicked page p closed) (
      friend_effect-opens t "user_alice" with_friend refl,
      alice_of_room (sync_unread_effect (friend_effect t))
          (ap (λ u. u.active_p2p_friend_id) (friend_effect-ui t) ∙ with_friend),
      badge_of r everybody role network _
          ∙ ap
              (λ conversations. some (record {
                is_disabled = false;
                badge = count_badge (total_unread_count conversations);
              }))
              (friend_effect-keeps t "user_alice" with_friend noop ∙ kept),
    )
