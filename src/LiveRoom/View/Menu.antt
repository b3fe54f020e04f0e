-- ===== src/LiveRoom/View/Menu.antt =====
-- client/src/components/room/live-room-page.tsx: the buttons of the invite menu, and what clicking
-- them does.
use wave_cast.Common.{
  String, Bool, true, false, not, ◌&&◌, ◌||◌, ◌≡◌, refl, List, [], ◌∷◌, Option, none, some, has,
  eq_iff, arith, trim, to_lower_case, truthy, if◌then◌else◌,
}
use wave_cast.LiveRoom.Page.{
  Page, FriendInvite, room_person_ids, friend_invites, friends_not_in_room,
  filtered_friends_not_in_room, matches_search,
}
use wave_cast.LiveRoom.Page.Invites.{
  invite_all, invite_all-is_invited, invite_all-invite_search_query, is_invited, asked,
}
use wave_cast.LiveRoom.View.{InviteItem, InviteButton, render_invite_friend_item, rows_not_in_room}
use wave_cast.Types.{Person, Room}

can_click : Option InviteButton → Bool
can_click none = false
can_click (some b) = not b.is_disabled

-- What the buttons that can be clicked ask for, from the top of the menu.
pub offers : List InviteItem → List (String × String)
unfolding can_click
offers [] = []
offers (row ∷ rest) =
    let below = offers rest in if can_click row.button then (row.id, row.name) ∷ below else below

abbrev invite_of : Room → Page → Person → FriendInvite
invite_of r p x = record {
  person = x;
  in_room = has x.id (room_person_ids r);
  is_invited = is_invited x.id p;
}

abbrev is_shown : Room → String → Person → Bool
is_shown r query x =
    truthy x.is_friend
    && not (has x.id (room_person_ids r))
    && matches_search (to_lower_case (trim query))
        (record { person = x; in_room = false; is_invited = false })

-- The buttons of the menu, person by person.
offers-rows :
    (r : Room) (x : Person) (xs : List Person) (p : Page)
    → offers (rows_not_in_room r (x ∷ xs) p) ≡ (
        if is_shown r p.invite_search_query x && not (is_invited x.id p)
        then (x.id, x.name) ∷ offers (rows_not_in_room r xs p)
        else offers (rows_not_in_room r xs p))
unfolding rows_not_in_room filtered_friends_not_in_room friends_not_in_room friend_invites offers
    can_click render_invite_friend_item matches_search
offers-rows r x xs p = ground arith

asked-below :
    (r : Room) (x : Person) (xs : List Person) (p : Page) (k : String)
    → asked k (offers (rows_not_in_room r xs p)) ≡ true
    → asked k (offers (rows_not_in_room r (x ∷ xs) p)) ≡ true
asked-below r x xs p k below = ground (arith, offers-rows r x xs p)

offers-nil : (r : Room) (p : Page) → offers (rows_not_in_room r [] p) ≡ []
unfolding offers rows_not_in_room filtered_friends_not_in_room friends_not_in_room friend_invites
offers-nil r p = refl

-- On another page whose search is the same, where whoever is invited, or asked for by a button of
-- the first page, is invited unless in the room, no button is left.
offers-none :
    (r : Room) (xs : List Person) (p p' : Page)
    → p'.invite_search_query ≡ p.invite_search_query
    → ((k : String)
        → has k (room_person_ids r) ≡ false
        → is_invited k p || asked k (offers (rows_not_in_room r xs p)) ≡ true
        → is_invited k p' ≡ true)
    → offers (rows_not_in_room r xs p') ≡ []
offers-none r [] p p' same h = offers-nil r p'
offers-none r (x ∷ xs) p p' same h =
    let rest =
      offers-none r xs p p' same
        (λ k out some_of. h k out (ground (arith, asked-below r x xs p k, some_of))) in
    ground
      (arith, rest, offers-rows r x xs p, offers-rows r x xs p', h x.id, eq_iff x.id x.id, same)

offers-outside :
    (r : Room) (xs : List Person) (p : Page) (k : String)
    → asked k (offers (rows_not_in_room r xs p)) ≡ true
    → has k (room_person_ids r) ≡ false
offers-outside r [] p k some_of = ground (arith, offers-nil r p, some_of)
offers-outside r (x ∷ xs) p k some_of =
    ground (arith, offers-rows r x xs p, offers-outside r xs p k, eq_iff x.id k, some_of)

-- Clicking every button that the invite menu offers invites exactly those whom it offers, besides
-- those invited before, and leaves no button that can be clicked.
pub invite_all-offers :
    (r : Room) (everybody : List Person) (p : Page)
    → (offers
          (rows_not_in_room r everybody (invite_all r (offers (rows_not_in_room r everybody p)) p))
        ≡ [])
      × ((k : String)
          → is_invited k (invite_all r (offers (rows_not_in_room r everybody p)) p)
            ≡ (is_invited k p || asked k (offers (rows_not_in_room r everybody p))))
invite_all-offers r everybody p =
    let requests = offers (rows_not_in_room r everybody p) in
    (
      offers-none r everybody p _ (invite_all-invite_search_query r requests p)
          (λ k out some_of. ground (arith, invite_all-is_invited r requests k p, out, some_of)),
      λ k. ground (arith, invite_all-is_invited r requests k p, offers-outside r everybody p k),
    )
