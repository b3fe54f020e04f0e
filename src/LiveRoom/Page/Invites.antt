-- ===== src/LiveRoom/Page/Invites.antt =====
-- client/src/components/room/live-room-page.tsx: who is invited, and what the clock shows.
use mathlib.Core.List.{Perm}
use wave_cast.Common.{
  String, Bool, false, not, ◌&&◌, ◌||◌, ◌≡◌, refl, List, [], ◌∷◌, ◌++◌, filter, has, has-add,
  Distinct, Distinct-add, ◌==◌, eq_iff, arith, trim, to_lower_case,
}
use wave_cast.Common.Partition.{split-perm}
use wave_cast.LiveRoom.Page.{
  Page, room_person_ids, friend_invites, filtered_friends_in_room, filtered_friends_not_in_room,
  handle_invite_friend, matches_search,
}
use wave_cast.Types.{Person, Room}

abbrev pub is_invited : String → Page → Bool
is_invited id p = has id p.invited_friend_ids

pub invite_all : Room → List (String × String) → Page → Page
invite_all r [] p = p
invite_all r ((id, name) ∷ rest) p = invite_all r rest (handle_invite_friend r id name p).0

invite-is_invited :
    (r : Room) (id name k : String) (p : Page)
    → is_invited k (handle_invite_friend r id name p).0
      ≡ (is_invited k p || id == k && not (has k (room_person_ids r)))
unfolding handle_invite_friend
invite-is_invited r id name k p = ground (arith, has-add id k p.invited_friend_ids, eq_iff id k)

invite-Distinct :
    (r : Room) (id name : String) (p : Page)
    → Distinct p.invited_friend_ids
    → Distinct (handle_invite_friend r id name p).0.invited_friend_ids
unfolding handle_invite_friend
invite-Distinct r id name p d = ground (arith, Distinct-add id p.invited_friend_ids d)

abbrev pub asked : String → List (String × String) → Bool
asked k [] = false
asked k ((id, name) ∷ rest) = id == k || asked k rest

pub invite_all-is_invited :
    (r : Room) (requests : List (String × String)) (k : String) (p : Page)
    → is_invited k (invite_all r requests p)
      ≡ (is_invited k p || asked k requests && not (has k (room_person_ids r)))
unfolding invite_all
invite_all-is_invited r [] k p = ground arith
invite_all-is_invited r ((id, name) ∷ rest) k p =
    let one = invite-is_invited r id name k p in
    ground (arith, invite_all-is_invited r rest k (handle_invite_friend r id name p).0, one)

invite_all-Distinct :
    (r : Room) (requests : List (String × String)) (p : Page)
    → Distinct p.invited_friend_ids
    → Distinct (invite_all r requests p).invited_friend_ids
unfolding invite_all
invite_all-Distinct r [] p d = d
invite_all-Distinct r ((id, name) ∷ rest) p d =
    invite_all-Distinct r rest _ (invite-Distinct r id name p d)

pub invite_all-invite_search_query :
    (r : Room) (requests : List (String × String)) (p : Page)
    → (invite_all r requests p).invite_search_query ≡ p.invite_search_query
unfolding invite_all handle_invite_friend
invite_all-invite_search_query r [] p = refl
invite_all-invite_search_query r ((id, name) ∷ rest) p =
    ground (arith, invite_all-invite_search_query r rest (handle_invite_friend r id name p).0)

-- Whatever invitations are clicked in a row: no id is listed twice as invited, if none was, and
-- the ids invited are those invited before and those clicked that are not in the room.
invite_all_lem :
    (r : Room) (requests : List (String × String)) (p : Page)
    → Distinct p.invited_friend_ids
    → Distinct (invite_all r requests p).invited_friend_ids
      × ((k : String)
          → is_invited k (invite_all r requests p)
            ≡ (is_invited k p || asked k requests && not (has k (room_person_ids r))))
invite_all_lem r requests p d =
    (invite_all-Distinct r requests p d, λ k. invite_all-is_invited r requests k p)

-- The two lists of the invite menu, friends in the room and friends not in it, hold together each
-- friend that matches the search once, and no one else.
filtered_friends-perm :
    (r : Room) (everybody : List Person) (p : Page)
    → Perm (filtered_friends_in_room r everybody p ++ filtered_friends_not_in_room r everybody p) (
        filter
          (matches_search (to_lower_case (trim p.invite_search_query)))
          (friend_invites r everybody p))
unfolding filtered_friends_in_room filtered_friends_not_in_room
filtered_friends-perm r everybody p =
    split-perm (λ friend. friend.in_room)
      (matches_search (to_lower_case (trim p.invite_search_query))) (friend_invites r everybody p)
