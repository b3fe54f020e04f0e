-- ===== src/Private/Actions/Hand.antt =====
-- client/src/components/room/listener-panel.tsx: what raising the hand shows.
use wave_cast.Common.{
  String, Bool, not, ◌&&◌, ◌≡◌, refl, sym, ap, ◌∙◌, List, [], ◌∷◌, map, filter, arith, ◌==◌,
  if◌then◌else◌,
}
use wave_cast.MockData.{alex}
use wave_cast.Private.Actions.{raising_hand, raising_hands, handle_request_hand}
use wave_cast.Stores.Speaker.Defs.{SpeakerState, toggle_request}
use wave_cast.Stores.Speaker.Invariant.{IsValid}
use wave_cast.Stores.Speaker.Toggle.{others, toggle_request_lem}
use wave_cast.Types.{SpeakerRequest, is_pending}

filter_and :
    (p q : SpeakerRequest → Bool) (rs : List SpeakerRequest)
    → filter (λ r. p r && q r) rs ≡ filter p (filter q rs)
filter_and p q [] = refl
filter_and p q (r ∷ rs) = ground (arith, filter_and p q rs)

raising_hands-others :
    (st : SpeakerState)
    → raising_hands st ≡ map raising_hand (filter (λ r. is_pending r.status) (others st))
unfolding raising_hands
raising_hands-others st =
    ap (map raising_hand) (
      filter_and (λ r. is_pending r.status) (λ r. not (r.person.id == alex.id)) st.speaker_requests)

-- In a valid state, raising or lowering the hand leaves the list of raised hands that the user
-- sees as it was, since the own hand is not in it, and the message names what has become of the
-- own request.
handle_request_hand_lem :
    (fresh : String) (st : SpeakerState)
    → IsValid st
    → (raising_hands (handle_request_hand fresh st).0 ≡ raising_hands st)
      × ((handle_request_hand fresh st).1.title ≡ (
          if (handle_request_hand fresh st).0.request_pending
          then "Hand raised"
          else "Hand lowered"))
unfolding handle_request_hand
handle_request_hand_lem fresh st v =
    let (turned, same) = toggle_request_lem fresh st v in
    (
      raising_hands-others (toggle_request fresh st)
          ∙ (ap (λ l. map raising_hand (filter (λ r. is_pending r.status) l)) same
              ∙ sym (raising_hands-others st)),
      rw turned (ground arith),
    )
