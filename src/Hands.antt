-- ===== src/Hands.antt =====
-- client/src/components/room/listener-panel.tsx, raise-hands-list.tsx and stage-panel.tsx: the raised
-- hands as the panels show them from the store that they share.
pub mod Left
use wave_cast.Common.{
  ◌+◌, String, Bool, true, false, not, ◌&&◌, ◌≡◌, refl, sym, ap, ◌∙◌, List, [], ◌∷◌, map, filter,
  find, length, head?, is_empty, has, Distinct, arith, some, none, Option-cases, inl, inr, ◌==◌,
  eq_iff, eq_refl, if◌then◌else◌,
}
use wave_cast.MockData.{alex}
use wave_cast.Private.Actions.{RaisingHand, raising_hand, raising_hands}
use wave_cast.Stage.{Stage, on_stage_ids, add_speaker_to_stage}
use wave_cast.Stage.Laws.{has-add_speaker_to_stage}
use wave_cast.Stores.Speaker.Defs.{SpeakerState, remove_speaker_request}
use wave_cast.Stores.Speaker.Invariant.{IsValid}
use wave_cast.Stores.Speaker.Queue.{people, of_person, of_person-has, AllPending}
use wave_cast.Types.{Person, SpeakerRequest, is_pending}
use wave_cast.Widgets.{RaiseHandEntry, visible_items, own_entry}

abbrev pub entry : RaisingHand → RaiseHandEntry
entry h = record { id = h.id; name = h.name; avatar = some h.avatar; requested_at = h.requested_at }

-- The list above the buttons of the listener panel.
pub raise_hands_list : SpeakerState → List RaiseHandEntry
unfolding raising_hands visible_items
raise_hands_list st = visible_items (map entry (raising_hands st)) st.request_pending

abbrev others_hand : SpeakerRequest → Bool
others_hand r = is_pending r.status && not (r.person.id == alex.id)

length-map {ℓ κ} :
    {A : Type ℓ} {B : Type κ} (f : A → B) (xs : List A) → length (map f xs) ≡ length xs
length-map f [] = refl
length-map f (x ∷ xs) = omega (arith, length-map f xs)

no_own :
    (rs : List SpeakerRequest)
    → AllPending rs
    → of_person alex.id rs ≡ false
    → length (filter others_hand rs) ≡ length rs
no_own [] p h = refl
no_own (r ∷ rs) (q, p) h = ground (arith, no_own rs p)

one_own :
    (rs : List SpeakerRequest)
    → AllPending rs
    → Distinct (people rs)
    → length (filter others_hand rs) + (if of_person alex.id rs then 1 else 0) ≡ length rs
one_own [] p d = refl
one_own (r ∷ rs) (q, p) (n, d) =
    ground
      (arith, one_own rs p d, no_own rs p, of_person-has alex.id rs, eq_iff r.person.id alex.id)

-- In a valid state the list of the listener panel has one hand for each request in the store, the
-- own one first.
raise_hands_list-requests :
    (st : SpeakerState)
    → IsValid st
    → (length (raise_hands_list st) ≡ length st.speaker_requests)
      × (st.request_pending ≡ true → head? (raise_hands_list st) ≡ some own_entry)
unfolding raise_hands_list raising_hands visible_items
raise_hands_list-requests st v =
    let others = map entry (raising_hands st) in
    let counted : length others ≡ length (filter others_hand st.speaker_requests) =
      length-map entry (raising_hands st)
      ∙ length-map raising_hand (filter others_hand st.speaker_requests) in
    (
      ground (arith, counted, v.flag, one_own st.speaker_requests v.all_pending v.distinct_people),
      λ raised. rw raised refl,
    )

hands_without :
    (k : String) (rs : List SpeakerRequest)
    → map raising_hand (filter others_hand (filter (λ r. not (r.id == k)) rs))
      ≡ filter (λ h. not (h.id == k)) (map raising_hand (filter others_hand rs))
hands_without k [] = refl
hands_without k (r ∷ rs) = ground (arith, hands_without k rs)

filter-lacks :
    (k : String) (rs : List SpeakerRequest)
    → find (λ r. r.id == k) rs ≡ none
    → filter (λ r. not (r.id == k)) rs ≡ rs
filter-lacks k [] h = refl
filter-lacks k (r ∷ rs) h = ground (arith, filter-lacks k rs)

remove-raising_hands :
    (k : String) (st : SpeakerState)
    → raising_hands (remove_speaker_request k st) ≡ filter (λ h. not (h.id == k)) (raising_hands st)
unfolding raising_hands remove_speaker_request
remove-raising_hands k st = elim (Option-cases (find (λ r. r.id == k) st.speaker_requests)) [
  | inl lacks ↦
      rw (lacks, remove_speaker_request)
        (ap (λ rs. map raising_hand (filter others_hand rs))
            (sym (filter-lacks k st.speaker_requests lacks))
          ∙ hands_without k st.speaker_requests)
  | inr (removed, found) ↦ rw (found, remove_speaker_request) (hands_without k st.speaker_requests)
]

store-add_speaker :
    (person : Person) (request_id : String) (st : Stage)
    → has person.id (on_stage_ids st) ≡ false
    → is_empty request_id ≡ false
    → (add_speaker_to_stage person (some request_id) st).0.store
      ≡ remove_speaker_request request_id st.store
unfolding add_speaker_to_stage
store-add_speaker person request_id st off named = rw (off, named) refl

-- A person who is not on stage and is taken there for a request, whose id is not empty, stands on the stage afterwards,
-- and the hand of that request, and no other, is gone from the listener panel.
pub add_speaker_to_stage-raising_hands :
    (person : Person) (request_id : String) (st : Stage)
    → has person.id (on_stage_ids st) ≡ false
    → is_empty request_id ≡ false
    → let q = (add_speaker_to_stage person (some request_id) st).0 in
      (has person.id (on_stage_ids q) ≡ true)
      × (raising_hands q.store ≡ filter (λ h. not (h.id == request_id)) (raising_hands st.store))
add_speaker_to_stage-raising_hands person request_id st off named = (
  has-add_speaker_to_stage person (some request_id) st person.id
      ∙ ground (arith, eq_refl person.id),
  ap raising_hands (store-add_speaker person request_id st off named)
      ∙ remove-raising_hands request_id st.store,
)
