-- ===== src/Stores/Speaker/Invariant.antt =====
-- client/src/stores/speaker-store.ts: what every action keeps.
use wave_cast.Common.{
  String, Bool, true, false, ◌≡◌, ◌≢◌, refl, sym, ◌∙◌, List, [], ◌∷◌, ◌++◌, find, filter, has,
  Distinct, ◌==◌, if◌then◌else◌, arith, eq_iff, Bool-cases, Option-cases, inl, inr, ne→eq_false,
}
use wave_cast.MockData.{alex}
use wave_cast.Types.{Person, SpeakerRequest}
use wave_cast.Stores.Speaker.Defs.{
  SpeakerState, initial, current_user_request_id, to_pending_request, toggle_mic, toggle_request,
  add_speaker_request, remove_speaker_request,
}
use wave_cast.Stores.Speaker.Queue.{
  ids, people, of_person, of_person-has, AllPending, any_active, AllPending-append,
  AllPending-filter, Distinct-map-filter, Distinct-map-append, of_person-filter_id,
  of_person-filter_ne, of_person-append,
}

-- The current user's own id is used for no one else's request.
abbrev OwnId : List SpeakerRequest → Type 0
OwnId [] = Unit
OwnId (r ∷ rs) = (r.id ≡ current_user_request_id → r.person.id ≡ alex.id) × OwnId rs

pub record IsValid (st : SpeakerState) : Type 0 where
  pub all_pending : AllPending st.speaker_requests
  pub distinct_ids : Distinct (ids st.speaker_requests)
  pub distinct_people : Distinct (people st.speaker_requests)
  pub own_id : OwnId st.speaker_requests
  pub flag : st.request_pending ≡ of_person alex.id st.speaker_requests

OwnId-filter :
    (p : SpeakerRequest → Bool) (rs : List SpeakerRequest) → OwnId rs → OwnId (filter p rs)
OwnId-filter p [] h = h
OwnId-filter p (r ∷ rs) (e, h) =
    elim (p r) as (λ b. OwnId (if b then r ∷ filter p rs else filter p rs)) [
      | true ↦ (e, OwnId-filter p rs h)
      | false ↦ OwnId-filter p rs h
    ]

OwnId-append :
    (rs : List SpeakerRequest) (r : SpeakerRequest)
    → OwnId rs
    → (r.id ≡ current_user_request_id → r.person.id ≡ alex.id)
    → OwnId (rs ++ r ∷ [])
OwnId-append [] r h e = (e, tt)
OwnId-append (q ∷ rs) r (d, h) e = (d, OwnId-append rs r h e)

OwnId-free :
    (rs : List SpeakerRequest)
    → OwnId rs
    → of_person alex.id rs ≡ false
    → has current_user_request_id (ids rs) ≡ false
OwnId-free [] h e = refl
OwnId-free (r ∷ rs) (f, h) e = elim (Bool-cases (r.id == current_user_request_id)) [
  | inl same ↦
      let p : r.person.id ≡ alex.id = f ((eq_iff _ _).0 same) in
      absurd (ground (arith, eq_iff r.person.id alex.id))
  | inr other ↦ rw other (OwnId-free rs h (ground arith))
]

-- The store starts valid.
pub initial-IsValid : IsValid initial
unfolding initial
initial-IsValid = record {
  all_pending = (refl, (refl, tt));
  distinct_ids = (refl, (refl, tt));
  distinct_people = (refl, (refl, tt));
  own_id = (
    λ e. absurd (ground (arith, eq_iff "request_wade" current_user_request_id)),
    (λ e. absurd (ground (arith, eq_iff "request_jenny" current_user_request_id)), tt),
  );
  flag = refl;
}

pub toggle_mic-IsValid : (st : SpeakerState) → IsValid st → IsValid (toggle_mic st)
unfolding toggle_mic
toggle_mic-IsValid st v = record {
  all_pending = v.all_pending;
  distinct_ids = v.distinct_ids;
  distinct_people = v.distinct_people;
  own_id = v.own_id;
  flag = v.flag;
}

pub toggle_request-IsValid :
    (fresh : String) (st : SpeakerState) → IsValid st → IsValid (toggle_request fresh st)
unfolding toggle_request
toggle_request-IsValid fresh st v =
    let rs = st.speaker_requests in
    let active = any_active alex.id rs v.all_pending in
    elim (Bool-cases (of_person alex.id rs)) [
      | inl here ↦
          rw (active, here)
            (record {
              all_pending = AllPending-filter _ rs v.all_pending;
              distinct_ids = Distinct-map-filter _ _ rs v.distinct_ids;
              distinct_people = Distinct-map-filter _ _ rs v.distinct_people;
              own_id = OwnId-filter _ rs v.own_id;
              flag = sym (of_person-filter_ne alex.id rs);
            })
      | inr away ↦
          rw (active, away)
            (record {
              all_pending = AllPending-append rs _ v.all_pending refl;
              distinct_ids =
                  Distinct-map-append (λ r. r.id) rs _ v.distinct_ids (OwnId-free rs v.own_id away);
              distinct_people =
                  Distinct-map-append (λ r. r.person.id) rs _ v.distinct_people
                    (sym (of_person-has alex.id rs) ∙ away);
              own_id = OwnId-append rs _ v.own_id (λ _. refl);
              flag = sym (rw (of_person-append, away) (refl));
            })
    ]

-- Someone else's request, under an id drawn for it.
pub add_speaker_request-IsValid :
    (fresh : String) (person : Person) (st : SpeakerState)
    → has fresh (ids st.speaker_requests) ≡ false
    → fresh ≢ current_user_request_id
    → person.id ≢ alex.id
    → IsValid st
    → IsValid (add_speaker_request fresh person st)
unfolding add_speaker_request
add_speaker_request-IsValid fresh person st new ne other v =
    let rs = st.speaker_requests in
    elim (Bool-cases (of_person person.id rs)) [
      | inl here ↦ rw (any_active person.id rs v.all_pending, here) v
      | inr away ↦
          rw (any_active person.id rs v.all_pending, away)
            (record {
              all_pending = AllPending-append rs _ v.all_pending refl;
              distinct_ids = Distinct-map-append (λ r. r.id) rs _ v.distinct_ids new;
              distinct_people =
                  Distinct-map-append (λ r. r.person.id) rs _ v.distinct_people
                    (sym (of_person-has person.id rs) ∙ away);
              own_id = OwnId-append rs _ v.own_id (λ e. absurd (ne e));
              flag = ground (
                arith,
                v.flag,
                of_person-append alex.id rs (to_pending_request fresh person),
                ne→eq_false person.id alex.id other,
              );
            })
    ]

pub remove_speaker_request-IsValid :
    (request_id : String) (st : SpeakerState)
    → IsValid st
    → IsValid (remove_speaker_request request_id st)
unfolding remove_speaker_request
remove_speaker_request-IsValid k st v =
    let rs = st.speaker_requests in
    elim (Option-cases (find (λ r. r.id == k) rs)) [
      | inl missing ↦ rw (missing, remove_speaker_request) v
      | inr (removed, found) ↦
          rw (found, remove_speaker_request)
            (record {
              all_pending = AllPending-filter _ rs v.all_pending;
              distinct_ids = Distinct-map-filter _ _ rs v.distinct_ids;
              distinct_people = Distinct-map-filter _ _ rs v.distinct_people;
              own_id = OwnId-filter _ rs v.own_id;
              flag = ground (
                arith,
                v.flag,
                of_person-filter_id alex.id k rs removed v.distinct_ids v.distinct_people found,
              );
            })
    ]
