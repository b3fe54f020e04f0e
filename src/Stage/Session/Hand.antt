-- ===== src/Stage/Session/Hand.antt =====
-- client/src/stores/speaker-store.ts: what raising or lowering the hand does to the requests.
use wave_cast.Common.{
  String, true, not, ◌≡◌, ◌≢◌, refl, sym, ap, ◌∙◌, List, [], ◌∷◌, ◌++◌, some, filter, find, has,
  ◌==◌, arith, eq_iff, eq_refl, Bool-cases, inl, inr,
}
use wave_cast.MockData.{alex}
use wave_cast.Stage.Pulse.{pending_of, ids_of, less-not_new}
use wave_cast.Stores.Speaker.Defs.{SpeakerState, current_user_request_id, toggle_request}
use wave_cast.Stores.Speaker.Invariant.{IsValid}
use wave_cast.Stores.Speaker.Queue.{of_person, any_active}
use wave_cast.Stores.Speaker.Toggle.{toggle_request_lem}
use wave_cast.Types.{SpeakerRequest, is_pending}

of_person-others :
    (k : String) (rs : List SpeakerRequest)
    → k ≢ alex.id
    → of_person k (filter (λ r. not (r.person.id == alex.id)) rs) ≡ of_person k rs
of_person-others k [] other = refl
of_person-others k (r ∷ rs) other =
    ground (arith, of_person-others k rs other, eq_iff r.person.id alex.id, eq_iff r.person.id k)

pub toggle-of_person :
    (fresh k : String) (st : SpeakerState)
    → IsValid st
    → k ≢ alex.id
    → of_person k (toggle_request fresh st).speaker_requests ≡ of_person k st.speaker_requests
toggle-of_person fresh k st v other =
    sym (of_person-others k (toggle_request fresh st).speaker_requests other)
    ∙ ap (of_person k) (toggle_request_lem fresh st v).1
    ∙ of_person-others k st.speaker_requests other

-- Of requests that are all seen and one more, no other is new.
one_more :
    (seen : List String) (rs : List SpeakerRequest) (own r : SpeakerRequest)
    → ((k : String)
        → has k (ids_of (filter (λ q. is_pending q.status) rs)) ≡ true
        → has k seen ≡ true)
    → find (λ q. not (has q.id seen)) (filter (λ q. is_pending q.status) (rs ++ own ∷ [])) ≡ some r
    → r.id ≡ own.id
one_more seen [] own r h e = ground arith
one_more seen (q ∷ rs) own r h e =
    let rest = one_more seen rs own r (λ k there. h k (ground (arith, there))) in
    ground (arith, rest, h q.id, eq_refl q.id)

pub toggle-new :
    (fresh : String) (st : SpeakerState) (r : SpeakerRequest)
    → IsValid st
    → find (λ q. not (has q.id (ids_of (pending_of st)))) (pending_of (toggle_request fresh st))
      ≡ some r
    → r.id ≡ current_user_request_id
unfolding toggle_request
toggle-new fresh st r v e =
    let rs = st.speaker_requests in
    let active = any_active alex.id rs v.all_pending in
    elim (Bool-cases (of_person alex.id rs)) [
      | inl here ↦
          let e' = rw (active, here) at e in
          let quiet = less-not_new (λ q. not (q.person.id == alex.id)) _ rs (λ k seen. seen) in
          absurd (cc)
      | inr away ↦ let e' = rw (active, away) at e in one_more _ rs _ r (λ k seen. seen) e'
    ]
