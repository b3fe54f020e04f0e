-- ===== src/Stage/Session/Consistent.antt =====
-- client/src/components/room/stage-panel.tsx, listener-panel.tsx and stores/speaker-store.ts: what holds in a session.
use wave_cast.Common.{
  String, Bool, true, not, ◌||◌, ◌≡◌, ◌≢◌, List, Option, none, some, find, has, Distinct, ◌==◌,
  arith, eq_iff, Option-cases, inl, inr,
}
use wave_cast.MockData.{alex, room}
use wave_cast.Stage.{
  Stage, RaiseHandPulse, on_stage_ids, person_ids, raise_hand_effect, pending_hand_requests,
}
use wave_cast.Stage.Pulse.{pending_of, ids_of}
use wave_cast.Stores.Speaker.Defs.{
  SpeakerState, current_user_request_id, toggle_mic, toggle_request, remove_speaker_request,
}
use wave_cast.Stores.Speaker.Defs as Speaker
use wave_cast.Stores.Speaker.Invariant.{IsValid, remove_speaker_request-IsValid}
use wave_cast.Stores.Speaker.Queue.{of_person, of_person-filter_id}
use wave_cast.Types.{SpeakerRequest}

-- Who had a request at the start.
abbrev pub asked : String → Bool
asked k = of_person k Speaker.initial.speaker_requests

-- The store and the people on stage. Whoever was on stage at the start is there; only those other
-- people have a request who had one at the start, and each of them has it still or is on stage.
pub record Agrees (store : SpeakerState) (stage : List String) : Type 0 where
  pub valid : IsValid store
  pub distinct : Distinct stage
  pub kept :
      (k : String)
      → k ≢ alex.id
      → asked k ≡ true
      → (of_person k store.speaker_requests || has k stage) ≡ true
  pub stay : (k : String) → has k (person_ids room.speakers) ≡ true → has k stage ≡ true
  pub none_new :
      (k : String) → k ≢ alex.id → of_person k store.speaker_requests ≡ true → asked k ≡ true

abbrev pub IsOwnNote : Option RaiseHandPulse → Type 0
IsOwnNote none = Unit
IsOwnNote (some pulse) = pulse.id ≡ current_user_request_id

pub record IsConsistent (st : Stage) : Type 0 where
  pub agrees : Agrees st.store (on_stage_ids st)
  pub seen : st.seen_request_ids ≡ some (ids_of (pending_of st.store))
  pub own_note : IsOwnNote st.raise_hand_pulse

-- The effect leaves the store and the stage as they are.
effect-fields :
    (seen : List String) (st : Stage)
    → st.seen_request_ids ≡ some seen
    → ((raise_hand_effect st).store ≡ st.store)
      × ((raise_hand_effect st).on_stage_speakers ≡ st.on_stage_speakers)
      × ((raise_hand_effect st).seen_request_ids ≡ some (ids_of (pending_of st.store)))
unfolding raise_hand_effect pending_hand_requests
effect-fields seen st e = ground arith

effect-IsOwnNote :
    (seen : List String) (st : Stage)
    → st.seen_request_ids ≡ some seen
    → IsOwnNote st.raise_hand_pulse
    → ((r : SpeakerRequest)
        → find (λ q. not (has q.id seen)) (pending_of st.store) ≡ some r
        → r.id ≡ current_user_request_id)
    → IsOwnNote (raise_hand_effect st).raise_hand_pulse
unfolding raise_hand_effect pending_hand_requests
effect-IsOwnNote seen st e own new =
    elim (Option-cases (find (λ q. not (has q.id seen)) (pending_of st.store))) [
      | inl quiet ↦ rw (e, raise_hand_effect, quiet) own
      | inr (r, found) ↦ rw (e, raise_hand_effect, found) (new r found)
    ]

pub effect-IsConsistent :
    (seen : List String) (st : Stage)
    → st.seen_request_ids ≡ some seen
    → IsOwnNote st.raise_hand_pulse
    → ((r : SpeakerRequest)
        → find (λ q. not (has q.id seen)) (pending_of st.store) ≡ some r
        → r.id ≡ current_user_request_id)
    → Agrees st.store (on_stage_ids st)
    → IsConsistent (raise_hand_effect st)
unfolding on_stage_ids
effect-IsConsistent seen st e own new agrees =
    let (store, stage, seen_now) = effect-fields seen st e in
    record {
      agrees = rw (store, stage) agrees;
      seen = rw store seen_now;
      own_note = effect-IsOwnNote seen st e own new;
    }

-- One more person on stage.
pub Agrees-grow :
    (j : String) (store : SpeakerState) (stage grown : List String)
    → Distinct grown
    → ((k : String) → has k grown ≡ (has k stage || j == k))
    → Agrees store stage
    → Agrees store grown
Agrees-grow j store stage grown d more a = record {
  valid = a.valid;
  distinct = d;
  kept = λ k other then_. ground (arith, a.kept k other then_, more k);
  stay = λ k there. ground (arith, a.stay k there, more k);
  none_new = a.none_new;
}

-- And that person's request gone from the store.
pub Agrees-remove :
    (removed : SpeakerRequest) (store : SpeakerState) (stage : List String)
    → find (λ q. q.id == removed.id) store.speaker_requests ≡ some removed
    → has removed.person.id stage ≡ true
    → Agrees store stage
    → Agrees (remove_speaker_request removed.id store) stage
unfolding remove_speaker_request
Agrees-remove removed store stage found stands a =
    let rs = store.speaker_requests in
    let left = λ (k : String).
      of_person-filter_id k removed.id rs removed a.valid.distinct_ids a.valid.distinct_people
        found in
    let still_valid = remove_speaker_request-IsValid removed.id store a.valid in
    record {
      valid = still_valid;
      distinct = a.distinct;
      kept = λ k other then_.
          ground (arith, found, stands, a.kept k other then_, left k, eq_iff removed.person.id k);
      stay = a.stay;
      none_new = λ k other now. a.none_new k other (ground (arith, found, now, left k));
    }
