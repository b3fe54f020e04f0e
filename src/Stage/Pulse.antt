-- ===== src/Stage/Pulse.antt =====
-- client/src/components/room/stage-panel.tsx: how long the note on a raised hand is shown.
use wave_cast.Common.{
  String, Bool, true, false, not, ◌≡◌, ◌≢◌, refl, ◌∙◌, List, [], ◌∷◌, none, some, map, filter, find,
  has, ◌==◌, eq_refl, eq_iff, arith,
}
use wave_cast.Stage.{
  Stage, RaiseHandPulse, pending_hand_requests, raise_hand_effect, hide_pulse, add_speaker_to_stage,
  on_stage_ids,
}
use wave_cast.Stores.Speaker.Defs.{SpeakerState, remove_speaker_request}
use wave_cast.Types.{Person, SpeakerRequest, is_pending}

-- The requests of the store change, or the time is over.
pub data PulseEvent : Type 0 where
  change : SpeakerState → PulseEvent
  expires : PulseEvent

abbrev pub step : PulseEvent → Stage → Stage
step (change s) st = raise_hand_effect (record st { store = s })
step expires st = hide_pulse st

pub run : List PulseEvent → Stage → Stage
run [] st = st
run (e ∷ es) st = run es (step e st)

abbrev pub pending_of : SpeakerState → List SpeakerRequest
pending_of s = filter (λ r. is_pending r.status) s.speaker_requests

abbrev pub ids_of : List SpeakerRequest → List String
ids_of = map (λ r. r.id)

-- The note on a request.
abbrev pub note_on : SpeakerRequest → RaiseHandPulse
note_on r = record { id = r.id; person = r.person; requested_at = r.requested_at }

-- The first of the pending requests that the panel has not seen is shown once they change, whatever
-- was shown before; its timeout hides it, and the panel has then seen all that are pending.
new-shown :
    (s : SpeakerState) (seen : List String) (r : SpeakerRequest) (st : Stage)
    → st.seen_request_ids ≡ some seen
    → find (λ q. not (has q.id seen)) (pending_of s) ≡ some r
    → let p = raise_hand_effect (record st { store = s }) in
      (p.raise_hand_pulse ≡ some (note_on r))
      × (p.seen_request_ids ≡ some (ids_of (pending_of s)))
      × (p.store ≡ s)
      × (p.on_stage_speakers ≡ st.on_stage_speakers)
      × ((hide_pulse p).raise_hand_pulse ≡ none)
unfolding raise_hand_effect hide_pulse pending_hand_requests
new-shown s seen r st seen_now new = ground (arith, eq_iff r.id r.id)

-- No request is new in a run of events, where those with the ids were seen before.
abbrev NothingNew : List String → List PulseEvent → Type 0
NothingNew seen [] = Unit
NothingNew seen (change s ∷ es) =
    (find (λ r. not (has r.id seen)) (pending_of s) ≡ none) × NothingNew (ids_of (pending_of s)) es
NothingNew seen (expires ∷ es) = NothingNew seen es

quiet_change :
    (q : SpeakerState) (seen : List String) (st : Stage)
    → st.seen_request_ids ≡ some seen
    → find (λ r. not (has r.id seen)) (pending_of q) ≡ none
    → raise_hand_effect (record st { store = q })
      ≡ record st { seen_request_ids = some (ids_of (pending_of q)); pulse_timer = none; store = q }
unfolding raise_hand_effect pending_hand_requests
quiet_change q seen st s none_new = ground arith

no_timer : (st : Stage) → st.pulse_timer ≡ none → hide_pulse st ≡ st
unfolding hide_pulse
no_timer st t = ground arith

run-stays :
    (es : List PulseEvent) (seen : List String) (pulse : RaiseHandPulse) (st : Stage)
    → st.seen_request_ids ≡ some seen
    → st.pulse_timer ≡ none
    → st.raise_hand_pulse ≡ some pulse
    → NothingNew seen es
    → (run es st).raise_hand_pulse ≡ some pulse
unfolding run
run-stays [] seen pulse st s t p h = p
run-stays (change q ∷ es) seen pulse st s t p (none_new, h) =
    rw (run, quiet_change q seen st s none_new) (run-stays es _ pulse _ refl refl p h)
run-stays (expires ∷ es) seen pulse st s t p h =
    rw (run, no_timer st t) (run-stays es seen pulse st s t p h)

-- Of requests that are all seen, none is new when some are taken away.
pub less-not_new :
    (p : SpeakerRequest → Bool) (seen : List String) (rs : List SpeakerRequest)
    → ((k : String)
        → has k (ids_of (filter (λ r. is_pending r.status) rs)) ≡ true
        → has k seen ≡ true)
    → find (λ r. not (has r.id seen)) (filter (λ r. is_pending r.status) (filter p rs)) ≡ none
less-not_new p seen [] h = refl
less-not_new p seen (r ∷ rs) h =
    let rest = less-not_new p seen rs (λ k there. h k (ground (arith, there))) in
    ground (arith, rest, h r.id, eq_refl r.id)

pub removed-not_new :
    (removed : SpeakerRequest) (st : SpeakerState)
    → find (λ r. r.id == removed.id) st.speaker_requests ≡ some removed
    → find
        (λ r. not (has r.id (ids_of (pending_of st))))
        (pending_of (remove_speaker_request removed.id st))
      ≡ none
unfolding remove_speaker_request
removed-not_new removed st there =
    rw (there, remove_speaker_request)
      (less-not_new (λ r. not (r.id == removed.id)) _ st.speaker_requests (λ k seen. seen))

-- The panel's part of accepting a request whose person is not on stage.
accepted :
    (person : Person) (id : String) (st : Stage)
    → has person.id (on_stage_ids st) ≡ false
    → id ≢ ""
    → let q = (add_speaker_to_stage person (some id) st).0 in
      (q.store ≡ remove_speaker_request id st.store)
      × (q.seen_request_ids ≡ st.seen_request_ids)
      × (q.raise_hand_pulse ≡ st.raise_hand_pulse)
unfolding add_speaker_to_stage
accepted person id st new named = ground (arith, eq_iff id "")

accepted-stays :
    (person : Person) (removed : SpeakerRequest) (st : Stage) (pulse : RaiseHandPulse)
    (es : List PulseEvent)
    → st.seen_request_ids ≡ some (ids_of (pending_of st.store))
    → st.raise_hand_pulse ≡ some pulse
    → has person.id (on_stage_ids st) ≡ false
    → removed.id ≢ ""
    → find (λ r. r.id == removed.id) st.store.speaker_requests ≡ some removed
    → NothingNew (ids_of (pending_of (remove_speaker_request removed.id st.store))) es
    → (let q = (add_speaker_to_stage person (some removed.id) st).0 in
        run (change q.store ∷ es) q).raise_hand_pulse
      ≡ some pulse
unfolding run
accepted-stays person removed st pulse es seen shown new named there quiet =
    let q = (add_speaker_to_stage person (some removed.id) st).0 in
    let (store, seen', shown') = accepted person removed.id st new named in
    let none_new = removed-not_new removed st.store there in
    rw (run, quiet_change q.store _ q (seen' ∙ seen) (rw store none_new))
      (run-stays es _ pulse _ refl refl (shown' ∙ shown) (rw store quiet))

-- The note on a request that comes new is hidden by its timeout; but when another request of the
-- store is accepted before, of somebody who is not on stage and under an id that is not empty, the
-- note is shown for as long as no new request comes, however requests go and whatever timeouts fire.
pub new-other_accepted-stays :
    (s : SpeakerState) (seen : List String) (r other : SpeakerRequest) (st : Stage)
    (es : List PulseEvent)
    → st.seen_request_ids ≡ some seen
    → find (λ q. not (has q.id seen)) (pending_of s) ≡ some r
    → find (λ q. q.id == other.id) s.speaker_requests ≡ some other
    → has other.person.id (on_stage_ids st) ≡ false
    → other.id ≢ ""
    → NothingNew (ids_of (pending_of (remove_speaker_request other.id s))) es
    → let p = raise_hand_effect (record st { store = s }) in
      let q = (add_speaker_to_stage other.person (some other.id) p).0 in
      ((hide_pulse p).raise_hand_pulse ≡ none)
      × ((run (change q.store ∷ es) q).raise_hand_pulse ≡ some (note_on r))
unfolding on_stage_ids
new-other_accepted-stays s seen r other st es seen_now new there off_stage named quiet =
    let p = raise_hand_effect (record st { store = s }) in
    let (shown, seen', store, stage, hidden) = new-shown s seen r st seen_now new in
    (
      hidden,
      accepted-stays other.person other p (note_on r) es (rw store seen') shown (rw stage off_stage)
          named (rw store there) (rw store quiet),
    )
