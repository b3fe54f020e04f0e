-- ===== src/Stage/Session/Clicks.antt =====
-- client/src/components/room/stage-panel.tsx, listener-panel.tsx and stores/speaker-store.ts: what every click
-- keeps.
use wave_cast.Common.{
  String, Bool, true, false, ◌≡◌, refl, sym, ◌∙◌, List, [], ◌∷◌, Option, none, some, find, has,
  is_empty, ◌==◌, if◌then◌else◌, arith, eq_refl, Bool-cases, Option-cases, inl, inr,
}
use wave_cast.Private.Actions.{handle_request_hand}
use wave_cast.Stage.{
  Stage, RaiseHandPulse, on_stage_ids, request_queue, raise_hand_effect, hide_pulse,
  listener_invite_candidates, add_speaker_to_stage, pending_hand_requests,
}
use wave_cast.Stage.Invite.{request_entry, listener_entry, select_entry}
use wave_cast.Stage.Laws.{add_speaker_to_stage_lem}
use wave_cast.Stage.Pulse.{removed-not_new}
use wave_cast.Stage.Session.{Click, start, accept, click, session}
use wave_cast.Stores.Speaker.Defs.{
  SpeakerState, current_user_request_id, toggle_mic, toggle_request, remove_speaker_request,
}
use wave_cast.Stores.Speaker.Defs as Speaker
use wave_cast.Stores.Speaker.Invariant.{initial-IsValid, toggle_mic-IsValid, toggle_request-IsValid}
use wave_cast.Types.{Person, SpeakerRequest}
use wave_cast.Stage.Session.Consistent.{
  IsOwnNote, IsConsistent, effect-IsConsistent, Agrees-grow, Agrees-remove,
}
use wave_cast.Stage.Session.Hand.{toggle-of_person, toggle-new}
use wave_cast.Stage.Session.Queue.{queue-Found}

added :
    (person : Person) (id : Option String) (st : Stage)
    → let q = (add_speaker_to_stage person id st).0 in
      (q.seen_request_ids ≡ st.seen_request_ids) × (q.raise_hand_pulse ≡ st.raise_hand_pulse)
unfolding add_speaker_to_stage
added person id st = ground arith

stored :
    (person : Person) (id : String) (st : Stage)
    → has person.id (on_stage_ids st) ≡ false
    → (add_speaker_to_stage person (some id) st).0.store
      ≡ (if is_empty id then st.store else remove_speaker_request id st.store)
unfolding add_speaker_to_stage
stored person id st off = rw off refl

stored_none :
    (person : Person) (st : Stage) → (add_speaker_to_stage person none st).0.store ≡ st.store
unfolding add_speaker_to_stage
stored_none person st = ground arith

accepted :
    (r : SpeakerRequest) (st : Stage)
    → accept r st ≡ (
        let q = (add_speaker_to_stage r.person (some r.id) st).0 in
        if is_empty r.id then q else raise_hand_effect q)
unfolding accept request_entry select_entry add_speaker_to_stage raise_hand_effect
accepted r st = refl

accept-IsConsistent :
    (r : SpeakerRequest) (st : Stage)
    → find (λ q. q.id == r.id) st.store.speaker_requests ≡ some r
    → has r.person.id (on_stage_ids st) ≡ false
    → IsConsistent st
    → IsConsistent (accept r st)
accept-IsConsistent r st found off c =
    let q = (add_speaker_to_stage r.person (some r.id) st).0 in
    let (d, more, answered) = add_speaker_to_stage_lem r.person (some r.id) st c.agrees.distinct in
    let (seen, note) = added r.person (some r.id) st in
    let store = stored r.person r.id st off in
    let stands : has r.person.id (on_stage_ids q) ≡ true =
      more r.person.id ∙ ground (arith, eq_refl r.person.id) in
    let grown = Agrees-grow r.person.id st.store _ _ d more c.agrees in
    elim (Bool-cases (is_empty r.id)) [
      | inl nameless ↦
          let same : q.store ≡ st.store = rw (store, nameless) refl in
          rw (accepted r st, nameless)
            (record {
              agrees = rw same grown;
              seen = rw (seen, same) c.seen;
              own_note = rw note c.own_note;
            })
      | inr named ↦
          let gone : q.store ≡ remove_speaker_request r.id st.store = rw (store, named) refl in
          rw (accepted r st, named)
            (effect-IsConsistent _ q (seen ∙ c.seen) (rw note c.own_note)
              (λ x e. absurd (cc (removed-not_new r st.store found)))
              (rw gone (Agrees-remove r st.store _ found stands grown)))
    ]

taken :
    (person : Person) (st : Stage)
    → select_entry (listener_entry person) st ≡ add_speaker_to_stage person none st
unfolding select_entry listener_entry add_speaker_to_stage
taken person st = refl

listener-IsConsistent :
    (person : Person) (st : Stage)
    → IsConsistent st
    → IsConsistent (select_entry (listener_entry person) st).0
listener-IsConsistent person st c =
    let (d, more, answered) = add_speaker_to_stage_lem person none st c.agrees.distinct in
    let (seen, note) = added person none st in
    let same = stored_none person st in
    rw (taken person st) (record {
      agrees = rw same (Agrees-grow person.id st.store _ _ d more c.agrees);
      seen = rw (seen, same) c.seen;
      own_note = rw note c.own_note;
    })

hand-IsConsistent :
    (fresh : String) (st : Stage) → IsConsistent st → IsConsistent (click (Click.hand fresh) st)
unfolding click handle_request_hand
hand-IsConsistent fresh st c =
    let v = c.agrees.valid in
    effect-IsConsistent _ (record st { store = toggle_request fresh st.store }) c.seen c.own_note
      (λ r e. toggle-new fresh st.store r v e)
      (record {
        valid = toggle_request-IsValid fresh st.store v;
        distinct = c.agrees.distinct;
        kept = λ k other then_.
            rw (toggle-of_person fresh k st.store v other) (c.agrees.kept k other then_);
        stay = c.agrees.stay;
        none_new = λ k other now.
            c.agrees.none_new k other (sym (toggle-of_person fresh k st.store v other) ∙ now);
      })

hidden :
    (b : Bool) (pulse : Option RaiseHandPulse)
    → IsOwnNote pulse
    → IsOwnNote (if b then none else pulse)
hidden true pulse h = tt
hidden false pulse h = h

timeout-IsConsistent : (st : Stage) → IsConsistent st → IsConsistent (hide_pulse st)
unfolding hide_pulse on_stage_ids
timeout-IsConsistent st c = elim (Option-cases st.pulse_timer) [
  | inl unset ↦ rw (unset, hide_pulse) c
  | inr (id, set) ↦
      rw (set, hide_pulse)
        (record {
          agrees = c.agrees;
          seen = c.seen;
          own_note = hidden _ st.raise_hand_pulse c.own_note;
        })
]

mic-IsConsistent : (st : Stage) → IsConsistent st → IsConsistent (click Click.mic st)
unfolding click toggle_mic
mic-IsConsistent st c = record {
  agrees = record {
    valid = toggle_mic-IsValid st.store c.agrees.valid;
    distinct = c.agrees.distinct;
    kept = c.agrees.kept;
    stay = c.agrees.stay;
    none_new = c.agrees.none_new;
  };
  seen = c.seen;
  own_note = c.own_note;
}

click-IsConsistent : (c : Click) (st : Stage) → IsConsistent st → IsConsistent (click c st)
unfolding click
click-IsConsistent (Click.hand fresh) st h = hand-IsConsistent fresh st h
click-IsConsistent Click.mic st h = mic-IsConsistent st h
click-IsConsistent (Click.menu is_open) st h = record {
  agrees = h.agrees;
  seen = h.seen;
  own_note = h.own_note;
}
click-IsConsistent (Click.request id) st h =
    elim (Option-cases (find (λ r. r.person.id == id) (request_queue st))) [
      | inl nobody ↦ rw (nobody, click) h
      | inr (r, e) ↦
          let (found, off) =
            queue-Found (λ r. r.person.id == id) st r h.agrees.valid.distinct_ids e in
          rw (e, click) (accept-IsConsistent r st found off h)
    ]
click-IsConsistent (Click.listener id) st h =
    elim (Option-cases (find (λ l. l.id == id) (listener_invite_candidates st))) [
      | inl nobody ↦ rw (nobody, click) h
      | inr (l, e) ↦ rw (e, click) (listener-IsConsistent l st h)
    ]
click-IsConsistent Click.timeout st h = timeout-IsConsistent st h

start-IsConsistent : IsConsistent start
unfolding start Speaker.initial raise_hand_effect pending_hand_requests on_stage_ids
start-IsConsistent = record {
  agrees = record {
    valid = initial-IsValid;
    distinct = (refl, (refl, (refl, tt)));
    kept = λ k other then_. ground (arith, then_);
    stay = λ k there. there;
    none_new = λ k other now. now;
  };
  seen = refl;
  own_note = tt;
}

session-from : (cs : List Click) (st : Stage) → IsConsistent st → IsConsistent (session cs st)
unfolding session
session-from [] st h = h
session-from (c ∷ cs) st h = session-from cs (click c st) (click-IsConsistent c st h)

-- Whatever is clicked in a room, in whatever order, and whenever the note times out: the store is
-- valid and the people on stage are distinct; whoever was on stage at the start is there; nobody but
-- the current user has a request who had none at the start, and whoever else had one has it still or
-- is on stage; the panel has seen all the requests that are pending; and a note that is shown is on
-- the user's own hand.
pub session-IsConsistent : (cs : List Click) → IsConsistent (session cs start)
session-IsConsistent cs = session-from cs start start-IsConsistent
