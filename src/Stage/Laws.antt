-- ===== src/Stage/Laws.antt =====
-- client/src/components/room/stage-panel.tsx: bringing people on stage.
use wave_cast.Common.{
  String, Bool, true, false, not, ◌||◌, ◌≡◌, refl, List, [], ◌∷◌, Option, filter, any, has,
  has-append, Distinct, Distinct-append_one, ◌==◌, eq_iff, arith, Bool-cases, inl, inr, ◌∙◌,
  eq_refl,
}
use mathlib.Core.List.{map-append}
use wave_cast.Stage.{Stage, on_stage_ids, add_speaker_to_stage, request_queue}
use wave_cast.Types.{Person, SpeakerRequest}

-- A request of somebody on stage stands in the queue that the panel offers.
abbrev pub queued : String → Stage → Bool
queued id st = any (λ r. r.person.id == id) (request_queue st)

queue_excludes :
    (id : String) (stage : List String) (rs : List SpeakerRequest)
    → has id stage ≡ true
    → any (λ r. r.person.id == id) (filter (λ r. not (has r.person.id stage)) rs) ≡ false
queue_excludes id stage [] h = refl
queue_excludes id stage (r ∷ rs) h = elim (Bool-cases (r.person.id == id)) [
  | inl same ↦ rw ((eq_iff r.person.id id).0 same, h) (queue_excludes id stage rs h)
  | inr other ↦ ground (arith, queue_excludes id stage rs h)
]

pub queued_on_stage :
    (id : String) (st : Stage) → has id (on_stage_ids st) ≡ true → queued id st ≡ false
unfolding request_queue
queued_on_stage id st h = queue_excludes id (on_stage_ids st) _ h

pub has-add_speaker_to_stage :
    (person : Person) (request_id : Option String) (st : Stage) (k : String)
    → has k (on_stage_ids (add_speaker_to_stage person request_id st).0)
      ≡ (has k (on_stage_ids st) || person.id == k)
unfolding add_speaker_to_stage
has-add_speaker_to_stage person request_id st k =
    elim (Bool-cases (has person.id (on_stage_ids st))) [
      | inl there ↦ rw (there, add_speaker_to_stage) (ground (arith, there, eq_iff person.id k))
      | inr new ↦
          rw (new, add_speaker_to_stage, map-append)
            (has-append k (on_stage_ids st) (person.id ∷ []) ∙ ground arith)
    ]

Distinct-add_speaker_to_stage :
    (person : Person) (request_id : Option String) (st : Stage)
    → Distinct (on_stage_ids st)
    → Distinct (on_stage_ids (add_speaker_to_stage person request_id st).0)
unfolding add_speaker_to_stage
Distinct-add_speaker_to_stage person request_id st d =
    elim (Bool-cases (has person.id (on_stage_ids st))) [
      | inl there ↦ rw (there, add_speaker_to_stage) d
      | inr new ↦
          rw (new, add_speaker_to_stage, map-append)
            (Distinct-append_one (on_stage_ids st) person.id d new)
    ]

-- Bringing a person on stage, from a request or from the listeners, adds the person's id to those
-- on stage and no other, keeps the ids on stage distinct, and leaves the queue that the panel
-- offers with no request of that person.
pub add_speaker_to_stage_lem :
    (person : Person) (request_id : Option String) (st : Stage)
    → Distinct (on_stage_ids st)
    → Distinct (on_stage_ids (add_speaker_to_stage person request_id st).0)
      × ((k : String)
          → has k (on_stage_ids (add_speaker_to_stage person request_id st).0)
            ≡ (has k (on_stage_ids st) || person.id == k))
      × (queued person.id (add_speaker_to_stage person request_id st).0 ≡ false)
add_speaker_to_stage_lem person request_id st d =
    let there = has-add_speaker_to_stage person request_id st in
    (
      Distinct-add_speaker_to_stage person request_id st d,
      there,
      queued_on_stage person.id (add_speaker_to_stage person request_id st).0
          (there person.id ∙ ground (arith, eq_refl person.id)),
    )
