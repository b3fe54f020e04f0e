-- ===== src/Stores/Reminder/Laws.antt =====
-- client/src/stores/room-reminder-store.ts: the store is a set of ids, whatever the order of the
-- actions.
use wave_cast.Common.{
  String, Bool, not, ◌&&◌, ◌||◌, ◌≡◌, ◌∷◌, [], List, has, Distinct, ◌==◌, arith, eq_iff, has-append,
  has-delete, delete, Distinct-append_one, Distinct-delete, if◌then◌else◌, refl, ap, ◌∙◌, false,
}
use mathlib.Core.Path.{fun_ext}
use wave_cast.Stores.Reminder.{
  RoomReminderState, initial, add_reminder, remove_reminder, toggle_reminder,
}

abbrev pub is_reminded : String → RoomReminderState → Bool
is_reminded id st = has id st.reminded_room_ids

pub data Action : Type 0 where
  add remove toggle : String → Action

pub apply : Action → RoomReminderState → RoomReminderState
unfolding add_reminder remove_reminder toggle_reminder
apply (add id) st = add_reminder id st
apply (remove id) st = remove_reminder id st
apply (toggle id) st = toggle_reminder id st

pub run : List Action → RoomReminderState → RoomReminderState
run [] st = st
run (a ∷ rest) st = run rest (apply a st)

-- What an action does to a set of ids, as its characteristic function.
abbrev pub set_action : Action → (String → Bool) → String → Bool
set_action (add id) s j = s j || id == j
set_action (remove id) s j = s j && not (id == j)
set_action (toggle id) s j = if id == j then not (s j) else s j

pub apply-is_reminded :
    (a : Action) (st : RoomReminderState) (j : String)
    → is_reminded j (apply a st) ≡ set_action a (λ i. is_reminded i st) j
unfolding apply delete
apply-is_reminded (add id) st j =
    ground (arith, has-append j st.reminded_room_ids (id ∷ []), eq_iff id j)
apply-is_reminded (remove id) st j = has-delete id j st.reminded_room_ids
apply-is_reminded (toggle id) st j =
    let left = has-delete id j st.reminded_room_ids in
    ground (arith, has-append j st.reminded_room_ids (id ∷ []), left, eq_iff id j)

apply-Distinct :
    (a : Action) (st : RoomReminderState)
    → Distinct st.reminded_room_ids
    → Distinct (apply a st).reminded_room_ids
unfolding apply delete
apply-Distinct (add id) st d = ground (arith, Distinct-append_one st.reminded_room_ids id d)
apply-Distinct (remove id) st d = Distinct-delete id st.reminded_room_ids d
apply-Distinct (toggle id) st d = ground (
  arith,
  Distinct-append_one st.reminded_room_ids id d,
  Distinct-delete id st.reminded_room_ids d,
)

abbrev pub run_set : List Action → (String → Bool) → String → Bool
run_set [] s = s
run_set (a ∷ rest) s = run_set rest (set_action a s)

run-is_reminded :
    (actions : List Action) (st : RoomReminderState)
    → (λ j. is_reminded j (run actions st)) ≡ run_set actions (λ i. is_reminded i st)
unfolding run
run-is_reminded [] st = refl
run-is_reminded (a ∷ rest) st =
    run-is_reminded rest (apply a st) ∙ ap (run_set rest) (fun_ext (λ j. apply-is_reminded a st j))

run-Distinct :
    (actions : List Action) (st : RoomReminderState)
    → Distinct st.reminded_room_ids
    → Distinct (run actions st).reminded_room_ids
unfolding run
run-Distinct [] st d = d
run-Distinct (a ∷ rest) st d = run-Distinct rest (apply a st) (apply-Distinct a st d)

-- After any sequence of add, remove and toggle actions from the empty store no room id is listed
-- twice, and the ids listed are those of the set that the same actions give: add puts the id in,
-- remove takes it out, toggle does whichever applies.
pub run-refines-set :
    (actions : List Action)
    → Distinct (run actions initial).reminded_room_ids
      × ((j : String) → is_reminded j (run actions initial) ≡ run_set actions (λ _. false) j)
run-refines-set actions =
    (run-Distinct actions initial tt, λ j. ap (λ f. f j) (run-is_reminded actions initial))
