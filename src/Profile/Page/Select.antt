-- ===== src/Profile/Page/Select.antt =====
-- client/src/app/profile/page.tsx: the choice of a device (DeviceSelect).
use Prim.Native.String.{◌++◌}
use wave_cast.Common.{
  ℕ, suc, String, Bool, true, false, ◌≡◌, refl, List, [], ◌∷◌, head?, is_some, Option, none, some,
  any, ◌==◌, is_empty, arith, ap, eq_refl, All, find, if◌then◌else◌,
}
use wave_cast.Common.Decimal.{show}
use wave_cast.Profile.Page.{
  Profile, Device, refresh_devices, next_selected, microphones, constraints, or_text, of_kind,
  id_of,
}

-- A device before its value among the choices: its id, or its kind and its index.
resolved_from : ℕ → List Device → List (Device × String)
resolved_from index [] = []
resolved_from index (d ∷ ds) =
    (d, or_text d.device_id (d.kind ++ ("-" ++ show index))) ∷ resolved_from (suc index) ds

unfoldable pub resolved_devices : List Device → List (Device × String)
unfolding resolved_from
resolved_devices devices = resolved_from 0 devices

abbrev is_choice : String → List (Device × String) → Bool
is_choice value = any (λ item. item.1 == value)

abbrev first_value : List (Device × String) → String
first_value [] = "__fallback"
first_value (item ∷ items) = item.1

unfoldable pub selected_value : String → List Device → String
unfolding resolved_devices
selected_value value devices =
    if is_choice value (resolved_devices devices)
    then value
    else first_value (resolved_devices devices)

-- `onValueChange`: what the selected device becomes.
unfoldable on_value_change : String → String → String
on_value_change next_value current = if next_value == "__fallback" then current else next_value

-- The texts of the choices.
choice_labels_from : String → ℕ → List Device → List String
choice_labels_from label index [] = []
choice_labels_from label index (d ∷ ds) =
    or_text d.label (label ++ (" " ++ show (suc index))) ∷ choice_labels_from label (suc index) ds

unfoldable pub choice_labels : String → String → List Device → List String
unfolding choice_labels_from
choice_labels label fallback [] = fallback ∷ []
choice_labels label fallback (d ∷ ds) = choice_labels_from label 0 (d ∷ ds)

abbrev HasId : Device → Type 0
HasId d = is_empty d.device_id ≡ false

abbrev pub are_ids : String → List Device → Bool
are_ids id = any (λ d. d.device_id == id)

choice-id :
    (value : String) (n : ℕ) (ds : List Device)
    → All HasId ds
    → is_choice value (resolved_from n ds) ≡ are_ids value ds
unfolding resolved_from
choice-id value n [] h = refl
choice-id value n (d ∷ ds) (some_id, h) = ground (arith, choice-id value (suc n) ds h)

-- The id of the device that stands first, or that of the choice that is not one.
abbrev pub first_id : List Device → String
first_id [] = "__fallback"
first_id (d ∷ ds) = d.device_id

first-id :
    (n : ℕ) (ds : List Device) → All HasId ds → first_value (resolved_from n ds) ≡ first_id ds
unfolding resolved_from
first-id n [] h = refl
first-id n (d ∷ ds) (some_id, h) = ground arith

id-found :
    (kind : String) (ds : List Device)
    → id_of (find (λ d. d.kind == kind) ds) ≡ id_of (head? (of_kind kind ds))
id-found kind [] = refl
id-found kind (d ∷ ds) = ground (arith, id-found kind ds)

first-HasId :
    (ds : List Device)
    → All HasId ds
    → is_some (head? ds) ≡ true
    → (is_empty (id_of (head? ds)) ≡ false) × (are_ids (id_of (head? ds)) ds ≡ true)
first-HasId [] ids h = absurd (ground arith)
first-HasId (d ∷ ds) (some_id, ids) h = (some_id, ground (arith, eq_refl d.device_id))

next_selected-none :
    (kind : String) (next_devices : List Device)
    → next_selected kind "" next_devices ≡ id_of (head? (of_kind kind next_devices))
unfolding next_selected
next_selected-none kind next_devices = id-found kind next_devices

next_selected-kept :
    (kind current : String) (next_devices : List Device)
    → is_empty current ≡ false
    → next_selected kind current next_devices ≡ current
unfolding next_selected
next_selected-kept kind current next_devices h = rw h refl

module _ (ds : List Device) (ids : All HasId ds) where
  selected_value-id :
      (value : String) → selected_value value ds ≡ (if are_ids value ds then value else first_id ds)
  unfolding selected_value resolved_devices
  selected_value-id value = ground (arith, choice-id value 0 ds ids, first-id 0 ds ids)

  abbrev asked : String → Option String
  asked value = if is_empty value then none else some value

  asked-shown :
      (value : String)
      → is_empty value ≡ false
      → are_ids value ds ≡ true
      → asked value ≡ some (selected_value value ds)
  asked-shown value some_id h = rw (selected_value-id value, h, some_id) refl

  selected_value-gone :
      (value : String) → are_ids value ds ≡ false → selected_value value ds ≡ first_id ds
  selected_value-gone value h = rw (selected_value-id value, h) refl

-- Where every microphone has an id: after a refresh with nothing selected before, or a device
-- that is still there, a test asks for the device that the choice shows. When the selected device
-- is gone, the choice shows the first one and a test still asks for the one that is gone.
pub refresh-constraints :
    (next_devices : List Device) (p : Profile)
    → All HasId (of_kind "audioinput" next_devices)
    → let q = refresh_devices (some next_devices) p in
      let shown = selected_value q.selected_mic (microphones q) in
      let exact = (constraints q).exact_device_id in
      (p.selected_mic ≡ "" → is_some (head? (microphones q)) ≡ true → exact ≡ some shown)
      × (is_empty p.selected_mic ≡ false
          → are_ids p.selected_mic (microphones q) ≡ true
          → exact ≡ some shown)
      × (is_empty p.selected_mic ≡ false
          → are_ids p.selected_mic (microphones q) ≡ false
          → (exact ≡ some p.selected_mic) × (shown ≡ first_id (microphones q)))
unfolding refresh_devices microphones constraints
refresh-constraints next p ids =
    let mics = of_kind "audioinput" next in
    (
      λ none_selected a_mic.
          let (some_id, there) = first-HasId mics ids a_mic in
          rw (none_selected, next_selected-none "audioinput" next)
            (asked-shown mics ids (id_of (head? mics)) some_id there),
      λ selected there.
          rw (next_selected-kept "audioinput" p.selected_mic next selected)
            (asked-shown mics ids p.selected_mic selected there),
      λ selected gone. rw (next_selected-kept "audioinput" p.selected_mic next selected) (
        (ap (λ b. if b then none else some p.selected_mic) selected),
        selected_value-gone mics ids p.selected_mic gone,
      ),
    )
