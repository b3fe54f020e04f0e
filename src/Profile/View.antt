-- ===== src/Profile/View.antt =====
-- client/src/app/profile/page.tsx: what the page shows, without most of the styling.
pub mod Level
use Prim.Native.String as S
use wave_cast.Common.{
  ℕ, String, Bool, not, ◌&&◌, List, [], ◌∷◌, Option, map, ltb, length, is_empty, ◌==◌,
  if◌then◌else◌,
}
use wave_cast.Common.Decimal.{show}
use wave_cast.MockData.{alex}
use wave_cast.Profile.Microphone.{Mic}
use wave_cast.Profile.Page.{
  Profile, DevicePanel, profile, devices, preferences, Device, or_text, microphones, speakers,
  permission_copy,
}
use wave_cast.Profile.Page.Select.{resolved_devices, selected_value, choice_labels}
use wave_cast.Types.{role_text}

abbrev voice_level_steps : List ℕ
voice_level_steps = 1 ∷ 2 ∷ 3 ∷ []

-- The label beside the level of the voice, and for each of its bars whether it is lit.
unfoldable voice_label : Mic → String
voice_label m =
    if m.is_mic_testing
    then S.◌++◌ "Step " (S.◌++◌ (show m.voice_level_step) "/3")
    else "Mic inactive"

pub active_steps : Mic → List Bool
active_steps m =
    map (λ step_number. m.is_mic_testing && not (ltb m.voice_level_step step_number))
      voice_level_steps

-- The choice of a device: the value, whether it can be changed, and the choices.
pub record DeviceSelect : Type 0 where
  pub label : String
  pub selected : String
  pub is_disabled : Bool
  pub choices : List String

device_select : String → String → String → List Device → DeviceSelect
unfolding selected_value choice_labels resolved_devices
device_select label fallback current ds = record {
  label = label;
  selected = selected_value current ds;
  is_disabled = not (ltb 0 (length (resolved_devices ds)));
  choices = choice_labels label fallback ds;
}

-- The row of a switch: the label, and the classes of the track and of the knob.
unfoldable switch_row : String → Bool → String × String × String
switch_row label checked = (
  label,
  if checked then "bg-primary" else "bg-muted",
  if checked then "translate-x-5" else "translate-x-0",
)

-- The permission with its detail, the label of the button, and the switches.
pub record DevicesPanel : Type 0 where
  pub description : String
  pub selects : List DeviceSelect
  pub permission : String × String
  pub test_button : String
  pub switches : List (String × Bool)

devices_panel : Profile → Mic → DevicesPanel
unfolding device_select microphones speakers permission_copy
devices_panel p m = record {
  description = "Choose your microphone, speaker, camera, and stage defaults.";
  selects =
      device_select "Microphone" "No microphone detected" p.selected_mic (microphones p)
      ∷ device_select "Speaker output" "Default browser output" p.selected_speaker (speakers p)
      ∷ [];
  permission = permission_copy m.permission_status;
  test_button = if m.is_mic_testing then "Stop microphone test" else "Test microphone";
  switches =
      ("Noise suppression", p.noise_suppression)
      ∷ ("Echo cancellation", p.echo_cancellation)
      ∷ ("Auto gain", p.auto_gain)
      ∷ ("Join muted", p.join_muted)
      ∷ [];
}

-- The fields of the profile are not held by the page: each is a label and its first value.
profile_panel : List (String × String)
profile_panel =
    ("Display name", alex.name)
    ∷ ("Username", alex.username)
    ∷ ("Bio", "Host of practical AI rooms, product sessions, and builder roundtables.")
    ∷ []

preferences_panel : List (String × String)
preferences_panel =
    ("Smart reminders", "Notify me before saved rooms go live.")
    ∷ ("Private presence", "Hide my listening activity from people outside the room.")
    ∷ ("Auto room recovery", "Reconnect me to the last active room after network drops.")
    ∷ ("Audio safety", "Keep stage audio normalized before joining as a speaker.")
    ∷ []

-- The panel below the tabs.
pub data PanelView : Type 0 where
  profile_view : List (String × String) → PanelView
  devices_view : DevicesPanel → PanelView
  preferences_view : List (String × String) → PanelView

unfoldable panel_view : Profile → Mic → PanelView
unfolding profile_panel devices_panel preferences_panel
panel_view p m = elim p.active_panel [
  | profile ↦ profile_view profile_panel
  | devices ↦ devices_view (devices_panel p m)
  | preferences ↦ preferences_view preferences_panel
]

-- The tabs, each with the panel that a click on it opens.
unfoldable panel_tabs : List (String × DevicePanel)
panel_tabs = ("Profile", profile) ∷ ("Devices", devices) ∷ ("Preferences", preferences) ∷ []

-- The card of the user: the picture, the name, the line below it and the name of the file.
unfoldable pub user_card : Profile → Option String × String × String × String
user_card p = (
  p.avatar_preview,
  alex.name,
  S.◌++◌ "@" (S.◌++◌ alex.username (S.◌++◌ " • " alex.id)),
  or_text p.avatar_file_name "Profile photo synced with your room identity",
)

unfoldable status_cards : Mic → List (String × String)
unfolding permission_copy
status_cards m =
    ("User ID", alex.id)
    ∷ ("Role", role_text alex.role)
    ∷ ("Mic", (permission_copy m.permission_status).0)
    ∷ []
