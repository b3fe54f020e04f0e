-- ===== src/Profile/Page.antt =====
-- client/src/app/profile/page.tsx: the devices, the picture, the preferences and the panels.
pub mod Avatar
pub mod Select
use wave_cast.Common.{
  String, Bool, true, false, not, List, [], ◌∷◌, Option, none, some, map, find, filter, ◌==◌,
  is_empty, or_else, if◌then◌else◌,
}
use wave_cast.MockData.{alex}
use wave_cast.Types.{Person}
use wave_cast.Profile.Microphone.{PermissionStatus}

pub data DevicePanel : Type 0 where
  profile devices preferences : DevicePanel

-- `MediaDeviceInfo`
pub record Device : Type 0 where
  pub kind : String
  pub device_id : String
  pub label : String

-- The state of the page but for the microphone test; the name and the object URL of the picture
-- that was picked, and the object URLs that the browser keeps.
pub record Profile : Type 0 where
  pub active_panel : DevicePanel
  pub devices : List Device
  pub avatar_preview : Option String
  pub avatar_file_name : String
  pub selected_mic : String
  pub selected_speaker : String
  pub noise_suppression : Bool
  pub echo_cancellation : Bool
  pub auto_gain : Bool
  pub join_muted : Bool
  pub avatar_object_url : Option String
  pub object_urls : List String

unfoldable pub initial : Profile
initial = record {
  active_panel = DevicePanel.devices;
  devices = [];
  avatar_preview = some alex.avatar;
  avatar_file_name = "";
  selected_mic = "";
  selected_speaker = "";
  noise_suppression = true;
  echo_cancellation = true;
  auto_gain = true;
  join_muted = true;
  avatar_object_url = none;
  object_urls = [];
}

-- `a || b`
abbrev pub or_text : String → String → String
or_text s t = if is_empty s then t else s

abbrev pub of_kind : String → List Device → List Device
of_kind kind = filter (λ d. d.kind == kind)

unfoldable pub microphones : Profile → List Device
microphones p = of_kind "audioinput" p.devices

unfoldable pub speakers : Profile → List Device
speakers p = of_kind "audiooutput" p.devices

abbrev pub id_of : Option Device → String
id_of none = ""
id_of (some d) = d.device_id

-- The first device of a kind, when none is selected.
pub next_selected : String → String → List Device → String
next_selected kind current next_devices =
    or_text current (id_of (find (λ d. d.kind == kind) next_devices))

-- The list is none where the browser cannot list devices.
pub refresh_devices : Option (List Device) → Profile → Profile
unfolding next_selected
refresh_devices none p = p
refresh_devices (some next_devices) p = record p {
  devices = next_devices;
  selected_mic = next_selected "audioinput" p.selected_mic next_devices;
  selected_speaker = next_selected "audiooutput" p.selected_speaker next_devices;
}

-- The switches and the tabs: each row gives the value reversed to its setter.
pub data Setting : Type 0 where
  noise_suppression echo_cancellation auto_gain join_muted : Setting

unfoldable pub toggle : Setting → Profile → Profile
toggle noise_suppression p = record p { noise_suppression = not p.noise_suppression }
toggle echo_cancellation p = record p { echo_cancellation = not p.echo_cancellation }
toggle auto_gain p = record p { auto_gain = not p.auto_gain }
toggle join_muted p = record p { join_muted = not p.join_muted }

abbrev set_active_panel : DevicePanel → Profile → Profile
set_active_panel panel p = record p { active_panel = panel }

-- The `audio` constraints of the microphone test.
pub record Constraints : Type 0 where
  pub noise_suppression : Bool
  pub echo_cancellation : Bool
  pub auto_gain_control : Bool
  pub exact_device_id : Option String

pub constraints : Profile → Constraints
constraints p = record {
  noise_suppression = p.noise_suppression;
  echo_cancellation = p.echo_cancellation;
  auto_gain_control = p.auto_gain;
  exact_device_id = if is_empty p.selected_mic then none else some p.selected_mic;
}

-- The label and the detail that are shown for a permission.
unfoldable pub permission_copy : PermissionStatus → String × String
permission_copy PermissionStatus.idle =
    ("Not tested", "Test your microphone before going on stage.")
permission_copy PermissionStatus.ready =
    ("Ready", "Microphone permission is enabled for live rooms.")
permission_copy PermissionStatus.blocked =
    ("Blocked", "Browser permission is blocked. Enable microphone access in site settings.")
