-- ===== src/TopBar/Notifications.antt =====
-- client/src/components/common/notification-menu.tsx: the notifications and the menu, without most
-- of its styling.
pub mod Sections
use Prim.Native.String.{◌++◌}
use mathlib.Core.List as L
use wave_cast.Common.{
  ℕ, String, Bool, true, false, not, List, [], ◌∷◌, Option, none, some, filter, length, map, ltb,
  eqb, truthy, if◌then◌else◌,
}
use wave_cast.Common.Decimal.{show}

pub data NotificationKind : Type 0 where
  room invite speaker system : NotificationKind

pub record NotificationItem : Type 0 where
  pub id : String
  pub title : String
  pub description : String
  pub time : String
  pub kind : NotificationKind
  pub unread : Option Bool

abbrev pub notifications : List NotificationItem
notifications =
    (record {
      id = "room-live";
      title = "Room is live";
      description = "The Future of AI in Everyday Life is active now.";
      time = "now";
      kind = room;
      unread = some true;
    })
    ∷ (record {
      id = "invite-priya";
      title = "New room invite";
      description = "Priya Shah invited you to join a live room.";
      time = "4m";
      kind = invite;
      unread = some true;
    })
    ∷ (record {
      id = "speaker-approved";
      title = "Speaker request approved";
      description = "You can go on stage when you are ready.";
      time = "18m";
      kind = speaker;
      unread = none;
    })
    ∷ (record {
      id = "recording-ready";
      title = "Recording is ready";
      description = "Session recording has finished processing.";
      time = "1h";
      kind = system;
      unread = none;
    })
    ∷ []

abbrev notification_icon : NotificationKind → String
notification_icon room = "Radio"
notification_icon invite = "ChatCircle"
notification_icon speaker = "MicrophoneStage"
notification_icon system = "CheckCircle"

abbrev notification_tone : NotificationKind → String
notification_tone room = "bg-[#6684FF]/12 text-[#6684FF]"
notification_tone invite = "bg-chart-3/12 text-chart-3"
notification_tone speaker = "bg-emerald-500/12 text-emerald-500"
notification_tone system = "bg-muted text-muted-foreground"

abbrev is_unread : NotificationItem → Bool
is_unread notification = truthy notification.unread

-- The notifications are an argument of the menu here.
pub unread_notifications : List NotificationItem → List NotificationItem
unread_notifications = filter is_unread

pub earlier_notifications : List NotificationItem → List NotificationItem
earlier_notifications = filter (λ notification. not (is_unread notification))

-- A section with its title; one without notifications is not shown.
abbrev pub section : String → List NotificationItem → List (String × List NotificationItem)
section title [] = []
section title (item ∷ items) = (title, item ∷ items) ∷ []

pub record Menu : Type 0 where
  pub badge : Option ℕ
  pub summary : String
  pub sections : List (String × List NotificationItem)

unfoldable pub notification_menu : List NotificationItem → Menu
unfolding unread_notifications earlier_notifications show
notification_menu items =
    let unread_count = length (unread_notifications items) in
    record {
      badge = if ltb 0 unread_count then some unread_count else none;
      summary = show unread_count ++ (" unread update" ++ (if eqb unread_count 1 then "" else "s"));
      sections =
          L.◌++◌ (section "New" (unread_notifications items))
            (section "Earlier" (earlier_notifications items));
    }

-- The bar at the left of a row tells whether it is unread.
pub record NotificationRow : Type 0 where
  pub bar : String
  pub icon : String
  pub tone : String
  pub title : String
  pub time : String
  pub description : String

abbrev notification_row : NotificationItem → NotificationRow
notification_row notification = record {
  bar = if is_unread notification then "bg-primary" else "bg-border";
  icon = notification_icon notification.kind;
  tone = notification_tone notification.kind;
  title = notification.title;
  time = notification.time;
  description = notification.description;
}

unfoldable section_rows : Menu → List (String × List NotificationRow)
section_rows menu = map (λ s. (s.0, map notification_row s.1)) menu.sections
