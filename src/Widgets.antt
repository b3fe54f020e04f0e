-- ===== src/Widgets.antt =====
-- client/src/components/room/raise-hands-list.tsx, live-stats.tsx and speaker-profile-tooltip.tsx,
-- ui/avatar.tsx and player/waveform.tsx: what small components show, without their styling.
use Prim.Native.String.{[], ◌∷◌, ◌++◌}
use mathlib.Core.List as L
use wave_cast.Common.{
  ℕ, ◌*◌, String, Bool, List, Option, none, some, map, take, lookup, or_else, split, truthy,
  begins_with, is_empty, ltb, ◌==◌, if◌then◌else◌,
}
use wave_cast.MockData.{waveform}
use wave_cast.Types.{Person, Room, status_text}
use wave_cast.Urls.{take_chars, drop_chars}

-- raise-hands-list.tsx.
pub record RaiseHandEntry : Type 0 where
  pub id : String
  pub name : String
  pub avatar : Option String
  pub requested_at : String

abbrev pub own_entry : RaiseHandEntry
own_entry = record {
  id = "current-user";
  name = "You";
  avatar = some "/brand/wave.svg";
  requested_at = "Just now";
}

unfoldable pub visible_items : List RaiseHandEntry → Bool → List RaiseHandEntry
visible_items items is_current_user_raised =
    if is_current_user_raised then L.◌∷◌ own_entry items else items

-- The list with its rows of picture, name and time; nothing when no hand is raised.
pub record HandRow : Type 0 where
  pub avatar : Option String
  pub name : String
  pub requested_at : String

hand_row : RaiseHandEntry → HandRow
hand_row entry = record {
  avatar = entry.avatar;
  name = entry.name;
  requested_at = entry.requested_at;
}

hand_rows : List RaiseHandEntry → Option (List HandRow)
hand_rows L.[] = none
hand_rows (L.◌∷◌ entry entries) = some (map hand_row (L.◌∷◌ entry entries))

raise_hands_rows : List RaiseHandEntry → Bool → Option (List HandRow)
unfolding visible_items hand_rows
raise_hands_rows items is_current_user_raised =
    hand_rows (visible_items items is_current_user_raised)

-- live-stats.tsx. `s.replace(" ago", "")`
unfoldable pub without_ago : String → String
without_ago [] = []
without_ago (c ∷ s) = if begins_with (c ∷ s) " ago" then drop_chars 4 (c ∷ s) else c ∷ without_ago s

-- The counts are written by `toLocaleString`, which is not modelled.
pub record RoomStatusItems : Type 0 where
  pub room_status : String
  pub listeners : ℕ
  pub speakers : ℕ
  pub active_since : String
  pub recording : String
  pub room_rules : String

unfoldable room_status_items : Room → RoomStatusItems
unfolding without_ago
room_status_items room = record {
  room_status = if status_text room.status == "live" then "Live" else "Offline";
  listeners = room.listener_count;
  speakers = room.speaker_count;
  active_since = without_ago room.started_at;
  recording = if room.recording then "On" else "Off";
  room_rules = "5";
}

-- The cards and the footer show the same labels and values; the numbers are written by an argument,
-- `toLocaleString`.
live_stats : (ℕ → String) → RoomStatusItems → List (String × String)
live_stats to_locale_string items =
    L.◌∷◌ ("Room Status", items.room_status)
      (L.◌∷◌ ("Listeners", to_locale_string items.listeners)
        (L.◌∷◌ ("Speakers", to_locale_string items.speakers)
          (L.◌∷◌ ("Active Since", items.active_since)
            (L.◌∷◌ ("Recording", items.recording) (L.◌∷◌ ("Room Rules", items.room_rules) L.[])))))

-- speaker-profile-tooltip.tsx.
pub record SpeakerStats : Type 0 where
  pub speaking : String
  pub followers : String
  pub sessions : String
  pub bio : String

abbrev speaker_stats : List (String × SpeakerStats)
speaker_stats =
    L.◌∷◌
      (
        "user_alice",
        record {
          speaking = "23m live";
          followers = "18.4K";
          sessions = "42 rooms";
          bio = "Host and AI product strategist guiding the room discussion.";
        },
      )
      (L.◌∷◌
        (
          "user_brian",
          record {
            speaking = "16m live";
            followers = "9.8K";
            sessions = "27 rooms";
            bio = "Builder focused on practical AI workflows and startup adoption.";
          },
        )
        (L.◌∷◌
          (
            "user_carol",
            record {
              speaking = "11m live";
              followers = "12.1K";
              sessions = "31 rooms";
              bio = "Research voice covering consumer AI trends and product behavior.";
            },
          )
          L.[]))

abbrev other_stats : SpeakerStats
other_stats = record {
  speaking = "Live now";
  followers = "4.2K";
  sessions = "12 rooms";
  bio = "Speaker in this live WaveCast room.";
}

pub record Tooltip : Type 0 where
  pub name : String
  pub badge : Option String
  pub username : String
  pub stats : SpeakerStats
  pub presence : String

unfoldable speaker_profile_tooltip : Person → Bool → Tooltip
unfolding lookup
speaker_profile_tooltip speaker is_room_creator = record {
  name = speaker.name;
  badge = if is_room_creator then some "Admin" else none;
  username = "@" ++ speaker.username;
  stats = or_else (lookup speaker.id speaker_stats) other_stats;
  presence = if truthy speaker.online then "Online and currently on stage" else "Recently active";
}

-- ui/avatar.tsx. Letters are upper-cased by an argument, `toUpperCase`, and counted as characters.
module _ (to_upper_case : String → String) where
  abbrev join_firsts : List String → String
  join_firsts L.[] = []
  join_firsts (L.◌∷◌ part parts) = take_chars 1 part ++ join_firsts parts

  pub initials : String → String
  unfolding split
  initials name = to_upper_case (take_chars 2 (join_firsts (split b' ' name)))

  -- The picture, or else the initials, and whether there is the mark of being on line; nothing but
  -- the children without a picture and a name.
  pub avatar_shown : Option String → Option String → Bool → Option (String × Bool)
  unfolding initials
  avatar_shown src name online =
      let src_text = or_else src "" in
      let name_text = or_else name "" in
      if is_empty src_text
      then (if is_empty name_text then none else some (initials name_text, online))
      else some (src_text, online)

-- A size in pixels is 0 like one that is not given; a named size is kept as such.
pub data AvatarSize : Type 0 where
  named : String → AvatarSize
  pixels : ℕ → AvatarSize

abbrev numeric_size : AvatarSize → Option ℕ
numeric_size (named s) = none
numeric_size (pixels n) = some n

abbrev data_size : AvatarSize → String
data_size (named s) = s
data_size (pixels n) = "default"

-- The width and height that the style sets, if it does.
abbrev style_size : AvatarSize → Option ℕ
style_size (named s) = none
style_size (pixels n) = if ltb 0 n then some n else none

-- Up to `max` people, and the text after them if it is there and neither 0 nor empty.
pub data Remainder : Type 0 where
  number : ℕ → Remainder
  text : String → Remainder

abbrev remainder_shown : Option Remainder → Option Remainder
remainder_shown none = none
remainder_shown (some (number n)) = if ltb 0 n then some (number n) else none
remainder_shown (some (text s)) = if is_empty s then none else some (text s)

unfoldable avatar_stack : List Person → ℕ → Option Remainder → List Person × Option Remainder
avatar_stack people max remainder = (take max people, remainder_shown remainder)

-- player/waveform.tsx: `Math.max(14, value * 0.72)` in hundredths of a pixel.
unfoldable waveform_heights : List ℕ
waveform_heights = map (λ value. if ltb 1400 (72 * value) then 72 * value else 1400) waveform
