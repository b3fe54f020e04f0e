-- ===== src/TopBar/Network.antt =====
-- client/src/components/common/top-bar.tsx: the state of the network.
pub mod Laws
use wave_cast.Common.{
  ℕ, ◌*◌, String, Bool, true, false, not, ◌&&◌, ◌||◌, List, [], ◌∷◌, Option, none, some, or_else,
  leb, ltb, ◌==◌, if◌then◌else◌,
}

pub data NetworkQuality : Type 0 where
  excellent good poor : NetworkQuality

-- What a browser tells of the connection. The speed is in the units that a browser rounds it to,
-- 25 kilobits per second.
pub record NetworkConnection : Type 0 where
  pub effective_type : Option String
  pub downlink : Option ℕ

-- What a browser tells: whether it is on line, and the connection; either may be missing.
pub record Navigator : Type 0 where
  pub on_line : Option Bool
  pub connection : Option NetworkConnection

pub record Network : Type 0 where
  pub is_offline : Bool
  pub network_quality : NetworkQuality

unfoldable pub initial : Network
initial = record { is_offline = false; network_quality = good }

abbrev megabits : ℕ → ℕ
megabits n = 40 * n

abbrev effective_type_of : Option NetworkConnection → String
effective_type_of none = ""
effective_type_of (some c) = or_else c.effective_type ""

abbrev downlink_of : Option NetworkConnection → ℕ
downlink_of none = 0
downlink_of (some c) = or_else c.downlink 0

-- The part after the check that the browser is on line.
pub quality : Option NetworkConnection → NetworkQuality
quality connection =
    let effective_type = effective_type_of connection in
    let downlink = downlink_of connection in
    if effective_type == "4g" && leb (megabits 8) downlink
    then excellent
    else (if effective_type == "4g" || effective_type == "3g" || leb (megabits 4) downlink
        then good
        else poor)

-- `updateNetwork`, which runs when the bar is mounted and on each event of the browser.
pub update_network : Navigator → Network → Network
unfolding quality
update_network navigator n = elim navigator.on_line [
  | none ↦ record n { network_quality = quality navigator.connection }
  | some on_line ↦
      if not on_line
      then record n { is_offline = true }
      else record n { is_offline = false; network_quality = quality navigator.connection }
]

-- What the browser tells at each event, in order.
pub updates : List Navigator → Network → Network
unfolding update_network
updates [] n = n
updates (navigator ∷ rest) n = updates rest (update_network navigator n)

unfoldable pub network_status_label : Network → String
network_status_label n =
    if n.is_offline
    then "Offline"
    else elim n.network_quality [ excellent ↦ "Excellent" | good ↦ "Good" | poor ↦ "Weak" ]

-- The colour of the badge.
unfoldable pub network_status_badge : Network → String
network_status_badge n =
    if n.is_offline
    then "destructive"
    else elim n.network_quality [ excellent ↦ "emerald" | good ↦ "chart-3" | poor ↦ "amber" ]

-- The heights of the second and the third bar, in pixels, and the text beside them.
unfoldable pub network_bars : Network → ℕ × ℕ × String
network_bars n = (
  if n.is_offline then 4 else (elim n.network_quality [ excellent ↦ 9 | good ↦ 7 | poor ↦ 9 ]),
  if n.is_offline then 6 else 11,
  if n.is_offline then "Offline" else "NET",
)
