-- ===== src/Sidebar/Icons.antt =====
-- client/src/components/room/live-sidebar.tsx: the icon of a topic.
use wave_cast.Common.{String, List, [], ◌∷◌, none, some, find, lookup, to_lower_case, ◌==◌}

pub data Icon : Type 0 where
  circle_dot briefcase heart shield_check music stethoscope : Icon

abbrev topic_icons_by_name : List (String × Icon)
topic_icons_by_name =
    ("Tech", circle_dot)
    ∷ ("Business", briefcase)
    ∷ ("Health", heart)
    ∷ ("Education", shield_check)
    ∷ ("Music", music)
    ∷ ("Lifestyle", stethoscope)
    ∷ []

-- For a topic that is not the name of a member that every object has.
unfoldable get_topic_icon : String → Icon
unfolding lookup
get_topic_icon topic = elim (lookup topic topic_icons_by_name) [
  | some icon ↦ icon
  | none ↦ elim (find (λ e. to_lower_case topic == to_lower_case e.0) topic_icons_by_name) [
    | some (name, icon) ↦ icon
    | none ↦ circle_dot
  ]
]
