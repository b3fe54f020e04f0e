-- ===== src/Sidebar/Results.antt =====
-- client/src/components/room/live-sidebar.tsx: what a search finds.
use Prim.Native.String.{[], ◌∷◌}
use mathlib.Core.List as L
use wave_cast.Common.{
  String, Bool, true, false, ◌&&◌, ◌≡◌, refl, List, filter, has, add, is_empty, trim, to_lower_case,
  includes, length, ◌==◌, arith, begins_with, eq_iff, sym, any-append, ltb,
}
use wave_cast.Sidebar.{
  Sidebar, topic_matches_room, matches_selected_topic, matches_room_search, filtered_room_results,
  toggle_topic_filter, clear_topic_filters, has_topic_filter, toggled,
}
use wave_cast.Types.{Room}

begins_with_refl : (s : String) → begins_with s s ≡ true
begins_with_refl [] = refl
begins_with_refl (c ∷ s) = ground (arith, begins_with_refl s)

includes_refl : (s : String) → includes s s ≡ true
unfolding includes
includes_refl [] = refl
includes_refl (c ∷ s) = ground (arith, begins_with_refl s)

topic_matches_room_refl : (topic : String) → topic_matches_room topic topic ≡ true
unfolding topic_matches_room
topic_matches_room_refl topic = rw (topic_matches_room, includes_refl (to_lower_case topic)) refl

-- A test that implies another loses nothing when the list was filtered by the other.
filter-filter :
    (p q : Room → Bool) (rs : List Room)
    → ((r : Room) → p r ≡ true → q r ≡ true)
    → filter p (filter q rs) ≡ filter p rs
filter-filter p q L.[] h = refl
filter-filter p q (L.◌∷◌ r rs) h = ground (arith, h r, filter-filter p q rs h)

own_topic-matches :
    (topic : String) (s : Sidebar) (r : Room)
    → is_empty (to_lower_case (trim s.room_search)) ≡ true
    → (r.topic == topic) ≡ true
    → (matches_selected_topic
          (toggle_topic_filter topic (clear_topic_filters s)).active_topic_filters
          r
        && matches_room_search (to_lower_case (trim s.room_search)) r)
      ≡ true
unfolding toggle_topic_filter clear_topic_filters matches_selected_topic matches_room_search
own_topic-matches topic s r blank same =
    let e : topic ≡ r.topic = sym ((eq_iff r.topic topic).0 same) in
    rw (blank, e, topic_matches_room_refl r.topic) refl

-- The rooms of a topic are found by it: with that one topic selected and a blank search, the
-- results have every room of the topic, in the order of the rooms.
own_topic-found :
    (rs : List Room) (topic : String) (s : Sidebar)
    → is_empty (to_lower_case (trim s.room_search)) ≡ true
    → filter
        (λ r. r.topic == topic)
        (filtered_room_results rs (toggle_topic_filter topic (clear_topic_filters s)))
      ≡ filter (λ r. r.topic == topic) rs
unfolding filtered_room_results toggle_topic_filter clear_topic_filters
own_topic-found rs topic s blank =
    filter-filter _ _ rs (λ r same. own_topic-matches topic s r blank same)

filter-filter_and :
    (p q t : Room → Bool) (rs : List Room)
    → ((r : Room) → p r ≡ true → q r ≡ true)
    → filter p (filter (λ r. q r && t r) rs) ≡ filter (λ r. p r && t r) rs
filter-filter_and p q t L.[] h = refl
filter-filter_and p q t (L.◌∷◌ r rs) h = ground (arith, h r, filter-filter_and p q t rs h)

more_selected :
    (topic : String) (fs : List String) (r : Room)
    → has topic fs ≡ false
    → ltb 0 (length fs) ≡ true
    → matches_selected_topic fs r ≡ true
    → matches_selected_topic (toggled topic fs) r ≡ true
unfolding matches_selected_topic add
more_selected topic L.[] r new some_on h = ground arith
more_selected topic (L.◌∷◌ f fs) r new some_on h =
    rw new (ground (arith, any-append (λ g. topic_matches_room g r.topic) fs (L.◌∷◌ topic L.[]), h))

-- Selecting one more topic never loses a result, if there is a topic selected already: the
-- results before are those of the results after that match the topics selected before.
more_topics-find_more :
    (rs : List Room) (topic : String) (s : Sidebar)
    → has topic s.active_topic_filters ≡ false
    → has_topic_filter s ≡ true
    → filter
        (matches_selected_topic s.active_topic_filters)
        (filtered_room_results rs (toggle_topic_filter topic s))
      ≡ filtered_room_results rs s
unfolding filtered_room_results toggle_topic_filter has_topic_filter
more_topics-find_more rs topic s new some_on =
    filter-filter_and _ _ _ rs (λ r. more_selected topic s.active_topic_filters r new some_on)
