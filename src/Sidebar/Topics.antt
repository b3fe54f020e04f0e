-- ===== src/Sidebar/Topics.antt =====
-- client/src/components/room/live-sidebar.tsx: what the list of topics counts.
use wave_cast.Common.{
  ℕ, ◌+◌, String, true, ◌||◌, ◌≡◌, refl, List, [], ◌∷◌, map, filter, length, All, lookup, insert,
  lookup-insert, keys, has, Distinct, has-keys-insert, Distinct-keys-insert, arith, or_else, ◌==◌,
  eq_iff, eq_refl, ◌∙◌, ap,
}
use wave_cast.Common.Int.{ℤ}
use wave_cast.Common.Sort.{sort-All, has-sort, Distinct-sort}
use wave_cast.Sidebar.{TopicEntry, count_rooms, add_chips, topic_list}
use wave_cast.Types.{Room}

abbrev pub topics : List Room → List String
topics = map (λ r. r.topic)

-- The number of rooms with a topic.
abbrev pub rooms_with : String → List Room → ℕ
rooms_with k rs = length (filter (λ r. r.topic == k) rs)

count-lookup :
    (k : String) (rs : List Room) (m : List (String × ℕ))
    → or_else (lookup k (count_rooms rs m)) 0 ≡ or_else (lookup k m) 0 + rooms_with k rs
unfolding count_rooms
count-lookup k [] m = omega arith
count-lookup k (r ∷ rs) m = ground (
  arith,
  count-lookup k rs (insert r.topic (or_else (lookup r.topic m) 0 + 1) m),
  lookup-insert r.topic k (or_else (lookup r.topic m) 0 + 1) m,
  eq_iff r.topic k,
)

count-has :
    (k : String) (rs : List Room) (m : List (String × ℕ))
    → has k (keys (count_rooms rs m)) ≡ (has k (keys m) || has k (topics rs))
unfolding count_rooms
count-has k [] m = ground arith
count-has k (r ∷ rs) m = ground (
  arith,
  count-has k rs (insert r.topic (or_else (lookup r.topic m) 0 + 1) m),
  has-keys-insert r.topic k (or_else (lookup r.topic m) 0 + 1) m,
)

count-Distinct :
    (rs : List Room) (m : List (String × ℕ))
    → Distinct (keys m)
    → Distinct (keys (count_rooms rs m))
unfolding count_rooms
count-Distinct [] m h = h
count-Distinct (r ∷ rs) m h = count-Distinct rs _ (Distinct-keys-insert r.topic _ m h)

chips-lookup :
    (k : String) (cs : List String) (m : List (String × ℕ))
    → or_else (lookup k (add_chips cs m)) 0 ≡ or_else (lookup k m) 0
unfolding add_chips
chips-lookup k [] m = refl
chips-lookup k (c ∷ cs) m = ground (
  arith,
  chips-lookup k cs (insert c (or_else (lookup c m) 0) m),
  lookup-insert c k (or_else (lookup c m) 0) m,
  eq_iff c k,
)

chips-has :
    (k : String) (cs : List String) (m : List (String × ℕ))
    → has k (keys (add_chips cs m)) ≡ (has k (keys m) || has k cs)
unfolding add_chips
chips-has k [] m = ground arith
chips-has k (c ∷ cs) m = ground (
  arith,
  chips-has k cs (insert c (or_else (lookup c m) 0) m),
  has-keys-insert c k (or_else (lookup c m) 0) m,
)

chips-Distinct :
    (cs : List String) (m : List (String × ℕ))
    → Distinct (keys m)
    → Distinct (keys (add_chips cs m))
unfolding add_chips
chips-Distinct [] m h = h
chips-Distinct (c ∷ cs) m h = chips-Distinct cs _ (Distinct-keys-insert c _ m h)

-- The list of topics as it is before it is sorted.
abbrev table : List String → List Room → List (String × ℕ)
table chips rs = add_chips chips (count_rooms rs [])

abbrev entry : String × ℕ → TopicEntry
entry e = record { label = e.0; room_count = e.1 }

abbrev pub labels : List TopicEntry → List String
labels = map (λ e. e.label)

labels-keys : (m : List (String × ℕ)) → labels (map entry m) ≡ keys m
labels-keys [] = refl
labels-keys (e ∷ m) = ap (λ l. e.0 ∷ l) (labels-keys m)

-- In a map with distinct keys every entry is what looking its key up gives.
entries-lookup :
    (count : String → ℕ) (m : List (String × ℕ))
    → Distinct (keys m)
    → ((k : String) → has k (keys m) ≡ true → or_else (lookup k m) 0 ≡ count k)
    → All (λ e. e.room_count ≡ count e.label) (map entry m)
unfolding lookup
entries-lookup count [] d h = tt
entries-lookup count ((k, n) ∷ m) (new, d) h = (
  ground (arith, h k, eq_refl k),
  entries-lookup count m d (λ j there. ground (arith, h j, eq_iff k j)),
)

-- Whatever the chips, the rooms and the order of texts: the list of topics names each label once,
-- it names exactly the chips and the topics of the rooms, and beside each stands the number of
-- rooms that have that topic, which is 0 for a chip without rooms.
pub topic_list_lem :
    (locale_compare : String → String → ℤ) (chips : List String) (rs : List Room)
    → Distinct (labels (topic_list locale_compare chips rs))
      × ((k : String)
          → has k (labels (topic_list locale_compare chips rs))
            ≡ (has k (topics rs) || has k chips))
      × All (λ e. e.room_count ≡ rooms_with e.label rs) (topic_list locale_compare chips rs)
unfolding topic_list lookup
topic_list_lem locale_compare chips rs =
    let cmp : TopicEntry → TopicEntry → ℤ = λ a b. locale_compare a.label b.label in
    let m = table chips rs in
    let once = chips-Distinct chips _ (count-Distinct rs [] tt) in
    (
      Distinct-sort cmp (λ e. e.label) (map entry m) (rw (labels-keys m) once),
      λ k.
          has-sort cmp (λ e. e.label) k (map entry m)
          ∙ (ap (has k) (labels-keys m)
              ∙ (chips-has k chips (count_rooms rs [])
                  ∙ ap (λ b. b || has k chips) (count-has k rs []))),
      sort-All cmp _ (map entry m) (
          entries-lookup (λ k. rooms_with k rs) m once
            (λ k _.
              chips-lookup k chips (count_rooms rs []) ∙ (count-lookup k rs [] ∙ omega arith))),
    )
