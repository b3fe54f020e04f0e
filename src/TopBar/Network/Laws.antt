-- ===== src/TopBar/Network/Laws.antt =====
-- client/src/components/common/top-bar.tsx: the state says what the browser told last.
use wave_cast.Common.{
  String, Bool, true, false, not, ◌≡◌, refl, sym, ap, if◌then◌else◌, ◌∙◌, List, [], ◌∷◌, filter,
  last?, All, Option, none, some, arith, truthy, is_some, Bool-cases, inl, inr,
}
use wave_cast.TopBar.Network.{
  Navigator, Network, NetworkQuality, initial, quality, update_network, updates,
  network_status_label,
}

-- What the last of a list gives, if there is one.
abbrev pub last_or {ℓ κ} : {A : Type ℓ} {B : Type κ} → (A → B) → Option A → B → B
last_or f none b = b
last_or f (some a) b = f a

last_or-cons {ℓ κ} :
    {A : Type ℓ} {B : Type κ} (f : A → B) (x : A) (xs : List A) (b : B)
    → last_or f (last? (x ∷ xs)) b ≡ last_or f (last? xs) (f x)
last_or-cons f x [] b = refl
last_or-cons f x (y ∷ ys) b = last_or-cons f y ys b ∙ sym (last_or-cons f y ys (f x))

abbrev pub is_online : Navigator → Bool
is_online navigator = truthy navigator.on_line

abbrev pub quality_of : Navigator → NetworkQuality
quality_of navigator = quality navigator.connection

abbrev TellsOnLine : Navigator → Type 0
TellsOnLine navigator = is_some navigator.on_line ≡ true

-- The label while the browser is on line, or not.
abbrev pub label_of : Bool → NetworkQuality → String
label_of false q = "Offline"
label_of true q = elim q [
  | NetworkQuality.excellent ↦ "Excellent"
  | NetworkQuality.good ↦ "Good"
  | NetworkQuality.poor ↦ "Weak"
]

network_status_label-label_of :
    (n : Network) → network_status_label n ≡ label_of (not n.is_offline) n.network_quality
unfolding network_status_label
network_status_label-label_of n = elim (Bool-cases n.is_offline) [
  | inl off ↦ rw off refl
  | inr on ↦ rw on refl
]

module _ (navigator : Navigator) (n : Network) (tells : TellsOnLine navigator) where
  update-is_offline : (update_network navigator n).is_offline ≡ not (is_online navigator)
  unfolding update_network
  update-is_offline = ground arith

  update-quality :
      (update_network navigator n).network_quality
      ≡ (if is_online navigator then quality_of navigator else n.network_quality)
  unfolding update_network
  update-quality = ground arith

updates-is_offline :
    (ns : List Navigator) (n : Network)
    → All TellsOnLine ns
    → (updates ns n).is_offline ≡ last_or (λ m. not (is_online m)) (last? ns) n.is_offline
unfolding updates
updates-is_offline [] n h = refl
updates-is_offline (m ∷ ns) n (tells, h) =
    updates-is_offline ns (update_network m n) h
    ∙ ap (last_or (λ m. not (is_online m)) (last? ns)) (update-is_offline m n tells)
    ∙ sym (last_or-cons (λ m. not (is_online m)) m ns n.is_offline)

updates-quality :
    (ns : List Navigator) (n : Network)
    → All TellsOnLine ns
    → (updates ns n).network_quality
      ≡ last_or quality_of (last? (filter is_online ns)) n.network_quality
unfolding updates
updates-quality [] n h = refl
updates-quality (m ∷ ns) n (tells, h) =
    updates-quality ns (update_network m n) h
    ∙ ap (last_or quality_of (last? (filter is_online ns))) (update-quality m n tells)
    ∙ (elim (Bool-cases (is_online m)) [
      | inl on ↦ rw on (sym (last_or-cons quality_of m (filter is_online ns) n.network_quality))
      | inr off ↦ rw off refl
    ])

not-not : (b : Bool) → not (not b) ≡ b
not-not true = refl
not-not false = refl

not_last :
    (o : Option Navigator)
    → last_or (λ m. not (is_online m)) o false ≡ not (last_or is_online o true)
not_last none = refl
not_last (some m) = refl

-- Where the browser tells at every event whether it is on line: after any sequence of events the
-- label is Offline exactly when the last one told so, and otherwise names the quality of the
-- connection at the last event on line.
pub updates_lem :
    (ns : List Navigator)
    → All TellsOnLine ns
    → let n = updates ns initial in
      let on = last_or is_online (last? ns) true in
      let last_quality = last_or quality_of (last? (filter is_online ns)) NetworkQuality.good in
      (n.is_offline ≡ not on)
      × (n.network_quality ≡ last_quality)
      × (network_status_label n ≡ label_of on last_quality)
unfolding initial
updates_lem ns h =
    let n = updates ns initial in
    let off = updates-is_offline ns initial h ∙ not_last (last? ns) in
    let last_quality = updates-quality ns initial h in
    let on : not n.is_offline ≡ last_or is_online (last? ns) true =
      ap not off ∙ not-not (last_or is_online (last? ns) true) in
    (
      off,
      last_quality,
      network_status_label-label_of n
          ∙ ap (λ b. label_of b n.network_quality) on
          ∙ ap (label_of (last_or is_online (last? ns) true)) last_quality,
    )
