-- ===== src/Reactions/Reactable.antt =====
-- What both chats of a room offer on a message, client/src/components/room/listener-panel.tsx and
-- room-side-panel.tsx: an interface of taps and counts, and what follows for any that meets it.
use mathlib.Core.Path.{fun_ext}
use wave_cast.Common.{
  ℕ, ◌+◌, Bool, false, not, List, [], ◌∷◌, ◌≡◌, refl, ap, ◌∙◌, if◌then◌else◌, arith,
}
use wave_cast.Reactions.{QuickReaction, same_reaction}
use wave_cast.Reactions.Laws.{one_if, same_group}

-- What a tap makes of the user's own reactions.
abbrev pub tap_own : QuickReaction → (QuickReaction → Bool) → QuickReaction → Bool
tap_own r own q =
    if same_reaction r q then not (own q) else (if same_group r q then false else own q)

abbrev pub taps_own : List QuickReaction → (QuickReaction → Bool) → QuickReaction → Bool
taps_own [] own = own
taps_own (r ∷ rs) own = taps_own rs (tap_own r own)

pub record Reactable (M : Type 0) : Type 1 where
  pub IsTallied : M → Type 0
  pub tap : QuickReaction → M → M
  pub count : M → QuickReaction → ℕ
  pub own : M → QuickReaction → Bool
  pub keeps_tallied : (r : QuickReaction) (m : M) → IsTallied m → IsTallied (tap r m)
  pub own_tapped :
      (r q : QuickReaction) (m : M) → IsTallied m → own (tap r m) q ≡ tap_own r (own m) q
  pub count_tapped :
      (r q : QuickReaction) (m : M)
      → IsTallied m
      → count (tap r m) q + one_if (own m q) ≡ count m q + one_if (own (tap r m) q)

module _ {M : Type 0} ⦃c : Reactable M⦄ where
  -- The user's taps on one message, one after another.
  pub tap_all : List QuickReaction → M → M
  tap_all [] m = m
  tap_all (r ∷ rs) m = tap_all rs (c.tap r m)

  tap_all-own :
      (rs : List QuickReaction) (m : M)
      → c.IsTallied m
      → c.own (tap_all rs m) ≡ taps_own rs (c.own m)
  unfolding tap_all
  tap_all-own [] m h = refl
  tap_all-own (r ∷ rs) m h =
      tap_all-own rs (c.tap r m) (c.keeps_tallied r m h)
      ∙ ap (taps_own rs) (fun_ext (λ q. c.own_tapped r q m h))

  tap_all-count :
      (rs : List QuickReaction) (q : QuickReaction) (m : M)
      → c.IsTallied m
      → c.count (tap_all rs m) q + one_if (c.own m q)
        ≡ c.count m q + one_if (c.own (tap_all rs m) q)
  unfolding tap_all
  tap_all-count [] q m h = refl
  tap_all-count (r ∷ rs) q m h =
      omega (arith, tap_all-count rs q (c.tap r m) (c.keeps_tallied r m h), c.count_tapped r q m h)

  pub tap_all-tally :
      (rs : List QuickReaction) (q : QuickReaction) (m : M)
      → c.IsTallied m
      → (c.count (tap_all rs m) q + one_if (c.own m q)
          ≡ c.count m q + one_if (c.own (tap_all rs m) q))
        × (c.own (tap_all rs m) q ≡ taps_own rs (c.own m) q)
  tap_all-tally rs q m h = (tap_all-count rs q m h, ap (λ f. f q) (tap_all-own rs m h))

module _ {M N : Type 0} ⦃c : Reactable M⦄ ⦃d : Reactable N⦄ where
  -- The same taps on two messages that show the same leave them showing the same.
  pub tap_all-agree :
      (rs : List QuickReaction) (m : M) (n : N)
      → c.IsTallied m
      → d.IsTallied n
      → ((q : QuickReaction) → c.count m q ≡ d.count n q)
      → ((q : QuickReaction) → c.own m q ≡ d.own n q)
      → (q : QuickReaction)
      → (c.count (tap_all rs m) q ≡ d.count (tap_all rs n) q)
        × (c.own (tap_all rs m) q ≡ d.own (tap_all rs n) q)
  tap_all-agree rs m n hm hn counts owns q =
      let (cm, om) = tap_all-tally rs q m hm in
      let (cn, on) = tap_all-tally rs q n hn in
      let same : c.own (tap_all rs m) q ≡ d.own (tap_all rs n) q =
        rw (om, on) (ap (λ f. taps_own rs f q) (fun_ext owns)) in
      (omega (arith, cm, cn, counts q, ap one_if same, ap one_if (owns q)), same)
