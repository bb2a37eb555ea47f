-- ===== src/OpenPgp/Pin/Clear.antt =====
-- pgp_pin_clear_all of pgp_pin.c: which R-memory slots it touches, and which are empty after it.
use mathlib.Core.Path.{subst}
use nixtropic.Base.{
  ltb, ◌-◌, ℕ, zero, suc, ◌+◌, ◌≤◌, ◌<◌, List, Bool, true, false, ◌≡◌, ◌≢◌, ◌⊎◌, inl, inr, refl, ap,
  ◌∙◌, sym, arith, if_each, ◌==◌, Bool-cases, ==_iff,
}
use nixtropic.Tropic.Rmem.{Rmem}
use nixtropic.Tropic.Keys.{Keys}
use nixtropic.Tropic.RecPair.{RecPair}
use nixtropic.Tropic.RecPair.Cleared.{LeftByErase, still_left}
use nixtropic.Tropic.PinKernel.OnChip.{world_random, world_mac}
use nixtropic.Tropic.PinKernel.Api.{pin_md_kernel_clear}
use nixtropic.Tropic.ChipClosed.{ChipClosed, kernel}
use nixtropic.Tropic.PinKernel.Chain.{if_ok-each}
use nixtropic.Tropic.PinKernel.Closed.Calls.{clear-Closed}
use nixtropic.Tropic.PinKernel.Clear.{Others, kernel-Others, kernel_clear-Cleared}
use nixtropic.OpenPgp.State.{Pgp}
use nixtropic.OpenPgp.Pin.{
  Card, pw1, pw3, rc, pair_of, with_pair, at_chip, pin_layout, clear_pin, clear_from,
  pgp_pin_clear_all,
}

module _ (m : Rmem) where
  with_pair_pgp : (w : ℕ) (p : RecPair) (g : Card m) → (with_pair m w p g).pgp ≡ g.pgp
  unfolding with_pair
  with_pair_pgp w p g =
      let P = λ (x : Card m). x.pgp ≡ g.pgp in
      if_each P (w == pw1) _ _ (λ e. refl) (λ e. if_each P (w == pw3) _ _ (λ f. refl) (λ f. refl))

  other_pair :
      (w v : ℕ) (p : RecPair) (g : Card m)
      → w ≤ rc
      → v ≤ rc
      → v ≢ w
      → pair_of m v (with_pair m w p g) ≡ pair_of m v g
  unfolding with_pair pair_of
  other_pair w v p g lw lv ne = ground (arith, lw, lv, ne)

  pair_at_chip : (v : ℕ) (g : Card m) (s : m.State) → pair_of m v (at_chip m g s) ≡ pair_of m v g
  unfolding pair_of
  pair_at_chip v g s = refl

module _ (sha256 : List ℕ → List ℕ) (hmac : List ℕ → List ℕ → List ℕ) (m : Rmem) (k : Keys m) where
  -- The pair of PIN w has the slots 50 + w and 53 + w.
  abbrev pub PinSlots : ℕ → Card m → Type 0
  PinSlots w g = ((pair_of m w g).slot_a ≡ 50 + w) × ((pair_of m w g).slot_b ≡ 53 + w)

  -- The slots that the clears from PIN w on leave alone.
  abbrev pub Spared : ℕ → ℕ → Type 0
  Spared w j = (j < 50 + w) ⊎ ((53 ≤ j) × (j < 53 + w)) ⊎ (55 < j)

  clear_pin_chip :
      (w : ℕ) (p : RecPair) (g : Card m) (s : m.State)
      → (with_pair m w p (at_chip m g s)).pgp.chip ≡ s
  clear_pin_chip w p g s = ap (λ (x : _). x.chip) (with_pair_pgp m w p (at_chip m g s))

  clear_pin_other :
      (w : ℕ) (g : Card m) (j : ℕ)
      → w ≤ rc
      → PinSlots w g
      → Spared w j
      → m.holds (clear_pin sha256 hmac m k w g).1.pgp.chip j ≡ m.holds g.pgp.chip j
  unfolding clear_pin
  clear_pin_other w g j lw (ea, eb) out =
      let p = record (pair_of m w g) { uncertain = false } in
      let v = λ (i : ℕ). m.holds g.pgp.chip i in
      let rest =
        (clear-Closed sha256 hmac m (world_random sha256 m k) (world_mac sha256 m k)
          (Others sha256 hmac m k (50 + w) (53 + w) v)
          (kernel-Others sha256 hmac m k (50 + w) (53 + w) v) (pin_layout w) (p, g.pgp.chip)
          (ea, eb, λ i na nb. refl)).2 in
      ap (λ (s : m.State). m.holds s j) (clear_pin_chip w _ g _)
      ∙ rest j (ground (arith, out, lw)) (ground (arith, out, lw))

  clear_pin-LeftByErase :
      (w : ℕ) (g : Card m)
      → PinSlots w g
      → (clear_pin sha256 hmac m k w g).0 ≡ true
      → let s = (clear_pin sha256 hmac m k w g).1.pgp.chip in
        LeftByErase m (50 + w) s × LeftByErase m (53 + w) s
  unfolding clear_pin
  clear_pin-LeftByErase w g (ea, eb) ok =
      let p = record (pair_of m w g) { uncertain = false } in
      let v = λ (i : ℕ). m.holds g.pgp.chip i in
      let (za, zb) =
        kernel_clear-Cleared sha256 hmac m k (pin_layout w) (50 + w) (53 + w) v (p, g.pgp.chip)
          (omega arith) (ea, eb, λ i na nb. refl) ok in
      let e = clear_pin_chip w _ g _ in
      (
        still_left m (50 + w) _ _ (ap (λ (s : m.State). m.holds s (50 + w)) e) za,
        still_left m (53 + w) _ _ (ap (λ (s : m.State). m.holds s (53 + w)) e) zb,
      )

  clear_pin-PinSlots :
      (w v : ℕ) (g : Card m)
      → w ≤ rc
      → v ≤ rc
      → v ≢ w
      → PinSlots v g
      → PinSlots v (clear_pin sha256 hmac m k w g).1
  unfolding clear_pin
  clear_pin-PinSlots w v g lw lv ne h =
      let p = record (pair_of m w g) { uncertain = false } in
      let (out, x) =
        pin_md_kernel_clear sha256 hmac m (world_random sha256 m k) (world_mac sha256 m k)
          (pin_layout w) (p, g.pgp.chip) in
      let e : pair_of m v (with_pair m w x.0 (at_chip m g x.1)) ≡ pair_of m v g =
        other_pair m w v x.0 (at_chip m g x.1) lw lv ne ∙ pair_at_chip m v g x.1 in
      (ap (λ (q : RecPair). q.slot_a) e ∙ h.0, ap (λ (q : RecPair). q.slot_b) e ∙ h.1)

  -- The PINs from w on are cleared if the call succeeds, and no spared slot is touched.
  abbrev ErasedPins : ℕ → ℕ → m.State → Type 0
  ErasedPins n w s =
      (v : ℕ) → w ≤ v → v < w + n → LeftByErase m (50 + v) s × LeftByErase m (53 + v) s

  still-Spared : (w j : ℕ) → Spared w j → Spared (suc w) j
  still-Spared w j out = ground (arith, out)

  clear_from_other :
      (n w : ℕ) (g : Card m) (j : ℕ)
      → w + n ≡ 3
      → ((v : ℕ) → w ≤ v → v ≤ rc → PinSlots v g)
      → Spared w j
      → m.holds (clear_from sha256 hmac m k n w g).1.pgp.chip j ≡ m.holds g.pgp.chip j
  unfolding clear_from
  clear_from_other zero w g j len pins out = refl
  clear_from_other (suc n) w g j len pins out =
      let r = clear_pin sha256 hmac m k w g in
      let lw : w ≤ rc = omega (arith, len) in
      let e = clear_pin_other w g j lw (pins w (omega arith) lw) out in
      if_ok-each (λ (x : Bool × Card m). m.holds x.1.pgp.chip j ≡ m.holds g.pgp.chip j) r false
        (λ g1. clear_from sha256 hmac m k n (suc w) g1) e
        (λ ok.
          clear_from_other n (suc w) r.1 j (omega (arith, len))
            (λ v lo hi.
              clear_pin-PinSlots w v g lw hi (λ s. omega (arith, s, lo))
                (pins v (omega (arith, lo)) hi))
            (still-Spared w j out)
          ∙ e)

  clear_from-ErasedPins :
      (n w : ℕ) (g : Card m)
      → w + n ≡ 3
      → ((v : ℕ) → w ≤ v → v ≤ rc → PinSlots v g)
      → (clear_from sha256 hmac m k n w g).0 ≡ true
      → ErasedPins n w (clear_from sha256 hmac m k n w g).1.pgp.chip
  unfolding clear_from
  clear_from-ErasedPins zero w g len pins = λ ok v lo hi. absurd (omega (arith, lo, hi))
  clear_from-ErasedPins (suc n) w g len pins =
      let r = clear_pin sha256 hmac m k w g in
      let lw : w ≤ rc = omega (arith, len) in
      let len' : suc w + n ≡ 3 = omega (arith, len) in
      let P = λ (x : Bool × Card m). x.0 ≡ true → ErasedPins (suc n) w x.1.pgp.chip in
      if_ok-each P r false (λ g1. clear_from sha256 hmac m k n (suc w) g1)
        (λ bad. ground (arith, bad))
        (λ ok done v lo hi.
          let pins' : (u : ℕ) → suc w ≤ u → u ≤ rc → PinSlots u r.1 = λ u lo' hi'.
            clear_pin-PinSlots w u g lw hi' (λ s. omega (arith, s, lo'))
              (pins u (omega (arith, lo')) hi') in
          elim (Bool-cases (w == v)) [
            | inl here ↦
                let at_w : w ≡ v = (==_iff w v).0 here in
                let (za, zb) = clear_pin-LeftByErase w g (pins w (omega arith) lw) ok in
                let kept = λ (j : ℕ) (out : Spared (suc w) j).
                  clear_from_other n (suc w) r.1 j len' pins' out in
                rw (sym at_w) (
                  still_left m (50 + w) _ _ (kept (50 + w) (inl (omega arith))) za,
                  still_left m (53 + w) _ _ (kept (53 + w) (inr (inl (omega arith, omega arith))))
                      zb,
                )
            | inr there ↦
                clear_from-ErasedPins n (suc w) r.1 len' pins' done v (ground (arith, there, lo))
                  (omega (arith, hi))
          ])

  -- The pairs of the three PINs have their slots.
  abbrev pub HasPins : Card m → Type 0
  HasPins g = (v : ℕ) → v ≤ rc → PinSlots v g

  pub clear_all_other :
      (g : Card m) (j : ℕ)
      → HasPins g
      → (j < 50) ⊎ (55 < j)
      → m.holds (pgp_pin_clear_all sha256 hmac m k g).1.pgp.chip j ≡ m.holds g.pgp.chip j
  unfolding pgp_pin_clear_all
  clear_all_other g j pins out =
      clear_from_other 3 0 g j refl (λ v lo hi. pins v hi) (ground (arith, out))

  pub clear_all-LeftByErase :
      (g : Card m)
      → HasPins g
      → (pgp_pin_clear_all sha256 hmac m k g).0 ≡ true
      → (j : ℕ) → 50 ≤ j
      → j ≤ 55
      → LeftByErase m j (pgp_pin_clear_all sha256 hmac m k g).1.pgp.chip
  unfolding pgp_pin_clear_all
  clear_all-LeftByErase g pins ok j lo hi =
      let s = (clear_from sha256 hmac m k 3 0 g).1.pgp.chip in
      let gone = clear_from-ErasedPins 3 0 g refl (λ v lo' hi'. pins v hi') ok in
      elim (Bool-cases (ltb j 53)) [
        | inl low ↦
            let e : 50 + (j - 50) ≡ j = omega (arith, lo) in
            subst (λ (i : ℕ). LeftByErase m i s) e
              (gone (j - 50) (omega arith) (ground (arith, low))).0
        | inr high ↦
            let e : 53 + (j - 53) ≡ j = ground (arith, high) in
            subst (λ (i : ℕ). LeftByErase m i s) e
              (gone (j - 53) (omega arith) (omega (arith, hi))).1
      ]

  clear_pin_o3 : (w : ℕ) (g : Card m) → (clear_pin sha256 hmac m k w g).1.pgp.o3 ≡ g.pgp.o3
  unfolding clear_pin
  clear_pin_o3 w g =
      let p = record (pair_of m w g) { uncertain = false } in
      let (out, x) =
        pin_md_kernel_clear sha256 hmac m (world_random sha256 m k) (world_mac sha256 m k)
          (pin_layout w) (p, g.pgp.chip) in
      ap (λ (q : Pgp m). q.o3) (with_pair_pgp m w x.0 (at_chip m g x.1))

  clear_from_o3 : (n w : ℕ) (g : Card m) → (clear_from sha256 hmac m k n w g).1.pgp.o3 ≡ g.pgp.o3
  unfolding clear_from
  clear_from_o3 zero w g = refl
  clear_from_o3 (suc n) w g =
      let e = clear_pin_o3 w g in
      if_ok-each (λ (x : Bool × Card m). x.1.pgp.o3 ≡ g.pgp.o3) (clear_pin sha256 hmac m k w g)
        false (λ g1. clear_from sha256 hmac m k n (suc w) g1) e
        (λ ok. clear_from_o3 n (suc w) _ ∙ e)

  pub clear_all_o3 : (g : Card m) → (pgp_pin_clear_all sha256 hmac m k g).1.pgp.o3 ≡ g.pgp.o3
  unfolding pgp_pin_clear_all
  clear_all_o3 g = clear_from_o3 3 0 g

  -- The pairs do not depend on the state of openpgp_state.c and the chip.
  pub pins_moved : (g : Card m) (p : Pgp m) → HasPins g → HasPins (record g { pgp = p })
  unfolding pair_of
  pins_moved g p pins v lv = pins v lv

  module _ (P : m.State → Type 0) (closed : ChipClosed sha256 hmac m k P) where
    clear_pin-Closed :
        (w : ℕ) (g : Card m) → P g.pgp.chip → P (clear_pin sha256 hmac m k w g).1.pgp.chip
    unfolding clear_pin
    clear_pin-Closed w g h =
        let p = record (pair_of m w g) { uncertain = false } in
        subst P (sym (clear_pin_chip w _ g _)) (
          clear-Closed sha256 hmac m (world_random sha256 m k) (world_mac sha256 m k) (λ x. P x.1)
            (kernel sha256 hmac m k P closed) (pin_layout w) (p, g.pgp.chip) h)

    clear_from-Closed :
        (n w : ℕ) (g : Card m) → P g.pgp.chip → P (clear_from sha256 hmac m k n w g).1.pgp.chip
    unfolding clear_from
    clear_from-Closed zero w g h = h
    clear_from-Closed (suc n) w g h =
        let h1 = clear_pin-Closed w g h in
        if_ok-each (λ (x : Bool × Card m). P x.1.pgp.chip) (clear_pin sha256 hmac m k w g) false
          (λ g1. clear_from sha256 hmac m k n (suc w) g1) h1
          (λ ok. clear_from-Closed n (suc w) _ h1)

    pub clear_all-Closed :
        (g : Card m) → P g.pgp.chip → P (pgp_pin_clear_all sha256 hmac m k g).1.pgp.chip
    unfolding pgp_pin_clear_all
    clear_all-Closed g h = clear_from-Closed 3 0 g h
