-- ===== src/FidoHid/Store/Spared.antt =====
-- fido_state_wipe of fido_state.c and the rest of the chip, the OpenPGP card's part among it.
use nixtropic.Base.{ℕ, ◌≤◌, ◌<◌, List, ◌≡◌, ◌≢◌, ◌⊎◌, inr, ◌∙◌, arith}
use nixtropic.Tropic.Rmem.{Rmem}
use nixtropic.Tropic.Keys.{Keys}
use nixtropic.Tropic.ChipClosed.{ChipClosed, vault-ChipClosed}
use nixtropic.FidoHid.Slots.{fido_slots_max}
use nixtropic.FidoHid.Slots.Closed.{slots_wipe_meta-Closed, slots_init_fresh-Closed}
use nixtropic.FidoHid.Store.{
  Fido, on_chip, on_slots, fido_state_wipe, start_count, signcount_mcounter, mcounter_max,
}
use nixtropic.FidoHid.Store.Closed.{fido_pin_clear-Closed}
use nixtropic.FidoHid.Store.EraseKeys.{erase_keys_outside}
use nixtropic.FidoHid.Store.Steps.{
  HasPairs, step1, step2, step3, step4, step5, wipe_ends, step1-HasPairs, step2-HasPairs, step3_o1,
  step1_keeps, step2_keeps, step3_keeps, step4_keeps, step5_keeps,
}

module _ (sha256 : List ℕ → List ℕ) (hmac : List ℕ → List ℕ → List ℕ) (m : Rmem) (k : Keys m) where
  -- The key in slot j is that of s0.
  abbrev KeyOf : m.State → ℕ → m.State → Type 0
  KeyOf s0 j s = k.key s j ≡ k.key s0 j

  other_key : (s0 : m.State) (j : ℕ) → ChipClosed sha256 hmac m k (KeyOf s0 j)
  other_key s0 j = vault-ChipClosed sha256 hmac m k (KeyOf s0 j) (λ s s' same h. same.0 j ∙ h)

  keys_outside :
      (g : Fido m) (j : ℕ)
      → fido_slots_max ≤ j
      → KeyOf g.slots.chip j (step1 sha256 hmac m k g).1.slots.chip
  unfolding on_chip
  keys_outside g j le = erase_keys_outside sha256 hmac m k fido_slots_max 0 g.slots.chip j (inr le)

  metadata_key :
      (s0 : m.State) (j : ℕ) (g : Fido m)
      → KeyOf s0 j g.slots.chip
      → KeyOf s0 j (step2 sha256 hmac m k g).1.slots.chip
  unfolding on_slots
  metadata_key s0 j g h = slots_wipe_meta-Closed m (KeyOf s0 j) (other_key s0 j).rmem g.slots h

  fresh_key :
      (s0 : m.State) (j : ℕ) (g : Fido m)
      → KeyOf s0 j g.slots.chip
      → KeyOf s0 j (step4 sha256 hmac m k g).1.slots.chip
  unfolding on_slots
  fresh_key s0 j g h = slots_init_fresh-Closed m (KeyOf s0 j) (other_key s0 j).rmem sha256 g.slots h

  count_key :
      (s0 : m.State) (j : ℕ) (g : Fido m)
      → KeyOf s0 j g.slots.chip
      → KeyOf s0 j (step5 sha256 hmac m k g).1.slots.chip
  unfolding start_count on_chip
  count_key s0 j g h = k.init_keys signcount_mcounter mcounter_max g.slots.chip j ∙ h

  wipe_spares_keys :
      (g : Fido m) (j : ℕ)
      → fido_slots_max ≤ j
      → KeyOf g.slots.chip j (fido_state_wipe sha256 hmac m k g).1.slots.chip
  wipe_spares_keys g j le =
      let s0 = g.slots.chip in
      let g1 = (step1 sha256 hmac m k g).1 in
      let g2 = (step2 sha256 hmac m k g1).1 in
      let g3 = (step3 sha256 hmac m k g2).1 in
      let g4 = (step4 sha256 hmac m k g3).1 in
      let k1 = keys_outside g j le in
      let k2 = metadata_key s0 j g1 k1 in
      let k3 = fido_pin_clear-Closed sha256 hmac m k (KeyOf s0 j) (other_key s0 j) g2 k2 in
      let k4 = fresh_key s0 j g3 k3 in
      let k5 = count_key s0 j g4 k4 in
      wipe_ends sha256 hmac m k g (λ x. KeyOf s0 j x.1.slots.chip) k1
        (λ ok1. (k2, λ ok2. (k3, λ ok3. (k4, λ ok4. (k5, λ ok5. k5)))))

  -- Whatever the chip answers and whatever it returns, a wipe of the FIDO state with its two record
  -- pairs leaves the keys from slot 29 on, among them those of the OpenPGP card, and every R-memory
  -- slot but those of FIDO's record pairs and metadata as they were.
  pub wipe_spares_card :
      (g : Fido m)
      → HasPairs sha256 hmac m k g
      → let s = (fido_state_wipe sha256 hmac m k g).1.slots.chip in
        ((j : ℕ) → fido_slots_max ≤ j → k.key s j ≡ k.key g.slots.chip j)
        × ((i : ℕ)
            → fido_slots_max < i
            → (i < 40) ⊎ (42 < i)
            → m.holds s i ≡ m.holds g.slots.chip i)
  wipe_spares_card g h = (
    wipe_spares_keys g,
    λ i lt out.
        let g1 = (step1 sha256 hmac m k g).1 in
        let g2 = (step2 sha256 hmac m k g1).1 in
        let g3 = (step3 sha256 hmac m k g2).1 in
        let g4 = (step4 sha256 hmac m k g3).1 in
        let p1 = step1-HasPairs sha256 hmac m k g h in
        let p2 = step2-HasPairs sha256 hmac m k g1 p1 in
        let p3 = step3_o1 sha256 hmac m k g2 p2.first in
        let n0 : i ≢ 0 = λ e. omega (arith, e, lt) in
        let n40 : i ≢ 40 = λ e. ground (arith, e, out) in
        let n41 : i ≢ 41 = λ e. ground (arith, e, out) in
        let n42 : i ≢ 42 = λ e. ground (arith, e, out) in
        let e1 = step1_keeps sha256 hmac m k g i in
        let e2 = step2_keeps sha256 hmac m k g1 i (inr lt) ∙ e1 in
        let e3 = step3_keeps sha256 hmac m k g2 i p2.second n41 n42 ∙ e2 in
        let e4 = step4_keeps sha256 hmac m k g3 i p3 n0 n40 ∙ e3 in
        let e5 = step5_keeps sha256 hmac m k g4 i ∙ e4 in
        wipe_ends sha256 hmac m k g (λ x. m.holds x.1.slots.chip i ≡ m.holds g.slots.chip i) e1
          (λ ok1. (e2, λ ok2. (e3, λ ok3. (e4, λ ok4. (e5, λ ok5. e5))))),
  )
