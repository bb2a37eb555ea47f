-- ===== src/FidoHid/Store/Steps.antt =====
-- The five steps of fido_state_wipe of fido_state.c, one by one.
use mathlib.Core.Path.{subst}
use nixtropic.Base.{ℕ, ◌≤◌, ◌<◌, List, [], Bool, true, ◌≡◌, ◌≢◌, ◌⊎◌, inl, inr, ap, ◌∙◌, arith}
use nixtropic.Tropic.Rmem.{Rmem}
use nixtropic.Tropic.Keys.{Keys}
use nixtropic.Tropic.RecPair.{RecPair}
use nixtropic.Tropic.RecPair.Cleared.{LeftByErase}
use nixtropic.Tropic.RecPair.Frame.{SamePair}
use nixtropic.Tropic.PinKernel.{if_ok}
use nixtropic.Tropic.PinKernel.Chain.{if_ok-each}
use nixtropic.FidoHid.Slots.{
  fido_slots_max, o1_pair, slots_usable, slots_wipe_meta, slots_init_fresh,
}
use nixtropic.FidoHid.Slots.Frame.{wipe_from_frame}
use nixtropic.FidoHid.Slots.Wipe.{slots_wipe_meta-LeftByErase}
use nixtropic.FidoHid.Slots.Closed.{slots_wipe_meta-Closed, slots_init_fresh-Closed}
use nixtropic.FidoHid.Store.{
  Fido, o2_pair, on_chip, on_slots, erase_keys, fido_pin_clear, start_count, fido_state_wipe,
  kernel_clear, on_o2, signcount_mcounter, mcounter_max,
}
use nixtropic.Tropic.ChipClosed.{ChipClosed, vault-ChipClosed}
use nixtropic.FidoHid.Store.Closed.{fido_pin_clear-Closed}
use nixtropic.FidoHid.Store.EraseKeys.{erase_keys-KeysGone, erase_keys-OnlyKeys}
use nixtropic.FidoHid.Slots.Fresh.{IsFresh, slots_init_fresh-IsFresh, slots_init_fresh_other}
use nixtropic.FidoHid.Store.PinClear.{fido_pin_clear-Others, fido_pin_clear-LeftByErase}

module _ (sha256 : List ℕ → List ℕ) (hmac : List ℕ → List ℕ → List ℕ) (m : Rmem) (k : Keys m) where
  -- The five steps, in order.
  abbrev pub step1 : Fido m → Bool × Fido m
  step1 g = on_chip m (erase_keys sha256 hmac m k fido_slots_max 0) g

  abbrev pub step2 : Fido m → Bool × Fido m
  step2 g = on_slots m (slots_wipe_meta m) g

  abbrev pub step3 : Fido m → Bool × Fido m
  step3 g = fido_pin_clear sha256 hmac m k g

  abbrev pub step4 : Fido m → Bool × Fido m
  step4 g = on_slots m (slots_init_fresh sha256 m) g

  abbrev pub step5 : Fido m → Bool × Fido m
  step5 g = start_count sha256 hmac m k g

  -- What a wipe ends with: it stopped in one of the steps, or all five succeeded.
  pub wipe_ends :
      (g : Fido m) (E : ℕ × Fido m → Type 0)
      → E (1, (step1 g).1)
      → let g1 = (step1 g).1 in
        let g2 = (step2 g1).1 in
        let g3 = (step3 g2).1 in
        let g4 = (step4 g3).1 in
        ((step1 g).0 ≡ true
          → E (2, g2)
            × ((step2 g1).0 ≡ true
                → E (3, g3)
                  × ((step3 g2).0 ≡ true
                      → E (4, g4)
                        × ((step4 g3).0 ≡ true
                            → E (5, (step5 g4).1) × ((step5 g4).0 ≡ true → E (0, (step5 g4).1))))))
        → E (fido_state_wipe sha256 hmac m k g)
  unfolding fido_state_wipe
  wipe_ends g E e1 rest =
      let w5 : Fido m → ℕ × Fido m = λ g5. (0, g5) in
      let w4 : Fido m → ℕ × Fido m = λ g4. if_ok (step5 g4) 5 w5 in
      let w3 : Fido m → ℕ × Fido m = λ g3. if_ok (step4 g3) 4 w4 in
      let w2 : Fido m → ℕ × Fido m = λ g2. if_ok (step3 g2) 3 w3 in
      let w1 : Fido m → ℕ × Fido m = λ g1. if_ok (step2 g1) 2 w2 in
      let g1 = (step1 g).1 in
      let g2 = (step2 g1).1 in
      let g3 = (step3 g2).1 in
      let g4 = (step4 g3).1 in
      if_ok-each E (step1 g) 1 w1 e1 (λ ok1.
        let (e2, r2) = rest ok1 in
        if_ok-each E (step2 g1) 2 w2 e2 (λ ok2.
          let (e3, r3) = r2 ok2 in
          if_ok-each E (step3 g2) 3 w3 e3 (λ ok3.
            let (e4, r4) = r3 ok3 in
            if_ok-each E (step4 g3) 4 w4 e4
              (λ ok4. let (e5, r5) = r4 ok4 in if_ok-each E (step5 g4) 5 w5 e5 (λ ok5. r5 ok5)))))

  -- The pairs have the slots they start with.
  pub record HasPairs (g : Fido m) : Type 0 where
    pub first : SamePair sha256 m o1_pair g.slots.o1
    pub second : SamePair sha256 m o2_pair g.o2

  same_slots : (p : RecPair) → SamePair sha256 m o2_pair p → (p.slot_a ≡ 41) × (p.slot_b ≡ 42)
  same_slots p (inl e) = (ap (λ (q : RecPair). q.slot_a) e, ap (λ (q : RecPair). q.slot_b) e)
  same_slots p (inr e) = (ap (λ (q : RecPair). q.slot_a) e, ap (λ (q : RecPair). q.slot_b) e)

  -- No step before the fourth touches O1's pair in RAM, none before the third O2's.
  pub step1-HasPairs : (g : Fido m) → HasPairs g → HasPairs (step1 g).1
  unfolding on_chip
  step1-HasPairs g h = record { first = h.first; second = h.second }

  pub step2-HasPairs : (g : Fido m) → HasPairs g → HasPairs (step2 g).1
  unfolding on_slots slots_wipe_meta
  step2-HasPairs g h = record { first = h.first; second = h.second }

  pub step3_o1 :
      (g : Fido m)
      → SamePair sha256 m o1_pair g.slots.o1
      → SamePair sha256 m o1_pair (step3 g).1.slots.o1
  unfolding fido_pin_clear kernel_clear on_o2
  step3_o1 g h = h

  pub step1_keeps : (g : Fido m) (j : ℕ) → m.holds (step1 g).1.slots.chip j ≡ m.holds g.slots.chip j
  unfolding on_chip
  step1_keeps g j = erase_keys-OnlyKeys sha256 hmac m k fido_slots_max 0 g.slots.chip j

  pub step2-LeftByErase :
      (g : Fido m)
      → (step2 g).0 ≡ true
      → (j : ℕ) → 0 < j
      → j ≤ fido_slots_max
      → LeftByErase m j (step2 g).1.slots.chip
  unfolding on_slots
  step2-LeftByErase g = slots_wipe_meta-LeftByErase m g.slots

  pub step2_keeps :
      (g : Fido m) (j : ℕ)
      → (j ≡ 0) ⊎ (fido_slots_max < j)
      → m.holds (step2 g).1.slots.chip j ≡ m.holds g.slots.chip j
  unfolding on_slots slots_wipe_meta
  step2_keeps g j out = wipe_from_frame m fido_slots_max 0 g.slots.chip j (ground (arith, out))

  pub step3_keeps :
      (g : Fido m) (j : ℕ)
      → SamePair sha256 m o2_pair g.o2
      → j ≢ 41
      → j ≢ 42
      → m.holds (step3 g).1.slots.chip j ≡ m.holds g.slots.chip j
  step3_keeps g j same na nb =
      let (ea, eb) = same_slots g.o2 same in
      fido_pin_clear-Others sha256 hmac m k g j (λ e. na (e ∙ ea)) (λ e. nb (e ∙ eb))

  pub step3-LeftByErase :
      (g : Fido m)
      → SamePair sha256 m o2_pair g.o2
      → (step3 g).0 ≡ true
      → LeftByErase m 41 (step3 g).1.slots.chip × LeftByErase m 42 (step3 g).1.slots.chip
  step3-LeftByErase g same ok =
      let (ea, eb) = same_slots g.o2 same in
      let s = (step3 g).1.slots.chip in
      let (za, zb) =
        fido_pin_clear-LeftByErase sha256 hmac m k g (λ e. omega (arith, e, ea, eb)) ok in
      (subst (λ (j : ℕ). LeftByErase m j s) ea za, subst (λ (j : ℕ). LeftByErase m j s) eb zb)

  pub step4_keeps :
      (g : Fido m) (j : ℕ)
      → SamePair sha256 m o1_pair g.slots.o1
      → j ≢ 0
      → j ≢ 40
      → m.holds (step4 g).1.slots.chip j ≡ m.holds g.slots.chip j
  unfolding on_slots
  step4_keeps g j same n0 n40 = slots_init_fresh_other sha256 m g.slots j same n0 n40

  pub step4-IsFresh :
      (g : Fido m)
      → SamePair sha256 m o1_pair g.slots.o1
      → (step4 g).0 ≡ true
      → IsFresh sha256 m (step4 g).1.slots
  unfolding on_slots
  step4-IsFresh g same ok = slots_init_fresh-IsFresh sha256 m g.slots same ok

  pub step5_keeps : (g : Fido m) (j : ℕ) → m.holds (step5 g).1.slots.chip j ≡ m.holds g.slots.chip j
  unfolding start_count on_chip
  step5_keeps g j = k.init_keeps signcount_mcounter mcounter_max g.slots.chip j

  pub step5-IsFresh : (g : Fido m) → IsFresh sha256 m g.slots → IsFresh sha256 m (step5 g).1.slots
  unfolding start_count on_chip slots_usable
  step5-IsFresh g h = record {
    is_usable = h.is_usable;
    no_bits = h.no_bits;
    no_uv = h.no_uv;
    no_pin = h.no_pin;
    on_chip = (step5_keeps g 0 ∙ h.on_chip.0, step5_keeps g 40 ∙ h.on_chip.1);
  }

  pub step5_count :
      (g : Fido m)
      → (step5 g).0 ≡ true
      → k.count (step5 g).1.slots.chip signcount_mcounter ≡ mcounter_max
  unfolding start_count on_chip
  step5_count g ok = k.init_done signcount_mcounter mcounter_max g.slots.chip ok

  -- No FIDO key is on the chip.
  abbrev pub NoKeys : m.State → Type 0
  NoKeys s = (j : ℕ) → j < fido_slots_max → k.key s j ≡ []

  pub NoKeys-ChipClosed : ChipClosed sha256 hmac m k NoKeys
  NoKeys-ChipClosed =
      vault-ChipClosed sha256 hmac m k NoKeys (λ s s' same h j lt. same.0 j ∙ h j lt)

  pub step1-NoKeys : (g : Fido m) → (step1 g).0 ≡ true → NoKeys (step1 g).1.slots.chip
  unfolding on_chip
  step1-NoKeys g ok j lt =
      erase_keys-KeysGone sha256 hmac m k fido_slots_max 0 g.slots.chip ok j (omega arith)
        (omega (arith, lt))

  pub step2-NoKeys : (g : Fido m) → NoKeys g.slots.chip → NoKeys (step2 g).1.slots.chip
  unfolding on_slots
  step2-NoKeys g h = slots_wipe_meta-Closed m NoKeys NoKeys-ChipClosed.rmem g.slots h

  pub step3-NoKeys : (g : Fido m) → NoKeys g.slots.chip → NoKeys (step3 g).1.slots.chip
  step3-NoKeys g h = fido_pin_clear-Closed sha256 hmac m k NoKeys NoKeys-ChipClosed g h

  pub step4-NoKeys : (g : Fido m) → NoKeys g.slots.chip → NoKeys (step4 g).1.slots.chip
  unfolding on_slots
  step4-NoKeys g h = slots_init_fresh-Closed m NoKeys NoKeys-ChipClosed.rmem sha256 g.slots h

  pub step5-NoKeys : (g : Fido m) → NoKeys g.slots.chip → NoKeys (step5 g).1.slots.chip
  unfolding start_count on_chip
  step5-NoKeys g h j lt = k.init_keys signcount_mcounter mcounter_max g.slots.chip j ∙ h j lt
