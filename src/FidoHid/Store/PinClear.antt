-- ===== src/FidoHid/Store/PinClear.antt =====
-- fido_pin_clear of pin_md.c: which R-memory slots it touches, and which it has erased.
use nixtropic.Base.{ℕ, List, true, false, ◌≡◌, ◌≢◌, refl}
use nixtropic.Tropic.Rmem.{Rmem}
use nixtropic.Tropic.Keys.{Keys}
use nixtropic.Tropic.PinKernel.Closed.Calls.{clear-Closed}
use nixtropic.Tropic.PinKernel.Clear.{Others, kernel-Others, kernel_clear-Cleared}
use nixtropic.Tropic.RecPair.Cleared.{LeftByErase}
use nixtropic.Tropic.PinKernel.OnChip.{world_random, world_mac}
use nixtropic.FidoHid.Store.{Fido, on_o2, fido_layout, kernel_clear, fido_pin_clear}

module _ (sha256 : List ℕ → List ℕ) (hmac : List ℕ → List ℕ → List ℕ) (m : Rmem) (k : Keys m) where
  -- fido_pin_clear touches the two slots of its pair alone, and has erased them if it succeeds.
  pub fido_pin_clear-Others :
      (g : Fido m) (j : ℕ)
      → j ≢ g.o2.slot_a
      → j ≢ g.o2.slot_b
      → m.holds (fido_pin_clear sha256 hmac m k g).1.slots.chip j ≡ m.holds g.slots.chip j
  unfolding fido_pin_clear kernel_clear on_o2
  fido_pin_clear-Others g j na nb =
      let v = λ (i : ℕ). m.holds g.slots.chip i in
      let Q = Others sha256 hmac m k g.o2.slot_a g.o2.slot_b v in
      (clear-Closed sha256 hmac m (world_random sha256 m k) (world_mac sha256 m k) Q
          (kernel-Others sha256 hmac m k g.o2.slot_a g.o2.slot_b v) fido_layout
          (record g.o2 { uncertain = false }, g.slots.chip) (refl, refl, λ i na' nb'. refl)).2
        j na nb

  pub fido_pin_clear-LeftByErase :
      (g : Fido m)
      → g.o2.slot_a ≢ g.o2.slot_b
      → (fido_pin_clear sha256 hmac m k g).0 ≡ true
      → let s = (fido_pin_clear sha256 hmac m k g).1.slots.chip in
        LeftByErase m g.o2.slot_a s × LeftByErase m g.o2.slot_b s
  unfolding fido_pin_clear kernel_clear on_o2
  fido_pin_clear-LeftByErase g ne ok =
      kernel_clear-Cleared sha256 hmac m k fido_layout g.o2.slot_a g.o2.slot_b
        (λ i. m.holds g.slots.chip i) (record g.o2 { uncertain = false }, g.slots.chip) ne
        (refl, refl, λ i na' nb'. refl) ok
