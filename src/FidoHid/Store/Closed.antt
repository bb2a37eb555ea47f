-- ===== src/FidoHid/Store/Closed.antt =====
-- pin_md.c and the boot of fido_state.c without a wipe, and predicates of the chip that the R-memory
-- calls, the random numbers, the session and MAC-and-Destroy preserve.
use nixtropic.Base.{ℕ, List, Bool, true, false, not, Option, none, some, if_each}
use nixtropic.Tropic.Rmem.{Rmem}
use nixtropic.Tropic.Keys.{Keys}
use nixtropic.Tropic.PinKernel.{PmdState, pmd_absent, pmd_active, pmd_blocked, pmd_error}
use nixtropic.Tropic.PinKernel.Api.{is_pmd_ok}
use nixtropic.Tropic.PinKernel.Closed.Calls.{
  status-Closed, setup-Closed, verify-Closed, change-Closed, clear-Closed,
}
use nixtropic.Tropic.ChipClosed.{ChipClosed, OfWorld, kernel}
use nixtropic.FidoHid.Slots.{slots_pin_bound}
use nixtropic.FidoHid.Slots.Closed.{slots_set_pin_bound-Closed}
use nixtropic.Tropic.PinKernel.OnChip.{world_random, world_mac}
use nixtropic.FidoHid.Store.{
  Fido, on_o2, fido_layout, kernel_status, kernel_clear, state_bound, fido_pin_state, fido_pin_set,
  fido_pin_verify, fido_pin_change, fido_pin_clear, fido_pin_boot, boot_bound, boot_status,
  is_not_set, on_slots,
}

module _ (sha256 : List ℕ → List ℕ) (hmac : List ℕ → List ℕ → List ℕ) (m : Rmem) (k : Keys m)
    (P : m.State → Type 0) where
  -- P of the chip, after a call on the whole state.
  abbrev pub AfterFido : {A : Type 0} → A × Fido m → Type 0
  AfterFido x = P x.1.slots.chip

  module _ (closed : ChipClosed sha256 hmac m k P) where
    kernel_status-Closed :
        (g : Fido m) → P g.slots.chip → AfterFido (kernel_status sha256 hmac m k g)
    unfolding kernel_status on_o2
    kernel_status-Closed g h =
        status-Closed sha256 hmac m (world_random sha256 m k) (world_mac sha256 m k)
          (OfWorld sha256 hmac m k P closed) (kernel sha256 hmac m k P closed) fido_layout
          (g.o2, g.slots.chip) h

    state_bound-Closed :
        (b : Option ℕ) (g : Fido m) → P g.slots.chip → AfterFido (state_bound sha256 hmac m k b g)
    unfolding state_bound
    state_bound-Closed none g h = h
    state_bound-Closed (some b) g h = kernel_status-Closed g h

    pub fido_pin_state-Closed :
        (g : Fido m) → P g.slots.chip → AfterFido (fido_pin_state sha256 hmac m k g)
    unfolding fido_pin_state
    fido_pin_state-Closed g h = state_bound-Closed (slots_pin_bound m g.slots) g h

    pub fido_pin_set-Closed :
        (mat : List ℕ) (pin_len : ℕ) (g : Fido m)
        → P g.slots.chip
        → AfterFido (fido_pin_set sha256 hmac m k mat pin_len g)
    unfolding fido_pin_set on_o2 on_slots
    fido_pin_set-Closed mat pin_len g h =
        let g1 = (fido_pin_state sha256 hmac m k g).1 in
        let h1 = fido_pin_state-Closed g h in
        let h2 =
          setup-Closed sha256 hmac m (world_random sha256 m k) (world_mac sha256 m k)
            (OfWorld sha256 hmac m k P closed) (kernel sha256 hmac m k P closed) fido_layout
            (some mat) pin_len (g1.o2, g1.slots.chip) h1 in
        if_each AfterFido (not (is_not_set (fido_pin_state sha256 hmac m k g).0.0)) _ _ (λ e. h1)
          (λ e.
            if_each AfterFido (not (is_pmd_ok _)) _ _ (λ f. h2)
              (λ f. slots_set_pin_bound-Closed m P closed.rmem sha256 true true _ h2))

    pub fido_pin_verify-Closed :
        (mat : List ℕ) (g : Fido m)
        → P g.slots.chip
        → AfterFido (fido_pin_verify sha256 hmac m k mat g)
    unfolding fido_pin_verify on_o2
    fido_pin_verify-Closed mat g h =
        verify-Closed sha256 hmac m (world_random sha256 m k) (world_mac sha256 m k)
          (OfWorld sha256 hmac m k P closed) (kernel sha256 hmac m k P closed) fido_layout
          (some mat) (g.o2, g.slots.chip) h

    pub fido_pin_change-Closed :
        (old new : List ℕ) (pin_len : ℕ) (g : Fido m)
        → P g.slots.chip
        → AfterFido (fido_pin_change sha256 hmac m k old new pin_len g)
    unfolding fido_pin_change on_o2
    fido_pin_change-Closed old new pin_len g h =
        change-Closed sha256 hmac m (world_random sha256 m k) (world_mac sha256 m k)
          (OfWorld sha256 hmac m k P closed) (kernel sha256 hmac m k P closed) fido_layout
          (some old) (some new) pin_len (g.o2, g.slots.chip) h

    pub fido_pin_clear-Closed :
        (g : Fido m) → P g.slots.chip → AfterFido (fido_pin_clear sha256 hmac m k g)
    unfolding fido_pin_clear kernel_clear on_o2
    fido_pin_clear-Closed g h =
        clear-Closed sha256 hmac m (world_random sha256 m k) (world_mac sha256 m k)
          (OfWorld sha256 hmac m k P closed) (kernel sha256 hmac m k P closed) fido_layout
          (record g.o2 { uncertain = false }, g.slots.chip) h

    boot_status-Closed :
        (bound : Bool) (st : PmdState) (g : Fido m)
        → P g.slots.chip
        → AfterFido (boot_status sha256 hmac m k bound st g)
    unfolding boot_status on_slots
    boot_status-Closed bound pmd_error g h = h
    boot_status-Closed bound pmd_absent g h = h
    boot_status-Closed bound pmd_active g h =
        if_each AfterFido bound _ _ (λ e. h)
          (λ e. slots_set_pin_bound-Closed m P closed.rmem sha256 true true g.slots h)
    boot_status-Closed bound pmd_blocked g h =
        if_each AfterFido bound _ _ (λ e. h)
          (λ e. slots_set_pin_bound-Closed m P closed.rmem sha256 true true g.slots h)

    boot_bound-Closed :
        (b : Option ℕ) (g : Fido m) → P g.slots.chip → AfterFido (boot_bound sha256 hmac m k b g)
    unfolding boot_bound
    boot_bound-Closed none g h = h
    boot_bound-Closed (some b) g h = boot_status-Closed _ _ _ (kernel_status-Closed g h)

    pub fido_pin_boot-Closed :
        (g : Fido m) → P g.slots.chip → AfterFido (fido_pin_boot sha256 hmac m k g)
    unfolding fido_pin_boot
    fido_pin_boot-Closed g h = boot_bound-Closed (slots_pin_bound m g.slots) g h
