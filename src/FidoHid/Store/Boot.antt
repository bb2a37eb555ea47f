-- ===== src/FidoHid/Store/Boot.antt =====
-- fido_state_boot of fido_state.c on slots that are usable already.
use nixtropic.Base.{◌∙◌, ℕ, List, Bool, true, ◌≡◌, refl, arith, Option, none, some, if_each}
use nixtropic.Tropic.Rmem.{Rmem}
use nixtropic.Tropic.Keys.{Keys}
use nixtropic.Tropic.PinKernel.{PmdState, pmd_absent, pmd_active, pmd_blocked, pmd_error}
use nixtropic.Tropic.PinKernel.Chain.{if_ok-each}
use nixtropic.FidoHid.Slots.{slots_usable, slots_pin_bound, slots_set_pin_bound, init_ok}
use nixtropic.FidoHid.Slots.Acknowledged.{slots_set_pin_bound-UsableWith, slots_init_usable}
use nixtropic.FidoHid.Store.{
  Fido, on_slots, on_chip, on_o2, kernel_status, services, fido_pin_boot, boot_bound, boot_status,
  boot_counter, boot_after, fido_state_boot, signcount_mcounter,
}
use nixtropic.Tropic.ChipClosed.{ChipClosed}
use nixtropic.FidoHid.Store.Closed.{fido_pin_boot-Closed}

module _ (sha256 : List ℕ → List ℕ) (hmac : List ℕ → List ℕ → List ℕ) (m : Rmem) (k : Keys m) where
  -- The slots are usable and have the bitmap bm.
  abbrev pub Steady : List Bool → Fido m → Type 0
  Steady bm g = (slots_usable m g.slots ≡ true) × (g.slots.bitmap ≡ bm)

  abbrev AfterOk : List Bool → Bool × Fido m → Type 0
  AfterOk bm x = x.0 ≡ true → Steady bm x.1

  kernel_status-Steady :
      (bm : List Bool) (g : Fido m) → Steady bm g → Steady bm (kernel_status sha256 hmac m k g).1
  unfolding kernel_status on_o2 slots_usable
  kernel_status-Steady bm g h = h

  guard-Steady :
      (bm : List Bool) (g : Fido m)
      → Steady bm g
      → AfterOk bm (on_slots m (slots_set_pin_bound sha256 m true true) g)
  unfolding on_slots
  guard-Steady bm g h ok =
      let (u, e) = slots_set_pin_bound-UsableWith sha256 m true true g.slots ok in (u, e ∙ h.1)

  boot_status-Steady :
      (bm : List Bool) (bound : Bool) (st : PmdState) (g : Fido m)
      → Steady bm g
      → AfterOk bm (boot_status sha256 hmac m k bound st g)
  unfolding boot_status
  boot_status-Steady bm bound pmd_error g h = λ ok. h
  boot_status-Steady bm bound pmd_absent g h = λ ok. h
  boot_status-Steady bm bound pmd_active g h =
      if_each (AfterOk bm) bound _ _ (λ e ok. h) (λ e. guard-Steady bm g h)
  boot_status-Steady bm bound pmd_blocked g h =
      if_each (AfterOk bm) bound _ _ (λ e ok. h) (λ e. guard-Steady bm g h)

  boot_bound-Steady :
      (bm : List Bool) (b : Option ℕ) (g : Fido m)
      → Steady bm g
      → AfterOk bm (boot_bound sha256 hmac m k b g)
  unfolding boot_bound
  boot_bound-Steady bm none g h = λ ok. h
  boot_bound-Steady bm (some b) g h = boot_status-Steady bm _ _ _ (kernel_status-Steady bm g h)

  fido_pin_boot-Steady :
      (bm : List Bool) (g : Fido m) → Steady bm g → AfterOk bm (fido_pin_boot sha256 hmac m k g)
  unfolding fido_pin_boot
  fido_pin_boot-Steady bm g h = boot_bound-Steady bm (slots_pin_bound m g.slots) g h

  boot_counter-Steady :
      (bm : List Bool) (g : Fido m) → Steady bm g → Steady bm (boot_counter sha256 hmac m k g).1
  unfolding boot_counter on_chip slots_usable
  boot_counter-Steady bm g h = h

  boot_counter_chip :
      (P : m.State → Type 0)
      → ((s : m.State) → P s → P (k.mcounter_get signcount_mcounter s).1)
      → (g : Fido m) → P g.slots.chip
      → P (boot_counter sha256 hmac m k g).1.slots.chip
  unfolding boot_counter on_chip
  boot_counter_chip P on_get g h = on_get g.slots.chip h

  -- After a boot of usable slots: P holds of the chip, and the slots are usable with the same
  -- bitmap if the code is 0.
  abbrev pub Booted : (m.State → Type 0) → List Bool → ℕ × Fido m → Type 0
  Booted P bm x = P x.1.slots.chip × (x.0 ≡ 0 → Steady bm x.1)

  boot_after-Booted :
      (P : m.State → Type 0)
      → ChipClosed sha256 hmac m k P
      → ((s : m.State) → P s → P (k.mcounter_get signcount_mcounter s).1)
      → (bm : List Bool) (g : Fido m) → P g.slots.chip
      → Steady bm g
      → Booted P bm (boot_after sha256 hmac m k init_ok g)
  unfolding boot_after
  boot_after-Booted P closed on_get bm g h st =
      let h1 = fido_pin_boot-Closed sha256 hmac m k P closed g h in
      if_ok-each (Booted P bm) (fido_pin_boot sha256 hmac m k g) 11 (boot_counter sha256 hmac m k)
        (h1, λ e. absurd (omega (arith, e)))
        (λ ok.
          let g1 = (fido_pin_boot sha256 hmac m k g).1 in
          (
            boot_counter_chip P on_get g1 h1,
            λ e. boot_counter-Steady bm g1 (fido_pin_boot-Steady bm g st ok),
          ))

  pub fido_state_boot-Booted :
      (P : m.State → Type 0)
      → ChipClosed sha256 hmac m k P
      → ((s : m.State) → P s → P (k.mcounter_get signcount_mcounter s).1)
      → (g : Fido m) → P g.slots.chip
      → slots_usable m g.slots ≡ true
      → Booted P g.slots.bitmap (fido_state_boot sha256 hmac m k g)
  unfolding fido_state_boot on_slots
  fido_state_boot-Booted P closed on_get g h u =
      rw (slots_init_usable sha256 m (services m k) g.slots u)
        (boot_after-Booted P closed on_get g.slots.bitmap g h (u, refl))
