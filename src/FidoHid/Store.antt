-- ===== src/FidoHid/Store.antt =====
-- firmware/src/fido_hid/pin_md.c and fido_state.c: the FIDO PIN on the M&D kernel and the state at
-- boot and reset, over the credential slots of slots.c. The static variables of slots.c, pin_md.c
-- and credstore.c and the chip are a record. True stands for the code 0, a code n for -n.
pub mod Closed
pub mod PinClear
pub mod EraseKeys
pub mod Steps
pub mod Wipe
pub mod Spared
pub mod Boot
use nixtropic.Base.{
  ℕ, zero, suc, ◌-◌, List, Bool, true, false, not, ◌||◌, Option, none, some, ltb, ◌==◌,
  if◌then◌else◌,
}
use nixtropic.Tropic.Rmem.{Rmem}
use nixtropic.Tropic.Keys.{Keys}
use nixtropic.Tropic.RecPair.{RecPair}
use nixtropic.Tropic.PinKernel.{
  Layout, Pmd, pmd_ok, pmd_err_blocked, PmdState, pmd_absent, pmd_active, pmd_blocked, pmd_error,
  World, if_ok,
}
use nixtropic.Tropic.PinKernel.OnChip.{world_random, world_mac}
use nixtropic.Tropic.PinKernel.Api.{
  Status, pin_md_kernel_status, pin_md_kernel_setup, pin_md_kernel_verify, pin_md_kernel_change,
  pin_md_kernel_clear, is_pmd_ok,
}
use nixtropic.FidoHid.Slots.{
  Slots, Services, InitRc, init_ok, init_absent, init_error, fido_slots_max, slots_pin_bound,
  slots_set_pin_bound, slots_wipe_meta, slots_init_fresh, slots_init,
}

abbrev pub signcount_mcounter : ℕ
signcount_mcounter = 0

abbrev pub mcounter_max : ℕ
mcounter_max = 0xfffffffe

-- s_o2 at the start of the program.
abbrev pub o2_pair : RecPair
o2_pair = record { slot_a = 41; slot_b = 42; obj = 2; schema = 1; uncertain = false }

abbrev pub fido_layout : Layout
fido_layout = record { base_a = 0; base_b = 8; ranges = 2; rounds = 8; mat_len = 16 }

-- The state of slots.c with the chip, s_o2, s_initted and s_credstore_mutating.
pub record Fido (m : Rmem) : Type 0 where
  pub slots : Slots m
  pub o2 : RecPair
  pub initted : Bool
  pub mutating : Bool

pub data Fpin : Type 0 where
  fpin_error fpin_not_set fpin_set fpin_blocked : Fpin

-- fido_pin_state from the guard and the kernel's status: the state and the attempts left.
unfoldable pub fpin_of : Bool → Status → Fpin × ℕ
fpin_of bound (pmd_absent, att, len) = (if bound then fpin_error else fpin_not_set, 0)
fpin_of bound (pmd_active, att, len) = (fpin_set, att)
fpin_of bound (pmd_blocked, att, len) = (fpin_blocked, 0)
fpin_of bound (pmd_error, att, len) = (fpin_error, 0)

unfoldable pub is_not_set : Fpin → Bool
is_not_set fpin_not_set = true
is_not_set _ = false

unfoldable pub map_rc : Pmd → ℕ
map_rc pmd_ok = 0
map_rc pmd_err_blocked = 2
map_rc _ = 1

module _ (m : Rmem) where
  -- The calls of slots.c and of the chip as calls on the whole state.
  unfoldable pub on_slots : {A : Type 0} → (Slots m → A × Slots m) → Fido m → A × Fido m
  on_slots f g = let (a, sl) = f g.slots in (a, record g { slots = sl })

  abbrev pub chip_of : Fido m → m.State
  chip_of g = g.slots.chip

  abbrev pub with_chip : Fido m → m.State → Fido m
  with_chip g s = record g { slots = record g.slots { chip = s } }

  unfoldable pub on_chip : {A : Type 0} → (m.State → A × m.State) → Fido m → A × Fido m
  on_chip f g = let (a, s) = f g.slots.chip in (a, with_chip g s)

  -- What slots.c uses of the chip beside the R-memory.
  abbrev pub services : Keys m → Services m
  services k = record {
    random = k.random;
    session_ensure = k.session_ensure;
    random_keeps = k.random_keeps;
    random_length = k.random_length;
    random_bytes = k.random_bytes;
    ensure_keeps = k.ensure_keeps;
  }

module _ (sha256 : List ℕ → List ℕ) (hmac : List ℕ → List ℕ → List ℕ) (m : Rmem) (k : Keys m) where
  unfoldable pub on_o2 : {A : Type 0} → (World sha256 m → A × World sha256 m) → Fido m → A × Fido m
  on_o2 f g =
      let (a, w) = f (g.o2, g.slots.chip) in
      (a, record g { o2 = w.0; slots = record g.slots { chip = w.1 } })

  unfoldable pub kernel_status : Fido m → Status × Fido m
  unfolding on_o2
  kernel_status g =
      on_o2
        (pin_md_kernel_status sha256 hmac m (world_random sha256 m k) (world_mac sha256 m k)
          fido_layout)
        g

  state_bound : Option ℕ → Fido m → (Fpin × ℕ) × Fido m
  unfolding fpin_of kernel_status
  state_bound none g = ((fpin_error, 0), g)
  state_bound (some b) g = let (st, g1) = kernel_status g in (fpin_of (not (b == 0)) st, g1)

  unfoldable pub fido_pin_state : Fido m → (Fpin × ℕ) × Fido m
  unfolding state_bound
  fido_pin_state g = state_bound (slots_pin_bound m g.slots) g

  unfoldable pub fido_pin_set : List ℕ → ℕ → Fido m → Bool × Fido m
  unfolding is_not_set on_o2 on_slots
  fido_pin_set mat pin_len g =
      let (st, g1) = fido_pin_state g in
      let (rc, g2) =
        on_o2
          (pin_md_kernel_setup sha256 hmac m (world_random sha256 m k) (world_mac sha256 m k)
            fido_layout (some mat) pin_len)
          g1 in
      if not (is_not_set st.0)
      then (false, g1)
      else if not (is_pmd_ok rc.0)
      then (false, g2)
      else on_slots m (slots_set_pin_bound sha256 m true true) g2

  -- The code, and whether the PIN is right.
  unfoldable pub fido_pin_verify : List ℕ → Fido m → (ℕ × Bool) × Fido m
  unfolding map_rc on_o2
  fido_pin_verify mat g =
      let (out, g1) =
        on_o2
          (pin_md_kernel_verify sha256 hmac m (world_random sha256 m k) (world_mac sha256 m k)
            fido_layout (some mat))
          g in
      ((map_rc out.0, out.1), g1)

  unfoldable pub fido_pin_change : List ℕ → List ℕ → ℕ → Fido m → (ℕ × Bool) × Fido m
  unfolding map_rc on_o2
  fido_pin_change old new pin_len g =
      let (out, g1) =
        on_o2
          (pin_md_kernel_change sha256 hmac m (world_random sha256 m k) (world_mac sha256 m k)
            fido_layout (some old) (some new) pin_len)
          g in
      ((map_rc out.0, out.1), g1)

  unfoldable pub fido_pin_usable : Fido m → Bool
  fido_pin_usable g = not g.o2.uncertain

  unfoldable pub kernel_clear : Fido m → Pmd × Fido m
  unfolding on_o2
  kernel_clear g =
      on_o2
        (pin_md_kernel_clear sha256 hmac m (world_random sha256 m k) (world_mac sha256 m k)
          fido_layout)
        g

  unfoldable pub fido_pin_clear : Fido m → Bool × Fido m
  unfolding kernel_clear
  fido_pin_clear g =
      let (rc, g1) = kernel_clear (record g { o2 = record g.o2 { uncertain = false } }) in
      (is_pmd_ok rc, g1)

  boot_status : Bool → PmdState → Fido m → Bool × Fido m
  unfolding on_slots
  boot_status bound pmd_error g = (false, g)
  boot_status bound pmd_absent g = (not bound, g)
  boot_status bound _ g =
      let guarded = on_slots m (slots_set_pin_bound sha256 m true true) g in
      if bound then (true, g) else guarded

  boot_bound : Option ℕ → Fido m → Bool × Fido m
  unfolding kernel_status boot_status
  boot_bound none g = (false, g)
  boot_bound (some b) g = let (st, g1) = kernel_status g in boot_status (not (b == 0)) st.0 g1

  unfoldable pub fido_pin_boot : Fido m → Bool × Fido m
  unfolding boot_bound
  fido_pin_boot g = boot_bound (slots_pin_bound m g.slots) g

  -- The n keys from i on; true if every erase is acknowledged.
  unfoldable pub erase_keys : ℕ → ℕ → m.State → Bool × m.State
  unfolding if_ok
  erase_keys zero i s = (true, s)
  erase_keys (suc n) i s = if_ok (k.ecc_erase i s) false (λ s1. erase_keys n (suc i) s1)

  -- tropic_mcounter_init(FIDO_SIGNCOUNT_MCOUNTER, FIDO_MCOUNTER_MAX)
  unfoldable pub start_count : Fido m → Bool × Fido m
  unfolding on_chip
  start_count g = on_chip m (k.mcounter_init signcount_mcounter mcounter_max) g

  unfoldable pub fido_state_wipe : Fido m → ℕ × Fido m
  unfolding if_ok on_chip on_slots erase_keys fido_pin_clear start_count
  fido_state_wipe g = if_ok (on_chip m (erase_keys fido_slots_max 0) g) 1 (λ g1.
      if_ok (on_slots m (slots_wipe_meta m) g1) 2 (λ g2. if_ok (fido_pin_clear g2) 3 (λ g3.
        if_ok (on_slots m (slots_init_fresh sha256 m) g3) 4
          (λ g4. if_ok (start_count g4) 5 (λ g5. (0, g5))))))

  counter_ok : Option ℕ → Bool
  counter_ok none = false
  counter_ok (some v) = not (ltb mcounter_max v)

  boot_counter : Fido m → ℕ × Fido m
  unfolding on_chip counter_ok
  boot_counter g =
      let (v, g1) = on_chip m (k.mcounter_get signcount_mcounter) g in
      (if counter_ok v then 0 else 12, g1)

  boot_after : InitRc → Fido m → ℕ × Fido m
  unfolding fido_state_wipe fido_pin_boot if_ok boot_counter
  boot_after init_absent g = fido_state_wipe g
  boot_after init_ok g = if_ok (fido_pin_boot g) 11 boot_counter
  boot_after (init_error e) g = (10, g)

  unfoldable pub fido_state_boot : Fido m → ℕ × Fido m
  unfolding on_slots boot_after
  fido_state_boot g =
      let (rc, g1) = on_slots m (slots_init sha256 m (services m k)) g in boot_after rc g1
