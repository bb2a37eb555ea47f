-- ===== src/OpenPgp/Pin.antt =====
-- firmware/src/openpgp/pgp_pin.c and pgp_pin.h: PW1, PW3 and the Resetting Code on the M&D kernel,
-- over the state O3. The pairs O4, O5 and O6, the state of openpgp_state.c and the chip are a
-- record. A code 0 is 0 and a code -n is n. SHA-256 is trezor-crypto's, a parameter; the clearing of
-- local buffers and NULL pointers are not modelled.
pub mod Clear
use nixtropic.Base.{
  ℕ, zero, suc, ◌+◌, List, [], ◌∷◌, Bool, true, false, not, ◌&&◌, ◌||◌, Option, none, some, leb,
  ltb, ◌==◌, length, if◌then◌else◌, replicate,
}
use nixtropic.Tropic.Rmem.{Rmem}
use nixtropic.Tropic.Keys.{Keys}
use nixtropic.Tropic.RecPair.{RecPair}
use nixtropic.Tropic.PinKernel.{
  Layout, Pmd, pmd_ok, pmd_err_blocked, PmdState, pmd_absent, pmd_active, pmd_blocked, pmd_error,
  World, if_ok,
}
use nixtropic.Tropic.PinKernel.OnChip.{world_random, world_mac}
use nixtropic.Tropic.PinKernel.Api.{
  Status, pin_md_kernel_status, pin_md_kernel_setup, pin_md_kernel_verify, pin_md_kernel_change,
  pin_md_kernel_clear, is_pmd_ok,
}
use nixtropic.OpenPgp.State.Record.{lc_operational, lc_terminated}
use nixtropic.OpenPgp.State.{
  Pgp, openpgp_state_lifecycle, openpgp_state_rc_set, openpgp_state_set_rc_set,
}

abbrev pub pw1 : ℕ
pw1 = 0

abbrev pub pw3 : ℕ
pw3 = 1

abbrev pub rc : ℕ
rc = 2

abbrev pub pin_max_len : ℕ
pin_max_len = 64

-- s_o4, s_o5 and s_o6 at the start of the program.
abbrev pub o4_pair : RecPair
o4_pair = record { slot_a = 50; slot_b = 53; obj = 4; schema = 1; uncertain = false }

abbrev pub o5_pair : RecPair
o5_pair = record { slot_a = 51; slot_b = 54; obj = 5; schema = 1; uncertain = false }

abbrev pub o6_pair : RecPair
o6_pair = record { slot_a = 52; slot_b = 55; obj = 6; schema = 1; uncertain = false }

-- LAYOUT[which]
unfoldable pub pin_layout : ℕ → Layout
pin_layout which =
    if which == pw1
    then record { base_a = 16; base_b = 19; ranges = 2; rounds = 3; mat_len = 32 }
    else if which == pw3
    then record { base_a = 22; base_b = 25; ranges = 2; rounds = 3; mat_len = 32 }
    else record { base_a = 28; base_b = 0; ranges = 1; rounds = 3; mat_len = 32 }

-- "123456" and "12345678"
abbrev pub factory_pw1 : List ℕ
factory_pw1 = 0x31 ∷ 0x32 ∷ 0x33 ∷ 0x34 ∷ 0x35 ∷ 0x36 ∷ []

abbrev pub factory_pw3 : List ℕ
factory_pw3 = 0x31 ∷ 0x32 ∷ 0x33 ∷ 0x34 ∷ 0x35 ∷ 0x36 ∷ 0x37 ∷ 0x38 ∷ []

pub which_ok : ℕ → Bool
which_ok which = leb which rc

min_len : ℕ → ℕ
min_len which = if which == pw1 then 6 else 8

unfoldable pub len_ok : ℕ → List ℕ → Bool
unfolding min_len
len_ok which pin = leb (min_len which) (length pin) && leb (length pin) pin_max_len

-- The state of openpgp_state.c with the chip, the pairs of the PINs, and s_boot_tries of
-- pgp_lifecycle.c.
pub record Card (m : Rmem) : Type 0 where
  pub pgp : Pgp m
  pub o4 : RecPair
  pub o5 : RecPair
  pub o6 : RecPair
  pub boot_tries : ℕ

pub data PinState : Type 0 where
  pin_active pin_blocked pin_not_set pin_error : PinState

-- The state, the attempts left and the length of the PIN, from the kernel's.
unfoldable pub pin_state_of : ℕ → ℕ → Status → PinState × ℕ × ℕ
pin_state_of which lc (pmd_active, att, len) = (pin_active, att, len)
pin_state_of which lc (pmd_blocked, att, len) = (pin_blocked, att, len)
pin_state_of which lc (pmd_absent, att, len) =
    (if not (which == rc) && lc == lc_terminated then pin_not_set else pin_error, 0, 0)
pin_state_of which lc (pmd_error, att, len) = (pin_error, 0, 0)

unfoldable pub is_pin_error : PinState → Bool
is_pin_error pin_error = true
is_pin_error _ = false

-- map_rc
unfoldable pub pin_rc : Pmd → Bool → ℕ
pin_rc pmd_ok correct = if correct then 0 else 1
pin_rc pmd_err_blocked correct = 2
pin_rc _ correct = 5

module _ (m : Rmem) where
  unfoldable pub pair_of : ℕ → Card m → RecPair
  pair_of which g = if which == pw1 then g.o4 else if which == pw3 then g.o5 else g.o6

  unfoldable pub with_pair : ℕ → RecPair → Card m → Card m
  with_pair which p g =
      if which == pw1
      then record g { o4 = p }
      else if which == pw3
      then record g { o5 = p }
      else record g { o6 = p }

  abbrev pub card_chip : Card m → m.State
  card_chip g = g.pgp.chip

  abbrev pub at_chip : Card m → m.State → Card m
  at_chip g s = record g { pgp = record g.pgp { chip = s } }

  unfoldable pub on_pgp : {A : Type 0} → (Pgp m → A × Pgp m) → Card m → A × Card m
  on_pgp f g = let (a, p) = f g.pgp in (a, record g { pgp = p })

module _ (sha256 : List ℕ → List ℕ) (hmac : List ℕ → List ℕ → List ℕ) (m : Rmem) (k : Keys m) where
  -- A call of the kernel with LAYOUT[which].
  unfoldable pub on_pin :
      {A : Type 0} → ℕ → (World sha256 m → A × World sha256 m) → Card m → A × Card m
  unfolding pair_of with_pair
  on_pin which f g =
      let (a, w) = f (pair_of m which g, g.pgp.chip) in (a, with_pair m which w.0 (at_chip m g w.1))

  unfoldable pub pgp_pin_status : ℕ → Card m → (PinState × ℕ × ℕ) × Card m
  unfolding pin_state_of on_pin which_ok
  pgp_pin_status which g =
      let lc = openpgp_state_lifecycle m g.pgp in
      let (st, g1) =
        on_pin which
          (pin_md_kernel_status sha256 hmac m (world_random sha256 m k) (world_mac sha256 m k)
            (pin_layout which))
          g in
      if not (which_ok which)
      then ((pin_error, 0, 0), g)
      else if which == rc && not (lc == lc_operational)
      then ((pin_error, 0, 0), g)
      else if which == rc && openpgp_state_rc_set m g.pgp == 0
      then ((pin_not_set, 0, 0), g)
      else (pin_state_of which lc st, g1)

  -- The code and the key.
  unfoldable pub pgp_pin_verify : ℕ → List ℕ → Card m → (ℕ × List ℕ) × Card m
  unfolding on_pin which_ok len_ok pin_rc
  pgp_pin_verify which pin g =
      let lc = openpgp_state_lifecycle m g.pgp in
      let (out, g1) =
        on_pin which
          (pin_md_kernel_verify sha256 hmac m (world_random sha256 m k) (world_mac sha256 m k)
            (pin_layout which) (some (sha256 pin)))
          g in
      if not (which_ok which) || not (len_ok which pin)
      then ((4, replicate 32 0), g)
      else if which == rc && not (lc == lc_operational)
      then ((5, replicate 32 0), g)
      else if which == rc && openpgp_state_rc_set m g.pgp == 0
      then ((3, replicate 32 0), g)
      else ((pin_rc out.0 out.1, out.2), g1)

  unfoldable pub pgp_pin_change : ℕ → List ℕ → List ℕ → Card m → ℕ × Card m
  unfolding on_pin len_ok pin_rc
  pgp_pin_change which old new g =
      let (out, g1) =
        on_pin which
          (pin_md_kernel_change sha256 hmac m (world_random sha256 m k) (world_mac sha256 m k)
            (pin_layout which) (some (sha256 old)) (some (sha256 new)) (length new))
          g in
      if not (which == pw1 || which == pw3)
      then (5, g)
      else if not (len_ok which old) || not (len_ok which new)
      then (4, g)
      else (pin_rc out.0 out.1, g1)

  -- True for PGP_PIN_OK.
  unfoldable pub bind : ℕ → List ℕ → Card m → Bool × Card m
  unfolding on_pin
  bind which pin g =
      let (out, g1) =
        on_pin which
          (pin_md_kernel_setup sha256 hmac m (world_random sha256 m k) (world_mac sha256 m k)
            (pin_layout which) (some (sha256 pin)) (length pin))
          g in
      (is_pmd_ok out.0, g1)

  unfoldable pub pgp_pin_reset_pw1_check : List ℕ → Card m → ℕ × Card m
  unfolding len_ok is_pin_error pgp_pin_status
  pgp_pin_reset_pw1_check pin g =
      let (st, g1) = pgp_pin_status pw1 g in
      if not (len_ok pw1 pin)
      then (4, g)
      else if not (openpgp_state_lifecycle m g.pgp == lc_operational)
      then (5, g)
      else (if is_pin_error st.0 then 5 else 0, g1)

  unfoldable pub pgp_pin_reset_pw1 : List ℕ → Card m → ℕ × Card m
  unfolding len_ok bind
  pgp_pin_reset_pw1 pin g =
      let (ok, g1) = bind pw1 pin g in
      if not (len_ok pw1 pin)
      then (4, g)
      else if not (openpgp_state_lifecycle m g.pgp == lc_operational)
      then (5, g)
      else (if ok then 0 else 5, g1)

  -- The clear of one PIN; true for PMD_OK.
  unfoldable pub clear_pin : ℕ → Card m → Bool × Card m
  unfolding with_pair pair_of
  clear_pin which g =
      let p = record (pair_of m which g) { uncertain = false } in
      let (out, w) =
        pin_md_kernel_clear sha256 hmac m (world_random sha256 m k) (world_mac sha256 m k)
          (pin_layout which) (p, g.pgp.chip) in
      (is_pmd_ok out, with_pair m which w.0 (at_chip m g w.1))

  -- openpgp_state_set_rc_set, true for the code 0.
  unfoldable pub set_guard : ℕ → Card m → Bool × Card m
  unfolding on_pgp
  set_guard v g =
      let (code, g1) = on_pgp m (openpgp_state_set_rc_set sha256 m v) g in (code == 0, g1)

  -- The guard is cleared if it is set.
  unfoldable pub drop_guard : Card m → Bool × Card m
  unfolding set_guard
  drop_guard g =
      let dropped = set_guard 0 g in
      if openpgp_state_rc_set m g.pgp == 0 then (true, g) else dropped

  unfoldable pub pgp_pin_set_rc : List ℕ → Card m → ℕ × Card m
  unfolding if_ok len_ok clear_pin drop_guard bind set_guard
  pgp_pin_set_rc pin g =
      let out = if_ok (clear_pin rc g) 5 (λ g1. if_ok (drop_guard g1) 5 (λ g2.
        let bound = if_ok (bind rc pin g2) 5 (λ g3. if_ok (set_guard 1 g3) 5 (λ g4. (0, g4))) in
        if length pin == 0 then (0, g2) else bound)) in
      if not (length pin == 0) && not (len_ok rc pin)
      then (4, g)
      else if not (openpgp_state_lifecycle m g.pgp == lc_operational)
      then (5, g)
      else out

  unfoldable pub pgp_pin_bind_factory : Card m → Bool × Card m
  unfolding if_ok bind
  pgp_pin_bind_factory g = if_ok (bind pw1 factory_pw1 g) false (λ g1. bind pw3 factory_pw3 g1)

  -- The n PINs from w on.
  unfoldable pub clear_from : ℕ → ℕ → Card m → Bool × Card m
  unfolding if_ok clear_pin
  clear_from zero w g = (true, g)
  clear_from (suc n) w g = if_ok (clear_pin w g) false (λ g1. clear_from n (suc w) g1)

  unfoldable pub pgp_pin_clear_all : Card m → Bool × Card m
  unfolding clear_from
  pgp_pin_clear_all g = clear_from 3 pw1 g
