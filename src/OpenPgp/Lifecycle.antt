-- ===== src/OpenPgp/Lifecycle.antt =====
-- firmware/src/openpgp/pgp_lifecycle.c: the boot, the wipe, TERMINATE and ACTIVATE of the OpenPGP
-- card, over openpgp_state.c, pgp_pin.c and the key slots of the chip. A code -n is n.
pub mod Steps
pub mod Wipe
mod Tests
use nixtropic.Base.{ℕ, ◌+◌, List, [], ◌∷◌, Bool, true, false, not, ◌||◌, leb, ◌==◌, if◌then◌else◌}
use nixtropic.Tropic.Rmem.{Rmem}
use nixtropic.Tropic.Keys.{Keys}
use nixtropic.Tropic.PinKernel.{if_ok}
use nixtropic.OpenPgp.State.Record.{lc_terminated}
use nixtropic.OpenPgp.State.{
  Pgp, Lifecycle, pgp_lc_operational, pgp_lc_terminated, openpgp_state_lifecycle,
  openpgp_state_clear, openpgp_state_load, openpgp_state_init, openpgp_state_activate,
}
use nixtropic.OpenPgp.Pin.{Card, on_pgp, at_chip, pgp_pin_clear_all, pgp_pin_bind_factory}

abbrev pub sig_slot : ℕ
sig_slot = 29

abbrev pub dec_slot : ℕ
dec_slot = 30

abbrev pub aut_slot : ℕ
aut_slot = 31

abbrev boot_tries_max : ℕ
boot_tries_max = 3

module _ (sha256 : List ℕ → List ℕ) (hmac : List ℕ → List ℕ → List ℕ) (m : Rmem) (k : Keys m) where
  -- The erases in the order of the list; true if every one is acknowledged.
  unfoldable pub erase_each : List ℕ → m.State → Bool × m.State
  unfolding if_ok
  erase_each [] s = (true, s)
  erase_each (j ∷ keys) s = if_ok (k.ecc_erase j s) false (λ s1. erase_each keys s1)

  unfoldable pub drop_keys : Card m → Bool × Card m
  unfolding erase_each
  drop_keys g =
      let (ok, s) = erase_each (sig_slot ∷ dec_slot ∷ aut_slot ∷ []) g.pgp.chip in
      (ok, at_chip m g s)

  -- A call of openpgp_state.c; true for the code 0.
  unfoldable pub on_state : (Pgp m → ℕ × Pgp m) → Card m → Bool × Card m
  unfolding on_pgp
  on_state f g = let (code, g1) = on_pgp m f g in (code == 0, g1)

  unfoldable pub pgp_lifecycle_wipe : Card m → ℕ × Card m
  unfolding if_ok drop_keys on_state
  pgp_lifecycle_wipe g = if_ok (drop_keys g) 1 (λ g1.
      if_ok (on_state (openpgp_state_clear sha256 m) g1) 2
        (λ g2. if_ok (pgp_pin_clear_all sha256 hmac m k g2) 3 (λ g3. (0, g3))))

  -- The wipe; true for the code 0.
  unfoldable pub wiped_first : Card m → Bool × Card m
  unfolding pgp_lifecycle_wipe
  wiped_first g = let (code, g1) = pgp_lifecycle_wipe g in (code == 0, g1)

  -- A bootstrap: everything is destroyed before any factory PIN.
  unfoldable pub bootstrap : Card m → ℕ × Card m
  unfolding if_ok wiped_first on_state
  bootstrap g = if_ok (wiped_first g) 3 (λ g1.
      if_ok (pgp_pin_bind_factory sha256 hmac m k g1) 4 (λ g2.
        if_ok (on_state (openpgp_state_init sha256 m pgp_lc_operational) g2) 5 (λ g3. (0, g3))))

  unfoldable pub pgp_lifecycle_boot : Card m → ℕ × Card m
  unfolding if_ok on_pgp bootstrap
  pgp_lifecycle_boot g =
      let (ready, s) = k.session_ensure g.pgp.chip in
      let (st, g1) = on_pgp m (openpgp_state_load sha256 m) (at_chip m g s) in
      let fresh = bootstrap g1 in
      if not ready
      then (1, at_chip m g s)
      else if st == 0
      then (0, g1)
      else if st == 2
      then (2, g1)
      else fresh

  unfoldable pub pgp_lifecycle_terminate : Card m → ℕ × Card m
  unfolding if_ok wiped_first on_state
  pgp_lifecycle_terminate g =
      if_ok (wiped_first g) 1 (λ g1.
        if_ok (on_state (openpgp_state_init sha256 m pgp_lc_terminated) g1) 2 (λ g2. (0, g2)))

  unfoldable pub pgp_lifecycle_activate : Card m → ℕ × Card m
  unfolding if_ok on_state
  pgp_lifecycle_activate g =
      let out = if_ok (pgp_pin_clear_all sha256 hmac m k g) 2 (λ g1.
        if_ok (pgp_pin_bind_factory sha256 hmac m k g1) 2
          (λ g2. if_ok (on_state (openpgp_state_activate sha256 m) g2) 2 (λ g3. (0, g3)))) in
      if not (openpgp_state_lifecycle m g.pgp == lc_terminated) then (1, g) else out

  unfoldable pub pgp_lifecycle_ensure : Card m → Card m
  unfolding pgp_lifecycle_boot
  pgp_lifecycle_ensure g =
      let (code, g1) = pgp_lifecycle_boot (record g { boot_tries = g.boot_tries + 1 }) in
      if g.pgp.loaded || leb boot_tries_max g.boot_tries then g else g1
