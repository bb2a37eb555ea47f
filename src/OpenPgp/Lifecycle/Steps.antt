-- ===== src/OpenPgp/Lifecycle/Steps.antt =====
-- The steps of the wipe and of TERMINATE of pgp_lifecycle.c, one by one.
use mathlib.Core.Path.{subst}
use nixtropic.Tropic.RecPair.Frame.{SamePair}
use nixtropic.Base.{ℕ, ◌≤◌, ◌<◌, List, [], Bool, true, ◌≡◌, ◌≢◌, inl, sym, arith, ◌==◌, ==_iff}
use nixtropic.Tropic.Rmem.{Rmem}
use nixtropic.Tropic.Keys.{Keys}
use nixtropic.Tropic.ChipClosed.{ChipClosed}
use nixtropic.Tropic.RecPair.Cleared.{LeftByErase}
use nixtropic.Tropic.PinKernel.{if_ok}
use nixtropic.Tropic.PinKernel.Chain.{if_ok-each}
use nixtropic.FidoHid.Store.{erase_keys}
use nixtropic.FidoHid.Store.EraseKeys.{
  erase_keys-KeysGone, erase_keys-OnlyKeys, erase_keys_outside, erase_keys_count,
}
use nixtropic.OpenPgp.State.{o3_pair, pgp_lc_terminated, openpgp_state_clear, openpgp_state_init}
use nixtropic.OpenPgp.State.Clear.{
  HasO3, IsTerminated, openpgp_state_clear-LeftByErase, openpgp_state_clear_other,
  openpgp_state_clear-HasO3, openpgp_state_clear-Closed, init-IsTerminated,
  openpgp_state_init_other, openpgp_state_init-Closed,
}
use nixtropic.OpenPgp.Pin.{Card, on_pgp, pgp_pin_clear_all}
use nixtropic.OpenPgp.Pin.Clear.{HasPins, clear_all-Closed, pins_moved, clear_all_o3}
use nixtropic.OpenPgp.Lifecycle.{erase_each, drop_keys, on_state, pgp_lifecycle_wipe}

module _ (sha256 : List ℕ → List ℕ) (hmac : List ℕ → List ℕ → List ℕ) (m : Rmem) (k : Keys m) where
  -- The record pairs of the card have the slots they start with.
  pub record HasCard (g : Card m) : Type 0 where
    pub state : HasO3 sha256 m g.pgp
    pub pins : HasPins sha256 hmac m k g

  -- The steps of a wipe, and the last one of TERMINATE.
  abbrev pub keys_step : Card m → Bool × Card m
  keys_step g = drop_keys sha256 hmac m k g

  abbrev pub state_step : Card m → Bool × Card m
  state_step g = on_state sha256 hmac m k (openpgp_state_clear sha256 m) g

  abbrev pub pins_step : Card m → Bool × Card m
  pins_step g = pgp_pin_clear_all sha256 hmac m k g

  abbrev pub last_step : Card m → Bool × Card m
  last_step g = on_state sha256 hmac m k (openpgp_state_init sha256 m pgp_lc_terminated) g

  -- What a wipe ends with.
  pub wipe_ends_in :
      (g : Card m) (E : ℕ × Card m → Type 0)
      → let g1 = (keys_step g).1 in
        let g2 = (state_step g1).1 in
        let g3 = (pins_step g2).1 in
        E (1, g1)
        → ((keys_step g).0 ≡ true
            → E (2, g2)
              × ((state_step g1).0 ≡ true → E (3, g3) × ((pins_step g2).0 ≡ true → E (0, g3))))
        → E (pgp_lifecycle_wipe sha256 hmac m k g)
  unfolding pgp_lifecycle_wipe
  wipe_ends_in g E e1 rest =
      let w3 : Card m → ℕ × Card m = λ g3. (0, g3) in
      let w2 : Card m → ℕ × Card m = λ g2. if_ok (pins_step g2) 3 w3 in
      let w1 : Card m → ℕ × Card m = λ g1. if_ok (state_step g1) 2 w2 in
      let g1 = (keys_step g).1 in
      let g2 = (state_step g1).1 in
      if_ok-each E (keys_step g) 1 w1 e1 (λ ok1.
        let (e2, r2) = rest ok1 in
        if_ok-each E (state_step g1) 2 w2 e2
          (λ ok2. let (e3, r3) = r2 ok2 in if_ok-each E (pins_step g2) 3 w3 e3 (λ ok3. r3 ok3)))

  pub keys_step-HasCard : (g : Card m) → HasCard g → HasCard (keys_step g).1
  unfolding drop_keys
  keys_step-HasCard g h = record { state = h.state; pins = pins_moved sha256 hmac m k g _ h.pins }

  pub keys_step_keeps :
      (g : Card m) (j : ℕ) → m.holds (keys_step g).1.pgp.chip j ≡ m.holds g.pgp.chip j
  unfolding drop_keys erase_each erase_keys
  keys_step_keeps g j = erase_keys-OnlyKeys sha256 hmac m k 3 29 g.pgp.chip j

  pub keys_step_gone :
      (g : Card m)
      → (keys_step g).0 ≡ true
      → (j : ℕ) → 29 ≤ j
      → j ≤ 31
      → k.key (keys_step g).1.pgp.chip j ≡ []
  unfolding drop_keys erase_each erase_keys
  keys_step_gone g ok j lo hi =
      erase_keys-KeysGone sha256 hmac m k 3 29 g.pgp.chip ok j lo (omega (arith, hi))

  pub keys_step_outside :
      (g : Card m) (j : ℕ) → j < 29 → k.key (keys_step g).1.pgp.chip j ≡ k.key g.pgp.chip j
  unfolding drop_keys erase_each erase_keys
  keys_step_outside g j lt = erase_keys_outside sha256 hmac m k 3 29 g.pgp.chip j (inl lt)

  pub keys_step_count :
      (g : Card m) (c : ℕ) → k.count (keys_step g).1.pgp.chip c ≡ k.count g.pgp.chip c
  unfolding drop_keys erase_each erase_keys
  keys_step_count g c = erase_keys_count sha256 hmac m k 3 29 g.pgp.chip c

  zero-true : (n : ℕ) → (n == 0) ≡ true → n ≡ 0
  zero-true n h = (==_iff n 0).0 h

  pub state_step-HasCard : (g : Card m) → HasCard g → HasCard (state_step g).1
  unfolding on_state on_pgp
  state_step-HasCard g h = record {
    state = openpgp_state_clear-HasO3 sha256 m g.pgp h.state;
    pins = pins_moved sha256 hmac m k g _ h.pins;
  }

  pub state_step_keeps :
      (g : Card m) (j : ℕ)
      → HasCard g
      → j ≢ 33
      → j ≢ 43
      → m.holds (state_step g).1.pgp.chip j ≡ m.holds g.pgp.chip j
  unfolding on_state on_pgp
  state_step_keeps g j h na nb = openpgp_state_clear_other sha256 m g.pgp j h.state na nb

  pub state_step-LeftByErase :
      (g : Card m)
      → HasCard g
      → (state_step g).0 ≡ true
      → LeftByErase m 33 (state_step g).1.pgp.chip × LeftByErase m 43 (state_step g).1.pgp.chip
  unfolding on_state on_pgp
  state_step-LeftByErase g h ok =
      openpgp_state_clear-LeftByErase sha256 m g.pgp h.state (zero-true _ ok)

  -- The clear of the PINs leaves the pair of O3 alone.
  pub pins_step_pgp : (g : Card m) → HasO3 sha256 m g.pgp → HasO3 sha256 m (pins_step g).1.pgp
  pins_step_pgp g h = subst (SamePair sha256 m o3_pair) (sym (clear_all_o3 sha256 hmac m k g)) h

  pub last_step_keeps :
      (g : Card m) (j : ℕ)
      → HasO3 sha256 m g.pgp
      → j ≢ 33
      → j ≢ 43
      → m.holds (last_step g).1.pgp.chip j ≡ m.holds g.pgp.chip j
  unfolding on_state on_pgp
  last_step_keeps g j h na nb = openpgp_state_init_other sha256 m g.pgp j h na nb

  pub last_step-IsTerminated :
      (g : Card m)
      → HasO3 sha256 m g.pgp
      → (last_step g).0 ≡ true
      → IsTerminated sha256 m (last_step g).1.pgp
  unfolding on_state on_pgp
  last_step-IsTerminated g h ok = init-IsTerminated sha256 m g.pgp h (zero-true _ ok)

  -- What the keys and counters alone say is kept by every step but the first.
  module _ (P : m.State → Type 0) (closed : ChipClosed sha256 hmac m k P) where
    pub state_step-Closed : (g : Card m) → P g.pgp.chip → P (state_step g).1.pgp.chip
    unfolding on_state on_pgp
    state_step-Closed g h = openpgp_state_clear-Closed sha256 m P closed.rmem g.pgp h

    pub pins_step-Closed : (g : Card m) → P g.pgp.chip → P (pins_step g).1.pgp.chip
    pins_step-Closed g h = clear_all-Closed sha256 hmac m k P closed g h

    pub last_step-Closed : (g : Card m) → P g.pgp.chip → P (last_step g).1.pgp.chip
    unfolding on_state on_pgp
    last_step-Closed g h = openpgp_state_init-Closed sha256 m P closed.rmem g.pgp h
