-- ===== src/OpenPgp/Lifecycle/Wipe.antt =====
-- The wipe and TERMINATE of pgp_lifecycle.c as a whole, and the FIDO part of the chip.
use nixtropic.Base.{ℕ, suc, ◌≤◌, ◌<◌, List, [], true, ◌≡◌, ◌≢◌, ◌⊎◌, ◌∙◌, arith, ◌==◌}
use nixtropic.Tropic.Rmem.{Rmem}
use nixtropic.Tropic.Keys.{Keys}
use nixtropic.Tropic.ChipClosed.{ChipClosed, vault-ChipClosed}
use nixtropic.Tropic.RecPair.Cleared.{LeftByErase, still_left}
use nixtropic.Tropic.PinKernel.{if_ok}
use nixtropic.Tropic.PinKernel.Chain.{if_ok-each}
use nixtropic.OpenPgp.State.Clear.{IsTerminated}
use nixtropic.OpenPgp.Pin.{Card}
use nixtropic.OpenPgp.Pin.Clear.{clear_all_other, clear_all-LeftByErase}
use nixtropic.OpenPgp.Lifecycle.{wiped_first, pgp_lifecycle_terminate}
use nixtropic.OpenPgp.Lifecycle.Steps.{
  HasCard, keys_step, state_step, pins_step, last_step, wipe_ends_in, keys_step-HasCard,
  keys_step_keeps, keys_step_gone, keys_step_outside, keys_step_count, state_step-HasCard,
  state_step_keeps, pins_step_pgp, last_step_keeps, last_step-IsTerminated, state_step-Closed,
  pins_step-Closed, last_step-Closed,
}

module _ (sha256 : List ℕ → List ℕ) (hmac : List ℕ → List ℕ → List ℕ) (m : Rmem) (k : Keys m) where
  -- What TERMINATE ends with.
  terminate_ends_in :
      (g : Card m) (E : ℕ × Card m → Type 0)
      → let g1 = (keys_step sha256 hmac m k g).1 in
        let g2 = (state_step sha256 hmac m k g1).1 in
        let g3 = (pins_step sha256 hmac m k g2).1 in
        E (1, g1)
        → ((keys_step sha256 hmac m k g).0 ≡ true
            → E (1, g2)
              × ((state_step sha256 hmac m k g1).0 ≡ true
                  → E (1, g3)
                    × ((pins_step sha256 hmac m k g2).0 ≡ true
                        → E (2, (last_step sha256 hmac m k g3).1)
                          × ((last_step sha256 hmac m k g3).0 ≡ true
                              → E (0, (last_step sha256 hmac m k g3).1)))))
        → E (pgp_lifecycle_terminate sha256 hmac m k g)
  unfolding pgp_lifecycle_terminate wiped_first
  terminate_ends_in g E e1 rest =
      let last : Card m → ℕ × Card m = λ g2. (0, g2) in
      let go : Card m → ℕ × Card m = λ g1. if_ok (last_step sha256 hmac m k g1) 2 last in
      let F : ℕ × Card m → Type 0 = λ x. E (if_ok (x.0 == 0, x.1) 1 go) in
      wipe_ends_in sha256 hmac m k g F e1 (λ ok1.
        let (e2, r2) = rest ok1 in
        (
          e2,
          λ ok2.
              let (e3, r3) = r2 ok2 in
              (
                e3,
                λ ok3.
                    let (e4, r4) = r3 ok3 in
                    if_ok-each E (last_step sha256 hmac m k _) 2 last e4 r4,
              ),
        ))

  -- The card is terminated, in RAM and on the chip, with no key, and the slots of the PIN bindings
  -- erased.
  pub record IsErased (g : Card m) : Type 0 where
    pub no_keys : (j : ℕ) → 29 ≤ j → j ≤ 31 → k.key g.pgp.chip j ≡ []
    pub no_pins : (j : ℕ) → 50 ≤ j → j ≤ 55 → LeftByErase m j g.pgp.chip
    pub terminated : IsTerminated sha256 m g.pgp

  abbrev CardKeysGone : m.State → Type 0
  CardKeysGone s = (j : ℕ) → 29 ≤ j → j ≤ 31 → k.key s j ≡ []

  card_keys : ChipClosed sha256 hmac m k CardKeysGone
  card_keys =
      vault-ChipClosed sha256 hmac m k CardKeysGone (λ s s' same h j lo hi. same.0 j ∙ h j lo hi)

  -- Whatever the chip answers, a TERMINATE of a card with its record pairs that returns 0 has left
  -- none of the three OpenPGP keys, and in each slot of the PIN bindings what an erase left there
  -- that the chip acknowledged and after which the slot read as empty; both copies of O3 are the
  -- terminated record, which RAM has too.
  pub terminate_complete :
      (g : Card m)
      → HasCard sha256 hmac m k g
      → (pgp_lifecycle_terminate sha256 hmac m k g).0 ≡ 0
      → IsErased (pgp_lifecycle_terminate sha256 hmac m k g).1
  terminate_complete g h =
      let E : ℕ × Card m → Type 0 = λ x. x.0 ≡ 0 → IsErased x.1 in
      let stop : (n : ℕ) (x : Card m) → E (suc n, x) = λ n x e. absurd (omega (arith, e)) in
      let g1 = (keys_step sha256 hmac m k g).1 in
      let g2 = (state_step sha256 hmac m k g1).1 in
      let g3 = (pins_step sha256 hmac m k g2).1 in
      let g4 = (last_step sha256 hmac m k g3).1 in
      let h1 = keys_step-HasCard sha256 hmac m k g h in
      let h2 = state_step-HasCard sha256 hmac m k g1 h1 in
      let o3 = pins_step_pgp sha256 hmac m k g2 h2.state in
      terminate_ends_in g E (stop 0 g1) (λ ok1. (
        stop 0 g2,
        λ ok2. (
          stop 0 g3,
          λ ok3. (
            stop 1 g4,
            λ ok4 e.
                let n1 : CardKeysGone g1.pgp.chip = keys_step_gone sha256 hmac m k g ok1 in
                let n2 = state_step-Closed sha256 hmac m k CardKeysGone card_keys g1 n1 in
                let n3 = pins_step-Closed sha256 hmac m k CardKeysGone card_keys g2 n2 in
                record {
                  no_keys = last_step-Closed sha256 hmac m k CardKeysGone card_keys g3 n3;
                  no_pins = λ j lo hi.
                      still_left m j _ _
                        (last_step_keeps sha256 hmac m k g3 j o3 (omega (arith, lo))
                          (omega (arith, lo)))
                        (clear_all-LeftByErase sha256 hmac m k g2 h2.pins ok3 j lo hi);
                  terminated = last_step-IsTerminated sha256 hmac m k g3 o3 ok4;
                },
          ),
        ),
      ))

  -- The FIDO key j, the counters and the R-memory slot i are as in s0.
  abbrev pub FidoAsIn : m.State → ℕ → m.State → Type 0
  FidoAsIn s0 j s = (k.key s j ≡ k.key s0 j) × ((c : ℕ) → k.count s c ≡ k.count s0 c)

  fido_keys : (s0 : m.State) (j : ℕ) → ChipClosed sha256 hmac m k (FidoAsIn s0 j)
  fido_keys s0 j =
      vault-ChipClosed sha256 hmac m k (FidoAsIn s0 j)
        (λ s s' same h. (same.0 j ∙ h.0, λ c. same.1 c ∙ h.1 c))

  -- Whatever the chip answers and whatever it returns, a TERMINATE of a card with its record pairs
  -- leaves every FIDO key, every counter, and every R-memory slot but those of the card's record
  -- pairs as they were.
  pub terminate_spares_fido :
      (g : Card m)
      → HasCard sha256 hmac m k g
      → let s = (pgp_lifecycle_terminate sha256 hmac m k g).1.pgp.chip in
        ((j : ℕ) → j < 29 → k.key s j ≡ k.key g.pgp.chip j)
        × ((c : ℕ) → k.count s c ≡ k.count g.pgp.chip c)
        × ((i : ℕ) → i ≢ 33 → i ≢ 43 → (i < 50) ⊎ (55 < i) → m.holds s i ≡ m.holds g.pgp.chip i)
  terminate_spares_fido g h =
      let s0 = g.pgp.chip in
      let g1 = (keys_step sha256 hmac m k g).1 in
      let g2 = (state_step sha256 hmac m k g1).1 in
      let g3 = (pins_step sha256 hmac m k g2).1 in
      let h1 = keys_step-HasCard sha256 hmac m k g h in
      let h2 = state_step-HasCard sha256 hmac m k g1 h1 in
      let o3 = pins_step_pgp sha256 hmac m k g2 h2.state in
      let vault : (j : ℕ)
          → j < 29
          → FidoAsIn s0 j (pgp_lifecycle_terminate sha256 hmac m k g).1.pgp.chip =
        λ j lt.
          let P = FidoAsIn s0 j in
          let v1 : P g1.pgp.chip =
            (keys_step_outside sha256 hmac m k g j lt, keys_step_count sha256 hmac m k g) in
          let v2 = state_step-Closed sha256 hmac m k P (fido_keys s0 j) g1 v1 in
          let v3 = pins_step-Closed sha256 hmac m k P (fido_keys s0 j) g2 v2 in
          let v4 = last_step-Closed sha256 hmac m k P (fido_keys s0 j) g3 v3 in
          terminate_ends_in g (λ x. P x.1.pgp.chip) v1
            (λ ok1. (v2, λ ok2. (v3, λ ok3. (v4, λ ok4. v4)))) in
      (
        λ j lt. (vault j lt).0,
        (vault 0 (omega arith)).1,
        λ i na nb out.
            let e1 = keys_step_keeps sha256 hmac m k g i in
            let e2 = state_step_keeps sha256 hmac m k g1 i h1 na nb ∙ e1 in
            let e3 = clear_all_other sha256 hmac m k g2 i h2.pins out ∙ e2 in
            let e4 = last_step_keeps sha256 hmac m k g3 i o3 na nb ∙ e3 in
            terminate_ends_in g (λ x. m.holds x.1.pgp.chip i ≡ m.holds s0 i) e1
              (λ ok1. (e2, λ ok2. (e3, λ ok3. (e4, λ ok4. e4)))),
      )
