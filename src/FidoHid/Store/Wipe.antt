-- ===== src/FidoHid/Store/Wipe.antt =====
-- fido_state_wipe of fido_state.c: its end, when it succeeds and when it stops.
use nixtropic.Base.{ℕ, suc, ◌≤◌, ◌<◌, List, ◌≡◌, ◌≢◌, ◌⊎◌, ◌∙◌, arith}
use nixtropic.Tropic.Rmem.{Rmem}
use nixtropic.Tropic.Keys.{Keys}
use nixtropic.FidoHid.Slots.{fido_slots_max}
use nixtropic.Tropic.RecPair.Cleared.{LeftByErase, still_left}
use nixtropic.FidoHid.Store.{Fido, fido_state_wipe, signcount_mcounter, mcounter_max}
use nixtropic.FidoHid.Store.Steps.{
  HasPairs, NoKeys, wipe_ends, step1, step2, step3, step4, step5, step1-HasPairs, step2-HasPairs,
  step3_o1, step1_keeps, step2-LeftByErase, step2_keeps, step3_keeps, step3-LeftByErase,
  step4_keeps, step4-IsFresh, step5_keeps, step5-IsFresh, step5_count, step1-NoKeys, step2-NoKeys,
  step3-NoKeys, step4-NoKeys, step5-NoKeys,
}
use nixtropic.FidoHid.Slots.Fresh.{IsFresh}

outside : (j : ℕ) → (j ≡ 0) ⊎ (j ≡ 40) → (j ≡ 0) ⊎ (fido_slots_max < j)
outside j at0 = ground (arith, at0)

not_41 : (j : ℕ) → (j ≡ 0) ⊎ (j ≡ 40) → j ≢ 41
not_41 j at0 e = ground (arith, at0, e)

not_42 : (j : ℕ) → (j ≡ 0) ⊎ (j ≡ 40) → j ≢ 42
not_42 j at0 e = ground (arith, at0, e)

module _ (sha256 : List ℕ → List ℕ) (hmac : List ℕ → List ℕ → List ℕ) (m : Rmem) (k : Keys m) where
  -- The FIDO state is at its start: no key; the metadata slots and those of the PIN binding erased;
  -- the slots usable and none taken, in RAM and on the chip; the counter at its start.
  pub record IsWiped (g : Fido m) : Type 0 where
    pub no_keys : NoKeys sha256 hmac m k g.slots.chip
    pub no_metadata : (j : ℕ) → 0 < j → j ≤ fido_slots_max → LeftByErase m j g.slots.chip
    pub no_binding : LeftByErase m 41 g.slots.chip × LeftByErase m 42 g.slots.chip
    pub fresh : IsFresh sha256 m g.slots
    pub full_count : k.count g.slots.chip signcount_mcounter ≡ mcounter_max

  -- Whatever the chip answers, a wipe of a state with its two record pairs that returns 0 has left
  -- no FIDO key, and in each metadata slot and both slots of the PIN binding what an erase left
  -- there that the chip acknowledged and after which the slot read as empty; both copies of O1 are
  -- the empty record, which RAM has too, and the counter is at its start.
  pub wipe_complete :
      (g : Fido m)
      → HasPairs sha256 hmac m k g
      → (fido_state_wipe sha256 hmac m k g).0 ≡ 0
      → IsWiped (fido_state_wipe sha256 hmac m k g).1
  wipe_complete g h =
      let E : ℕ × Fido m → Type 0 = λ x. x.0 ≡ 0 → IsWiped x.1 in
      let stop : (n : ℕ) (x : Fido m) → E (suc n, x) = λ n x e. absurd (omega (arith, e)) in
      let g1 = (step1 sha256 hmac m k g).1 in
      let g2 = (step2 sha256 hmac m k g1).1 in
      let g3 = (step3 sha256 hmac m k g2).1 in
      let g4 = (step4 sha256 hmac m k g3).1 in
      let p1 = step1-HasPairs sha256 hmac m k g h in
      let p2 = step2-HasPairs sha256 hmac m k g1 p1 in
      let p3 = step3_o1 sha256 hmac m k g2 p2.first in
      wipe_ends sha256 hmac m k g E (stop 0 g1) (λ ok1. (
        stop 1 g2,
        λ ok2. (
          stop 2 g3,
          λ ok3. (
            stop 3 g4,
            λ ok4. (
              stop 4 _,
              λ ok5 e.
                  let n1 = step1-NoKeys sha256 hmac m k g ok1 in
                  let n2 = step2-NoKeys sha256 hmac m k g1 n1 in
                  let n3 = step3-NoKeys sha256 hmac m k g2 n2 in
                  let (za, zb) = step3-LeftByErase sha256 hmac m k g2 p2.second ok3 in
                  let at_end : (j : ℕ)
                      → j ≢ 0
                      → j ≢ 40
                      → m.holds (step5 sha256 hmac m k g4).1.slots.chip j
                        ≡ m.holds g3.slots.chip j =
                    λ j n0 n40.
                      step5_keeps sha256 hmac m k g4 j
                      ∙ step4_keeps sha256 hmac m k g3 j p3 n0 n40 in
                  record {
                    no_keys = step5-NoKeys sha256 hmac m k g4 (step4-NoKeys sha256 hmac m k g3 n3);
                    no_metadata = λ j lo hi.
                        still_left m j _ _
                          (at_end j (omega (arith, lo)) (omega (arith, hi))
                            ∙ step3_keeps sha256 hmac m k g2 j p2.second (omega (arith, hi))
                                (omega (arith, hi)))
                          (step2-LeftByErase sha256 hmac m k g1 ok2 j lo hi);
                    no_binding = (
                      still_left m 41 _ _ (at_end 41 (omega arith) (omega arith)) za,
                      still_left m 42 _ _ (at_end 42 (omega arith) (omega arith)) zb,
                    );
                    fresh =
                        step5-IsFresh sha256 hmac m k g4 (step4-IsFresh sha256 hmac m k g3 p3 ok4);
                    full_count = step5_count sha256 hmac m k g4 ok5;
                  },
            ),
          ),
        ),
      ))

  -- Whatever the chip answers, a wipe of a state with its two record pairs that returns one of the
  -- first three errors, that of a failed key erase, metadata erase or PIN clear, has left both slots
  -- of O1 as they were.
  pub wipe_stopped :
      (g : Fido m)
      → HasPairs sha256 hmac m k g
      → 0 < (fido_state_wipe sha256 hmac m k g).0
      → (fido_state_wipe sha256 hmac m k g).0 ≤ 3
      → (j : ℕ) → (j ≡ 0) ⊎ (j ≡ 40)
      → m.holds (fido_state_wipe sha256 hmac m k g).1.slots.chip j ≡ m.holds g.slots.chip j
  wipe_stopped g h lo hi j at0 =
      let Same : Fido m → Type 0 = λ x. m.holds x.slots.chip j ≡ m.holds g.slots.chip j in
      let E : ℕ × Fido m → Type 0 = λ x. 0 < x.0 → x.0 ≤ 3 → Same x.1 in
      let g1 = (step1 sha256 hmac m k g).1 in
      let g2 = (step2 sha256 hmac m k g1).1 in
      let g3 = (step3 sha256 hmac m k g2).1 in
      let g4 = (step4 sha256 hmac m k g3).1 in
      let p1 = step1-HasPairs sha256 hmac m k g h in
      let p2 = step2-HasPairs sha256 hmac m k g1 p1 in
      let k1 : Same g1 = step1_keeps sha256 hmac m k g j in
      let k2 : Same g2 = step2_keeps sha256 hmac m k g1 j (outside j at0) ∙ k1 in
      let k3 : Same g3 =
        step3_keeps sha256 hmac m k g2 j p2.second (not_41 j at0) (not_42 j at0) ∙ k2 in
      let past : (n : ℕ) (x : Fido m) → 3 < n → E (n, x) =
        λ n x big lo' hi'. absurd (omega (arith, hi', big)) in
      wipe_ends sha256 hmac m k g E (λ lo' hi'. k1)
        (λ ok1. (
          λ lo' hi'. k2,
          λ ok2. (
            λ lo' hi'. k3,
            λ ok3. (
              past 4 g4 (omega arith),
              λ ok4. (
                past 5 (step5 sha256 hmac m k g4).1 (omega arith),
                λ ok5 lo'. absurd (omega (arith, lo')),
              ),
            ),
          ),
        ))
        lo hi
