-- ===== src/FidoHid/Store/EraseKeys.antt =====
-- The loop of fido_state_wipe of fido_state.c that erases the keys.
use nixtropic.Base.{
  ◌⊎◌, ℕ, zero, suc, ◌+◌, ◌≤◌, ◌<◌, List, [], Bool, true, false, ◌≡◌, inl, inr, refl, ◌∙◌, sym,
  arith, Bool-cases, ◌==◌, ==_iff,
}
use nixtropic.Tropic.Rmem.{Rmem}
use nixtropic.Tropic.Keys.{Keys}
use nixtropic.Tropic.PinKernel.Chain.{if_ok-each}
use nixtropic.FidoHid.Store.{erase_keys}

module _ (sha256 : List ℕ → List ℕ) (hmac : List ℕ → List ℕ → List ℕ) (m : Rmem) (k : Keys m) where
  -- The keys from i to i + n - 1 are gone if the erasing succeeds.
  abbrev pub KeysGone : ℕ → ℕ → Bool × m.State → Type 0
  KeysGone n i x = x.0 ≡ true → (j : ℕ) → i ≤ j → j < i + n → k.key x.1 j ≡ []

  -- An operation on keys moves no counter and no R-memory slot.
  abbrev pub OnlyKeys : m.State → m.State → Type 0
  OnlyKeys s s' = (j : ℕ) → m.holds s' j ≡ m.holds s j

  erase_keys_below :
      (n i : ℕ) (s : m.State) (j : ℕ)
      → j < i
      → k.key (erase_keys sha256 hmac m k n i s).1 j ≡ k.key s j
  unfolding erase_keys
  erase_keys_below zero i s j lt = refl
  erase_keys_below (suc n) i s j lt =
      let P = λ (x : Bool × m.State). k.key x.1 j ≡ k.key s j in
      let e = k.ecc_erase_other i s j (omega (arith, lt)) in
      if_ok-each P (k.ecc_erase i s) false (λ s1. erase_keys sha256 hmac m k n (suc i) s1) e
        (λ ok. erase_keys_below n (suc i) _ j (omega (arith, lt)) ∙ e)

  pub erase_keys-KeysGone :
      (n i : ℕ) (s : m.State) → KeysGone n i (erase_keys sha256 hmac m k n i s)
  unfolding erase_keys
  erase_keys-KeysGone zero i s = λ ok j lo hi. absurd (omega (arith, lo, hi))
  erase_keys-KeysGone (suc n) i s =
      if_ok-each (KeysGone (suc n) i) (k.ecc_erase i s) false
        (λ s1. erase_keys sha256 hmac m k n (suc i) s1) (λ ok. ground (arith, ok))
        (λ erased ok j lo hi. elim (Bool-cases (i == j)) [
          | inl here ↦
              let at_i : i ≡ j = (==_iff i j).0 here in
              rw (sym at_i)
                (erase_keys_below n (suc i) _ i (omega arith) ∙ k.ecc_erase_done i s erased)
          | inr there ↦
              erase_keys-KeysGone n (suc i) (k.ecc_erase i s).1 ok j (ground (arith, there, lo))
                (omega (arith, hi))
        ])

  pub erase_keys-OnlyKeys :
      (n i : ℕ) (s : m.State) → OnlyKeys s (erase_keys sha256 hmac m k n i s).1
  unfolding erase_keys
  erase_keys-OnlyKeys zero i s j = refl
  erase_keys-OnlyKeys (suc n) i s j =
      let e = k.ecc_erase_keeps i s j in
      if_ok-each (λ (x : Bool × m.State). m.holds x.1 j ≡ m.holds s j) (k.ecc_erase i s) false
        (λ s1. erase_keys sha256 hmac m k n (suc i) s1) e
        (λ ok. erase_keys-OnlyKeys n (suc i) _ j ∙ e)

  -- No other key and no counter is touched.
  pub erase_keys_outside :
      (n i : ℕ) (s : m.State) (j : ℕ)
      → (j < i) ⊎ (i + n ≤ j)
      → k.key (erase_keys sha256 hmac m k n i s).1 j ≡ k.key s j
  unfolding erase_keys
  erase_keys_outside zero i s j out = refl
  erase_keys_outside (suc n) i s j out =
      let P = λ (x : Bool × m.State). k.key x.1 j ≡ k.key s j in
      let e = k.ecc_erase_other i s j (ground (arith, out)) in
      if_ok-each P (k.ecc_erase i s) false (λ s1. erase_keys sha256 hmac m k n (suc i) s1) e
        (λ ok. erase_keys_outside n (suc i) _ j (ground (arith, out)) ∙ e)

  pub erase_keys_count :
      (n i : ℕ) (s : m.State) (c : ℕ) → k.count (erase_keys sha256 hmac m k n i s).1 c ≡ k.count s c
  unfolding erase_keys
  erase_keys_count zero i s c = refl
  erase_keys_count (suc n) i s c =
      let P = λ (x : Bool × m.State). k.count x.1 c ≡ k.count s c in
      let e = k.ecc_erase_count i s c in
      if_ok-each P (k.ecc_erase i s) false (λ s1. erase_keys sha256 hmac m k n (suc i) s1) e
        (λ ok. erase_keys_count n (suc i) _ c ∙ e)
