-- ===== src/Tropic/RecPair/Writes.antt =====
-- The writing calls of rec_pair.c as clients rely on them, on any truthful chip.
use nixtropic.Base.{
  ℕ, ◌+◌, ◌-◌, List, [], ◌≡◌, ◌≢◌, ◌⊎◌, inl, inr, refl, sym, ap, ◌∙◌, false, arith, Option, none,
  u32_mod, ◌==◌, if_each,
}
use nixtropic.Tropic.Rmem.{Rmem}
use nixtropic.Tropic.RecPair.{
  RecPair, RecStatus, rec_ok, rec_absent, rec_corrupt, rec_error, is_err, read_copy, rec_pair_read,
  rec_pair_write, write_next, commit_both, bad_args, encode, choose, Outcome, payload_of, gen_of,
}
use nixtropic.Tropic.RecPair.Commit.{commit_both-holds, commit_both_uncertain}
use nixtropic.Tropic.RecPair.Read.{Hold}
use nixtropic.Tropic.RecPair.Contract.{
  Kept, rec_pair_read-Found, settle-Kept, choose-Origin, copy_a-InSlot, copy_b-InSlot,
  read_copy_frame,
}

module _ (sha256 : List ℕ → List ℕ) (m : Rmem) where
  read-Hold :
      (p : RecPair) (slot : ℕ) (r : List ℕ) (s : m.State)
      → Hold m p r s
      → Hold m p r (read_copy sha256 m p slot s).1
  read-Hold p slot r s (ha, hb) = (
    read_copy_frame sha256 m p slot s p.slot_a ∙ ha,
    read_copy_frame sha256 m p slot s p.slot_b ∙ hb,
  )

  -- A read over a record in both slots, whatever it returns, leaves it there or the pair uncertain.
  pub rec_pair_read-Kept :
      (p : RecPair) (max : Option ℕ) (r : List ℕ) (s : m.State)
      → p.slot_a ≢ p.slot_b
      → r ≢ []
      → Hold m p r s
      → let out = rec_pair_read sha256 m p max s in Kept sha256 m p out.pair r out.chip
  unfolding rec_pair_read
  rec_pair_read-Kept p max r s ne nr held =
      let (a, s1) = read_copy sha256 m p p.slot_a s in
      let (b, s2) = read_copy sha256 m p p.slot_b s1 in
      let h1 = read-Hold p p.slot_a r s held in
      let h2 = read-Hold p p.slot_b r s1 h1 in
      let P = λ (out : Outcome m). Kept sha256 m p out.pair r out.chip in
      if_each P p.uncertain _ _ (λ u. inl (refl, held))
        (λ u.
          if_each P (is_err a) _ _ (λ e. inl (refl, h1))
            (λ e.
              if_each P (is_err b) _ _ (λ f. inl (refl, h2))
                (λ f.
                  settle-Kept sha256 m p max (choose a b) a b r s2 ne (choose-Origin a b)
                    (copy_a-InSlot sha256 m p s) (copy_b-InSlot sha256 m p s1) nr h2)))

  -- What a write over the record `r` leaves: the new record, acknowledged, or the old one, or an
  -- uncertain pair.
  abbrev pub Written : RecPair → List ℕ → List ℕ → RecStatus × RecPair × m.State → Type 0
  Written p r payload (st, p', s') =
      ((st ≡ rec_ok)
        × (p' ≡ p)
        × (gen_of r ≢ u32_mod - 1)
        × Hold m p (encode sha256 p (gen_of r + 1) payload) s')
      ⊎ ((st ≢ rec_ok) × Kept sha256 m p p' r s')

  commit-Written :
      (p : RecPair) (r payload : List ℕ) (s : m.State)
      → p.slot_a ≢ p.slot_b
      → gen_of r ≢ u32_mod - 1
      → Written p r payload (commit_both sha256 m p (gen_of r + 1) payload s)
  commit-Written p r payload s ne more =
      elim (commit_both_uncertain sha256 m p (gen_of r + 1) payload s) [
        | inl (ok, same) ↦
            inl (ok, same, more, commit_both-holds sha256 m p (gen_of r + 1) payload s ne ok)
        | inr (bad, u) ↦ inr ((λ ok. ground (arith, ok, bad)), inr u)
      ]

  next-Written :
      (st : RecStatus) (gen : ℕ) (p' p : RecPair) (r payload : List ℕ) (s : m.State)
      → p.slot_a ≢ p.slot_b
      → (st ≡ rec_ok → (p' ≡ p) × (gen ≡ gen_of r))
      → Kept sha256 m p p' r s
      → Written p r payload (write_next sha256 m st gen p' payload s)
  unfolding write_next
  next-Written rec_ok gen p' p r payload s ne same kept =
      let (ep, eg) = same refl in
      rw (ep, eg)
        (if_each (Written p r payload) (gen_of r == u32_mod - 1) _ _
          (λ e. inr ((λ c. ground (arith, c)), (rw ep at kept)))
          (λ e. commit-Written p r payload s ne (ground (arith, e))))
  next-Written rec_absent gen p' p r payload s ne same kept = inr ((λ c. ground (arith, c)), kept)
  next-Written rec_corrupt gen p' p r payload s ne same kept = inr ((λ c. ground (arith, c)), kept)
  next-Written rec_error gen p' p r payload s ne same kept = inr ((λ c. ground (arith, c)), kept)

  -- A read that succeeds over a record in both slots returns it.
  pub read_same :
      (p : RecPair) (max : Option ℕ) (r : List ℕ) (s : m.State)
      → p.slot_a ≢ p.slot_b
      → r ≢ []
      → p.uncertain ≡ false
      → Hold m p r s
      → (rec_pair_read sha256 m p max s).status ≡ rec_ok
      → let out = rec_pair_read sha256 m p max s in
        (out.pair ≡ p) × (out.payload ≡ payload_of r) × (out.gen ≡ gen_of r)
  read_same p max r s ne nr certain held ok =
      let (x, (same, (ha, hb), v, pl, g)) = rec_pair_read-Found sha256 m p max s ne ok in
      let e : x ≡ r = elim (rec_pair_read-Kept p max r s ne nr held) [
        | inl (q, (ka, kb)) ↦ sym ha ∙ ka
        | inr u ↦ ground (arith, ap (λ (q : RecPair). q.uncertain) (sym same ∙ u), certain)
      ] in
      (same, rw e at pl, rw e at g)

  -- A write of a certain pair with two slots, both of which hold the record r, is acknowledged,
  -- and both hold the next record, or it is not, and they hold r or the pair is uncertain.
  pub rec_pair_write-Written :
      (p : RecPair) (r payload : List ℕ) (s : m.State)
      → p.slot_a ≢ p.slot_b
      → r ≢ []
      → p.uncertain ≡ false
      → Hold m p r s
      → Written p r payload (rec_pair_write sha256 m p payload s)
  unfolding rec_pair_write
  rec_pair_write-Written p r payload s ne nr certain held =
      let out = rec_pair_read sha256 m p none s in
      if_each (Written p r payload) (bad_args payload) _ _
        (λ bad. inr ((λ c. ground (arith, c)), inl (refl, held)))
        (λ good.
          next-Written out.status out.gen out.pair p r payload out.chip ne
            (λ ok. let (a, b, c) = read_same p none r s ne nr certain held ok in (a, c))
            (rec_pair_read-Kept p none r s ne nr held))
