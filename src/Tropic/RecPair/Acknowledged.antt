-- ===== src/Tropic/RecPair/Acknowledged.antt =====
-- The pair after a read or a write of rec_pair.c that is acknowledged, on any chip.
use nixtropic.Base.{ℕ, ◌+◌, ◌-◌, List, ◌≡◌, refl, arith, Option, none, if_each, ◌==◌, u32_mod}
use nixtropic.Tropic.Rmem.{Rmem}
use nixtropic.Tropic.RecPair.{
  RecPair, RecStatus, rec_ok, rec_absent, rec_corrupt, rec_error, Choice, keep, repair_a, repair_b,
  refuse, read_copy, settle_read, repair, won, rec_pair_read, rec_pair_write, write_next,
  commit_both, bad_args, choose,
}

module _ (sha256 : List ℕ → List ℕ) (m : Rmem) where
  repair_same :
      (p : RecPair) (max : Option ℕ) (slot : ℕ) (r : List ℕ) (s : m.State)
      → (repair sha256 m p max slot r s).status ≡ rec_ok
      → (repair sha256 m p max slot r s).pair ≡ p
  unfolding repair won
  repair_same p max slot r s ok = ground (arith, ok)

  settle_read_same :
      (p : RecPair) (max : Option ℕ) (c : Choice) (s : m.State)
      → (settle_read sha256 m p max c s).status ≡ rec_ok
      → (settle_read sha256 m p max c s).pair ≡ p
  unfolding settle_read won
  settle_read_same p max (keep r) s ok = ground arith
  settle_read_same p max (repair_a r) s ok = repair_same p max p.slot_a r s ok
  settle_read_same p max (repair_b r) s ok = repair_same p max p.slot_b r s ok
  settle_read_same p max (refuse st) s ok = refl

  rec_pair_read_same :
      (p : RecPair) (max : Option ℕ) (s : m.State)
      → (rec_pair_read sha256 m p max s).status ≡ rec_ok
      → (rec_pair_read sha256 m p max s).pair ≡ p
  unfolding rec_pair_read
  rec_pair_read_same p max s ok =
      let (a, s1) = read_copy sha256 m p p.slot_a s in
      let (b, s2) = read_copy sha256 m p p.slot_b s1 in
      ground (arith, ok, settle_read_same p max (choose a b) s2)

  -- The pair of an acknowledged call.
  abbrev Same : RecPair → RecStatus × RecPair × m.State → Type 0
  Same p x = x.0 ≡ rec_ok → x.1 ≡ p

  commit_both-Same :
      (p : RecPair) (gen : ℕ) (payload : List ℕ) (s : m.State)
      → Same p (commit_both sha256 m p gen payload s)
  unfolding commit_both
  commit_both-Same p gen payload s ok = ground (arith, ok)

  write_next-Same :
      (st : RecStatus) (gen : ℕ) (p : RecPair) (payload : List ℕ) (s : m.State)
      → Same p (write_next sha256 m st gen p payload s)
  unfolding write_next
  write_next-Same rec_ok gen p payload s =
      if_each (Same p) (gen == u32_mod - 1) _ _ (λ e ok. refl)
        (λ e. commit_both-Same p (gen + 1) payload s)
  write_next-Same rec_absent gen p payload s = λ ok. refl
  write_next-Same rec_corrupt gen p payload s = λ ok. refl
  write_next-Same rec_error gen p payload s = λ ok. refl

  write_next_read :
      (st : RecStatus) (gen : ℕ) (p q : RecPair) (payload : List ℕ) (s : m.State)
      → (st ≡ rec_ok → q ≡ p)
      → Same p (write_next sha256 m st gen q payload s)
  unfolding write_next
  write_next_read rec_ok gen p q payload s same =
      rw (same refl) (write_next-Same rec_ok gen p payload s)
  write_next_read rec_absent gen p q payload s same = λ ok. ground (arith, ok)
  write_next_read rec_corrupt gen p q payload s same = λ ok. ground (arith, ok)
  write_next_read rec_error gen p q payload s same = λ ok. ground (arith, ok)

  pub rec_pair_write-Same :
      (p : RecPair) (payload : List ℕ) (s : m.State) → Same p (rec_pair_write sha256 m p payload s)
  unfolding rec_pair_write
  rec_pair_write-Same p payload s =
      let r = rec_pair_read sha256 m p none s in
      if_each (Same p) (bad_args payload) _ _ (λ e ok. refl)
        (λ e. write_next_read r.status r.gen p r.pair payload r.chip (rec_pair_read_same p none s))
