-- ===== src/Tropic/RecPair/Ops.antt =====
-- The calls of rec_pair.c as their callers see them: what a success means, what a working chip
-- gives, what an uncertain pair refuses.
use nixtropic.Base.{
  ℕ, ◌+◌, ◌≤◌, ◌<◌, List, ◌≡◌, ◌≢◌, ◌⊎◌, inl, inr, refl, ◌∙◌, true, false, arith, Option, some,
  none, u32_mod, length,
}
use nixtropic.Tropic.Rmem.{Rmem, Works}
use nixtropic.Tropic.RecPair.{
  fits, read_copy, RecPair, RecStatus, rec_ok, rec_error, rec_payload_max, slot_max, encode,
  outcome, commit_both, write_next, bad_args, rec_pair_read, rec_pair_write, rec_pair_clear,
  rec_pair_init, settle_read, repair, won, choose, Choice, keep, repair_a, repair_b, refuse,
  erase_checked, reads_empty, commit_copy,
}
use nixtropic.Tropic.RecPair.Format.{valid-encode, gen_of-encode}
use nixtropic.Tropic.RecPair.Commit.{commit_both-holds, commit_both_uncertain, encode-ne-nil}
use nixtropic.Tropic.RecPair.Read.{Hold, NoRecord, commit_copy_done}
use nixtropic.Tropic.RecPair.Recover.{read_both, read_left_survives, read_right_survives}
use nixtropic.Tropic.RecPair.PowerCut.{Gives, Returns-Gives, fits-encode}

fits-none : (r : List ℕ) → fits none r ≡ true
unfolding fits
fits-none r = refl

module _ (sha256 : List ℕ → List ℕ) (m : Rmem) where
  -- An uncertain pair answers every call with an error, and leaves itself and the chip alone.
  pub uncertain_refuses :
      (p : RecPair) (max : Option ℕ) (payload : List ℕ) (s : m.State)
      → p.uncertain ≡ true
      → (rec_pair_read sha256 m p max s ≡ outcome m rec_error p s)
        × (rec_pair_write sha256 m p payload s ≡ (rec_error, p, s))
        × (rec_pair_clear sha256 m p s ≡ (rec_error, p, s))
        × (rec_pair_init sha256 m p payload s ≡ (rec_error, p, s))
  unfolding rec_pair_read rec_pair_write rec_pair_clear rec_pair_init
  uncertain_refuses p max payload s h = ground arith

  settle_pair :
      (p : RecPair) (max : Option ℕ) (c : Choice) (s : m.State)
      → (settle_read sha256 m p max c s).status ≡ rec_ok
      → (settle_read sha256 m p max c s).pair ≡ p
  unfolding settle_read repair won
  settle_pair p max (keep r) s h = ground arith
  settle_pair p max (repair_a r) s h = ground arith
  settle_pair p max (repair_b r) s h = ground arith
  settle_pair p max (refuse st) s h = refl

  read_pair :
      (p : RecPair) (max : Option ℕ) (s : m.State)
      → (rec_pair_read sha256 m p max s).status ≡ rec_ok
      → (rec_pair_read sha256 m p max s).pair ≡ p
  unfolding rec_pair_read
  read_pair p max s h =
      let (a, s1) = read_copy sha256 m p p.slot_a s in
      let (b, s2) = read_copy sha256 m p p.slot_b s1 in
      ground (arith, settle_pair p max (choose a b) s2)

  next_ok :
      (st : RecStatus) (gen : ℕ) (p : RecPair) (payload : List ℕ) (s : m.State)
      → (write_next sha256 m st gen p payload s).0 ≡ rec_ok
      → st ≡ rec_ok
  unfolding write_next
  next_ok rec_ok gen p payload s h = refl
  next_ok _ gen p payload s h = h

  next_acknowledged :
      (gen : ℕ) (p : RecPair) (payload : List ℕ) (s : m.State)
      → p.slot_a ≢ p.slot_b
      → (write_next sha256 m rec_ok gen p payload s).0 ≡ rec_ok
      → Hold m p (encode sha256 p (gen + 1) payload) (write_next sha256 m rec_ok gen p payload s).2
  unfolding write_next
  next_acknowledged gen p payload s ne h =
      ground (arith, commit_both-holds sha256 m p (gen + 1) payload s ne)

  write_goes_on :
      (p : RecPair) (payload : List ℕ) (s : m.State)
      → (rec_pair_write sha256 m p payload s).0 ≡ rec_ok
      → let r = rec_pair_read sha256 m p none s in
        rec_pair_write sha256 m p payload s
        ≡ write_next sha256 m r.status r.gen r.pair payload r.chip
  unfolding rec_pair_write
  write_goes_on p payload s h = ground arith

  -- On any chip whose reads are truthful, an acknowledged write means that both slots hold the
  -- new payload under the generation after the one that was there to read.
  pub rec_pair_write_acknowledged :
      (p : RecPair) (payload : List ℕ) (s : m.State)
      → p.slot_a ≢ p.slot_b
      → (rec_pair_write sha256 m p payload s).0 ≡ rec_ok
      → let seen = rec_pair_read sha256 m p none s in
        (seen.status ≡ rec_ok)
        × Hold m p (encode sha256 p (seen.gen + 1) payload) (rec_pair_write sha256 m p payload s).2
  rec_pair_write_acknowledged p payload s ne h =
      let r = rec_pair_read sha256 m p none s in
      let went = write_goes_on p payload s h in
      let ok = next_ok r.status r.gen r.pair payload r.chip (rw went at h) in
      let same = read_pair p none s ok in
      let e : rec_pair_write sha256 m p payload s
          ≡ write_next sha256 m rec_ok r.gen p payload r.chip =
        cc in
      (ok, rw e (next_acknowledged r.gen p payload r.chip ne (rw e at h)))

module _ (sha256 : List ℕ → List ℕ) (m : Rmem) (w : Works m slot_max) where
  commit_both_done :
      (p : RecPair) (gen : ℕ) (payload : List ℕ) (s : m.State)
      → (commit_both sha256 m p gen payload s).0 ≡ rec_ok
  unfolding commit_both
  commit_both_done p gen payload s =
      let r = encode sha256 p gen payload in
      let s1 = (commit_copy m p.slot_a r s).1 in
      ground (
        arith,
        commit_copy_done sha256 m w p.slot_a r s (encode-ne-nil sha256 m p gen payload),
        commit_copy_done sha256 m w p.slot_b r s1 (encode-ne-nil sha256 m p gen payload),
      )

  erase_checked_done : (slot : ℕ) (s : m.State) → (erase_checked m slot s).0 ≡ true
  unfolding erase_checked reads_empty
  erase_checked_done slot s =
      ground (arith, w.erase_done slot s, w.erase_holds slot s, w.read_all slot (m.erase slot s).1)

  -- On a working chip a certain pair can be initialised whatever its slots hold.
  pub rec_pair_init_works :
      (p : RecPair) (payload : List ℕ) (s : m.State)
      → p.slot_a ≢ p.slot_b
      → p.uncertain ≡ false
      → length payload ≤ rec_payload_max
      → let (st, p', s') = rec_pair_init sha256 m p payload s in
        (st ≡ rec_ok) × (p' ≡ p) × Hold m p (encode sha256 p 1 payload) s'
  unfolding rec_pair_init rec_pair_clear
  rec_pair_init_works p payload s ne sure short =
      let s1 = (erase_checked m p.slot_b s).1 in
      let s2 = (erase_checked m p.slot_a s1).1 in
      ground (
        arith,
        erase_checked_done p.slot_b s,
        erase_checked_done p.slot_a s1,
        commit_both_done p 1 payload s2,
        commit_both_uncertain sha256 m p 1 payload s2,
        commit_both-holds sha256 m p 1 payload s2 ne,
      )

module _ (sha256 : List ℕ → List ℕ) (sha256_length : (x : List ℕ) → length (sha256 x) ≡ 32)
    (m : Rmem) (w : Works m slot_max) (p : RecPair) (g : ℕ) (payload : List ℕ) (s : m.State)
    (distinct : p.slot_a ≢ p.slot_b) (sure : p.uncertain ≡ false) (pos : 0 < g)
    (short : length payload ≤ rec_payload_max) where
  -- With the record in one copy and anything that is no record of the pair in the other, be it
  -- empty or damaged, a read on a working chip returns the record and restores the other copy.
  pub damaged_copy :
      g < u32_mod
      → ((m.holds s p.slot_a ≡ encode sha256 p g payload) × NoRecord sha256 p (m.holds s p.slot_b))
        ⊎ (NoRecord sha256 p (m.holds s p.slot_a)
            × (m.holds s p.slot_b ≡ encode sha256 p g payload))
      → Gives sha256 sha256_length m p payload g (rec_pair_read sha256 m p (some rec_payload_max) s)
  damaged_copy small (inl (a, b)) = Returns-Gives sha256 sha256_length m p g payload _ small short (
      read_left_survives sha256 m w p distinct sure (some rec_payload_max)
        (encode sha256 p g payload) (valid-encode sha256 sha256_length p g payload pos small short)
        (fits-encode sha256 sha256_length p g payload short) s a b)
  damaged_copy small (inr (a, b)) = Returns-Gives sha256 sha256_length m p g payload _ small short (
      read_right_survives sha256 m w p distinct sure (some rec_payload_max)
        (encode sha256 p g payload) (valid-encode sha256 sha256_length p g payload pos small short)
        (fits-encode sha256 sha256_length p g payload short) s a b)

  -- On a working chip a write over a record in both copies is acknowledged: both slots hold the
  -- new payload under the next generation, and the pair stays certain.
  pub rec_pair_write_works :
      (new : List ℕ)
      → g + 1 < u32_mod
      → length new ≤ rec_payload_max
      → Hold m p (encode sha256 p g payload) s
      → let (st, p', s') = rec_pair_write sha256 m p new s in
        (st ≡ rec_ok) × (p' ≡ p) × Hold m p (encode sha256 p (g + 1) new) s'
  unfolding rec_pair_write write_next bad_args
  rec_pair_write_works new small ln h =
      let r = rec_pair_read sha256 m p none s in
      let seen =
        read_both sha256 m w p distinct sure none (encode sha256 p g payload)
          (valid-encode sha256 sha256_length p g payload pos (omega arith) short)
          (fits-none (encode sha256 p g payload)) s h in
      let gen : r.gen ≡ g = seen.gen_is ∙ gen_of-encode sha256 p g payload (omega arith) in
      rw (seen.status_ok, gen, seen.pair_is)
        (ground (
          arith,
          commit_both_done sha256 m w p (g + 1) new r.chip,
          commit_both_uncertain sha256 m p (g + 1) new r.chip,
          commit_both-holds sha256 m p (g + 1) new r.chip distinct,
        ))
