-- ===== src/Tropic/RecPair/Commit.antt =====
-- What `commit_copy`, `commit_both` and `read_copy` of rec_pair.c prove about the chip.
use nixtropic.Base.{false, ℕ, List, [], ◌≡◌, ◌≢◌, true, arith, bytes_eq→eq, ◌⊎◌}
use nixtropic.Tropic.Rmem.{Rmem, Reading, bytes, slot_empty, failed}
use nixtropic.Tropic.RecPair.{
  RecPair, rec_ok, rec_error, is_exactly, commit_copy, commit_both, encode, slot_max,
}

module _ (sha256 : List ℕ → List ℕ) (m : Rmem) where
  is_exactly→eq : (r : List ℕ) (x : Reading) → is_exactly m r x ≡ true → x ≡ bytes r
  unfolding is_exactly
  is_exactly→eq r (bytes got) h = ground (arith, bytes_eq→eq got r)
  is_exactly→eq r slot_empty h = ground arith
  is_exactly→eq r failed h = ground arith

  -- A commit that answers true has put exactly the record into the slot.
  pub commit_copy-holds :
      (slot : ℕ) (r : List ℕ) (s : m.State)
      → r ≢ []
      → (commit_copy m slot r s).0 ≡ true
      → m.holds (commit_copy m slot r s).1 slot ≡ r
  unfolding commit_copy
  commit_copy-holds slot r s ne h =
      let s2 = (m.write slot r (m.erase slot s).1).1 in
      ground (
        arith,
        is_exactly→eq r (m.read slot slot_max s2).0,
        m.read_bytes slot slot_max s2 r,
        m.read_keeps slot slot_max s2 slot,
      )

  -- Whatever it answers, it touches no other slot.
  pub commit_copy_other :
      (slot : ℕ) (r : List ℕ) (s : m.State) (j : ℕ)
      → j ≢ slot
      → m.holds (commit_copy m slot r s).1 j ≡ m.holds s j
  unfolding commit_copy
  commit_copy_other slot r s j ne =
      let s1 = (m.erase slot s).1 in
      let s2 = (m.write slot r s1).1 in
      ground (
        arith,
        m.erase_other slot s j ne,
        m.write_other slot r s1 j ne,
        m.read_keeps slot slot_max s2 j,
      )

  pub encode-ne-nil : (p : RecPair) (gen : ℕ) (payload : List ℕ) → encode sha256 p gen payload ≢ []
  unfolding encode
  encode-ne-nil p gen payload h = cc

  -- An acknowledged commit has put the record into both slots of the pair and no other slot.
  pub commit_both-holds :
      (p : RecPair) (gen : ℕ) (payload : List ℕ) (s : m.State)
      → p.slot_a ≢ p.slot_b
      → (commit_both sha256 m p gen payload s).0 ≡ rec_ok
      → let s' = (commit_both sha256 m p gen payload s).2 in
        (m.holds s' p.slot_a ≡ encode sha256 p gen payload)
        × (m.holds s' p.slot_b ≡ encode sha256 p gen payload)
  unfolding commit_both
  commit_both-holds p gen payload s ne h =
      let r = encode sha256 p gen payload in
      let s1 = (commit_copy m p.slot_a r s).1 in
      ground (
        arith,
        encode-ne-nil p gen payload,
        commit_copy-holds p.slot_a r s,
        commit_copy-holds p.slot_b r s1,
        commit_copy_other p.slot_b r s1 p.slot_a,
      )

  -- A refused commit marks the pair uncertain, an acknowledged one leaves it as it was.
  pub commit_both_uncertain :
      (p : RecPair) (gen : ℕ) (payload : List ℕ) (s : m.State)
      → let (st, p', s') = commit_both sha256 m p gen payload s in
        ((st ≡ rec_ok) × (p' ≡ p)) ⊎ ((st ≡ rec_error) × (p' ≡ record p { uncertain = true }))
  unfolding commit_both
  commit_both_uncertain p gen payload s = ground arith

  -- The chip is where the first copy's commit left it, or, if that succeeded, the second's.
  pub commit_both_chip :
      (p : RecPair) (gen : ℕ) (payload : List ℕ) (s : m.State)
      → let (a, s1) = commit_copy m p.slot_a (encode sha256 p gen payload) s in
        let s2 = (commit_copy m p.slot_b (encode sha256 p gen payload) s1).1 in
        let s' = (commit_both sha256 m p gen payload s).2 in
        ((a ≡ false) × (s' ≡ s1)) ⊎ ((a ≡ true) × (s' ≡ s2))
  unfolding commit_both
  commit_both_chip p gen payload s = ground arith
