-- ===== src/Tropic/RecPair/Read.antt =====
-- `rec_pair_read` of rec_pair.c on a chip that works: what it returns and what it repairs.
use nixtropic.Base.{
  ℕ, ◌+◌, ◌<◌, List, [], ◌∷◌, ◌≡◌, ◌≢◌, refl, sym, ◌∙◌, true, false, arith, bytes_eq_refl, ◌⊎◌,
  if◌then◌else◌, Option, u32_mod, inl, inr,
}
use nixtropic.Tropic.Rmem.{Rmem, Works, reading}
use nixtropic.Tropic.RecPair.{
  RecPair, rec_ok, is_exactly, commit_copy, slot_max, read_copy, classify, Copy, copy_valid,
  copy_empty, copy_bad, valid, choose, choose_valid, Choice, Outcome, keep, repair_a, repair_b,
  settle_read, rec_pair_read, repair, fits, won, is_err, gen_of, payload_of,
}
use nixtropic.Tropic.RecPair.Commit.{commit_copy-holds, commit_copy_other}

-- What the code makes of the content of a slot.
pub copy_of : (List ℕ → List ℕ) → RecPair → List ℕ → Copy
copy_of sha256 p [] = copy_empty
copy_of sha256 p (b ∷ r) = if valid sha256 p (b ∷ r) then copy_valid (b ∷ r) else copy_bad

-- Both slots hold `r`.
abbrev pub Hold : (m : Rmem) → RecPair → List ℕ → m.State → Type 0
Hold m p r s = (m.holds s p.slot_a ≡ r) × (m.holds s p.slot_b ≡ r)

module _ (sha256 : List ℕ → List ℕ) (m : Rmem) (w : Works m slot_max) where
  classify-reading :
      (p : RecPair) (r : List ℕ) → classify sha256 m p (reading r) ≡ copy_of sha256 p r
  unfolding classify copy_of
  classify-reading p [] = refl
  classify-reading p (b ∷ r) = refl

  read_copy_lem :
      (p : RecPair) (slot : ℕ) (s : m.State)
      → (read_copy sha256 m p slot s).0 ≡ copy_of sha256 p (m.holds s slot)
  unfolding read_copy
  read_copy_lem p slot s = rw (w.read_all slot s) (classify-reading p (m.holds s slot))

  pub read_copy_keeps :
      (p : RecPair) (slot : ℕ) (s : m.State) (j : ℕ)
      → m.holds (read_copy sha256 m p slot s).1 j ≡ m.holds s j
  unfolding read_copy
  read_copy_keeps p slot s j = m.read_keeps slot slot_max s j

  is_exactly-reading : (r : List ℕ) → r ≢ [] → is_exactly m r (reading r) ≡ true
  unfolding is_exactly
  is_exactly-reading [] ne = absurd (ne refl)
  is_exactly-reading (b ∷ r) ne = ground (arith, bytes_eq_refl (b ∷ r))

  -- On a chip that works a commit succeeds.
  pub commit_copy_done :
      (slot : ℕ) (r : List ℕ) (s : m.State) → r ≢ [] → (commit_copy m slot r s).0 ≡ true
  unfolding commit_copy
  commit_copy_done slot r s ne =
      let s1 = (m.erase slot s).1 in
      let s2 = (m.write slot r s1).1 in
      ground (
        arith,
        w.erase_done slot s,
        w.erase_holds slot s,
        w.write_done slot r s1,
        w.write_holds slot r s1,
        w.read_all slot s2,
        is_exactly-reading r ne,
      )

  is_err-copy_of : (p : RecPair) (r : List ℕ) → is_err (copy_of sha256 p r) ≡ false
  unfolding is_err copy_of
  is_err-copy_of p [] = refl
  is_err-copy_of p (b ∷ r) = ground arith

  -- A certain pair's read is decided by the contents of its two slots.
  pub rec_pair_read_lem :
      (p : RecPair) (max : Option ℕ) (s : m.State)
      → p.uncertain ≡ false
      → (s' : m.State) × ((j : ℕ) → m.holds s' j ≡ m.holds s j)
        × (rec_pair_read sha256 m p max s
            ≡ settle_read sha256 m p max
                (choose
                  (copy_of sha256 p (m.holds s p.slot_a))
                  (copy_of sha256 p (m.holds s p.slot_b)))
                s')
  unfolding rec_pair_read
  rec_pair_read_lem p max s sure =
      let s1 = (read_copy sha256 m p p.slot_a s).1 in
      (
        (read_copy sha256 m p p.slot_b s1).1,
        λ j. read_copy_keeps p p.slot_b s1 j ∙ read_copy_keeps p p.slot_a s j,
        ground (
          arith,
          read_copy_lem p p.slot_a s,
          read_copy_lem p p.slot_b s1,
          read_copy_keeps p p.slot_a s p.slot_b,
          is_err-copy_of p (m.holds s p.slot_a),
          is_err-copy_of p (m.holds s p.slot_b),
        ),
      )

module _ (sha256 : List ℕ → List ℕ) (p : RecPair) where
  -- A slot's content that the code does not take for a record of the pair.
  abbrev pub NoRecord : List ℕ → Type 0
  NoRecord r = valid sha256 p r ≡ false

  copy_of-valid : (r : List ℕ) → valid sha256 p r ≡ true → copy_of sha256 p r ≡ copy_valid r
  unfolding copy_of valid
  copy_of-valid [] h = cc
  copy_of-valid (b ∷ r) h = rw h

  copy_of-NoRecord :
      (r : List ℕ)
      → NoRecord r
      → (copy_of sha256 p r ≡ copy_empty) ⊎ (copy_of sha256 p r ≡ copy_bad)
  unfolding copy_of
  copy_of-NoRecord [] h = inl refl
  copy_of-NoRecord (b ∷ r) h = inr (rw h)

  pub valid-ne-nil : (r : List ℕ) → valid sha256 p r ≡ true → r ≢ []
  unfolding valid
  valid-ne-nil [] h e = cc
  valid-ne-nil (b ∷ r) h e = cc

  abbrev chosen : List ℕ → List ℕ → Choice
  chosen a b = choose (copy_of sha256 p a) (copy_of sha256 p b)

  pub choose_same : (r : List ℕ) → valid sha256 p r ≡ true → chosen r r ≡ keep r
  unfolding choose choose_valid
  choose_same r h = ground (arith, copy_of-valid r h, bytes_eq_refl r)

  pub choose_left : (a b : List ℕ) → valid sha256 p a ≡ true → NoRecord b → chosen a b ≡ repair_b a
  unfolding choose
  choose_left a b h n = ground (arith, copy_of-valid a h, copy_of-NoRecord b n)

  pub choose_right : (a b : List ℕ) → NoRecord a → valid sha256 p b ≡ true → chosen a b ≡ repair_a b
  unfolding choose
  choose_right a b n h = ground (arith, copy_of-valid b h, copy_of-NoRecord a n)

  pub choose_newer_left :
      (a b : List ℕ)
      → valid sha256 p a ≡ true
      → valid sha256 p b ≡ true
      → gen_of a ≡ gen_of b + 1
      → gen_of a < u32_mod
      → chosen a b ≡ repair_b a
  unfolding choose choose_valid
  choose_newer_left a b ha hb e small = ground (arith, copy_of-valid a ha, copy_of-valid b hb)

-- The call succeeded with the payload and generation of `r`, and both slots hold `r`.
pub record Returns (m : Rmem) (p : RecPair) (r : List ℕ) (out : Outcome m) : Type 0 where
  pub status_ok : out.status ≡ rec_ok
  pub payload_is : out.payload ≡ payload_of r
  pub gen_is : out.gen ≡ gen_of r
  pub pair_is : out.pair ≡ p
  pub both_hold : Hold m p r out.chip

module _ (sha256 : List ℕ → List ℕ) (m : Rmem) (w : Works m slot_max) (p : RecPair)
    (distinct : p.slot_a ≢ p.slot_b) (max : Option ℕ) (r : List ℕ) (ne : r ≢ [])
    (fit : fits max r ≡ true) (s : m.State) where
  pub settle_keep : Hold m p r s → Returns m p r (settle_read sha256 m p max (keep r) s)
  unfolding settle_read won
  settle_keep h = ground (arith)

  pub settle_repair_b :
      m.holds s p.slot_a ≡ r → Returns m p r (settle_read sha256 m p max (repair_b r) s)
  unfolding settle_read repair won
  settle_repair_b h = ground (
    arith,
    commit_copy_done sha256 m w p.slot_b r s ne,
    commit_copy-holds sha256 m p.slot_b r s ne,
    commit_copy_other sha256 m p.slot_b r s p.slot_a distinct,
  )

  pub settle_repair_a :
      m.holds s p.slot_b ≡ r → Returns m p r (settle_read sha256 m p max (repair_a r) s)
  unfolding settle_read repair won
  settle_repair_a h = ground (
    arith,
    commit_copy_done sha256 m w p.slot_a r s ne,
    commit_copy-holds sha256 m p.slot_a r s ne,
    commit_copy_other sha256 m p.slot_a r s p.slot_b (λ e. distinct (sym e)),
  )
