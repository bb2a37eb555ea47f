-- ===== src/Tropic/RecPair/Crash.antt =====
-- Power cuts and failing chip calls during `rec_pair_write` of rec_pair.c.
use nixtropic.Base.{
  ℕ, ◌+◌, ◌-◌, List, [], ◌≡◌, ◌≢◌, ◌⊎◌, inl, inr, refl, sym, ◌∙◌, true, false, arith, none, u32_mod,
  bytes_eq_refl, Bool-cases, ◌==◌, ◌∷◌, ==_refl,
}
use nixtropic.Tropic.Rmem.{Rmem, Reading, bytes, slot_empty, failed}
use nixtropic.Tropic.RecPair.{
  RecPair, RecStatus, rec_ok, rec_error, Copy, copy_valid, copy_empty, copy_err, encode, slot_max,
  valid, gen_of, commit_copy, commit_both, read_copy, classify, rec_pair_read, rec_pair_write,
  choose, choose_valid, settle_read, repair, won, fits, is_err, write_next, bad_args, Outcome,
  outcome,
}
use nixtropic.Tropic.RecPair.Commit.{
  commit_both-holds, commit_copy-holds, commit_copy_other, encode-ne-nil, commit_both_chip,
}
use nixtropic.Tropic.RecPair.Read.{Hold, NoRecord, valid-ne-nil}

-- What a write or an erase that is cut short can leave in its slot: what was there, what was
-- written, or bytes that are no record of this pair (the empty slot is such).
pub record Torn (sha256 : List ℕ → List ℕ) (m : Rmem) (p : RecPair) : Type 0 where
  pub erase_torn :
      (slot : ℕ) (s : m.State)
      → (m.holds (m.erase slot s).1 slot ≡ m.holds s slot)
        ⊎ NoRecord sha256 p (m.holds (m.erase slot s).1 slot)
  pub write_torn :
      (slot : ℕ) (r : List ℕ) (s : m.State)
      → (m.holds (m.write slot r s).1 slot ≡ m.holds s slot)
        ⊎ (m.holds (m.write slot r s).1 slot ≡ r)
        ⊎ NoRecord sha256 p (m.holds (m.write slot r s).1 slot)

module _ (sha256 : List ℕ → List ℕ) (p : RecPair) where
  -- A slot between the record `o` and the record `n`.
  abbrev pub Between : List ℕ → List ℕ → List ℕ → Type 0
  Between o n x = (x ≡ o) ⊎ (x ≡ n) ⊎ NoRecord sha256 p x

  -- What the two slots can hold when a write of `n` over `o` ends or is cut anywhere.
  pub data Cut (o n a b : List ℕ) : Type 0 where
    in_a : Between o n a → b ≡ o → Cut o n a b
    in_b : a ≡ n → Between o n b → Cut o n a b
    in_repair : a ≡ o → Between o o b → Cut o n a b

module _ (sha256 : List ℕ → List ℕ) (m : Rmem) (p : RecPair) (torn : Torn sha256 m p) where
  commit_copy-Between :
      (slot : ℕ) (r : List ℕ) (s : m.State)
      → Between sha256 p (m.holds s slot) r (m.holds (commit_copy m slot r s).1 slot)
  unfolding commit_copy
  commit_copy-Between slot r s =
      let s1 = (m.erase slot s).1 in
      let s2 = (m.write slot r s1).1 in
      ground (
        arith,
        torn.erase_torn slot s,
        torn.write_torn slot r s1,
        m.read_keeps slot slot_max s2 slot,
      )

  commit_both-Cut :
      (gen : ℕ) (payload o : List ℕ) (s : m.State)
      → p.slot_a ≢ p.slot_b
      → Hold m p o s
      → let n = encode sha256 p gen payload in
        let s' = (commit_both sha256 m p gen payload s).2 in
        Cut sha256 p o n (m.holds s' p.slot_a) (m.holds s' p.slot_b)
  commit_both-Cut gen payload o s ne (ha, hb) =
      let n = encode sha256 p gen payload in
      let s1 = (commit_copy m p.slot_a n s).1 in
      let s2 = (commit_copy m p.slot_b n s1).1 in
      let first : Between sha256 p o n (m.holds s1 p.slot_a) =
        ground (arith, commit_copy-Between p.slot_a n s) in
      let kept : m.holds s1 p.slot_b ≡ o =
        commit_copy_other sha256 m p.slot_a n s p.slot_b (λ e. ne (sym e)) ∙ hb in
      let second : Between sha256 p o n (m.holds s2 p.slot_b) =
        ground (arith, commit_copy-Between p.slot_b n s1) in
      elim (commit_both_chip sha256 m p gen payload s) [
        | inl (stop, e) ↦ rw e (in_a first kept)
        | inr (ok, e) ↦ rw e (
            in_b
              (commit_copy_other sha256 m p.slot_b n s1 p.slot_a ne
                ∙ commit_copy-holds sha256 m p.slot_a n s (encode-ne-nil sha256 m p gen payload) ok)
              second)
      ]

  -- Of a slot that holds a valid record, a read that answers at all gives that record.
  abbrev Answers : List ℕ → Copy → Type 0
  Answers o c = (c ≡ copy_valid o) ⊎ (c ≡ copy_empty) ⊎ (c ≡ copy_err)

  classify-Answers :
      (o : List ℕ) (x : Reading)
      → valid sha256 p o ≡ true
      → ((r : List ℕ) → x ≡ bytes r → r ≢ [] → o ≡ r)
      → Answers o (classify sha256 m p x)
  unfolding classify
  classify-Answers o (bytes []) good t = inr (inl refl)
  classify-Answers o (bytes (b ∷ r)) good t = ground (arith, t (b ∷ r) refl (λ e. cc))
  classify-Answers o slot_empty good t = inr (inl refl)
  classify-Answers o failed good t = inr (inr refl)

  read_copy-Answers :
      (slot : ℕ) (s : m.State) (o : List ℕ)
      → m.holds s slot ≡ o
      → valid sha256 p o ≡ true
      → Answers o (read_copy sha256 m p slot s).0
  unfolding read_copy
  read_copy-Answers slot s o h good =
      classify-Answers o (m.read slot slot_max s).0 good
        (λ r e ne. sym h ∙ m.read_bytes slot slot_max s r e ne)

  -- The read that `rec_pair_write` begins with: it finds the old record and leaves it in both
  -- slots, or the write goes no further and one slot may be left torn by a repair.
  pub Started : List ℕ → List ℕ → Outcome m → Type 0
  Started o n out =
      ((out.status ≡ rec_ok) × (out.gen ≡ gen_of o) × (out.pair ≡ p) × Hold m p o out.chip)
      ⊎ ((out.status ≢ rec_ok)
          × Cut sha256 p o n (m.holds out.chip p.slot_a) (m.holds out.chip p.slot_b))

  repair_a-Started :
      (o n : List ℕ) (s : m.State)
      → p.slot_a ≢ p.slot_b
      → o ≢ []
      → Hold m p o s
      → Started o n (repair sha256 m p none p.slot_a o s)
  unfolding repair fits won Started
  repair_a-Started o n s ne nn (ha, hb) =
      let (done, s1) = commit_copy m p.slot_a o s in
      let kept : m.holds s1 p.slot_b ≡ o =
        commit_copy_other sha256 m p.slot_a o s p.slot_b (λ e. ne (sym e)) ∙ hb in
      elim (Bool-cases (commit_copy m p.slot_a o s).0) [
        | inl ok ↦
            rw ok (inl (refl, refl, refl, (commit_copy-holds sha256 m p.slot_a o s nn ok, kept)))
        | inr no' ↦
            rw no' (inr (λ e. cc, in_a (ground (arith, commit_copy-Between p.slot_a o s)) kept))
      ]

  repair_b-Started :
      (o n : List ℕ) (s : m.State)
      → p.slot_a ≢ p.slot_b
      → o ≢ []
      → Hold m p o s
      → Started o n (repair sha256 m p none p.slot_b o s)
  unfolding repair fits won Started
  repair_b-Started o n s ne nn (ha, hb) =
      let (done, s1) = commit_copy m p.slot_b o s in
      let kept : m.holds s1 p.slot_a ≡ o =
        commit_copy_other sha256 m p.slot_b o s p.slot_a ne ∙ ha in
      elim (Bool-cases (commit_copy m p.slot_b o s).0) [
        | inl ok ↦
            rw ok (inl (refl, refl, refl, (kept, commit_copy-holds sha256 m p.slot_b o s nn ok)))
        | inr no' ↦
            rw no'
              (inr (λ e. cc, in_repair kept (ground (arith, commit_copy-Between p.slot_b o s))))
      ]

  read_copy_keeps :
      (slot : ℕ) (s : m.State) (j : ℕ) → m.holds (read_copy sha256 m p slot s).1 j ≡ m.holds s j
  unfolding read_copy
  read_copy_keeps slot s j = m.read_keeps slot slot_max s j

  settle-Started :
      (o n : List ℕ) (s : m.State) (a b : Copy)
      → p.slot_a ≢ p.slot_b
      → o ≢ []
      → Hold m p o s
      → (a ≡ copy_valid o) ⊎ (a ≡ copy_empty)
      → (b ≡ copy_valid o) ⊎ (b ≡ copy_empty)
      → Started o n (settle_read sha256 m p none (choose a b) s)
  unfolding settle_read fits won Started choose choose_valid
  settle-Started o n s a b ne nn h (inl ea) (inl eb) =
      rw (ea, eb, bytes_eq_refl o, ==_refl (gen_of o)) (inl (refl, refl, refl, h))
  settle-Started o n s a b ne nn h (inl ea) (inr eb) = rw (ea, eb) (repair_b-Started o n s ne nn h)
  settle-Started o n s a b ne nn h (inr ea) (inl eb) = rw (ea, eb) (repair_a-Started o n s ne nn h)
  settle-Started o n s a b ne nn h (inr ea) (inr eb) =
      rw (ea, eb) (inr (λ e. cc, in_a (inl h.0) h.1))

  -- The ways through a certain pair's read, by what its copies read as.
  read_ways :
      (s : m.State)
      → p.uncertain ≡ false
      → let s1 = (read_copy sha256 m p p.slot_a s).1 in
        let s2 = (read_copy sha256 m p p.slot_b s1).1 in
        let a = (read_copy sha256 m p p.slot_a s).0 in
        let b = (read_copy sha256 m p p.slot_b s1).0 in
        let out = rec_pair_read sha256 m p none s in
        ((is_err a ≡ true) × (out ≡ outcome m rec_error p s1))
        ⊎ ((is_err b ≡ true) × (out ≡ outcome m rec_error p s2))
        ⊎ ((is_err a ≡ false)
            × (is_err b ≡ false)
            × (out ≡ settle_read sha256 m p none (choose a b) s2))
  unfolding rec_pair_read
  read_ways s sure = ground arith

  not_err :
      (o : List ℕ) (c : Copy)
      → Answers o c
      → is_err c ≡ false
      → (c ≡ copy_valid o) ⊎ (c ≡ copy_empty)
  unfolding is_err
  not_err o c h e = ground arith

  refused-Started :
      (o n : List ℕ) (s : m.State) → Hold m p o s → Started o n (outcome m rec_error p s)
  unfolding Started
  refused-Started o n s h = inr (λ e. cc, in_a (inl h.0) h.1)

  read-Started :
      (o n : List ℕ) (s : m.State)
      → p.slot_a ≢ p.slot_b
      → p.uncertain ≡ false
      → valid sha256 p o ≡ true
      → Hold m p o s
      → Started o n (rec_pair_read sha256 m p none s)
  read-Started o n s ne sure good h =
      let s1 = (read_copy sha256 m p p.slot_a s).1 in
      let s2 = (read_copy sha256 m p p.slot_b s1).1 in
      let h1 : Hold m p o s1 =
        (read_copy_keeps p.slot_a s p.slot_a ∙ h.0, read_copy_keeps p.slot_a s p.slot_b ∙ h.1) in
      let h2 : Hold m p o s2 = (
        read_copy_keeps p.slot_b s1 p.slot_a ∙ h1.0,
        read_copy_keeps p.slot_b s1 p.slot_b ∙ h1.1,
      ) in
      elim (read_ways s sure) [
        | inl (bad, e) ↦ rw e (refused-Started o n s1 h1)
        | inr (inl (bad, e)) ↦ rw e (refused-Started o n s2 h2)
        | inr (inr (fa, fb, e)) ↦ rw e (
            settle-Started o n s2 _ _ ne (valid-ne-nil sha256 p o good) h2
              (not_err o _ (read_copy-Answers p.slot_a s o h.0 good) fa)
              (not_err o _ (read_copy-Answers p.slot_b s1 o h1.1 good) fb))
      ]

  abbrev WroteOrCut : List ℕ → List ℕ → RecStatus × RecPair × m.State → Type 0
  WroteOrCut o n out =
      Cut sha256 p o n (m.holds out.2 p.slot_a) (m.holds out.2 p.slot_b)
      × (out.0 ≡ rec_ok → Hold m p n out.2)

  write_next_stops :
      (st : RecStatus) (gen : ℕ) (q : RecPair) (payload : List ℕ) (s : m.State)
      → st ≢ rec_ok
      → write_next sha256 m st gen q payload s ≡ (st, q, s)
  unfolding write_next
  write_next_stops rec_ok gen q payload s h = absurd (h refl)
  write_next_stops _ gen q payload s h = refl

  write_next-WroteOrCut :
      (payload o : List ℕ) (out : Outcome m)
      → p.slot_a ≢ p.slot_b
      → (let n = encode sha256 p (gen_of o + 1) payload in Started o n out)
      → WroteOrCut o
          (encode sha256 p (gen_of o + 1) payload)
          (write_next sha256 m out.status out.gen out.pair payload out.chip)
  unfolding write_next Started
  write_next-WroteOrCut payload o out ne (inl (st, g, pr, h)) =
      rw (st, g, pr)
        (elim (Bool-cases (gen_of o == u32_mod - 1)) [
          | inl e ↦ rw e (in_a (inl h.0) h.1, λ e. cc)
          | inr e ↦ rw e (
            commit_both-Cut (gen_of o + 1) payload o out.chip ne h,
            commit_both-holds sha256 m p (gen_of o + 1) payload out.chip ne,
          )
        ])
  write_next-WroteOrCut payload o out ne (inr (st, c)) =
      rw (write_next_stops out.status out.gen out.pair payload out.chip st) (c, λ e. absurd (st e))

  -- What a write leaves in the slots, and what its acknowledgement means.
  pub write_cut :
      (payload o : List ℕ) (s : m.State)
      → p.slot_a ≢ p.slot_b
      → p.uncertain ≡ false
      → valid sha256 p o ≡ true
      → Hold m p o s
      → WroteOrCut o (encode sha256 p (gen_of o + 1) payload) (rec_pair_write sha256 m p payload s)
  unfolding rec_pair_write
  write_cut payload o s ne sure good h = elim (Bool-cases (bad_args payload)) [
    | inl e ↦ rw e (in_a (inl h.0) h.1, λ e. cc)
    | inr e ↦ rw e (
        write_next-WroteOrCut payload o (rec_pair_read sha256 m p none s) ne
          (read-Started o (encode sha256 p (gen_of o + 1) payload) s ne sure good h))
  ]
