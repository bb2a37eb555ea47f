-- ===== src/Tropic/RecPair/Contract.antt =====
-- rec_pair.c as its clients rely on it, on any chip whose reads are truthful: what a call leaves
-- in the two slots and in all others.
use nixtropic.Base.{
  Bool-cases, ℕ, ◌+◌, ◌%◌, List, [], ◌∷◌, ◌≡◌, ◌≢◌, ◌⊎◌, inl, inr, refl, sym, ap, ◌∙◌, true, false,
  arith, Option, u32_mod, ◌==◌, bytes_eq, bytes_eq→eq, if_each,
}
use nixtropic.Tropic.Rmem.{Rmem, Reading, bytes, slot_empty, failed}
use nixtropic.Tropic.RecPair.{
  RecPair, rec_ok, slot_max, Copy, copy_valid, copy_empty, copy_bad, copy_err, Choice, keep,
  repair_a, repair_b, refuse, choose, choose_valid, valid, classify, read_copy, won, repair,
  settle_read, rec_pair_read, Outcome, payload_of, gen_of, uncertain_now,
}
use nixtropic.Tropic.RecPair.Commit.{commit_copy-holds, commit_copy_other}
use nixtropic.Tropic.RecPair.Read.{Hold}

-- Where a choice has its record from.
abbrev pub Origin : Choice → Copy → Copy → Type 0
Origin (keep r) a b = (a ≡ copy_valid r) × (b ≡ copy_valid r)
Origin (repair_b r) a b = a ≡ copy_valid r
Origin (repair_a r) a b = b ≡ copy_valid r
Origin (refuse st) a b = st ≢ rec_ok

choose_valid-Origin : (a b : List ℕ) → Origin (choose_valid a b) (copy_valid a) (copy_valid b)
unfolding choose_valid
choose_valid-Origin a b =
    let P = λ (c : Choice). Origin c (copy_valid a) (copy_valid b) in
    if_each P (gen_of a == gen_of b) _ _
      (λ e.
        if_each P (bytes_eq a b) _ _ (λ same. (refl, ap copy_valid (sym (bytes_eq→eq a b same))))
          (λ d c. cc))
      (λ e.
        if_each P (gen_of a == (gen_of b + 1) % u32_mod) _ _ (λ s. refl)
          (λ s. if_each P (gen_of b == (gen_of a + 1) % u32_mod) _ _ (λ t. refl) (λ t c. cc)))

pub choose-Origin : (a b : Copy) → Origin (choose a b) a b
unfolding choose
choose-Origin (copy_valid a) (copy_valid b) = choose_valid-Origin a b
choose-Origin (copy_valid a) copy_empty = refl
choose-Origin (copy_valid a) copy_bad = refl
choose-Origin (copy_valid a) copy_err = refl
choose-Origin copy_empty (copy_valid b) = refl
choose-Origin copy_bad (copy_valid b) = refl
choose-Origin copy_err (copy_valid b) = refl
choose-Origin copy_empty copy_empty = λ c. cc
choose-Origin copy_empty copy_bad = λ c. cc
choose-Origin copy_empty copy_err = λ c. cc
choose-Origin copy_bad copy_empty = λ c. cc
choose-Origin copy_bad copy_bad = λ c. cc
choose-Origin copy_bad copy_err = λ c. cc
choose-Origin copy_err copy_empty = λ c. cc
choose-Origin copy_err copy_bad = λ c. cc
choose-Origin copy_err copy_err = λ c. cc

module _ (sha256 : List ℕ → List ℕ) (m : Rmem) where
  classify-valid :
      (p : RecPair) (x : Reading) (r : List ℕ)
      → classify sha256 m p x ≡ copy_valid r
      → (x ≡ bytes r) × (r ≢ []) × (valid sha256 p r ≡ true)
  unfolding classify
  classify-valid p (bytes []) r h = ground (arith, h)
  classify-valid p (bytes (b ∷ x)) r h = elim (Bool-cases (valid sha256 p (b ∷ x))) [
    | inl ok ↦
        let e : b ∷ x ≡ r = ground (arith, rw ok at h) in
        (ap bytes e, rw (sym e) (λ c. cc), rw (sym e) ok)
    | inr bad ↦ ground (arith, rw bad at h)
  ]
  classify-valid p slot_empty r h = ground (arith, h)
  classify-valid p failed r h = ground (arith, h)

  -- A valid copy is what the slot holds.
  read_copy-valid :
      (p : RecPair) (slot : ℕ) (s : m.State) (r : List ℕ)
      → (read_copy sha256 m p slot s).0 ≡ copy_valid r
      → (m.holds s slot ≡ r) × (r ≢ []) × (valid sha256 p r ≡ true)
  unfolding read_copy
  read_copy-valid p slot s r h =
      let (is, ne, ok) = classify-valid p (m.read slot slot_max s).0 r h in
      (m.read_bytes slot slot_max s r is ne, ne, ok)

  pub read_copy_frame :
      (p : RecPair) (slot : ℕ) (s : m.State) (j : ℕ)
      → m.holds (read_copy sha256 m p slot s).1 j ≡ m.holds s j
  unfolding read_copy
  read_copy_frame p slot s j = m.read_keeps slot slot_max s j

  -- What a read leaves: a record in both slots, the one returned, or an error.
  abbrev pub Found : RecPair → Outcome m → List ℕ → Type 0
  Found p out r =
      (out.pair ≡ p)
      × Hold m p r out.chip
      × (valid sha256 p r ≡ true)
      × (out.payload ≡ payload_of r)
      × (out.gen ≡ gen_of r)

  repair-Found :
      (p : RecPair) (max : Option ℕ) (slot other : ℕ) (r : List ℕ) (s : m.State)
      → slot ≢ other
      → r ≢ []
      → m.holds s other ≡ r
      → (repair sha256 m p max slot r s).status ≡ rec_ok
      → ((repair sha256 m p max slot r s).pair ≡ p)
        × (m.holds (repair sha256 m p max slot r s).chip slot ≡ r)
        × (m.holds (repair sha256 m p max slot r s).chip other ≡ r)
        × ((repair sha256 m p max slot r s).payload ≡ payload_of r)
        × ((repair sha256 m p max slot r s).gen ≡ gen_of r)
  unfolding repair won
  repair-Found p max slot other r s apart ne held h = ground (
    arith,
    commit_copy-holds sha256 m slot r s ne,
    commit_copy_other sha256 m slot r s other (λ e. apart (sym e)),
  )

  -- A valid copy is in its slot.
  abbrev pub InSlot : RecPair → Copy → ℕ → m.State → Type 0
  InSlot p c slot s =
      (r : List ℕ) → c ≡ copy_valid r → (m.holds s slot ≡ r) × (r ≢ []) × (valid sha256 p r ≡ true)

  settle-Found :
      (p : RecPair) (max : Option ℕ) (c : Choice) (a b : Copy) (s : m.State)
      → p.slot_a ≢ p.slot_b
      → Origin c a b
      → InSlot p a p.slot_a s
      → InSlot p b p.slot_b s
      → (settle_read sha256 m p max c s).status ≡ rec_ok
      → (r : List ℕ) × Found p (settle_read sha256 m p max c s) r
  unfolding settle_read won
  settle-Found p max (keep r) a b s ne (oa, ob) ina inb h =
      let (ha, na, va) = ina r oa in let (hb, nb, vb) = inb r ob in (r, ground (arith, ha, hb, va))
  settle-Found p max (repair_a r) a b s ne ob ina inb h =
      let (hb, nb, vb) = inb r ob in
      let f = repair-Found p max p.slot_a p.slot_b r s ne nb hb h in
      (r, (f.0, (f.1, f.2), vb, f.3, f.4))
  settle-Found p max (repair_b r) a b s ne oa ina inb h =
      let (ha, na, va) = ina r oa in
      let f = repair-Found p max p.slot_b p.slot_a r s (λ e. ne (sym e)) na ha h in
      (r, (f.0, (f.2, f.1), va, f.3, f.4))
  settle-Found p max (refuse st) a b s ne o ina inb h = absurd (o h)

  read_settles :
      (p : RecPair) (max : Option ℕ) (s : m.State)
      → (rec_pair_read sha256 m p max s).status ≡ rec_ok
      → let (a, s1) = read_copy sha256 m p p.slot_a s in
        let (b, s2) = read_copy sha256 m p p.slot_b s1 in
        (rec_pair_read sha256 m p max s ≡ settle_read sha256 m p max (choose a b) s2)
        × (p.uncertain ≡ false)
  unfolding rec_pair_read
  read_settles p max s h = ground arith

  pub copy_a-InSlot :
      (p : RecPair) (s : m.State)
      → let (a, s1) = read_copy sha256 m p p.slot_a s in
        InSlot p a p.slot_a (read_copy sha256 m p p.slot_b s1).1
  copy_a-InSlot p s r e =
      let (h, ne, v) = read_copy-valid p p.slot_a s r e in
      let s1 = (read_copy sha256 m p p.slot_a s).1 in
      (read_copy_frame p p.slot_b s1 p.slot_a ∙ read_copy_frame p p.slot_a s p.slot_a ∙ h, ne, v)

  pub copy_b-InSlot :
      (p : RecPair) (s : m.State)
      → let (b, s2) = read_copy sha256 m p p.slot_b s in InSlot p b p.slot_b s2
  copy_b-InSlot p s r e =
      let (h, ne, v) = read_copy-valid p p.slot_b s r e in
      (read_copy_frame p p.slot_b s p.slot_b ∙ h, ne, v)

  -- A read that succeeds leaves in both slots the valid record that it returns.
  pub rec_pair_read-Found :
      (p : RecPair) (max : Option ℕ) (s : m.State)
      → p.slot_a ≢ p.slot_b
      → (rec_pair_read sha256 m p max s).status ≡ rec_ok
      → (r : List ℕ) × Found p (rec_pair_read sha256 m p max s) r
  rec_pair_read-Found p max s ne h =
      let (a, s1) = read_copy sha256 m p p.slot_a s in
      let (b, s2) = read_copy sha256 m p p.slot_b s1 in
      let (e, certain) = read_settles p max s h in
      rw e (
        settle-Found p max (choose a b) a b s2 ne (choose-Origin a b) (copy_a-InSlot p s)
          (copy_b-InSlot p s1) (rw e at h))

  -- Nothing is lost: over a record in both slots a call leaves it there, or the pair is uncertain.
  abbrev pub Kept : RecPair → RecPair → List ℕ → m.State → Type 0
  Kept p p' r s = ((p' ≡ p) × Hold m p r s) ⊎ (p' ≡ uncertain_now p)

  repair-Kept :
      (p : RecPair) (max : Option ℕ) (slot other : ℕ) (r : List ℕ) (s : m.State)
      → slot ≢ other
      → r ≢ []
      → m.holds s other ≡ r
      → m.holds s slot ≡ r
      → let out = repair sha256 m p max slot r s in
        ((out.pair ≡ p) × (m.holds out.chip slot ≡ r) × (m.holds out.chip other ≡ r))
        ⊎ (out.pair ≡ uncertain_now p)
  unfolding repair won
  repair-Kept p max slot other r s apart ne held here = ground (
    arith,
    commit_copy-holds sha256 m slot r s ne,
    commit_copy_other sha256 m slot r s other (λ e. apart (sym e)),
  )

  pub settle-Kept :
      (p : RecPair) (max : Option ℕ) (c : Choice) (a b : Copy) (r : List ℕ) (s : m.State)
      → p.slot_a ≢ p.slot_b
      → Origin c a b
      → InSlot p a p.slot_a s
      → InSlot p b p.slot_b s
      → r ≢ []
      → Hold m p r s
      → let out = settle_read sha256 m p max c s in Kept p out.pair r out.chip
  unfolding settle_read won
  settle-Kept p max (keep x) a b r s ne o ina inb nr (ha, hb) = inl (ground (arith, ha, hb))
  settle-Kept p max (repair_a x) a b r s ne ob ina inb nr (ha, hb) =
      let same : x ≡ r = sym ((inb x ob).0) ∙ hb in
      rw same (elim (repair-Kept p max p.slot_a p.slot_b r s ne nr hb ha) [
        | inl (e, f, g) ↦ inl (e, (f, g))
        | inr u ↦ inr u
      ])
  settle-Kept p max (repair_b x) a b r s ne oa ina inb nr (ha, hb) =
      let same : x ≡ r = sym ((ina x oa).0) ∙ ha in
      rw same (elim (repair-Kept p max p.slot_b p.slot_a r s (λ e. ne (sym e)) nr ha hb) [
        | inl (e, f, g) ↦ inl (e, (g, f))
        | inr u ↦ inr u
      ])
  settle-Kept p max (refuse st) a b r s ne o ina inb nr (ha, hb) = inl (ground (arith, ha, hb))
