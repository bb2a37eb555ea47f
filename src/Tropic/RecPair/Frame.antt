-- ===== src/Tropic/RecPair/Frame.antt =====
-- rec_pair.c leaves the slots of other records alone, and the pair as it is or uncertain; what an
-- acknowledged initialisation means.
use nixtropic.Base.{
  ℕ, ◌+◌, ◌-◌, List, ◌≡◌, ◌≢◌, ◌⊎◌, inl, inr, refl, ap, ◌∙◌, arith, Option, none, u32_mod, ◌==◌,
  if_each,
}
use nixtropic.Tropic.Rmem.{Rmem}
use nixtropic.Tropic.RecPair.{
  RecPair, RecStatus, rec_ok, rec_absent, rec_corrupt, rec_error, slot_max, Choice, keep, repair_a,
  repair_b, refuse, is_err, read_copy, settle_read, repair, won, rec_pair_read, rec_pair_write,
  rec_pair_clear, rec_pair_init, write_next, init_next, commit_both, commit_copy, erase_checked,
  bad_args, encode, choose, uncertain_now, Outcome,
}
use nixtropic.Tropic.RecPair.Commit.{commit_both-holds, commit_both_uncertain, commit_copy_other}
use nixtropic.Tropic.RecPair.Read.{Hold}
use nixtropic.Tropic.RecPair.Contract.{read_copy_frame}

module _ (sha256 : List ℕ → List ℕ) (m : Rmem) where
  -- The same pair, or the pair made uncertain.
  abbrev pub SamePair : RecPair → RecPair → Type 0
  SamePair p p' = (p' ≡ p) ⊎ (p' ≡ uncertain_now p)

  -- The pair is the same or uncertain, and slot `j` is as it was.
  abbrev pub Frame : RecPair → ℕ → m.State → RecPair → m.State → Type 0
  Frame p j s p' s' = SamePair p p' × (m.holds s' j ≡ m.holds s j)

  erase_checked_frame :
      (slot : ℕ) (s : m.State) (j : ℕ)
      → j ≢ slot
      → m.holds (erase_checked m slot s).1 j ≡ m.holds s j
  unfolding erase_checked
  erase_checked_frame slot s j ne =
      let s1 = (m.erase slot s).1 in
      ground (arith, m.erase_other slot s j ne, m.read_keeps slot slot_max s1 j)

  repair-Frame :
      (p : RecPair) (max : Option ℕ) (slot : ℕ) (r : List ℕ) (s : m.State) (j : ℕ)
      → j ≢ slot
      → let out = repair sha256 m p max slot r s in Frame p j s out.pair out.chip
  unfolding repair won
  repair-Frame p max slot r s j ne = ground (arith, commit_copy_other sha256 m slot r s j ne)

  settle-Frame :
      (p : RecPair) (max : Option ℕ) (c : Choice) (s : m.State) (j : ℕ)
      → j ≢ p.slot_a
      → j ≢ p.slot_b
      → let out = settle_read sha256 m p max c s in Frame p j s out.pair out.chip
  unfolding settle_read won
  settle-Frame p max (keep r) s j na nb = ground arith
  settle-Frame p max (repair_a r) s j na nb = repair-Frame p max p.slot_a r s j na
  settle-Frame p max (repair_b r) s j na nb = repair-Frame p max p.slot_b r s j nb
  settle-Frame p max (refuse st) s j na nb = (inl refl, refl)

  pub rec_pair_read-Frame :
      (p : RecPair) (max : Option ℕ) (s : m.State) (j : ℕ)
      → j ≢ p.slot_a
      → j ≢ p.slot_b
      → let out = rec_pair_read sha256 m p max s in Frame p j s out.pair out.chip
  unfolding rec_pair_read
  rec_pair_read-Frame p max s j na nb =
      let (a, s1) = read_copy sha256 m p p.slot_a s in
      let (b, s2) = read_copy sha256 m p p.slot_b s1 in
      let e1 = read_copy_frame sha256 m p p.slot_a s j in
      let e2 = read_copy_frame sha256 m p p.slot_b s1 j ∙ e1 in
      let P = λ (out : Outcome m). Frame p j s out.pair out.chip in
      if_each P p.uncertain _ _ (λ u. (inl refl, refl))
        (λ u.
          if_each P (is_err a) _ _ (λ e. (inl refl, e1))
            (λ e.
              if_each P (is_err b) _ _ (λ f. (inl refl, e2))
                (λ f.
                  let (same, h) = settle-Frame p max (choose a b) s2 j na nb in (same, h ∙ e2))))

  abbrev After : RecPair → ℕ → m.State → RecStatus × RecPair × m.State → Type 0
  After p j s (st, p', s') = Frame p j s p' s'

  commit_both-Frame :
      (p : RecPair) (gen : ℕ) (payload : List ℕ) (s : m.State) (j : ℕ)
      → j ≢ p.slot_a
      → j ≢ p.slot_b
      → After p j s (commit_both sha256 m p gen payload s)
  unfolding commit_both
  commit_both-Frame p gen payload s j na nb =
      let r = encode sha256 p gen payload in
      let s1 = (commit_copy m p.slot_a r s).1 in
      ground (
        arith,
        commit_copy_other sha256 m p.slot_a r s j na,
        commit_copy_other sha256 m p.slot_b r s1 j nb,
      )

  -- What a further call on an uncertain or the same pair does to it is no more.
  same_slots :
      (p p' : RecPair) (j : ℕ)
      → SamePair p p'
      → j ≢ p.slot_a
      → j ≢ p.slot_b
      → (j ≢ p'.slot_a) × (j ≢ p'.slot_b)
  same_slots p p' j (inl e) na nb = rw e (na, nb)
  same_slots p p' j (inr e) na nb = rw e (na, nb)

  pub SamePair_trans : (p p' p'' : RecPair) → SamePair p p' → SamePair p' p'' → SamePair p p''
  SamePair_trans p p' p'' (inl e) (inl f) = inl (f ∙ e)
  SamePair_trans p p' p'' (inl e) (inr f) = inr (f ∙ ap uncertain_now e)
  SamePair_trans p p' p'' (inr e) (inl f) = inr (f ∙ e)
  SamePair_trans p p' p'' (inr e) (inr f) = inr (f ∙ ap uncertain_now e)

  write_next-Frame :
      (st : RecStatus) (gen : ℕ) (p : RecPair) (payload : List ℕ) (s : m.State) (j : ℕ)
      → j ≢ p.slot_a
      → j ≢ p.slot_b
      → After p j s (write_next sha256 m st gen p payload s)
  unfolding write_next
  write_next-Frame rec_ok gen p payload s j na nb =
      if_each (After p j s) (gen == u32_mod - 1) _ _ (λ e. (inl refl, refl))
        (λ e. commit_both-Frame p (gen + 1) payload s j na nb)
  write_next-Frame rec_absent gen p payload s j na nb = (inl refl, refl)
  write_next-Frame rec_corrupt gen p payload s j na nb = (inl refl, refl)
  write_next-Frame rec_error gen p payload s j na nb = (inl refl, refl)

  -- A write leaves every slot that is not one of the pair's as it was, and the pair as it was or
  -- uncertain.
  pub rec_pair_write-Frame :
      (p : RecPair) (payload : List ℕ) (s : m.State) (j : ℕ)
      → j ≢ p.slot_a
      → j ≢ p.slot_b
      → let (st, p', s') = rec_pair_write sha256 m p payload s in Frame p j s p' s'
  unfolding rec_pair_write
  rec_pair_write-Frame p payload s j na nb =
      let r = rec_pair_read sha256 m p none s in
      let (same, e) = rec_pair_read-Frame p none s j na nb in
      let (na', nb') = same_slots p r.pair j same na nb in
      if_each (After p j s) (bad_args payload) _ _ (λ bad. (inl refl, refl))
        (λ good.
          let (same', e') = write_next-Frame r.status r.gen r.pair payload r.chip j na' nb' in
          (SamePair_trans p r.pair _ same same', e' ∙ e))

  pub rec_pair_clear-Frame :
      (p : RecPair) (s : m.State) (j : ℕ)
      → j ≢ p.slot_a
      → j ≢ p.slot_b
      → let (st, p', s') = rec_pair_clear sha256 m p s in Frame p j s p' s'
  unfolding rec_pair_clear
  rec_pair_clear-Frame p s j na nb =
      let s1 = (erase_checked m p.slot_b s).1 in
      ground (arith, erase_checked_frame p.slot_b s j nb, erase_checked_frame p.slot_a s1 j na)

  init_next-Frame :
      (st : RecStatus) (p : RecPair) (payload : List ℕ) (s : m.State) (j : ℕ)
      → j ≢ p.slot_a
      → j ≢ p.slot_b
      → After p j s (init_next sha256 m st p payload s)
  unfolding init_next
  init_next-Frame rec_ok p payload s j na nb = commit_both-Frame p 1 payload s j na nb
  init_next-Frame rec_absent p payload s j na nb = (inl refl, refl)
  init_next-Frame rec_corrupt p payload s j na nb = (inl refl, refl)
  init_next-Frame rec_error p payload s j na nb = (inl refl, refl)

  pub rec_pair_init-Frame :
      (p : RecPair) (payload : List ℕ) (s : m.State) (j : ℕ)
      → j ≢ p.slot_a
      → j ≢ p.slot_b
      → let (st, p', s') = rec_pair_init sha256 m p payload s in Frame p j s p' s'
  unfolding rec_pair_init
  rec_pair_init-Frame p payload s j na nb =
      let (st, p1, s1) = rec_pair_clear sha256 m p s in
      let (same, e) = rec_pair_clear-Frame p s j na nb in
      let (na', nb') = same_slots p p1 j same na nb in
      if_each (After p j s) (bad_args payload) _ _ (λ bad. (inl refl, refl))
        (λ good.
          let (same', e') = init_next-Frame st p1 payload s1 j na' nb' in
          (SamePair_trans p p1 _ same same', e' ∙ e))

  -- An acknowledged initialisation: the pair is as it was, and both slots hold generation 1.
  abbrev pub Started : RecPair → List ℕ → RecStatus × RecPair × m.State → Type 0
  Started p payload (st, p', s') = st ≡ rec_ok → (p' ≡ p) × Hold m p (encode sha256 p 1 payload) s'

  clear_same :
      (p : RecPair) (s : m.State)
      → (rec_pair_clear sha256 m p s).0 ≡ rec_ok
      → (rec_pair_clear sha256 m p s).1 ≡ p
  unfolding rec_pair_clear
  clear_same p s ok = ground arith

  init_next-Started :
      (st : RecStatus) (p p' : RecPair) (payload : List ℕ) (s : m.State)
      → p.slot_a ≢ p.slot_b
      → (st ≡ rec_ok → p' ≡ p)
      → Started p payload (init_next sha256 m st p' payload s)
  unfolding init_next
  init_next-Started rec_ok p p' payload s ne same ok =
      rw (same refl) (elim (commit_both_uncertain sha256 m p 1 payload s) [
        | inl (o, e) ↦ (e, commit_both-holds sha256 m p 1 payload s ne (rw (same refl) at ok))
        | inr (bad, u) ↦ ground (arith, rw (same refl) at ok, bad)
      ])
  init_next-Started rec_absent p p' payload s ne same c = ground (arith, c)
  init_next-Started rec_corrupt p p' payload s ne same c = ground (arith, c)
  init_next-Started rec_error p p' payload s ne same c = ground (arith, c)

  pub rec_pair_init-Started :
      (p : RecPair) (payload : List ℕ) (s : m.State)
      → p.slot_a ≢ p.slot_b
      → Started p payload (rec_pair_init sha256 m p payload s)
  unfolding rec_pair_init
  rec_pair_init-Started p payload s ne =
      let (st, p1, s1) = rec_pair_clear sha256 m p s in
      if_each (Started p payload) (bad_args payload) _ _ (λ bad c. ground (arith, c))
        (λ good. init_next-Started st p p1 payload s1 ne (clear_same p s))
