-- ===== src/FidoHid/Slots/Invariant.antt =====
-- The invariant of slots.c: while the slots are usable, both copies of O1 on the chip say what the
-- RAM says.
use nixtropic.Base.{
  ℕ, ◌+◌, List, Bool, true, not, ◌≡◌, ◌≢◌, ◌⊎◌, inl, inr, refl, ap, ◌∙◌, arith, if_each, length,
}
use nixtropic.Tropic.Rmem.{Rmem}
use nixtropic.Tropic.RecPair.{
  RecPair, RecStatus, rec_ok, rec_absent, rec_corrupt, rec_error, rec_pair_write, gen_of, encode,
  uncertain_now,
}
use nixtropic.Tropic.RecPair.Contract.{Kept}
use nixtropic.Tropic.RecPair.Writes.{Written, rec_pair_write-Written}
use nixtropic.Tropic.RecPair.Frame.{SamePair, rec_pair_write-Frame}
use nixtropic.FidoHid.Slots.Record.{IsWf, IsO1, Stored, encode-IsO1}
use nixtropic.FidoHid.Slots.{Slots, o1_pair, o1_encode, slots_usable, take_global, write_global}

pub pair_distinct : o1_pair.slot_a ≢ o1_pair.slot_b
pair_distinct = omega arith

module _ (sha256 : List ℕ → List ℕ) (m : Rmem) where
  -- The RAM is well formed, and, if the slots are usable, what both copies on the chip say.
  pub record IsSound (g : Slots m) : Type 0 where
    pub pair : SamePair sha256 m o1_pair g.o1
    pub wf : IsWf g.bitmap g.force_uv g.pin_bound
    pub backed :
        slots_usable m g ≡ true
        → (g.o1 ≡ o1_pair) × Stored sha256 m g.bitmap g.force_uv g.pin_bound g.chip

  pub frame-Stored :
      (bm : List Bool) (uv bound : ℕ) (s s' : m.State)
      → ((j : ℕ) → (j ≡ 0) ⊎ (j ≡ 40) → m.holds s' j ≡ m.holds s j)
      → Stored sha256 m bm uv bound s
      → Stored sha256 m bm uv bound s'
  frame-Stored bm uv bound s s' same (r, says, (ha, hb)) =
      (r, says, (same 0 (inl refl) ∙ ha, same 40 (inr refl) ∙ hb))

  -- A call that leaves the two slots of O1 alone.
  pub chip_moves-IsSound :
      (g : Slots m) (s : m.State)
      → ((j : ℕ) → (j ≡ 0) ⊎ (j ≡ 40) → m.holds s j ≡ m.holds g.chip j)
      → IsSound g
      → IsSound (record g { chip = s })
  unfolding slots_usable
  chip_moves-IsSound g s same h = record {
    pair = h.pair;
    wf = h.wf;
    backed = λ u. ((h.backed u).0, frame-Stored _ _ _ g.chip s same (h.backed u).1);
  }

  -- A failed write: the record is still there, or the slots are unusable.
  refused-IsSound :
      (g : Slots m) (p : RecPair) (r : List ℕ) (s : m.State)
      → g.o1 ≡ o1_pair
      → IsWf g.bitmap g.force_uv g.pin_bound
      → IsO1 sha256 m r g.bitmap g.force_uv g.pin_bound
      → Kept sha256 m g.o1 p r s
      → IsSound (record g { o1 = p; chip = s })
  unfolding slots_usable
  refused-IsSound g p r s e wf says (inl (same, hold)) = record {
    pair = inl (same ∙ e);
    wf = wf;
    backed = λ u. (same ∙ e, (r, says, rw e at hold));
  }
  refused-IsSound g p r s e wf says (inr un) = record {
    pair = inr (un ∙ ap uncertain_now e);
    wf = wf;
    backed = λ u. ground (arith, u, ap (λ (q : RecPair). q.uncertain) un);
  }

  module _ (sha256_length : (x : List ℕ) → length (sha256 x) ≡ 32) where
    take_global-IsSound :
        (st : RecStatus) (p : RecPair) (s : m.State) (bm : List Bool) (uv bound : ℕ) (g : Slots m)
        (r : List ℕ)
        → g.o1 ≡ o1_pair
        → IsWf g.bitmap g.force_uv g.pin_bound
        → IsWf bm uv bound
        → IsO1 sha256 m r g.bitmap g.force_uv g.pin_bound
        → Written sha256 m g.o1 r (o1_encode bm uv bound) (st, p, s)
        → IsSound (take_global sha256 m (st, p, s) bm uv bound g).1
    unfolding take_global
    take_global-IsSound rec_ok p s bm uv bound g r e wf wf' says (inl (ok, same, more, hold)) =
        let x = encode sha256 o1_pair (gen_of r + 1) (o1_encode bm uv bound) in
        let says' =
          encode-IsO1 sha256 m sha256_length (gen_of r + 1) bm uv bound (omega arith)
            (omega (arith, says.1, more)) in
        record {
          pair = inl (same ∙ e);
          wf = wf';
          backed = λ u. (same ∙ e, (x, says', rw e at hold));
        }
    take_global-IsSound rec_ok p s bm uv bound g r e wf wf' says (inr (bad, kept)) =
        absurd (bad refl)
    take_global-IsSound rec_absent p s bm uv bound g r e wf wf' says (inl x) = ground (arith, x.0)
    take_global-IsSound rec_absent p s bm uv bound g r e wf wf' says (inr (bad, kept)) =
        refused-IsSound g p r s e wf says kept
    take_global-IsSound rec_corrupt p s bm uv bound g r e wf wf' says (inl x) = ground (arith, x.0)
    take_global-IsSound rec_corrupt p s bm uv bound g r e wf wf' says (inr (bad, kept)) =
        refused-IsSound g p r s e wf says kept
    take_global-IsSound rec_error p s bm uv bound g r e wf wf' says (inl x) = ground (arith, x.0)
    take_global-IsSound rec_error p s bm uv bound g r e wf wf' says (inr (bad, kept)) =
        refused-IsSound g p r s e wf says kept

    pub write_global-IsSound :
        (bm : List Bool) (uv bound : ℕ) (g : Slots m)
        → IsWf bm uv bound
        → IsSound g
        → IsSound (write_global sha256 m bm uv bound g).1
    unfolding write_global
    write_global-IsSound bm uv bound g wf' h =
        if_each (λ (x : Bool × Slots m). IsSound x.1) (not (slots_usable m g)) _ _ (λ c. h)
          (λ c.
            let (e, (r, says, hold)) = h.backed (ground (arith, c)) in
            let (st, p, s) = rec_pair_write sha256 m g.o1 (o1_encode bm uv bound) g.chip in
            take_global-IsSound st p s bm uv bound g r e h.wf wf' says (
              rec_pair_write-Written sha256 m g.o1 r (o1_encode bm uv bound) g.chip
                (rw e pair_distinct) says.0 (rw e refl) (rw e hold)))

    take_true :
        (st : RecStatus) (p : RecPair) (s : m.State) (bm : List Bool) (uv bound : ℕ)
        (g g' : Slots m)
        → take_global sha256 m (st, p, s) bm uv bound g ≡ (true, g')
        → (st ≡ rec_ok)
          × (record g { o1 = p; bitmap = bm; force_uv = uv; pin_bound = bound; chip = s } ≡ g')
    unfolding take_global
    take_true rec_ok p s bm uv bound g g' h = (refl, ap (λ (x : Bool × Slots m). x.1) h)
    take_true rec_absent p s bm uv bound g g' h = ground (arith, ap (λ (x : Bool × Slots m). x.0) h)
    take_true rec_corrupt p s bm uv bound g g' h =
        ground (arith, ap (λ (x : Bool × Slots m). x.0) h)
    take_true rec_error p s bm uv bound g g' h = ground (arith, ap (λ (x : Bool × Slots m). x.0) h)

    same_if_ok :
        (st : RecStatus) (p p' : RecPair) (r payload : List ℕ) (s : m.State)
        → st ≡ rec_ok
        → Written sha256 m p r payload (st, p', s)
        → p' ≡ p
    same_if_ok st p p' r payload s ok (inl w) = w.1
    same_if_ok st p p' r payload s ok (inr w) = absurd (w.0 ok)

    -- A write that is acknowledged: the slots stay usable, RAM has what was written, and every
    -- other slot of the R-memory is as it was.
    pub write_global-true :
        (bm : List Bool) (uv bound : ℕ) (g g' : Slots m)
        → IsSound g
        → write_global sha256 m bm uv bound g ≡ (true, g')
        → (slots_usable m g' ≡ true)
          × (g'.bitmap ≡ bm)
          × ((j : ℕ) → j ≢ 0 → j ≢ 40 → m.holds g'.chip j ≡ m.holds g.chip j)
    unfolding write_global slots_usable
    write_global-true bm uv bound g g' h w =
        let D = λ (x : Bool × Slots m).
          x ≡ (true, g')
          → (slots_usable m g' ≡ true)
            × (g'.bitmap ≡ bm)
            × ((j : ℕ) → j ≢ 0 → j ≢ 40 → m.holds g'.chip j ≡ m.holds g.chip j) in
        if_each D (not (slots_usable m g)) _ _
          (λ off e. ground (arith, ap (λ (x : Bool × Slots m). x.0) e))
          (λ on e.
            let u : slots_usable m g ≡ true = ground (arith, on) in
            let (same, (r, says, hold)) = h.backed u in
            let payload = o1_encode bm uv bound in
            let (st, p, s) = rec_pair_write sha256 m g.o1 payload g.chip in
            let (ok, is) = take_true st p s bm uv bound g g' e in
            let wr =
              rec_pair_write-Written sha256 m g.o1 r payload g.chip (rw same pair_distinct) says.0
                (rw same refl) (rw same hold) in
            let p_same : p ≡ o1_pair = same_if_ok st g.o1 p r payload s ok wr ∙ same in
            rw (← is) (
              ground (arith, u, ap (λ (q : RecPair). q.uncertain) p_same),
              refl,
              λ j n0 n40.
                  (rec_pair_write-Frame sha256 m g.o1 payload g.chip j (rw same n0)
                    (rw same n40)).1,
            ))
          w
