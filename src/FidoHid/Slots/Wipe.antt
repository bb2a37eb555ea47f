-- ===== src/FidoHid/Slots/Wipe.antt =====
-- slots_wipe_meta of slots.c: what a wipe that succeeds leaves in the metadata slots.
use nixtropic.Base.{
  refl, ◌∷◌, ℕ, zero, suc, ◌+◌, ◌≤◌, ◌<◌, [], Bool, true, not, ◌≡◌, inl, inr, arith, if_each, ◌==◌,
  Bool-cases, ==_iff,
}
use nixtropic.Tropic.Rmem.{Rmem, Reading, bytes, slot_empty, failed}
use nixtropic.Tropic.RecPair.{reads_empty}
use nixtropic.Tropic.RecPair.Cleared.{LeftByErase, still_left}
use nixtropic.FidoHid.Slots.Meta.{rmem_slot_for}
use nixtropic.FidoHid.Slots.Frame.{wipe_from_frame}
use nixtropic.FidoHid.Slots.{Slots, wipe_from, probe_empty, slots_wipe_meta, fido_slots_max}

module _ (m : Rmem) where
  probe→reads_empty : (r : Reading) → probe_empty m r ≡ true → reads_empty m r ≡ true
  unfolding reads_empty probe_empty
  probe→reads_empty (bytes []) h = refl
  probe→reads_empty (bytes (b ∷ r)) h = ground (arith, h)
  probe→reads_empty slot_empty h = refl
  probe→reads_empty failed h = ground (arith, h)

  -- The slots from i + 1 to i + n are erased if the wipe of them succeeds.
  abbrev Wiped : ℕ → ℕ → Bool × m.State → Type 0
  Wiped n i x = x.0 ≡ true → (j : ℕ) → i < j → j ≤ i + n → LeftByErase m j x.1

  wipe_from-Wiped : (n i : ℕ) (s : m.State) → Wiped n i (wipe_from m n i s)
  unfolding wipe_from
  wipe_from-Wiped zero i s = λ ok j lo hi. absurd (omega arith)
  wipe_from-Wiped (suc n) i s =
      let slot = rmem_slot_for i in
      let s1 = (m.erase slot s).1 in
      let s2 = (m.read slot 8 s1).1 in
      if_each (Wiped (suc n) i) (not (m.erase slot s).0) _ _ (λ e ok. ground (arith, ok))
        (λ e.
          if_each (Wiped (suc n) i) (not (probe_empty m (m.read slot 8 s1).0)) _ _
            (λ f ok. ground (arith, ok))
            (λ f ok j lo hi.
              let probe : probe_empty m (m.read slot 8 s1).0 ≡ true = ground (arith, f) in
              let left : LeftByErase m slot s2 = record {
                before = s;
                max = 8;
                acknowledged = ground (arith, e);
                read_back = probe→reads_empty (m.read slot 8 s1).0 probe;
                same = m.read_keeps slot 8 s1 slot;
              } in
              elim (Bool-cases (j == slot)) [
                | inl here ↦
                    let at_slot : j ≡ slot = (==_iff j slot).0 here in
                    let kept = wipe_from_frame m n (suc i) s2 slot (inl (omega arith)) in
                    rw at_slot (still_left m slot s2 (wipe_from m n (suc i) s2).1 kept left)
                | inr there ↦
                    wipe_from-Wiped n (suc i) s2 ok j (ground (arith, there, lo)) (omega arith)
              ]))

  -- A wipe of the metadata that succeeds has erased all 29 metadata slots, and read each one back.
  pub slots_wipe_meta-LeftByErase :
      (g : Slots m)
      → (slots_wipe_meta m g).0 ≡ true
      → (j : ℕ) → 0 < j
      → j ≤ fido_slots_max
      → LeftByErase m j (slots_wipe_meta m g).1.chip
  unfolding slots_wipe_meta
  slots_wipe_meta-LeftByErase g = wipe_from-Wiped fido_slots_max 0 g.chip
