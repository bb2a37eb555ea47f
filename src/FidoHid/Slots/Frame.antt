-- ===== src/FidoHid/Slots/Frame.antt =====
-- Which R-memory slots the operations of slots.c touch.
use nixtropic.Base.{
  ◌⊎◌, ℕ, zero, suc, ◌+◌, ◌≤◌, ◌<◌, List, Bool, not, ◌≡◌, ◌≢◌, refl, ◌∙◌, arith, if_each,
}
use nixtropic.Tropic.Rmem.{Rmem}
use nixtropic.FidoHid.Slots.Bitmap.{bit}
use nixtropic.FidoHid.Slots.Meta.{
  NewCred, read_cred, write_cred, rmem_slot_for, rmem_per_cred_size, cred_bytes,
}
use nixtropic.FidoHid.Slots.{scrub_bit, orphan_scrub, wipe_from, probe_empty}

module _ (m : Rmem) where
  pub read_cred_frame :
      (idx : ℕ) (s : m.State) (j : ℕ) → m.holds (read_cred m idx s).1 j ≡ m.holds s j
  unfolding read_cred
  read_cred_frame idx s j = m.read_keeps (rmem_slot_for idx) rmem_per_cred_size s j

  pub write_cred_frame :
      (idx : ℕ) (n : NewCred) (nonce : List ℕ) (s : m.State) (j : ℕ)
      → j ≢ rmem_slot_for idx
      → m.holds (write_cred m idx n nonce s).1 j ≡ m.holds s j
  unfolding write_cred
  write_cred_frame idx n nonce s j ne =
      let s1 = (m.erase (rmem_slot_for idx) s).1 in
      ground (
        arith,
        m.erase_other (rmem_slot_for idx) s j ne,
        m.write_other (rmem_slot_for idx) (cred_bytes n nonce) s1 j ne,
      )

  scrub_bit_frame :
      (i : ℕ) (bm : List Bool) (s : m.State) (j : ℕ)
      → m.holds (scrub_bit m i bm s).1 j ≡ m.holds s j
  unfolding scrub_bit
  scrub_bit_frame i bm s j =
      if_each (λ (x : List Bool × m.State). m.holds x.1 j ≡ m.holds s j) (bit bm i) _ _
        (λ e. read_cred_frame i s j) (λ e. refl)

  pub orphan_scrub_frame :
      (n i : ℕ) (bm : List Bool) (s : m.State) (j : ℕ)
      → m.holds (orphan_scrub m n i bm s).1 j ≡ m.holds s j
  unfolding orphan_scrub
  orphan_scrub_frame zero i bm s j = refl
  orphan_scrub_frame (suc n) i bm s j =
      let (bm', s') = scrub_bit m i bm s in
      orphan_scrub_frame n (suc i) bm' s' j ∙ scrub_bit_frame i bm s j

  -- The wipe touches the metadata slots from i + 1 to i + n.
  pub wipe_from_frame :
      (n i : ℕ) (s : m.State) (j : ℕ)
      → (j ≤ i) ⊎ (i + n < j)
      → m.holds (wipe_from m n i s).1 j ≡ m.holds s j
  unfolding wipe_from
  wipe_from_frame zero i s j out = refl
  wipe_from_frame (suc n) i s j out =
      let s1 = (m.erase (rmem_slot_for i) s).1 in
      let s2 = (m.read (rmem_slot_for i) 8 s1).1 in
      let ne : j ≢ rmem_slot_for i = omega arith in
      let e1 = m.erase_other (rmem_slot_for i) s j ne in
      let e2 = m.read_keeps (rmem_slot_for i) 8 s1 j ∙ e1 in
      let P = λ (x : Bool × m.State). m.holds x.1 j ≡ m.holds s j in
      if_each P (not (m.erase (rmem_slot_for i) s).0) _ _ (λ h. e1)
        (λ h.
          if_each P (not (probe_empty m (m.read (rmem_slot_for i) 8 s1).0)) _ _ (λ h'. e2)
            (λ h'. wipe_from_frame n (suc i) s2 j (ground (arith, out)) ∙ e2))
