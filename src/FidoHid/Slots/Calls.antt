-- ===== src/FidoHid/Slots/Calls.antt =====
-- The calls of slots.c as steps on its state: each keeps the invariant of Slots/Invariant.
use nixtropic.Base.{
  ℕ, ◌≤◌, ◌<◌, List, Bool, true, false, not, ◌≡◌, ◌≢◌, ◌⊎◌, inl, inr, ◌∙◌, arith, if_each, length,
  take, Option, some, none, Option-cases, ltb, leb, get_or,
}
use nixtropic.Tropic.Rmem.{Rmem}
use nixtropic.FidoHid.Slots.Bitmap.{
  put_bit-clear-NoBitsFrom, put_bit-set-NoBitsFrom, and_not-NoBitsFrom, length-put_bit,
  length-and_not, first_free, first_free_lem, same_bits, put_bit,
}
use nixtropic.FidoHid.Slots.Meta.{
  NewCred, read_cred, write_cred, rmem_slot_for, cred_id_nonce_len, user_handle_max,
}
use nixtropic.FidoHid.Slots.Record.{IsWf}
use nixtropic.FidoHid.Slots.Frame.{read_cred_frame, write_cred_frame, wipe_from_frame}
use nixtropic.FidoHid.Slots.Invariant.{IsSound, chip_moves-IsSound, write_global-IsSound}
use nixtropic.FidoHid.Slots.{
  Slots, Services, slots_usable, write_global, fido_slots_max, drop_bit, slots_erase, slots_alloc,
  publish, alloc_with, alloc_at, with_slot, Alloc, slots_lookup_by_credid, slots_read_meta,
  slots_wipe_meta,
}

module _ (sha256 : List ℕ → List ℕ) (sha256_length : (x : List ℕ) → length (sha256 x) ≡ 32)
    (m : Rmem) (c : Services m) where
  -- A chip call that touches at most one metadata slot.
  pub metadata_slot :
      (idx j : ℕ) → idx < fido_slots_max → (j ≡ 0) ⊎ (j ≡ 40) → j ≢ rmem_slot_for idx
  metadata_slot idx j lt (inl e) = omega arith
  metadata_slot idx j lt (inr e) = omega arith

  drop_bit-IsSound :
      (idx : ℕ) (g : Slots m) → IsSound sha256 m g → IsSound sha256 m (drop_bit sha256 m idx g).1
  unfolding drop_bit
  drop_bit-IsSound idx g h =
      let bm = put_bit g.bitmap idx false in
      let wf = h.wf in
      if_each (λ (x : Bool × Slots m). IsSound sha256 m x.1) (same_bits bm g.bitmap) _ _ (λ e. h)
        (λ e.
          write_global-IsSound sha256 m sha256_length bm g.force_uv g.pin_bound g
            (
              length-put_bit g.bitmap idx false ∙ wf.0,
              put_bit-clear-NoBitsFrom fido_slots_max g.bitmap idx wf.1,
              wf.2,
              wf.3,
            )
            h)

  erase_slot-IsSound :
      (idx : ℕ) (g : Slots m)
      → idx < fido_slots_max
      → IsSound sha256 m g
      → IsSound sha256 m (record g { chip = (m.erase (rmem_slot_for idx) g.chip).1 })
  erase_slot-IsSound idx g lt h =
      chip_moves-IsSound sha256 m g _
        (λ j at0. m.erase_other (rmem_slot_for idx) g.chip j (metadata_slot idx j lt at0)) h

  pub slots_erase-IsSound :
      (idx : ℕ) (g : Slots m) → IsSound sha256 m g → IsSound sha256 m (slots_erase sha256 m idx g).1
  unfolding slots_erase
  slots_erase-IsSound idx g h =
      let (published, g1) = drop_bit sha256 m idx g in
      let h1 = drop_bit-IsSound idx g h in
      let (erased, s) = m.erase (rmem_slot_for idx) g1.chip in
      let P = λ (x : ℕ × Slots m). IsSound sha256 m x.1 in
      if_each P (leb fido_slots_max idx) _ _ (λ e. h)
        (λ e.
          let h2 = erase_slot-IsSound idx g1 (ground (arith, e)) h1 in
          if_each P (not (slots_usable m g)) _ _ (λ e'. h)
            (λ e'.
              if_each P (not published) _ _ (λ e2. h1)
                (λ e2. if_each P (not erased) _ _ (λ e3. h2) (λ e3. h2))))

  read_slot-IsSound :
      (idx : ℕ) (g : Slots m)
      → IsSound sha256 m g
      → IsSound sha256 m (record g { chip = (read_cred m idx g.chip).1 })
  read_slot-IsSound idx g h =
      chip_moves-IsSound sha256 m g _ (λ j at0. read_cred_frame m idx g.chip j) h

  slots_lookup_chip :
      (id : List ℕ) (g : Slots m)
      → ((slots_lookup_by_credid m id g).1 ≡ g)
        ⊎ ((slots_lookup_by_credid m id g).1
            ≡ record g { chip = (read_cred m (get_or id 1 0) g.chip).1 })
  unfolding slots_lookup_by_credid
  slots_lookup_chip id g = ground arith

  slots_read_meta_chip :
      (idx : ℕ) (g : Slots m)
      → ((slots_read_meta m idx g).1 ≡ g)
        ⊎ ((slots_read_meta m idx g).1 ≡ record g { chip = (read_cred m idx g.chip).1 })
  unfolding slots_read_meta
  slots_read_meta_chip idx g = ground arith

  pub slots_lookup-IsSound :
      (id : List ℕ) (g : Slots m)
      → IsSound sha256 m g
      → IsSound sha256 m (slots_lookup_by_credid m id g).1
  slots_lookup-IsSound id g h = elim (slots_lookup_chip id g) [
    | inl e ↦ rw e h
    | inr e ↦ rw e (read_slot-IsSound (get_or id 1 0) g h)
  ]

  pub slots_read_meta-IsSound :
      (idx : ℕ) (g : Slots m) → IsSound sha256 m g → IsSound sha256 m (slots_read_meta m idx g).1
  slots_read_meta-IsSound idx g h = elim (slots_read_meta_chip idx g) [
    | inl e ↦ rw e h
    | inr e ↦ rw e (read_slot-IsSound idx g h)
  ]

  pub slots_wipe_meta-IsSound :
      (g : Slots m) → IsSound sha256 m g → IsSound sha256 m (slots_wipe_meta m g).1
  unfolding slots_wipe_meta
  slots_wipe_meta-IsSound g h =
      chip_moves-IsSound sha256 m g _
        (λ j at0. wipe_from_frame m fido_slots_max 0 g.chip j (ground (arith, at0))) h

  pub flags-IsSound :
      (uv bound : ℕ) (g : Slots m)
      → uv ≤ 1
      → bound ≤ 1
      → IsSound sha256 m g
      → IsSound sha256 m (write_global sha256 m g.bitmap uv bound g).1
  flags-IsSound uv bound g a b h =
      let wf = h.wf in
      write_global-IsSound sha256 m sha256_length g.bitmap uv bound g (wf.0, wf.1, a, b) h

  with_slot-IsWf :
      (idx : ℕ) (mask bm : List Bool) (uv bound : ℕ)
      → idx < fido_slots_max
      → IsWf bm uv bound
      → IsWf (with_slot sha256 m c idx mask bm) uv bound
  unfolding with_slot
  with_slot-IsWf idx mask bm uv bound lt (len, high, a, b) =
      let set = put_bit bm idx true in
      let k = take fido_slots_max mask in
      (
        length-and_not set k ∙ length-put_bit bm idx true ∙ len,
        and_not-NoBitsFrom fido_slots_max set k
            (put_bit-set-NoBitsFrom fido_slots_max bm idx lt high),
        a,
        b,
      )

  publish-IsSound :
      (idx : ℕ) (n : NewCred) (mask : List Bool) (nonce : List ℕ) (g : Slots m)
      → idx < fido_slots_max
      → IsSound sha256 m g
      → IsSound sha256 m (publish sha256 m c idx n mask nonce g).1
  unfolding publish
  publish-IsSound idx n mask nonce g lt h =
      let (written, s) = write_cred m idx n nonce g.chip in
      let g1 = record g { chip = s } in
      let h1 =
        chip_moves-IsSound sha256 m g s
          (λ j at0. write_cred_frame m idx n nonce g.chip j (metadata_slot idx j lt at0)) h in
      let bm = with_slot sha256 m c idx mask g.bitmap in
      let (ok, g2) = write_global sha256 m bm g.force_uv g.pin_bound g1 in
      let h2 =
        write_global-IsSound sha256 m sha256_length bm g.force_uv g.pin_bound g1
          (with_slot-IsWf idx mask g.bitmap g.force_uv g.pin_bound lt h.wf) h1 in
      let P = λ (x : Alloc × Slots m). IsSound sha256 m x.1 in
      if_each P (not written) _ _ (λ e. h1) (λ e. if_each P (not ok) _ _ (λ e'. h2) (λ e'. h2))

  alloc_with-IsSound :
      (idx : ℕ) (n : NewCred) (mask : List Bool) (r : Option (List ℕ) × m.State) (g : Slots m)
      → idx < fido_slots_max
      → ((j : ℕ) → m.holds r.1 j ≡ m.holds g.chip j)
      → IsSound sha256 m g
      → IsSound sha256 m (alloc_with sha256 m c idx n mask r g).1
  unfolding alloc_with
  alloc_with-IsSound idx n mask (none, s) g lt same h =
      chip_moves-IsSound sha256 m g s (λ j at0. same j) h
  alloc_with-IsSound idx n mask (some nonce, s) g lt same h =
      publish-IsSound idx n mask nonce (record g { chip = s }) lt
        (chip_moves-IsSound sha256 m g s (λ j at0. same j) h)

  pub slots_alloc-IsSound :
      (n : NewCred) (mask : List Bool) (g : Slots m)
      → IsSound sha256 m g
      → IsSound sha256 m (slots_alloc sha256 m c n mask g).1
  unfolding slots_alloc alloc_at
  slots_alloc-IsSound n mask g h =
      let P = λ (x : Alloc × Slots m). IsSound sha256 m x.1 in
      if_each P (not (slots_usable m g)) _ _ (λ e. h)
        (λ e.
          if_each P (ltb user_handle_max (length n.user_handle)) _ _ (λ e'. h)
            (λ e'. elim (Option-cases (first_free fido_slots_max 0 g.bitmap)) [
              | inl none' ↦ rw none' h
              | inr (idx, at') ↦ rw at' (
                  alloc_with-IsSound idx n mask (c.random cred_id_nonce_len g.chip) g
                    (first_free_lem fido_slots_max 0 g.bitmap idx at').0
                    (λ j. c.random_keeps cred_id_nonce_len g.chip j) h)
            ]))
