-- ===== src/FidoHid/Slots/Allocation.antt =====
-- slots_alloc of slots.c, and slots_lookup_by_credid of what it returns.
use nixtropic.Base.{
  Bool-cases, ==_iff, ==_refl, ◌==◌, ◌&&◌, drop, ℕ, ◌≤◌, ◌<◌, List, [], ◌∷◌, Bool, true, false, not,
  ◌≡◌, ◌≢◌, inl, inr, refl, ap, ◌∙◌, arith, if◌then◌else◌, if_each, length, take, Option, some,
  none, ltb, u32_mod, AreBytes,
}
use nixtropic.Tropic.Rmem.{Rmem, reading, bytes}
use nixtropic.FidoHid.Slots.Invariant.{IsSound, chip_moves-IsSound, write_global-true}
use nixtropic.FidoHid.Slots.Calls.{metadata_slot}
use nixtropic.FidoHid.Slots.Frame.{write_cred_frame}
use nixtropic.FidoHid.Slots.Bitmap.{
  bit-and_not, bit-put_bit_same, bit-put_bit_other, bit-take, put_bit, first_free_lem, first_free,
  bit,
}
use nixtropic.FidoHid.Slots.Meta.{
  NewCred, read_cred, write_cred, rmem_slot_for, cred_id_nonce_len, user_handle_max, rp_id_hash_len,
  cred_bytes, rmem_per_cred_size,
}
use nixtropic.FidoHid.PinToken.{ct_equal}
use nixtropic.FidoHid.PinToken.Verify.{ct_equal_iff}
use nixtropic.FidoHid.Slots.Codec.{parse_cred-cred_bytes, meta_of, IsNewCred}
use nixtropic.FidoHid.Slots.{
  Slots, Services, slots_usable, write_global, fido_slots_max, slots_alloc, publish, alloc_with,
  alloc_at, with_slot, Alloc, allocated, alloc_error, make_id, found, cred_id_len,
  slots_lookup_by_credid, match_nonce,
}

module _ (sha256 : List ℕ → List ℕ) (sha256_length : (x : List ℕ) → length (sha256 x) ≡ 32)
    (m : Rmem) (c : Services m) where
  -- The steps of an allocation that succeeds.
  abbrev pub Steps : NewCred → List Bool → Slots m → ℕ → List ℕ → Slots m → Type 0
  Steps n mask g idx id g' =
      (nonce : List ℕ) × (slots_usable m g ≡ true)
      × (length n.user_handle ≤ user_handle_max)
      × (first_free fido_slots_max 0 g.bitmap ≡ some idx)
      × ((c.random cred_id_nonce_len g.chip).0 ≡ some nonce)
      × (id ≡ make_id idx nonce)
      × ((write_cred m idx n nonce (c.random cred_id_nonce_len g.chip).1).0 ≡ true)
      × (let s = (write_cred m idx n nonce (c.random cred_id_nonce_len g.chip).1).1 in
          write_global sha256 m (with_slot sha256 m c idx mask g.bitmap) g.force_uv g.pin_bound
            (record g { chip = s })
          ≡ (true, g'))

  publish_steps :
      (i : ℕ) (n : NewCred) (mask : List Bool) (nonce : List ℕ) (g g' : Slots m) (idx : ℕ)
      (id : List ℕ)
      → publish sha256 m c i n mask nonce g ≡ (allocated idx id, g')
      → (i ≡ idx)
        × (id ≡ make_id idx nonce)
        × ((write_cred m i n nonce g.chip).0 ≡ true)
        × (write_global sha256 m
              (with_slot sha256 m c i mask g.bitmap)
              g.force_uv
              g.pin_bound
              (record g { chip = (write_cred m i n nonce g.chip).1 })
            ≡ (true, g'))
  unfolding publish
  publish_steps i n mask nonce g g' idx id h = ground arith

  error_ne_allocated :
      (k idx : ℕ) (id : List ℕ) (g g' : Slots m)
      → ◌≢◌ {A = Alloc × Slots m} (alloc_error k, g) (allocated idx id, g')
  error_ne_allocated k idx id g g' h = ground (arith, ap (λ (x : Alloc × Slots m). x.0) h)

  with_steps :
      (i : ℕ) (n : NewCred) (mask : List Bool) (r : Option (List ℕ) × m.State) (g g' : Slots m)
      (idx : ℕ) (id : List ℕ)
      → alloc_with sha256 m c i n mask r g ≡ (allocated idx id, g')
      → (nonce : List ℕ) × (r.0 ≡ some nonce)
        × (publish sha256 m c i n mask nonce (record g { chip = r.1 }) ≡ (allocated idx id, g'))
  unfolding alloc_with
  with_steps i n mask (none, s) g g' idx id h = absurd (error_ne_allocated 2 idx id _ g' h)
  with_steps i n mask (some nonce, s) g g' idx id h = (nonce, refl, h)

  alloc_at-Steps :
      (o : Option ℕ) (n : NewCred) (mask : List Bool) (g g' : Slots m) (idx : ℕ) (id : List ℕ)
      → slots_usable m g ≡ true
      → length n.user_handle ≤ user_handle_max
      → first_free fido_slots_max 0 g.bitmap ≡ o
      → alloc_at sha256 m c o n mask g ≡ (allocated idx id, g')
      → Steps n mask g idx id g'
  unfolding alloc_at
  alloc_at-Steps none n mask g g' idx id u short e h = absurd (error_ne_allocated 1 idx id g g' h)
  alloc_at-Steps (some i) n mask g g' idx id u short e h =
      let r = c.random cred_id_nonce_len g.chip in
      let (nonce, got, p) = with_steps i n mask r g g' idx id h in
      let (same, is, w, gl) = publish_steps i n mask nonce (record g { chip = r.1 }) g' idx id p in
      (nonce, u, short, e ∙ ap some same, got, is, rw same at w, rw same at gl)

  abbrev Leads : NewCred → List Bool → Slots m → ℕ → List ℕ → Slots m → Alloc × Slots m → Type 0
  Leads n mask g idx id g' x = x ≡ (allocated idx id, g') → Steps n mask g idx id g'

  pub slots_alloc-Steps :
      (n : NewCred) (mask : List Bool) (g g' : Slots m) (idx : ℕ) (id : List ℕ)
      → slots_alloc sha256 m c n mask g ≡ (allocated idx id, g')
      → Steps n mask g idx id g'
  unfolding slots_alloc
  slots_alloc-Steps n mask g g' idx id h =
      if_each (Leads n mask g idx id g') (not (slots_usable m g)) _ _
        (λ off e. absurd (error_ne_allocated 2 idx id g g' e))
        (λ on.
          if_each (Leads n mask g idx id g') (ltb user_handle_max (length n.user_handle)) _ _
            (λ long e. absurd (error_ne_allocated 1 idx id g g' e))
            (λ short.
              alloc_at-Steps (first_free fido_slots_max 0 g.bitmap) n mask g g' idx id
                (ground (arith, on)) (ground (arith, short)) refl))
        h

  -- Acknowledged writes are stored, as the chip documents.
  abbrev pub Stores : Type 0
  Stores =
      (slot : ℕ) (r : List ℕ) (s : m.State)
      → (m.write slot r s).0 ≡ true
      → m.holds (m.write slot r s).1 slot ≡ r

  write_cred_holds :
      Stores
      → (idx : ℕ) (n : NewCred) (nonce : List ℕ) (s : m.State)
      → (write_cred m idx n nonce s).0 ≡ true
      → m.holds (write_cred m idx n nonce s).1 (rmem_slot_for idx) ≡ cred_bytes n nonce
  unfolding write_cred
  write_cred_holds stores idx n nonce s h =
      let s1 = (m.erase (rmem_slot_for idx) s).1 in
      ground (arith, stores (rmem_slot_for idx) (cred_bytes n nonce) s1)

  -- A lookup of the ID of an allocated slot whose metadata slot holds, and reads as, this.
  lookup_held :
      (idx : ℕ) (n : NewCred) (nonce : List ℕ) (g : Slots m)
      → idx < fido_slots_max
      → slots_usable m g ≡ true
      → bit g.bitmap idx ≡ true
      → AreBytes nonce
      → IsNewCred n nonce
      → (m.read (rmem_slot_for idx) rmem_per_cred_size g.chip).0 ≡ bytes (cred_bytes n nonce)
      → (slots_lookup_by_credid m (make_id idx nonce) g).0 ≡ found idx (meta_of n nonce)
  unfolding slots_lookup_by_credid match_nonce read_cred
  lookup_held idx n nonce g lt u set bytes' ok reads =
      let p = parse_cred-cred_bytes n nonce ok in
      let same : ct_equal nonce nonce ≡ true =
        (ct_equal_iff nonce nonce bytes' bytes' refl).1 refl in
      rw (reads, p, u, ok.nonce_length, set, same) (ground arith)

  reading_cred :
      (n : NewCred) (nonce : List ℕ) → reading (cred_bytes n nonce) ≡ bytes (cred_bytes n nonce)
  unfolding cred_bytes
  reading_cred n nonce = refl

  published :
      (n : NewCred) (mask : List Bool) (g g' : Slots m) (idx : ℕ) (nonce : List ℕ)
      → IsSound sha256 m g
      → idx < fido_slots_max
      → (let s = (write_cred m idx n nonce (c.random cred_id_nonce_len g.chip).1).1 in
          write_global sha256 m
            (with_slot sha256 m c idx mask g.bitmap)
            g.force_uv
            g.pin_bound
            (record g { chip = s })
          ≡ (true, g'))
      → let s = (write_cred m idx n nonce (c.random cred_id_nonce_len g.chip).1).1 in
        (slots_usable m g' ≡ true)
        × (g'.bitmap ≡ with_slot sha256 m c idx mask g.bitmap)
        × ((j : ℕ) → j ≢ 0 → j ≢ 40 → m.holds g'.chip j ≡ m.holds s j)
  published n mask g g' idx nonce h lt gl =
      let s1 = (c.random cred_id_nonce_len g.chip).1 in
      let s = (write_cred m idx n nonce s1).1 in
      let h1 =
        chip_moves-IsSound sha256 m g s
          (λ j at0.
            write_cred_frame m idx n nonce s1 j
              (metadata_slot sha256 sha256_length m c idx j lt at0)
            ∙ c.random_keeps cred_id_nonce_len g.chip j)
          h in
      write_global-true sha256 m sha256_length (with_slot sha256 m c idx mask g.bitmap) g.force_uv
        g.pin_bound (record g { chip = s }) g' h1 gl

  -- In the word that a successful allocation writes: the bit of the new slot is set, unless the
  -- mask drops it, and of the others those are clear that were clear or that the mask names.
  with_slot_bits :
      (idx : ℕ) (mask bm : List Bool) (j : ℕ)
      → idx < length bm
      → j < fido_slots_max
      → bit (with_slot sha256 m c idx mask bm) j
        ≡ ((if j == idx then true else bit bm j) && not (bit mask j))
  unfolding with_slot
  with_slot_bits idx mask bm j len lt =
      let e : bit (put_bit bm idx true) j ≡ (if j == idx then true else bit bm j) =
        elim (Bool-cases (j == idx)) [
          | inl same ↦
              let is = (==_iff j idx).0 same in rw (same, is) (bit-put_bit_same bm idx true len)
          | inr other ↦ rw other (bit-put_bit_other bm idx j true (ground (arith, other)))
        ] in
      bit-and_not (put_bit bm idx true) (take fido_slots_max mask) j
      ∙ rw (e, bit-take fido_slots_max mask j lt) refl

  -- An allocation that succeeds took a free slot of the FIDO range, returns the slot's ID, leaves
  -- the slots usable, sets the slot's bit and clears those of the mask in the one word that it
  -- writes, and leaves every R-memory slot alone but the new metadata and the two copies of O1.
  pub slots_alloc_allocated :
      (n : NewCred) (mask : List Bool) (g g' : Slots m) (idx : ℕ) (id : List ℕ)
      → IsSound sha256 m g
      → slots_alloc sha256 m c n mask g ≡ (allocated idx id, g')
      → (idx < fido_slots_max)
        × (bit g.bitmap idx ≡ false)
        × (take 2 id ≡ 1 ∷ idx ∷ [])
        × (length id ≡ cred_id_len)
        × (slots_usable m g' ≡ true)
        × ((j : ℕ)
            → j < fido_slots_max
            → bit g'.bitmap j ≡ ((if j == idx then true else bit g.bitmap j) && not (bit mask j)))
        × ((j : ℕ) → j ≢ 0 → j ≢ 40 → j ≢ rmem_slot_for idx → m.holds g'.chip j ≡ m.holds g.chip j)
  slots_alloc_allocated n mask g g' idx id h ok =
      let (nonce, u, short, at', got, is, w, gl) = slots_alloc-Steps n mask g g' idx id ok in
      let (lt, free) = first_free_lem fido_slots_max 0 g.bitmap idx at' in
      let (usable', bm, frame) = published n mask g g' idx nonce h lt gl in
      (
        lt,
        free,
        rw is refl,
        rw is (omega (arith, c.random_length cred_id_nonce_len g.chip nonce got)),
        usable',
        λ j small. rw bm (with_slot_bits idx mask g.bitmap j (omega (arith, h.wf.0)) small),
        λ j n0 n40 ni.
            frame j n0 n40
            ∙ write_cred_frame m idx n nonce (c.random cred_id_nonce_len g.chip).1 j ni
            ∙ c.random_keeps cred_id_nonce_len g.chip j,
      )

  -- On a chip that stores what it acknowledges, the ID that an allocation returns is resolved at
  -- once to the slot and to the metadata asked for, if the chip answers the read of its slot and
  -- the mask does not name the slot itself.
  pub alloc_lookup :
      (n : NewCred) (mask : List Bool) (g g' : Slots m) (idx : ℕ) (id : List ℕ)
      → Stores
      → IsSound sha256 m g
      → length n.rp_id_hash ≡ rp_id_hash_len
      → n.created < u32_mod
      → bit mask idx ≡ false
      → slots_alloc sha256 m c n mask g ≡ (allocated idx id, g')
      → (m.read (rmem_slot_for idx) rmem_per_cred_size g'.chip).0
        ≡ reading (m.holds g'.chip (rmem_slot_for idx))
      → (slots_lookup_by_credid m id g').0 ≡ found idx (meta_of n (drop 2 id))
  alloc_lookup n mask g g' idx id stores h hash created keep ok reads =
      let (nonce, u, short, at', got, is, w, gl) = slots_alloc-Steps n mask g g' idx id ok in
      let (lt, free) = first_free_lem fido_slots_max 0 g.bitmap idx at' in
      let s1 = (c.random cred_id_nonce_len g.chip).1 in
      let (usable', bm, frame) = published n mask g g' idx nonce h lt gl in
      let held : m.holds g'.chip (rmem_slot_for idx) ≡ cred_bytes n nonce =
        frame (rmem_slot_for idx) (omega arith) (omega arith)
        ∙ write_cred_holds stores idx n nonce s1 w in
      let set : bit g'.bitmap idx ≡ true = rw bm (
        with_slot_bits idx mask g.bitmap idx (omega (arith, h.wf.0)) lt
        ∙ rw (==_refl idx, keep) refl) in
      let ok' : IsNewCred n nonce = record {
        hash_length = hash;
        nonce_length = c.random_length cred_id_nonce_len g.chip nonce got;
        handle_length = short;
        created_bound = created;
      } in
      rw is (
        lookup_held idx n nonce g' lt usable' set
          (c.random_bytes cred_id_nonce_len g.chip nonce got) ok'
          (reads ∙ ap reading held ∙ reading_cred n nonce))
