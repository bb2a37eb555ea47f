-- ===== src/FidoHid/Slots/Closed.antt =====
-- The operations of slots.c and predicates of the chip that its calls preserve.
use nixtropic.Base.{
  false, ℕ, zero, suc, List, Bool, not, Option, some, none, if_each, ltb, leb, ◌==◌, length, get_or,
}
use nixtropic.Tropic.Rmem.{Rmem}
use nixtropic.Tropic.RecPair.{
  RecPair, RecStatus, rec_ok, rec_absent, rec_corrupt, rec_error, rec_pair_read, rec_pair_write,
}
use nixtropic.Tropic.RecPair.Closed.{
  Closed, rec_pair_read-Closed, rec_pair_write-Closed, rec_pair_init-Closed,
}
use nixtropic.FidoHid.Slots.Bitmap.{bit, put_bit, same_bits, first_free}
use nixtropic.FidoHid.Slots.Meta.{
  NewCred, read_cred, write_cred, rmem_slot_for, rmem_per_cred_size, cred_bytes, cred_id_nonce_len,
  user_handle_max,
}
use nixtropic.FidoHid.Slots.{
  Slots, Services, slots_usable, slots_lookup_by_credid, cred_id_len, fido_slots_max, scrub_bit,
  orphan_scrub, probe_empty, wipe_from, slots_wipe_meta, take_global, write_global,
  slots_set_pin_bound, take_fresh, slots_init_fresh, drop_bit, slots_erase, scrub, o1_taken, o1_bad,
  o1_len, o1_encode, init_read, slots_init, with_slot, publish, alloc_with, alloc_at, slots_alloc,
}

module _ (m : Rmem) (P : m.State → Type 0) (closed : Closed m P) where
  abbrev AfterChip : {A : Type 0} → A × m.State → Type 0
  AfterChip x = P x.1

  abbrev AfterSlots : {A : Type 0} → A × Slots m → Type 0
  AfterSlots x = P x.1.chip

  read_cred-Closed : (idx : ℕ) (s : m.State) → P s → P (read_cred m idx s).1
  unfolding read_cred
  read_cred-Closed idx s h = closed.on_read (rmem_slot_for idx) rmem_per_cred_size s h

  write_cred-Closed :
      (idx : ℕ) (n : NewCred) (nonce : List ℕ) (s : m.State)
      → P s
      → P (write_cred m idx n nonce s).1
  unfolding write_cred
  write_cred-Closed idx n nonce s h =
      let s1 = (m.erase (rmem_slot_for idx) s).1 in
      let h1 = closed.on_erase (rmem_slot_for idx) s h in
      if_each AfterChip (not (m.erase (rmem_slot_for idx) s).0) _ _ (λ e. h1)
        (λ e. closed.on_write (rmem_slot_for idx) (cred_bytes n nonce) s1 h1)

  pub slots_lookup-Closed :
      (id : List ℕ) (g : Slots m) → P g.chip → P (slots_lookup_by_credid m id g).1.chip
  unfolding slots_lookup_by_credid
  slots_lookup-Closed id g h =
      let idx = get_or id 1 0 in
      let h1 = read_cred-Closed idx g.chip h in
      if_each AfterSlots (not (slots_usable m g)) _ _ (λ e. h)
        (λ e.
          if_each AfterSlots (not (length id == cred_id_len)) _ _ (λ e. h)
            (λ e.
              if_each AfterSlots (not (get_or id 0 0 == 1)) _ _ (λ e. h)
                (λ e.
                  if_each AfterSlots (leb fido_slots_max idx) _ _ (λ e. h)
                    (λ e. if_each AfterSlots (not (bit g.bitmap idx)) _ _ (λ e. h) (λ e. h1)))))

  scrub_bit-Closed : (i : ℕ) (bm : List Bool) (s : m.State) → P s → P (scrub_bit m i bm s).1
  unfolding scrub_bit
  scrub_bit-Closed i bm s h =
      if_each AfterChip (bit bm i) _ _ (λ e. read_cred-Closed i s h) (λ e. h)

  orphan_scrub-Closed :
      (n i : ℕ) (bm : List Bool) (s : m.State) → P s → P (orphan_scrub m n i bm s).1
  unfolding orphan_scrub
  orphan_scrub-Closed zero i bm s h = h
  orphan_scrub-Closed (suc n) i bm s h =
      let (bm', s') = scrub_bit m i bm s in
      orphan_scrub-Closed n (suc i) bm' s' (scrub_bit-Closed i bm s h)

  wipe_from-Closed : (n i : ℕ) (s : m.State) → P s → P (wipe_from m n i s).1
  unfolding wipe_from
  wipe_from-Closed zero i s h = h
  wipe_from-Closed (suc n) i s h =
      let slot = rmem_slot_for i in
      let s1 = (m.erase slot s).1 in
      let s2 = (m.read slot 8 s1).1 in
      let h1 = closed.on_erase slot s h in
      let h2 = closed.on_read slot 8 s1 h1 in
      if_each AfterChip (not (m.erase slot s).0) _ _ (λ e. h1)
        (λ e.
          if_each AfterChip (not (probe_empty m (m.read slot 8 s1).0)) _ _ (λ f. h2)
            (λ f. wipe_from-Closed n (suc i) s2 h2))

  pub slots_wipe_meta-Closed : (g : Slots m) → P g.chip → P (slots_wipe_meta m g).1.chip
  unfolding slots_wipe_meta
  slots_wipe_meta-Closed g h = wipe_from-Closed fido_slots_max 0 g.chip h

  module _ (sha256 : List ℕ → List ℕ) where
    take_global-Closed :
        (x : RecStatus × RecPair × m.State) (bm : List Bool) (uv bound : ℕ) (g : Slots m)
        → P x.2
        → P (take_global sha256 m x bm uv bound g).1.chip
    unfolding take_global
    take_global-Closed (rec_ok, p, s) bm uv bound g h = h
    take_global-Closed (rec_absent, p, s) bm uv bound g h = h
    take_global-Closed (rec_corrupt, p, s) bm uv bound g h = h
    take_global-Closed (rec_error, p, s) bm uv bound g h = h

    write_global-Closed :
        (bm : List Bool) (uv bound : ℕ) (g : Slots m)
        → P g.chip
        → P (write_global sha256 m bm uv bound g).1.chip
    unfolding write_global
    write_global-Closed bm uv bound g h =
        let payload = o1_encode bm uv bound in
        if_each AfterSlots (not (slots_usable m g)) _ _ (λ e. h)
          (λ e.
            take_global-Closed (rec_pair_write sha256 m g.o1 payload g.chip) bm uv bound g
              (rec_pair_write-Closed sha256 m P closed g.o1 payload g.chip h))

    pub slots_set_pin_bound-Closed :
        (bound uv : Bool) (g : Slots m)
        → P g.chip
        → P (slots_set_pin_bound sha256 m bound uv g).1.chip
    unfolding slots_set_pin_bound
    slots_set_pin_bound-Closed bound uv g h = write_global-Closed g.bitmap _ _ g h

    take_fresh-Closed :
        (x : RecStatus × RecPair × m.State) (g : Slots m)
        → P x.2
        → P (take_fresh sha256 m x g).1.chip
    unfolding take_fresh
    take_fresh-Closed (rec_ok, p, s) g h = h
    take_fresh-Closed (rec_absent, p, s) g h = h
    take_fresh-Closed (rec_corrupt, p, s) g h = h
    take_fresh-Closed (rec_error, p, s) g h = h

    pub slots_init_fresh-Closed : (g : Slots m) → P g.chip → P (slots_init_fresh sha256 m g).1.chip
    unfolding slots_init_fresh
    slots_init_fresh-Closed g h =
        take_fresh-Closed _ g (rec_pair_init-Closed sha256 m P closed _ _ g.chip h)

    drop_bit-Closed : (idx : ℕ) (g : Slots m) → P g.chip → P (drop_bit sha256 m idx g).1.chip
    unfolding drop_bit
    drop_bit-Closed idx g h =
        if_each AfterSlots (same_bits (put_bit g.bitmap idx false) g.bitmap) _ _ (λ e. h)
          (λ e. write_global-Closed _ g.force_uv g.pin_bound g h)

    pub slots_erase-Closed :
        (idx : ℕ) (g : Slots m) → P g.chip → P (slots_erase sha256 m idx g).1.chip
    unfolding slots_erase
    slots_erase-Closed idx g h =
        let (published, g1) = drop_bit sha256 m idx g in
        let (erased, s) = m.erase (rmem_slot_for idx) g1.chip in
        let h1 = drop_bit-Closed idx g h in
        let h2 = closed.on_erase (rmem_slot_for idx) g1.chip h1 in
        if_each AfterSlots (leb fido_slots_max idx) _ _ (λ e. h)
          (λ e.
            if_each AfterSlots (not (slots_usable m g)) _ _ (λ e. h)
              (λ e.
                if_each AfterSlots (not published) _ _ (λ e. h1)
                  (λ e. if_each AfterSlots (not erased) _ _ (λ f. h2) (λ f. h2))))

    scrub-Closed : (g : Slots m) → P g.chip → P (scrub sha256 m g).1.chip
    unfolding scrub
    scrub-Closed g h =
        let (bm, s) = orphan_scrub m fido_slots_max 0 g.bitmap g.chip in
        let g1 : Slots m = record g { chip = s } in
        let (ok, g2) = write_global sha256 m bm g.force_uv g.pin_bound g1 in
        let h1 = orphan_scrub-Closed fido_slots_max 0 g.bitmap g.chip h in
        let h2 = write_global-Closed bm g.force_uv g.pin_bound g1 h1 in
        if_each AfterSlots (same_bits bm g.bitmap) _ _ (λ e. h1)
          (λ e. if_each AfterSlots (not ok) _ _ (λ f. h2) (λ f. h2))

    init_read-Closed :
        (st : RecStatus) (buf : List ℕ) (g : Slots m)
        → P g.chip
        → P (init_read sha256 m st buf g).1.chip
    unfolding init_read o1_taken
    init_read-Closed rec_absent buf g h = h
    init_read-Closed rec_ok buf g h =
        if_each AfterSlots (o1_bad buf) _ _ (λ e. h) (λ e. scrub-Closed (o1_taken sha256 m buf g) h)
    init_read-Closed rec_corrupt buf g h = h
    init_read-Closed rec_error buf g h = h

    module _ (c : Services m) where
      pub slots_init-Closed :
          (g : Slots m)
          → ((s : m.State) → P s → P (c.session_ensure s).1)
          → P g.chip
          → P (slots_init sha256 m c g).1.chip
      unfolding slots_init
      slots_init-Closed g on_ensure h =
          let (ready, s) = c.session_ensure g.chip in
          let out = rec_pair_read sha256 m g.o1 (some o1_len) s in
          let h1 = on_ensure g.chip h in
          if_each AfterSlots g.initted _ _ (λ e. h)
            (λ e.
              if_each AfterSlots (not ready) _ _ (λ f. h1)
                (λ f.
                  init_read-Closed out.status out.payload _
                    (rec_pair_read-Closed sha256 m P closed g.o1 (some o1_len) s h1)))

      publish-Closed :
          (idx : ℕ) (n : NewCred) (mask : List Bool) (nonce : List ℕ) (g : Slots m)
          → P g.chip
          → P (publish sha256 m c idx n mask nonce g).1.chip
      unfolding publish
      publish-Closed idx n mask nonce g h =
          let (written, s) = write_cred m idx n nonce g.chip in
          let g1 : Slots m = record g { chip = s } in
          let bm = with_slot sha256 m c idx mask g.bitmap in
          let (ok, g2) = write_global sha256 m bm g.force_uv g.pin_bound g1 in
          let h1 = write_cred-Closed idx n nonce g.chip h in
          let h2 = write_global-Closed bm g.force_uv g.pin_bound g1 h1 in
          if_each AfterSlots (not written) _ _ (λ e. h1)
            (λ e. if_each AfterSlots (not ok) _ _ (λ f. h2) (λ f. h2))

      alloc_with-Closed :
          (idx : ℕ) (n : NewCred) (mask : List Bool) (r : Option (List ℕ) × m.State) (g : Slots m)
          → P r.1
          → P (alloc_with sha256 m c idx n mask r g).1.chip
      unfolding alloc_with
      alloc_with-Closed idx n mask (none, s) g h = h
      alloc_with-Closed idx n mask (some nonce, s) g h =
          publish-Closed idx n mask nonce (record g { chip = s }) h

      alloc_at-Closed :
          (i : Option ℕ) (n : NewCred) (mask : List Bool) (g : Slots m)
          → P g.chip
          → P (c.random cred_id_nonce_len g.chip).1
          → P (alloc_at sha256 m c i n mask g).1.chip
      unfolding alloc_at
      alloc_at-Closed none n mask g h h1 = h
      alloc_at-Closed (some idx) n mask g h h1 = alloc_with-Closed idx n mask _ g h1

      pub slots_alloc-Closed :
          (n : NewCred) (mask : List Bool) (g : Slots m)
          → ((k : ℕ) (s : m.State) → P s → P (c.random k s).1)
          → P g.chip
          → P (slots_alloc sha256 m c n mask g).1.chip
      unfolding slots_alloc
      slots_alloc-Closed n mask g on_random h =
          if_each AfterSlots (not (slots_usable m g)) _ _ (λ e. h)
            (λ e.
              if_each AfterSlots (ltb user_handle_max (length n.user_handle)) _ _ (λ f. h)
                (λ f.
                  alloc_at-Closed (first_free fido_slots_max 0 g.bitmap) n mask g h
                    (on_random cred_id_nonce_len g.chip h)))
