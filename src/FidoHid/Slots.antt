-- ===== src/FidoHid/Slots.antt =====
-- firmware/src/fido_hid/slots.c and slots.h: the FIDO credential slots. The file's static
-- variables and the chip are a record; a uint32_t bitmap is the list of its 32 bits. A code 0 is
-- 0 and a code -n is n. SHA-256 is trezor-crypto's, the random numbers and the session are the
-- chip's: parameters.
pub mod Bitmap
pub mod Meta
pub mod Frame
pub mod Closed
pub mod Record
pub mod Invariant
pub mod Calls
pub mod Boot
pub mod Codec
pub mod Allocation
pub mod Session
pub mod Wipe
pub mod Fresh
pub mod Acknowledged
mod Tests
use nixtropic.Base.{
  ℕ, zero, suc, ◌+◌, ◌-◌, ◌*◌, List, [], ◌∷◌, ◌++◌, Bool, true, false, not, ◌&&◌, ◌||◌, Option,
  none, some, ltb, leb, ◌==◌, if◌then◌else◌, length, get_or, take, drop, replicate, byte_of,
  of_be32, bytes_eq, ◌≡◌, AreBytes,
}
use nixtropic.Tropic.Rmem.{Rmem, Reading, bytes, slot_empty, failed}
use nixtropic.Tropic.RecPair.{
  RecPair, RecStatus, rec_ok, rec_absent, rec_corrupt, rec_error, Outcome, rec_pair_read,
  rec_pair_write, rec_pair_init,
}
use nixtropic.FidoHid.PinToken.{ct_equal}
use nixtropic.FidoHid.Slots.Bitmap.{
  bit, put_bit, and_not, any_bit, count_bits, same_bits, first_free, word_of, bits_of,
}
use nixtropic.FidoHid.Slots.Meta.{
  SlotMeta, NewCred, be32_store, CredRead, cred_ok, cred_bad_magic, cred_failed, cred_empty,
  read_cred, write_cred, rmem_slot_for, user_handle_max, cred_id_nonce_len,
}

abbrev pub fido_slots_max : ℕ
fido_slots_max = 29

abbrev pub o1_len : ℕ
o1_len = 6

abbrev pub cred_id_len : ℕ
cred_id_len = 18

-- The chip calls of the slots that are not R-memory calls: tropic_random, `none` for an error,
-- and tropic_l3_session_ensure. Neither touches the R-memory.
pub record Services (m : Rmem) : Type 0 where
  pub random : ℕ → m.State → Option (List ℕ) × m.State
  pub session_ensure : m.State → Bool × m.State
  pub random_keeps : (n : ℕ) (s : m.State) (j : ℕ) → m.holds (random n s).1 j ≡ m.holds s j
  pub random_length : (n : ℕ) (s : m.State) (x : List ℕ) → (random n s).0 ≡ some x → length x ≡ n
  pub random_bytes : (n : ℕ) (s : m.State) (x : List ℕ) → (random n s).0 ≡ some x → AreBytes x
  pub ensure_keeps : (s : m.State) (j : ℕ) → m.holds (session_ensure s).1 j ≡ m.holds s j

pub record Slots (m : Rmem) : Type 0 where
  pub o1 : RecPair
  pub initted : Bool
  pub bitmap : List Bool
  pub force_uv : ℕ
  pub pin_bound : ℕ
  pub chip : m.State

-- s_o1 at the start of the program.
abbrev pub o1_pair : RecPair
o1_pair = record { slot_a = 0; slot_b = 40; obj = 1; schema = 1; uncertain = false }

pub o1_encode : List Bool → ℕ → ℕ → List ℕ
o1_encode bm uv bound = be32_store (word_of bm) ++ uv ∷ bound ∷ []

-- be32_load(buf)
pub o1_bits : List ℕ → List Bool
o1_bits buf =
    bits_of 32 (of_be32 (get_or buf 0 0) (get_or buf 1 0) (get_or buf 2 0) (get_or buf 3 0))

pub o1_bad : List ℕ → Bool
unfolding o1_bits any_bit
o1_bad buf =
    not (length buf == o1_len)
    || ltb 1 (get_or buf 4 0)
    || ltb 1 (get_or buf 5 0)
    || any_bit (drop fido_slots_max (o1_bits buf))

pub data InitRc : Type 0 where
  init_ok init_absent : InitRc
  init_error : ℕ → InitRc

-- slots_alloc: the slot and the credential ID, or the code.
pub data Alloc : Type 0 where
  allocated : ℕ → List ℕ → Alloc
  alloc_error : ℕ → Alloc

-- slots_lookup_by_credid and slots_read_meta: the slot and the metadata, or the code.
pub data Lookup : Type 0 where
  found : ℕ → SlotMeta → Lookup
  lookup_error : ℕ → Lookup

abbrev pub make_id : ℕ → List ℕ → List ℕ
make_id idx nonce = 1 ∷ idx ∷ nonce

unfoldable pub slots_make_cred_id : ℕ → SlotMeta → List ℕ
slots_make_cred_id idx meta = make_id idx meta.cred_id_nonce

module _ (m : Rmem) where
  unfoldable pub slots_usable : Slots m → Bool
  slots_usable g = g.initted && not g.o1.uncertain

  unfoldable pub slots_bitmap : Slots m → List Bool
  unfolding slots_usable
  slots_bitmap g = if slots_usable g then g.bitmap else replicate 32 false

  unfoldable pub slots_count_used : Slots m → ℕ
  unfolding slots_bitmap count_bits
  slots_count_used g = count_bits (slots_bitmap g)

  -- `none` for -1.
  unfoldable pub slots_pin_bound : Slots m → Option ℕ
  unfolding slots_usable
  slots_pin_bound g = if slots_usable g then some g.pin_bound else none

  unfoldable pub slots_force_uv_get : Slots m → ℕ
  unfolding slots_usable
  slots_force_uv_get g = if slots_usable g then g.force_uv else 1

  read_with : CredRead → ℕ → Lookup
  read_with (cred_ok meta) idx = found idx meta
  read_with cred_bad_magic idx = lookup_error 1
  read_with _ idx = lookup_error 2

  unfoldable pub slots_read_meta : ℕ → Slots m → Lookup × Slots m
  unfolding slots_usable read_with read_cred
  slots_read_meta idx g =
      let (c, s) = read_cred m idx g.chip in
      if not (slots_usable g)
      then (lookup_error 2, g)
      else if leb fido_slots_max idx
      then (lookup_error 1, g)
      else if not (bit g.bitmap idx)
      then (lookup_error 1, g)
      else (read_with c idx, record g { chip = s })

  -- The bytes are compared in constant time, as in pin_token.c.
  match_nonce : CredRead → ℕ → List ℕ → Lookup
  match_nonce (cred_ok meta) idx nonce =
      if ct_equal meta.cred_id_nonce nonce then found idx meta else lookup_error 1
  match_nonce _ idx nonce = lookup_error 1

  unfoldable pub slots_lookup_by_credid : List ℕ → Slots m → Lookup × Slots m
  unfolding slots_usable match_nonce read_cred
  slots_lookup_by_credid cred_id g =
      let idx = get_or cred_id 1 0 in
      let (c, s) = read_cred m idx g.chip in
      if not (slots_usable g)
      then (lookup_error 1, g)
      else if not (length cred_id == cred_id_len)
      then (lookup_error 1, g)
      else if not (get_or cred_id 0 0 == 1)
      then (lookup_error 1, g)
      else if leb fido_slots_max idx
      then (lookup_error 1, g)
      else if not (bit g.bitmap idx)
      then (lookup_error 1, g)
      else (match_nonce c idx (drop 2 cred_id), record g { chip = s })

  scrubbed : CredRead → ℕ → List Bool → List Bool
  unfolding put_bit
  scrubbed cred_empty i bm = put_bit bm i false
  scrubbed _ i bm = bm

  scrub_bit : ℕ → List Bool → m.State → List Bool × m.State
  unfolding read_cred scrubbed
  scrub_bit i bm s =
      let (c, s') = read_cred m i s in if bit bm i then (scrubbed c i bm, s') else (bm, s)

  -- `*bitmap` of orphan_scrub after the n slots from i on.
  unfoldable pub orphan_scrub : ℕ → ℕ → List Bool → m.State → List Bool × m.State
  unfolding scrub_bit
  orphan_scrub zero i bm s = (bm, s)
  orphan_scrub (suc n) i bm s = let (bm', s') = scrub_bit i bm s in orphan_scrub n (suc i) bm' s'

  unfoldable pub probe_empty : Reading → Bool
  probe_empty slot_empty = true
  probe_empty (bytes []) = true
  probe_empty _ = false

  -- The n metadata slots from i on; true for the code 0.
  unfoldable pub wipe_from : ℕ → ℕ → m.State → Bool × m.State
  unfolding probe_empty
  wipe_from zero i s = (true, s)
  wipe_from (suc n) i s =
      let (erased, s1) = m.erase (rmem_slot_for i) s in
      let (probe, s2) = m.read (rmem_slot_for i) 8 s1 in
      let rest = wipe_from n (suc i) s2 in
      if not erased then (false, s1) else if not (probe_empty probe) then (false, s2) else rest

  unfoldable pub slots_wipe_meta : Slots m → Bool × Slots m
  unfolding wipe_from
  slots_wipe_meta g = let (ok, s) = wipe_from fido_slots_max 0 g.chip in (ok, record g { chip = s })

module _ (sha256 : List ℕ → List ℕ) (m : Rmem) where
  -- What write_global takes into RAM once the pair is written.
  take_global : RecStatus × RecPair × m.State → List Bool → ℕ → ℕ → Slots m → Bool × Slots m
  take_global (rec_ok, p, s) bm uv bound g =
      (true, record g { o1 = p; bitmap = bm; force_uv = uv; pin_bound = bound; chip = s })
  take_global (_, p, s) bm uv bound g = (false, record g { o1 = p; chip = s })

  -- True for the code 0.
  unfoldable pub write_global : List Bool → ℕ → ℕ → Slots m → Bool × Slots m
  unfolding slots_usable o1_encode take_global
  write_global bm uv bound g =
      if not (slots_usable m g)
      then (false, g)
      else take_global (rec_pair_write sha256 m g.o1 (o1_encode bm uv bound) g.chip) bm uv bound g

  unfoldable pub slots_set_pin_bound : Bool → Bool → Slots m → Bool × Slots m
  unfolding write_global
  slots_set_pin_bound bound force_uv_on g =
      write_global g.bitmap (if force_uv_on then 1 else g.force_uv) (if bound then 1 else 0) g

  unfoldable pub slots_force_uv_set : Bool → Slots m → Bool × Slots m
  unfolding write_global
  slots_force_uv_set value g = write_global g.bitmap (if value then 1 else 0) g.pin_bound g

  take_fresh : RecStatus × RecPair × m.State → Slots m → Bool × Slots m
  take_fresh (rec_ok, p, s) g = (
    true,
    record {
      o1 = p;
      initted = true;
      bitmap = replicate 32 false;
      force_uv = 0;
      pin_bound = 0;
      chip = s;
    },
  )
  take_fresh (_, p, s) g = (false, record g { o1 = p; initted = false; chip = s })

  unfoldable pub slots_init_fresh : Slots m → Bool × Slots m
  unfolding o1_encode take_fresh
  slots_init_fresh g =
      let p = record g.o1 { uncertain = false } in
      take_fresh (rec_pair_init sha256 m p (o1_encode (replicate 32 false) 0 0) g.chip) g

  -- Clears the bit, and then the metadata slot. True for the code 0 of the O1 write, if any.
  unfoldable pub drop_bit : ℕ → Slots m → Bool × Slots m
  unfolding put_bit same_bits write_global
  drop_bit idx g =
      let bm = put_bit g.bitmap idx false in
      if same_bits bm g.bitmap then (true, g) else write_global bm g.force_uv g.pin_bound g

  unfoldable pub slots_erase : ℕ → Slots m → ℕ × Slots m
  unfolding slots_usable drop_bit
  slots_erase idx g =
      let (published, g1) = drop_bit idx g in
      let (erased, s) = m.erase (rmem_slot_for idx) g1.chip in
      if leb fido_slots_max idx
      then (1, g)
      else if not (slots_usable m g)
      then (2, g)
      else if not published
      then (2, g1)
      else if not erased
      then (2, record g1 { chip = s })
      else (0, record g1 { chip = s })

  -- slots_init from the O1 that is read: RAM, then the scrub.
  scrub : Slots m → InitRc × Slots m
  unfolding orphan_scrub same_bits write_global
  scrub g =
      let (bm, s) = orphan_scrub m fido_slots_max 0 g.bitmap g.chip in
      let g1 = record g { chip = s } in
      let (ok, g2) = write_global bm g.force_uv g.pin_bound g1 in
      if same_bits bm g.bitmap
      then (init_ok, g1)
      else if not ok
      then (init_error 3, record g2 { initted = false })
      else (init_ok, g2)

  -- s_bitmap, s_force_uv and s_pin_bound from `buf`.
  o1_taken : List ℕ → Slots m → Slots m
  unfolding o1_bits
  o1_taken buf g = record g {
    initted = true;
    bitmap = o1_bits buf;
    force_uv = get_or buf 4 0;
    pin_bound = get_or buf 5 0;
  }

  init_read : RecStatus → List ℕ → Slots m → InitRc × Slots m
  unfolding o1_bad o1_taken scrub
  init_read rec_absent buf g = (init_absent, g)
  init_read rec_ok buf g = if o1_bad buf then (init_error 2, g) else scrub (o1_taken buf g)
  init_read _ buf g = (init_error 2, g)

  module _ (c : Services m) where
    unfoldable pub slots_init : Slots m → InitRc × Slots m
    unfolding init_read
    slots_init g =
        let (ready, s) = c.session_ensure g.chip in
        let out = rec_pair_read sha256 m g.o1 (some o1_len) s in
        if g.initted
        then (if g.o1.uncertain then init_error 1 else init_ok, g)
        else if not ready
        then (init_error 1, record g { chip = s })
        else init_read out.status out.payload (record g { o1 = out.pair; chip = out.chip })

    -- The bitmap that adds `idx` and drops the slots of `replace_mask & fido_mask`.
    unfoldable pub with_slot : ℕ → List Bool → List Bool → List Bool
    unfolding put_bit and_not
    with_slot idx mask bm = and_not (put_bit bm idx true) (take fido_slots_max mask)

    -- The metadata of slot idx, then the bitmap.
    publish : ℕ → NewCred → List Bool → List ℕ → Slots m → Alloc × Slots m
    unfolding write_cred write_global with_slot
    publish idx n mask nonce g =
        let (written, s) = write_cred m idx n nonce g.chip in
        let g1 = record g { chip = s } in
        let (ok, g2) = write_global (with_slot idx mask g.bitmap) g.force_uv g.pin_bound g1 in
        if not written
        then (alloc_error 2, g1)
        else if not ok
        then (alloc_error 3, g2)
        else (allocated idx (make_id idx nonce), g2)

    alloc_with : ℕ → NewCred → List Bool → Option (List ℕ) × m.State → Slots m → Alloc × Slots m
    unfolding publish
    alloc_with idx n mask (none, s) g = (alloc_error 2, record g { chip = s })
    alloc_with idx n mask (some nonce, s) g = publish idx n mask nonce (record g { chip = s })

    alloc_at : Option ℕ → NewCred → List Bool → Slots m → Alloc × Slots m
    unfolding alloc_with
    alloc_at none n mask g = (alloc_error 1, g)
    alloc_at (some idx) n mask g = alloc_with idx n mask (c.random cred_id_nonce_len g.chip) g

    unfoldable pub slots_alloc : NewCred → List Bool → Slots m → Alloc × Slots m
    unfolding slots_usable alloc_at first_free
    slots_alloc n mask g =
        if not (slots_usable m g)
        then (alloc_error 2, g)
        else if ltb user_handle_max (length n.user_handle)
        then (alloc_error 1, g)
        else alloc_at (first_free fido_slots_max 0 g.bitmap) n mask g
