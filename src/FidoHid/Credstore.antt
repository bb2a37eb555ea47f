-- ===== src/FidoHid/Credstore.antt =====
-- firmware/src/fido_hid/credstore.c: the credential store over the slots, the ECC keys of the chip
-- and its monotonic counter. NULL pointers and negative slots are not modelled; a result carries
-- what the code writes through its pointers when it succeeds. A code n stands for -n.
pub mod Isolation
pub mod Count
mod Tests
use nixtropic.Base.{
  ℕ, ◌-◌, List, Bool, true, false, not, ◌&&◌, ◌||◌, Option, none, some, ltb, leb, ◌==◌, length,
  bytes_eq, if◌then◌else◌,
}
use nixtropic.Tropic.Rmem.{Rmem}
use nixtropic.Tropic.Keys.{Keys}
use nixtropic.Tropic.PinKernel.{if_ok}
use nixtropic.FidoHid.Cose.{cose_es256_der}
use nixtropic.FidoHid.Slots.Bitmap.{first_free}
use nixtropic.FidoHid.Slots.Meta.{NewCred, SlotMeta}
use nixtropic.FidoHid.Slots.{
  fido_slots_max, slots_usable, slots_bitmap, slots_alloc, slots_erase, slots_lookup_by_credid,
  Alloc, allocated, alloc_error, Lookup, found, lookup_error,
}
use nixtropic.FidoHid.Store.{
  Fido, on_slots, on_chip, with_chip, services, fido_state_boot, fido_state_wipe, fido_pin_usable,
  signcount_mcounter, mcounter_max,
}

abbrev pub alg_ed25519 : ℕ
alg_ed25519 = 8

abbrev pub alg_es256 : ℕ
alg_es256 = 7

abbrev pub pubkey_max : ℕ
pubkey_max = 64

abbrev sig_max : ℕ
sig_max = 72

unfoldable pub pubkey_len : ℕ → ℕ
pubkey_len alg = if alg == alg_ed25519 then 32 else if alg == alg_es256 then 64 else 0

abbrev curve_of : ℕ → ℕ
curve_of alg = if alg == alg_es256 then 1 else 0

-- The public key, the credential ID and the handle, or the code.
pub data Made : Type 0 where
  made : List ℕ → List ℕ → ℕ → Made
  make_error : ℕ → Made

pub data Signed : Type 0 where
  signed : List ℕ → Signed
  sign_error : ℕ → Signed

of_length : ℕ → Option (List ℕ) → Option (List ℕ)
of_length n none = none
of_length n (some x) = if length x == n then some x else none

der_signed : Option (List ℕ) → Signed
der_signed none = sign_error 2
der_signed (some der) = if ltb 0 (length der) then signed der else sign_error 2

sign_ed25519 : Option (List ℕ) → Signed
sign_ed25519 none = sign_error 2
sign_ed25519 (some sig) = if length sig == 64 then signed sig else sign_error 2

sign_es256 : Option (List ℕ) → Signed
unfolding der_signed cose_es256_der
sign_es256 none = sign_error 2
sign_es256 (some rs) =
    if length rs == 64 then der_signed (cose_es256_der rs sig_max) else sign_error 2

count_up : Option ℕ → Option ℕ
count_up none = none
count_up (some v) = if ltb mcounter_max v then none else some (mcounter_max - v)

module _ (sha256 : List ℕ → List ℕ) (hmac : List ℕ → List ℕ → List ℕ) (m : Rmem) (k : Keys m) where
  unfoldable pub credstore_init : Fido m → Bool × Fido m
  credstore_init g =
      let (rc, g1) = fido_state_boot sha256 hmac m k g in
      if g.initted
      then (true, g)
      else if not (rc == 0)
      then (false, g1)
      else (true, record g1 { initted = true })

  -- Erase, generate, and read the public key, which must have `want` bytes.
  unfoldable pub try_key : ℕ → ℕ → ℕ → m.State → Option (List ℕ) × m.State
  unfolding if_ok of_length
  try_key slot curve want s = if_ok (k.ecc_erase slot s) none (λ s1.
      if_ok (k.ecc_generate slot curve s1) none
        (λ s2. let (got, s3) = k.ecc_pubkey_read slot pubkey_max s2 in (of_length want got, s3)))

  -- What is not to outlive a failed registration is erased, and the result of that is not looked
  -- at.
  unfoldable pub drop_key : ℕ → Fido m → Fido m
  unfolding on_chip
  drop_key slot g = (on_chip m (k.ecc_erase slot) g).1

  abbrev pub done : Fido m → Fido m
  done g = record g { mutating = false }

  -- After slots_alloc.
  unfoldable pub finish_make : ℕ → List ℕ → Alloc → Fido m → Made × Fido m
  unfolding drop_key on_slots
  finish_make slot pk (allocated idx id) g =
      let (rc, g1) = on_slots m (slots_erase sha256 m idx) (drop_key slot g) in
      if idx == slot then (made pk id slot, done g) else (make_error 2, done g1)
  finish_make slot pk (alloc_error e) g =
      if e == 3
      then (make_error 2, done g)
      else (make_error (if e == 1 then 1 else 2), done (drop_key slot g))

  unfoldable pub publish_key : ℕ → NewCred → List Bool → Option (List ℕ) × Fido m → Made × Fido m
  unfolding drop_key finish_make on_slots
  publish_key slot n mask (none, g) = (make_error 2, done (drop_key slot g))
  publish_key slot n mask (some pk, g) =
      let (rc, g1) = on_slots m (slots_alloc sha256 m (services m k) n mask) g in
      finish_make slot pk rc g1

  unfoldable pub make_at : Option ℕ → NewCred → List Bool → Fido m → Made × Fido m
  unfolding on_chip try_key publish_key
  make_at none n mask g = (make_error 1, done g)
  make_at (some slot) n mask g =
      publish_key slot n mask (on_chip m (try_key slot (curve_of n.alg) (pubkey_len n.alg)) g)

  unfoldable pub credstore_make : NewCred → List Bool → Fido m → Made × Fido m
  unfolding pubkey_len credstore_init make_at first_free
  credstore_make n mask g =
      let (ok, g1) = credstore_init g in
      let free = first_free fido_slots_max 0 (slots_bitmap m g1.slots) in
      let out = make_at free n mask (record g1 { mutating = true }) in
      if pubkey_len n.alg == 0
      then (make_error 2, g)
      else if not (slots_usable m g.slots)
      then (make_error 2, g)
      else if not ok
      then (make_error 2, g1)
      else out

  unfoldable pub credstore_get_pubkey : ℕ → ℕ → Fido m → Option (List ℕ) × Fido m
  unfolding pubkey_len on_chip of_length
  credstore_get_pubkey slot alg g =
      let want = pubkey_len alg in
      let (got, g1) = on_chip m (k.ecc_pubkey_read slot pubkey_max) g in
      if want == 0 || leb fido_slots_max slot then (none, g) else (of_length want got, g1)

  unfoldable pub credstore_erase_slot : ℕ → Fido m → ℕ × Fido m
  unfolding on_chip on_slots
  credstore_erase_slot slot g =
      let (erased, g1) = on_chip m (k.ecc_erase slot) (record g { mutating = true }) in
      let (rc, g2) = on_slots m (slots_erase sha256 m slot) g1 in
      if leb fido_slots_max slot
      then (1, g)
      else if not (slots_usable m g.slots)
      then (2, g)
      else if not erased
      then (2, done g1)
      else (if rc == 0 then 0 else 2, done g2)

  unfoldable pub credstore_is_mutating : Fido m → Bool
  credstore_is_mutating g = g.mutating

  lookup_slot : Lookup → Option ℕ
  lookup_slot (found idx meta) = some idx
  lookup_slot (lookup_error e) = none

  unfoldable pub credstore_lookup : List ℕ → Fido m → Option ℕ × Fido m
  unfolding credstore_init on_slots lookup_slot
  credstore_lookup id g =
      let (ok, g1) = credstore_init g in
      let (r, g2) = on_slots m (slots_lookup_by_credid m id) g1 in
      if not ok then (none, g1) else (lookup_slot r, g2)

  -- A credential is bound to the RP it was made for.
  of_rp : List ℕ → Lookup → Option (ℕ × SlotMeta)
  of_rp rp (found idx meta) = if bytes_eq meta.rp_id_hash rp then some (idx, meta) else none
  of_rp rp (lookup_error e) = none

  unfoldable pub credstore_find : List ℕ → List ℕ → Fido m → Option (ℕ × SlotMeta) × Fido m
  unfolding credstore_init on_slots of_rp
  credstore_find id rp g =
      let (ok, g1) = credstore_init g in
      let (r, g2) = on_slots m (slots_lookup_by_credid m id) g1 in
      if not ok then (none, g1) else (of_rp rp r, g2)

  unfoldable pub credstore_sign : ℕ → ℕ → List ℕ → Fido m → Signed × Fido m
  unfolding on_chip sign_ed25519 sign_es256
  credstore_sign h alg msg g =
      let (sig, g1) = on_chip m (k.ecc_eddsa_sign h msg 64) g in
      let (rs, g2) = on_chip m (k.ecc_ecdsa_sign h msg 64) g in
      if leb fido_slots_max h
      then (sign_error 1, g)
      else if alg == alg_ed25519
      then (sign_ed25519 sig, g1)
      else if alg == alg_es256
      then (sign_es256 rs, g2)
      else (sign_error 1, g)

  -- `none` for -2.
  unfoldable pub read_signcount : Fido m → Option ℕ × Fido m
  unfolding on_chip count_up
  read_signcount g =
      let (v, g1) = on_chip m (k.mcounter_get signcount_mcounter) g in (count_up v, g1)

  unfoldable pub credstore_signcount_peek : Fido m → Option ℕ × Fido m
  unfolding if_ok credstore_init read_signcount
  credstore_signcount_peek g = if_ok (credstore_init g) none read_signcount

  unfoldable pub credstore_signcount_next : Fido m → Option ℕ × Fido m
  unfolding if_ok credstore_init read_signcount on_chip
  credstore_signcount_next g =
      if_ok (credstore_init g) none
        (λ g1. if_ok (on_chip m (k.mcounter_update signcount_mcounter) g1) none read_signcount)

  -- True for the code 0.
  unfoldable pub credstore_factory_reset : Fido m → Bool × Fido m
  credstore_factory_reset g =
      let (rc, g1) = fido_state_wipe sha256 hmac m k (record g { initted = false }) in
      if not (rc == 0) then (false, g1) else (true, record g1 { initted = true })

  unfoldable pub credstore_ready : Fido m → Bool
  credstore_ready g = g.initted && slots_usable m g.slots && fido_pin_usable sha256 hmac m k g
