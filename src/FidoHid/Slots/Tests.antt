-- ===== src/FidoHid/Slots/Tests.antt =====
-- Runs of slots.c on concrete chips, and the properties at concrete inputs.
use mathlib.Core.Path.{subst}
use nixtropic.Base.{
  sym, ap, ◌∙◌, bytes_eq, zero, suc, ℕ, List, [], ◌∷◌, ◌≡◌, ◌≢◌, refl, true, false, not, ◌&&◌, some,
  arith, length, replicate, length-replicate, AreBytes, ◌<◌, ◌==◌, if◌then◌else◌, take, drop,
}
use nixtropic.Tropic.Rmem.{bytes, Rmem}
use nixtropic.Tropic.SampleChip.{
  Store, good_chip, byte_chip, byte_chip_bytes, hash, hash_length, update_self,
}
use nixtropic.Tropic.RecPair.{rec_pair_write, rec_pair_init, rec_pair_read, encode, valid}
use nixtropic.FidoHid.Slots.Bitmap.{word_of, bit}
use nixtropic.FidoHid.Slots.Meta.{NewCred, rmem_slot_for}
use nixtropic.FidoHid.Slots.Meta.{parse_cred, cred_bytes, cred_ok}
use nixtropic.FidoHid.Slots.Codec.{parse_cred-cred_bytes, IsNewCred, meta_of}
use nixtropic.FidoHid.Slots.Invariant.{IsSound}
use nixtropic.FidoHid.Slots.Boot.{slots_init_fresh-IsSound}
use nixtropic.FidoHid.Slots.Allocation.{slots_alloc_allocated, alloc_lookup}
use nixtropic.FidoHid.Slots.Session.{
  started, started-IsSound, run, run-IsSound, init, alloc, erase, reboot, lookup, init_fresh,
}
use nixtropic.FidoHid.Slots.{
  Slots, Services, slots_alloc, slots_init_fresh, allocated, slots_usable, slots_lookup_by_credid,
  found, cred_id_len, fido_slots_max,
}

threes : (n : ℕ) → AreBytes (replicate n 3)
threes zero = tt
threes (suc n) = (omega arith, threes n)

some-inj : {x y : List ℕ} → some x ≡ some y → x ≡ y
some-inj h = ground (arith, h)

services : (m : Rmem) → Services m
services m = record {
  random = λ n s. (some (replicate n 3), s);
  session_ensure = λ s. (true, s);
  random_keeps = λ n s j. refl;
  random_length = λ n s x h. ap length (sym (some-inj h)) ∙ length-replicate n 3;
  random_bytes = λ n s x h. subst AreBytes (some-inj h) (threes n);
  ensure_keeps = λ s j. refl;
}

abbrev blank : Store
blank j = []

abbrev resident : NewCred
resident = record {
  alg = 8;
  flags = 1;
  rp_id_hash = replicate 32 9;
  user_handle = 1 ∷ 2 ∷ [];
  created = 7;
}

abbrev fresh : Slots good_chip
fresh = (slots_init_fresh hash good_chip (started hash good_chip (services good_chip) blank)).1

fresh-IsSound : IsSound hash good_chip fresh
fresh-IsSound =
    slots_init_fresh-IsSound hash hash_length good_chip _
      (started-IsSound hash good_chip (services good_chip) hash_length blank)

abbrev after : Slots good_chip
after = (slots_alloc hash good_chip (services good_chip) resident [] fresh).1

abbrev new_id : List ℕ
new_id = 1 ∷ 0 ∷ replicate 16 3

allocated_first :
    slots_alloc hash good_chip (services good_chip) resident [] fresh ≡ (allocated 0 new_id, after)
unfolding slots_alloc slots_init_fresh rec_pair_write rec_pair_init rec_pair_read encode valid
    bytes_eq word_of services
allocated_first = refl

slots_alloc_allocated_example :
    (0 < fido_slots_max)
    × (bit fresh.bitmap 0 ≡ false)
    × (take 2 new_id ≡ 1 ∷ 0 ∷ [])
    × (length new_id ≡ cred_id_len)
    × (slots_usable good_chip after ≡ true)
    × ((j : ℕ)
        → j < fido_slots_max
        → bit after.bitmap j ≡ ((if j == 0 then true else bit fresh.bitmap j) && not (bit [] j)))
    × ((j : ℕ)
        → j ≢ 0
        → j ≢ 40
        → j ≢ rmem_slot_for 0
        → good_chip.holds after.chip j ≡ good_chip.holds fresh.chip j)
slots_alloc_allocated_example =
    slots_alloc_allocated hash hash_length good_chip (services good_chip) resident [] fresh after 0
      new_id fresh-IsSound allocated_first

alloc_lookup_example :
    (slots_lookup_by_credid good_chip new_id after).0 ≡ found 0 (meta_of resident (drop 2 new_id))
alloc_lookup_example =
    alloc_lookup hash hash_length good_chip (services good_chip) resident [] fresh after 0 new_id
      (λ slot r s h. update_self s slot r) fresh-IsSound refl (omega arith) refl allocated_first
      refl

-- The metadata slot of credential 2 cannot be written: the third allocation fails.
run-IsSound_example : IsSound hash byte_chip (
    run hash byte_chip
      (services byte_chip)
      (init
        ∷ init_fresh
        ∷ alloc resident []
        ∷ alloc resident []
        ∷ alloc resident []
        ∷ reboot
        ∷ init
        ∷ lookup new_id
        ∷ erase 0
        ∷ [])
      (started hash byte_chip (services byte_chip) blank))
run-IsSound_example =
    run-IsSound hash byte_chip (services byte_chip) hash_length byte_chip_bytes
      (init
        ∷ init_fresh
        ∷ alloc resident []
        ∷ alloc resident []
        ∷ alloc resident []
        ∷ reboot
        ∷ init
        ∷ lookup new_id
        ∷ erase 0
        ∷ [])
      (started hash byte_chip (services byte_chip) blank)
      (started-IsSound hash byte_chip (services byte_chip) hash_length blank)

resident-IsNewCred : IsNewCred resident (replicate 16 3)
resident-IsNewCred = record {
  hash_length = refl;
  nonce_length = refl;
  handle_length = omega arith;
  created_bound = omega arith;
}

parse_cred-cred_bytes_example :
    parse_cred (bytes (cred_bytes resident (replicate 16 3)))
    ≡ cred_ok (meta_of resident (replicate 16 3))
parse_cred-cred_bytes_example = parse_cred-cred_bytes resident (replicate 16 3) resident-IsNewCred
