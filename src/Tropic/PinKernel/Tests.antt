-- ===== src/Tropic/PinKernel/Tests.antt =====
-- pin_md_kernel.c at concrete inputs.
use nixtropic.Base.{
  ap, ℕ, ◌+◌, ◌%◌, ◌<◌, ◌≡◌, ◌≢◌, refl, List, false, Option, some, arith, replicate, bytes_eq,
}
use nixtropic.Tropic.SampleChip.{good_chip, hash}
use nixtropic.Tropic.RecPair.{RecPair, encode, valid, rec_pair_read, rec_pair_write}
use nixtropic.Tropic.PinKernel.{
  kdf, tag_equal, Layout, Binding, loaded, pmd_ok, World, as_loaded, well_formed, decode,
  binding_payload, load, store, if_some, if_ok,
}
use nixtropic.Tropic.PinKernel.Scheme.{attempt, verify_settled, verify_s, settle, settle_loaded}
use nixtropic.Tropic.PinKernel.Attempts.{Records, verify_spends}

abbrev layout : Layout
layout = record { base_a = 0; base_b = 0; ranges = 1; rounds = 2; mat_len = 32 }

-- A binding with both attempts left.
abbrev fresh : Binding
fresh = record {
  range = 0;
  retire_pending = 0;
  next = 0;
  pin_len = 4;
  tag = replicate 32 1;
  ci = replicate 64 0;
}

abbrev pair : RecPair
pair = record { slot_a = 33; slot_b = 43; obj = 3; schema = 2; uncertain = false }

abbrev Chip : Type 0
Chip = World hash good_chip

-- The binding stored under generation 5.
abbrev bound : Chip
bound = (pair, λ j. encode hash pair 5 (binding_payload fresh))

abbrev mac : List ℕ → List ℕ → List ℕ
mac k x = replicate 32 9

abbrev random : Chip → Option (List ℕ) × Chip
random w = (some (replicate 32 4), w)

abbrev destroy : ℕ → List ℕ → Chip → Option (List ℕ) × Chip
destroy slot bytes w = (some (replicate 32 5), w)

abbrev guess : List ℕ
guess = replicate 32 3

-- The stored tag is not that of the material: the PIN is wrong.
guess_refused :
    ((verify_s hash mac good_chip random destroy layout guess bound).0.code ≡ pmd_ok)
    × ((verify_s hash mac good_chip random destroy layout guess bound).0.correct ≡ false)
unfolding verify_s verify_settled settle settle_loaded attempt load store as_loaded well_formed
    decode binding_payload if_some if_ok rec_pair_read rec_pair_write encode valid bytes_eq
    tag_equal kdf
guess_refused = (refl, refl)

settled_pair : (settle hash mac good_chip random destroy layout bound).1.0 ≡ pair
unfolding verify_s verify_settled settle settle_loaded attempt load store as_loaded well_formed
    decode binding_payload if_some if_ok rec_pair_read rec_pair_write encode valid bytes_eq
    tag_equal kdf
settled_pair = refl

settled_distinct :
    (settle hash mac good_chip random destroy layout bound).1.0.slot_a
    ≢ (settle hash mac good_chip random destroy layout bound).1.0.slot_b
settled_distinct = λ e. absurd (
    omega (
      arith,
      ap (λ (p : RecPair). p.slot_a) settled_pair,
      ap (λ (p : RecPair). p.slot_b) settled_pair,
      e,
    ))

verify_spends_example :
    (b : Binding) × ((settle hash mac good_chip random destroy layout bound).0 ≡ loaded b)
    × (b.next < 2)
    × Records hash good_chip
        (settle hash mac good_chip random destroy layout bound).1.0
        (record b { next = (b.next + 1) % 256 })
        (verify_s hash mac good_chip random destroy layout guess bound).1.1
verify_spends_example =
    verify_spends hash mac good_chip random destroy (λ slot bytes w j. refl) layout guess bound
      settled_distinct guess_refused.0 guess_refused.1
