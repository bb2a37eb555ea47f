-- ===== src/FidoHid/Credstore/Tests.antt =====
-- Runs of credstore.c and fido_state.c on a concrete chip, and the properties at concrete inputs.
use nixtropic.Base.{
  inr, bytes_eq, ℕ, List, [], ◌∷◌, ◌≡◌, ◌<◌, ◌≤◌, ◌⊎◌, inl, refl, true, false, arith, some,
  replicate,
}
use nixtropic.Tropic.SampleChip.{hash}
use nixtropic.Tropic.SampleKeys.{Vault, key_chip, sample_keys, stuck_keys}
use nixtropic.FidoHid.Slots.Bitmap.{bit, word_of}
use nixtropic.FidoHid.Slots.Meta.{NewCred}
use nixtropic.FidoHid.Slots.{
  o1_pair, slots_usable, slots_bitmap, probe_empty, slots_wipe_meta, wipe_from, slots_init_fresh,
}
use nixtropic.Tropic.RecPair.{rec_pair_init, encode, valid}
use nixtropic.Tropic.PinKernel.{if_ok, if_some, is_ok, valid_layout}
use nixtropic.Tropic.PinKernel.Scheme.{retire, retire_from}
use nixtropic.Tropic.PinKernel.Api.{pin_md_kernel_clear, retire_ranges, clear_record, is_pmd_ok}
use nixtropic.Tropic.PinKernel.OnChip.{world_random, world_mac}
use nixtropic.FidoHid.Store.{
  on_chip, on_slots, erase_keys, fido_pin_clear, kernel_clear, on_o2, start_count, Fido, o2_pair,
  fido_state_wipe,
}
use nixtropic.FidoHid.Store.Spared.{wipe_spares_card}
use nixtropic.FidoHid.Store.Steps.{HasPairs}
use nixtropic.FidoHid.Store.Wipe.{IsWiped, wipe_complete, wipe_stopped}
use nixtropic.FidoHid.Credstore.Isolation.{make_keeps_keys}
use nixtropic.FidoHid.Credstore.Count.{signcount_next_grows}
use nixtropic.FidoHid.Credstore.{
  fido_slots_max, credstore_init, credstore_make, credstore_signcount_next, read_signcount,
}

abbrev mac : List ℕ → List ℕ → List ℕ
mac k x = replicate 32 9

abbrev empty_chip : Vault
empty_chip = record { mem = λ j. []; ecc = λ j. []; ctr = λ i. 7 }

-- The start of the program.
abbrev started : Fido key_chip
started = record {
  slots = record {
    o1 = o1_pair;
    initted = false;
    bitmap = replicate 32 false;
    force_uv = 0;
    pin_bound = 0;
    chip = empty_chip;
  };
  o2 = o2_pair;
  initted = false;
  mutating = false;
}

-- Something in every R-memory slot and every key slot.
abbrev used : Fido key_chip
used = record started {
  slots = record started.slots {
    chip = record { mem = λ j. 1 ∷ 2 ∷ []; ecc = λ j. 3 ∷ []; ctr = λ i. 7 };
  };
}

abbrev emptied : ℕ × Fido key_chip
emptied = fido_state_wipe hash mac key_chip sample_keys used

used-HasPairs : HasPairs hash mac key_chip sample_keys used
used-HasPairs = record { first = inl refl; second = inl refl }

started-HasPairs : HasPairs hash mac key_chip sample_keys started
started-HasPairs = record { first = inl refl; second = inl refl }

wipe_works : emptied.0 ≡ 0
unfolding fido_state_wipe if_ok if_some on_chip on_slots erase_keys slots_wipe_meta wipe_from
    probe_empty fido_pin_clear kernel_clear on_o2 pin_md_kernel_clear retire_ranges retire
    retire_from world_random world_mac clear_record is_ok is_pmd_ok start_count slots_init_fresh
    rec_pair_init encode valid bytes_eq word_of valid_layout
wipe_works = refl

wipe_complete_example : IsWiped hash mac key_chip sample_keys emptied.1
wipe_complete_example = wipe_complete hash mac key_chip sample_keys used used-HasPairs wipe_works

-- The key in slot 3 cannot be erased.
abbrev refused : ℕ × Fido key_chip
refused = fido_state_wipe hash mac key_chip stuck_keys started

refused_1 : refused.0 ≡ 1
unfolding fido_state_wipe if_ok on_chip erase_keys
refused_1 = refl

wipe_stopped_example : key_chip.holds refused.1.slots.chip 40 ≡ key_chip.holds started.slots.chip 40
wipe_stopped_example =
    wipe_stopped hash mac key_chip stuck_keys started
      (record { first = inl refl; second = inl refl }) (omega (arith, refused_1))
      (omega (arith, refused_1)) 40 (inr refl)

abbrev resident : NewCred
resident = record {
  alg = 8;
  flags = 1;
  rp_id_hash = replicate 32 9;
  user_handle = 1 ∷ 2 ∷ [];
  created = 7;
}

-- Credential 0 is registered, and its key is in slot 0.
abbrev one_credential : Fido key_chip
one_credential = record {
  slots = record {
    o1 = o1_pair;
    initted = true;
    bitmap = true ∷ replicate 31 false;
    force_uv = 0;
    pin_bound = 0;
    chip = record { mem = λ j. []; ecc = λ j. replicate 32 8; ctr = λ i. 7 };
  };
  o2 = o2_pair;
  initted = true;
  mutating = false;
}

credential_0 : bit (slots_bitmap key_chip one_credential.slots) 0 ≡ true
unfolding slots_bitmap slots_usable
credential_0 = refl

make_keeps_keys_example :
    let s =
      (credstore_make hash mac key_chip sample_keys resident [] one_credential).1.slots.chip in
    (sample_keys.key s 0 ≡ replicate 32 8) × ((i : ℕ) → sample_keys.count s i ≡ 7)
make_keeps_keys_example =
    make_keeps_keys hash mac key_chip sample_keys resident [] one_credential 0 credential_0

abbrev counted : Fido key_chip
counted = (credstore_signcount_next hash mac key_chip sample_keys one_credential).1

first_count :
    (credstore_signcount_next hash mac key_chip sample_keys one_credential).0 ≡ some 0xfffffff8
unfolding credstore_signcount_next credstore_init if_ok on_chip read_signcount
first_count = refl

second_count : (credstore_signcount_next hash mac key_chip sample_keys counted).0 ≡ some 0xfffffff9
unfolding credstore_signcount_next credstore_init if_ok on_chip read_signcount
second_count = refl

counted_initted : counted.initted ≡ true
unfolding credstore_signcount_next credstore_init if_ok on_chip read_signcount
counted_initted = refl

signcount_next_grows_example : 0xfffffff8 < 0xfffffff9
signcount_next_grows_example =
    signcount_next_grows hash mac key_chip sample_keys one_credential counted 0xfffffff8 0xfffffff9
      refl counted_initted first_count (omega arith) second_count

-- The keys of the card are in the slots from 29 on.
wipe_spares_card_example :
    let s = (fido_state_wipe hash mac key_chip sample_keys one_credential).1.slots.chip in
    ((j : ℕ) → fido_slots_max ≤ j → sample_keys.key s j ≡ replicate 32 8)
    × ((i : ℕ) → fido_slots_max < i → (i < 40) ⊎ (42 < i) → key_chip.holds s i ≡ [])
wipe_spares_card_example =
    wipe_spares_card hash mac key_chip sample_keys one_credential
      (record { first = inl refl; second = inl refl })
