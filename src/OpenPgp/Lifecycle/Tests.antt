-- ===== src/OpenPgp/Lifecycle/Tests.antt =====
-- Runs of pgp_lifecycle.c on a concrete chip, and the properties at concrete inputs.
use nixtropic.Base.{
  ℕ, List, [], ◌∷◌, ◌≡◌, ◌≢◌, ◌<◌, ◌⊎◌, inl, refl, false, arith, replicate, bytes_eq,
}
use nixtropic.Tropic.SampleChip.{hash}
use nixtropic.Tropic.SampleKeys.{key_chip, sample_keys}
use nixtropic.Tropic.RecPair.{rec_pair_init, encode, valid}
use nixtropic.Tropic.PinKernel.{if_ok, if_some, is_ok, valid_layout}
use nixtropic.Tropic.PinKernel.OnChip.{world_random, world_mac}
use nixtropic.Tropic.PinKernel.Scheme.{retire, retire_from}
use nixtropic.Tropic.PinKernel.Api.{pin_md_kernel_clear, retire_ranges, clear_record, is_pmd_ok}
use nixtropic.OpenPgp.State.{o3_pair, openpgp_state_clear, openpgp_state_init}
use nixtropic.OpenPgp.State.Record.{zeros, o3_bytes, defaults}
use nixtropic.OpenPgp.Pin.{
  Card, o4_pair, o5_pair, o6_pair, pair_of, with_pair, pin_layout, clear_pin, clear_from,
  pgp_pin_clear_all, on_pgp,
}
use nixtropic.OpenPgp.Pin.Clear.{HasPins}
use nixtropic.OpenPgp.Lifecycle.Steps.{HasCard}
use nixtropic.OpenPgp.Lifecycle.Wipe.{IsErased, terminate_complete, terminate_spares_fido}
use nixtropic.OpenPgp.Lifecycle.{
  pgp_lifecycle_terminate, pgp_lifecycle_wipe, wiped_first, drop_keys, erase_each, on_state,
}

abbrev mac : List ℕ → List ℕ → List ℕ
mac k x = replicate 32 9

-- A card with three keys and something in every slot, at the start of the program.
abbrev card : Card key_chip
card = record {
  pgp = record {
    o3 = o3_pair;
    cur = zeros 0;
    loaded = false;
    chip = record { mem = λ j. 1 ∷ 2 ∷ []; ecc = λ j. replicate 32 8; ctr = λ i. 7 };
  };
  o4 = o4_pair;
  o5 = o5_pair;
  o6 = o6_pair;
  boot_tries = 0;
}

card-HasPins : HasPins hash mac key_chip sample_keys card
unfolding pair_of
card-HasPins v le = (ground (arith, le), ground (arith, le))

card-HasCard : HasCard hash mac key_chip sample_keys card
card-HasCard = record { state = inl refl; pins = card-HasPins }

abbrev ended : ℕ × Card key_chip
ended = pgp_lifecycle_terminate hash mac key_chip sample_keys card

terminate_works : ended.0 ≡ 0
unfolding pgp_lifecycle_terminate pgp_lifecycle_wipe wiped_first drop_keys erase_each on_state
    on_pgp openpgp_state_clear openpgp_state_init pgp_pin_clear_all clear_from clear_pin pair_of
    with_pair pin_layout if_ok if_some pin_md_kernel_clear retire_ranges retire retire_from
    world_random world_mac clear_record is_ok is_pmd_ok rec_pair_init encode valid bytes_eq
    valid_layout o3_bytes defaults
terminate_works = refl

terminate_complete_example : IsErased hash mac key_chip sample_keys ended.1
terminate_complete_example =
    terminate_complete hash mac key_chip sample_keys card card-HasCard terminate_works

terminate_spares_fido_example :
    let s = ended.1.pgp.chip in
    ((j : ℕ) → j < 29 → sample_keys.key s j ≡ replicate 32 8)
    × ((c : ℕ) → sample_keys.count s c ≡ 7)
    × ((i : ℕ) → i ≢ 33 → i ≢ 43 → (i < 50) ⊎ (55 < i) → key_chip.holds s i ≡ 1 ∷ 2 ∷ [])
terminate_spares_fido_example =
    terminate_spares_fido hash mac key_chip sample_keys card card-HasCard
