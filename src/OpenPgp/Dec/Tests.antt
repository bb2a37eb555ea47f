-- ===== src/OpenPgp/Dec/Tests.antt =====
-- A run of pgp_dec.c on a concrete chip.
use nixtropic.Base.{ℕ, List, [], ◌≡◌, refl, true, arith, Option, some, replicate, ap, sym, bytes_eq}
use nixtropic.Tropic.SampleChip.{hash}
use nixtropic.Tropic.SampleKeys.{key_chip, sample_keys}
use nixtropic.Tropic.RecPair.{rec_pair_read, rec_pair_write, encode, valid}
use nixtropic.OpenPgp.State.{Pgp, o3_pair, usable, commit, openpgp_state_dec_set}
use nixtropic.OpenPgp.State.Record.{o3_bytes, defaults, lc_operational, all_zero}
use nixtropic.OpenPgp.Dec.Wrap.{Decrypts, Shares, generate_then_ecdh}
use nixtropic.OpenPgp.Dec.{Gcm, tag_warn, pgp_dec_generate, seal, seal_with, clamp, aad_of}

abbrev mac : List ℕ → List ℕ → List ℕ
mac k x = replicate 32 9

-- A cipher that leaves the text as it is; its context is the key.
abbrev plain : Gcm
plain = record {
  Ctx = List ℕ;
  init_and_key = λ key. some key;
  encrypt_message = λ nonce aad text n c. some (text, replicate 16 7);
  init_message = λ nonce c. some c;
  auth_header = λ aad c. some c;
  auth_data = λ ct c. some c;
  compute_tag = λ n c. (tag_warn (replicate 16 7), c);
  crypt_data = λ ct c. some ct;
}

pair-inj :
    {a b x y : List ℕ}
    → ◌≡◌ {A = Option (List ℕ × List ℕ)} (some (a, b)) (some (x, y))
    → (a ≡ x) × (b ≡ y)
pair-inj h = (ground (arith, h), ground (arith, h))

plain-Decrypts : Decrypts plain
plain-Decrypts = record {
  authentic = λ kek nonce aad text ct tag c e0 e1.
      let (same, seven) = pair-inj e1 in
      (
        c,
        c,
        c,
        c,
        c,
        refl,
        refl,
        refl,
        ap (λ (x : List ℕ). (tag_warn x, c)) seven,
        refl,
        ap (λ (x : List ℕ). some x) (sym same),
      );
}

abbrev point : List ℕ → List ℕ
point priv = replicate 32 3

abbrev times : List ℕ → List ℕ → List ℕ
times priv peer = peer

-- An operational card.
abbrev card : Pgp key_chip
card = record {
  o3 = o3_pair;
  cur = defaults lc_operational;
  loaded = true;
  chip = record {
    mem = λ j. encode hash o3_pair 5 (o3_bytes (defaults lc_operational));
    ecc = λ j. [];
    ctr = λ i. 7;
  };
}

abbrev new_key : (ℕ × List ℕ) × Pgp key_chip
new_key = pgp_dec_generate hash mac point times plain key_chip sample_keys (replicate 32 1) card

generated_0 : new_key.0.0 ≡ 0
unfolding pgp_dec_generate seal seal_with clamp aad_of openpgp_state_dec_set commit usable all_zero
    rec_pair_write rec_pair_read encode valid bytes_eq o3_bytes defaults
generated_0 = refl

generate_then_ecdh_example :
    Shares hash mac point times plain plain-Decrypts key_chip sample_keys
      (replicate 32 1)
      new_key.0.1
      new_key.1
generate_then_ecdh_example =
    generate_then_ecdh hash mac point times plain plain-Decrypts key_chip sample_keys
      (replicate 32 1) card generated_0
