-- ===== src/OpenPgp/Keys.antt =====
-- firmware/src/openpgp/pgp_keys.c and pgp_keys.h: the signature and authentication keys of the
-- OpenPGP card in the key slots of the chip. A code -n is n. The two diagnostic globals and NULL
-- pointers are not modelled.
use nixtropic.Base.{ℕ, List, [], Option, none, some, ◌==◌, length, if◌then◌else◌, replicate}
use nixtropic.Tropic.Rmem.{Rmem}
use nixtropic.Tropic.Keys.{Keys}
use nixtropic.Tropic.PinKernel.{if_ok}
use nixtropic.OpenPgp.Lifecycle.{sig_slot, aut_slot}

abbrev pub key_len : ℕ
key_len = 32

abbrev sig_len : ℕ
sig_len = 64

abbrev curve_ed25519 : ℕ
curve_ed25519 = 0

generated : Option (List ℕ) → ℕ × List ℕ
generated none = (2, [])
generated (some pk) = (0, pk)

present : Option (List ℕ) → ℕ × List ℕ
present none = (1, replicate key_len 0)
present (some pk) = (0, pk)

sign_done : Option (List ℕ) → ℕ × List ℕ
sign_done none = (2, [])
sign_done (some sig) = if length sig == sig_len then (0, sig) else (2, [])

module _ (m : Rmem) (k : Keys m) where
  -- The code and the public key; the slot is 29 or 31.
  unfoldable pub generate_in : ℕ → m.State → (ℕ × List ℕ) × m.State
  unfolding if_ok generated
  generate_in slot s =
      if_ok (k.ecc_erase slot s) (2, [])
        (λ s1.
          if_ok (k.ecc_generate slot curve_ed25519 s1) (2, [])
            (λ s2. let (pk, s3) = k.ecc_pubkey_read slot key_len s2 in (generated pk, s3)))

  unfoldable pub read_from : ℕ → m.State → (ℕ × List ℕ) × m.State
  unfolding present
  read_from slot s = let (pk, s1) = k.ecc_pubkey_read slot key_len s in (present pk, s1)

  unfoldable pub sign_in : ℕ → List ℕ → m.State → (ℕ × List ℕ) × m.State
  unfolding sign_done
  sign_in slot msg s =
      let (sig, s1) = k.ecc_eddsa_sign slot msg sig_len s in
      if length msg == 0 then ((3, []), s) else (sign_done sig, s1)

  unfoldable pub pgp_keys_generate_sig : m.State → (ℕ × List ℕ) × m.State
  unfolding generate_in
  pgp_keys_generate_sig s = generate_in sig_slot s

  unfoldable pub pgp_keys_read_sig_pubkey : m.State → (ℕ × List ℕ) × m.State
  unfolding read_from
  pgp_keys_read_sig_pubkey s = read_from sig_slot s

  unfoldable pub pgp_keys_sign_with_sig : List ℕ → m.State → (ℕ × List ℕ) × m.State
  unfolding sign_in
  pgp_keys_sign_with_sig msg s = sign_in sig_slot msg s

  unfoldable pub pgp_keys_generate_aut : m.State → (ℕ × List ℕ) × m.State
  unfolding generate_in
  pgp_keys_generate_aut s = generate_in aut_slot s

  unfoldable pub pgp_keys_read_aut_pubkey : m.State → (ℕ × List ℕ) × m.State
  unfolding read_from
  pgp_keys_read_aut_pubkey s = read_from aut_slot s

  unfoldable pub pgp_keys_sign_with_aut : List ℕ → m.State → (ℕ × List ℕ) × m.State
  unfolding sign_in
  pgp_keys_sign_with_aut msg s = sign_in aut_slot msg s
