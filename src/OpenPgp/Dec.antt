-- ===== src/OpenPgp/Dec.antt =====
-- firmware/src/openpgp/pgp_dec.c and pgp_dec.h: the decryption key of the OpenPGP card, wrapped
-- under the PW1 key. AES-GCM, curve25519 and HMAC are trezor-crypto's: AES-GCM is an interface, the
-- others are parameters. A code -n is n. NULL pointers and the clearing of buffers are not
-- modelled, but for the results that a caller sees.
pub mod Wrap
mod Tests
use Prim.Native.Nat.{bit_and, bit_or}
use nixtropic.Base.{
  ℕ, ◌+◌, ◌%◌, ◌/◌, ◌*◌, List, [], ◌∷◌, ◌++◌, Bool, true, false, not, Option, none, some, ◌==◌,
  length, take, drop, get_or, bytes_eq, if◌then◌else◌, replicate,
}
use nixtropic.Tropic.Rmem.{Rmem}
use nixtropic.Tropic.Keys.{Keys}
use nixtropic.OpenPgp.State.Record.{DecRec}
use nixtropic.OpenPgp.State.{Pgp, openpgp_state_dec_get, openpgp_state_dec_set}

-- "nixtropic/openpgp/dec-kek/v1"
abbrev kek_label : List ℕ
kek_label =
    0x6e ∷ 0x69 ∷ 0x78 ∷ 0x74 ∷ 0x72 ∷ 0x6f ∷ 0x70 ∷ 0x69 ∷ 0x63 ∷ 0x2f ∷ 0x6f ∷ 0x70 ∷ 0x65 ∷ 0x6e
    ∷ 0x70 ∷ 0x67 ∷ 0x70 ∷ 0x2f ∷ 0x64 ∷ 0x65 ∷ 0x63 ∷ 0x2d ∷ 0x6b ∷ 0x65 ∷ 0x6b ∷ 0x2f ∷ 0x76
    ∷ 0x31 ∷ []

-- The answers of gcm_compute_tag: RETURN_GOOD, RETURN_WARN and RETURN_ERROR.
pub data TagAnswer : Type 0 where
  tag_good tag_warn : List ℕ → TagAnswer
  tag_failed : TagAnswer

-- AES-GCM; `none` for a code that is not RETURN_GOOD.
pub record Gcm : Type 1 where
  pub Ctx : Type 0
  pub init_and_key : List ℕ → Option Ctx
  -- The nonce, the header, the text and the length of the tag; the ciphertext and the tag.
  pub encrypt_message : List ℕ → List ℕ → List ℕ → ℕ → Ctx → Option (List ℕ × List ℕ)
  pub init_message : List ℕ → Ctx → Option Ctx
  pub auth_header : List ℕ → Ctx → Option Ctx
  pub auth_data : List ℕ → Ctx → Option Ctx
  pub compute_tag : ℕ → Ctx → TagAnswer × Ctx
  pub crypt_data : List ℕ → Ctx → Option (List ℕ)

-- "NXDW", the object and the schema of O3, and the public key.
unfoldable pub aad_of : List ℕ → List ℕ
aad_of pub_key = 0x4e ∷ 0x58 ∷ 0x44 ∷ 0x57 ∷ 3 ∷ 2 ∷ pub_key

-- The comparison in constant time.
unfoldable pub tags_match : List ℕ → List ℕ → Bool
tags_match a b = bytes_eq a b

-- RFC 7748: the first byte and the last one of the 32.
unfoldable pub clamp : List ℕ → List ℕ
clamp [] = []
clamp (a ∷ r) = bit_and a 248 ∷ (take 30 r ++ bit_or (bit_and (get_or r 30 0) 127) 64 ∷ [])

abbrev key_zeros : List ℕ
key_zeros = replicate 32 0

infixl 5 ◌>>=◌
abbrev pub ◌>>=◌ : {A B : Type 0} → Option A → (A → Option B) → Option B
none >>= f = none
some a >>= f = f a

-- What the two passes of open_wrap and its result are made of.
module _ (gcm : Gcm) where
  -- The first pass authenticates the header and the ciphertext.
  unfoldable pub authenticate : List ℕ → DecRec → Option gcm.Ctx
  unfolding aad_of
  authenticate kek r = do
    c ← gcm.init_and_key kek
    c1 ← gcm.init_message r.nonce c
    c2 ← gcm.auth_header (aad_of r.dec_pub) c1
    gcm.auth_data r.ct c2

  -- The second pass decrypts the same bytes.
  unfoldable pub decrypt : gcm.Ctx → DecRec → Option (List ℕ)
  decrypt c r = do c1 ← gcm.init_message r.nonce c; gcm.crypt_data r.ct c1

  opened : Option (List ℕ) → ℕ × List ℕ
  opened none = (2, key_zeros)
  opened (some priv) = (0, priv)

  -- Only RETURN_WARN, and then only the right tag, lets the second pass run.
  check_tag : TagAnswer × gcm.Ctx → DecRec → ℕ × List ℕ
  unfolding opened decrypt tags_match
  check_tag (tag_warn tag, c) r =
      if not (tags_match tag r.tag) then (5, key_zeros) else opened (decrypt c r)
  check_tag (tag_good tag, c) r = (2, key_zeros)
  check_tag (tag_failed, c) r = (2, key_zeros)

  after_auth : Option gcm.Ctx → DecRec → ℕ × List ℕ
  unfolding check_tag
  after_auth none r = (2, key_zeros)
  after_auth (some c) r = check_tag (gcm.compute_tag 16 c) r

  -- The code and the private key.
  unfoldable pub open_wrap : List ℕ → DecRec → ℕ × List ℕ
  unfolding after_auth authenticate
  open_wrap kek r = after_auth (authenticate kek r) r

  -- The record under the nonce.
  unfoldable pub seal_with : List ℕ → List ℕ → List ℕ → List ℕ → Option DecRec
  unfolding aad_of
  seal_with kek priv pub_key nonce = do
    c ← gcm.init_and_key kek
    (ct, tag) ← gcm.encrypt_message nonce (aad_of pub_key) priv 16 c
    some (record { dec_pub = pub_key; nonce = nonce; ct = ct; tag = tag })

module _ (sha256 : List ℕ → List ℕ) (hmac : List ℕ → List ℕ → List ℕ)
    (curve25519_scalarmult_basepoint : List ℕ → List ℕ)
    (curve25519_scalarmult : List ℕ → List ℕ → List ℕ) (gcm : Gcm) (m : Rmem) (k : Keys m) where
  unfoldable pub pgp_dec_kek : List ℕ → List ℕ
  pgp_dec_kek key = hmac key kek_label

  -- The record, if it is sealed.
  unfoldable pub seal : List ℕ → List ℕ → List ℕ → m.State → Option DecRec × m.State
  unfolding seal_with
  seal kek priv pub_key s =
      let (nonce, s1) = k.random 12 s in (nonce >>= λ n. seal_with gcm kek priv pub_key n, s1)

  -- After the seal: the record goes into O3.
  keep_sealed : Option DecRec → Pgp m → (ℕ × List ℕ) × Pgp m
  keep_sealed none g = ((2, key_zeros), g)
  keep_sealed (some r) g =
      let (code, g1) = openpgp_state_dec_set sha256 m r g in
      (if code == 0 then (0, r.dec_pub) else (2, key_zeros), g1)

  generate_with : List ℕ → Option (List ℕ) → Pgp m → (ℕ × List ℕ) × Pgp m
  unfolding seal keep_sealed clamp
  generate_with kek none g = ((2, key_zeros), g)
  generate_with kek (some x) g =
      let priv = clamp x in
      let (r, s) = seal kek priv (curve25519_scalarmult_basepoint priv) g.chip in
      keep_sealed r (record g { chip = s })

  -- The code and the public key.
  unfoldable pub pgp_dec_generate : List ℕ → Pgp m → (ℕ × List ℕ) × Pgp m
  unfolding generate_with
  pgp_dec_generate kek g =
      let (x, s) = k.random 32 g.chip in generate_with kek x (record g { chip = s })

  pubkey_of : Option DecRec → ℕ × List ℕ
  pubkey_of none = (1, key_zeros)
  pubkey_of (some r) = (0, r.dec_pub)

  unfoldable pub pgp_dec_read_pubkey : Pgp m → ℕ × List ℕ
  unfolding pubkey_of
  pgp_dec_read_pubkey g = pubkey_of (openpgp_state_dec_get m g)

  shared_of : ℕ × List ℕ → List ℕ → ℕ × List ℕ
  shared_of (code, priv) peer =
      if code == 0 then (0, curve25519_scalarmult priv peer) else (code, key_zeros)

  ecdh_with : List ℕ → List ℕ → Option DecRec → ℕ × List ℕ
  unfolding shared_of open_wrap
  ecdh_with kek peer none = (1, key_zeros)
  ecdh_with kek peer (some r) = shared_of (open_wrap gcm kek r) peer

  -- The code and the shared secret.
  unfoldable pub pgp_dec_ecdh : List ℕ → List ℕ → Pgp m → ℕ × List ℕ
  unfolding ecdh_with
  pgp_dec_ecdh kek peer g = ecdh_with kek peer (openpgp_state_dec_get m g)
