-- ===== src/OpenPgp/Dec/Wrap.antt =====
-- generate and ecdh of pgp_dec.c, one after the other.
use mathlib.Core.Path.{subst}
use nixtropic.Base.{
  ==_iff, ℕ, List, ◌≡◌, refl, sym, arith, Option, none, some, ◌==◌, bytes_eq_refl, if_each,
}
use nixtropic.Tropic.Rmem.{Rmem}
use nixtropic.Tropic.Keys.{Keys}
use nixtropic.OpenPgp.State.Record.{DecRec}
use nixtropic.OpenPgp.State.Acknowledged.{dec_set_then_get}
use nixtropic.OpenPgp.State.{Pgp, openpgp_state_dec_get, openpgp_state_dec_set}
use nixtropic.OpenPgp.Dec.{
  Gcm, tag_warn, aad_of, tags_match, clamp, authenticate, decrypt, check_tag, after_auth, opened,
  open_wrap, seal_with, seal, keep_sealed, generate_with, pgp_dec_generate, pubkey_of,
  pgp_dec_read_pubkey, shared_of, ecdh_with, pgp_dec_ecdh, ◌>>=◌, key_zeros,
}

-- AES-GCM: what an encryption gives authenticates with its tag, and the second pass gives the text.
pub record Decrypts (gcm : Gcm) : Type 0 where
  pub authentic :
      (kek nonce aad text ct tag : List ℕ) (c : gcm.Ctx)
      → gcm.init_and_key kek ≡ some c
      → gcm.encrypt_message nonce aad text 16 c ≡ some (ct, tag)
      → (c1 : gcm.Ctx) × (c2 : gcm.Ctx) × (c3 : gcm.Ctx) × (c4 : gcm.Ctx) × (c5 : gcm.Ctx)
        × (gcm.init_message nonce c ≡ some c1)
        × (gcm.auth_header aad c1 ≡ some c2)
        × (gcm.auth_data ct c2 ≡ some c3)
        × (gcm.compute_tag 16 c3 ≡ (tag_warn tag, c4))
        × (gcm.init_message nonce c4 ≡ some c5)
        × (gcm.crypt_data ct c5 ≡ some text)

some-inj : {A : Type 0} {x y : A} → some x ≡ some y → x ≡ y
some-inj h = ground (arith, h)

>>=-eq-some :
    {A B : Type 0} (x : Option A) (f : A → Option B) {b : B}
    → (x >>= f) ≡ some b
    → (a : A) × (x ≡ some a) × (f a ≡ some b)
>>=-eq-some none f h = cc
>>=-eq-some (some a) f h = (a, refl, h)

module _ (gcm : Gcm) (works : Decrypts gcm) where
  -- What is sealed opens.
  abbrev Opens : List ℕ → List ℕ → List ℕ → DecRec → Type 0
  Opens kek priv pub_key r = (open_wrap gcm kek r ≡ (0, priv)) × (r.dec_pub ≡ pub_key)

  sealed-Opens :
      (kek priv pub_key nonce ct tag : List ℕ) (c : gcm.Ctx)
      → gcm.init_and_key kek ≡ some c
      → gcm.encrypt_message nonce (aad_of pub_key) priv 16 c ≡ some (ct, tag)
      → Opens kek priv pub_key (record { dec_pub = pub_key; nonce = nonce; ct = ct; tag = tag })
  unfolding open_wrap authenticate decrypt after_auth check_tag opened tags_match
  sealed-Opens kek priv pub_key nonce ct tag c e0 e1 =
      let (c1, c2, c3, c4, c5, i1, i2, i3, t, i5, text) =
        works.authentic kek nonce (aad_of pub_key) priv ct tag c e0 e1 in
      (rw (e0, i1, i2, i3, t, bytes_eq_refl tag, i5, text) refl, refl)

  open_wrap-seal_with :
      (kek priv pub_key nonce : List ℕ) (r : DecRec)
      → seal_with gcm kek priv pub_key nonce ≡ some r
      → Opens kek priv pub_key r
  unfolding seal_with
  open_wrap-seal_with kek priv pub_key nonce r h =
      let (c, e0, h1) = >>=-eq-some (gcm.init_and_key kek) _ h in
      let (x, e1, h2) = >>=-eq-some (gcm.encrypt_message nonce (aad_of pub_key) priv 16 c) _ h1 in
      subst (Opens kek priv pub_key) (some-inj h2)
        (sealed-Opens kek priv pub_key nonce x.0 x.1 c e0 e1)

module _ (sha256 : List ℕ → List ℕ) (hmac : List ℕ → List ℕ → List ℕ)
    (curve25519_scalarmult_basepoint : List ℕ → List ℕ)
    (curve25519_scalarmult : List ℕ → List ℕ → List ℕ) (gcm : Gcm) (works : Decrypts gcm) (m : Rmem)
    (k : Keys m) where
  -- A key pair is in the state, and the shared secrets are its.
  abbrev pub Shares : List ℕ → List ℕ → Pgp m → Type 0
  Shares kek pub_key g =
      (priv : List ℕ) × (curve25519_scalarmult_basepoint priv ≡ pub_key)
      × ((peer : List ℕ)
          → pgp_dec_ecdh sha256 hmac curve25519_scalarmult_basepoint curve25519_scalarmult gcm m k
              kek peer g
            ≡ (0, curve25519_scalarmult priv peer))
      × (pgp_dec_read_pubkey sha256 hmac curve25519_scalarmult_basepoint curve25519_scalarmult gcm m
            k g
          ≡ (0, pub_key))

  -- The state has the key, if the code is 0.
  abbrev AfterGenerate : List ℕ → (ℕ × List ℕ) × Pgp m → Type 0
  AfterGenerate kek x = x.0.0 ≡ 0 → Shares kek x.0.1 x.1

  stored-Shares :
      (kek priv : List ℕ) (r : DecRec) (g : Pgp m)
      → openpgp_state_dec_get m g ≡ some r
      → Opens gcm works kek priv (curve25519_scalarmult_basepoint priv) r
      → Shares kek r.dec_pub g
  unfolding pgp_dec_ecdh ecdh_with shared_of pgp_dec_read_pubkey pubkey_of
  stored-Shares kek priv r g e (opens, same) =
      (priv, sym same, λ peer. rw (e, opens) refl, rw e refl)

  keep_sealed-Shares :
      (kek priv : List ℕ) (x : Option DecRec) (g : Pgp m)
      → ((r : DecRec)
          → x ≡ some r
          → Opens gcm works kek priv (curve25519_scalarmult_basepoint priv) r)
      → AfterGenerate kek (
          keep_sealed sha256 hmac curve25519_scalarmult_basepoint curve25519_scalarmult gcm m k x g)
  unfolding keep_sealed
  keep_sealed-Shares kek priv none g sealed = λ ok. ground (arith, ok)
  keep_sealed-Shares kek priv (some r) g sealed =
      let (code, g1) = openpgp_state_dec_set sha256 m r g in
      if_each (λ (c : ℕ × List ℕ). c.0 ≡ 0 → Shares kek c.1 g1) (code == 0) (0, r.dec_pub)
        (2, key_zeros)
        (λ e ok.
          stored-Shares kek priv r g1 (dec_set_then_get sha256 m r g ((==_iff code 0).0 e))
            (sealed r refl))
        (λ e ok. ground (arith, ok))

  seal-Opens :
      (kek priv : List ℕ) (x : Option (List ℕ)) (r : DecRec)
      → (x >>= λ n. seal_with gcm kek priv (curve25519_scalarmult_basepoint priv) n) ≡ some r
      → Opens gcm works kek priv (curve25519_scalarmult_basepoint priv) r
  seal-Opens kek priv none r h = ground (arith, h)
  seal-Opens kek priv (some n) r h =
      open_wrap-seal_with gcm works kek priv (curve25519_scalarmult_basepoint priv) n r h

  generate_with-Shares :
      (kek : List ℕ) (x : Option (List ℕ)) (g : Pgp m)
      → AfterGenerate kek (
          generate_with sha256 hmac curve25519_scalarmult_basepoint curve25519_scalarmult gcm m k
            kek x g)
  unfolding generate_with seal
  generate_with-Shares kek none g = λ ok. ground (arith, ok)
  generate_with-Shares kek (some x) g =
      let priv = clamp x in
      let (nonce, s) = k.random 12 g.chip in
      keep_sealed-Shares kek priv _ (record g { chip = s }) (λ r e. seal-Opens kek priv nonce r e)

  -- After a generation of the decryption key that returns 0 under a key-encryption key, there is a
  -- private key whose public key was returned and is read back, and every ecdh under the same
  -- key-encryption key returns the product of it and the peer's key, as long as AES-GCM decrypts
  -- what it encrypted, whatever the chip answers.
  pub generate_then_ecdh :
      (kek : List ℕ) (g : Pgp m)
      → (pgp_dec_generate sha256 hmac curve25519_scalarmult_basepoint curve25519_scalarmult gcm m k
          kek g).0.0
        ≡ 0
      → let out =
          pgp_dec_generate sha256 hmac curve25519_scalarmult_basepoint curve25519_scalarmult gcm m k
            kek g in
        Shares kek out.0.1 out.1
  unfolding pgp_dec_generate
  generate_then_ecdh kek g =
      let (x, s) = k.random 32 g.chip in generate_with-Shares kek x (record g { chip = s })
