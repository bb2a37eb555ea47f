-- ===== src/Tropic/RecPair/Format.antt =====
-- The record format of rec_pair.c: `valid` accepts what `encode` wrote, and the fields read back.
use nixtropic.Base.{
  AreBytes, IsByte, All-get_or, All-take, All-drop, ℕ, ◌+◌, ◌≤◌, ◌<◌, List, ◌≡◌, refl, ◌∙◌, ap,
  true, arith, length, get_or, length-append, length-take, take, drop, take_append, drop_append,
  take_all, bytes_eq, bytes_eq_refl, u32_mod, of_be32-byte_of,
}
use nixtropic.Tropic.RecPair.{
  payload_of, RecPair, rec_hdr, rec_sum, rec_payload_max, gen_of, len_of, checksum, body, encode,
  valid, magic,
}

module _ (sha256 : List ℕ → List ℕ) where
  pub gen_of-encode :
      (p : RecPair) (gen : ℕ) (payload : List ℕ)
      → gen < u32_mod
      → gen_of (encode sha256 p gen payload) ≡ gen
  unfolding gen_of encode
  gen_of-encode p gen payload h = of_be32-byte_of gen h

  pub len_of-encode :
      (p : RecPair) (gen : ℕ) (payload : List ℕ)
      → length payload ≤ rec_payload_max
      → len_of (encode sha256 p gen payload) ≡ length payload
  unfolding len_of encode
  len_of-encode p gen payload h = omega arith

  module _ (sha256_length : (x : List ℕ) → length (sha256 x) ≡ 32) where
    length-checksum : (x : List ℕ) → length (checksum sha256 x) ≡ rec_sum
    unfolding checksum
    length-checksum x = omega (arith, length-take rec_sum (sha256 x), sha256_length x)

    pub length-encode :
        (p : RecPair) (gen : ℕ) (payload : List ℕ)
        → length (encode sha256 p gen payload) ≡ rec_hdr + length payload + rec_sum
    unfolding encode
    length-encode p gen payload = omega (
      arith,
      length-append (body sha256 p gen payload) (checksum sha256 (body sha256 p gen payload)),
      length-checksum (body sha256 p gen payload),
    )

    pub payload-encode :
        (p : RecPair) (gen : ℕ) (payload : List ℕ)
        → length payload ≤ rec_payload_max
        → take (length payload) (drop rec_hdr (encode sha256 p gen payload)) ≡ payload
    unfolding encode
    payload-encode p gen payload h =
        take_append (length payload) payload (checksum sha256 (body sha256 p gen payload)) refl

    take-body :
        (p : RecPair) (gen : ℕ) (payload : List ℕ)
        → take (rec_hdr + length payload) (encode sha256 p gen payload) ≡ body sha256 p gen payload
    unfolding encode
    take-body p gen payload =
        take_append _ (body sha256 p gen payload) (checksum sha256 (body sha256 p gen payload))
          (omega arith)

    drop-body :
        (p : RecPair) (gen : ℕ) (payload : List ℕ)
        → take rec_sum (drop (rec_hdr + length payload) (encode sha256 p gen payload))
          ≡ checksum sha256 (body sha256 p gen payload)
    unfolding encode
    drop-body p gen payload =
        ap (take rec_sum) (
          drop_append _ (body sha256 p gen payload) (checksum sha256 (body sha256 p gen payload))
            (omega arith))
        ∙ take_all rec_sum _ (omega (arith, length-checksum (body sha256 p gen payload)))

    header-encode :
        (p : RecPair) (gen : ℕ) (payload : List ℕ)
        → let r = encode sha256 p gen payload in
          (bytes_eq (take 4 r) magic ≡ true) × (get_or r 4 0 ≡ p.obj) × (get_or r 5 0 ≡ p.schema)
    unfolding encode
    header-encode p gen payload = (bytes_eq_refl magic, refl, refl)

    -- `valid` accepts every record that `encode` builds, for a generation and a payload in range.
    pub valid-encode :
        (p : RecPair) (gen : ℕ) (payload : List ℕ)
        → 0 < gen
        → gen < u32_mod
        → length payload ≤ rec_payload_max
        → valid sha256 p (encode sha256 p gen payload) ≡ true
    unfolding valid
    valid-encode p gen payload pos small h =
        rw
          (
            gen_of-encode p gen payload small,
            len_of-encode p gen payload h,
            take-body p gen payload,
            drop-body p gen payload,
            bytes_eq_refl (checksum sha256 (body sha256 p gen payload)),
          )
          (ground (arith, header-encode p gen payload, length-encode p gen payload))

    pub payload_of-encode :
        (p : RecPair) (gen : ℕ) (payload : List ℕ)
        → length payload ≤ rec_payload_max
        → payload_of (encode sha256 p gen payload) ≡ payload
    unfolding payload_of
    payload_of-encode p gen payload h =
        rw (len_of-encode p gen payload h) (payload-encode p gen payload h)

-- The fields of a record of bytes.
pub gen_of_bound : (r : List ℕ) → AreBytes r → gen_of r < u32_mod
unfolding gen_of
gen_of_bound r h =
    let b = λ (i : ℕ). All-get_or IsByte r i 0 h (omega arith) in omega (arith, b 6, b 7, b 8, b 9)

pub payload_of_bytes : (r : List ℕ) → AreBytes r → AreBytes (payload_of r)
unfolding payload_of
payload_of_bytes r h = All-take IsByte (len_of r) _ (All-drop IsByte rec_hdr r h)
