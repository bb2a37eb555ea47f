-- ===== src/FidoHid/Slots/Record.antt =====
-- The record O1 of slots.c: its payload reads back, and what the chip holds of it.
use nixtropic.Base.{
  ℕ, ◌≤◌, ◌<◌, List, [], ◌∷◌, Bool, true, false, ◌≡◌, ◌≢◌, refl, sym, arith, length, get_or,
  AreBytes, of_be32, byte_of, of_be32-byte_of, u32_mod,
}
use nixtropic.Tropic.Rmem.{Rmem}
use nixtropic.Tropic.RecPair.{gen_of, payload_of, valid, encode, rec_payload_max}
use nixtropic.Tropic.RecPair.Format.{gen_of-encode, payload_of-encode, valid-encode}
use nixtropic.Tropic.RecPair.Commit.{encode-ne-nil}
use nixtropic.Tropic.RecPair.Read.{Hold}
use nixtropic.FidoHid.Slots.Bitmap.{
  NoBitsFrom, word_of, word_of-bits_of, bits_of-word_of, word_of_bound, length-bits_of,
}
use nixtropic.FidoHid.Slots.{o1_pair, o1_encode, o1_bits, o1_bad, fido_slots_max}

-- What O1 can say: 32 bits, none above the FIDO slots, and two flags.
abbrev pub IsWf : List Bool → ℕ → ℕ → Type 0
IsWf bm uv bound = (length bm ≡ 32) × NoBitsFrom fido_slots_max bm × (uv ≤ 1) × (bound ≤ 1)

-- What is encoded is read back, and accepted.
pub o1_bits-encode :
    (bm : List Bool) (uv bound : ℕ) → length bm ≡ 32 → o1_bits (o1_encode bm uv bound) ≡ bm
unfolding o1_bits o1_encode
o1_bits-encode bm uv bound len =
    let lt : word_of bm < u32_mod = rw len at (word_of_bound bm) in
    rw (of_be32-byte_of (word_of bm) lt, sym len) (bits_of-word_of bm)

pub o1_bad-encode :
    (bm : List Bool) (uv bound : ℕ) → IsWf bm uv bound → o1_bad (o1_encode bm uv bound) ≡ false
unfolding o1_bad o1_encode
o1_bad-encode bm uv bound (len, high, a, b) =
    let e : o1_bits (o1_encode bm uv bound) ≡ bm = o1_bits-encode bm uv bound len in
    rw (e, high) (ground arith)

be32_bytes :
    (a b c d : ℕ)
    → a < 256
    → b < 256
    → c < 256
    → d < 256
    → let v = of_be32 a b c d in
      (byte_of v 3 ≡ a) × (byte_of v 2 ≡ b) × (byte_of v 1 ≡ c) × (byte_of v 0 ≡ d)
be32_bytes a b c d ha hb hc hd = (omega arith, omega arith, omega arith, omega arith)

-- What is accepted is the encoding of what is read from it.
pub o1_encode-bits :
    (buf : List ℕ)
    → AreBytes buf
    → o1_bad buf ≡ false
    → (IsWf (o1_bits buf) (get_or buf 4 0) (get_or buf 5 0))
      × (buf ≡ o1_encode (o1_bits buf) (get_or buf 4 0) (get_or buf 5 0))
unfolding o1_bad o1_encode o1_bits
o1_encode-bits (a ∷ b ∷ c ∷ d ∷ uv ∷ bound ∷ []) (ha, (hb, (hc, (hd, r)))) ok =
    let v = of_be32 a b c d in
    let e = word_of-bits_of 32 v (omega arith) in
    let (e3, e2, e1, e0) = be32_bytes a b c d ha hb hc hd in
    (
      (length-bits_of 32 v, ground (arith, ok), ground (arith, ok), ground (arith, ok)),
      rw (e, e3, e2, e1, e0) refl,
    )
o1_encode-bits _ h ok = ground (arith, ok)

module _ (sha256 : List ℕ → List ℕ) (m : Rmem) where
  -- A valid O1 record that says this.
  abbrev pub IsO1 : List ℕ → List Bool → ℕ → ℕ → Type 0
  IsO1 r bm uv bound =
      (r ≢ [])
      × (gen_of r < u32_mod)
      × (valid sha256 o1_pair r ≡ true)
      × (payload_of r ≡ o1_encode bm uv bound)

  -- Both copies on the chip are one O1 record that says this.
  abbrev pub Stored : List Bool → ℕ → ℕ → m.State → Type 0
  Stored bm uv bound s = (r : List ℕ) × IsO1 r bm uv bound × Hold m o1_pair r s

  pub encode-IsO1 :
      (sha256_length : (x : List ℕ) → length (sha256 x) ≡ 32) (gen : ℕ) (bm : List Bool)
      (uv bound : ℕ)
      → gen ≢ 0
      → gen < u32_mod
      → IsO1 (encode sha256 o1_pair gen (o1_encode bm uv bound)) bm uv bound
  unfolding o1_encode
  encode-IsO1 sha256_length gen bm uv bound ng lt =
      let p = o1_encode bm uv bound in
      let small : length p ≤ rec_payload_max = omega arith in
      (
        encode-ne-nil sha256 m o1_pair gen p,
        rw (gen_of-encode sha256 o1_pair gen p lt) lt,
        valid-encode sha256 sha256_length o1_pair gen p (omega arith) lt small,
        payload_of-encode sha256 sha256_length o1_pair gen p small,
      )
