-- ===== src/FidoHid/Cose/Der/Content.antt =====
-- The content of a DER INTEGER of cose.c: its value, its length and its form.
use nixtropic.Base.{
  Bool, ◌||◌, true, All-get_or, ℕ, zero, suc, ◌+◌, ◌*◌, ◌/◌, ◌≤◌, ◌<◌, List, [], ◌∷◌, false, not,
  ◌&&◌, ◌≡◌, ◌≢◌, ◌⊎◌, inl, inr, refl, arith, ltb, ◌==◌, if_each, length, get_or, AreBytes, IsByte,
}
use Prim.Native.Nat.{bit_and}
use nixtropic.Base.Bits.{bit_and_flag}
use nixtropic.FidoHid.Cose.{strip_zeros, der_content}

-- The unsigned big-endian number of the bytes, after those that make `acc`.
unfoldable pub be_value : ℕ → List ℕ → ℕ
be_value acc [] = acc
be_value acc (b ∷ v) = be_value (acc * 256 + b) v

-- The content of an INTEGER is in two's complement: that of a number that is not negative has the
-- top bit of its first byte clear. DER allows the shortest content alone: a first byte 0 stands
-- only where the next byte has its top bit set, or as the number 0.
unfoldable pub is_shortest : List ℕ → Bool
is_shortest [] = false
is_shortest (b ∷ []) = ltb b 128
is_shortest (b ∷ c ∷ v) = ltb b 128 && (not (b == 0) || ltb 127 c)

be_value-strip : (n : ℕ) (v : List ℕ) → be_value 0 (strip_zeros n v) ≡ be_value 0 v
unfolding be_value strip_zeros
be_value-strip zero v = refl
be_value-strip (suc n) [] = refl
be_value-strip (suc n) (b ∷ v) =
    if_each (λ (x : List ℕ). be_value 0 x ≡ be_value 0 (b ∷ v)) (b == 0) _ _
      (λ e. let z : b ≡ 0 = ground (arith, e) in rw z (be_value-strip n v)) (λ e. refl)

pub be_value-content : (v : List ℕ) → be_value 0 (der_content v) ≡ be_value 0 v
unfolding der_content be_value
be_value-content v =
    let d = strip_zeros 31 v in
    if_each (λ (x : List ℕ). be_value 0 x ≡ be_value 0 v) _ (0 ∷ d) d (λ e. be_value-strip 31 v)
      (λ e. be_value-strip 31 v)

length-strip :
    (n : ℕ) (v : List ℕ)
    → n < length v
    → (0 < length (strip_zeros n v)) × (length (strip_zeros n v) ≤ length v)
unfolding strip_zeros
length-strip zero v h = (h, omega arith)
length-strip (suc n) [] h = absurd (omega arith)
length-strip (suc n) (b ∷ v) h =
    let rest = length-strip n v (omega arith) in
    if_each (λ (x : List ℕ). (0 < length x) × (length x ≤ suc (length v))) (b == 0) _ _
      (λ e. (rest.0, omega (arith, rest.1))) (λ e. (omega arith, omega arith))

pub length-content :
    (v : List ℕ) → length v ≡ 32 → (0 < length (der_content v)) × (length (der_content v) ≤ 33)
unfolding der_content
length-content v len =
    let (pos, small) = length-strip 31 v (omega arith) in
    let d = strip_zeros 31 v in
    if_each (λ (x : List ℕ). (0 < length x) × (length x ≤ 33)) _ (0 ∷ d) d
      (λ e. (omega arith, omega (arith, small))) (λ e. (pos, omega (arith, small)))

strip_first :
    (n : ℕ) (v : List ℕ)
    → length v ≡ suc n
    → (get_or (strip_zeros n v) 0 0 ≢ 0) ⊎ (length (strip_zeros n v) ≡ 1)
unfolding strip_zeros
strip_first zero v h = inr h
strip_first (suc n) [] h = absurd (omega arith)
strip_first (suc n) (b ∷ v) h =
    let rest = strip_first n v (omega arith) in
    if_each (λ (x : List ℕ). (get_or x 0 0 ≢ 0) ⊎ (length x ≡ 1)) (b == 0) _ _ (λ e. rest)
      (λ e. inl (ground (arith, e)))

strip_bytes : (n : ℕ) (v : List ℕ) → AreBytes v → AreBytes (strip_zeros n v)
unfolding strip_zeros
strip_bytes zero v h = h
strip_bytes (suc n) [] h = h
strip_bytes (suc n) (b ∷ v) h = if_each AreBytes (b == 0) _ _ (λ e. strip_bytes n v h.1) (λ e. h)

-- The test of the top bit.
top_set : (b : ℕ) → b < 256 → not (bit_and b 0x80 == 0) ≡ true → 127 < b
top_set b lt e =
    let flag = (bit_and_flag b lt).0 in
    let h : not (b / 128 * 128 == 0) ≡ true = rw flag at e in ground (arith, h)

top_clear : (b : ℕ) → b < 256 → not (bit_and b 0x80 == 0) ≡ false → b < 128
top_clear b lt e =
    let flag = (bit_and_flag b lt).0 in
    let h : not (b / 128 * 128 == 0) ≡ false = rw flag at e in ground (arith, h)

-- The content of an INTEGER built from 32 bytes is as DER wants it: it starts with a byte below 128,
-- and is one byte, or starts with a byte that is not 0, or its second byte is above 127.
der_content_minimal :
    (v : List ℕ)
    → AreBytes v
    → length v ≡ 32
    → let c = der_content v in
      (get_or c 0 0 < 128) × ((length c ≡ 1) ⊎ ((get_or c 0 0 ≢ 0) ⊎ (127 < get_or c 1 0)))
unfolding der_content
der_content_minimal v bytes len =
    let d = strip_zeros 31 v in
    let byte : get_or d 0 0 < 256 =
      All-get_or IsByte d 0 0 (strip_bytes 31 v bytes) (omega arith) in
    let P = λ (c : List ℕ).
      (get_or c 0 0 < 128) × ((length c ≡ 1) ⊎ ((get_or c 0 0 ≢ 0) ⊎ (127 < get_or c 1 0))) in
    if_each P (not (bit_and (get_or d 0 0) 0x80 == 0)) (0 ∷ d) d
      (λ e. (omega arith, inr (inr (top_set (get_or d 0 0) byte e))))
      (λ e. (
        top_clear (get_or d 0 0) byte e,
        elim (strip_first 31 v len) [ inl ne ↦ inr (inl ne) | inr one ↦ inl one ],
      ))

is_shortest-minimal :
    (c : List ℕ)
    → 0 < length c
    → get_or c 0 0 < 128
    → (length c ≡ 1) ⊎ ((get_or c 0 0 ≢ 0) ⊎ (127 < get_or c 1 0))
    → is_shortest c ≡ true
unfolding is_shortest
is_shortest-minimal [] some_byte low short = absurd (omega (arith, some_byte))
is_shortest-minimal (b ∷ []) some_byte low short = ground (arith, low)
is_shortest-minimal (b ∷ c ∷ v) some_byte low short = ground (arith, low, short)

pub is_shortest-der_content :
    (v : List ℕ) → AreBytes v → length v ≡ 32 → is_shortest (der_content v) ≡ true
is_shortest-der_content v bytes len =
    let (low, short) = der_content_minimal v bytes len in
    is_shortest-minimal (der_content v) (length-content v len).0 low short
