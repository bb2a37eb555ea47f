-- ===== src/FidoHid/Slots/Bitmap.antt =====
-- The allocation bitmap of firmware/src/fido_hid/slots.c: a uint32_t as the list of its 32 bits,
-- the lowest first, and the word that be32_store writes and be32_load reads.
use native.Mathlib.Nat.{two-pow-succ}
use nixtropic.Base.{
  ◌≢◌, take, inl, inr, sym, drop, Bool-cases, Bool-cases, drop, ℕ, zero, suc, ◌+◌, ◌*◌, ◌/◌, ◌%◌,
  ◌^◌, ◌<◌, List, [], ◌∷◌, Bool, true, false, not, ◌&&◌, ◌||◌, ◌==◌, if◌then◌else◌, get_or, length,
  Option, none, some, ◌≡◌, refl, ap, arith,
}

abbrev pub bit : List Bool → ℕ → Bool
bit bm i = get_or bm i false

-- bm | 1u << i and bm & ~(1u << i)
unfoldable pub put_bit : List Bool → ℕ → Bool → List Bool
put_bit [] i x = []
put_bit (b ∷ bm) zero x = x ∷ bm
put_bit (b ∷ bm) (suc i) x = b ∷ put_bit bm i x

-- bm & ~mask, where `mask` has no bits above its length
unfoldable pub and_not : List Bool → List Bool → List Bool
and_not [] mask = []
and_not (b ∷ bm) [] = b ∷ bm
and_not (b ∷ bm) (k ∷ mask) = (b && not k) ∷ and_not bm mask

unfoldable pub any_bit : List Bool → Bool
any_bit [] = false
any_bit (b ∷ bm) = b || any_bit bm

-- The number of set bits.
unfoldable pub count_bits : List Bool → ℕ
count_bits [] = 0
count_bits (true ∷ bm) = suc (count_bits bm)
count_bits (false ∷ bm) = count_bits bm

unfoldable pub same_bits : List Bool → List Bool → Bool
same_bits [] [] = true
same_bits (true ∷ a) (true ∷ b) = same_bits a b
same_bits (false ∷ a) (false ∷ b) = same_bits a b
same_bits _ _ = false

-- The first clear bit of the n bits from i on.
unfoldable pub first_free : ℕ → ℕ → List Bool → Option ℕ
first_free zero i bm = none
first_free (suc n) i bm = if bit bm i then first_free n (suc i) bm else some i

unfoldable pub word_of : List Bool → ℕ
word_of [] = 0
word_of (true ∷ bm) = 1 + 2 * word_of bm
word_of (false ∷ bm) = 2 * word_of bm

-- The n lowest bits of a word.
unfoldable pub bits_of : ℕ → ℕ → List Bool
bits_of zero v = []
bits_of (suc n) v = (v % 2 == 1) ∷ bits_of n (v / 2)

pub bits_of-word_of : (bm : List Bool) → bits_of (length bm) (word_of bm) ≡ bm
unfolding bits_of word_of
bits_of-word_of [] = refl
bits_of-word_of (true ∷ bm) =
    let e : (1 + 2 * word_of bm) / 2 ≡ word_of bm = omega arith in
    let f : ((1 + 2 * word_of bm) % 2 == 1) ≡ true = ground arith in
    rw (e, f) (ap (◌∷◌ true) (bits_of-word_of bm))
bits_of-word_of (false ∷ bm) =
    let e : (2 * word_of bm) / 2 ≡ word_of bm = omega arith in
    let f : ((2 * word_of bm) % 2 == 1) ≡ false = ground arith in
    rw (e, f) (ap (◌∷◌ false) (bits_of-word_of bm))

pow_suc : (n : ℕ) → 2 ^ suc n ≡ 2 * 2 ^ n
pow_suc n = omega (arith, two-pow-succ n)

pub word_of_bound : (bm : List Bool) → word_of bm < 2 ^ length bm
unfolding word_of
word_of_bound [] = omega arith
word_of_bound (true ∷ bm) = omega (arith, word_of_bound bm, pow_suc (length bm))
word_of_bound (false ∷ bm) = omega (arith, word_of_bound bm, pow_suc (length bm))

pub length-bits_of : (n v : ℕ) → length (bits_of n v) ≡ n
unfolding bits_of
length-bits_of zero v = refl
length-bits_of (suc n) v = ap suc (length-bits_of n (v / 2))

pub length-put_bit : (bm : List Bool) (i : ℕ) (x : Bool) → length (put_bit bm i x) ≡ length bm
unfolding put_bit
length-put_bit [] i x = refl
length-put_bit (b ∷ bm) zero x = refl
length-put_bit (b ∷ bm) (suc i) x = ap suc (length-put_bit bm i x)

pub length-and_not : (bm mask : List Bool) → length (and_not bm mask) ≡ length bm
unfolding and_not
length-and_not [] mask = refl
length-and_not (b ∷ bm) [] = refl
length-and_not (b ∷ bm) (k ∷ mask) = ap suc (length-and_not bm mask)

pub same_bits→eq : (a b : List Bool) → same_bits a b ≡ true → a ≡ b
unfolding same_bits
same_bits→eq [] [] h = refl
same_bits→eq [] (y ∷ b) h = ground arith
same_bits→eq (true ∷ a) [] h = ground arith
same_bits→eq (false ∷ a) [] h = ground arith
same_bits→eq (true ∷ a) (true ∷ b) h = ap (◌∷◌ true) (same_bits→eq a b h)
same_bits→eq (true ∷ a) (false ∷ b) h = ground arith
same_bits→eq (false ∷ a) (true ∷ b) h = ground arith
same_bits→eq (false ∷ a) (false ∷ b) h = ap (◌∷◌ false) (same_bits→eq a b h)

-- No bit from k on: kept when a bit is cleared, a lower one set, or any cleared by a mask.
abbrev pub NoBitsFrom : ℕ → List Bool → Type 0
NoBitsFrom k bm = any_bit (drop k bm) ≡ false

pub put_bit-clear-NoBitsFrom :
    (k : ℕ) (bm : List Bool) (i : ℕ) → NoBitsFrom k bm → NoBitsFrom k (put_bit bm i false)
unfolding put_bit any_bit
put_bit-clear-NoBitsFrom zero [] i h = h
put_bit-clear-NoBitsFrom zero (b ∷ bm) zero h = ground (arith, h)
put_bit-clear-NoBitsFrom zero (b ∷ bm) (suc i) h =
    ground (arith, put_bit-clear-NoBitsFrom zero bm i)
put_bit-clear-NoBitsFrom (suc k) [] i h = h
put_bit-clear-NoBitsFrom (suc k) (b ∷ bm) zero h = h
put_bit-clear-NoBitsFrom (suc k) (b ∷ bm) (suc i) h = put_bit-clear-NoBitsFrom k bm i h

pub put_bit-set-NoBitsFrom :
    (k : ℕ) (bm : List Bool) (i : ℕ) → i < k → NoBitsFrom k bm → NoBitsFrom k (put_bit bm i true)
unfolding put_bit
put_bit-set-NoBitsFrom zero bm i lt h = absurd (omega arith)
put_bit-set-NoBitsFrom (suc k) [] i lt h = h
put_bit-set-NoBitsFrom (suc k) (b ∷ bm) zero lt h = h
put_bit-set-NoBitsFrom (suc k) (b ∷ bm) (suc i) lt h = put_bit-set-NoBitsFrom k bm i (omega arith) h

pub and_not-NoBitsFrom :
    (k : ℕ) (bm mask : List Bool) → NoBitsFrom k bm → NoBitsFrom k (and_not bm mask)
unfolding and_not any_bit
and_not-NoBitsFrom k [] mask h = h
and_not-NoBitsFrom k (b ∷ bm) [] h = h
and_not-NoBitsFrom zero (b ∷ bm) (x ∷ mask) h = ground (arith, and_not-NoBitsFrom zero bm mask)
and_not-NoBitsFrom (suc k) (b ∷ bm) (x ∷ mask) h = and_not-NoBitsFrom k bm mask h

-- The first free bit is free and below the limit.
pub first_free_lem :
    (n i : ℕ) (bm : List Bool) (idx : ℕ)
    → first_free n i bm ≡ some idx
    → (idx < i + n) × (bit bm idx ≡ false)
unfolding first_free
first_free_lem zero i bm idx h = ground (arith, h)
first_free_lem (suc n) i bm idx h = elim (Bool-cases (bit bm i)) [
  | inl e ↦ let r = first_free_lem n (suc i) bm idx (rw e at h) in (omega (arith, r.0), r.1)
  | inr e ↦ let f : i ≡ idx = ground (arith, rw e at h) in rw (sym f) (omega arith, e)
]

pub word_of-bits_of : (n v : ℕ) → v < 2 ^ n → word_of (bits_of n v) ≡ v
unfolding word_of bits_of
word_of-bits_of zero v h = omega arith
word_of-bits_of (suc n) v h =
    let rest = word_of-bits_of n (v / 2) (omega (arith, pow_suc n)) in
    elim (Bool-cases (v % 2 == 1)) [
      | inl e ↦ rw e (ground (arith, rest, e))
      | inr e ↦ rw e (ground (arith, rest, e))
    ]

-- The bits of the new words.
pub bit-and_not :
    (bm mask : List Bool) (i : ℕ) → bit (and_not bm mask) i ≡ (bit bm i && not (bit mask i))
unfolding and_not
bit-and_not [] mask i = refl
bit-and_not (b ∷ bm) [] zero = ground arith
bit-and_not (b ∷ bm) [] (suc i) = ground arith
bit-and_not (b ∷ bm) (k ∷ mask) zero = refl
bit-and_not (b ∷ bm) (k ∷ mask) (suc i) = bit-and_not bm mask i

pub bit-put_bit_same :
    (bm : List Bool) (i : ℕ) (x : Bool) → i < length bm → bit (put_bit bm i x) i ≡ x
unfolding put_bit
bit-put_bit_same [] i x h = absurd (omega arith)
bit-put_bit_same (b ∷ bm) zero x h = refl
bit-put_bit_same (b ∷ bm) (suc i) x h = bit-put_bit_same bm i x (omega arith)

pub bit-put_bit_other :
    (bm : List Bool) (i j : ℕ) (x : Bool) → j ≢ i → bit (put_bit bm i x) j ≡ bit bm j
unfolding put_bit
bit-put_bit_other [] i j x ne = refl
bit-put_bit_other (b ∷ bm) zero zero x ne = absurd (ne refl)
bit-put_bit_other (b ∷ bm) zero (suc j) x ne = refl
bit-put_bit_other (b ∷ bm) (suc i) zero x ne = refl
bit-put_bit_other (b ∷ bm) (suc i) (suc j) x ne = bit-put_bit_other bm i j x (λ e. ne (ap suc e))

pub bit-take : (n : ℕ) (bm : List Bool) (i : ℕ) → i < n → bit (take n bm) i ≡ bit bm i
bit-take zero bm i h = absurd (omega arith)
bit-take (suc n) [] i h = refl
bit-take (suc n) (b ∷ bm) zero h = refl
bit-take (suc n) (b ∷ bm) (suc i) h = bit-take n bm i (omega arith)
