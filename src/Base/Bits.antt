-- ===== src/Base/Bits.antt =====
-- Masks over one byte as arithmetic: tables of at most 256 entries, checked by evaluation.
use nixtropic.Base.Tests.{ltb, ◌==◌, if◌then◌else◌, ==_iff}
use Prim.Native.Nat.{bit_and, ◌*◌, ◌/◌, ◌%◌, bit_or, bit_xor, ◌+◌, ℕ, zero, suc, ◌<◌}
use mathlib.Core.Path.{◌≡◌, refl}
use mathlib.Core.Bool.{false, Bool, true, ◌&&◌}
use native.Mathlib.Omega.{arith}

module _ (test : ℕ → Bool) where
  -- The test passes at every number below the bound.
  pub passes : ℕ → Bool
  passes zero = true
  passes (suc bound) = if test bound then passes bound else false

  pub passes→test : (bound x : ℕ) → passes bound ≡ true → x < bound → test x ≡ true
  unfolding passes
  passes→test zero x table inside = elim inside [ ]
  passes→test (suc bound) x table inside =
      grind (arith, λ (ok : passes bound ≡ true) (lt : x < bound). passes→test bound x ok lt)

-- The same over pairs of bytes.
pub all_pairs : (ℕ → ℕ → Bool) → Bool
unfolding passes
all_pairs p = passes (λ a. passes (p a) 256) 256

all_pairs_sound :
    (p : ℕ → ℕ → Bool) (a b : ℕ) → all_pairs p ≡ true → a < 256 → b < 256 → p a b ≡ true
unfolding all_pairs
all_pairs_sound p a b h la lb =
    passes→test (p a) 256 b (passes→test (λ a. passes (p a) 256) 256 a h la) lb

or_test : ℕ → ℕ → Bool
or_test a b = ltb (bit_or a b) 256 && (if bit_or a b == 0 then (a + b) == 0 else true)

or_table : all_pairs or_test ≡ true
unfolding all_pairs or_test
or_table = refl

xor_test : ℕ → ℕ → Bool
xor_test a b = ltb (bit_xor a b) 256 && (if bit_xor a b == 0 then a == b else true)

xor_table : all_pairs xor_test ≡ true
unfolding all_pairs xor_test
xor_table = refl

self_table : passes (λ a. bit_xor a a == 0) 256 ≡ true
unfolding passes
self_table = refl

-- `|` of two bytes is a byte, and 0 only if both are.
pub bit_or_byte :
    (a b : ℕ) → a < 256 → b < 256 → (bit_or a b < 256) × (bit_or a b ≡ 0 → (a ≡ 0) × (b ≡ 0))
unfolding or_test
bit_or_byte a b ha hb = ground (arith, all_pairs_sound or_test a b or_table ha hb)

-- `^` of two bytes is a byte, and 0 only if they are equal.
pub bit_xor_byte : (a b : ℕ) → a < 256 → b < 256 → (bit_xor a b < 256) × (bit_xor a b ≡ 0 → a ≡ b)
unfolding xor_test
bit_xor_byte a b ha hb = ground (arith, all_pairs_sound xor_test a b xor_table ha hb)

pub bit_xor_self : (a : ℕ) → a < 256 → bit_xor a a ≡ 0
bit_xor_self a h = (==_iff _ 0).0 (passes→test _ 256 a self_table h)

split_test : ℕ → Bool
split_test b = (bit_and (b / 32) 7 == b / 32) && (bit_and b 31 == b % 32)

split_table : passes split_test 256 ≡ true
unfolding passes split_test
split_table = refl

-- The upper three and the lower five bits of a byte.
pub bit_and_split : (b : ℕ) → b < 256 → (bit_and (b / 32) 7 ≡ b / 32) × (bit_and b 31 ≡ b % 32)
unfolding split_test
bit_and_split b h = ground (arith, passes→test split_test 256 b split_table h)

flag_test : ℕ → Bool
flag_test b = (bit_and b 0x80 == b / 128 * 128) && (bit_and b 0x7f == b % 128)

flag_table : passes flag_test 256 ≡ true
unfolding passes flag_test
flag_table = refl

-- The highest bit of a byte, and the others.
pub bit_and_flag : (b : ℕ) → b < 256 → (bit_and b 0x80 ≡ b / 128 * 128) × (bit_and b 0x7f ≡ b % 128)
unfolding flag_test
bit_and_flag b h = ground (arith, passes→test flag_test 256 b flag_table h)

join_test : ℕ → Bool
join_test b = bit_or (b / 32 * 32 % 256) (b % 32) == b

join_table : passes join_test 256 ≡ true
unfolding passes join_test
join_table = refl

join_byte : (b : ℕ) → b < 256 → bit_or (b / 32 * 32 % 256) (b % 32) ≡ b
unfolding join_test
join_byte b h = ground (arith, passes→test join_test 256 b join_table h)

-- Three bits above five.
pub bit_or_join : (hi lo : ℕ) → hi < 8 → lo < 32 → bit_or (hi * 32 % 256) lo ≡ hi * 32 + lo
bit_or_join hi lo hh hl =
    let e : (hi * 32 + lo) / 32 ≡ hi = omega arith in
    let f : (hi * 32 + lo) % 32 ≡ lo = omega arith in
    rw (f, e) at (join_byte (hi * 32 + lo) (omega arith))
