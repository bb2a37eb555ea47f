-- ===== src/Base/Bytes.antt =====
-- Bytes and big-endian words, as the firmware packs them, and memcmp on whole buffers.
use Prim.Native.Nat.{ℕ, ◌+◌, ◌*◌, ◌/◌, ◌%◌, ◌^◌, ◌<◌}
use mathlib.Core.Path.{◌≡◌, refl}
use mathlib.Core.Bool.{Bool, true, false, ◌&&◌}
use mathlib.Core.List.{List, [], ◌∷◌}
use native.Mathlib.Omega.{arith}
use nixtropic.Base.Tests.{◌==◌}
use nixtropic.Base.Lists.{All}

-- (uint8_t)(v >> 8 * k)
abbrev pub byte_of : ℕ → ℕ → ℕ
byte_of v k = v / 256 ^ k % 256

abbrev pub u32_mod : ℕ
u32_mod = 2 ^ 32

-- Four bytes, the first the highest; the bytes are disjoint bits, so `|` is `+`.
abbrev pub of_be32 : ℕ → ℕ → ℕ → ℕ → ℕ
of_be32 a b c d = a * 2 ^ 24 + b * 2 ^ 16 + c * 2 ^ 8 + d

abbrev pub IsByte : ℕ → Type 0
IsByte b = b < 256

abbrev pub AreBytes : List ℕ → Type 0
AreBytes = All IsByte

-- memcmp(a, b, n) == 0 on two buffers of n bytes.
unfoldable pub bytes_eq : List ℕ → List ℕ → Bool
bytes_eq [] [] = true
bytes_eq [] (y ∷ ys) = false
bytes_eq (x ∷ xs) [] = false
bytes_eq (x ∷ xs) (y ∷ ys) = (x == y) && bytes_eq xs ys

pub bytes_eq_refl : (xs : List ℕ) → bytes_eq xs xs ≡ true
unfolding bytes_eq
bytes_eq_refl [] = refl
bytes_eq_refl (x ∷ xs) = ground (arith, bytes_eq_refl xs)

pub bytes_eq→eq : (xs ys : List ℕ) → bytes_eq xs ys ≡ true → xs ≡ ys
unfolding bytes_eq
bytes_eq→eq [] [] h = refl
bytes_eq→eq [] (y ∷ ys) h = ground arith
bytes_eq→eq (x ∷ xs) [] h = ground arith
bytes_eq→eq (x ∷ xs) (y ∷ ys) h = ground (arith, bytes_eq→eq xs ys)

pub of_be32-byte_of :
    (v : ℕ) → v < u32_mod → of_be32 (byte_of v 3) (byte_of v 2) (byte_of v 1) (byte_of v 0) ≡ v
of_be32-byte_of v h = omega arith
