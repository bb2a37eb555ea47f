-- ===== src/FidoHid/Cbor/Writer.antt =====
-- The encoder of cbor.c. `out` is buf[0 .. pos), so `pos` is its length. A function returns true
-- for the code 0. A NULL pointer with a length, and a text with a NUL inside, are not modelled.
use Prim.Native.Nat.{bit_or}
use nixtropic.Base.{
  ℕ, ◌-◌, ◌*◌, ◌%◌, List, [], ◌∷◌, ◌++◌, Bool, true, false, ltb, leb, if◌then◌else◌, length,
  byte_of,
}

abbrev pub mt_uint : ℕ
mt_uint = 0

abbrev pub mt_negint : ℕ
mt_negint = 1

abbrev pub mt_byte_str : ℕ
mt_byte_str = 2

abbrev pub mt_text_str : ℕ
mt_text_str = 3

abbrev pub mt_array : ℕ
mt_array = 4

abbrev pub mt_map : ℕ
mt_map = 5

abbrev pub mt_simple : ℕ
mt_simple = 7

pub record Writer : Type 0 where
  pub cap : ℕ
  pub out : List ℕ
  pub err : Bool

unfoldable pub writer_init : ℕ → Writer
writer_init cap = record { cap = cap; out = []; err = false }

unfoldable pub put_byte : ℕ → Writer → Bool × Writer
put_byte b w =
    if w.err
    then (false, w)
    else if leb w.cap (length w.out)
    then (false, record w { err = true })
    else (true, record w { out = w.out ++ b ∷ [] })

unfoldable pub put_bytes : List ℕ → Writer → Bool × Writer
put_bytes p w =
    if w.err
    then (false, w)
    else if ltb (w.cap - length w.out) (length p)
    then (false, record w { err = true })
    else (true, record w { out = w.out ++ p })

-- `if (a < 0) return -1; return b;`
infixr 20 ◌and_then◌
abbrev pub ◌and_then◌ : (Writer → Bool × Writer) → (Writer → Bool × Writer) → Writer → Bool × Writer
◌and_then◌ a b w = let (ok, w') = a w in if ok then b w' else (false, w')

-- (uint8_t)(mt << 5), with the additional information.
abbrev pub head_byte : ℕ → ℕ → ℕ
head_byte mt ai = bit_or (mt * 32 % 256) ai

unfoldable pub put_head : ℕ → ℕ → Writer → Bool × Writer
unfolding put_byte put_bytes
put_head mt v =
    if ltb v 24
    then put_byte (head_byte mt v)
    else if leb v 0xff
    then put_byte (head_byte mt 24) and_then put_byte (byte_of v 0)
    else if leb v 0xffff
    then put_byte (head_byte mt 25) and_then put_bytes (byte_of v 1 ∷ byte_of v 0 ∷ [])
    else if leb v 0xffff_ffff
    then put_byte (head_byte mt 26)
      and_then put_bytes (byte_of v 3 ∷ byte_of v 2 ∷ byte_of v 1 ∷ byte_of v 0 ∷ [])
    else put_byte (head_byte mt 27)
      and_then put_bytes (
          byte_of v 7
          ∷ byte_of v 6
          ∷ byte_of v 5
          ∷ byte_of v 4
          ∷ byte_of v 3
          ∷ byte_of v 2
          ∷ byte_of v 1
          ∷ byte_of v 0
          ∷ [])

unfoldable pub write_uint : ℕ → Writer → Bool × Writer
unfolding put_head
write_uint v = put_head mt_uint v

-- An int64_t argument: `pos n` is n, `negsuc n` is -(n + 1), for which `-(v + 1)` is n.
pub data Int64 : Type 0 where
  pos negsuc : ℕ → Int64

pub write_negint : Int64 → Writer → Bool × Writer
unfolding put_head
write_negint (pos n) w = (false, record w { err = true })
write_negint (negsuc n) w = put_head mt_negint n w

unfoldable pub write_byte_string : List ℕ → Writer → Bool × Writer
unfolding put_head put_bytes
write_byte_string bytes = put_head mt_byte_str (length bytes) and_then put_bytes bytes

unfoldable pub write_text : List ℕ → Writer → Bool × Writer
unfolding put_head put_bytes
write_text s = put_head mt_text_str (length s) and_then put_bytes s

pub write_array_header : ℕ → Writer → Bool × Writer
unfolding put_head
write_array_header count = put_head mt_array count

pub write_map_header : ℕ → Writer → Bool × Writer
unfolding put_head
write_map_header count = put_head mt_map count

pub write_bool : Bool → Writer → Bool × Writer
unfolding put_byte
write_bool v = put_byte (bit_or (mt_simple * 32 % 256) (if v then 21 else 20))

pub write_null : Writer → Bool × Writer
unfolding put_byte
write_null = put_byte (bit_or (mt_simple * 32 % 256) 22)
