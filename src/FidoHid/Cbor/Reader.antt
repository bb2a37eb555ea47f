-- ===== src/FidoHid/Cbor/Reader.antt =====
-- The decoder of cbor.c. `buf` holds `len` bytes. size_t has 32 bits on the target; positions stay
-- within the buffer, so the sums of a position and a few bytes are written without a wrap.
pub mod Heads
pub mod Bounds
pub mod Validate
use Prim.Native.Nat.{bit_and}
use nixtropic.Base.{
  ℕ, zero, suc, ◌+◌, ◌-◌, ◌*◌, ◌/◌, ◌^◌, ◌<◌, List, [], ◌∷◌, Bool, true, false, not, ◌||◌, Option,
  none, some, ltb, leb, ◌==◌, if◌then◌else◌, length, get_or, take, drop, of_be32,
}
use nixtropic.FidoHid.Cbor.Writer.{
  mt_uint, mt_negint, mt_byte_str, mt_text_str, mt_array, mt_map, mt_simple,
}

pub record Reader : Type 0 where
  pub buf : List ℕ
  pub pos : ℕ
  pub err : Bool

unfoldable pub reader_init : List ℕ → Reader
reader_init buf = record { buf = buf; pos = 0; err = false }

abbrev pub len : Reader → ℕ
len r = length r.buf

-- The byte `k` places after the position.
abbrev pub byte_at : Reader → ℕ → ℕ
byte_at r k = get_or r.buf (r.pos + k) 0

-- -1 is `none`.
pub peek_major : Reader → Option ℕ
peek_major r = if leb (len r) r.pos then none else some (bit_and (byte_at r 0 / 32) 7)

abbrev pub fail {ℓ} : {A : Type ℓ} → Reader → Option A × Reader
fail r = (none, record r { err = true })

-- A value in the `n` bytes that follow the initial byte.
unfoldable pub follow : ℕ → ℕ → ℕ → Reader → Option (ℕ × ℕ) × Reader
follow n mt v r =
    if ltb (len r) (r.pos + n) then fail r else (some (mt, v), record r { pos = r.pos + n })

abbrev pub size_max : ℕ
size_max = 2 ^ 32 - 1

unfoldable pub follow8 : ℕ → ℕ → Reader → Option (ℕ × ℕ) × Reader
follow8 mt v r =
    if ltb (len r) (r.pos + 8)
    then fail r
    else if ltb size_max v
    then fail (record r { pos = r.pos + 8 })
    else (some (mt, v), record r { pos = r.pos + 8 })

-- The value by the additional information; `r` stands after the initial byte.
unfoldable pub head_value : ℕ → ℕ → Reader → Option (ℕ × ℕ) × Reader
unfolding follow follow8
head_value mt ai r =
    if ltb ai 24
    then (some (mt, ai), r)
    else if ai == 24
    then follow 1 mt (byte_at r 0) r
    else if ai == 25
    then follow 2 mt (byte_at r 0 * 2 ^ 8 + byte_at r 1) r
    else if ai == 26
    then follow 4 mt (of_be32 (byte_at r 0) (byte_at r 1) (byte_at r 2) (byte_at r 3)) r
    else if ai == 27
    then follow8 mt
        (of_be32 (byte_at r 0) (byte_at r 1) (byte_at r 2) (byte_at r 3) * 2 ^ 32
          + of_be32 (byte_at r 4) (byte_at r 5) (byte_at r 6) (byte_at r 7))
        r
    else fail r

-- The pair is `*mt` and `*v`.
unfoldable pub read_head : Reader → Option (ℕ × ℕ) × Reader
read_head r =
    let ib = byte_at r 0 in
    if r.err
    then (none, r)
    else if leb (len r) r.pos
    then fail r
    else head_value (bit_and (ib / 32) 7) (bit_and ib 0x1f) (record r { pos = r.pos + 1 })

-- A head of the major type `want`: its value.
unfoldable pub of_type : ℕ → Option (ℕ × ℕ) × Reader → Option ℕ × Reader
of_type want (none, r) = (none, r)
of_type want (some (mt, v), r) = if mt == want then (some v, r) else fail r

unfoldable pub read_uint : Reader → Option ℕ × Reader
unfolding read_head of_type
read_uint r = of_type mt_uint (read_head r)

-- `v` bytes of the buffer from the position on.
unfoldable pub run_of : Option ℕ × Reader → Option (List ℕ) × Reader
run_of (none, r) = (none, r)
run_of (some v, r) =
    if ltb (len r - r.pos) v
    then fail r
    else (some (take v (drop r.pos r.buf)), record r { pos = r.pos + v })

unfoldable pub read_byte_run : ℕ → Reader → Option (List ℕ) × Reader
unfolding read_head of_type run_of
read_byte_run want r = run_of (of_type want (read_head r))

unfoldable pub read_bytes : Reader → Option (List ℕ) × Reader
unfolding read_byte_run
read_bytes r = read_byte_run mt_byte_str r

unfoldable pub read_text : Reader → Option (List ℕ) × Reader
unfolding read_byte_run
read_text r = read_byte_run mt_text_str r

pub read_array_header : Reader → Option ℕ × Reader
unfolding read_head of_type
read_array_header r = of_type mt_array (read_head r)

pub read_map_header : Reader → Option ℕ × Reader
unfolding read_head of_type
read_map_header r = of_type mt_map (read_head r)

-- `for (i = 0; i < n; ++i) if (body(r) < 0) return -1;`
unfoldable pub repeat : ℕ → (Reader → Bool × Reader) → Reader → Bool × Reader
repeat zero body r = (true, r)
repeat (suc n) body r =
    let (ok, r') = body r in let rest = repeat n body r' in if ok then rest else (false, r')

abbrev pub fail_item : Reader → Bool × Reader
fail_item r = (false, record r { err = true })

-- Step over `v` bytes of a string.
unfoldable pub step_over : ℕ → Reader → Bool × Reader
step_over v r = if ltb (len r - r.pos) v then fail_item r else (true, record r { pos = r.pos + v })

-- Two items, the key and the value of a map's entry.
unfoldable pub twice : (Reader → Bool × Reader) → Reader → Bool × Reader
twice body r = let (ok, r') = body r in let rest = body r' in if ok then rest else (false, r')

-- What `skip_item` does with a head; `inner` skips an item one level down.
unfoldable pub skip_body : (Reader → Bool × Reader) → Option (ℕ × ℕ) × Reader → Bool × Reader
skip_body inner (none, r) = (false, r)
skip_body inner (some (mt, v), r) =
    if mt == mt_uint || mt == mt_negint
    then (true, r)
    else if mt == mt_byte_str || mt == mt_text_str
    then step_over v r
    else if mt == mt_array
    then repeat v inner r
    else if mt == mt_map
    then repeat v (twice inner) r
    else if mt == mt_simple
    then (true, r)
    else fail_item r

-- The argument is CBOR_SKIP_MAX_DEPTH + 1 - depth, so 0 is `depth > CBOR_SKIP_MAX_DEPTH`.
unfoldable pub skip_item : ℕ → Reader → Bool × Reader
skip_item zero r = fail_item r
skip_item (suc left) r = skip_body (λ r'. skip_item left r') (read_head r)

abbrev pub cbor_skip_max_depth : ℕ
cbor_skip_max_depth = 16

unfoldable pub skip : Reader → Bool × Reader
skip r = skip_item (cbor_skip_max_depth + 1) r

abbrev pub cbor_max_depth : ℕ
cbor_max_depth = 4

-- An array or a map with the count `v`; `inner` is `none` where `depth >= CBOR_MAX_DEPTH`.
unfoldable pub container : Option (Reader → Bool × Reader) → ℕ → ℕ → Reader → Bool × Reader
container none mt v r = fail_item r
container (some body) mt v r =
    if ltb (len r - r.pos) v then fail_item r else repeat (if mt == mt_map then 2 * v else v) body r

-- What `validate_item` does with a head.
unfoldable pub validate_body :
    Option (Reader → Bool × Reader) → Option (ℕ × ℕ) × Reader → Bool × Reader
validate_body inner (none, r) = (false, r)
validate_body inner (some (mt, v), r) =
    if mt == mt_uint || mt == mt_negint || mt == mt_simple
    then (true, r)
    else if mt == mt_byte_str || mt == mt_text_str
    then step_over v r
    else if mt == mt_array || mt == mt_map
    then container inner mt v r
    else fail_item r

-- The argument is CBOR_MAX_DEPTH - depth.
unfoldable pub validate_item : ℕ → Reader → Bool × Reader
validate_item zero r = validate_body none (read_head r)
validate_item (suc left) r = validate_body (some (λ r'. validate_item left r')) (read_head r)

unfoldable pub cbor_validate : List ℕ → Bool
cbor_validate buf =
    let (ok, r) = validate_item cbor_max_depth (reader_init buf) in
    if ok then r.pos == len r else false
