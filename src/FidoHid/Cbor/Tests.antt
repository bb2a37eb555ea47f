-- ===== src/FidoHid/Cbor/Tests.antt =====
-- cbor.c at concrete inputs.
use nixtropic.Base.{
  ℕ, ◌≤◌, ◌<◌, ◌^◌, List, [], ◌∷◌, ◌≡◌, refl, true, false, none, some, arith, length,
}
use nixtropic.FidoHid.Cbor.Writer.{Writer, put_head, write_byte_string, write_text, mt_map}
use nixtropic.FidoHid.Cbor.Reader.{
  Reader, reader_init, read_head, head_value, read_bytes, read_text, skip, skip_item, validate_item,
  validate_body, cbor_validate, container, repeat, step_over,
}
use nixtropic.FidoHid.Cbor.RoundTrip.{reading_back, read_head-put_head, read_string-write_string}
use nixtropic.FidoHid.Cbor.Reader.Validate.{validate_then_skip}
use nixtropic.FidoHid.Cbor.Reader.Bounds.{items_stay_within}

abbrev empty : Writer
empty = record { cap = 64; out = []; err = false }

-- {1: h'0102', 2: [3, -1]}
abbrev request : List ℕ
request = 0xa2 ∷ 0x01 ∷ 0x42 ∷ 0x01 ∷ 0x02 ∷ 0x02 ∷ 0x82 ∷ 0x03 ∷ 0x20 ∷ []

request_valid : cbor_validate request ≡ true
unfolding cbor_validate validate_item validate_body read_head head_value container repeat step_over
    reader_init
request_valid = refl

-- A tag, an indefinite length, a fifth level of nesting, a byte too many: all refused.
refusals :
    (cbor_validate (0xc0 ∷ 0x00 ∷ []) ≡ false)
    × (cbor_validate (0x9f ∷ 0xff ∷ []) ≡ false)
    × (cbor_validate (0x81 ∷ 0x81 ∷ 0x81 ∷ 0x81 ∷ 0x00 ∷ []) ≡ true)
    × (cbor_validate (0x81 ∷ 0x81 ∷ 0x81 ∷ 0x81 ∷ 0x81 ∷ 0x00 ∷ []) ≡ false)
    × (cbor_validate (0x00 ∷ 0x00 ∷ []) ≡ false)
unfolding cbor_validate validate_item validate_body read_head head_value container repeat step_over
    reader_init
refusals = (refl, refl, refl, refl, refl)

validate_then_skip_example :
    let (ok, r) = skip (reader_init request) in
    (ok ≡ true) × (r.buf ≡ request) × (r.pos ≡ length request)
validate_then_skip_example = validate_then_skip request request_valid

abbrev cut_short : Reader
cut_short = record { buf = 0x82 ∷ 0x03 ∷ 0x59 ∷ 0x01 ∷ []; pos = 0; err = false }

items_stay_within_example :
    let v = (validate_item 4 cut_short).1 in
    let s = (skip_item 4 cut_short).1 in
    (v.buf ≡ cut_short.buf)
    × (0 ≤ v.pos)
    × (v.pos ≤ 4)
    × (s.buf ≡ cut_short.buf)
    × (0 ≤ s.pos)
    × (s.pos ≤ 4)
items_stay_within_example = items_stay_within 4 cut_short (omega arith)

read_head-put_head_example :
    let w' = (put_head mt_map 1000 empty).1 in
    let (read, r) = read_head (reading_back empty w' (7 ∷ [])) in
    (1000 < 2 ^ 32 → (read ≡ some (mt_map, 1000)) × (r.pos ≡ length w'.out) × (r.err ≡ false))
    × (2 ^ 32 ≤ 1000 → (read ≡ none) × (r.err ≡ true))
unfolding put_head
read_head-put_head_example =
    read_head-put_head mt_map 1000 empty (7 ∷ []) (omega arith) (omega arith) refl

read_string-write_string_example :
    let (ok, w') = write_byte_string (1 ∷ 2 ∷ 3 ∷ []) empty in
    let (ok_text, w_text) = write_text (1 ∷ 2 ∷ 3 ∷ []) empty in
    (ok ≡ true
      → read_bytes (reading_back empty w' (9 ∷ []))
        ≡ (some (1 ∷ 2 ∷ 3 ∷ []), record (reading_back empty w' (9 ∷ [])) { pos = length w'.out }))
    × (ok_text ≡ true
        → read_text (reading_back empty w_text (9 ∷ [])) ≡ (
          some (1 ∷ 2 ∷ 3 ∷ []),
          record (reading_back empty w_text (9 ∷ [])) { pos = length w_text.out },
        ))
read_string-write_string_example =
    read_string-write_string (1 ∷ 2 ∷ 3 ∷ []) empty (9 ∷ []) (omega arith)
