-- ===== src/FidoHid/Cbor/Reader/Validate.antt =====
-- `cbor_validate` and `cbor_reader_skip` of cbor.c: what validates can be skipped.
use nixtropic.FidoHid.Cbor.Reader.Bounds.{validate_item-Advances}
use nixtropic.Base.{
  ℕ, zero, suc, ◌+◌, ◌≤◌, List, ◌≡◌, refl, Bool, true, false, Option, none, some, length, arith,
}
use nixtropic.FidoHid.Cbor.Reader.{
  Reader, reader_init, read_head, repeat, twice, skip_body, skip_item, skip, cbor_skip_max_depth,
  container, validate_body, validate_item, cbor_validate, cbor_max_depth,
}

-- Where the first body succeeds, the second does the same.
abbrev Follows : (Reader → Bool × Reader) → (Reader → Bool × Reader) → Type 0
Follows f g = (r : Reader) → (f r).0 ≡ true → g r ≡ f r

repeat-Follows :
    (n : ℕ) (f g : Reader → Bool × Reader) → Follows f g → Follows (repeat n f) (repeat n g)
unfolding repeat
repeat-Follows zero f g h r e = refl
repeat-Follows (suc n) f g h r e = ground (arith, h r, repeat-Follows n f g h (f r).1)

repeat_step :
    (n : ℕ) (f : Reader → Bool × Reader) (r : Reader)
    → (repeat (suc n) f r).0 ≡ true
    → ((f r).0 ≡ true) × (repeat (suc n) f r ≡ repeat n f (f r).1)
unfolding repeat
repeat_step n f r h = ground arith

-- A loop over 2n items is a loop over n pairs.
repeat-twice :
    (n : ℕ) (f : Reader → Bool × Reader) → Follows (repeat (n + n) f) (repeat n (twice f))
unfolding repeat twice
repeat-twice zero f r e = refl
repeat-twice (suc n) f r e =
    let d : suc n + suc n ≡ suc (suc (n + n)) = omega arith in
    let h = rw d at e in
    let (a, p) = repeat_step (suc (n + n)) f r h in
    let (b, q) = repeat_step (n + n) f (f r).1 (rw p at h) in
    rw d (ground (arith, repeat-twice n f (f (f r).1).1))

abbrev FollowsIf : Option (Reader → Bool × Reader) → (Reader → Bool × Reader) → Type 0
FollowsIf none g = Unit
FollowsIf (some f) g = Follows f g

validate_body-Follows :
    (inner : Option (Reader → Bool × Reader)) (g : Reader → Bool × Reader) (h : Option (ℕ × ℕ))
    (r : Reader)
    → FollowsIf inner g
    → (validate_body inner (h, r)).0 ≡ true
    → skip_body g (h, r) ≡ validate_body inner (h, r)
unfolding validate_body skip_body container
validate_body-Follows inner g none r m e = refl
validate_body-Follows none g (some (mt, v)) r m e = ground arith
validate_body-Follows (some f) g (some (mt, v)) r m e =
    ground (arith, repeat-Follows v f g m r, repeat-twice v g r, repeat-Follows (v + v) f g m r)

-- What validates with `left` levels of nesting to spare is skipped with as many or more.
validate_item-Follows : (left k : ℕ) → left ≤ k → Follows (validate_item left) (skip_item (suc k))
unfolding validate_item skip_item
validate_item-Follows zero k h r e =
    validate_body-Follows none _ (read_head r).0 (read_head r).1 tt e
validate_item-Follows (suc left) zero h r e = absurd (omega arith)
validate_item-Follows (suc left) (suc k) h r e =
    validate_body-Follows (some (λ r'. validate_item left r')) _ (read_head r).0 (read_head r).1
      (validate_item-Follows left k (omega arith)) e

-- A request that passes `cbor_validate` is one item: `cbor_reader_skip`, whose own nesting limit
-- is another, steps over it and ends exactly at the end of the buffer.
pub validate_then_skip :
    (buf : List ℕ)
    → cbor_validate buf ≡ true
    → let (ok, r) = skip (reader_init buf) in (ok ≡ true) × (r.buf ≡ buf) × (r.pos ≡ length buf)
unfolding cbor_validate skip reader_init
validate_then_skip buf h =
    let r0 : Reader = record { buf = buf; pos = 0; err = false } in
    let a : (validate_item cbor_max_depth r0).0 ≡ true = ground arith in
    ground (
      arith,
      validate_item-Follows cbor_max_depth cbor_skip_max_depth (omega arith) r0 a,
      (validate_item-Advances cbor_max_depth r0).buf_is,
    )
