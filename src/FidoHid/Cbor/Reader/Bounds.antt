-- ===== src/FidoHid/Cbor/Reader/Bounds.antt =====
-- The reader of cbor.c stays within its buffer, whatever the bytes are.
use Prim.Native.Nat.{bit_and}
use nixtropic.Base.{
  if◌then◌else◌, ◌/◌, ℕ, zero, suc, ◌+◌, ◌*◌, ◌≤◌, ◌≡◌, refl, ◌∙◌, ap, Bool, true, Option, none,
  some, ◌==◌, length, arith, Bool-cases, inl, inr,
}
use nixtropic.FidoHid.Cbor.Writer.{mt_map}
use nixtropic.FidoHid.Cbor.Reader.{
  Reader, byte_at, len, read_head, head_value, follow, follow8, repeat, step_over, twice, skip_body,
  skip_item, container, validate_body, validate_item,
}

-- The buffer is the same, and the position has not gone back nor left it.
pub record Advances (r r' : Reader) : Type 0 where
  pub buf_is : r'.buf ≡ r.buf
  pub not_back : r.pos ≤ r'.pos
  pub within : r.pos ≤ len r → r'.pos ≤ len r'

Advances-refl : (r : Reader) → Advances r r
Advances-refl r = record { buf_is = refl; not_back = omega arith; within = λ h. h }

Advances-trans : (a b c : Reader) → Advances a b → Advances b c → Advances a c
Advances-trans a b c p q = record {
  buf_is = q.buf_is ∙ p.buf_is;
  not_back = omega (arith, p.not_back, q.not_back);
  within = λ h. q.within (p.within h);
}

fail-Advances : (r : Reader) → Advances r (record r { err = true })
fail-Advances r = record { buf_is = refl; not_back = omega arith; within = λ h. h }

head_value-Advances : (mt ai : ℕ) (r : Reader) → Advances r (head_value mt ai r).1
unfolding head_value follow follow8
head_value-Advances mt ai r = ground arith

read_head-Advances : (r : Reader) → Advances r (read_head r).1
unfolding read_head
read_head-Advances r = ground (
  arith,
  head_value-Advances (bit_and (byte_at r 0 / 32) 7) (bit_and (byte_at r 0) 0x1f)
      (record r { pos = r.pos + 1 }),
)

step_over-Advances : (v : ℕ) (r : Reader) → Advances r (step_over v r).1
unfolding step_over
step_over-Advances v r = ground arith

-- The body of a loop advances.
abbrev pub Moves : (Reader → Bool × Reader) → Type 0
Moves body = (r : Reader) → Advances r (body r).1

repeat-Advances : (n : ℕ) (body : Reader → Bool × Reader) → Moves body → Moves (repeat n body)
unfolding repeat
repeat-Advances zero body h r = Advances-refl r
repeat-Advances (suc n) body h r = elim (Bool-cases (body r).0) [
  | inl e ↦ rw e (Advances-trans r (body r).1 _ (h r) (repeat-Advances n body h (body r).1))
  | inr e ↦ rw e (h r)
]

twice-Advances : (body : Reader → Bool × Reader) → Moves body → Moves (twice body)
unfolding twice
twice-Advances body h r = elim (Bool-cases (body r).0) [
  | inl e ↦ rw e (Advances-trans r (body r).1 _ (h r) (h (body r).1))
  | inr e ↦ rw e (h r)
]

skip_body-Advances :
    (inner : Reader → Bool × Reader) (h : Option (ℕ × ℕ)) (r : Reader)
    → Moves inner
    → Advances r (skip_body inner (h, r)).1
unfolding skip_body
skip_body-Advances inner none r m = Advances-refl r
skip_body-Advances inner (some (mt, v)) r m = ground (
  arith,
  Advances-refl r,
  fail-Advances r,
  step_over-Advances v r,
  repeat-Advances v inner m r,
  repeat-Advances v (twice inner) (twice-Advances inner m) r,
)

skip_item-Advances : (left : ℕ) → Moves (skip_item left)
unfolding skip_item
skip_item-Advances zero r = fail-Advances r
skip_item-Advances (suc left) r =
    Advances-trans r (read_head r).1 _ (read_head-Advances r)
      (skip_body-Advances _ (read_head r).0 (read_head r).1 (skip_item-Advances left))

abbrev MovesIf : Option (Reader → Bool × Reader) → Type 0
MovesIf none = Unit
MovesIf (some body) = Moves body

container-Advances :
    (inner : Option (Reader → Bool × Reader)) (mt v : ℕ) (r : Reader)
    → MovesIf inner
    → Advances r (container inner mt v r).1
unfolding container
container-Advances none mt v r m = fail-Advances r
container-Advances (some body) mt v r m =
    ground (arith, fail-Advances r, repeat-Advances (if mt == mt_map then 2 * v else v) body m r)

validate_body-Advances :
    (inner : Option (Reader → Bool × Reader)) (h : Option (ℕ × ℕ)) (r : Reader)
    → MovesIf inner
    → Advances r (validate_body inner (h, r)).1
unfolding validate_body
validate_body-Advances inner none r m = Advances-refl r
validate_body-Advances inner (some (mt, v)) r m = ground (
  arith,
  Advances-refl r,
  fail-Advances r,
  step_over-Advances v r,
  container-Advances inner mt v r m,
)

pub validate_item-Advances : (left : ℕ) → Moves (validate_item left)
unfolding validate_item
validate_item-Advances zero r =
    Advances-trans r (read_head r).1 _ (read_head-Advances r)
      (validate_body-Advances none (read_head r).0 (read_head r).1 tt)
validate_item-Advances (suc left) r = Advances-trans r (read_head r).1 _ (read_head-Advances r) (
    validate_body-Advances (some (λ r'. validate_item left r')) (read_head r).0 (read_head r).1
      (validate_item-Advances left))

-- Whatever the bytes are, neither the validator nor a skip leaves the buffer or goes back in it.
pub items_stay_within :
    (left : ℕ) (r : Reader)
    → r.pos ≤ len r
    → let v = (validate_item left r).1 in
      let s = (skip_item left r).1 in
      (v.buf ≡ r.buf)
      × (r.pos ≤ v.pos)
      × (v.pos ≤ len r)
      × (s.buf ≡ r.buf)
      × (r.pos ≤ s.pos)
      × (s.pos ≤ len r)
items_stay_within left r h =
    let v = validate_item-Advances left r in
    let s = skip_item-Advances left r in
    (
      v.buf_is,
      v.not_back,
      omega (arith, v.within h, ap length v.buf_is),
      s.buf_is,
      s.not_back,
      omega (arith, s.within h, ap length s.buf_is),
    )
