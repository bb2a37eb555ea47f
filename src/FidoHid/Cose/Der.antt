-- ===== src/FidoHid/Cose/Der.antt =====
-- The DER signatures of cose.c, read back by a strict reader.
pub mod Content
use nixtropic.Base.{
  lt→ltb, All-take, All-drop, leb, true, ==_refl, le→ltb, ℕ, ◌+◌, ◌%◌, ◌≤◌, ◌<◌, List, [], ◌∷◌,
  ◌++◌, false, ◌&&◌, ◌≡◌, refl, sym, ap, ◌∙◌, arith, Option, none, some, ltb, ◌==◌, if◌then◌else◌,
  length, take, drop, length-append, length-take, length-drop, take_append, drop_append, AreBytes,
  IsByte, append-nil,
}
use nixtropic.FidoHid.Cose.{der_content, der_int, cose_es256_der, es256_der_max}
use nixtropic.FidoHid.Cose.Der.Content.{
  be_value, is_shortest, be_value-content, length-content, is_shortest-der_content,
}

-- A strict reader of ASN.1 DER: an INTEGER with a length of one byte below 128 that the bytes
-- hold, and with the shortest content of a number that is not negative; and the bytes after it.
unfoldable pub read_int : List ℕ → Option (ℕ × List ℕ)
unfolding be_value is_shortest
read_int (t ∷ n ∷ xs) =
    if t == 0x02 && (ltb n 128 && (leb n (length xs) && is_shortest (take n xs)))
    then some (be_value 0 (take n xs), drop n xs)
    else none
read_int _ = none

read_second : ℕ → Option (ℕ × List ℕ) → Option (ℕ × ℕ)
read_second r (some (s, [])) = some (r, s)
read_second r _ = none

read_both : Option (ℕ × List ℕ) → Option (ℕ × ℕ)
unfolding read_int read_second
read_both none = none
read_both (some (r, xs)) = read_second r (read_int xs)

-- A SEQUENCE of two INTEGERs and nothing else.
pub read_signature : List ℕ → Option (ℕ × ℕ)
unfolding read_both read_int
read_signature (t ∷ n ∷ xs) =
    if t == 0x30 && (ltb n 128 && n == length xs) then read_both (read_int xs) else none
read_signature _ = none

length-der_int : (v : List ℕ) → length v ≡ 32 → length (der_int v) ≤ 35
unfolding der_int
length-der_int v len = omega (arith, (length-content v len).1)

le→leb : (a b : ℕ) → a ≤ b → leb a b ≡ true
le→leb a b h = ground arith

read_int-der_int :
    (v rest : List ℕ)
    → AreBytes v
    → length v ≡ 32
    → read_int (der_int v ++ rest) ≡ some (be_value 0 v, rest)
unfolding read_int der_int
read_int-der_int v rest bytes len =
    let c = der_content v in
    let most = (length-content v len).1 in
    let small : length c % 256 ≡ length c = omega (arith, most) in
    let short : ltb (length c) 128 ≡ true = lt→ltb _ _ (omega (arith, most)) in
    let held : leb (length c) (length (c ++ rest)) ≡ true =
      le→leb _ _ (omega (arith, length-append c rest)) in
    rw
      (
        small,
        short,
        held,
        take_append (length c) c rest refl,
        drop_append (length c) c rest refl,
        is_shortest-der_content v bytes len,
        be_value-content v,
      )
      refl

read_signature_of :
    (body xs : List ℕ) (r s : ℕ)
    → length body < 128
    → read_int body ≡ some (r, xs)
    → read_int xs ≡ some (s, [])
    → read_signature (0x30 ∷ length body % 256 ∷ body) ≡ some (r, s)
unfolding read_signature read_both read_second
read_signature_of body xs r s small first second =
    let e : length body % 256 ≡ length body = omega arith in
    let short : ltb (length body) 128 ≡ true = ground arith in
    rw (e, short, ==_refl (length body), first, second) refl

-- The signature that cose_es256_der builds from 64 bytes fits the 72 bytes that its callers give,
-- and a strict reader of DER, which refuses an INTEGER that is negative or is not in its shortest
-- form, finds in it the two numbers of the 64 bytes, and nothing else.
pub read_signature-cose_es256_der :
    (rs : List ℕ)
    → AreBytes rs
    → length rs ≡ 64
    → (out : List ℕ) × (cose_es256_der rs es256_der_max ≡ some out)
      × (length out ≤ es256_der_max)
      × (read_signature out ≡ some (be_value 0 (take 32 rs), be_value 0 (drop 32 rs)))
unfolding cose_es256_der
read_signature-cose_es256_der rs bytes len =
    let r = take 32 rs in
    let s = drop 32 rs in
    let lr : length r ≡ 32 = omega (arith, length-take 32 rs) in
    let ls : length s ≡ 32 = omega (arith, length-drop 32 rs) in
    let body = der_int r ++ der_int s in
    let small : length body ≤ 70 =
      omega
        (arith, length-append (der_int r) (der_int s), length-der_int r lr, length-der_int s ls) in
    let fits : ltb 72 (length body + 2) ≡ false = le→ltb _ _ (omega arith) in
    let second : read_int (der_int s) ≡ some (be_value 0 s, []) =
      ap read_int (sym (append-nil (der_int s)))
      ∙ read_int-der_int s [] (All-drop IsByte 32 rs bytes) ls in
    (
      0x30 ∷ length body % 256 ∷ body,
      rw fits refl,
      omega (arith, small),
      read_signature_of body (der_int s) (be_value 0 r) (be_value 0 s) (omega (arith, small))
          (read_int-der_int r (der_int s) (All-take IsByte 32 rs bytes) lr) second,
    )
