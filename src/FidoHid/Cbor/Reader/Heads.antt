-- ===== src/FidoHid/Cbor/Reader/Heads.antt =====
-- The head of an item in cbor.c: what `put_head` writes, `cbor_reader_read_head` reads back.
use nixtropic.Base.{
  lt→ltb, ℕ, ◌+◌, ◌*◌, ◌^◌, ◌≤◌, ◌<◌, List, [], ◌∷◌, ◌++◌, ◌≡◌, refl, ◌∙◌, ap, true, false, some,
  ltb, leb, if◌then◌else◌, length, get_or, byte_of, arith, length-append, get_or-append_right,
  append_assoc,
}
use nixtropic.Base.Bits.{bit_and_split, bit_or_join}
use nixtropic.FidoHid.Cbor.Writer.{Writer, put_head, head_byte}
use nixtropic.FidoHid.Cbor.Reader.{Reader, read_head, head_value, follow, follow8, fail}

-- The bytes of a head, the shortest form of `v`.
pub head_bytes : ℕ → ℕ → List ℕ
head_bytes mt v =
    if ltb v 24
    then head_byte mt v ∷ []
    else if leb v 0xff
    then head_byte mt 24 ∷ byte_of v 0 ∷ []
    else if leb v 0xffff
    then head_byte mt 25 ∷ byte_of v 1 ∷ byte_of v 0 ∷ []
    else if leb v 0xffff_ffff
    then head_byte mt 26 ∷ byte_of v 3 ∷ byte_of v 2 ∷ byte_of v 1 ∷ byte_of v 0 ∷ []
    else head_byte mt 27
      ∷ byte_of v 7
      ∷ byte_of v 6
      ∷ byte_of v 5
      ∷ byte_of v 4
      ∷ byte_of v 3
      ∷ byte_of v 2
      ∷ byte_of v 1
      ∷ byte_of v 0
      ∷ []

-- A successful `put_head` appends exactly those bytes.
pub put_head_lem :
    (mt v : ℕ) (w : Writer)
    → (put_head mt v w).0 ≡ true
    → (put_head mt v w).1 ≡ record w { out = w.out ++ head_bytes mt v }
unfolding put_head head_bytes
put_head_lem mt v w h = ground (
  arith,
  append_assoc w.out (head_byte mt 24 ∷ []) (byte_of v 0 ∷ []),
  append_assoc w.out (head_byte mt 25 ∷ []) (byte_of v 1 ∷ byte_of v 0 ∷ []),
  append_assoc w.out (head_byte mt 26 ∷ [])
      (byte_of v 3 ∷ byte_of v 2 ∷ byte_of v 1 ∷ byte_of v 0 ∷ []),
  append_assoc w.out (head_byte mt 27 ∷ []) (
      byte_of v 7
      ∷ byte_of v 6
      ∷ byte_of v 5
      ∷ byte_of v 4
      ∷ byte_of v 3
      ∷ byte_of v 2
      ∷ byte_of v 1
      ∷ byte_of v 0
      ∷ []),
)

-- It fails, leaving the error set, exactly when the bytes do not fit or an error stood already.
pub put_head_fits :
    (mt v : ℕ) (w : Writer)
    → w.err ≡ false
    → length w.out + length (head_bytes mt v) ≤ w.cap
    → (put_head mt v w).0 ≡ true
unfolding put_head head_bytes
put_head_fits mt v w e h = ground (
  arith,
  length-append w.out (head_byte mt 24 ∷ []),
  length-append w.out (head_byte mt 25 ∷ []),
  length-append w.out (head_byte mt 26 ∷ []),
  length-append w.out (head_byte mt 27 ∷ []),
)

-- A reader that stands before `ys`.
module _ (pre ys : List ℕ) where
  abbrev standing : Reader
  standing = record { buf = pre ++ ys; pos = length pre; err = false }

  byte_k : (k : ℕ) → get_or (pre ++ ys) (length pre + 1 + k) 0 ≡ get_or ys (1 + k) 0
  byte_k k = ap (λ n. get_or (pre ++ ys) n 0) (omega arith) ∙ get_or-append_right pre ys (1 + k) 0

  initial :
      (mt ai : ℕ)
      → mt < 8
      → ai < 32
      → get_or ys 0 0 ≡ head_byte mt ai
      → 0 < length ys
      → read_head standing
        ≡ head_value mt ai (record { buf = pre ++ ys; pos = length pre + 1; err = false })
  unfolding read_head
  initial mt ai hm ha e pos = ground (
    arith,
    get_or-append_right pre ys 0 0,
    bit_or_join mt ai hm ha,
    bit_and_split (mt * 32 + ai),
    length-append pre ys,
  )

-- A reader on those bytes, whatever stands before and behind them.
abbrev pub at_head : List ℕ → ℕ → ℕ → List ℕ → Reader
at_head pre mt v post = record {
  buf = pre ++ (head_bytes mt v ++ post);
  pos = length pre;
  err = false;
}

module _ (pre post : List ℕ) (mt v : ℕ) (hm : mt < 8) where
  pub read_short :
      v < 24
      → read_head (at_head pre mt v post) ≡ (
        some (mt, v),
        record (at_head pre mt v post) { pos = length pre + length (head_bytes mt v) },
      )
  unfolding head_bytes head_value
  read_short h = rw (lt→ltb _ _ h) (
      initial pre (head_byte mt v ∷ post) mt v hm (omega arith) refl (omega arith)
      ∙ rw (lt→ltb _ _ h) refl)

  abbrev pub Reads : Type 0
  Reads = read_head (at_head pre mt v post) ≡ (
    some (mt, v),
    record (at_head pre mt v post) { pos = length pre + length (head_bytes mt v) },
  )

  pub read_one : 24 ≤ v → v < 256 → Reads
  unfolding head_value follow
  read_one lo hi =
      let ys = head_byte mt 24 ∷ byte_of v 0 ∷ post in
      let hb : head_bytes mt v ≡ head_byte mt 24 ∷ byte_of v 0 ∷ [] =
        unfold head_bytes in ground arith in
      rw (hb, initial pre ys mt 24 hm (omega arith) refl (omega arith))
        (ground (arith, byte_k pre ys 0, length-append pre ys))

  pub read_two : 256 ≤ v → v < 2 ^ 16 → Reads
  unfolding head_value follow
  read_two lo hi =
      let ys = head_byte mt 25 ∷ byte_of v 1 ∷ byte_of v 0 ∷ post in
      let hb : head_bytes mt v ≡ head_byte mt 25 ∷ byte_of v 1 ∷ byte_of v 0 ∷ [] =
        unfold head_bytes in ground arith in
      rw (hb, initial pre ys mt 25 hm (omega arith) refl (omega arith))
        (ground (arith, byte_k pre ys 0, byte_k pre ys 1, length-append pre ys))

  pub read_four : 2 ^ 16 ≤ v → v < 2 ^ 32 → Reads
  unfolding head_value follow
  read_four lo hi =
      let bs = byte_of v 3 ∷ byte_of v 2 ∷ byte_of v 1 ∷ byte_of v 0 ∷ [] in
      let ys = head_byte mt 26 ∷ bs ++ post in
      let hb : head_bytes mt v ≡ head_byte mt 26 ∷ bs = unfold head_bytes in ground arith in
      rw (hb, initial pre ys mt 26 hm (omega arith) refl (omega arith))
        (ground (
          arith,
          byte_k pre ys 0,
          byte_k pre ys 1,
          byte_k pre ys 2,
          byte_k pre ys 3,
          length-append pre ys,
        ))

  pub read_eight :
      2 ^ 32 ≤ v
      → v < 2 ^ 64
      → read_head (at_head pre mt v post)
        ≡ fail (record (at_head pre mt v post) { pos = length pre + 9 })
  unfolding head_value follow8
  read_eight lo hi =
      let bs =
        byte_of v 7
        ∷ byte_of v 6
        ∷ byte_of v 5
        ∷ byte_of v 4
        ∷ byte_of v 3
        ∷ byte_of v 2
        ∷ byte_of v 1
        ∷ byte_of v 0
        ∷ [] in
      let ys = head_byte mt 27 ∷ bs ++ post in
      let hb : head_bytes mt v ≡ head_byte mt 27 ∷ bs = unfold head_bytes in ground arith in
      rw (hb, initial pre ys mt 27 hm (omega arith) refl (omega arith))
        (ground (
          arith,
          byte_k pre ys 0,
          byte_k pre ys 1,
          byte_k pre ys 2,
          byte_k pre ys 3,
          byte_k pre ys 4,
          byte_k pre ys 5,
          byte_k pre ys 6,
          byte_k pre ys 7,
          length-append pre ys,
        ))
