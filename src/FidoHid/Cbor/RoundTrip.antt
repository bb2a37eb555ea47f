-- ===== src/FidoHid/Cbor/RoundTrip.antt =====
-- What the writer of cbor.c wrote, its reader reads back.
use nixtropic.Base.{
  ==_refl, ℕ, ◌+◌, ◌^◌, ◌≤◌, ◌<◌, List, ◌++◌, ◌≡◌, refl, ap, sym, true, false, none, some, arith,
  length, length-append, append_assoc, ltb, Bool-cases, inl, inr, drop, take_append, drop_append,
}
use nixtropic.FidoHid.Cbor.Writer.{
  ◌and_then◌, Writer, put_head, put_bytes, write_byte_string, write_text, mt_byte_str, mt_text_str,
}
use nixtropic.FidoHid.Cbor.Reader.{
  Reader, read_head, read_bytes, read_text, read_byte_run, of_type, run_of,
}
use nixtropic.FidoHid.Cbor.Reader.Heads.{
  head_bytes, put_head_lem, at_head, read_short, read_one, read_two, read_four, read_eight,
}

-- A reader of what a writer wrote and whatever follows, standing where the writer stood before.
abbrev pub reading_back : Writer → Writer → List ℕ → Reader
reading_back w w' post = record { buf = w'.out ++ post; pos = length w.out; err = false }

read_head-head_bytes :
    (pre post : List ℕ) (mt v : ℕ)
    → mt < 8
    → v < 2 ^ 32
    → read_head (at_head pre mt v post) ≡ (
      some (mt, v),
      record (at_head pre mt v post) { pos = length pre + length (head_bytes mt v) },
    )
read_head-head_bytes pre post mt v hm h = elim (Bool-cases (ltb v 24)) [
  | inl a ↦ read_short pre post mt v hm (ground arith)
  | inr a ↦ elim (Bool-cases (ltb v 256)) [
    | inl b ↦ read_one pre post mt v hm (ground arith) (ground arith)
    | inr b ↦ elim (Bool-cases (ltb v (2 ^ 16))) [
      | inl c ↦ read_two pre post mt v hm (ground arith) (ground arith)
      | inr c ↦ read_four pre post mt v hm (ground arith) h
    ]
  ]
]

-- A head that was written is read back as the same major type and value, and the reader then
-- stands behind it, for each value up to the SIZE_MAX of the target. A head with a larger value
-- of 64 bits is refused.
pub read_head-put_head :
    (mt v : ℕ) (w : Writer) (post : List ℕ)
    → mt < 8
    → v < 2 ^ 64
    → (put_head mt v w).0 ≡ true
    → let w' = (put_head mt v w).1 in
      let (read, r) = read_head (reading_back w w' post) in
      (v < 2 ^ 32 → (read ≡ some (mt, v)) × (r.pos ≡ length w'.out) × (r.err ≡ false))
      × (2 ^ 32 ≤ v → (read ≡ none) × (r.err ≡ true))
read_head-put_head mt v w post hm hv ok =
    let e : (put_head mt v w).1.out ≡ w.out ++ head_bytes mt v =
      ap (λ x. x.out) (put_head_lem mt v w ok) in
    rw (e, append_assoc w.out (head_bytes mt v) post)
      (
        λ h.
            rw (read_head-head_bytes w.out post mt v hm h)
              (refl, sym (length-append w.out (head_bytes mt v)), refl),
        λ h. rw (read_eight w.out post mt v hm h hv) (refl, refl),
      )

put_bytes_lem :
    (p : List ℕ) (w : Writer)
    → (put_bytes p w).0 ≡ true
    → (put_bytes p w).1 ≡ record w { out = w.out ++ p }
unfolding put_bytes
put_bytes_lem p w h = ground arith

-- A head and the bytes it announces, as the two string writers put them.
string_bytes : ℕ → List ℕ → List ℕ
string_bytes mt s = head_bytes mt (length s) ++ s

put_string_lem :
    (mt : ℕ) (s : List ℕ) (w : Writer)
    → ((put_head mt (length s) and_then put_bytes s) w).0 ≡ true
    → ((put_head mt (length s) and_then put_bytes s) w).1
      ≡ record w { out = w.out ++ string_bytes mt s }
unfolding string_bytes
put_string_lem mt s w h = ground (
  arith,
  put_head_lem mt (length s) w,
  put_bytes_lem s (put_head mt (length s) w).1,
  append_assoc w.out (head_bytes mt (length s)) s,
)

read_string :
    (mt : ℕ) (s pre post : List ℕ)
    → mt < 8
    → length s < 2 ^ 32
    → read_byte_run mt
        (record { buf = pre ++ (string_bytes mt s ++ post); pos = length pre; err = false })
      ≡ (
        some s,
        record {
          buf = pre ++ (string_bytes mt s ++ post);
          pos = length (pre ++ string_bytes mt s);
          err = false;
        },
      )
unfolding read_byte_run of_type run_of string_bytes
read_string mt s pre post hm h =
    let head = head_bytes mt (length s) in
    let before : drop (length pre + length head) (pre ++ (head ++ (s ++ post))) ≡ s ++ post =
      rw (← append_assoc pre head (s ++ post)) (
        drop_append (length pre + length head) (pre ++ head) (s ++ post)
          (omega (arith, length-append pre head))) in
    rw
      (
        append_assoc head s post,
        read_head-head_bytes pre (s ++ post) mt (length s) hm h,
        ==_refl mt,
      )
      (ground (
        arith,
        before,
        take_append (length s) s post refl,
        length-append pre (head ++ (s ++ post)),
        length-append head (s ++ post),
        length-append s post,
        length-append pre (head ++ s),
        length-append head s,
      ))

-- A byte string or a text that was written is read back, and the reader then stands behind it.
pub read_string-write_string :
    (s : List ℕ) (w : Writer) (post : List ℕ)
    → length s < 2 ^ 32
    → let (ok, w') = write_byte_string s w in
      let (ok_text, w_text) = write_text s w in
      (ok ≡ true
        → read_bytes (reading_back w w' post)
          ≡ (some s, record (reading_back w w' post) { pos = length w'.out }))
      × (ok_text ≡ true
          → read_text (reading_back w w_text post)
            ≡ (some s, record (reading_back w w_text post) { pos = length w_text.out }))
unfolding write_byte_string write_text read_bytes read_text
read_string-write_string s w post h = (
  λ ok.
      let e = ap (λ x. x.out) (put_string_lem mt_byte_str s w ok) in
      rw (e, append_assoc w.out (string_bytes mt_byte_str s) post)
        (read_string mt_byte_str s w.out post (omega arith) h),
  λ ok.
      let e = ap (λ x. x.out) (put_string_lem mt_text_str s w ok) in
      rw (e, append_assoc w.out (string_bytes mt_text_str s) post)
        (read_string mt_text_str s w.out post (omega arith) h),
)
