-- ===== src/OpenPgp/State/Codec.antt =====
-- The layout of O3 in openpgp_state.c: the fields and the 214 bytes are the same thing.
use nixtropic.Base.{
  ℕ, zero, suc, ◌+◌, ◌≤◌, ◌<◌, List, [], ◌∷◌, ◌++◌, ◌≡◌, refl, sym, ap, ◌∙◌, arith, length, get_or,
  get_or-drop, take, drop, take-append-drop, drop-drop, take_all, take_append, drop_append,
  length-take, length-drop, length-append,
}
use nixtropic.OpenPgp.State.Record.{O3, o3_bytes, o3_of, o3_len, slice, IsSized}

cons_drop : (i : ℕ) (b : List ℕ) → i < length b → get_or b i 0 ∷ drop (suc i) b ≡ drop i b
cons_drop i [] h = absurd (omega arith)
cons_drop zero (x ∷ b) h = refl
cons_drop (suc i) (x ∷ b) h = cons_drop i b (omega arith)

join : (k n : ℕ) (b : List ℕ) → slice k n b ++ drop (k + n) b ≡ drop k b
join k n b = ap (◌++◌ (slice k n b)) (sym (drop-drop n k b)) ∙ take-append-drop n (drop k b)

-- Every buffer of the record's length is the encoding of its fields.
pub o3_bytes-o3_of : (b : List ℕ) → length b ≡ o3_len → o3_bytes (o3_of b) ≡ b
unfolding o3_bytes o3_of
o3_bytes-o3_of b len =
    let last : slice 198 16 b ≡ drop 198 b =
      take_all 16 (drop 198 b) (omega (arith, length-drop 198 b)) in
    rw
      (
        last,
        join 166 32 b,
        join 154 12 b,
        join 122 32 b,
        join 119 3 b,
        join 115 4 b,
        join 111 4 b,
        join 107 4 b,
        join 87 20 b,
        join 67 20 b,
        join 47 20 b,
        cons_drop 46 b (omega arith),
        join 44 2 b,
        join 5 39 b,
        cons_drop 4 b (omega arith),
        cons_drop 3 b (omega arith),
        cons_drop 2 b (omega arith),
        cons_drop 1 b (omega arith),
        cons_drop 0 b (omega arith),
      )
      refl

length-slice : (k n : ℕ) (b : List ℕ) → k + n ≤ length b → length (slice k n b) ≡ n
length-slice k n b h = omega (arith, length-take n (drop k b), length-drop k b)

pub o3_of-IsSized : (b : List ℕ) → length b ≡ o3_len → IsSized (o3_of b)
unfolding o3_of
o3_of-IsSized b len = record {
  name = length-slice 5 39 b (omega arith);
  lang = length-slice 44 2 b (omega arith);
  fpr_sig = length-slice 47 20 b (omega arith);
  fpr_dec = length-slice 67 20 b (omega arith);
  fpr_aut = length-slice 87 20 b (omega arith);
  gentime_sig = length-slice 107 4 b (omega arith);
  gentime_dec = length-slice 111 4 b (omega arith);
  gentime_aut = length-slice 115 4 b (omega arith);
  sigcnt = length-slice 119 3 b (omega arith);
  dec_pub = length-slice 122 32 b (omega arith);
  nonce = length-slice 154 12 b (omega arith);
  ct = length-slice 166 32 b (omega arith);
  tag = length-slice 198 16 b (omega arith);
}

-- One field of `n` bytes at `k`, and what follows it.
field :
    (k n : ℕ) (b xs rest : List ℕ)
    → drop k b ≡ xs ++ rest
    → length xs ≡ n
    → (slice k n b ≡ xs) × (drop (k + n) b ≡ rest)
field k n b xs rest at_k len = (
  ap (take n) at_k ∙ take_append n xs rest (sym len),
  sym (drop-drop n k b) ∙ ap (drop n) at_k ∙ drop_append n xs rest (sym len),
)

from_5 :
    (o : O3)
    → drop 5 (o3_bytes o)
      ≡ o.name
        ++ (o.lang
            ++ o.sex
              ∷ (o.fpr_sig
                  ++ (o.fpr_dec
                      ++ (o.fpr_aut
                          ++ (o.gentime_sig
                              ++ (o.gentime_dec
                                  ++ (o.gentime_aut
                                      ++ (o.sigcnt
                                          ++ (o.dec.dec_pub
                                              ++ (o.dec.nonce ++ (o.dec.ct ++ o.dec.tag)))))))))))
unfolding o3_bytes
from_5 o = refl

head_bytes :
    (o : O3)
    → let b = o3_bytes o in
      (get_or b 0 0 ≡ o.lc)
      × (get_or b 1 0 ≡ o.rc_set)
      × (get_or b 2 0 ≡ o.c4)
      × (get_or b 3 0 ≡ o.uif)
      × (get_or b 4 0 ≡ o.name_len)
unfolding o3_bytes
head_bytes o = (refl, refl, refl, refl, refl)

-- The fields of the encoding of a record are the record's.
pub o3_of-o3_bytes : (o : O3) → IsSized o → o3_of (o3_bytes o) ≡ o
unfolding o3_of
o3_of-o3_bytes o s =
    let b = o3_bytes o in
    let (name, d44) = field 5 39 b o.name _ (from_5 o) s.name in
    let (lang, d46) = field 44 2 b o.lang _ d44 s.lang in
    let sex : get_or b 46 0 ≡ o.sex = get_or-drop 46 0 b 0 ∙ ap (λ x. get_or x 0 0) d46 in
    let d47 = sym (drop-drop 1 46 b) ∙ ap (drop 1) d46 in
    let (f1, d67) = field 47 20 b o.fpr_sig _ d47 s.fpr_sig in
    let (f2, d87) = field 67 20 b o.fpr_dec _ d67 s.fpr_dec in
    let (f3, d107) = field 87 20 b o.fpr_aut _ d87 s.fpr_aut in
    let (g1, d111) = field 107 4 b o.gentime_sig _ d107 s.gentime_sig in
    let (g2, d115) = field 111 4 b o.gentime_dec _ d111 s.gentime_dec in
    let (g3, d119) = field 115 4 b o.gentime_aut _ d115 s.gentime_aut in
    let (cnt, d122) = field 119 3 b o.sigcnt _ d119 s.sigcnt in
    let (key, d154) = field 122 32 b o.dec.dec_pub _ d122 s.dec_pub in
    let (nonce, d166) = field 154 12 b o.dec.nonce _ d154 s.nonce in
    let (ct, d198) = field 166 32 b o.dec.ct _ d166 s.ct in
    let tag : slice 198 16 b ≡ o.dec.tag =
      ap (take 16) d198 ∙ take_all 16 o.dec.tag (omega (arith, s.tag)) in
    let (h0, h1, h2, h3, h4) = head_bytes o in
    rw (h0, h1, h2, h3, h4, name, lang, sex, f1, f2, f3, g1, g2, g3, cnt, key, nonce, ct, tag) refl

pub length-o3_bytes : (o : O3) → IsSized o → length (o3_bytes o) ≡ o3_len
unfolding o3_bytes
length-o3_bytes o s =
    let d = o.dec in
    let t12 = d.ct ++ d.tag in
    let t11 = d.nonce ++ t12 in
    let t10 = d.dec_pub ++ t11 in
    let t9 = o.sigcnt ++ t10 in
    let t8 = o.gentime_aut ++ t9 in
    let t7 = o.gentime_dec ++ t8 in
    let t6 = o.gentime_sig ++ t7 in
    let t5 = o.fpr_aut ++ t6 in
    let t4 = o.fpr_dec ++ t5 in
    let t3 = o.fpr_sig ++ t4 in
    omega (
      arith,
      s.name,
      s.lang,
      s.fpr_sig,
      s.fpr_dec,
      s.fpr_aut,
      s.gentime_sig,
      s.gentime_dec,
      s.gentime_aut,
      s.sigcnt,
      s.dec_pub,
      s.nonce,
      s.ct,
      s.tag,
      length-append o.name (o.lang ++ o.sex ∷ t3),
      length-append o.lang (o.sex ∷ t3),
      length-append o.fpr_sig t4,
      length-append o.fpr_dec t5,
      length-append o.fpr_aut t6,
      length-append o.gentime_sig t7,
      length-append o.gentime_dec t8,
      length-append o.gentime_aut t9,
      length-append o.sigcnt t10,
      length-append d.dec_pub t11,
      length-append d.nonce t12,
      length-append d.ct d.tag,
    )
