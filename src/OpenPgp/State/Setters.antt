-- ===== src/OpenPgp/State/Setters.antt =====
-- The setters of openpgp_state.c: each builds a record that may be stored.
use Prim.Native.Nat.{bit_or}
use nixtropic.Base.{
  ℕ, ◌≤◌, ◌<◌, List, [], ◌∷◌, ◌++◌, true, false, ◌&&◌, ◌||◌, ◌≡◌, refl, sym, ◌∙◌, arith, if_each,
  length, drop, replicate, length-append, length-drop, length-replicate, leb, ltb, ◌==◌, ==_iff,
  AreBytes,
}
use nixtropic.Base.Bits.{bit_or_byte}
use nixtropic.OpenPgp.State.Record.{
  O3, DecRec, IsSized, fields_ok, dec_ok, sex_ok, all_zero, or_all, name_max, no_dec,
}
use nixtropic.OpenPgp.State.Invariant.{IsGood}
use nixtropic.OpenPgp.State.{count_bytes, with_fingerprint, with_gentime}

-- The accumulated bits of two runs of bytes are 0 only if those of each are.
or_all_byte : (acc : ℕ) (b : List ℕ) → acc < 256 → AreBytes b → or_all acc b < 256
unfolding or_all
or_all_byte acc [] h hb = h
or_all_byte acc (x ∷ b) h hb = or_all_byte (bit_or acc x) b (bit_or_byte acc x h hb.0).0 hb.1

or_all_zero :
    (acc : ℕ) (b : List ℕ)
    → acc < 256
    → AreBytes b
    → or_all acc b ≡ 0
    → (acc ≡ 0) × (or_all 0 b ≡ 0)
unfolding or_all
or_all_zero acc [] h hb e = (e, refl)
or_all_zero acc (x ∷ b) h hb e =
    let (lt, zeros) = bit_or_byte acc x h hb.0 in
    let (none, rest) = or_all_zero (bit_or acc x) b lt hb.1 e in
    let (za, zx) = zeros none in (za, rw zx rest)

or_all-append : (acc : ℕ) (xs ys : List ℕ) → or_all acc (xs ++ ys) ≡ or_all (or_all acc xs) ys
unfolding or_all
or_all-append acc [] ys = refl
or_all-append acc (x ∷ xs) ys = or_all-append (bit_or acc x) xs ys

all_zero-append :
    (xs ys : List ℕ)
    → AreBytes xs
    → AreBytes ys
    → all_zero (xs ++ ys) ≡ true
    → (all_zero xs && all_zero ys) ≡ true
unfolding all_zero
all_zero-append xs ys hx hy h =
    let e = (==_iff _ 0).0 h in
    let (zx, zy) =
      or_all_zero (or_all 0 xs) ys (or_all_byte 0 xs (omega arith) hx) hy
        (sym (or_all-append 0 xs ys) ∙ e) in
    rw (zx, zy) refl

-- A key that dec_set takes is a public key and a wrap.
pub dec_given :
    (d : DecRec)
    → AreBytes d.ct
    → AreBytes d.tag
    → (all_zero d.dec_pub || (all_zero d.ct && all_zero d.tag)) ≡ false
    → dec_ok d ≡ true
unfolding dec_ok
dec_given d hc ht h = ground (arith, h, all_zero-append d.ct d.tag hc ht)

no_dec_ok : dec_ok no_dec ≡ true
unfolding dec_ok
no_dec_ok = refl

-- Two records whose fields are as long as each other's.
resize :
    (o o' : O3)
    → IsSized o
    → length o'.name ≡ length o.name
    → length o'.lang ≡ length o.lang
    → (length o'.fpr_sig ≡ length o.fpr_sig)
      × (length o'.fpr_dec ≡ length o.fpr_dec)
      × (length o'.fpr_aut ≡ length o.fpr_aut)
    → (length o'.gentime_sig ≡ length o.gentime_sig)
      × (length o'.gentime_dec ≡ length o.gentime_dec)
      × (length o'.gentime_aut ≡ length o.gentime_aut)
    → length o'.sigcnt ≡ length o.sigcnt
    → (length o'.dec.dec_pub ≡ 32)
      × (length o'.dec.nonce ≡ 12)
      × (length o'.dec.ct ≡ 32)
      × (length o'.dec.tag ≡ 16)
    → IsSized o'
resize o o' s n l (f1, f2, f3) (g1, g2, g3) c (d1, d2, d3, d4) = record {
  name = n ∙ s.name;
  lang = l ∙ s.lang;
  fpr_sig = f1 ∙ s.fpr_sig;
  fpr_dec = f2 ∙ s.fpr_dec;
  fpr_aut = f3 ∙ s.fpr_aut;
  gentime_sig = g1 ∙ s.gentime_sig;
  gentime_dec = g2 ∙ s.gentime_dec;
  gentime_aut = g3 ∙ s.gentime_aut;
  sigcnt = c ∙ s.sigcnt;
  dec_pub = d1;
  nonce = d2;
  ct = d3;
  tag = d4;
}

module _ (o : O3) (good : IsGood o) where
  abbrev sized : IsSized o
  sized = good.0

  abbrev same_dec :
      (length o.dec.dec_pub ≡ 32)
      × (length o.dec.nonce ≡ 12)
      × (length o.dec.ct ≡ 32)
      × (length o.dec.tag ≡ 16)
  same_dec = (sized.dec_pub, sized.nonce, sized.ct, sized.tag)

  pub set_rc_set-IsGood : (v : ℕ) → leb v 1 ≡ true → IsGood (record o { rc_set = v })
  unfolding fields_ok
  set_rc_set-IsGood v h = (
    resize o _ sized refl refl (refl, refl, refl) (refl, refl, refl) refl same_dec,
    ground (arith, h, good.1),
  )

  pub set_c4-IsGood : (v : ℕ) → leb v 1 ≡ true → IsGood (record o { c4 = v })
  unfolding fields_ok
  set_c4-IsGood v h = (
    resize o _ sized refl refl (refl, refl, refl) (refl, refl, refl) refl same_dec,
    ground (arith, h, good.1),
  )

  pub set_uif-IsGood : (v : ℕ) → ltb 2 v ≡ false → IsGood (record o { uif = v })
  unfolding fields_ok
  set_uif-IsGood v h = (
    resize o _ sized refl refl (refl, refl, refl) (refl, refl, refl) refl same_dec,
    ground (arith, h, good.1),
  )

  pub set_sex-IsGood : (v : ℕ) → sex_ok v ≡ true → IsGood (record o { sex = v })
  unfolding fields_ok
  set_sex-IsGood v h = (
    resize o _ sized refl refl (refl, refl, refl) (refl, refl, refl) refl same_dec,
    ground (arith, h, good.1),
  )

  pub set_lang-IsGood : (v : List ℕ) → length v ≡ 2 → IsGood (record o { lang = v })
  unfolding fields_ok
  set_lang-IsGood v h = (
    resize o _ sized refl (h ∙ sym sized.lang) (refl, refl, refl) (refl, refl, refl) refl same_dec,
    good.1,
  )

  pub set_name-IsGood :
      (v : List ℕ)
      → ltb name_max (length v) ≡ false
      → IsGood
          (record o { name_len = length v; name = v ++ drop (length v) (replicate name_max 0) })
  unfolding fields_ok
  set_name-IsGood v h =
      let rest : List ℕ = drop (length v) (replicate name_max 0) in
      let short : length v ≤ name_max = ground (arith, h) in
      let len : length (v ++ rest) ≡ length o.name = omega (
        arith,
        short,
        sized.name,
        length-append v rest,
        length-drop {A = ℕ} (length v) (replicate name_max 0),
        length-replicate {A = ℕ} name_max 0,
      ) in
      (
        resize o _ sized len refl (refl, refl, refl) (refl, refl, refl) refl same_dec,
        ground (arith, h, good.1),
      )

  pub set_fingerprint-IsGood :
      (key : ℕ) (v : List ℕ) → length v ≡ 20 → IsGood (with_fingerprint key v o)
  unfolding with_fingerprint fields_ok
  set_fingerprint-IsGood key v h =
      if_each IsGood (key == 0) _ _
        (λ e. (
          resize o _ sized refl refl (h ∙ sym sized.fpr_sig, refl, refl) (refl, refl, refl) refl
              same_dec,
          good.1,
        ))
        (λ e.
          if_each IsGood (key == 1) _ _
            (λ e. (
              resize o _ sized refl refl (refl, h ∙ sym sized.fpr_dec, refl) (refl, refl, refl) refl
                  same_dec,
              good.1,
            ))
            (λ e. (
              resize o _ sized refl refl (refl, refl, h ∙ sym sized.fpr_aut) (refl, refl, refl) refl
                  same_dec,
              good.1,
            )))

  pub set_gentime-IsGood : (key : ℕ) (v : List ℕ) → length v ≡ 4 → IsGood (with_gentime key v o)
  unfolding with_gentime fields_ok
  set_gentime-IsGood key v h =
      if_each IsGood (key == 0) _ _
        (λ e. (
          resize o _ sized refl refl (refl, refl, refl) (h ∙ sym sized.gentime_sig, refl, refl) refl
              same_dec,
          good.1,
        ))
        (λ e.
          if_each IsGood (key == 1) _ _
            (λ e. (
              resize o _ sized refl refl (refl, refl, refl) (refl, h ∙ sym sized.gentime_dec, refl)
                  refl same_dec,
              good.1,
            ))
            (λ e. (
              resize o _ sized refl refl (refl, refl, refl) (refl, refl, h ∙ sym sized.gentime_aut)
                  refl same_dec,
              good.1,
            )))

  pub set_count-IsGood : (c : ℕ) → IsGood (record o { sigcnt = count_bytes c })
  unfolding count_bytes fields_ok
  set_count-IsGood c = (
    resize o _ sized refl refl (refl, refl, refl) (refl, refl, refl) (sym sized.sigcnt) same_dec,
    good.1,
  )

  pub dec_set-IsGood :
      (d : DecRec)
      → (length d.dec_pub ≡ 32) × (length d.nonce ≡ 12) × (length d.ct ≡ 32) × (length d.tag ≡ 16)
      → dec_ok d ≡ true
      → IsGood (record o { dec = d })
  unfolding fields_ok
  dec_set-IsGood d lens h = (
    resize o _ sized refl refl (refl, refl, refl) (refl, refl, refl) refl lens,
    ground (arith, h, good.1),
  )

  pub dec_destroy-IsGood :
      IsGood (record o { dec = no_dec; fpr_dec = replicate 20 0; gentime_dec = replicate 4 0 })
  unfolding fields_ok
  dec_destroy-IsGood = (
    resize o _ sized refl refl (refl, sym sized.fpr_dec, refl) (refl, sym sized.gentime_dec, refl)
        refl (refl, refl, refl, refl),
    ground (arith, good.1, no_dec_ok),
  )
