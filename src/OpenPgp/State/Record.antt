-- ===== src/OpenPgp/State/Record.antt =====
-- The O3 record of firmware/src/openpgp/openpgp_state.c: the 214 bytes of `s_cur` as a record of
-- the fields at their offsets, its checks and its defaults.
use Prim.Native.Nat.{bit_or}
use nixtropic.Base.{
  ℕ, List, [], ◌∷◌, ◌++◌, Bool, not, ◌&&◌, ◌||◌, leb, ◌==◌, if◌then◌else◌, length, get_or, take,
  drop, replicate, ◌≡◌,
}

abbrev pub o3_len : ℕ
o3_len = 214

abbrev pub name_max : ℕ
name_max = 39

abbrev pub sex_na : ℕ
sex_na = 0x39

abbrev pub lc_operational : ℕ
lc_operational = 1

abbrev pub lc_terminated : ℕ
lc_terminated = 2

-- openpgp_dec_rec_t
pub record DecRec : Type 0 where
  pub dec_pub : List ℕ
  pub nonce : List ℕ
  pub ct : List ℕ
  pub tag : List ℕ

pub record O3 : Type 0 where
  pub lc : ℕ
  pub rc_set : ℕ
  pub c4 : ℕ
  pub uif : ℕ
  pub name_len : ℕ
  pub name : List ℕ
  pub lang : List ℕ
  pub sex : ℕ
  pub fpr_sig : List ℕ
  pub fpr_dec : List ℕ
  pub fpr_aut : List ℕ
  pub gentime_sig : List ℕ
  pub gentime_dec : List ℕ
  pub gentime_aut : List ℕ
  pub sigcnt : List ℕ
  pub dec : DecRec

-- The bytes at `off`.
abbrev pub slice : ℕ → ℕ → List ℕ → List ℕ
slice off len buf = take len (drop off buf)

unfoldable pub o3_bytes : O3 → List ℕ
o3_bytes o =
    o.lc
    ∷ o.rc_set
    ∷ o.c4
    ∷ o.uif
    ∷ o.name_len
    ∷ (o.name
        ++ (o.lang
            ++ o.sex
              ∷ (o.fpr_sig
                  ++ (o.fpr_dec
                      ++ (o.fpr_aut
                          ++ (o.gentime_sig
                              ++ (o.gentime_dec
                                  ++ (o.gentime_aut
                                      ++ (o.sigcnt
                                          ++ (o.dec.dec_pub
                                              ++ (o.dec.nonce ++ (o.dec.ct ++ o.dec.tag))))))))))))

unfoldable pub o3_of : List ℕ → O3
o3_of b = record {
  lc = get_or b 0 0;
  rc_set = get_or b 1 0;
  c4 = get_or b 2 0;
  uif = get_or b 3 0;
  name_len = get_or b 4 0;
  name = slice 5 39 b;
  lang = slice 44 2 b;
  sex = get_or b 46 0;
  fpr_sig = slice 47 20 b;
  fpr_dec = slice 67 20 b;
  fpr_aut = slice 87 20 b;
  gentime_sig = slice 107 4 b;
  gentime_dec = slice 111 4 b;
  gentime_aut = slice 115 4 b;
  sigcnt = slice 119 3 b;
  dec = record {
    dec_pub = slice 122 32 b;
    nonce = slice 154 12 b;
    ct = slice 166 32 b;
    tag = slice 198 16 b;
  };
}

unfoldable pub sex_ok : ℕ → Bool
sex_ok v = v == 0x31 || v == 0x32 || v == sex_na

-- `acc |= b[i]` over the bytes.
unfoldable pub or_all : ℕ → List ℕ → ℕ
or_all acc [] = acc
or_all acc (b ∷ bs) = or_all (bit_or acc b) bs

unfoldable pub all_zero : List ℕ → Bool
unfolding or_all
all_zero b = or_all 0 b == 0

unfoldable pub dec_ok : DecRec → Bool
unfolding all_zero
dec_ok d =
    let no_pub = all_zero d.dec_pub in
    let no_seal = all_zero (d.ct ++ d.tag) in
    if no_pub then no_seal && all_zero d.nonce else not no_seal

unfoldable pub fields_ok : O3 → Bool
unfolding sex_ok dec_ok
fields_ok o =
    (o.lc == lc_operational || o.lc == lc_terminated)
    && leb o.rc_set 1
    && leb o.c4 1
    && leb o.uif 2
    && leb o.name_len name_max
    && (o.lc == lc_terminated || sex_ok o.sex)
    && dec_ok o.dec

abbrev pub no_dec : DecRec
no_dec = record {
  dec_pub = replicate 32 0;
  nonce = replicate 12 0;
  ct = replicate 32 0;
  tag = replicate 16 0;
}

abbrev pub zeros : ℕ → O3
zeros lc = record {
  lc = lc;
  rc_set = 0;
  c4 = 0;
  uif = 0;
  name_len = 0;
  name = replicate 39 0;
  lang = replicate 2 0;
  sex = 0;
  fpr_sig = replicate 20 0;
  fpr_dec = replicate 20 0;
  fpr_aut = replicate 20 0;
  gentime_sig = replicate 4 0;
  gentime_dec = replicate 4 0;
  gentime_aut = replicate 4 0;
  sigcnt = replicate 3 0;
  dec = no_dec;
}

-- "en" for the language.
unfoldable pub defaults : ℕ → O3
defaults lc =
    if not (lc == lc_operational)
    then zeros lc
    else record (zeros lc) { c4 = 1; uif = 1; lang = 0x65 ∷ 0x6e ∷ []; sex = sex_na }

-- The fields have the lengths that the layout gives them.
pub record IsSized (o : O3) : Type 0 where
  pub name : length o.name ≡ name_max
  pub lang : length o.lang ≡ 2
  pub fpr_sig : length o.fpr_sig ≡ 20
  pub fpr_dec : length o.fpr_dec ≡ 20
  pub fpr_aut : length o.fpr_aut ≡ 20
  pub gentime_sig : length o.gentime_sig ≡ 4
  pub gentime_dec : length o.gentime_dec ≡ 4
  pub gentime_aut : length o.gentime_aut ≡ 4
  pub sigcnt : length o.sigcnt ≡ 3
  pub dec_pub : length o.dec.dec_pub ≡ 32
  pub nonce : length o.dec.nonce ≡ 12
  pub ct : length o.dec.ct ≡ 32
  pub tag : length o.dec.tag ≡ 16
