-- ===== src/OpenPgp/State.antt =====
-- firmware/src/openpgp/openpgp_state.c and openpgp_state.h: the persistent state O3 of the OpenPGP
-- card. The static variables and the chip are a record. A code 0 is 0 and a code -n is n. A NULL
-- argument is not modelled, and a key is its number, never negative.
pub mod Record
pub mod Codec
pub mod Invariant
pub mod Setters
pub mod Effects
pub mod Session
pub mod Clear
pub mod Acknowledged
mod Tests
use nixtropic.Base.{
  ℕ, ◌+◌, ◌*◌, ◌%◌, ◌^◌, List, [], ◌∷◌, ◌++◌, Bool, true, false, not, ◌&&◌, ◌||◌, Option, none,
  some, ltb, leb, ◌==◌, if◌then◌else◌, length, get_or, take, drop, replicate, byte_of,
}
use nixtropic.Tropic.Rmem.{Rmem}
use nixtropic.Tropic.RecPair.{
  RecPair, RecStatus, rec_ok, rec_absent, rec_corrupt, rec_error, rec_payload_max, Outcome,
  rec_pair_read, rec_pair_write, rec_pair_init, rec_pair_clear,
}
use nixtropic.OpenPgp.State.Record.{
  O3, DecRec, o3_bytes, o3_of, o3_len, name_max, sex_na, lc_operational, lc_terminated, sex_ok,
  all_zero, fields_ok, defaults, no_dec, zeros,
}

-- s_o3 at the start of the program.
abbrev pub o3_pair : RecPair
o3_pair = record { slot_a = 33; slot_b = 43; obj = 3; schema = 2; uncertain = false }

pub record Pgp (m : Rmem) : Type 0 where
  pub o3 : RecPair
  pub cur : O3
  pub loaded : Bool
  pub chip : m.State

pub data Lifecycle : Type 0 where
  pgp_lc_error pgp_lc_operational pgp_lc_terminated : Lifecycle

lc_byte : Lifecycle → ℕ
lc_byte pgp_lc_error = 0
lc_byte pgp_lc_operational = lc_operational
lc_byte pgp_lc_terminated = lc_terminated

-- The count that the three bytes of DO 93 are.
pub count_of : List ℕ → ℕ
count_of b = get_or b 0 0 * 2 ^ 16 + get_or b 1 0 * 2 ^ 8 + get_or b 2 0

pub count_bytes : ℕ → List ℕ
count_bytes c = byte_of c 2 ∷ byte_of c 1 ∷ byte_of c 0 ∷ []

pub with_fingerprint : ℕ → List ℕ → O3 → O3
with_fingerprint key v o =
    if key == 0
    then record o { fpr_sig = v }
    else if key == 1
    then record o { fpr_dec = v }
    else record o { fpr_aut = v }

pub with_gentime : ℕ → List ℕ → O3 → O3
with_gentime key v o =
    if key == 0
    then record o { gentime_sig = v }
    else if key == 1
    then record o { gentime_dec = v }
    else record o { gentime_aut = v }

fingerprint_of : ℕ → O3 → List ℕ
fingerprint_of key o = if key == 0 then o.fpr_sig else if key == 1 then o.fpr_dec else o.fpr_aut

gentime_of : ℕ → O3 → List ℕ
gentime_of key o =
    if key == 0 then o.gentime_sig else if key == 1 then o.gentime_dec else o.gentime_aut

abbrev key_ok : ℕ → Bool
key_ok key = leb key 2

module _ (m : Rmem) where
  unfoldable pub usable : Pgp m → Bool
  usable g = g.loaded && not g.o3.uncertain

  -- 0 is PGP_LC_ERROR.
  unfoldable pub openpgp_state_lifecycle : Pgp m → ℕ
  unfolding usable
  openpgp_state_lifecycle g = if usable g then g.cur.lc else 0

  pub openpgp_state_rc_set : Pgp m → ℕ
  unfolding usable
  openpgp_state_rc_set g = if usable g then g.cur.rc_set else 0

  pub openpgp_state_c4_multi : Pgp m → ℕ
  unfolding usable
  openpgp_state_c4_multi g = if usable g then g.cur.c4 else 0

  pub openpgp_state_uif : Pgp m → ℕ
  unfolding usable
  openpgp_state_uif g = if usable g then g.cur.uif else 1

  pub openpgp_state_name : Pgp m → List ℕ
  unfolding usable
  openpgp_state_name g = if usable g then take g.cur.name_len g.cur.name else []

  pub openpgp_state_lang : Pgp m → List ℕ
  unfolding usable
  openpgp_state_lang g = if usable g then g.cur.lang else replicate 2 0

  pub openpgp_state_sex : Pgp m → ℕ
  unfolding usable
  openpgp_state_sex g = if usable g then g.cur.sex else sex_na

  pub openpgp_state_fingerprint : ℕ → Pgp m → List ℕ
  unfolding usable fingerprint_of
  openpgp_state_fingerprint key g =
      if key_ok key && usable g then fingerprint_of key g.cur else replicate 20 0

  pub openpgp_state_gentime : ℕ → Pgp m → List ℕ
  unfolding usable gentime_of
  openpgp_state_gentime key g =
      if key_ok key && usable g then gentime_of key g.cur else replicate 4 0

  pub openpgp_state_sig_counter : Pgp m → List ℕ
  unfolding usable
  openpgp_state_sig_counter g = if usable g then g.cur.sigcnt else replicate 3 0

  -- `none` for -1.
  unfoldable pub openpgp_state_dec_get : Pgp m → Option DecRec
  unfolding usable
  openpgp_state_dec_get g =
      if not (usable g) || all_zero g.cur.dec.dec_pub then none else some g.cur.dec

module _ (sha256 : List ℕ → List ℕ) (m : Rmem) where
  -- RAM takes the record if the pair call was acknowledged.
  take_record : RecStatus × RecPair × m.State → O3 → Pgp m → ℕ × Pgp m
  take_record (rec_ok, p, s) next g = (0, record g { o3 = p; cur = next; chip = s })
  take_record (_, p, s) next g = (1, record g { o3 = p; chip = s })

  unfoldable pub commit : O3 → Pgp m → ℕ × Pgp m
  unfolding usable take_record
  commit next g =
      if usable m g && g.cur.lc == lc_operational
      then take_record (rec_pair_write sha256 m g.o3 (o3_bytes next) g.chip) next g
      else (1, g)

  unfoldable pub openpgp_state_activate : Pgp m → ℕ × Pgp m
  unfolding usable take_record
  openpgp_state_activate g =
      let next = defaults lc_operational in
      if usable m g && g.cur.lc == lc_terminated
      then take_record (rec_pair_write sha256 m g.o3 (o3_bytes next) g.chip) next g
      else (1, g)

  -- 0 loaded, 1 absent, 2 for a negative code.
  take_loaded : RecStatus → List ℕ → Pgp m → ℕ × Pgp m
  take_loaded rec_absent buf g = (1, g)
  take_loaded rec_ok buf g =
      if length buf == o3_len && fields_ok (o3_of buf)
      then (0, record g { cur = o3_of buf; loaded = true })
      else (2, g)
  take_loaded _ buf g = (2, g)

  unfoldable pub openpgp_state_load : Pgp m → ℕ × Pgp m
  unfolding take_loaded
  openpgp_state_load g =
      let out = rec_pair_read sha256 m g.o3 (some rec_payload_max) g.chip in
      take_loaded out.status out.payload
        (record g { o3 = out.pair; loaded = false; chip = out.chip })

  is_ok : RecStatus → Bool
  is_ok rec_ok = true
  is_ok _ = false

  unfoldable pub openpgp_state_clear : Pgp m → ℕ × Pgp m
  unfolding is_ok
  openpgp_state_clear g =
      let (st, p, s) = rec_pair_clear sha256 m (record g.o3 { uncertain = false }) g.chip in
      (if is_ok st then 0 else 1, record g { o3 = p; cur = zeros 0; loaded = false; chip = s })

  take_init : RecStatus × RecPair × m.State → O3 → Pgp m → ℕ × Pgp m
  take_init (rec_ok, p, s) next g = (0, record { o3 = p; cur = next; loaded = true; chip = s })
  take_init (_, p, s) next g = (1, record g { o3 = p; loaded = false; chip = s })

  unfoldable pub openpgp_state_init : Lifecycle → Pgp m → ℕ × Pgp m
  unfolding take_init
  openpgp_state_init pgp_lc_error g =
      (1, record g { o3 = record g.o3 { uncertain = false }; loaded = false })
  openpgp_state_init pgp_lc_operational g =
      let next = defaults lc_operational in
      let p = record g.o3 { uncertain = false } in
      take_init (rec_pair_init sha256 m p (o3_bytes next) g.chip) next g
  openpgp_state_init pgp_lc_terminated g =
      let next = defaults lc_terminated in
      let p = record g.o3 { uncertain = false } in
      take_init (rec_pair_init sha256 m p (o3_bytes next) g.chip) next g

  unfoldable pub openpgp_state_set_rc_set : ℕ → Pgp m → ℕ × Pgp m
  unfolding commit
  openpgp_state_set_rc_set v g = if leb v 1 then commit (record g.cur { rc_set = v }) g else (1, g)

  unfoldable pub openpgp_state_set_c4_multi : ℕ → Pgp m → ℕ × Pgp m
  unfolding commit
  openpgp_state_set_c4_multi v g = if leb v 1 then commit (record g.cur { c4 = v }) g else (1, g)

  unfoldable pub openpgp_state_set_uif : ℕ → Pgp m → ℕ × Pgp m
  unfolding commit usable
  openpgp_state_set_uif v g =
      if ltb 2 v
      then (1, g)
      else if usable m g && g.cur.uif == 2 && not (v == 2)
      then (3, g)
      else commit (record g.cur { uif = v }) g

  unfoldable pub openpgp_state_set_name : List ℕ → Pgp m → ℕ × Pgp m
  unfolding commit
  openpgp_state_set_name v g =
      if ltb name_max (length v)
      then (1, g)
      else commit
          (record g.cur { name_len = length v; name = v ++ drop (length v) (replicate name_max 0) })
          g

  unfoldable pub openpgp_state_set_lang : List ℕ → Pgp m → ℕ × Pgp m
  unfolding commit
  openpgp_state_set_lang v g = commit (record g.cur { lang = v }) g

  unfoldable pub openpgp_state_set_sex : ℕ → Pgp m → ℕ × Pgp m
  unfolding commit
  openpgp_state_set_sex v g = if sex_ok v then commit (record g.cur { sex = v }) g else (1, g)

  unfoldable pub openpgp_state_set_fingerprint : ℕ → List ℕ → Pgp m → ℕ × Pgp m
  unfolding commit with_fingerprint
  openpgp_state_set_fingerprint key v g =
      if key_ok key then commit (with_fingerprint key v g.cur) g else (1, g)

  unfoldable pub openpgp_state_set_gentime : ℕ → List ℕ → Pgp m → ℕ × Pgp m
  unfolding commit with_gentime
  openpgp_state_set_gentime key v g =
      if key_ok key then commit (with_gentime key v g.cur) g else (1, g)

  unfoldable pub openpgp_state_sig_counter_increment : Pgp m → ℕ × Pgp m
  unfolding commit count_of count_bytes
  openpgp_state_sig_counter_increment g =
      let c = (count_of g.cur.sigcnt + 1) % 2 ^ 24 in
      commit (record g.cur { sigcnt = count_bytes c }) g

  unfoldable pub openpgp_state_dec_set : DecRec → Pgp m → ℕ × Pgp m
  unfolding commit
  openpgp_state_dec_set d g =
      if all_zero d.dec_pub || (all_zero d.ct && all_zero d.tag)
      then (1, g)
      else commit (record g.cur { dec = d }) g

  unfoldable pub openpgp_state_dec_destroy : Pgp m → ℕ × Pgp m
  unfolding commit usable
  openpgp_state_dec_destroy g =
      if not (usable m g)
      then (1, g)
      else if all_zero (g.cur.dec.dec_pub ++ (g.cur.dec.nonce ++ (g.cur.dec.ct ++ g.cur.dec.tag)))
          && all_zero g.cur.fpr_dec
          && all_zero g.cur.gentime_dec
      then (0, g)
      else commit
          (record g.cur { dec = no_dec; fpr_dec = replicate 20 0; gentime_dec = replicate 4 0 }) g
