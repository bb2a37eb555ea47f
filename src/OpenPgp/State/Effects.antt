-- ===== src/OpenPgp/State/Effects.antt =====
-- What the setters of openpgp_state.c do to the state.
use nixtropic.Base.{
  ℕ, ◌+◌, ◌%◌, ◌^◌, ◌<◌, List, true, not, ◌&&◌, ◌||◌, ◌≡◌, ◌≢◌, ◌⊎◌, inl, inr, refl, ap, ◌∙◌, arith,
  if_each, length, leb, ltb, ◌==◌, AreBytes,
}
use nixtropic.Tropic.Rmem.{Rmem}
use nixtropic.Tropic.RecPair.{
  RecStatus, RecPair, rec_ok, rec_absent, rec_corrupt, rec_error, rec_pair_write,
}
use nixtropic.OpenPgp.State.Record.{
  O3, DecRec, all_zero, lc_operational, o3_bytes, sex_ok, name_max,
}
use nixtropic.OpenPgp.State.Invariant.{IsGood}
use nixtropic.OpenPgp.State.Setters.{
  dec_given, set_rc_set-IsGood, set_c4-IsGood, set_uif-IsGood, set_sex-IsGood, set_lang-IsGood,
  set_name-IsGood, set_fingerprint-IsGood, set_gentime-IsGood, set_count-IsGood, dec_set-IsGood,
  dec_destroy-IsGood,
}
use nixtropic.OpenPgp.State.{
  Pgp, usable, commit, take_record, count_of, count_bytes, key_ok, with_fingerprint, with_gentime,
  openpgp_state_set_rc_set, openpgp_state_set_c4_multi, openpgp_state_set_uif,
  openpgp_state_set_name, openpgp_state_set_lang, openpgp_state_set_sex,
  openpgp_state_set_fingerprint, openpgp_state_set_gentime, openpgp_state_sig_counter_increment,
  openpgp_state_dec_set, openpgp_state_dec_destroy,
}

-- The setters, with their arguments.
pub data Setter : Type 0 where
  set_rc_set set_c4_multi set_uif set_sex : ℕ → Setter
  set_name set_lang : List ℕ → Setter
  set_fingerprint set_gentime : ℕ → List ℕ → Setter
  sig_counter_increment dec_destroy : Setter
  dec_set : DecRec → Setter

-- The arguments are of their C types: arrays of their lengths, and bytes.
abbrev pub IsTyped : Setter → Type 0
IsTyped (set_lang v) = length v ≡ 2
IsTyped (set_fingerprint key v) = length v ≡ 20
IsTyped (set_gentime key v) = length v ≡ 4
IsTyped (dec_set d) =
    (length d.dec_pub ≡ 32)
    × (length d.nonce ≡ 12)
    × (length d.ct ≡ 32)
    × (length d.tag ≡ 16)
    × AreBytes d.ct
    × AreBytes d.tag
IsTyped _ = Unit

module _ (sha256 : List ℕ → List ℕ) (m : Rmem) where
  unfoldable pub set : Setter → Pgp m → ℕ × Pgp m
  set (set_rc_set v) g = openpgp_state_set_rc_set sha256 m v g
  set (set_c4_multi v) g = openpgp_state_set_c4_multi sha256 m v g
  set (set_uif v) g = openpgp_state_set_uif sha256 m v g
  set (set_sex v) g = openpgp_state_set_sex sha256 m v g
  set (set_name v) g = openpgp_state_set_name sha256 m v g
  set (set_lang v) g = openpgp_state_set_lang sha256 m v g
  set (set_fingerprint key v) g = openpgp_state_set_fingerprint sha256 m key v g
  set (set_gentime key v) g = openpgp_state_set_gentime sha256 m key v g
  set sig_counter_increment g = openpgp_state_sig_counter_increment sha256 m g
  set dec_destroy g = openpgp_state_dec_destroy sha256 m g
  set (dec_set d) g = openpgp_state_dec_set sha256 m d g

  -- What a setter does: it is refused with a code and the state as it was, or has nothing to do,
  -- or commits a record in the same lifecycle that may be stored if the old one may, and in which
  -- a permanent UIF is permanent.
  abbrev pub Effect : Pgp m → ℕ × Pgp m → Type 0
  Effect g x =
      ((x.0 ≢ 0) × (x.1 ≡ g))
      ⊎ ((x ≡ (0, g))
          ⊎ ((next : O3) × (IsGood g.cur → IsGood next)
              × (next.lc ≡ g.cur.lc)
              × (usable m g ≡ true → g.cur.uif ≡ 2 → next.uif ≡ 2)
              × (x ≡ commit sha256 m next g)))

  refused : (k : ℕ) (g : Pgp m) → k ≢ 0 → Effect g (k, g)
  refused k g ne = inl (ne, refl)

  fingerprint_keeps :
      (key : ℕ) (v : List ℕ) (o : O3)
      → ((with_fingerprint key v o).lc ≡ o.lc) × ((with_fingerprint key v o).uif ≡ o.uif)
  unfolding with_fingerprint
  fingerprint_keeps key v o = ground arith

  gentime_keeps :
      (key : ℕ) (v : List ℕ) (o : O3)
      → ((with_gentime key v o).lc ≡ o.lc) × ((with_gentime key v o).uif ≡ o.uif)
  unfolding with_gentime
  gentime_keeps key v o = ground arith

  pub set-Effect : (call : Setter) (g : Pgp m) → IsTyped call → Effect g (set call g)
  unfolding set openpgp_state_set_rc_set openpgp_state_set_c4_multi openpgp_state_set_uif
      openpgp_state_set_name openpgp_state_set_lang openpgp_state_set_sex
      openpgp_state_set_fingerprint openpgp_state_set_gentime openpgp_state_sig_counter_increment
      openpgp_state_dec_set openpgp_state_dec_destroy
  set-Effect (set_rc_set v) g typed =
      if_each (Effect g) (leb v 1) _ _
        (λ e. inr (inr (_, (λ good. set_rc_set-IsGood g.cur good v e), refl, (λ u p. p), refl)))
        (λ e. refused 1 g (omega arith))
  set-Effect (set_c4_multi v) g typed =
      if_each (Effect g) (leb v 1) _ _
        (λ e. inr (inr (_, (λ good. set_c4-IsGood g.cur good v e), refl, (λ u p. p), refl)))
        (λ e. refused 1 g (omega arith))
  set-Effect (set_uif v) g typed =
      if_each (Effect g) (ltb 2 v) _ _ (λ e. refused 1 g (omega arith))
        (λ e.
          if_each (Effect g) (usable m g && g.cur.uif == 2 && not (v == 2)) _ _
            (λ f. refused 3 g (omega arith))
            (λ f. inr (
              inr (
                _,
                (λ good. set_uif-IsGood g.cur good v e),
                refl,
                (λ u p. ground (arith, f, u, p)),
                refl,
              ))))
  set-Effect (set_sex v) g typed =
      if_each (Effect g) (sex_ok v) _ _
        (λ e. inr (inr (_, (λ good. set_sex-IsGood g.cur good v e), refl, (λ u p. p), refl)))
        (λ e. refused 1 g (omega arith))
  set-Effect (set_name v) g typed =
      if_each (Effect g) (ltb name_max (length v)) _ _ (λ e. refused 1 g (omega arith))
        (λ e. inr (inr (_, (λ good. set_name-IsGood g.cur good v e), refl, (λ u p. p), refl)))
  set-Effect (set_lang v) g typed =
      inr (inr (_, (λ good. set_lang-IsGood g.cur good v typed), refl, (λ u p. p), refl))
  set-Effect (set_fingerprint key v) g typed =
      let (lc, uif) = fingerprint_keeps key v g.cur in
      if_each (Effect g) (key_ok key) _ _
        (λ e. inr (
          inr (
            _,
            (λ good. set_fingerprint-IsGood g.cur good key v typed),
            lc,
            (λ u p. uif ∙ p),
            refl,
          )))
        (λ e. refused 1 g (omega arith))
  set-Effect (set_gentime key v) g typed =
      let (lc, uif) = gentime_keeps key v g.cur in
      if_each (Effect g) (key_ok key) _ _
        (λ e. inr (
          inr (_, (λ good. set_gentime-IsGood g.cur good key v typed), lc, (λ u p. uif ∙ p), refl)))
        (λ e. refused 1 g (omega arith))
  set-Effect sig_counter_increment g typed =
      inr (inr (_, (λ good. set_count-IsGood g.cur good _), refl, (λ u p. p), refl))
  set-Effect dec_destroy g typed =
      if_each (Effect g) (not (usable m g)) _ _ (λ e. refused 1 g (omega arith))
        (λ e.
          if_each (Effect g) _ (0, g) _ (λ f. inr (inl refl))
            (λ f. inr (inr (_, (λ good. dec_destroy-IsGood g.cur good), refl, (λ u p. p), refl))))
  set-Effect (dec_set d) g (p, n, c, t, bc, bt) =
      if_each (Effect g) (all_zero d.dec_pub || (all_zero d.ct && all_zero d.tag)) _ _
        (λ e. refused 1 g (omega arith))
        (λ e. inr (
          inr (
            _,
            (λ good. dec_set-IsGood g.cur good d (p, n, c, t) (dec_given d bc bt e)),
            refl,
            (λ u q. q),
            refl,
          )))

  take_result :
      (st : RecStatus) (p : RecPair) (s : m.State) (next : O3) (g : Pgp m)
      → usable m g ≡ true
      → let x = take_record sha256 m (st, p, s) next g in
        ((x.0 ≢ 0) × (x.1.cur ≡ g.cur)) ⊎ ((x.0 ≡ 0) × (x.1.cur ≡ next) × (usable m g ≡ true))
  unfolding take_record
  take_result rec_ok p s next g u = inr (refl, refl, u)
  take_result rec_absent p s next g u = inl (omega arith, refl)
  take_result rec_corrupt p s next g u = inl (omega arith, refl)
  take_result rec_error p s next g u = inl (omega arith, refl)

  -- A commit that fails leaves the record in RAM; one that does not was of a usable state.
  commit_result :
      (next : O3) (g : Pgp m)
      → (((commit sha256 m next g).0 ≢ 0) × ((commit sha256 m next g).1.cur ≡ g.cur))
        ⊎ (((commit sha256 m next g).0 ≡ 0)
            × ((commit sha256 m next g).1.cur ≡ next)
            × (usable m g ≡ true))
  unfolding commit take_record
  commit_result next g =
      let D = λ (x : ℕ × Pgp m).
        ((x.0 ≢ 0) × (x.1.cur ≡ g.cur)) ⊎ ((x.0 ≡ 0) × (x.1.cur ≡ next) × (usable m g ≡ true)) in
      let (st, p, s) = rec_pair_write sha256 m g.o3 (o3_bytes next) g.chip in
      if_each D (usable m g && g.cur.lc == lc_operational) _ _
        (λ u. take_result st p s next g (ground (arith, u))) (λ off. inl (omega arith, refl))

  -- A setter that returns an error leaves the state's record in RAM as it was.
  pub failed_setter_keeps :
      (call : Setter) (g : Pgp m) → IsTyped call → (set call g).0 ≢ 0 → (set call g).1.cur ≡ g.cur
  failed_setter_keeps call g typed bad = elim (set-Effect call g typed) [
    | inl (ne, same) ↦ ap (λ (x : Pgp m). x.cur) same
    | inr (inl e) ↦ ap (λ (x : ℕ × Pgp m). x.1.cur) e
    | inr (inr (next, k, l, u, e)) ↦ elim (commit_result next g) [
      | inl (ne, same) ↦ ap (λ (x : ℕ × Pgp m). x.1.cur) e ∙ same
      | inr (z, same, us) ↦ absurd (bad (ap (λ (x : ℕ × Pgp m). x.0) e ∙ z))
    ]
  ]

  pub set_permanent :
      (call : Setter) (g : Pgp m)
      → IsTyped call
      → g.cur.uif ≡ 2
      → g.cur.lc ≡ lc_operational
      → ((set call g).1.cur.uif ≡ 2) × ((set call g).1.cur.lc ≡ lc_operational)
  set_permanent call g typed two op = elim (set-Effect call g typed) [
    | inl (ne, same) ↦ rw same (two, op)
    | inr (inl e) ↦ rw e (two, op)
    | inr (inr (next, k, l, u, e)) ↦ elim (commit_result next g) [
      | inl (ne, same) ↦ rw (e, same) (two, op)
      | inr (z, same, us) ↦ rw (e, same) (u us two, l ∙ op)
    ]
  ]

  count_round : (c : ℕ) → c < 2 ^ 24 → count_of (count_bytes c) ≡ c
  unfolding count_of count_bytes
  count_round c h = omega arith

  -- An increment of the signature counter that is committed adds one modulo 2^24 and changes no
  -- other field.
  pub sig_counter_increment_adds :
      (g : Pgp m)
      → (openpgp_state_sig_counter_increment sha256 m g).0 ≡ 0
      → let new = (openpgp_state_sig_counter_increment sha256 m g).1.cur in
        (count_of new.sigcnt ≡ (count_of g.cur.sigcnt + 1) % 2 ^ 24)
        × (record new { sigcnt = g.cur.sigcnt } ≡ g.cur)
  unfolding openpgp_state_sig_counter_increment
  sig_counter_increment_adds g ok =
      let c = (count_of g.cur.sigcnt + 1) % 2 ^ 24 in
      let next : O3 = record g.cur { sigcnt = count_bytes c } in
      elim (commit_result next g) [
        | inl (ne, same) ↦ absurd (ne ok)
        | inr (z, same, us) ↦ rw same (count_round c (omega arith), refl)
      ]
