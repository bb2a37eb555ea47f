-- ===== src/OpenPgp/State/Invariant.antt =====
-- The invariant of openpgp_state.c: while the state is usable, its fields are in range and both
-- copies of O3 on the chip say what the RAM says.
use nixtropic.Base.{
  ℕ, List, [], true, false, ◌&&◌, ◌≡◌, ◌≢◌, ◌⊎◌, inl, inr, refl, ap, arith, if_each, length, some,
  ◌==◌, AreBytes,
}
use nixtropic.Tropic.Rmem.{Rmem}
use nixtropic.Tropic.RecPair.{
  RecPair, RecStatus, rec_ok, rec_absent, rec_corrupt, rec_error, rec_payload_max, rec_pair_read,
  rec_pair_write, rec_pair_init, rec_pair_clear, uncertain_now, Outcome,
}
use nixtropic.Tropic.RecPair.Ops.{uncertain_refuses}
use nixtropic.Tropic.RecPair.Frame.{
  SamePair, SamePair_trans, rec_pair_read-Frame, rec_pair_clear-Frame, rec_pair_init-Frame,
}
use nixtropic.Tropic.RecPair.Stored.{
  Backs, Updated, rec_pair_write-Updated, rec_pair_init-Backs, rec_pair_read-Backs,
}
use nixtropic.OpenPgp.State.Record.{
  O3, o3_bytes, o3_of, o3_len, fields_ok, defaults, IsSized, lc_operational, lc_terminated,
}
use nixtropic.OpenPgp.State.Codec.{length-o3_bytes, o3_bytes-o3_of, o3_of-IsSized}
use nixtropic.OpenPgp.State.{
  Pgp, o3_pair, usable, commit, take_record, take_loaded, take_init, Lifecycle, pgp_lc_error,
  pgp_lc_operational, pgp_lc_terminated, openpgp_state_activate, openpgp_state_load,
  openpgp_state_clear, openpgp_state_init,
}

-- A record that may be stored: the layout's lengths, every field in range.
abbrev pub IsGood : O3 → Type 0
IsGood o = IsSized o × (fields_ok o ≡ true)

pair_distinct : o3_pair.slot_a ≢ o3_pair.slot_b
pair_distinct = omega arith

defaults-IsGood : (lc : ℕ) → (lc ≡ lc_operational) ⊎ (lc ≡ lc_terminated) → IsGood (defaults lc)
unfolding defaults fields_ok
defaults-IsGood lc (inl e) = rw e (
  record {
    name = refl;
    lang = refl;
    fpr_sig = refl;
    fpr_dec = refl;
    fpr_aut = refl;
    gentime_sig = refl;
    gentime_dec = refl;
    gentime_aut = refl;
    sigcnt = refl;
    dec_pub = refl;
    nonce = refl;
    ct = refl;
    tag = refl;
  },
  refl,
)
defaults-IsGood lc (inr e) = rw e (
  record {
    name = refl;
    lang = refl;
    fpr_sig = refl;
    fpr_dec = refl;
    fpr_aut = refl;
    gentime_sig = refl;
    gentime_dec = refl;
    gentime_aut = refl;
    sigcnt = refl;
    dec_pub = refl;
    nonce = refl;
    ct = refl;
    tag = refl;
  },
  refl,
)

module _ (sha256 : List ℕ → List ℕ) (m : Rmem) where
  pub record IsSound (g : Pgp m) : Type 0 where
    pub pair : SamePair sha256 m o3_pair g.o3
    pub backed :
        usable m g ≡ true
        → (g.o3 ≡ o3_pair) × IsGood g.cur × Backs sha256 m o3_pair (o3_bytes g.cur) g.chip

  -- Not loaded: sound as it is.
  pub off-IsSound : (g : Pgp m) → SamePair sha256 m o3_pair g.o3 → g.loaded ≡ false → IsSound g
  unfolding usable
  off-IsSound g same off = record { pair = same; backed = λ u. ground (arith, u, off) }

  failed-IsSound :
      (g : Pgp m) (p : RecPair) (s : m.State)
      → IsGood g.cur
      → ((p ≡ o3_pair) × Backs sha256 m o3_pair (o3_bytes g.cur) s) ⊎ (p ≡ uncertain_now o3_pair)
      → IsSound (record g { o3 = p; chip = s })
  unfolding usable
  failed-IsSound g p s good (inl (e, held)) = record { pair = inl e; backed = λ u. (e, good, held) }
  failed-IsSound g p s good (inr un) = record {
    pair = inr un;
    backed = λ u. ground (arith, u, ap (λ (q : RecPair). q.uncertain) un);
  }

  take_record-IsSound :
      (st : RecStatus) (p : RecPair) (s : m.State) (next : O3) (g : Pgp m)
      → IsGood g.cur
      → IsGood next
      → Updated sha256 m o3_pair (o3_bytes g.cur) (o3_bytes next) (st, p, s)
      → IsSound (take_record sha256 m (st, p, s) next g).1
  unfolding take_record
  take_record-IsSound rec_ok p s next g good good' (inl (ok, e, held)) = record {
    pair = inl e;
    backed = λ u. (e, good', held);
  }
  take_record-IsSound rec_ok p s next g good good' (inr (bad, kept)) = absurd (bad refl)
  take_record-IsSound rec_absent p s next g good good' (inl x) = ground (arith, x.0)
  take_record-IsSound rec_absent p s next g good good' (inr (bad, kept)) =
      failed-IsSound g p s good kept
  take_record-IsSound rec_corrupt p s next g good good' (inl x) = ground (arith, x.0)
  take_record-IsSound rec_corrupt p s next g good good' (inr (bad, kept)) =
      failed-IsSound g p s good kept
  take_record-IsSound rec_error p s next g good good' (inl x) = ground (arith, x.0)
  take_record-IsSound rec_error p s next g good good' (inr (bad, kept)) =
      failed-IsSound g p s good kept

  certain_again :
      (p : RecPair) → SamePair sha256 m o3_pair p → record p { uncertain = false } ≡ o3_pair
  certain_again p (inl e) = ap (λ (q : RecPair). record q { uncertain = false }) e
  certain_again p (inr e) = ap (λ (q : RecPair). record q { uncertain = false }) e

  clear_pair :
      (p : RecPair) (s : m.State)
      → p ≡ o3_pair
      → SamePair sha256 m o3_pair (rec_pair_clear sha256 m p s).1
  clear_pair p s e = rw e (rec_pair_clear-Frame sha256 m o3_pair s 1 (omega arith) (omega arith)).0

  pub openpgp_state_clear-IsSound :
      (g : Pgp m) → IsSound g → IsSound (openpgp_state_clear sha256 m g).1
  unfolding openpgp_state_clear
  openpgp_state_clear-IsSound g h =
      off-IsSound _ (clear_pair _ g.chip (certain_again g.o3 h.pair)) refl

  module _ (sha256_length : (x : List ℕ) → length (sha256 x) ≡ 32) where
    written :
        (p : RecPair) (old next : O3) (s : m.State)
        → p ≡ o3_pair
        → IsGood next
        → Backs sha256 m o3_pair (o3_bytes old) s
        → Updated sha256 m o3_pair
            (o3_bytes old)
            (o3_bytes next)
            (rec_pair_write sha256 m p (o3_bytes next) s)
    written p old next s e good held = rw e (
        rec_pair_write-Updated sha256 m o3_pair sha256_length (o3_bytes old) (o3_bytes next) s
          pair_distinct refl (omega (arith, length-o3_bytes next good.0)) held)

    store-IsSound :
        (next : O3) (g : Pgp m)
        → usable m g ≡ true
        → IsSound g
        → (IsGood g.cur → IsGood next)
        → IsSound
            (take_record sha256 m (rec_pair_write sha256 m g.o3 (o3_bytes next) g.chip) next g).1
    store-IsSound next g u h keeps =
        let (e, good, held) = h.backed u in
        let (st, p, s) = rec_pair_write sha256 m g.o3 (o3_bytes next) g.chip in
        take_record-IsSound st p s next g good (keeps good)
          (written g.o3 g.cur next g.chip e (keeps good) held)

    pub commit-IsSound :
        (next : O3) (g : Pgp m)
        → IsSound g
        → (IsGood g.cur → IsGood next)
        → IsSound (commit sha256 m next g).1
    unfolding commit
    commit-IsSound next g h keeps =
        if_each (λ (x : ℕ × Pgp m). IsSound x.1) (usable m g && g.cur.lc == lc_operational) _ _
          (λ u. store-IsSound next g (ground (arith, u)) h keeps) (λ off. h)

    pub openpgp_state_activate-IsSound :
        (g : Pgp m) → IsSound g → IsSound (openpgp_state_activate sha256 m g).1
    unfolding openpgp_state_activate
    openpgp_state_activate-IsSound g h =
        if_each (λ (x : ℕ × Pgp m). IsSound x.1) (usable m g && g.cur.lc == lc_terminated) _ _
          (λ u.
            store-IsSound (defaults lc_operational) g (ground (arith, u)) h
              (λ good. defaults-IsGood lc_operational (inl refl)))
          (λ off. h)

    take_init-IsSound :
        (st : RecStatus) (p : RecPair) (s : m.State) (next : O3) (g : Pgp m)
        → SamePair sha256 m o3_pair p
        → IsGood next
        → (st ≡ rec_ok → (p ≡ o3_pair) × Backs sha256 m o3_pair (o3_bytes next) s)
        → IsSound (take_init sha256 m (st, p, s) next g).1
    unfolding take_init
    take_init-IsSound rec_ok p s next g same good held = record {
      pair = same;
      backed = λ u. ((held refl).0, good, (held refl).1);
    }
    take_init-IsSound rec_absent p s next g same good held = off-IsSound _ same refl
    take_init-IsSound rec_corrupt p s next g same good held = off-IsSound _ same refl
    take_init-IsSound rec_error p s next g same good held = off-IsSound _ same refl

    fresh :
        (p : RecPair) (next : O3) (s : m.State)
        → p ≡ o3_pair
        → IsGood next
        → let (st, p', s') = rec_pair_init sha256 m p (o3_bytes next) s in
          SamePair sha256 m o3_pair p'
          × (st ≡ rec_ok → (p' ≡ o3_pair) × Backs sha256 m o3_pair (o3_bytes next) s')
    fresh p next s e good = rw e (
      (rec_pair_init-Frame sha256 m o3_pair (o3_bytes next) s 1 (omega arith) (omega arith)).0,
      rec_pair_init-Backs sha256 m o3_pair sha256_length (o3_bytes next) s pair_distinct
          (omega (arith, length-o3_bytes next good.0)),
    )

    init_with-IsSound :
        (next : O3) (g : Pgp m)
        → IsSound g
        → IsGood next
        → IsSound
            (take_init sha256 m
              (rec_pair_init sha256 m (record g.o3 { uncertain = false }) (o3_bytes next) g.chip)
              next
              g).1
    init_with-IsSound next g h good =
        let (same, held) = fresh _ next g.chip (certain_again g.o3 h.pair) good in
        let (st, p, s) =
          rec_pair_init sha256 m (record g.o3 { uncertain = false }) (o3_bytes next) g.chip in
        take_init-IsSound st p s next g same good held

    pub openpgp_state_init-IsSound :
        (lc : Lifecycle) (g : Pgp m) → IsSound g → IsSound (openpgp_state_init sha256 m lc g).1
    unfolding openpgp_state_init
    openpgp_state_init-IsSound pgp_lc_error g h =
        off-IsSound _ (inl (certain_again g.o3 h.pair)) refl
    openpgp_state_init-IsSound pgp_lc_operational g h =
        init_with-IsSound (defaults lc_operational) g h (defaults-IsGood lc_operational (inl refl))
    openpgp_state_init-IsSound pgp_lc_terminated g h =
        init_with-IsSound (defaults lc_terminated) g h (defaults-IsGood lc_terminated (inr refl))

  -- A read of a sound pair that succeeds is of a certain one.
  certain_read :
      (p : RecPair) (s : m.State)
      → SamePair sha256 m o3_pair p
      → (rec_pair_read sha256 m p (some rec_payload_max) s).status ≡ rec_ok
      → p ≡ o3_pair
  certain_read p s (inl e) ok = e
  certain_read p s (inr e) ok =
      let un : p.uncertain ≡ true = ap (λ (q : RecPair). q.uncertain) e in
      let refused = (uncertain_refuses sha256 m p (some rec_payload_max) [] s un).0 in
      ground (arith, ok, ap (λ (x : Outcome m). x.status) refused)

  read_pair :
      (p : RecPair) (s : m.State)
      → SamePair sha256 m o3_pair p
      → SamePair sha256 m o3_pair (rec_pair_read sha256 m p (some rec_payload_max) s).pair
  read_pair p s (inl e) =
      rw e
        (rec_pair_read-Frame sha256 m o3_pair (some rec_payload_max) s 1 (omega arith)
          (omega arith)).0
  read_pair p s (inr e) = rw e (
      SamePair_trans sha256 m o3_pair (uncertain_now o3_pair) _ (inr refl)
        (rec_pair_read-Frame sha256 m (uncertain_now o3_pair) (some rec_payload_max) s 1
          (omega arith) (omega arith)).0)

  take_loaded-IsSound :
      (st : RecStatus) (buf : List ℕ) (g : Pgp m)
      → IsSound g
      → (st ≡ rec_ok → (g.o3 ≡ o3_pair) × Backs sha256 m o3_pair buf g.chip)
      → IsSound (take_loaded sha256 m st buf g).1
  unfolding take_loaded
  take_loaded-IsSound rec_absent buf g h held = h
  take_loaded-IsSound rec_corrupt buf g h held = h
  take_loaded-IsSound rec_error buf g h held = h
  take_loaded-IsSound rec_ok buf g h held =
      if_each (λ (x : ℕ × Pgp m). IsSound x.1) (length buf == o3_len && fields_ok (o3_of buf)) _ _
        (λ ok.
          let len : length buf ≡ o3_len = ground (arith, ok) in
          let fields : fields_ok (o3_of buf) ≡ true = ground (arith, ok) in
          record {
            pair = h.pair;
            backed = λ u. (
              (held refl).0,
              (o3_of-IsSized buf len, fields),
              rw (← o3_bytes-o3_of buf len) at ((held refl).1),
            );
          })
        (λ bad. h)

  certain_says :
      (s : m.State)
      → ((t : m.State) (j : ℕ) → AreBytes (m.holds t j))
      → let out = rec_pair_read sha256 m o3_pair (some rec_payload_max) s in
        out.status ≡ rec_ok → (out.pair ≡ o3_pair) × Backs sha256 m o3_pair out.payload out.chip
  certain_says s stored_bytes ok =
      let (pair, bytes', held) =
        rec_pair_read-Backs sha256 m o3_pair (some rec_payload_max) s stored_bytes pair_distinct
          ok in
      (pair, held)

  loaded_says :
      (p : RecPair) (s : m.State)
      → ((t : m.State) (j : ℕ) → AreBytes (m.holds t j))
      → SamePair sha256 m o3_pair p
      → let out = rec_pair_read sha256 m p (some rec_payload_max) s in
        out.status ≡ rec_ok → (out.pair ≡ o3_pair) × Backs sha256 m o3_pair out.payload out.chip
  loaded_says p s stored_bytes same ok =
      let e = certain_read p s same ok in rw e (certain_says s stored_bytes (rw e at ok))

  pub openpgp_state_load-IsSound :
      (g : Pgp m)
      → ((t : m.State) (j : ℕ) → AreBytes (m.holds t j))
      → IsSound g
      → IsSound (openpgp_state_load sha256 m g).1
  unfolding openpgp_state_load
  openpgp_state_load-IsSound g stored_bytes h =
      let out = rec_pair_read sha256 m g.o3 (some rec_payload_max) g.chip in
      take_loaded-IsSound out.status out.payload _
        (off-IsSound _ (read_pair g.o3 g.chip h.pair) refl)
        (loaded_says g.o3 g.chip stored_bytes h.pair)
