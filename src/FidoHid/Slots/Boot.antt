-- ===== src/FidoHid/Slots/Boot.antt =====
-- slots_init and slots_init_fresh of slots.c: what they take into RAM is what the chip holds.
use nixtropic.Base.{
  zero, suc, suc, ℕ, List, [], Bool, true, false, not, ◌≡◌, ◌≢◌, inl, inr, refl, sym, ap, ◌∙◌,
  arith, if_each, length, Option, some, AreBytes, replicate,
}
use nixtropic.Tropic.Rmem.{Rmem}
use nixtropic.Tropic.RecPair.{
  valid, RecStatus, RecPair, rec_ok, rec_absent, rec_corrupt, rec_error, rec_pair_read,
  rec_pair_init, uncertain_now, Outcome, encode,
}
use nixtropic.Tropic.RecPair.Ops.{uncertain_refuses}
use nixtropic.Tropic.RecPair.Contract.{rec_pair_read-Found}
use nixtropic.Tropic.RecPair.Frame.{
  SamePair, SamePair_trans, rec_pair_read-Frame, rec_pair_init-Frame, rec_pair_init-Started,
  Started,
}
use nixtropic.Tropic.RecPair.Format.{gen_of_bound, payload_of_bytes}
use nixtropic.FidoHid.Slots.Bitmap.{
  put_bit-clear-NoBitsFrom, length-put_bit, any_bit, same_bits, bit,
}
use nixtropic.FidoHid.Slots.Meta.{
  CredRead, cred_ok, cred_bad_magic, cred_failed, cred_empty, read_cred,
}
use nixtropic.FidoHid.Slots.Record.{IsWf, Stored, encode-IsO1, o1_encode-bits}
use nixtropic.FidoHid.Slots.Frame.{orphan_scrub_frame}
use nixtropic.FidoHid.Slots.Invariant.{
  IsSound, chip_moves-IsSound, write_global-IsSound, pair_distinct,
}
use nixtropic.FidoHid.Slots.{
  Slots, Services, o1_pair, o1_encode, o1_bad, o1_len, o1_taken, slots_usable, write_global,
  fido_slots_max, InitRc, slots_init, slots_init_fresh, take_fresh, scrub, init_read, scrubbed,
  scrub_bit, orphan_scrub,
}

module _ (sha256 : List ℕ → List ℕ) (sha256_length : (x : List ℕ) → length (sha256 x) ≡ 32)
    (m : Rmem) where
  -- Unusable slots are sound as long as the RAM is well formed.
  pub off-IsSound :
      (g : Slots m)
      → SamePair sha256 m o1_pair g.o1
      → IsWf g.bitmap g.force_uv g.pin_bound
      → g.initted ≡ false
      → IsSound sha256 m g
  unfolding slots_usable
  off-IsSound g same wf off = record { pair = same; wf = wf; backed = λ u. ground (arith, u, off) }

  pub fresh-IsWf : IsWf (replicate 32 false) 0 0
  unfolding any_bit
  fresh-IsWf = (refl, refl, omega arith, omega arith)

  take_fresh-IsSound :
      (st : RecStatus) (p : RecPair) (s : m.State) (g : Slots m)
      → IsWf g.bitmap g.force_uv g.pin_bound
      → SamePair sha256 m o1_pair p
      → Started sha256 m o1_pair (o1_encode (replicate 32 false) 0 0) (st, p, s)
      → IsSound sha256 m (take_fresh sha256 m (st, p, s) g).1
  unfolding take_fresh
  take_fresh-IsSound rec_ok p s g wf same started =
      let (e, hold) = started refl in
      let p1 = o1_encode (replicate 32 false) 0 0 in
      let says =
        encode-IsO1 sha256 m sha256_length 1 (replicate 32 false) 0 0 (omega arith) (omega arith) in
      record {
        pair = same;
        wf = fresh-IsWf;
        backed = λ u. (e, (encode sha256 o1_pair 1 p1, says, hold));
      }
  take_fresh-IsSound rec_absent p s g wf same started = off-IsSound _ same wf refl
  take_fresh-IsSound rec_corrupt p s g wf same started = off-IsSound _ same wf refl
  take_fresh-IsSound rec_error p s g wf same started = off-IsSound _ same wf refl

  certain_again :
      (p : RecPair) → SamePair sha256 m o1_pair p → record p { uncertain = false } ≡ o1_pair
  certain_again p (inl e) = ap (λ (q : RecPair). record q { uncertain = false }) e
  certain_again p (inr e) = ap (λ (q : RecPair). record q { uncertain = false }) e

  fresh_pair :
      (p : RecPair) (z : List ℕ) (s : m.State)
      → p ≡ o1_pair
      → SamePair sha256 m o1_pair (rec_pair_init sha256 m p z s).1
        × Started sha256 m o1_pair z (rec_pair_init sha256 m p z s)
  fresh_pair p z s e = rw e (
    (rec_pair_init-Frame sha256 m o1_pair z s 1 (omega arith) (omega arith)).0,
    rec_pair_init-Started sha256 m o1_pair z s pair_distinct,
  )

  pub slots_init_fresh-IsSound :
      (g : Slots m) → IsSound sha256 m g → IsSound sha256 m (slots_init_fresh sha256 m g).1
  unfolding slots_init_fresh
  slots_init_fresh-IsSound g h =
      let z = o1_encode (replicate 32 false) 0 0 in
      let p = record g.o1 { uncertain = false } in
      let (same, started) = fresh_pair p z g.chip (certain_again g.o1 h.pair) in
      let (st, p', s') = rec_pair_init sha256 m p z g.chip in
      take_fresh-IsSound st p' s' g h.wf same started

  scrubbed-IsWf :
      (c : CredRead) (i : ℕ) (bm : List Bool) (uv bound : ℕ)
      → IsWf bm uv bound
      → IsWf (scrubbed m c i bm) uv bound
  unfolding scrubbed
  scrubbed-IsWf cred_empty i bm uv bound (len, high, a, b) =
      (length-put_bit bm i false ∙ len, put_bit-clear-NoBitsFrom fido_slots_max bm i high, a, b)
  scrubbed-IsWf (cred_ok x) i bm uv bound wf = wf
  scrubbed-IsWf cred_bad_magic i bm uv bound wf = wf
  scrubbed-IsWf cred_failed i bm uv bound wf = wf

  orphan_scrub-IsWf :
      (n i : ℕ) (bm : List Bool) (s : m.State) (uv bound : ℕ)
      → IsWf bm uv bound
      → IsWf (orphan_scrub m n i bm s).0 uv bound
  unfolding orphan_scrub scrub_bit
  orphan_scrub-IsWf zero i bm s uv bound wf = wf
  orphan_scrub-IsWf (suc n) i bm s uv bound wf =
      let (c, s') = read_cred m i s in
      let P = λ (x : List Bool × m.State). IsWf x.0 uv bound in
      let (bm', s1) = scrub_bit m i bm s in
      orphan_scrub-IsWf n (suc i) bm' s1 uv bound
        (if_each P (bit bm i) _ _ (λ e. scrubbed-IsWf c i bm uv bound wf) (λ e. wf))

  scrub-IsSound : (g : Slots m) → IsSound sha256 m g → IsSound sha256 m (scrub sha256 m g).1
  unfolding scrub
  scrub-IsSound g h =
      let (bm, s) = orphan_scrub m fido_slots_max 0 g.bitmap g.chip in
      let g1 = record g { chip = s } in
      let h1 =
        chip_moves-IsSound sha256 m g s
          (λ j at0. orphan_scrub_frame m fido_slots_max 0 g.bitmap g.chip j) h in
      let wf' = orphan_scrub-IsWf fido_slots_max 0 g.bitmap g.chip g.force_uv g.pin_bound h.wf in
      let (ok, g2) = write_global sha256 m bm g.force_uv g.pin_bound g1 in
      let h2 = write_global-IsSound sha256 m sha256_length bm g.force_uv g.pin_bound g1 wf' h1 in
      let P = λ (x : InitRc × Slots m). IsSound sha256 m x.1 in
      if_each P (same_bits bm g.bitmap) _ _ (λ e. h1)
        (λ e. if_each P (not ok) _ _ (λ e'. off-IsSound _ h2.pair h2.wf refl) (λ e'. h2))

  -- What slots_init takes from a record of bytes.
  init_read-IsSound :
      (st : RecStatus) (buf : List ℕ) (g : Slots m)
      → IsSound sha256 m g
      → g.initted ≡ false
      → (st ≡ rec_ok
          → (g.o1 ≡ o1_pair)
            × AreBytes buf
            × ((bm : List Bool) (uv bound : ℕ)
                → buf ≡ o1_encode bm uv bound
                → Stored sha256 m bm uv bound g.chip))
      → IsSound sha256 m (init_read sha256 m st buf g).1
  unfolding init_read o1_taken
  init_read-IsSound rec_absent buf g h off read' = h
  init_read-IsSound rec_corrupt buf g h off read' = h
  init_read-IsSound rec_error buf g h off read' = h
  init_read-IsSound rec_ok buf g h off read' =
      let (e, bytes', held) = read' refl in
      let P = λ (x : InitRc × Slots m). IsSound sha256 m x.1 in
      if_each P (o1_bad buf) _ _ (λ bad. h)
        (λ good.
          let (wf, says) = o1_encode-bits buf bytes' good in
          scrub-IsSound _ (record { pair = h.pair; wf = wf; backed = λ u. (e, held _ _ _ says) }))

  -- A read that succeeds is of a certain pair.
  certain_read :
      (p : RecPair) (max : Option ℕ) (s : m.State)
      → SamePair sha256 m o1_pair p
      → (rec_pair_read sha256 m p max s).status ≡ rec_ok
      → p ≡ o1_pair
  certain_read p max s (inl e) ok = e
  certain_read p max s (inr e) ok =
      let un : p.uncertain ≡ true = ap (λ (q : RecPair). q.uncertain) e in
      let refused = (uncertain_refuses sha256 m p max [] s un).0 in
      ground (arith, ok, ap (λ (x : Outcome m). x.status) refused)

  read_same_pair :
      (p : RecPair) (max : Option ℕ) (s : m.State)
      → SamePair sha256 m o1_pair p
      → SamePair sha256 m o1_pair (rec_pair_read sha256 m p max s).pair
  read_same_pair p max s (inl e) =
      rw e (rec_pair_read-Frame sha256 m o1_pair max s 1 (omega arith) (omega arith)).0
  read_same_pair p max s (inr e) = rw e (
      SamePair_trans sha256 m o1_pair (uncertain_now o1_pair) _ (inr refl)
        (rec_pair_read-Frame sha256 m (uncertain_now o1_pair) max s 1 (omega arith)
          (omega arith)).0)

  valid_ne_nil : (r : List ℕ) → valid sha256 o1_pair r ≡ true → r ≢ []
  unfolding valid
  valid_ne_nil r v nil = ground (arith, rw nil at v)

  module _ (c : Services m) (stored_bytes : (s : m.State) (j : ℕ) → AreBytes (m.holds s j)) where
    -- What a read of O1 that succeeds makes known.
    read_certain :
        (s : m.State)
        → let out = rec_pair_read sha256 m o1_pair (some o1_len) s in
          out.status ≡ rec_ok
          → (out.pair ≡ o1_pair)
            × AreBytes out.payload
            × ((bm : List Bool) (uv bound : ℕ)
                → out.payload ≡ o1_encode bm uv bound
                → Stored sha256 m bm uv bound out.chip)
    read_certain s ok =
        let out = rec_pair_read sha256 m o1_pair (some o1_len) s in
        let (r, (pair, hold, v, pl, gen)) =
          rec_pair_read-Found sha256 m o1_pair (some o1_len) s pair_distinct ok in
        let bytes' : AreBytes r = rw hold.0 at (stored_bytes out.chip 0) in
        (
          pair,
          rw pl (payload_of_bytes r bytes'),
          λ bm uv bound says.
              (r, (valid_ne_nil r v, gen_of_bound r bytes', v, sym pl ∙ says), hold),
        )

    read_says :
        (p : RecPair) (s : m.State)
        → SamePair sha256 m o1_pair p
        → let out = rec_pair_read sha256 m p (some o1_len) s in
          out.status ≡ rec_ok
          → (out.pair ≡ o1_pair)
            × AreBytes out.payload
            × ((bm : List Bool) (uv bound : ℕ)
                → out.payload ≡ o1_encode bm uv bound
                → Stored sha256 m bm uv bound out.chip)
    read_says p s same ok =
        let e = certain_read p (some o1_len) s same ok in rw e (read_certain s (rw e at ok))

    pub slots_init-IsSound :
        (g : Slots m) → IsSound sha256 m g → IsSound sha256 m (slots_init sha256 m c g).1
    unfolding slots_init
    slots_init-IsSound g h =
        let (ready, s) = c.session_ensure g.chip in
        let out = rec_pair_read sha256 m g.o1 (some o1_len) s in
        let P = λ (x : InitRc × Slots m). IsSound sha256 m x.1 in
        if_each P g.initted _ _ (λ e. h)
          (λ e.
            if_each P (not ready) _ _
              (λ e'. chip_moves-IsSound sha256 m g s (λ j at0. c.ensure_keeps g.chip j) h)
              (λ e'.
                init_read-IsSound out.status out.payload _
                  (off-IsSound _ (read_same_pair g.o1 (some o1_len) s h.pair) h.wf e) e
                  (read_says g.o1 s h.pair)))
