-- ===== src/OpenPgp/State/Clear.antt =====
-- openpgp_state_clear and openpgp_state_init of openpgp_state.c: which slots they touch, and what
-- is in O3 after them.
use nixtropic.Base.{true, ℕ, List, false, ◌≡◌, ◌≢◌, inl, inr, refl, ap, ◌∙◌, arith, if◌then◌else◌}
use nixtropic.Tropic.Rmem.{Rmem}
use nixtropic.Tropic.RecPair.{
  RecPair, RecStatus, rec_ok, rec_absent, rec_corrupt, rec_error, rec_pair_init, encode,
}
use nixtropic.Tropic.RecPair.Read.{Hold}
use nixtropic.Tropic.RecPair.Cleared.{LeftByErase, rec_pair_clear-LeftByErase}
use nixtropic.Tropic.RecPair.Closed.{Closed, rec_pair_clear-Closed, rec_pair_init-Closed}
use nixtropic.Tropic.RecPair.Frame.{
  SamePair, Started, rec_pair_clear-Frame, rec_pair_init-Frame, rec_pair_init-Started,
}
use nixtropic.OpenPgp.State.Record.{O3, o3_bytes, defaults, lc_terminated}
use nixtropic.OpenPgp.State.{
  Pgp, o3_pair, is_ok, take_init, openpgp_state_clear, openpgp_state_init, pgp_lc_terminated,
}

distinct : o3_pair.slot_a ≢ o3_pair.slot_b
distinct = omega arith

module _ (sha256 : List ℕ → List ℕ) (m : Rmem) where
  -- The pair of the state is O3's, certain or not.
  abbrev pub HasO3 : Pgp m → Type 0
  HasO3 g = SamePair sha256 m o3_pair g.o3

  sure : (p : RecPair) → SamePair sha256 m o3_pair p → record p { uncertain = false } ≡ o3_pair
  sure p (inl e) = ap (λ (q : RecPair). record q { uncertain = false }) e
  sure p (inr e) = ap (λ (q : RecPair). record q { uncertain = false }) e

  zero-rec_ok : (st : RecStatus) → ◌≡◌ {A = ℕ} (if is_ok sha256 m st then 0 else 1) 0 → st ≡ rec_ok
  unfolding is_ok
  zero-rec_ok rec_ok e = refl
  zero-rec_ok rec_absent e = ground (arith, e)
  zero-rec_ok rec_corrupt e = ground (arith, e)
  zero-rec_ok rec_error e = ground (arith, e)

  pub openpgp_state_clear-LeftByErase :
      (g : Pgp m)
      → HasO3 g
      → (openpgp_state_clear sha256 m g).0 ≡ 0
      → let s = (openpgp_state_clear sha256 m g).1.chip in LeftByErase m 33 s × LeftByErase m 43 s
  unfolding openpgp_state_clear
  openpgp_state_clear-LeftByErase g same ok =
      let e = sure g.o3 same in
      let good = zero-rec_ok _ ok in
      rw e (rec_pair_clear-LeftByErase sha256 m o3_pair g.chip distinct (rw e at good))

  pub openpgp_state_clear_other :
      (g : Pgp m) (j : ℕ)
      → HasO3 g
      → j ≢ 33
      → j ≢ 43
      → m.holds (openpgp_state_clear sha256 m g).1.chip j ≡ m.holds g.chip j
  unfolding openpgp_state_clear
  openpgp_state_clear_other g j same na nb =
      rw (sure g.o3 same) (rec_pair_clear-Frame sha256 m o3_pair g.chip j na nb).1

  -- The pair is still O3's after the clear.
  pub openpgp_state_clear-HasO3 : (g : Pgp m) → HasO3 g → HasO3 (openpgp_state_clear sha256 m g).1
  unfolding openpgp_state_clear
  openpgp_state_clear-HasO3 g same =
      rw (sure g.o3 same)
        (rec_pair_clear-Frame sha256 m o3_pair g.chip 0 (omega arith) (omega arith)).0

  pub openpgp_state_clear-Closed :
      (P : m.State → Type 0)
      → Closed m P
      → (g : Pgp m) → P g.chip
      → P (openpgp_state_clear sha256 m g).1.chip
  unfolding openpgp_state_clear
  openpgp_state_clear-Closed P closed g h = rec_pair_clear-Closed sha256 m P closed _ g.chip h

  -- The terminated card: in RAM, and in both copies of O3.
  pub record IsTerminated (g : Pgp m) : Type 0 where
    pub in_ram : g.cur ≡ defaults lc_terminated
    pub is_loaded : g.loaded ≡ true
    pub on_chip :
        Hold m o3_pair (encode sha256 o3_pair 1 (o3_bytes (defaults lc_terminated))) g.chip

  take_init-IsTerminated :
      (x : RecStatus × RecPair × m.State) (g : Pgp m)
      → Started sha256 m o3_pair (o3_bytes (defaults lc_terminated)) x
      → (take_init sha256 m x (defaults lc_terminated) g).0 ≡ 0
      → IsTerminated (take_init sha256 m x (defaults lc_terminated) g).1
  unfolding take_init
  take_init-IsTerminated (rec_ok, p, s) g started ok = record {
    in_ram = refl;
    is_loaded = refl;
    on_chip = (started refl).1;
  }
  take_init-IsTerminated (rec_absent, p, s) g started ok = ground (arith, ok)
  take_init-IsTerminated (rec_corrupt, p, s) g started ok = ground (arith, ok)
  take_init-IsTerminated (rec_error, p, s) g started ok = ground (arith, ok)

  take_init_chip :
      (x : RecStatus × RecPair × m.State) (next : O3) (g : Pgp m)
      → (take_init sha256 m x next g).1.chip ≡ x.2
  unfolding take_init
  take_init_chip (rec_ok, p, s) next g = refl
  take_init_chip (rec_absent, p, s) next g = refl
  take_init_chip (rec_corrupt, p, s) next g = refl
  take_init_chip (rec_error, p, s) next g = refl

  pub init-IsTerminated :
      (g : Pgp m)
      → HasO3 g
      → (openpgp_state_init sha256 m pgp_lc_terminated g).0 ≡ 0
      → IsTerminated (openpgp_state_init sha256 m pgp_lc_terminated g).1
  unfolding openpgp_state_init
  init-IsTerminated g same ok =
      let payload = o3_bytes (defaults lc_terminated) in
      take_init-IsTerminated _ g
        (rw (sure g.o3 same) (rec_pair_init-Started sha256 m o3_pair payload g.chip distinct)) ok

  pub openpgp_state_init_other :
      (g : Pgp m) (j : ℕ)
      → HasO3 g
      → j ≢ 33
      → j ≢ 43
      → m.holds (openpgp_state_init sha256 m pgp_lc_terminated g).1.chip j ≡ m.holds g.chip j
  unfolding openpgp_state_init
  openpgp_state_init_other g j same na nb =
      let payload = o3_bytes (defaults lc_terminated) in
      let x = rec_pair_init sha256 m (record g.o3 { uncertain = false }) payload g.chip in
      ap (λ (s : m.State). m.holds s j) (take_init_chip x (defaults lc_terminated) g)
      ∙ rw (sure g.o3 same) (rec_pair_init-Frame sha256 m o3_pair payload g.chip j na nb).1

  pub openpgp_state_init-Closed :
      (P : m.State → Type 0)
      → Closed m P
      → (g : Pgp m) → P g.chip
      → P (openpgp_state_init sha256 m pgp_lc_terminated g).1.chip
  unfolding openpgp_state_init
  openpgp_state_init-Closed P closed g h =
      let payload = o3_bytes (defaults lc_terminated) in
      let x = rec_pair_init sha256 m (record g.o3 { uncertain = false }) payload g.chip in
      rw (take_init_chip x (defaults lc_terminated) g)
        (rec_pair_init-Closed sha256 m P closed _ payload g.chip h)
