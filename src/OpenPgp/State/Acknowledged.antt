-- ===== src/OpenPgp/State/Acknowledged.antt =====
-- The setters of openpgp_state.c that return 0, on any chip.
use nixtropic.Base.{ℕ, List, true, false, ◌&&◌, ◌||◌, ◌≡◌, refl, ap, arith, if_each, some, ◌==◌}
use nixtropic.Tropic.Rmem.{Rmem}
use nixtropic.Tropic.RecPair.{
  RecPair, RecStatus, rec_ok, rec_absent, rec_corrupt, rec_error, rec_pair_write,
}
use nixtropic.Tropic.RecPair.Acknowledged.{rec_pair_write-Same}
use nixtropic.OpenPgp.State.Record.{O3, DecRec, o3_bytes, lc_operational, all_zero}
use nixtropic.OpenPgp.State.{
  Pgp, usable, take_record, commit, openpgp_state_dec_set, openpgp_state_dec_get,
}

module _ (sha256 : List ℕ → List ℕ) (m : Rmem) where
  -- Usable with the record, if the code is 0.
  abbrev UsableWith : O3 → ℕ × Pgp m → Type 0
  UsableWith next x = x.0 ≡ 0 → (usable m x.1 ≡ true) × (x.1.cur ≡ next)

  take_record-UsableWith :
      (x : RecStatus × RecPair × m.State) (next : O3) (g : Pgp m)
      → usable m g ≡ true
      → (x.0 ≡ rec_ok → x.1 ≡ g.o3)
      → UsableWith next (take_record sha256 m x next g)
  unfolding take_record usable
  take_record-UsableWith (rec_ok, p, s) next g u same =
      λ ok. let e = ap (λ (q : RecPair). q.uncertain) (same refl) in (ground (arith, u, e), refl)
  take_record-UsableWith (rec_absent, p, s) next g u same = λ ok. ground (arith, ok)
  take_record-UsableWith (rec_corrupt, p, s) next g u same = λ ok. ground (arith, ok)
  take_record-UsableWith (rec_error, p, s) next g u same = λ ok. ground (arith, ok)

  commit-UsableWith : (next : O3) (g : Pgp m) → UsableWith next (commit sha256 m next g)
  unfolding commit
  commit-UsableWith next g =
      if_each (UsableWith next) (usable m g && g.cur.lc == lc_operational) _ _
        (λ e.
          take_record-UsableWith (rec_pair_write sha256 m g.o3 (o3_bytes next) g.chip) next g
            (ground (arith, e)) (rec_pair_write-Same sha256 m g.o3 (o3_bytes next) g.chip))
        (λ e ok. ground (arith, ok))

  -- What dec_get answers if the code is 0.
  abbrev Gets : DecRec → ℕ × Pgp m → Type 0
  Gets r x = x.0 ≡ 0 → openpgp_state_dec_get m x.1 ≡ some r

  got :
      (r : DecRec) (g : Pgp m)
      → usable m g ≡ true
      → g.cur.dec ≡ r
      → all_zero r.dec_pub ≡ false
      → openpgp_state_dec_get m g ≡ some r
  unfolding openpgp_state_dec_get
  got r g u e nz = let z = ap (λ (d : DecRec). all_zero d.dec_pub) e in ground (arith, u, e, nz, z)

  pub dec_set_then_get : (r : DecRec) (g : Pgp m) → Gets r (openpgp_state_dec_set sha256 m r g)
  unfolding openpgp_state_dec_set
  dec_set_then_get r g =
      let next : O3 = record g.cur { dec = r } in
      if_each (Gets r) (all_zero r.dec_pub || (all_zero r.ct && all_zero r.tag)) _ _
        (λ e ok. ground (arith, ok))
        (λ e ok.
          let (u, c) = commit-UsableWith next g ok in
          got r (commit sha256 m next g).1 u (ap (λ (o : O3). o.dec) c) (ground (arith, e)))
