-- ===== src/FidoHid/Slots/Acknowledged.antt =====
-- slots.c: the writes of O1 that are acknowledged, and slots_init on usable slots, on any chip.
use nixtropic.Base.{ℕ, List, Bool, true, not, ◌≡◌, refl, ap, arith, if_each}
use nixtropic.Tropic.Rmem.{Rmem}
use nixtropic.Tropic.RecPair.{
  RecPair, RecStatus, rec_ok, rec_absent, rec_corrupt, rec_error, rec_pair_write,
}
use nixtropic.Tropic.RecPair.Acknowledged.{rec_pair_write-Same}
use nixtropic.FidoHid.Slots.{
  Slots, Services, o1_encode, slots_usable, take_global, write_global, slots_set_pin_bound,
  slots_init, init_ok,
}

module _ (sha256 : List ℕ → List ℕ) (m : Rmem) where
  -- The slots are usable with the bitmap bm, if the call was acknowledged.
  abbrev pub UsableWith : List Bool → Bool × Slots m → Type 0
  UsableWith bm x = x.0 ≡ true → (slots_usable m x.1 ≡ true) × (x.1.bitmap ≡ bm)

  take_global-UsableWith :
      (x : RecStatus × RecPair × m.State) (bm : List Bool) (uv bound : ℕ) (g : Slots m)
      → slots_usable m g ≡ true
      → (x.0 ≡ rec_ok → x.1 ≡ g.o1)
      → UsableWith bm (take_global sha256 m x bm uv bound g)
  unfolding take_global slots_usable
  take_global-UsableWith (rec_ok, p, s) bm uv bound g u same =
      λ ok. let e = ap (λ (q : RecPair). q.uncertain) (same refl) in (ground (arith, u, e), refl)
  take_global-UsableWith (rec_absent, p, s) bm uv bound g u same = λ ok. ground (arith, ok)
  take_global-UsableWith (rec_corrupt, p, s) bm uv bound g u same = λ ok. ground (arith, ok)
  take_global-UsableWith (rec_error, p, s) bm uv bound g u same = λ ok. ground (arith, ok)

  write_global-UsableWith :
      (bm : List Bool) (uv bound : ℕ) (g : Slots m)
      → UsableWith bm (write_global sha256 m bm uv bound g)
  unfolding write_global
  write_global-UsableWith bm uv bound g =
      let payload = o1_encode bm uv bound in
      if_each (UsableWith bm) (not (slots_usable m g)) _ _ (λ e ok. ground (arith, ok))
        (λ e.
          take_global-UsableWith (rec_pair_write sha256 m g.o1 payload g.chip) bm uv bound g
            (ground (arith, e)) (rec_pair_write-Same sha256 m g.o1 payload g.chip))

  pub slots_set_pin_bound-UsableWith :
      (bound uv : Bool) (g : Slots m)
      → UsableWith g.bitmap (slots_set_pin_bound sha256 m bound uv g)
  unfolding slots_set_pin_bound
  slots_set_pin_bound-UsableWith bound uv g = write_global-UsableWith g.bitmap _ _ g

  pub slots_init_usable :
      (c : Services m) (g : Slots m)
      → slots_usable m g ≡ true
      → slots_init sha256 m c g ≡ (init_ok, g)
  unfolding slots_init slots_usable
  slots_init_usable c g u = ground (arith, u)
