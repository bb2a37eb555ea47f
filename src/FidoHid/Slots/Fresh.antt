-- ===== src/FidoHid/Slots/Fresh.antt =====
-- slots_init_fresh of slots.c: the empty O1 of a completed wipe.
use nixtropic.Base.{ℕ, List, true, false, ◌≡◌, ◌≢◌, inl, inr, refl, ap, ◌∙◌, arith, replicate}
use nixtropic.Tropic.Rmem.{Rmem}
use nixtropic.Tropic.RecPair.{
  RecPair, RecStatus, rec_ok, rec_absent, rec_corrupt, rec_error, rec_pair_init, encode,
}
use nixtropic.Tropic.RecPair.Read.{Hold}
use nixtropic.Tropic.RecPair.Frame.{SamePair, Started, rec_pair_init-Frame, rec_pair_init-Started}
use nixtropic.FidoHid.Slots.Invariant.{pair_distinct}
use nixtropic.FidoHid.Slots.{Slots, o1_pair, o1_encode, slots_usable, take_fresh, slots_init_fresh}

module _ (sha256 : List ℕ → List ℕ) (m : Rmem) where
  abbrev pub fresh_payload : List ℕ
  fresh_payload = o1_encode (replicate 32 false) 0 0

  -- Usable and empty, and both copies of O1 say so.
  pub record IsFresh (g : Slots m) : Type 0 where
    pub is_usable : slots_usable m g ≡ true
    pub no_bits : g.bitmap ≡ replicate 32 false
    pub no_uv : g.force_uv ≡ 0
    pub no_pin : g.pin_bound ≡ 0
    pub on_chip : Hold m o1_pair (encode sha256 o1_pair 1 fresh_payload) g.chip

  take_fresh-IsFresh :
      (x : RecStatus × RecPair × m.State) (g : Slots m)
      → Started sha256 m o1_pair fresh_payload x
      → (take_fresh sha256 m x g).0 ≡ true
      → IsFresh (take_fresh sha256 m x g).1
  unfolding take_fresh slots_usable
  take_fresh-IsFresh (rec_ok, p, s) g started ok =
      let (same, held) = started refl in
      record {
        is_usable = rw same refl;
        no_bits = refl;
        no_uv = refl;
        no_pin = refl;
        on_chip = held;
      }
  take_fresh-IsFresh (rec_absent, p, s) g started ok = ground (arith, ok)
  take_fresh-IsFresh (rec_corrupt, p, s) g started ok = ground (arith, ok)
  take_fresh-IsFresh (rec_error, p, s) g started ok = ground (arith, ok)

  sure : (p : RecPair) → SamePair sha256 m o1_pair p → record p { uncertain = false } ≡ o1_pair
  sure p (inl e) = ap (λ (q : RecPair). record q { uncertain = false }) e
  sure p (inr e) = ap (λ (q : RecPair). record q { uncertain = false }) e

  pub slots_init_fresh-IsFresh :
      (g : Slots m)
      → SamePair sha256 m o1_pair g.o1
      → (slots_init_fresh sha256 m g).0 ≡ true
      → IsFresh (slots_init_fresh sha256 m g).1
  unfolding slots_init_fresh
  slots_init_fresh-IsFresh g same ok =
      let e = sure g.o1 same in
      take_fresh-IsFresh _ g
        (rw e (rec_pair_init-Started sha256 m o1_pair fresh_payload g.chip pair_distinct)) ok

  take_fresh_other :
      (x : RecStatus × RecPair × m.State) (g : Slots m) (j : ℕ)
      → m.holds (take_fresh sha256 m x g).1.chip j ≡ m.holds x.2 j
  unfolding take_fresh
  take_fresh_other (rec_ok, p, s) g j = refl
  take_fresh_other (rec_absent, p, s) g j = refl
  take_fresh_other (rec_corrupt, p, s) g j = refl
  take_fresh_other (rec_error, p, s) g j = refl

  pub slots_init_fresh_other :
      (g : Slots m) (j : ℕ)
      → SamePair sha256 m o1_pair g.o1
      → j ≢ 0
      → j ≢ 40
      → m.holds (slots_init_fresh sha256 m g).1.chip j ≡ m.holds g.chip j
  unfolding slots_init_fresh
  slots_init_fresh_other g j same n0 n40 =
      let e = sure g.o1 same in
      take_fresh_other
        (rec_pair_init sha256 m (record g.o1 { uncertain = false }) fresh_payload g.chip) g j
      ∙ rw e (rec_pair_init-Frame sha256 m o1_pair fresh_payload g.chip j n0 n40).1
