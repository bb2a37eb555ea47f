-- ===== src/FidoHid/Credstore/Count.antt =====
-- The signature counter of credstore.c.
use nixtropic.Base.{ℕ, ◌+◌, ◌≤◌, ◌<◌, List, true, ◌≡◌, refl, arith, Option, none, some}
use nixtropic.Tropic.Rmem.{Rmem}
use nixtropic.Tropic.Keys.{Keys}
use nixtropic.Tropic.PinKernel.{if_ok}
use nixtropic.Tropic.PinKernel.Chain.{if_ok-each}
use nixtropic.FidoHid.Store.{Fido, on_chip, signcount_mcounter, mcounter_max}
use nixtropic.FidoHid.Credstore.{credstore_init, credstore_signcount_next, read_signcount, count_up}

count_up_value :
    (o : Option ℕ) (v c : ℕ)
    → ((x : ℕ) → o ≡ some x → x ≡ c)
    → count_up o ≡ some v
    → v + c ≡ mcounter_max
unfolding count_up
count_up_value none v c is h = ground (arith, h)
count_up_value (some x) v c is h = let e = is x refl in ground (arith, h, e)

module _ (sha256 : List ℕ → List ℕ) (hmac : List ℕ → List ℕ → List ℕ) (m : Rmem) (k : Keys m) where
  -- The counter of the chip of a state.
  abbrev pub counter : Fido m → ℕ
  counter g = k.count g.slots.chip signcount_mcounter

  started_init : (g : Fido m) → g.initted ≡ true → credstore_init sha256 hmac m k g ≡ (true, g)
  unfolding credstore_init
  started_init g e = ground (arith, e)

  -- A value read: the chip's counter is where it was, and the value counts up as it counts down.
  read_value :
      (g : Fido m) (v : ℕ)
      → (read_signcount sha256 hmac m k g).0 ≡ some v
      → let after = counter (read_signcount sha256 hmac m k g).1 in
        (v + after ≡ mcounter_max) × (after ≡ counter g)
  unfolding read_signcount on_chip
  read_value g v h =
      let s = g.slots.chip in
      let same = (k.get_vault signcount_mcounter s).1 signcount_mcounter in
      let sum =
        count_up_value (k.mcounter_get signcount_mcounter s).0 v (counter g)
          (k.get_value signcount_mcounter s) h in
      (omega (arith, sum, same), same)

  -- What a value reserved and read says of the counter before and after.
  abbrev Reserved : Fido m → ℕ → Option ℕ × Fido m → Type 0
  Reserved g v x = x.0 ≡ some v → (v + counter x.1 ≡ mcounter_max) × (counter x.1 < counter g)

  update_then_read :
      (g : Fido m) (v : ℕ)
      → Reserved g v (
          if_ok
            (on_chip m (k.mcounter_update signcount_mcounter) g)
            none
            (read_signcount sha256 hmac m k))
  unfolding on_chip
  update_then_read g v =
      let r = on_chip m (k.mcounter_update signcount_mcounter) g in
      if_ok-each (Reserved g v) r none (read_signcount sha256 hmac m k) (λ e. ground (arith, e))
        (λ ok e.
          let (sum, same) = read_value r.1 v e in
          let down = k.update_done signcount_mcounter g.slots.chip ok in
          (sum, omega (arith, same, down)))

  next-Reserved :
      (g : Fido m) (v : ℕ)
      → g.initted ≡ true
      → Reserved g v (credstore_signcount_next sha256 hmac m k g)
  unfolding credstore_signcount_next
  next-Reserved g v e = rw (started_init g e) (update_then_read g v)

  -- Two values that the initialised store reserves differ, and the later one is the larger,
  -- whatever happens between them as long as the chip's counter is not set up again.
  pub signcount_next_grows :
      (g h : Fido m) (v w : ℕ)
      → g.initted ≡ true
      → h.initted ≡ true
      → (credstore_signcount_next sha256 hmac m k g).0 ≡ some v
      → counter h ≤ counter (credstore_signcount_next sha256 hmac m k g).1
      → (credstore_signcount_next sha256 hmac m k h).0 ≡ some w
      → v < w
  signcount_next_grows g h v w eg eh first between second =
      let (sum1, down1) = next-Reserved g v eg first in
      let (sum2, down2) = next-Reserved h w eh second in omega (arith, sum1, sum2, down2, between)
