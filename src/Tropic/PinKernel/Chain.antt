-- ===== src/Tropic/PinKernel/Chain.antt =====
-- What holds after a chain of calls of pin_md_kernel.c that stops at the first error.
use nixtropic.Base.{ℕ, List, Bool, true, false, ◌≡◌, refl, Option, none, some, if◌then◌else◌}
use nixtropic.Tropic.PinKernel.{if_some, if_ok}

-- What holds on each way on holds of the chain.
module _ {World : Type 0} {A : Type 0} (P : A × World → Type 0) where
  pub if_some-each :
      (r : Option (List ℕ) × World) (failed : A) (k : List ℕ → World → A × World)
      → P (failed, r.1)
      → ((out : List ℕ) → P (k out r.1))
      → P (if_some r failed k)
  unfolding if_some
  if_some-each (none, w) failed k stop go = stop
  if_some-each (some out, w) failed k stop go = go out

  pub if_ok-each :
      (r : Bool × World) (failed : A) (k : World → A × World)
      → P (failed, r.1)
      → (r.0 ≡ true → P (k r.1))
      → P (if_ok r failed k)
  unfolding if_ok
  if_ok-each (false, w) failed k stop go = stop
  if_ok-each (true, w) failed k stop go = go refl

  pub if-each :
      (b : Bool) (x y : A × World) → (b ≡ true → P x) → (b ≡ false → P y) → P (if b then x else y)
  if-each true x y then_ else_ = then_ refl
  if-each false x y then_ else_ = else_ refl
