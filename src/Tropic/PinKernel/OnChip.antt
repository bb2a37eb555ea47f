-- ===== src/Tropic/PinKernel/OnChip.antt =====
-- The chip calls that pin_md_kernel.c makes beside its record pair.
use nixtropic.Base.{ℕ, List, Option}
use nixtropic.Tropic.Rmem.{Rmem}
use nixtropic.Tropic.Keys.{Keys}
use nixtropic.Tropic.PinKernel.{World}

module _ (sha256 : List ℕ → List ℕ) (m : Rmem) (k : Keys m) where
  unfoldable pub world_random : World sha256 m → Option (List ℕ) × World sha256 m
  world_random (p, s) = let (x, s') = k.random 32 s in (x, (p, s'))

  unfoldable pub world_mac : ℕ → List ℕ → World sha256 m → Option (List ℕ) × World sha256 m
  world_mac slot x (p, s) = let (y, s') = k.mac_and_destroy slot x s in (y, (p, s'))
