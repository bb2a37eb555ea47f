-- ===== src/Tropic/ChipClosed.antt =====
-- Predicates that the calls of the chip other than those on keys and counters preserve, and the
-- kernel's calls of pin_md_kernel.c on a pair and the chip.
use nixtropic.Base.{ℕ, List, Bool, true, false, some}
use nixtropic.Tropic.Rmem.{Rmem}
use nixtropic.Tropic.Keys.{Keys, SameVault}
use nixtropic.Tropic.RecPair.Closed.{
  Closed, rec_pair_read-Closed, rec_pair_write-Closed, rec_pair_init-Closed, rec_pair_clear-Closed,
}
use nixtropic.Tropic.RecPair.{rec_payload_max}
use nixtropic.Tropic.PinKernel.{Layout, Binding, World, load, store, binding_payload}
use nixtropic.Tropic.PinKernel.Api.{clear_record}
use nixtropic.Tropic.PinKernel.Closed.{KernelClosed}
use nixtropic.Tropic.PinKernel.OnChip.{world_random, world_mac}

module _ (sha256 : List ℕ → List ℕ) (hmac : List ℕ → List ℕ → List ℕ) (m : Rmem) (k : Keys m)
    (P : m.State → Type 0) where
  -- The chip calls that move no key and no counter preserve P.
  pub record ChipClosed : Type 0 where
    pub rmem : Closed m P
    pub on_random : (n : ℕ) (s : m.State) → P s → P (k.random n s).1
    pub on_ensure : (s : m.State) → P s → P (k.session_ensure s).1
    pub on_mac : (slot : ℕ) (x : List ℕ) (s : m.State) → P s → P (k.mac_and_destroy slot x s).1

  module _ (closed : ChipClosed) where
    abbrev pub OfWorld : World sha256 m → Type 0
    OfWorld w = P w.1

    load-Closed : (l : Layout) (w : World sha256 m) → OfWorld w → OfWorld (load sha256 m l w).1
    unfolding load
    load-Closed l (p, s) h =
        rec_pair_read-Closed sha256 m P closed.rmem p (some rec_payload_max) s h

    store-Closed :
        (b : Binding) (first : Bool) (w : World sha256 m)
        → OfWorld w
        → OfWorld (store sha256 m b first w).1
    unfolding store
    store-Closed b true (p, s) h =
        rec_pair_init-Closed sha256 m P closed.rmem p (binding_payload b) s h
    store-Closed b false (p, s) h =
        rec_pair_write-Closed sha256 m P closed.rmem p (binding_payload b) s h

    clear_record-Closed :
        (w : World sha256 m)
        → OfWorld w
        → OfWorld (clear_record sha256 hmac m (world_random sha256 m k) (world_mac sha256 m k) w).1
    unfolding clear_record
    clear_record-Closed (p, s) h = rec_pair_clear-Closed sha256 m P closed.rmem p s h

    pub kernel : KernelClosed sha256 hmac m (world_random sha256 m k) (world_mac sha256 m k) OfWorld
    unfolding world_random world_mac
    kernel = record {
      on_load = load-Closed;
      on_store = store-Closed;
      on_clear = clear_record-Closed;
      on_random = λ w h. closed.on_random 32 w.1 h;
      on_mac = λ slot x w h. closed.on_mac slot x w.1 h;
    }

-- What depends on the keys and the counters alone.
module _ (sha256 : List ℕ → List ℕ) (hmac : List ℕ → List ℕ → List ℕ) (m : Rmem) (k : Keys m)
    (P : m.State → Type 0)
    (moves : (s s' : m.State) → SameVault k.key k.count s s' → P s → P s') where
  pub vault-ChipClosed : ChipClosed sha256 hmac m k P
  vault-ChipClosed = record {
    rmem = record {
      on_read = λ slot max s h. moves s _ (k.read_vault slot max s) h;
      on_write = λ slot r s h. moves s _ (k.write_vault slot r s) h;
      on_erase = λ slot s h. moves s _ (k.erase_vault slot s) h;
    };
    on_random = λ n s h. moves s _ (k.random_vault n s) h;
    on_ensure = λ s h. moves s _ (k.ensure_vault s) h;
    on_mac = λ slot x s h. moves s _ (k.mac_vault slot x s) h;
  }
