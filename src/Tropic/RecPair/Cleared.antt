-- ===== src/Tropic/RecPair/Cleared.antt =====
-- rec_pair_clear of rec_pair.c and its checked erase: what a clear that succeeds leaves in the slots.
use nixtropic.Base.{sym, ℕ, List, true, ◌≡◌, ◌≢◌, ◌∙◌, arith}
use nixtropic.Tropic.Rmem.{Rmem}
use nixtropic.Tropic.RecPair.{RecPair, rec_ok, slot_max, erase_checked, reads_empty, rec_pair_clear}

module _ (m : Rmem) where
  -- The slot holds what an erase of it left there that the chip acknowledged, and after which the
  -- slot read as empty. Neither of the two alone is taken for the other: a damaged slot reads as
  -- empty too.
  pub record LeftByErase (slot : ℕ) (s : m.State) : Type 0 where
    pub before : m.State
    pub max : ℕ
    pub acknowledged : (m.erase slot before).0 ≡ true
    pub read_back : reads_empty m (m.read slot max (m.erase slot before).1).0 ≡ true
    pub same : m.holds s slot ≡ m.holds (m.erase slot before).1 slot

  pub still_left :
      (slot : ℕ) (s s' : m.State)
      → m.holds s' slot ≡ m.holds s slot
      → LeftByErase slot s
      → LeftByErase slot s'
  still_left slot s s' e h = record {
    before = h.before;
    max = h.max;
    acknowledged = h.acknowledged;
    read_back = h.read_back;
    same = e ∙ h.same;
  }

module _ (sha256 : List ℕ → List ℕ) (m : Rmem) where
  erase_checked-LeftByErase :
      (slot : ℕ) (s : m.State)
      → (erase_checked m slot s).0 ≡ true
      → LeftByErase m slot (erase_checked m slot s).1
  unfolding erase_checked
  erase_checked-LeftByErase slot s ok =
      let s1 = (m.erase slot s).1 in
      record {
        before = s;
        max = slot_max;
        acknowledged = ground (arith, ok);
        read_back = ground (arith, ok);
        same = ground (arith, ok, m.read_keeps slot slot_max s1 slot);
      }

  erase_checked_other :
      (slot : ℕ) (s : m.State) (j : ℕ)
      → j ≢ slot
      → m.holds (erase_checked m slot s).1 j ≡ m.holds s j
  unfolding erase_checked
  erase_checked_other slot s j ne =
      let s1 = (m.erase slot s).1 in
      ground (arith, m.erase_other slot s j ne, m.read_keeps slot slot_max s1 j)

  -- A clear that succeeds has erased both slots of the pair, and read both back.
  pub rec_pair_clear-LeftByErase :
      (p : RecPair) (s : m.State)
      → p.slot_a ≢ p.slot_b
      → (rec_pair_clear sha256 m p s).0 ≡ rec_ok
      → LeftByErase m p.slot_a (rec_pair_clear sha256 m p s).2
        × LeftByErase m p.slot_b (rec_pair_clear sha256 m p s).2
  unfolding rec_pair_clear
  rec_pair_clear-LeftByErase p s ne ok =
      let s1 = (erase_checked m p.slot_b s).1 in
      let s2 = (erase_checked m p.slot_a s1).1 in
      let first : (erase_checked m p.slot_b s).0 ≡ true = ground (arith, ok) in
      let second : (erase_checked m p.slot_a s1).0 ≡ true = ground (arith, ok) in
      let last : (rec_pair_clear sha256 m p s).2 ≡ s2 = ground (arith, ok) in
      let b = erase_checked-LeftByErase p.slot_b s first in
      rw last (
        erase_checked-LeftByErase p.slot_a s1 second,
        still_left m p.slot_b s1 s2
            (erase_checked_other p.slot_a s1 p.slot_b (λ e. absurd (ne (sym e)))) b,
      )
