-- ===== src/Tropic/Rmem.antt =====
-- What the record pairs use of firmware/src/tropic/tropic.c: the R-memory calls
-- tropic_rmem_read, tropic_rmem_write and tropic_rmem_erase, which forward to libtropic and the
-- chip. The chip is a parameter; `holds` is what a slot of it holds, `[]` for an empty slot.
use nixtropic.Base.{ℕ, ◌≡◌, ◌≢◌, Bool, true, List, [], ◌∷◌}

-- The codes of a read: 0 with the bytes, TROPIC_ERR_RMEM_SLOT_EMPTY, or any other error.
pub data Reading : Type 0 where
  bytes : List ℕ → Reading
  slot_empty failed : Reading

pub record Rmem : Type 1 where
  pub State : Type 0
  -- slot, max
  pub read : ℕ → ℕ → State → Reading × State
  -- slot, data; true for the code 0
  pub write : ℕ → List ℕ → State → Bool × State
  pub erase : ℕ → State → Bool × State
  pub holds : State → ℕ → List ℕ
  -- A read changes nothing, and what it returns, if anything, is what the slot holds.
  pub read_keeps : (slot max : ℕ) (s : State) (j : ℕ) → holds (read slot max s).1 j ≡ holds s j
  pub read_bytes :
      (slot max : ℕ) (s : State) (r : List ℕ)
      → (read slot max s).0 ≡ bytes r
      → r ≢ []
      → holds s slot ≡ r
  -- A write or an erase, whatever its result, touches no other slot.
  pub write_other :
      (slot : ℕ) (r : List ℕ) (s : State) (j : ℕ)
      → j ≢ slot
      → holds (write slot r s).1 j ≡ holds s j
  pub erase_other : (slot : ℕ) (s : State) (j : ℕ) → j ≢ slot → holds (erase slot s).1 j ≡ holds s j

-- What a read of a working chip answers.
abbrev pub reading : List ℕ → Reading
reading [] = slot_empty
reading (b ∷ r) = bytes (b ∷ r)

-- A chip that works: a read of up to `max` bytes answers with what the slot holds, an erase
-- empties its slot, a write fills an empty slot.
pub record Works (m : Rmem) (max : ℕ) : Type 0 where
  pub read_all : (slot : ℕ) (s : m.State) → (m.read slot max s).0 ≡ reading (m.holds s slot)
  pub erase_done : (slot : ℕ) (s : m.State) → (m.erase slot s).0 ≡ true
  pub erase_holds : (slot : ℕ) (s : m.State) → m.holds (m.erase slot s).1 slot ≡ []
  pub write_done :
      (slot : ℕ) (r : List ℕ) (s : m.State) → m.holds s slot ≡ [] → (m.write slot r s).0 ≡ true
  pub write_holds :
      (slot : ℕ) (r : List ℕ) (s : m.State)
      → m.holds s slot ≡ []
      → m.holds (m.write slot r s).1 slot ≡ r
