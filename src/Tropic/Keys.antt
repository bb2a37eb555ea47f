-- ===== src/Tropic/Keys.antt =====
-- What the FIDO store uses of firmware/src/tropic/tropic.c beside the R-memory: tropic_random,
-- tropic_l3_session_ensure, tropic_mac_and_destroy, the ECC key slots and the monotonic counters,
-- which forward to libtropic and the chip. The chip is a parameter; `key` is what an ECC slot
-- holds, `[]` for an empty slot, and `count` the value of a counter.
use nixtropic.Base.{ℕ, ◌+◌, ◌≤◌, ◌≡◌, ◌≢◌, List, [], Bool, true, Option, some, length, AreBytes}
use nixtropic.Tropic.Rmem.{Rmem}

-- The keys and the counters are as they were.
abbrev pub SameVault :
    {State : Type 0} → (State → ℕ → List ℕ) → (State → ℕ → ℕ) → State → State → Type 0
SameVault key count s s' = ((j : ℕ) → key s' j ≡ key s j) × ((i : ℕ) → count s' i ≡ count s i)

pub record Keys (m : Rmem) : Type 0 where
  -- The number of bytes; `none` for an error.
  pub random : ℕ → m.State → Option (List ℕ) × m.State
  pub session_ensure : m.State → Bool × m.State
  -- The M&D slot and the input.
  pub mac_and_destroy : ℕ → List ℕ → m.State → Option (List ℕ) × m.State
  -- The slot; the slot and the curve. True for the code 0.
  pub ecc_erase : ℕ → m.State → Bool × m.State
  pub ecc_generate : ℕ → ℕ → m.State → Bool × m.State
  -- The slot and the room; the slot, the message and the room. `none` for a negative length.
  pub ecc_pubkey_read : ℕ → ℕ → m.State → Option (List ℕ) × m.State
  pub ecc_eddsa_sign : ℕ → List ℕ → ℕ → m.State → Option (List ℕ) × m.State
  pub ecc_ecdsa_sign : ℕ → List ℕ → ℕ → m.State → Option (List ℕ) × m.State
  -- The index; the index and the value.
  pub mcounter_get : ℕ → m.State → Option ℕ × m.State
  pub mcounter_update : ℕ → m.State → Bool × m.State
  pub mcounter_init : ℕ → ℕ → m.State → Bool × m.State
  pub key : m.State → ℕ → List ℕ
  pub count : m.State → ℕ → ℕ
  -- The R-memory calls move no key and no counter.
  pub read_vault : (slot max : ℕ) (s : m.State) → SameVault key count s (m.read slot max s).1
  pub write_vault :
      (slot : ℕ) (r : List ℕ) (s : m.State) → SameVault key count s (m.write slot r s).1
  pub erase_vault : (slot : ℕ) (s : m.State) → SameVault key count s (m.erase slot s).1
  -- Nor do the calls that only answer, and these touch no R-memory slot either.
  pub random_vault : (n : ℕ) (s : m.State) → SameVault key count s (random n s).1
  pub random_keeps : (n : ℕ) (s : m.State) (j : ℕ) → m.holds (random n s).1 j ≡ m.holds s j
  pub random_length : (n : ℕ) (s : m.State) (x : List ℕ) → (random n s).0 ≡ some x → length x ≡ n
  pub random_bytes : (n : ℕ) (s : m.State) (x : List ℕ) → (random n s).0 ≡ some x → AreBytes x
  pub ensure_vault : (s : m.State) → SameVault key count s (session_ensure s).1
  pub ensure_keeps : (s : m.State) (j : ℕ) → m.holds (session_ensure s).1 j ≡ m.holds s j
  pub mac_vault :
      (slot : ℕ) (x : List ℕ) (s : m.State) → SameVault key count s (mac_and_destroy slot x s).1
  pub mac_keeps :
      (slot : ℕ) (x : List ℕ) (s : m.State) (j : ℕ)
      → m.holds (mac_and_destroy slot x s).1 j ≡ m.holds s j
  pub pubkey_vault :
      (slot max : ℕ) (s : m.State) → SameVault key count s (ecc_pubkey_read slot max s).1
  pub eddsa_vault :
      (slot : ℕ) (x : List ℕ) (max : ℕ) (s : m.State)
      → SameVault key count s (ecc_eddsa_sign slot x max s).1
  pub ecdsa_vault :
      (slot : ℕ) (x : List ℕ) (max : ℕ) (s : m.State)
      → SameVault key count s (ecc_ecdsa_sign slot x max s).1
  pub get_vault : (i : ℕ) (s : m.State) → SameVault key count s (mcounter_get i s).1
  pub get_value : (i : ℕ) (s : m.State) (v : ℕ) → (mcounter_get i s).0 ≡ some v → v ≡ count s i
  -- A key call touches no other key, no counter and no R-memory; an acknowledged erase empties.
  pub ecc_erase_other :
      (slot : ℕ) (s : m.State) (j : ℕ) → j ≢ slot → key (ecc_erase slot s).1 j ≡ key s j
  pub ecc_erase_done :
      (slot : ℕ) (s : m.State) → (ecc_erase slot s).0 ≡ true → key (ecc_erase slot s).1 slot ≡ []
  pub ecc_erase_count : (slot : ℕ) (s : m.State) (i : ℕ) → count (ecc_erase slot s).1 i ≡ count s i
  pub ecc_erase_keeps :
      (slot : ℕ) (s : m.State) (j : ℕ) → m.holds (ecc_erase slot s).1 j ≡ m.holds s j
  pub ecc_generate_other :
      (slot curve : ℕ) (s : m.State) (j : ℕ)
      → j ≢ slot
      → key (ecc_generate slot curve s).1 j ≡ key s j
  pub ecc_generate_count :
      (slot curve : ℕ) (s : m.State) (i : ℕ) → count (ecc_generate slot curve s).1 i ≡ count s i
  -- An update counts down by one if it is acknowledged, and never up; no counter call touches a
  -- key or the R-memory.
  pub update_keys : (i : ℕ) (s : m.State) (j : ℕ) → key (mcounter_update i s).1 j ≡ key s j
  pub update_down : (i : ℕ) (s : m.State) → count (mcounter_update i s).1 i ≤ count s i
  pub update_done :
      (i : ℕ) (s : m.State)
      → (mcounter_update i s).0 ≡ true
      → count (mcounter_update i s).1 i + 1 ≡ count s i
  pub init_keys : (i v : ℕ) (s : m.State) (j : ℕ) → key (mcounter_init i v s).1 j ≡ key s j
  pub init_keeps : (i v : ℕ) (s : m.State) (j : ℕ) → m.holds (mcounter_init i v s).1 j ≡ m.holds s j
  pub init_done :
      (i v : ℕ) (s : m.State) → (mcounter_init i v s).0 ≡ true → count (mcounter_init i v s).1 i ≡ v
