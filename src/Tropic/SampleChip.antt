-- ===== src/Tropic/SampleChip.antt =====
-- A chip that works and a stand-in for SHA-256, for concrete runs of firmware/src/tropic.
use nixtropic.Base.{
  if_each, not, ap, AreBytes, ◌%◌, ℕ, List, [], ◌∷◌, ◌≡◌, ◌≢◌, refl, true, arith, length, replicate,
  ◌==◌, if◌then◌else◌,
}
use nixtropic.Tropic.Rmem.{Rmem, Works, reading, bytes}
use nixtropic.Tropic.RecPair.{slot_max}

abbrev pub Store : Type 0
Store = ℕ → List ℕ

abbrev pub update : Store → ℕ → List ℕ → Store
update s slot r j = if j == slot then r else s j

pub update_self : (s : Store) (slot : ℕ) (r : List ℕ) → update s slot r slot ≡ r
update_self s slot r = ground arith

pub update_other : (s : Store) (slot : ℕ) (r : List ℕ) (j : ℕ) → j ≢ slot → update s slot r j ≡ s j
update_other s slot r j ne = ground arith

pub reading_bytes : (r x : List ℕ) → reading x ≡ bytes r → x ≡ r
reading_bytes r [] h = cc
reading_bytes r (b ∷ x) h = cc

-- A chip that works.
abbrev pub good_chip : Rmem
good_chip = record {
  State = Store;
  read = λ slot max s. (reading (s slot), s);
  write = λ slot r s. (true, update s slot r);
  erase = λ slot s. (true, update s slot []);
  holds = λ s j. s j;
  read_keeps = λ slot max s j. refl;
  read_bytes = λ slot max s r h ne. reading_bytes r (s slot) h;
  write_other = λ slot r s j ne. update_other s slot r j ne;
  erase_other = λ slot s j ne. update_other s slot [] j ne;
}

pub good_chip-Works : Works good_chip slot_max
good_chip-Works = record {
  read_all = λ slot s. refl;
  erase_done = λ slot s. refl;
  erase_holds = λ slot s. update_self s slot [];
  write_done = λ slot r s h. refl;
  write_holds = λ slot r s h. update_self s slot r;
}

-- A stand-in for SHA-256.
abbrev pub hash : List ℕ → List ℕ
hash x = replicate 32 7

pub hash_length : (x : List ℕ) → length (hash x) ≡ 32
hash_length x = refl

unfoldable pub clip : List ℕ → List ℕ
clip [] = []
clip (b ∷ r) = b % 256 ∷ clip r

clip_bytes : (r : List ℕ) → AreBytes (clip r)
unfolding clip
clip_bytes [] = tt
clip_bytes (b ∷ r) = (omega arith, clip_bytes r)

pub byte_write_other :
    (s : Store) (slot : ℕ) (r : List ℕ) (j : ℕ)
    → j ≢ slot
    → clip ((if slot == 3 then s else update s slot r) j) ≡ clip (s j)
byte_write_other s slot r j ne =
    if_each (λ (t : Store). clip (t j) ≡ clip (s j)) (slot == 3) s _ (λ e. refl)
      (λ e. ap clip (update_other s slot r j ne))

-- A chip whose slots hold bytes, and which does nothing when slot 3 is written.
abbrev pub byte_chip : Rmem
byte_chip = record {
  State = Store;
  read = λ slot max s. (reading (clip (s slot)), s);
  write = λ slot r s. (not (slot == 3), if slot == 3 then s else update s slot r);
  erase = λ slot s. (true, update s slot []);
  holds = λ s j. clip (s j);
  read_keeps = λ slot max s j. refl;
  read_bytes = λ slot max s r h ne. reading_bytes r (clip (s slot)) h;
  write_other = λ slot r s j ne. byte_write_other s slot r j ne;
  erase_other = λ slot s j ne. ap clip (update_other s slot [] j ne);
}

pub byte_chip_bytes : (s : Store) (j : ℕ) → AreBytes (byte_chip.holds s j)
byte_chip_bytes s j = clip_bytes (s j)
