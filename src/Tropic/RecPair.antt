-- ===== src/Tropic/RecPair.antt =====
-- firmware/src/tropic/rec_pair.c and rec_pair.h: one record kept in two R-memory slots.
-- A function returns what the code returns and writes through its pointers, the pair (for
-- `uncertain`) and the chip. SHA-256 is trezor-crypto's, a parameter.
pub mod Format
pub mod Commit
pub mod Read
pub mod Recover
pub mod Crash
pub mod PowerCut
pub mod Contract
pub mod Writes
pub mod Frame
pub mod Lockout
pub mod Closed
pub mod Cleared
pub mod Acknowledged
pub mod Stored
pub mod Ops
mod Tests
use nixtropic.Base.{
  ℕ, ◌+◌, ◌-◌, ◌*◌, ◌%◌, ◌^◌, List, [], ◌∷◌, ◌++◌, Bool, true, false, not, ◌&&◌, ◌||◌, Option, none,
  some, ltb, leb, ◌==◌, if◌then◌else◌, length, get_or, take, drop, byte_of, of_be32, u32_mod,
  bytes_eq,
}
use nixtropic.Tropic.Rmem.{Rmem, Reading, bytes, slot_empty, failed}

abbrev pub rec_hdr : ℕ
rec_hdr = 12

abbrev pub rec_sum : ℕ
rec_sum = 8

abbrev pub rec_payload_max : ℕ
rec_payload_max = 424

abbrev pub rec_max : ℕ
rec_max = rec_hdr + rec_payload_max + rec_sum

abbrev pub slot_max : ℕ
slot_max = 475

-- "NXR1"
abbrev pub magic : List ℕ
magic = 0x4e ∷ 0x58 ∷ 0x52 ∷ 0x31 ∷ []

pub data RecStatus : Type 0 where
  rec_ok rec_absent rec_corrupt rec_error : RecStatus

pub record RecPair : Type 0 where
  pub slot_a : ℕ
  pub slot_b : ℕ
  pub obj : ℕ
  pub schema : ℕ
  pub uncertain : Bool

pub data Copy : Type 0 where
  copy_valid : List ℕ → Copy
  copy_empty copy_bad copy_err : Copy

pub gen_of : List ℕ → ℕ
gen_of r = of_be32 (get_or r 6 0) (get_or r 7 0) (get_or r 8 0) (get_or r 9 0)

pub len_of : List ℕ → ℕ
len_of r = get_or r 10 0 * 2 ^ 8 + get_or r 11 0

-- What `rec_pair_read` makes of two valid copies: the winner, and the copy to repair.
pub data Choice : Type 0 where
  keep repair_a repair_b : List ℕ → Choice
  refuse : RecStatus → Choice

choose_valid : List ℕ → List ℕ → Choice
choose_valid a b =
    if gen_of a == gen_of b
    then if bytes_eq a b then keep a else refuse rec_error
    else if gen_of a == (gen_of b + 1) % u32_mod
    then repair_b a
    else if gen_of b == (gen_of a + 1) % u32_mod
    then repair_a b
    else refuse rec_error

pub choose : Copy → Copy → Choice
choose (copy_valid a) (copy_valid b) = choose_valid a b
choose (copy_valid a) _ = repair_b a
choose _ (copy_valid b) = repair_a b
choose copy_empty copy_empty = refuse rec_absent
choose _ _ = refuse rec_corrupt

bad_args : List ℕ → Bool
bad_args payload = ltb rec_payload_max (length payload)

-- The payload of a record, and whether it fits `max`, `none` for a NULL `payload`.
pub payload_of : List ℕ → List ℕ
payload_of r = take (len_of r) (drop rec_hdr r)

pub fits : Option ℕ → List ℕ → Bool
fits none r = true
fits (some max) r = leb (len_of r) max

is_err : Copy → Bool
is_err copy_err = true
is_err _ = false

abbrev pub uncertain_now : RecPair → RecPair
uncertain_now p = record p { uncertain = true }

module _ (sha256 : List ℕ → List ℕ) where
  checksum : List ℕ → List ℕ
  checksum r = take rec_sum (sha256 r)

  -- The bytes before the checksum.
  abbrev pub body : RecPair → ℕ → List ℕ → List ℕ
  body p gen payload =
      magic
      ++ p.obj
        ∷ p.schema
        ∷ byte_of gen 3
        ∷ byte_of gen 2
        ∷ byte_of gen 1
        ∷ byte_of gen 0
        ∷ byte_of (length payload) 1
        ∷ byte_of (length payload) 0
        ∷ payload

  unfoldable pub encode : RecPair → ℕ → List ℕ → List ℕ
  unfolding checksum
  encode p gen payload = body p gen payload ++ checksum (body p gen payload)

  unfoldable pub valid : RecPair → List ℕ → Bool
  unfolding checksum gen_of len_of
  valid p r =
      if ltb (length r) (rec_hdr + rec_sum) || ltb rec_max (length r)
      then false
      else if not (bytes_eq (take 4 r) magic)
          || not (get_or r 4 0 == p.obj)
          || not (get_or r 5 0 == p.schema)
      then false
      else if gen_of r == 0 || not (length r == rec_hdr + len_of r + rec_sum)
      then false
      else bytes_eq (checksum (take (rec_hdr + len_of r) r))
          (take rec_sum (drop (rec_hdr + len_of r) r))

module _ (m : Rmem) where
  open m use {State, read, write, erase}

  is_exactly : List ℕ → Reading → Bool
  is_exactly r (bytes got) = length got == length r && bytes_eq got r
  is_exactly r _ = false

  -- Erase, write, read back.
  pub commit_copy : ℕ → List ℕ → State → Bool × State
  unfolding is_exactly
  commit_copy slot r s =
      let (erased, s1) = erase slot s in
      let (written, s2) = write slot r s1 in
      let (got, s3) = read slot slot_max s2 in
      if not erased
      then (false, s1)
      else if not written
      then (false, s2)
      else (is_exactly r got, s3)

  unfoldable pub reads_empty : Reading → Bool
  reads_empty (bytes []) = true
  reads_empty (bytes (b ∷ r)) = false
  reads_empty slot_empty = true
  reads_empty failed = false

  pub erase_checked : ℕ → State → Bool × State
  unfolding reads_empty
  erase_checked slot s =
      let (erased, s1) = erase slot s in
      let (got, s2) = read slot slot_max s1 in
      if not erased then (false, s1) else (reads_empty got, s2)

  -- What a call returns: the status, the payload and generation read, the pair and the chip.
  pub record Outcome : Type 0 where
    pub status : RecStatus
    pub payload : List ℕ
    pub gen : ℕ
    pub pair : RecPair
    pub chip : State

  abbrev pub outcome : RecStatus → RecPair → State → Outcome
  outcome st p s = record { status = st; payload = []; gen = 0; pair = p; chip = s }

module _ (sha256 : List ℕ → List ℕ) (m : Rmem) where
  open m use {State, read}

  classify : RecPair → Reading → Copy
  classify p (bytes []) = copy_empty
  classify p (bytes r) = if valid sha256 p r then copy_valid r else copy_bad
  classify p slot_empty = copy_empty
  classify p failed = copy_err

  pub read_copy : RecPair → ℕ → State → Copy × State
  unfolding classify
  read_copy p slot s = let (r, s') = read slot slot_max s in (classify p r, s')

  pub won : RecPair → List ℕ → State → Outcome m
  unfolding payload_of
  won p r s = record { status = rec_ok; payload = payload_of r; gen = gen_of r; pair = p; chip = s }

  pub repair : RecPair → Option ℕ → ℕ → List ℕ → State → Outcome m
  unfolding won fits commit_copy
  repair p max slot r s =
      let (done, s') = commit_copy m slot r s in
      if not (fits max r)
      then outcome m rec_error p s
      else if done
      then won p r s'
      else outcome m rec_error (uncertain_now p) s'

  pub settle_read : RecPair → Option ℕ → Choice → State → Outcome m
  unfolding won fits repair
  settle_read p max (keep r) s = if fits max r then won p r s else outcome m rec_error p s
  settle_read p max (repair_a r) s = repair p max p.slot_a r s
  settle_read p max (repair_b r) s = repair p max p.slot_b r s
  settle_read p max (refuse st) s = outcome m st p s

  unfoldable pub rec_pair_read : RecPair → Option ℕ → State → Outcome m
  unfolding read_copy settle_read is_err choose choose_valid
  rec_pair_read p max s =
      let (a, s1) = read_copy p p.slot_a s in
      let (b, s2) = read_copy p p.slot_b s1 in
      if p.uncertain
      then outcome m rec_error p s
      else if is_err a
      then outcome m rec_error p s1
      else if is_err b
      then outcome m rec_error p s2
      else settle_read p max (choose a b) s2

  pub commit_both : RecPair → ℕ → List ℕ → State → RecStatus × RecPair × State
  unfolding commit_copy
  commit_both p gen payload s =
      let r = encode sha256 p gen payload in
      let (a, s1) = commit_copy m p.slot_a r s in
      let (b, s2) = commit_copy m p.slot_b r s1 in
      if not a
      then (rec_error, uncertain_now p, s1)
      else if not b
      then (rec_error, uncertain_now p, s2)
      else (rec_ok, p, s2)

  write_next : RecStatus → ℕ → RecPair → List ℕ → State → RecStatus × RecPair × State
  unfolding commit_both
  write_next rec_ok gen p payload s =
      if gen == u32_mod - 1 then (rec_error, p, s) else commit_both p (gen + 1) payload s
  write_next st gen p payload s = (st, p, s)

  unfoldable pub rec_pair_write : RecPair → List ℕ → State → RecStatus × RecPair × State
  unfolding rec_pair_read write_next bad_args
  rec_pair_write p payload s =
      let r = rec_pair_read p none s in
      if bad_args payload
      then (rec_error, p, s)
      else write_next r.status r.gen r.pair payload r.chip

  pub rec_pair_clear : RecPair → State → RecStatus × RecPair × State
  unfolding erase_checked
  rec_pair_clear p s =
      let (b, s1) = erase_checked m p.slot_b s in
      let (a, s2) = erase_checked m p.slot_a s1 in
      if p.uncertain
      then (rec_error, p, s)
      else if not b
      then (rec_error, uncertain_now p, s1)
      else if not a
      then (rec_error, uncertain_now p, s2)
      else (rec_ok, p, s2)

  init_next : RecStatus → RecPair → List ℕ → State → RecStatus × RecPair × State
  unfolding commit_both
  init_next rec_ok p payload s = commit_both p 1 payload s
  init_next st p payload s = (st, p, s)

  unfoldable pub rec_pair_init : RecPair → List ℕ → State → RecStatus × RecPair × State
  unfolding rec_pair_clear init_next bad_args
  rec_pair_init p payload s =
      let (st, p', s') = rec_pair_clear p s in
      if bad_args payload then (rec_error, p, s) else init_next st p' payload s'
