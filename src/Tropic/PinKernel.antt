-- ===== src/Tropic/PinKernel.antt =====
-- firmware/src/tropic/pin_md_kernel.c and pin_md_kernel.h: a PIN bound to MAC-and-Destroy slots.
-- The layout's record pair and the chip are the state that each function takes and returns; an
-- array `ci` is its bytes one slot after the other. HMAC-SHA-256, SHA-256, tropic_random and
-- tropic_mac_and_destroy (`none` for a code other than 0) are parameters. A `none` stands for a
-- NULL pointer; a wiped key is 32 zeros. The clearing of local buffers is not modelled.
pub mod Scheme
pub mod Api
pub mod Chain
pub mod OnChip
pub mod Clear
pub mod Closed
mod Record
mod Attempts
mod Tests
use Prim.Native.Nat.{bit_xor}
use nixtropic.Base.{
  ℕ, zero, suc, ◌+◌, ◌-◌, ◌*◌, ◌%◌, List, [], ◌∷◌, ◌++◌, Bool, true, false, not, ◌&&◌, ◌||◌, Option,
  none, some, ltb, leb, ◌==◌, if◌then◌else◌, length, get_or, take, drop, replicate, bytes_eq,
}
use nixtropic.Tropic.Rmem.{Rmem}
use nixtropic.Tropic.RecPair.{
  RecPair, RecStatus, rec_ok, rec_absent, rec_corrupt, rec_error, Outcome, rec_payload_max,
  rec_pair_read, rec_pair_write, rec_pair_init, rec_pair_clear,
}

abbrev pub slot_size : ℕ
slot_size = 32

abbrev pub tag_len : ℕ
tag_len = 32

abbrev pub rounds_max : ℕ
rounds_max = 8

abbrev pub material_max : ℕ
material_max = 32

abbrev pub bind_hdr : ℕ
bind_hdr = 4

abbrev pub bind_len : ℕ → ℕ
bind_len rounds = bind_hdr + tag_len + rounds * slot_size

pub record Layout : Type 0 where
  pub base_a : ℕ
  pub base_b : ℕ
  pub ranges : ℕ
  pub rounds : ℕ
  pub mat_len : ℕ

pub data PmdState : Type 0 where
  pmd_absent pmd_active pmd_blocked pmd_error : PmdState

-- The return codes.
pub data Pmd : Type 0 where
  pmd_ok pmd_err pmd_err_blocked pmd_err_absent : Pmd

pub record Binding : Type 0 where
  pub range : ℕ
  pub retire_pending : ℕ
  pub next : ℕ
  pub pin_len : ℕ
  pub tag : List ℕ
  pub ci : List ℕ

-- The status of a load, and the binding if it is REC_OK.
pub data Loaded : Type 0 where
  loaded : Binding → Loaded
  load_absent load_error : Loaded

unfoldable pub valid_layout : Layout → Bool
valid_layout l =
    not (l.rounds == 0)
    && leb l.rounds rounds_max
    && (l.ranges == 1 || l.ranges == 2)
    && not (l.mat_len == 0)
    && leb l.mat_len material_max
    && leb (l.base_a + l.rounds) 128
    && (l.ranges == 1 || leb (l.base_b + l.rounds) 128)
    && not
        (l.ranges == 2 && ltb l.base_a (l.base_b + l.rounds) && ltb l.base_b (l.base_a + l.rounds))

xor_bytes : List ℕ → List ℕ → List ℕ
xor_bytes [] bs = []
xor_bytes (a ∷ rest) [] = []
xor_bytes (a ∷ rest) (b ∷ bs) = bit_xor a b ∷ xor_bytes rest bs

pub md_slot : Layout → ℕ → ℕ → ℕ
md_slot l range i = ((if range == 0 then l.base_a else l.base_b) + i) % 256

unfoldable pub well_formed : Layout → List ℕ → Bool
well_formed l buf =
    length buf == bind_len l.rounds
    && ltb (get_or buf 0 0) l.ranges
    && leb (get_or buf 1 0) 1
    && (get_or buf 1 0 == 0 || l.ranges == 2)
    && leb (get_or buf 2 0) l.rounds

unfoldable pub decode : List ℕ → Binding
decode buf = record {
  range = get_or buf 0 0;
  retire_pending = get_or buf 1 0;
  next = get_or buf 2 0;
  pin_len = get_or buf 3 0;
  tag = take tag_len (drop bind_hdr buf);
  ci = drop (bind_hdr + tag_len) buf;
}

unfoldable pub binding_payload : Binding → List ℕ
binding_payload b = b.range ∷ b.retire_pending ∷ b.next ∷ b.pin_len ∷ (b.tag ++ b.ci)

unfoldable pub as_loaded : Layout → RecStatus → List ℕ → Loaded
unfolding well_formed decode
as_loaded l rec_ok buf = if well_formed l buf then loaded (decode buf) else load_error
as_loaded l rec_absent buf = load_absent
as_loaded l _ buf = load_error

module _ (hmac : List ℕ → List ℕ → List ℕ) where
  unfoldable pub kdf : List ℕ → ℕ → List ℕ
  kdf s label = hmac s (label ∷ [])

  pub pin_v : Layout → List ℕ → List ℕ
  pin_v l mat = hmac (replicate 32 0) (take l.mat_len mat)

  pub slot_xor : Layout → List ℕ → List ℕ → List ℕ → List ℕ
  unfolding xor_bytes
  slot_xor l w mat a = xor_bytes a (hmac w (take l.mat_len mat))

-- The constant-time comparison over the tag's bytes.
unfoldable pub tag_equal : List ℕ → List ℕ → Bool
tag_equal a b = bytes_eq (take tag_len a) (take tag_len b)

unfoldable pub is_ok : RecStatus → Bool
is_ok rec_ok = true
is_ok _ = false

module _ (sha256 : List ℕ → List ℕ) (m : Rmem) where
  -- The record pair and the chip.
  abbrev pub World : Type 0
  World = RecPair × m.State

  unfoldable pub load : Layout → World → Loaded × World
  unfolding as_loaded
  load l (p, s) =
      let r = rec_pair_read sha256 m p (some rec_payload_max) s in
      (as_loaded l r.status r.payload, (r.pair, r.chip))

  -- True for PMD_OK.
  unfoldable pub store : Binding → Bool → World → Bool × World
  unfolding is_ok
  store b first (p, s) =
      let (st, p', s') =
        if first
        then rec_pair_init sha256 m p (binding_payload b) s
        else rec_pair_write sha256 m p (binding_payload b) s in
      (is_ok st, (p', s'))

-- The rest of a chain of calls, after a code that tells whether it goes on.
module _ {World : Type 0} {A : Type 0} where
  unfoldable pub if_some : Option (List ℕ) × World → A → (List ℕ → World → A × World) → A × World
  if_some (none, w) failed k = (failed, w)
  if_some (some out, w) failed k = k out w

  unfoldable pub if_ok : Bool × World → A → (World → A × World) → A × World
  if_ok (false, w) failed k = (failed, w)
  if_ok (true, w) failed k = k w
