-- ===== src/Tropic/PinKernel/Scheme.antt =====
-- pin_md_kernel.c, the scheme: the settling of a pending retirement, setup and verify with the
-- secret s inside.
use nixtropic.Base.{
  ℕ, zero, suc, ◌+◌, ◌-◌, ◌*◌, ◌%◌, List, [], ◌++◌, Bool, true, false, not, Option, none, some, ltb,
  leb, ◌==◌, if◌then◌else◌, take, drop,
}
use nixtropic.Tropic.Rmem.{Rmem}
use nixtropic.Tropic.PinKernel.{
  Layout, Binding, Loaded, loaded, load_absent, load_error, Pmd, pmd_ok, pmd_err, pmd_err_blocked,
  pmd_err_absent, slot_size, md_slot, tag_equal, kdf, pin_v, slot_xor, World, load, store, if_some,
  if_ok,
}

pub is_first : Option Binding → Bool
is_first none = true
is_first (some b) = false

pub new_range : Option Binding → ℕ
new_range none = 0
new_range (some b) = 1 - b.range

-- What a verify gives: the code, whether the PIN is right, and s if it is.
pub record Verified : Type 0 where
  pub code : Pmd
  pub correct : Bool
  pub s : List ℕ

abbrev pub refused : Pmd → Verified
refused code = record { code = code; correct = false; s = [] }

module _ (sha256 : List ℕ → List ℕ) (hmac : List ℕ → List ℕ → List ℕ) (m : Rmem)
    (tropic_random : World sha256 m → Option (List ℕ) × World sha256 m)
    (tropic_mac_and_destroy : ℕ → List ℕ → World sha256 m → Option (List ℕ) × World sha256 m) where
  -- `left` slots from the `i`th on.
  unfoldable pub retire_from : ℕ → ℕ → Layout → ℕ → World sha256 m → Bool × World sha256 m
  unfolding if_some
  retire_from zero i l range w = (true, w)
  retire_from (suc left) i l range w = if_some (tropic_random w) false (λ rnd w1.
      if_some (tropic_mac_and_destroy (md_slot l range i) rnd w1) false
        (λ out w2. retire_from left (i + 1) l range w2))

  unfoldable pub retire : Layout → ℕ → World sha256 m → Bool × World sha256 m
  retire l range w = retire_from l.rounds 0 l range w

  -- A pending retirement is finished before the binding is used.
  unfoldable pub settle_loaded : Layout → Loaded × World sha256 m → Loaded × World sha256 m
  unfolding if_ok
  settle_loaded l (loaded b, w) =
      let b' = record b { retire_pending = 0 } in
      if b.retire_pending == 0
      then (loaded b, w)
      else if_ok (retire l (1 - b.range) w) load_error
          (λ w1. if_ok (store sha256 m b' false w1) load_error (λ w2. (loaded b', w2)))
  settle_loaded l (st, w) = (st, w)

  unfoldable pub settle : Layout → World sha256 m → Loaded × World sha256 m
  settle l w = settle_loaded l (load sha256 m l w)

  -- The slots of the new range from the `i`th on, each prepared with u, v and u again; `ci` is what
  -- the slots before them gave.
  unfoldable pub bind_slots :
      ℕ
      → ℕ
      → Layout
      → ℕ
      → List ℕ
      → List ℕ
      → List ℕ
      → World sha256 m
      → Option (List ℕ) × World sha256 m
  unfolding if_some
  bind_slots zero i l range mat s ci w = (some ci, w)
  bind_slots (suc left) i l range mat s ci w =
      let slot = md_slot l range i in
      let u = kdf hmac s 0x01 in
      if_some (tropic_mac_and_destroy slot u w) none (λ out w1.
        if_some (tropic_mac_and_destroy slot (pin_v hmac l mat) w1) none (λ k w2.
          if_some (tropic_mac_and_destroy slot u w2) none
            (λ out2 w3. bind_slots left (i + 1) l range mat s (ci ++ slot_xor hmac l k mat s) w3)))

  -- After the commit: the old range is retired, and that is recorded.
  unfoldable pub retire_old :
      Layout → Option Binding → Binding → World sha256 m → Pmd × World sha256 m
  unfolding if_ok
  retire_old l none nb w = (pmd_ok, w)
  retire_old l (some cur) nb w = if_ok (retire l cur.range w) pmd_err (λ w1.
      if_ok (store sha256 m (record nb { retire_pending = 0 }) false w1) pmd_err
        (λ w2. (pmd_ok, w2)))

  unfoldable pub setup_over :
      Layout → List ℕ → ℕ → List ℕ → Option Binding → World sha256 m → Pmd × World sha256 m
  unfolding if_some if_ok is_first new_range
  setup_over l mat pin_len s cur w =
      let range = new_range cur in
      if_some (bind_slots l.rounds 0 l range mat s [] w) pmd_err (λ ci w1.
        let nb : Binding = record {
          range = range;
          retire_pending = if is_first cur then 0 else 1;
          next = 0;
          pin_len = pin_len;
          tag = kdf hmac s 0x00;
          ci = ci;
        } in
        if_ok (store sha256 m nb (is_first cur) w1) pmd_err (λ w2. retire_old l cur nb w2))

  unfoldable pub setup_settled :
      Layout → List ℕ → ℕ → List ℕ → Loaded × World sha256 m → Pmd × World sha256 m
  setup_settled l mat pin_len s (loaded cur, w) =
      if ltb l.ranges 2 then (pmd_err, w) else setup_over l mat pin_len s (some cur) w
  setup_settled l mat pin_len s (load_absent, w) = setup_over l mat pin_len s none w
  setup_settled l mat pin_len s (load_error, w) = (pmd_err, w)

  unfoldable pub setup_s : Layout → List ℕ → ℕ → List ℕ → World sha256 m → Pmd × World sha256 m
  setup_s l mat pin_len s w = setup_settled l mat pin_len s (settle l w)

  -- The slots of the range from the `i`th on, restored with u.
  unfoldable pub restore_from : ℕ → ℕ → Layout → ℕ → List ℕ → World sha256 m → Bool × World sha256 m
  unfolding if_some
  restore_from zero i l range u w = (true, w)
  restore_from (suc left) i l range u w =
      if_some (tropic_mac_and_destroy (md_slot l range i) u w) false
        (λ out w1. restore_from left (i + 1) l range u w1)

  -- The right PIN: the slots are restored and the attempts are given back.
  unfoldable pub give_back : Layout → Binding → List ℕ → World sha256 m → Verified × World sha256 m
  unfolding if_ok
  give_back l b s w =
      if_ok (restore_from l.rounds 0 l b.range (kdf hmac s 0x01) w) (refused pmd_err) (λ w1.
        if_ok (store sha256 m (record b { next = 0 }) false w1) (refused pmd_err)
          (λ w2. (record { code = pmd_ok; correct = true; s = s }, w2)))

  -- The attempt on the reserved slot `idx`; `b` has it counted.
  unfoldable pub attempt :
      Layout → List ℕ → ℕ → Binding → World sha256 m → Verified × World sha256 m
  unfolding if_some
  attempt l mat idx b w =
      if_some (tropic_mac_and_destroy (md_slot l b.range idx) (pin_v hmac l mat) w)
        (refused pmd_err)
        (λ out w1.
          let s = slot_xor hmac l out mat (take slot_size (drop (idx * slot_size) b.ci)) in
          if not (tag_equal (kdf hmac s 0x00) b.tag)
          then (refused pmd_ok, w1)
          else give_back l b s w1)

  unfoldable pub verify_settled :
      Layout → List ℕ → Loaded × World sha256 m → Verified × World sha256 m
  unfolding if_ok
  verify_settled l mat (loaded b, w) =
      let b' = record b { next = (b.next + 1) % 256 } in
      if leb l.rounds b.next
      then (refused pmd_err_blocked, w)
      else if_ok (store sha256 m b' false w) (refused pmd_err) (λ w1. attempt l mat b.next b' w1)
  verify_settled l mat (load_absent, w) = (refused pmd_err_absent, w)
  verify_settled l mat (load_error, w) = (refused pmd_err, w)

  -- Reserve, one M&D call, compare; if the PIN is right, restore the slots.
  unfoldable pub verify_s : Layout → List ℕ → World sha256 m → Verified × World sha256 m
  verify_s l mat w = verify_settled l mat (settle l w)
