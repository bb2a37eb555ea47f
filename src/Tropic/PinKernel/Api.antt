-- ===== src/Tropic/PinKernel/Api.antt =====
-- pin_md_kernel.c, the public functions.
use nixtropic.Base.{
  ℕ, zero, suc, ◌+◌, ◌-◌, List, Bool, true, false, not, ◌&&◌, ◌||◌, Option, none, some, ltb, leb,
  if◌then◌else◌, replicate,
}
use nixtropic.Tropic.Rmem.{Rmem}
use nixtropic.Tropic.RecPair.{rec_pair_clear}
use nixtropic.Tropic.PinKernel.{
  Layout, Loaded, loaded, load_absent, load_error, Pmd, pmd_ok, pmd_err, PmdState, pmd_absent,
  pmd_active, pmd_blocked, pmd_error, valid_layout, kdf, World, if_some, if_ok, is_ok,
}
use nixtropic.Tropic.PinKernel.Scheme.{Verified, settle, setup_s, verify_s, retire}

abbrev wiped : List ℕ
wiped = replicate 32 0

-- The state, the attempts left and the length of the PIN.
abbrev pub Status : Type 0
Status = PmdState × ℕ × ℕ

status_of : Layout → Loaded → Status
status_of l (loaded b) =
    (if leb l.rounds b.next then pmd_blocked else pmd_active, l.rounds - b.next, b.pin_len)
status_of l load_absent = (pmd_absent, 0, 0)
status_of l load_error = (pmd_error, 0, 0)

unfoldable pub is_pmd_ok : Pmd → Bool
is_pmd_ok pmd_ok = true
is_pmd_ok _ = false

module _ (sha256 : List ℕ → List ℕ) (hmac : List ℕ → List ℕ → List ℕ) (m : Rmem)
    (tropic_random : World sha256 m → Option (List ℕ) × World sha256 m)
    (tropic_mac_and_destroy : ℕ → List ℕ → World sha256 m → Option (List ℕ) × World sha256 m) where
  unfoldable pub pin_md_kernel_status : Layout → World sha256 m → Status × World sha256 m
  unfolding status_of
  pin_md_kernel_status l w =
      let (st, w1) = settle sha256 hmac m tropic_random tropic_mac_and_destroy l w in
      if valid_layout l then (status_of l st, w1) else ((pmd_error, 0, 0), w)

  -- The code and the key.
  unfoldable pub pin_md_kernel_setup :
      Layout → Option (List ℕ) → ℕ → World sha256 m → (Pmd × List ℕ) × World sha256 m
  unfolding if_some is_pmd_ok
  pin_md_kernel_setup l none pin_len w = ((pmd_err, wiped), w)
  pin_md_kernel_setup l (some mat) pin_len w =
      if valid_layout l
      then if_some (tropic_random w) (pmd_err, wiped)
          (λ s w1.
            let (rc, w2) =
              setup_s sha256 hmac m tropic_random tropic_mac_and_destroy l mat pin_len s w1 in
            ((rc, if is_pmd_ok rc then kdf hmac s 0x02 else wiped), w2))
      else ((pmd_err, wiped), w)

  -- The code, whether the PIN is right, and the key.
  unfoldable pub pin_md_kernel_verify :
      Layout → Option (List ℕ) → World sha256 m → (Pmd × Bool × List ℕ) × World sha256 m
  unfolding is_pmd_ok
  pin_md_kernel_verify l none w = ((pmd_err, false, wiped), w)
  pin_md_kernel_verify l (some mat) w =
      let (v, w1) = verify_s sha256 hmac m tropic_random tropic_mac_and_destroy l mat w in
      let key = if is_pmd_ok v.code && v.correct then kdf hmac v.s 0x02 else wiped in
      if valid_layout l then ((v.code, v.correct, key), w1) else ((pmd_err, false, wiped), w)

  unfoldable pub change_to :
      Layout → List ℕ → ℕ → Verified × World sha256 m → (Pmd × Bool × List ℕ) × World sha256 m
  unfolding is_pmd_ok
  change_to l mat pin_len (v, w) =
      let (rc, w1) =
        setup_s sha256 hmac m tropic_random tropic_mac_and_destroy l mat pin_len v.s w in
      if not (is_pmd_ok v.code && v.correct)
      then ((v.code, v.correct, wiped), w)
      else if is_pmd_ok rc
      then ((rc, true, kdf hmac v.s 0x02), w1)
      else ((rc, false, wiped), w1)

  -- The same s under the new PIN.
  unfoldable pub pin_md_kernel_change :
      Layout
      → Option (List ℕ)
      → Option (List ℕ)
      → ℕ
      → World sha256 m
      → (Pmd × Bool × List ℕ) × World sha256 m
  pin_md_kernel_change l (some old) (some new) pin_len w =
      if not (valid_layout l) || ltb l.ranges 2
      then ((pmd_err, false, wiped), w)
      else change_to l new pin_len
          (verify_s sha256 hmac m tropic_random tropic_mac_and_destroy l old w)
  pin_md_kernel_change l _ _ pin_len w = ((pmd_err, false, wiped), w)

  -- The ranges from the `r`th on.
  unfoldable pub retire_ranges : ℕ → ℕ → Layout → World sha256 m → Bool × World sha256 m
  unfolding if_ok
  retire_ranges zero r l w = (true, w)
  retire_ranges (suc left) r l w =
      if_ok (retire sha256 hmac m tropic_random tropic_mac_and_destroy l r w) false
        (λ w1. retire_ranges left (r + 1) l w1)

  unfoldable pub clear_record : World sha256 m → Pmd × World sha256 m
  unfolding is_ok
  clear_record (p, s) =
      let (st, p', s') = rec_pair_clear sha256 m p s in
      (if is_ok st then pmd_ok else pmd_err, (p', s'))

  unfoldable pub pin_md_kernel_clear : Layout → World sha256 m → Pmd × World sha256 m
  unfolding if_ok
  pin_md_kernel_clear l w =
      if valid_layout l
      then if_ok (retire_ranges l.ranges 0 l w) pmd_err (λ w1. clear_record w1)
      else (pmd_err, w)
