-- ===== src/Tropic/PinKernel/Closed/Calls.antt =====
-- The public functions of pin_md_kernel.c and predicates that its calls preserve.
use nixtropic.Base.{
  ℕ, zero, suc, ◌+◌, ◌*◌, ◌%◌, List, true, false, not, ◌||◌, ◌&&◌, Option, none, some, ltb, leb,
  take, drop, if_each, if◌then◌else◌,
}
use nixtropic.Tropic.Rmem.{Rmem}
use nixtropic.Tropic.PinKernel.{
  Layout, Binding, Loaded, loaded, load_absent, load_error, pmd_ok, pmd_err, pmd_err_blocked,
  valid_layout, kdf, World, store, md_slot, pin_v, slot_xor, slot_size, tag_equal, if_ok,
}
use nixtropic.Tropic.PinKernel.Chain.{if_some-each, if_ok-each}
use nixtropic.Tropic.PinKernel.Scheme.{
  Verified, refused, setup_s, restore_from, give_back, attempt, verify_settled, verify_s, retire,
}
use nixtropic.Tropic.PinKernel.Api.{
  pin_md_kernel_status, pin_md_kernel_setup, pin_md_kernel_verify, pin_md_kernel_change,
  pin_md_kernel_clear, change_to, retire_ranges, clear_record, is_pmd_ok,
}
use nixtropic.Tropic.PinKernel.Closed.{KernelClosed, setup_s-Closed, settle-Closed, retire-Closed}

module _ (sha256 : List ℕ → List ℕ) (hmac : List ℕ → List ℕ → List ℕ) (m : Rmem)
    (tropic_random : World sha256 m → Option (List ℕ) × World sha256 m)
    (tropic_mac_and_destroy : ℕ → List ℕ → World sha256 m → Option (List ℕ) × World sha256 m)
    (Q : World sha256 m → Type 0)
    (closed : KernelClosed sha256 hmac m tropic_random tropic_mac_and_destroy Q) where
  abbrev After : {A : Type 0} → A × World sha256 m → Type 0
  After x = Q x.1

  restore_from-Closed :
      (left i : ℕ) (l : Layout) (range : ℕ) (u : List ℕ) (w : World sha256 m)
      → Q w
      → Q (restore_from sha256 hmac m tropic_random tropic_mac_and_destroy left i l range u w).1
  unfolding restore_from
  restore_from-Closed zero i l range u w h = h
  restore_from-Closed (suc left) i l range u w h =
      let slot = md_slot l range i in
      let h1 = closed.on_mac slot u w h in
      if_some-each After (tropic_mac_and_destroy slot u w) false
        (λ out w1.
          restore_from sha256 hmac m tropic_random tropic_mac_and_destroy left (i + 1) l range u w1)
        h1 (λ out. restore_from-Closed left (i + 1) l range u _ h1)

  give_back-Closed :
      (l : Layout) (b : Binding) (s : List ℕ) (w : World sha256 m)
      → Q w
      → Q (give_back sha256 hmac m tropic_random tropic_mac_and_destroy l b s w).1
  unfolding give_back
  give_back-Closed l b s w h =
      let b' : Binding = record b { next = 0 } in
      let u = kdf hmac s 0x01 in
      let r =
        restore_from sha256 hmac m tropic_random tropic_mac_and_destroy l.rounds 0 l b.range u w in
      let won : Verified = record { code = pmd_ok; correct = true; s = s } in
      let last : World sha256 m → Verified × World sha256 m = λ w2. (won, w2) in
      let h1 = restore_from-Closed l.rounds 0 l b.range u w h in
      let h2 = closed.on_store b' false r.1 h1 in
      if_ok-each After r (refused pmd_err)
        (λ w1. if_ok (store sha256 m b' false w1) (refused pmd_err) last) h1
        (λ ok. if_ok-each After (store sha256 m b' false r.1) (refused pmd_err) last h2 (λ ok2. h2))

  attempt-Closed :
      (l : Layout) (mat : List ℕ) (idx : ℕ) (b : Binding) (w : World sha256 m)
      → Q w
      → Q (attempt sha256 hmac m tropic_random tropic_mac_and_destroy l mat idx b w).1
  unfolding attempt
  attempt-Closed l mat idx b w h =
      let r = tropic_mac_and_destroy (md_slot l b.range idx) (pin_v hmac l mat) w in
      let h1 = closed.on_mac (md_slot l b.range idx) (pin_v hmac l mat) w h in
      let s =
        λ (out : List ℕ). slot_xor hmac l out mat (take slot_size (drop (idx * slot_size) b.ci)) in
      if_some-each After r (refused pmd_err)
        (λ out w1.
          if not (tag_equal (kdf hmac (s out) 0x00) b.tag)
          then (refused pmd_ok, w1)
          else give_back sha256 hmac m tropic_random tropic_mac_and_destroy l b (s out) w1)
        h1
        (λ out.
          if_each After (not (tag_equal (kdf hmac (s out) 0x00) b.tag)) (refused pmd_ok, r.1)
            (give_back sha256 hmac m tropic_random tropic_mac_and_destroy l b (s out) r.1) (λ e. h1)
            (λ e. give_back-Closed l b (s out) r.1 h1))

  verify_settled-Closed :
      (l : Layout) (mat : List ℕ) (x : Loaded × World sha256 m)
      → Q x.1
      → Q (verify_settled sha256 hmac m tropic_random tropic_mac_and_destroy l mat x).1
  unfolding verify_settled
  verify_settled-Closed l mat (loaded b, w) h =
      let b' : Binding = record b { next = (b.next + 1) % 256 } in
      let ask = λ (w1 : World sha256 m).
        attempt sha256 hmac m tropic_random tropic_mac_and_destroy l mat b.next b' w1 in
      let h1 = closed.on_store b' false w h in
      if_each After (leb l.rounds b.next) (refused pmd_err_blocked, w)
        (if_ok (store sha256 m b' false w) (refused pmd_err) ask) (λ e. h)
        (λ e.
          if_ok-each After (store sha256 m b' false w) (refused pmd_err) ask h1
            (λ ok. attempt-Closed l mat b.next b' _ h1))
  verify_settled-Closed l mat (load_absent, w) h = h
  verify_settled-Closed l mat (load_error, w) h = h

  verify_s-Closed :
      (l : Layout) (mat : List ℕ) (w : World sha256 m)
      → Q w
      → Q (verify_s sha256 hmac m tropic_random tropic_mac_and_destroy l mat w).1
  unfolding verify_s
  verify_s-Closed l mat w h =
      let h1 = settle-Closed sha256 hmac m tropic_random tropic_mac_and_destroy Q closed l w h in
      verify_settled-Closed l mat _ h1

  pub status-Closed :
      (l : Layout) (w : World sha256 m)
      → Q w
      → Q (pin_md_kernel_status sha256 hmac m tropic_random tropic_mac_and_destroy l w).1
  unfolding pin_md_kernel_status
  status-Closed l w h =
      let h1 = settle-Closed sha256 hmac m tropic_random tropic_mac_and_destroy Q closed l w h in
      if_each After (valid_layout l) _ _ (λ e. h1) (λ e. h)

  pub setup-Closed :
      (l : Layout) (mat : Option (List ℕ)) (pin_len : ℕ) (w : World sha256 m)
      → Q w
      → Q (pin_md_kernel_setup sha256 hmac m tropic_random tropic_mac_and_destroy l mat pin_len w).1
  unfolding pin_md_kernel_setup
  setup-Closed l none pin_len w h = h
  setup-Closed l (some mat) pin_len w h =
      let h1 = closed.on_random w h in
      if_each After (valid_layout l) _ _
        (λ e. if_some-each After (tropic_random w) _ _ h1 (λ s.
          setup_s-Closed sha256 hmac m tropic_random tropic_mac_and_destroy Q closed l mat pin_len s
            _ h1))
        (λ e. h)

  pub verify-Closed :
      (l : Layout) (mat : Option (List ℕ)) (w : World sha256 m)
      → Q w
      → Q (pin_md_kernel_verify sha256 hmac m tropic_random tropic_mac_and_destroy l mat w).1
  unfolding pin_md_kernel_verify
  verify-Closed l none w h = h
  verify-Closed l (some mat) w h =
      if_each After (valid_layout l) _ _ (λ e. verify_s-Closed l mat w h) (λ e. h)

  change_to-Closed :
      (l : Layout) (mat : List ℕ) (pin_len : ℕ) (x : Verified × World sha256 m)
      → Q x.1
      → Q (change_to sha256 hmac m tropic_random tropic_mac_and_destroy l mat pin_len x).1
  unfolding change_to
  change_to-Closed l mat pin_len (v, w) h =
      let (rc, w1) =
        setup_s sha256 hmac m tropic_random tropic_mac_and_destroy l mat pin_len v.s w in
      let h1 =
        setup_s-Closed sha256 hmac m tropic_random tropic_mac_and_destroy Q closed l mat pin_len v.s
          w h in
      if_each After (not (is_pmd_ok v.code && v.correct)) _ _ (λ e. h)
        (λ e. if_each After (is_pmd_ok rc) _ _ (λ f. h1) (λ f. h1))

  pub change-Closed :
      (l : Layout) (old new : Option (List ℕ)) (pin_len : ℕ) (w : World sha256 m)
      → Q w
      → Q
          (pin_md_kernel_change sha256 hmac m tropic_random tropic_mac_and_destroy l old new pin_len
            w).1
  unfolding pin_md_kernel_change
  change-Closed l (some old) (some new) pin_len w h =
      if_each After (not (valid_layout l) || ltb l.ranges 2) _ _ (λ e. h)
        (λ e. change_to-Closed l new pin_len _ (verify_s-Closed l old w h))
  change-Closed l none new pin_len w h = h
  change-Closed l (some old) none pin_len w h = h

  pub retire_ranges-Closed :
      (left r : ℕ) (l : Layout) (w : World sha256 m)
      → Q w
      → Q (retire_ranges sha256 hmac m tropic_random tropic_mac_and_destroy left r l w).1
  unfolding retire_ranges
  retire_ranges-Closed zero r l w h = h
  retire_ranges-Closed (suc left) r l w h =
      let h1 = retire-Closed sha256 hmac m tropic_random tropic_mac_and_destroy Q closed l r w h in
      if_ok-each After (retire sha256 hmac m tropic_random tropic_mac_and_destroy l r w) false
        (λ w1. retire_ranges sha256 hmac m tropic_random tropic_mac_and_destroy left (r + 1) l w1)
        h1 (λ ok. retire_ranges-Closed left (r + 1) l _ h1)

  pub clear-Closed :
      (l : Layout) (w : World sha256 m)
      → Q w
      → Q (pin_md_kernel_clear sha256 hmac m tropic_random tropic_mac_and_destroy l w).1
  unfolding pin_md_kernel_clear
  clear-Closed l w h =
      let h1 = retire_ranges-Closed l.ranges 0 l w h in
      if_each After (valid_layout l) _ _
        (λ e.
          if_ok-each After
            (retire_ranges sha256 hmac m tropic_random tropic_mac_and_destroy l.ranges 0 l w)
            pmd_err (λ w1. clear_record sha256 hmac m tropic_random tropic_mac_and_destroy w1) h1
            (λ ok. closed.on_clear _ h1))
        (λ e. h)
