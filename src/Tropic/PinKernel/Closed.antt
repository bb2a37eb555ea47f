-- ===== src/Tropic/PinKernel/Closed.antt =====
-- The scheme of pin_md_kernel.c and predicates of the pair and the chip that its calls preserve.
pub mod Calls
use nixtropic.Base.{
  ℕ, zero, suc, ◌+◌, ◌-◌, ◌*◌, ◌%◌, List, [], ◌++◌, Bool, true, false, not, if◌then◌else◌, Option,
  none, some, ltb, leb, ◌==◌, take, drop, if_each,
}
use nixtropic.Tropic.Rmem.{Rmem}
use nixtropic.Tropic.PinKernel.{
  Layout, Binding, Loaded, loaded, load_absent, load_error, Pmd, pmd_ok, pmd_err, valid_layout, kdf,
  World, load, store, md_slot, pin_v, slot_xor, slot_size, tag_equal, if_ok, if_some,
}
use nixtropic.Tropic.PinKernel.Chain.{if_some-each, if_ok-each}
use nixtropic.Tropic.PinKernel.Scheme.{
  Verified, refused, retire_from, retire, settle_loaded, settle, bind_slots, retire_old, setup_over,
  setup_settled, setup_s, restore_from, give_back, attempt, verify_settled, verify_s, is_first,
  new_range,
}
use nixtropic.Tropic.PinKernel.Api.{clear_record}

module _ (sha256 : List ℕ → List ℕ) (hmac : List ℕ → List ℕ → List ℕ) (m : Rmem)
    (tropic_random : World sha256 m → Option (List ℕ) × World sha256 m)
    (tropic_mac_and_destroy : ℕ → List ℕ → World sha256 m → Option (List ℕ) × World sha256 m)
    (Q : World sha256 m → Type 0) where
  -- The calls that move the pair and the chip preserve Q.
  pub record KernelClosed : Type 0 where
    pub on_load : (l : Layout) (w : World sha256 m) → Q w → Q (load sha256 m l w).1
    pub on_store :
        (b : Binding) (first : Bool) (w : World sha256 m) → Q w → Q (store sha256 m b first w).1
    pub on_clear :
        (w : World sha256 m)
        → Q w
        → Q (clear_record sha256 hmac m tropic_random tropic_mac_and_destroy w).1
    pub on_random : (w : World sha256 m) → Q w → Q (tropic_random w).1
    pub on_mac :
        (slot : ℕ) (x : List ℕ) (w : World sha256 m) → Q w → Q (tropic_mac_and_destroy slot x w).1

  module _ (closed : KernelClosed) where
    abbrev After : {A : Type 0} → A × World sha256 m → Type 0
    After x = Q x.1

    retire_from-Closed :
        (left i : ℕ) (l : Layout) (range : ℕ) (w : World sha256 m)
        → Q w
        → Q (retire_from sha256 hmac m tropic_random tropic_mac_and_destroy left i l range w).1
    unfolding retire_from
    retire_from-Closed zero i l range w h = h
    retire_from-Closed (suc left) i l range w h =
        let slot = md_slot l range i in
        let go = λ (w2 : World sha256 m).
          retire_from sha256 hmac m tropic_random tropic_mac_and_destroy left (i + 1) l range w2 in
        let h1 = closed.on_random w h in
        if_some-each After (tropic_random w) false
          (λ rnd w1. if_some (tropic_mac_and_destroy slot rnd w1) false (λ out w2. go w2)) h1
          (λ rnd.
            let w1 = (tropic_random w).1 in
            let h2 = closed.on_mac slot rnd w1 h1 in
            if_some-each After (tropic_mac_and_destroy slot rnd w1) false (λ out w2. go w2) h2
              (λ out. retire_from-Closed left (i + 1) l range _ h2))

    pub retire-Closed :
        (l : Layout) (range : ℕ) (w : World sha256 m)
        → Q w
        → Q (retire sha256 hmac m tropic_random tropic_mac_and_destroy l range w).1
    unfolding retire
    retire-Closed l range w h = retire_from-Closed l.rounds 0 l range w h

    pub settle_loaded-Closed :
        (l : Layout) (x : Loaded × World sha256 m)
        → Q x.1
        → Q (settle_loaded sha256 hmac m tropic_random tropic_mac_and_destroy l x).1
    unfolding settle_loaded
    settle_loaded-Closed l (loaded b, w) h =
        let b' : Binding = record b { retire_pending = 0 } in
        let r = retire sha256 hmac m tropic_random tropic_mac_and_destroy l (1 - b.range) w in
        let h1 = retire-Closed l (1 - b.range) w h in
        let h2 = closed.on_store b' false r.1 h1 in
        let last : World sha256 m → Loaded × World sha256 m = λ w2. (loaded b', w2) in
        if_each After (b.retire_pending == 0) _ _ (λ e. h)
          (λ e.
            if_ok-each After r load_error (λ w1. if_ok (store sha256 m b' false w1) load_error last)
              h1
              (λ ok. if_ok-each After (store sha256 m b' false r.1) load_error last h2 (λ ok2. h2)))
    settle_loaded-Closed l (load_absent, w) h = h
    settle_loaded-Closed l (load_error, w) h = h

    pub settle-Closed :
        (l : Layout) (w : World sha256 m)
        → Q w
        → Q (settle sha256 hmac m tropic_random tropic_mac_and_destroy l w).1
    unfolding settle
    settle-Closed l w h = settle_loaded-Closed l (load sha256 m l w) (closed.on_load l w h)

    bind_slots-Closed :
        (left i : ℕ) (l : Layout) (range : ℕ) (mat s ci : List ℕ) (w : World sha256 m)
        → Q w
        → Q
            (bind_slots sha256 hmac m tropic_random tropic_mac_and_destroy left i l range mat s ci
              w).1
    unfolding bind_slots
    bind_slots-Closed zero i l range mat s ci w h = h
    bind_slots-Closed (suc left) i l range mat s ci w h =
        let slot = md_slot l range i in
        let u = kdf hmac s 0x01 in
        let v = pin_v hmac l mat in
        let mac = λ (x : List ℕ) (w' : World sha256 m). tropic_mac_and_destroy slot x w' in
        let w1 = (mac u w).1 in
        let w2 = (mac v w1).1 in
        let h1 = closed.on_mac slot u w h in
        let h2 = closed.on_mac slot v w1 h1 in
        let h3 = closed.on_mac slot u w2 h2 in
        let go = λ (k out2 : List ℕ) (w' : World sha256 m).
          bind_slots sha256 hmac m tropic_random tropic_mac_and_destroy left (i + 1) l range mat s
            (ci ++ slot_xor hmac l k mat s) w' in
        if_some-each After (mac u w) none
          (λ out w1'. if_some (mac v w1') none (λ k w2'. if_some (mac u w2') none (go k))) h1
          (λ out.
            if_some-each After (mac v w1) none (λ k w2'. if_some (mac u w2') none (go k)) h2
              (λ k.
                if_some-each After (mac u w2) none (go k) h3
                  (λ out2. bind_slots-Closed left (i + 1) l range mat s _ _ h3)))

    retire_old-Closed :
        (l : Layout) (cur : Option Binding) (nb : Binding) (w : World sha256 m)
        → Q w
        → Q (retire_old sha256 hmac m tropic_random tropic_mac_and_destroy l cur nb w).1
    unfolding retire_old
    retire_old-Closed l none nb w h = h
    retire_old-Closed l (some cur) nb w h =
        let b' : Binding = record nb { retire_pending = 0 } in
        let r = retire sha256 hmac m tropic_random tropic_mac_and_destroy l cur.range w in
        let h1 = retire-Closed l cur.range w h in
        let h2 = closed.on_store b' false r.1 h1 in
        let last : World sha256 m → Pmd × World sha256 m = λ w2. (pmd_ok, w2) in
        if_ok-each After r pmd_err (λ w1. if_ok (store sha256 m b' false w1) pmd_err last) h1
          (λ ok. if_ok-each After (store sha256 m b' false r.1) pmd_err last h2 (λ ok2. h2))

    setup_over-Closed :
        (l : Layout) (mat : List ℕ) (pin_len : ℕ) (s : List ℕ) (cur : Option Binding)
        (w : World sha256 m)
        → Q w
        → Q (setup_over sha256 hmac m tropic_random tropic_mac_and_destroy l mat pin_len s cur w).1
    unfolding setup_over
    setup_over-Closed l mat pin_len s cur w h =
        let range = new_range cur in
        let r =
          bind_slots sha256 hmac m tropic_random tropic_mac_and_destroy l.rounds 0 l range mat s []
            w in
        let nb : List ℕ → Binding = λ ci. record {
          range = range;
          retire_pending = if is_first cur then 0 else 1;
          next = 0;
          pin_len = pin_len;
          tag = kdf hmac s 0x00;
          ci = ci;
        } in
        let go = λ (ci : List ℕ) (w2 : World sha256 m).
          retire_old sha256 hmac m tropic_random tropic_mac_and_destroy l cur (nb ci) w2 in
        let h1 = bind_slots-Closed l.rounds 0 l range mat s [] w h in
        if_some-each After r pmd_err
          (λ ci w1. if_ok (store sha256 m (nb ci) (is_first cur) w1) pmd_err (go ci)) h1
          (λ ci.
            let h2 = closed.on_store (nb ci) (is_first cur) r.1 h1 in
            if_ok-each After (store sha256 m (nb ci) (is_first cur) r.1) pmd_err (go ci) h2
              (λ ok. retire_old-Closed l cur (nb ci) _ h2))

    setup_settled-Closed :
        (l : Layout) (mat : List ℕ) (pin_len : ℕ) (s : List ℕ) (x : Loaded × World sha256 m)
        → Q x.1
        → Q (setup_settled sha256 hmac m tropic_random tropic_mac_and_destroy l mat pin_len s x).1
    unfolding setup_settled
    setup_settled-Closed l mat pin_len s (loaded cur, w) h =
        if_each After (ltb l.ranges 2) _ _ (λ e. h)
          (λ e. setup_over-Closed l mat pin_len s (some cur) w h)
    setup_settled-Closed l mat pin_len s (load_absent, w) h =
        setup_over-Closed l mat pin_len s none w h
    setup_settled-Closed l mat pin_len s (load_error, w) h = h

    pub setup_s-Closed :
        (l : Layout) (mat : List ℕ) (pin_len : ℕ) (s : List ℕ) (w : World sha256 m)
        → Q w
        → Q (setup_s sha256 hmac m tropic_random tropic_mac_and_destroy l mat pin_len s w).1
    unfolding setup_s
    setup_s-Closed l mat pin_len s w h =
        setup_settled-Closed l mat pin_len s _ (settle-Closed l w h)
