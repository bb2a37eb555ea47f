-- ===== src/Tropic/PinKernel/Attempts.antt =====
-- The attempts of pin_md_kernel.c: what a call of verify spends.
use nixtropic.Base.{
  ℕ, ◌+◌, ◌%◌, ◌<◌, ◌≡◌, refl, ◌≢◌, ◌∙◌, ap, List, true, false, arith, not, Option, none, leb,
  if◌then◌else◌, take, drop, ◌*◌,
}
use nixtropic.Tropic.Rmem.{Rmem}
use nixtropic.Tropic.RecPair.{RecPair, RecStatus, rec_ok, rec_pair_read, encode}
use nixtropic.Tropic.RecPair.Read.{Hold}
use nixtropic.Tropic.RecPair.Ops.{rec_pair_write_acknowledged}
use nixtropic.Tropic.PinKernel.{
  Layout, Binding, Loaded, loaded, pmd_ok, pmd_err, pmd_err_blocked, pmd_err_absent, load_absent,
  load_error, World, store, binding_payload, is_ok, if_ok, md_slot, pin_v, slot_xor, kdf, tag_equal,
  slot_size,
}
use nixtropic.Tropic.PinKernel.Chain.{if_some-each, if_ok-each, if-each}
use nixtropic.Tropic.PinKernel.Scheme.{
  refused, give_back, Verified, attempt, verify_settled, verify_s, settle, restore_from,
}

is_ok→rec_ok : (st : RecStatus) → is_ok st ≡ true → st ≡ rec_ok
unfolding is_ok
is_ok→rec_ok rec_ok h = refl
is_ok→rec_ok _ h = ground (arith, h)

module _ (sha256 : List ℕ → List ℕ) (m : Rmem) where
  -- Both slots hold the record of the binding under some generation.
  abbrev pub Records : RecPair → Binding → m.State → Type 0
  Records p b s = (gen : ℕ) × Hold m p (encode sha256 p gen (binding_payload b)) s

  store-Records :
      (b : Binding) (p : RecPair) (s : m.State)
      → p.slot_a ≢ p.slot_b
      → (store sha256 m b false (p, s)).0 ≡ true
      → Records p b (store sha256 m b false (p, s)).1.1
  unfolding store
  store-Records b p s ne ok =
      let r = rec_pair_read sha256 m p none s in
      let (st, held) =
        rec_pair_write_acknowledged sha256 m p (binding_payload b) s ne (is_ok→rec_ok _ ok) in
      (r.gen + 1, held)

not_leb→lt : (a b : ℕ) → leb a b ≡ false → b < a
not_leb→lt a b h = ground arith

err-ne-ok : pmd_err ≢ pmd_ok
err-ne-ok e = ground (arith, e)

blocked-ne-ok : pmd_err_blocked ≢ pmd_ok
blocked-ne-ok e = ground (arith, e)

absent-ne-ok : pmd_err_absent ≢ pmd_ok
absent-ne-ok e = ground (arith, e)

true-ne-false : true ≢ false
true-ne-false e = ground (arith, e)

-- What holds of the state, if the PIN was wrong.
record IfWrong {World : Type 0} (Q : World → Type 0) (x : Verified × World) : Type 0 where
  held : x.0.code ≡ pmd_ok → x.0.correct ≡ false → Q x.1

module _ (sha256 : List ℕ → List ℕ) (hmac : List ℕ → List ℕ → List ℕ) (m : Rmem)
    (tropic_random : World sha256 m → Option (List ℕ) × World sha256 m)
    (tropic_mac_and_destroy : ℕ → List ℕ → World sha256 m → Option (List ℕ) × World sha256 m)
    (md_keeps : (slot : ℕ) (bytes : List ℕ) (w : World sha256 m) (j : ℕ)
      → m.holds (tropic_mac_and_destroy slot bytes w).1.1 j ≡ m.holds w.1 j) where
  -- The way of the right PIN does not end with a wrong one.
  give_back-right :
      (l : Layout) (b : Binding) (k : List ℕ) (w o : World sha256 m)
      → (give_back sha256 hmac m tropic_random tropic_mac_and_destroy l b k w).0.code ≡ pmd_ok
      → (give_back sha256 hmac m tropic_random tropic_mac_and_destroy l b k w).0.correct ≡ false
      → (give_back sha256 hmac m tropic_random tropic_mac_and_destroy l b k w).1 ≡ o
  unfolding give_back
  give_back-right l b k w o =
      let P = IfWrong (λ (w' : World sha256 m). w' ≡ o) in
      let won : Verified = record { code = pmd_ok; correct = true; s = k } in
      let last : World sha256 m → Verified × World sha256 m = λ w2. (won, w2) in
      let put = λ (w1 : World sha256 m). store sha256 m (record b { next = 0 }) false w1 in
      let r =
        restore_from sha256 hmac m tropic_random tropic_mac_and_destroy l.rounds 0 l b.range
          (kdf hmac k 0x01) w in
      let all : P (give_back sha256 hmac m tropic_random tropic_mac_and_destroy l b k w) =
        if_ok-each P r (refused pmd_err) (λ w1. if_ok (put w1) (refused pmd_err) last)
          (record { held = λ c. absurd (err-ne-ok c) })
          (λ ok.
            if_ok-each P (put r.1) (refused pmd_err) last
              (record { held = λ c. absurd (err-ne-ok c) })
              (λ ok2. record { held = λ c f. absurd (true-ne-false f) })) in
      all.held

  -- A wrong PIN: the chip was asked once.
  attempt-wrong :
      (l : Layout) (mat : List ℕ) (idx : ℕ) (b : Binding) (w : World sha256 m)
      → (attempt sha256 hmac m tropic_random tropic_mac_and_destroy l mat idx b w).0.code ≡ pmd_ok
      → (attempt sha256 hmac m tropic_random tropic_mac_and_destroy l mat idx b w).0.correct ≡ false
      → (attempt sha256 hmac m tropic_random tropic_mac_and_destroy l mat idx b w).1
        ≡ (tropic_mac_and_destroy (md_slot l b.range idx) (pin_v hmac l mat) w).1
  unfolding attempt
  attempt-wrong l mat idx b w =
      let o = tropic_mac_and_destroy (md_slot l b.range idx) (pin_v hmac l mat) w in
      let P = IfWrong (λ (w' : World sha256 m). w' ≡ o.1) in
      let secret =
        λ (out : List ℕ). slot_xor hmac l out mat (take slot_size (drop (idx * slot_size) b.ci)) in
      let all : P (attempt sha256 hmac m tropic_random tropic_mac_and_destroy l mat idx b w) =
        if_some-each P o (refused pmd_err)
          (λ out w1.
            if not (tag_equal (kdf hmac (secret out) 0x00) b.tag)
            then (refused pmd_ok, w1)
            else give_back sha256 hmac m tropic_random tropic_mac_and_destroy l b (secret out) w1)
          (record { held = λ c. absurd (err-ne-ok c) })
          (λ out.
            if-each P (not (tag_equal (kdf hmac (secret out) 0x00) b.tag)) (refused pmd_ok, o.1)
              (give_back sha256 hmac m tropic_random tropic_mac_and_destroy l b (secret out) o.1)
              (λ t. record { held = λ c f. refl })
              (λ t. record { held = give_back-right l b (secret out) o.1 o.1 })) in
      all.held

  verify_settled-wrong :
      (l : Layout) (mat : List ℕ) (x : Loaded × World sha256 m)
      → x.1.0.slot_a ≢ x.1.0.slot_b
      → (verify_settled sha256 hmac m tropic_random tropic_mac_and_destroy l mat x).0.code ≡ pmd_ok
      → (verify_settled sha256 hmac m tropic_random tropic_mac_and_destroy l mat x).0.correct
        ≡ false
      → (b : Binding) × (x.0 ≡ loaded b)
        × (b.next < l.rounds)
        × Records sha256 m x.1.0
            (record b { next = (b.next + 1) % 256 })
            (verify_settled sha256 hmac m tropic_random tropic_mac_and_destroy l mat x).1.1
  unfolding verify_settled
  verify_settled-wrong l mat (loaded b, (p, s)) ne =
      let b' : Binding = record b { next = (b.next + 1) % 256 } in
      let ask = λ (w1 : World sha256 m).
        attempt sha256 hmac m tropic_random tropic_mac_and_destroy l mat b.next b' w1 in
      let P = IfWrong (λ (w' : World sha256 m).
        (c : Binding) × (loaded b ≡ loaded c)
        × (c.next < l.rounds)
        × Records sha256 m p (record c { next = (c.next + 1) % 256 }) w'.1) in
      let all : P (
          verify_settled sha256 hmac m tropic_random tropic_mac_and_destroy l mat
            (loaded b, (p, s))) =
        if-each P (leb l.rounds b.next) (refused pmd_err_blocked, (p, s))
          (if_ok (store sha256 m b' false (p, s)) (refused pmd_err) ask)
          (λ t. record { held = λ c. absurd (blocked-ne-ok c) })
          (λ left.
            if_ok-each P (store sha256 m b' false (p, s)) (refused pmd_err) ask
              (record { held = λ c. absurd (err-ne-ok c) })
              (λ ok. record {
                held = λ c f.
                    let w1 = (store sha256 m b' false (p, s)).1 in
                    let same = attempt-wrong l mat b.next b' w1 c f in
                    let (gen, (a, bb)) = store-Records sha256 m b' p s ne ok in
                    let keep = md_keeps (md_slot l b.range b.next) (pin_v hmac l mat) w1 in
                    let moved =
                      λ (j : ℕ). ap (λ (w : World sha256 m). m.holds w.1 j) same ∙ keep j in
                    (
                      b,
                      refl,
                      not_leb→lt l.rounds b.next left,
                      (gen, (moved p.slot_a ∙ a, moved p.slot_b ∙ bb)),
                    );
              })) in
      all.held
  verify_settled-wrong l mat (load_absent, w) ne = λ c. absurd (absent-ne-ok c)
  verify_settled-wrong l mat (load_error, w) ne = λ c. absurd (err-ne-ok c)

  -- A wrong PIN has spent an attempt: whatever the chip's MAC-and-Destroy answers, as long as it
  -- leaves the R-memory alone, a verify of a pair of distinct slots that ends with PMD_OK and a
  -- wrong PIN found a binding with an attempt left, and both copies of the record hold the binding
  -- with one attempt less.
  pub verify_spends :
      (l : Layout) (mat : List ℕ) (w : World sha256 m)
      → (settle sha256 hmac m tropic_random tropic_mac_and_destroy l w).1.0.slot_a
        ≢ (settle sha256 hmac m tropic_random tropic_mac_and_destroy l w).1.0.slot_b
      → (verify_s sha256 hmac m tropic_random tropic_mac_and_destroy l mat w).0.code ≡ pmd_ok
      → (verify_s sha256 hmac m tropic_random tropic_mac_and_destroy l mat w).0.correct ≡ false
      → (b : Binding) × ((settle sha256 hmac m tropic_random tropic_mac_and_destroy l w).0
          ≡ loaded b)
        × (b.next < l.rounds)
        × Records sha256 m
            (settle sha256 hmac m tropic_random tropic_mac_and_destroy l w).1.0
            (record b { next = (b.next + 1) % 256 })
            (verify_s sha256 hmac m tropic_random tropic_mac_and_destroy l mat w).1.1
  unfolding verify_s
  verify_spends l mat w = verify_settled-wrong l mat _
