-- ===== src/Tropic/PinKernel/Clear.antt =====
-- pin_md_kernel_clear of pin_md_kernel.c: which R-memory slots it touches, and which it has erased.
use mathlib.Core.Path.{subst}
use nixtropic.Base.{
  some, ℕ, ◌+◌, List, Bool, true, false, ◌≡◌, ◌≢◌, inl, inr, refl, ap, ◌∙◌, sym, arith,
  if◌then◌else◌, if_each,
}
use nixtropic.Tropic.Rmem.{Rmem}
use nixtropic.Tropic.Keys.{Keys}
use nixtropic.Tropic.RecPair.{
  RecPair, RecStatus, rec_ok, rec_absent, rec_corrupt, rec_error, rec_pair_clear, rec_payload_max,
}
use nixtropic.Tropic.RecPair.Frame.{
  SamePair, rec_pair_read-Frame, rec_pair_write-Frame, rec_pair_clear-Frame, rec_pair_init-Frame,
}
use nixtropic.Tropic.RecPair.Cleared.{LeftByErase, rec_pair_clear-LeftByErase}
use nixtropic.Tropic.PinKernel.{
  Layout, Binding, Pmd, pmd_ok, pmd_err, World, load, store, binding_payload, valid_layout, is_ok,
}
use nixtropic.Tropic.PinKernel.Chain.{if_ok-each}
use nixtropic.Tropic.PinKernel.Api.{clear_record, is_pmd_ok, pin_md_kernel_clear, retire_ranges}
use nixtropic.Tropic.PinKernel.Closed.{KernelClosed}
use nixtropic.Tropic.PinKernel.Closed.Calls.{retire_ranges-Closed}
use nixtropic.Tropic.PinKernel.OnChip.{world_random, world_mac}

acknowledged :
    (st : RecStatus) → is_pmd_ok (if is_ok st then pmd_ok else pmd_err) ≡ true → st ≡ rec_ok
unfolding is_pmd_ok is_ok
acknowledged rec_ok e = refl
acknowledged rec_absent e = ground (arith, e)
acknowledged rec_corrupt e = ground (arith, e)
acknowledged rec_error e = ground (arith, e)

refused : is_pmd_ok pmd_err ≢ true
unfolding is_pmd_ok
refused e = ground (arith, e)

module _ (sha256 : List ℕ → List ℕ) (hmac : List ℕ → List ℕ → List ℕ) (m : Rmem) (k : Keys m) where
  -- The pair has the slots a and b, and every other slot holds v.
  abbrev pub Others : ℕ → ℕ → (ℕ → List ℕ) → World sha256 m → Type 0
  Others a b v w =
      (w.0.slot_a ≡ a) × (w.0.slot_b ≡ b) × ((j : ℕ) → j ≢ a → j ≢ b → m.holds w.1 j ≡ v j)

  same_a : (p p' : RecPair) → SamePair sha256 m p p' → p'.slot_a ≡ p.slot_a
  same_a p p' (inl e) = ap (λ (q : RecPair). q.slot_a) e
  same_a p p' (inr e) = ap (λ (q : RecPair). q.slot_a) e

  same_b : (p p' : RecPair) → SamePair sha256 m p p' → p'.slot_b ≡ p.slot_b
  same_b p p' (inl e) = ap (λ (q : RecPair). q.slot_b) e
  same_b p p' (inr e) = ap (λ (q : RecPair). q.slot_b) e

  frame-Others :
      (a b : ℕ) (v : ℕ → List ℕ) (p p' : RecPair) (s s' : m.State)
      → SamePair sha256 m p p'
      → ((j : ℕ) → j ≢ p.slot_a → j ≢ p.slot_b → m.holds s' j ≡ m.holds s j)
      → Others a b v (p, s)
      → Others a b v (p', s')
  frame-Others a b v p p' s s' same frame (ea, eb, rest) = (
    same_a p p' same ∙ ea,
    same_b p p' same ∙ eb,
    λ j na nb. frame j (λ e. na (e ∙ ea)) (λ e. nb (e ∙ eb)) ∙ rest j na nb,
  )

  -- A slot that is neither of the pair's.
  abbrev far : RecPair → ℕ
  far p = p.slot_a + p.slot_b + 1

  far_a : (p : RecPair) → far p ≢ p.slot_a
  far_a p e = omega (arith, e)

  far_b : (p : RecPair) → far p ≢ p.slot_b
  far_b p e = omega (arith, e)

  load-Others :
      (a b : ℕ) (v : ℕ → List ℕ) (l : Layout) (w : World sha256 m)
      → Others a b v w
      → Others a b v (load sha256 m l w).1
  unfolding load
  load-Others a b v l (p, s) h =
      let f = λ (j : ℕ). rec_pair_read-Frame sha256 m p (some rec_payload_max) s j in
      frame-Others a b v p _ s _ (f (far p) (far_a p) (far_b p)).0 (λ j na nb. (f j na nb).1) h

  store-Others :
      (a b : ℕ) (v : ℕ → List ℕ) (x : Binding) (first : Bool) (w : World sha256 m)
      → Others a b v w
      → Others a b v (store sha256 m x first w).1
  unfolding store
  store-Others a b v x true (p, s) h =
      let f = λ (j : ℕ). rec_pair_init-Frame sha256 m p (binding_payload x) s j in
      frame-Others a b v p _ s _ (f (far p) (far_a p) (far_b p)).0 (λ j na nb. (f j na nb).1) h
  store-Others a b v x false (p, s) h =
      let f = λ (j : ℕ). rec_pair_write-Frame sha256 m p (binding_payload x) s j in
      frame-Others a b v p _ s _ (f (far p) (far_a p) (far_b p)).0 (λ j na nb. (f j na nb).1) h

  clear_record-Others :
      (a b : ℕ) (v : ℕ → List ℕ) (w : World sha256 m)
      → Others a b v w
      → Others a b v
          (clear_record sha256 hmac m (world_random sha256 m k) (world_mac sha256 m k) w).1
  unfolding clear_record
  clear_record-Others a b v (p, s) h =
      let f = λ (j : ℕ). rec_pair_clear-Frame sha256 m p s j in
      frame-Others a b v p _ s _ (f (far p) (far_a p) (far_b p)).0 (λ j na nb. (f j na nb).1) h

  pub kernel-Others :
      (a b : ℕ) (v : ℕ → List ℕ)
      → KernelClosed sha256 hmac m (world_random sha256 m k) (world_mac sha256 m k) (Others a b v)
  unfolding world_random world_mac
  kernel-Others a b v = record {
    on_load = load-Others a b v;
    on_store = store-Others a b v;
    on_clear = clear_record-Others a b v;
    on_random = λ w h. (h.0, h.1, λ j na nb. k.random_keeps 32 w.1 j ∙ h.2 j na nb);
    on_mac = λ slot x w h. (h.0, h.1, λ j na nb. k.mac_keeps slot x w.1 j ∙ h.2 j na nb);
  }

  -- The pair's slots are erased if the code is PMD_OK.
  abbrev pub Cleared : ℕ → ℕ → Pmd × World sha256 m → Type 0
  Cleared a b x = is_pmd_ok x.0 ≡ true → LeftByErase m a x.1.1 × LeftByErase m b x.1.1

  clear_record-Cleared :
      (a b : ℕ) (v : ℕ → List ℕ) (w : World sha256 m)
      → a ≢ b
      → Others a b v w
      → Cleared a b (clear_record sha256 hmac m (world_random sha256 m k) (world_mac sha256 m k) w)
  unfolding clear_record
  clear_record-Cleared a b v (p, s) ne (ea, eb, rest) ok =
      let good = acknowledged (rec_pair_clear sha256 m p s).0 ok in
      let (za, zb) = rec_pair_clear-LeftByErase sha256 m p s (λ e. ne (sym ea ∙ e ∙ eb)) good in
      let s' = (rec_pair_clear sha256 m p s).2 in
      (subst (λ (j : ℕ). LeftByErase m j s') ea za, subst (λ (j : ℕ). LeftByErase m j s') eb zb)

  pub kernel_clear-Cleared :
      (l : Layout) (a b : ℕ) (v : ℕ → List ℕ) (w : World sha256 m)
      → a ≢ b
      → Others a b v w
      → Cleared a b
          (pin_md_kernel_clear sha256 hmac m (world_random sha256 m k) (world_mac sha256 m k) l w)
  unfolding pin_md_kernel_clear
  kernel_clear-Cleared l a b v w ne h =
      let rnd = world_random sha256 m k in
      let mac = world_mac sha256 m k in
      let r = retire_ranges sha256 hmac m rnd mac l.ranges 0 l w in
      let h1 =
        retire_ranges-Closed sha256 hmac m rnd mac (Others a b v) (kernel-Others a b v) l.ranges 0 l
          w h in
      if_each (Cleared a b) (valid_layout l) _ _
        (λ e.
          if_ok-each (Cleared a b) r pmd_err (λ w1. clear_record sha256 hmac m rnd mac w1)
            (λ bad. absurd (refused bad)) (λ ok. clear_record-Cleared a b v r.1 ne h1))
        (λ e bad. absurd (refused bad))
