-- ===== src/FidoHid/PinToken/Session.antt =====
-- Sequences of the calls of pin_token.c: what holds of a token over its whole life.
use Prim.Native.Nat.{bit_and-bitwise}
use nixtropic.Base.{
  ◌∙◌, ℕ, ◌+◌, ◌*◌, ◌%◌, ◌≤◌, ◌<◌, List, [], ◌∷◌, ◌≡◌, refl, ◌⊎◌, inl, inr, true, false, arith,
  length, Option, none, some, u32_mod,
}
use nixtropic.FidoHid.PinToken.{
  Puat, puat_reset, puat_begin, expire, puat_in_use, puat_verify, puat_bind_rp, puat_consume,
  puat_has_perm, puat_user_verified, puat_generation,
}

-- The calls that can change the token.
pub data Call : Type 0 where
  reset : Call
  begin : List ℕ → ℕ → Option (List ℕ) → ℕ → Call
  verify : Option (List ℕ) → List ℕ → ℕ → Call
  in_use : ℕ → Call
  bind_rp : List ℕ → Call
  consume : Call

-- No call of the sequence installs a new token.
abbrev pub NoBegin : List Call → Type 0
NoBegin [] = Unit
NoBegin (begin t p h now ∷ cs) = ⊥
NoBegin (reset ∷ cs) = NoBegin cs
NoBegin (verify param msg now ∷ cs) = NoBegin cs
NoBegin (in_use now ∷ cs) = NoBegin cs
NoBegin (bind_rp h ∷ cs) = NoBegin cs
NoBegin (consume ∷ cs) = NoBegin cs

-- The same token as before: its bytes, its state, its issue time, and its RP if it had one.
pub record IsSameToken (s t : Puat) : Type 0 where
  pub token_is : t.token ≡ s.token
  pub in_use_is : t.in_use ≡ s.in_use
  pub issued_is : t.issued_ms ≡ s.issued_ms
  pub rp_is : s.has_rp ≡ true → (t.has_rp ≡ true) × (t.rp_hash ≡ s.rp_hash)

module _ (hmac : List ℕ → List ℕ → List ℕ) where
  unfoldable pub step : Call → Puat → Puat
  unfolding puat_verify
  step reset s = puat_reset s
  step (begin t p h now) s = puat_begin t p h now s
  step (verify param msg now) s = (puat_verify hmac param msg now s).1
  step (in_use now) s = (puat_in_use now s).1
  step (bind_rp h) s = puat_bind_rp h s
  step consume s = puat_consume s

  unfoldable pub run : List Call → Puat → Puat
  run [] s = s
  run (c ∷ cs) s = run cs (step c s)

  -- The token grants nothing: it is not in use, or it has no permission and no userVerified.
  IsSpent : Puat → Type 0
  IsSpent s = (s.in_use ≡ false) ⊎ ((s.uv ≡ false) × (s.perms ≡ 0))

  expire-IsSpent : (now : ℕ) (s : Puat) → IsSpent s → IsSpent (expire now s)
  unfolding expire puat_reset IsSpent
  expire-IsSpent now s h = ground arith

  step-IsSpent : (c : Call) (s : Puat) → NoBegin (c ∷ []) → IsSpent s → IsSpent (step c s)
  unfolding step puat_verify puat_in_use puat_bind_rp puat_consume puat_reset IsSpent
  step-IsSpent reset s n h = inl refl
  step-IsSpent (begin t p x now) s n h = absurd n
  step-IsSpent (verify param msg now) s n h = ground (arith, expire-IsSpent now s)
  step-IsSpent (in_use now) s n h = expire-IsSpent now s h
  step-IsSpent (bind_rp x) s n h = ground arith
  step-IsSpent consume s n h = ground arith

  run-IsSpent : (cs : List Call) (s : Puat) → NoBegin cs → IsSpent s → IsSpent (run cs s)
  unfolding run
  run-IsSpent [] s n h = h
  run-IsSpent (begin t p x now ∷ cs) s n h = absurd n
  run-IsSpent (reset ∷ cs) s n h = run-IsSpent cs _ n (step-IsSpent reset s tt h)
  run-IsSpent (verify param msg now ∷ cs) s n h =
      run-IsSpent cs _ n (step-IsSpent (verify param msg now) s tt h)
  run-IsSpent (in_use now ∷ cs) s n h = run-IsSpent cs _ n (step-IsSpent (in_use now) s tt h)
  run-IsSpent (bind_rp x ∷ cs) s n h = run-IsSpent cs _ n (step-IsSpent (bind_rp x) s tt h)
  run-IsSpent (consume ∷ cs) s n h = run-IsSpent cs _ n (step-IsSpent consume s tt h)

  consume-IsSpent : (s : Puat) → IsSpent (puat_consume s)
  unfolding puat_consume IsSpent
  consume-IsSpent s = ground arith

  reset-IsSpent : (s : Puat) → IsSpent (puat_reset s)
  unfolding puat_reset IsSpent
  reset-IsSpent s = inl refl

  has_perm-IsSpent : (perm : ℕ) (s : Puat) → IsSpent s → puat_has_perm perm s ≡ false
  unfolding puat_has_perm IsSpent
  has_perm-IsSpent perm s (inl e) = rw e
  has_perm-IsSpent perm s (inr (_, e)) = rw e (ground (arith, bit_and-bitwise 0 perm))

  user_verified-IsSpent : (s : Puat) → IsSpent s → puat_user_verified s ≡ false
  unfolding puat_user_verified IsSpent
  user_verified-IsSpent s h = ground arith

  -- After `puat_consume` or `puat_reset` no sequence of calls brings a permission or the
  -- userVerified flag back, unless it installs a new token.
  pub consumed_grants_nothing :
      (cs : List Call) (s : Puat) (perm : ℕ)
      → NoBegin cs
      → (puat_has_perm perm (run cs (puat_consume s)) ≡ false)
        × (puat_user_verified (run cs (puat_consume s)) ≡ false)
        × (puat_has_perm perm (run cs (puat_reset s)) ≡ false)
        × (puat_user_verified (run cs (puat_reset s)) ≡ false)
  consumed_grants_nothing cs s perm n =
      let a = run-IsSpent cs (puat_consume s) n (consume-IsSpent s) in
      let b = run-IsSpent cs (puat_reset s) n (reset-IsSpent s) in
      (
        has_perm-IsSpent perm _ a,
        user_verified-IsSpent _ a,
        has_perm-IsSpent perm _ b,
        user_verified-IsSpent _ b,
      )

  abbrev Moved : Puat → Puat → Type 0
  Moved s t =
      ((t.generation ≡ s.generation) × IsSameToken s t)
      ⊎ (t.generation ≡ (s.generation + 1) % u32_mod)
      ⊎ (t.generation ≡ (s.generation + 2) % u32_mod)

  expire-Moved : (now : ℕ) (s : Puat) → Moved s (expire now s)
  unfolding expire puat_reset
  expire-Moved now s = ground arith

  step-Moved : (c : Call) (s : Puat) → Moved s (step c s)
  unfolding step puat_verify puat_in_use puat_bind_rp puat_consume puat_reset puat_begin
  step-Moved reset s = inr (inl refl)
  step-Moved (begin t p none now) s = inr (inr (omega arith))
  step-Moved (begin t p (some x) now) s = inr (inr (omega arith))
  step-Moved (verify param msg now) s = ground (arith, expire-Moved now s)
  step-Moved (in_use now) s = expire-Moved now s
  step-Moved (bind_rp x) s = ground arith
  step-Moved consume s = ground arith

  -- How far the generation went over a sequence, and the token if it did not move.
  record After (s t : Puat) (k : ℕ) : Type 0 where
    counted : t.generation ≡ (s.generation + k) % u32_mod
    same : k ≡ 0 → IsSameToken s t

  Same-trans : (s t u : Puat) → IsSameToken s t → IsSameToken t u → IsSameToken s u
  Same-trans s t u a b = record {
    token_is = b.token_is ∙ a.token_is;
    in_use_is = b.in_use_is ∙ a.in_use_is;
    issued_is = b.issued_is ∙ a.issued_is;
    rp_is = λ h. let (x, e) = a.rp_is h in let (y, f) = b.rp_is x in (y, f ∙ e);
  }

  run-After :
      (cs : List Call) (s : Puat)
      → s.generation < u32_mod
      → (k : ℕ) × (k ≤ 2 * length cs) × After s (run cs s) k
  unfolding run
  run-After [] s h = (
    0,
    omega arith,
    record {
      counted = omega arith;
      same = λ e. record {
        token_is = refl;
        in_use_is = refl;
        issued_is = refl;
        rp_is = λ r. (r, refl);
      };
    },
  )
  run-After (c ∷ cs) s h =
      let t = step c s in
      elim (step-Moved c s) [
        | inl (e, same) ↦
            let (k, le, a) = run-After cs t (omega arith) in
            (
              k,
              omega arith,
              record {
                counted = omega (arith, a.counted);
                same = λ z. Same-trans s t (run cs t) same (a.same z);
              },
            )
        | inr (inl e) ↦
            let (k, le, a) = run-After cs t (omega arith) in
            (
              k + 1,
              omega arith,
              record { counted = omega (arith, a.counted); same = λ z. absurd (omega arith) },
            )
        | inr (inr e) ↦
            let (k, le, a) = run-After cs t (omega arith) in
            (
              k + 2,
              omega arith,
              record { counted = omega (arith, a.counted); same = λ z. absurd (omega arith) },
            )
      ]

  -- Over fewer than 2 ^ 31 calls, an unchanged generation means that the token is the same one:
  -- same bytes, in use as before, same issue time, and bound to the same RP if it was bound.
  pub puat_generation_same :
      (cs : List Call) (s : Puat)
      → s.generation < u32_mod
      → 2 * length cs < u32_mod
      → puat_generation (run cs s) ≡ puat_generation s
      → IsSameToken s (run cs s)
  unfolding puat_generation
  puat_generation_same cs s h few e =
      let (k, le, a) = run-After cs s h in a.same (omega (arith, a.counted))
