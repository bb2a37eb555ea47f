-- ===== src/FidoHid/PinToken/Verify.antt =====
-- `puat_verify` of pin_token.c: what it accepts, exactly.
use Prim.Native.Nat.{bit_or, bit_xor}
use nixtropic.Base.{
  if◌then◌else◌, ℕ, zero, suc, ◌≤◌, List, [], ◌∷◌, ◌≡◌, refl, ◌↔◌, ◌⊎◌, true, false, arith, length,
  take, AreBytes, IsByte, Option, some, length-take, ==_iff, ap,
}
use nixtropic.Base.Bits.{bit_or_byte, bit_xor_byte, bit_xor_self}
use nixtropic.FidoHid.PinToken.{
  Puat, ct_diff, ct_equal, expire, age, param_matches, puat_verify, puat_param_len,
  puat_initial_use_ms, puat_max_life_ms, puat_reset,
}

ct_diff_zero :
    (d : ℕ) (a b : List ℕ)
    → IsByte d
    → AreBytes a
    → AreBytes b
    → length a ≡ length b
    → ct_diff d a b ≡ 0
    → (d ≡ 0) × (a ≡ b)
unfolding ct_diff
ct_diff_zero d [] [] hd ha hb len h = (h, refl)
ct_diff_zero d [] (y ∷ b) hd ha hb len h = absurd (omega arith)
ct_diff_zero d (x ∷ a) [] hd ha hb len h = absurd (omega arith)
ct_diff_zero d (x ∷ a) (y ∷ b) hd ha hb len h =
    let step = bit_xor_byte x y ha.0 hb.0 in
    let acc = bit_or_byte d (bit_xor x y) hd step.0 in
    let rest = ct_diff_zero (bit_or d (bit_xor x y)) a b acc.0 ha.1 hb.1 (omega arith) h in
    let zeros = acc.1 rest.0 in (zeros.0, ground (arith, step.1 zeros.1, rest.1))

ct_diff_self : (a : List ℕ) → AreBytes a → ct_diff 0 a a ≡ 0
unfolding ct_diff
ct_diff_self [] h = refl
ct_diff_self (x ∷ a) h = rw (bit_xor_self x h.0) (ct_diff_self a h.1)

-- On buffers of one length the constant-time comparison is equality.
pub ct_equal_iff :
    (a b : List ℕ) → AreBytes a → AreBytes b → length a ≡ length b → (ct_equal a b ≡ true) ↔ (a ≡ b)
unfolding ct_equal
ct_equal_iff a b ha hb len = (
  λ h. (ct_diff_zero 0 a b (omega arith) ha hb len ((==_iff _ 0).0 h)).1,
  λ e. rw (← e) ((==_iff _ 0).1 (ct_diff_self a ha)),
)

-- The token is in use and neither timer has run out.
pub record IsLive (now_ms : ℕ) (s : Puat) : Type 0 where
  pub running : s.in_use ≡ true
  pub in_life : age now_ms s ≤ puat_max_life_ms
  pub in_time : (s.used ≡ true) ⊎ (age now_ms s ≤ puat_initial_use_ms)

expire_live : (now_ms : ℕ) (s : Puat) → IsLive now_ms s → expire now_ms s ≡ s
unfolding expire
expire_live now_ms s v = ground arith

expire_in_use : (now_ms : ℕ) (s : Puat) → (expire now_ms s).in_use ≡ true → IsLive now_ms s
unfolding expire puat_reset
expire_in_use now_ms s h = ground arith

module _ (hmac : List ℕ → List ℕ → List ℕ)
    (hmac_bytes : (key msg : List ℕ) → AreBytes (hmac key msg))
    (hlength-mac : (key msg : List ℕ) → length (hmac key msg) ≡ 32) where
  take-AreBytes : (n : ℕ) (xs : List ℕ) → AreBytes xs → AreBytes (take n xs)
  take-AreBytes zero xs h = tt
  take-AreBytes (suc n) [] h = tt
  take-AreBytes (suc n) (x ∷ xs) h = (h.0, take-AreBytes n xs h.1)

  param_matches_iff :
      (param msg : List ℕ) (s : Puat)
      → AreBytes param
      → (param_matches hmac (some param) msg s ≡ true)
        ↔ (param ≡ take puat_param_len (hmac s.token msg))
  unfolding param_matches
  param_matches_iff param msg s hp =
      let mac = take puat_param_len (hmac s.token msg) in
      let len : length mac ≡ puat_param_len =
        omega (arith, length-take puat_param_len (hmac s.token msg), hlength-mac s.token msg) in
      let bytes = take-AreBytes puat_param_len (hmac s.token msg) (hmac_bytes s.token msg) in
      (
        λ h. ground (arith, ct_equal_iff mac param bytes hp),
        λ e. ground (arith, ap length e, ct_equal_iff mac param bytes hp),
      )

  verify_accepts :
      (param msg : List ℕ) (now_ms : ℕ) (s : Puat)
      → AreBytes param
      → (puat_verify hmac (some param) msg now_ms s).0 ≡ true
      → IsLive now_ms s × (param ≡ take puat_param_len (hmac s.token msg))
  unfolding puat_verify
  verify_accepts param msg now_ms s hp h =
      let running : (expire now_ms s).in_use ≡ true = ground arith in
      let live = expire_in_use now_ms s running in
      let same = expire_live now_ms s live in
      let good : param_matches hmac (some param) msg (expire now_ms s) ≡ true = ground arith in
      (live, (param_matches_iff param msg s hp).0 (rw same at good))

  verify_ok :
      (param msg : List ℕ) (now_ms : ℕ) (s : Puat)
      → AreBytes param
      → IsLive now_ms s
      → param ≡ take puat_param_len (hmac s.token msg)
      → puat_verify hmac (some param) msg now_ms s ≡ (true, record s { used = true })
  unfolding puat_verify
  verify_ok param msg now_ms s hp live e =
      rw (expire_live now_ms s live, live.running, (param_matches_iff param msg s hp).1 e) refl

  verify_state :
      (param : Option (List ℕ)) (msg : List ℕ) (now_ms : ℕ) (s : Puat)
      → let (ok, s') = puat_verify hmac param msg now_ms s in
        s' ≡ (if ok then record (expire now_ms s) { used = true } else expire now_ms s)
  unfolding puat_verify
  verify_state param msg now_ms s = ground arith

  -- A parameter of bytes is accepted exactly when the token is in use, within both timers, and
  -- the parameter is the first 16 bytes of HMAC(token, message). An accepted call marks the token
  -- as used and changes nothing else; a refused one does what the timers do, no more.
  pub puat_verify_iff :
      (param msg : List ℕ) (now_ms : ℕ) (s : Puat)
      → AreBytes param
      → let (ok, s') = puat_verify hmac (some param) msg now_ms s in
        ((ok ≡ true) ↔ (IsLive now_ms s × (param ≡ take puat_param_len (hmac s.token msg))))
        × (ok ≡ true → s' ≡ record s { used = true })
        × (ok ≡ false → s' ≡ expire now_ms s)
  puat_verify_iff param msg now_ms s hp = (
    (
      verify_accepts param msg now_ms s hp,
      λ (live, e). ap (λ r. r.0) (verify_ok param msg now_ms s hp live e),
    ),
    λ h.
        let (live, e) = verify_accepts param msg now_ms s hp h in
        ap (λ r. r.1) (verify_ok param msg now_ms s hp live e),
    λ h. ground (arith, verify_state (some param) msg now_ms s),
  )
