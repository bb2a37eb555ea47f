-- ===== src/FidoHid/PinToken.antt =====
-- firmware/src/fido_hid/pin_token.c and pin_token.h: the pinUvAuthToken. The file's static
-- variables are a record; the time is an argument, as in the code. HMAC-SHA-256 is
-- trezor-crypto's, a parameter `hmac key message`. C ints that are 0 or 1 are Booleans.
pub mod Verify
pub mod Session
mod Tests
use Prim.Native.Nat.{bit_and, bit_or, bit_xor}
use nixtropic.Base.{
  ℕ, ◌+◌, ◌-◌, ◌%◌, List, [], ◌∷◌, Bool, true, false, not, ◌&&◌, ◌||◌, Option, none, some, ltb,
  ◌==◌, if◌then◌else◌, length, take, replicate, bytes_eq, u32_mod,
}

abbrev pub puat_perms_known : ℕ
puat_perms_known = 0x3f

abbrev pub puat_token_len : ℕ
puat_token_len = 32

abbrev pub puat_param_len : ℕ
puat_param_len = 16

abbrev pub puat_rp_hash_len : ℕ
puat_rp_hash_len = 32

abbrev pub puat_initial_use_ms : ℕ
puat_initial_use_ms = 30000

abbrev pub puat_max_life_ms : ℕ
puat_max_life_ms = 600000

pub record Puat : Type 0 where
  pub token : List ℕ
  pub in_use : Bool
  pub used : Bool
  pub uv : Bool
  pub perms : ℕ
  pub has_rp : Bool
  pub rp_hash : List ℕ
  pub issued_ms : ℕ
  pub generation : ℕ

-- `diff |= a[i] ^ b[i]` over both buffers, from `diff`.
ct_diff : ℕ → List ℕ → List ℕ → ℕ
ct_diff diff (a ∷ as') (b ∷ bs) = ct_diff (bit_or diff (bit_xor a b)) as' bs
ct_diff diff _ _ = diff

-- The two buffers hold the n bytes that are compared.
pub ct_equal : List ℕ → List ℕ → Bool
unfolding ct_diff
ct_equal a b = ct_diff 0 a b == 0

unfoldable pub puat_reset : Puat → Puat
puat_reset s = record {
  token = replicate puat_token_len 0;
  in_use = false;
  used = false;
  uv = false;
  perms = 0;
  has_rp = false;
  rp_hash = replicate puat_rp_hash_len 0;
  issued_ms = 0;
  generation = (s.generation + 1) % u32_mod;
}

bind_hash : Option (List ℕ) → Puat → Puat
bind_hash none s = s
bind_hash (some h) s = record s { rp_hash = h; has_rp = true }

-- `none` is a NULL `rp_hash`.
unfoldable pub puat_begin : List ℕ → ℕ → Option (List ℕ) → ℕ → Puat → Puat
unfolding puat_reset bind_hash
puat_begin token perms rp_hash now_ms s =
    let s1 = puat_reset s in
    let s2 = record s1 { token = token; perms = bit_and perms puat_perms_known } in
    let s3 = bind_hash rp_hash s2 in
    record s3 {
      uv = true;
      issued_ms = now_ms;
      in_use = true;
      generation = (s3.generation + 1) % u32_mod;
    }

-- uint32_t now_ms - s_issued_ms
pub age : ℕ → Puat → ℕ
age now_ms s = (now_ms + u32_mod - s.issued_ms) % u32_mod

unfoldable pub expire : ℕ → Puat → Puat
unfolding age puat_reset
expire now_ms s =
    if not s.in_use
    then s
    else if ltb puat_max_life_ms (age now_ms s)
        || (not s.used && ltb puat_initial_use_ms (age now_ms s))
    then puat_reset s
    else s

unfoldable pub puat_in_use : ℕ → Puat → Bool × Puat
unfolding expire
puat_in_use now_ms s = let s' = expire now_ms s in (s'.in_use, s')

unfoldable pub puat_generation : Puat → ℕ
puat_generation s = s.generation

pub puat_token : Puat → Option (List ℕ)
puat_token s = if s.in_use then some s.token else none

pub puat_has_perm : ℕ → Puat → Bool
puat_has_perm perm s = s.in_use && bit_and s.perms perm == perm && not (perm == 0)

pub puat_user_verified : Puat → Bool
puat_user_verified s = s.in_use && s.uv

pub puat_has_rp : Puat → Bool
puat_has_rp s = s.in_use && s.has_rp

pub puat_rp_matches : List ℕ → Puat → Bool
puat_rp_matches rp_hash s = if not s.has_rp then true else bytes_eq s.rp_hash rp_hash

unfoldable pub puat_bind_rp : List ℕ → Puat → Puat
puat_bind_rp rp_hash s =
    if not s.in_use || s.has_rp then s else record s { rp_hash = rp_hash; has_rp = true }

unfoldable pub puat_consume : Puat → Puat
puat_consume s = if not s.in_use then s else record s { uv = false; perms = 0 }

module _ (hmac : List ℕ → List ℕ → List ℕ) where
  -- `none` is a NULL `param`. True for the code 0.
  param_matches : Option (List ℕ) → List ℕ → Puat → Bool
  unfolding ct_equal
  param_matches none msg s = false
  param_matches (some param) msg s =
      length param == puat_param_len && ct_equal (take puat_param_len (hmac s.token msg)) param

  pub puat_verify : Option (List ℕ) → List ℕ → ℕ → Puat → Bool × Puat
  unfolding expire param_matches
  puat_verify param msg now_ms s =
      let s' = expire now_ms s in
      if s'.in_use && param_matches param msg s'
      then (true, record s' { used = true })
      else (false, s')
