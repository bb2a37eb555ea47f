-- ===== src/FidoHid/PinToken/Tests.antt =====
-- pin_token.c at concrete inputs.
use nixtropic.Base.{
  ℕ, List, [], ◌∷◌, ◌≡◌, ◌↔◌, refl, true, false, arith, length, replicate, take, AreBytes, none,
  some,
}
use nixtropic.FidoHid.PinToken.{
  puat_in_use, puat_bind_rp, Puat, puat_begin, puat_reset, puat_consume, puat_verify, puat_has_perm,
  puat_user_verified, puat_generation, expire, puat_param_len,
}
use nixtropic.FidoHid.PinToken.Verify.{IsLive, puat_verify_iff}
use nixtropic.FidoHid.PinToken.Session.{
  step, verify, in_use, bind_rp, consume, run, IsSameToken, consumed_grants_nothing,
  puat_generation_same,
}

-- A stand-in for HMAC-SHA-256.
abbrev mac : List ℕ → List ℕ → List ℕ
mac key msg = replicate 32 9

mac_bytes : (key msg : List ℕ) → AreBytes (mac key msg)
mac_bytes key msg = omega arith

length-mac : (key msg : List ℕ) → length (mac key msg) ≡ 32
length-mac key msg = refl

abbrev fresh : Puat
fresh = record {
  token = replicate 32 0;
  in_use = false;
  used = false;
  uv = false;
  perms = 0;
  has_rp = false;
  rp_hash = replicate 32 0;
  issued_ms = 0;
  generation = 0;
}

-- A token issued at 1000 ms with the permissions mc and ga.
abbrev issued : Puat
issued = record fresh {
  token = replicate 32 1;
  in_use = true;
  uv = true;
  perms = 3;
  issued_ms = 1000;
  generation = 2;
}

issued_is : puat_begin (replicate 32 1) 0x43 none 1000 fresh ≡ issued
unfolding puat_begin
issued_is = refl

too_late : (puat_verify mac (some (replicate 16 9)) [] 31001 issued).0 ≡ false
unfolding puat_verify
too_late = refl

puat_verify_iff_example :
    let (ok, s') = puat_verify mac (some (replicate 16 9)) [] 31000 issued in
    ((ok ≡ true)
      ↔ (IsLive 31000 issued × (replicate 16 9 ≡ take puat_param_len (mac issued.token []))))
    × (ok ≡ true → s' ≡ record issued { used = true })
    × (ok ≡ false → s' ≡ expire 31000 issued)
puat_verify_iff_example =
    puat_verify_iff mac mac_bytes length-mac (replicate 16 9) [] 31000 issued (omega arith)

consumed_grants_nothing_example :
    let calls = verify (some (replicate 16 9)) [] 2000 ∷ in_use 3000 ∷ [] in
    (puat_has_perm 1 (run mac calls (puat_consume issued)) ≡ false)
    × (puat_user_verified (run mac calls (puat_consume issued)) ≡ false)
    × (puat_has_perm 1 (run mac calls (puat_reset issued)) ≡ false)
    × (puat_user_verified (run mac calls (puat_reset issued)) ≡ false)
consumed_grants_nothing_example =
    consumed_grants_nothing mac (verify (some (replicate 16 9)) [] 2000 ∷ in_use 3000 ∷ []) issued 1
      tt

puat_generation_same_example :
    IsSameToken issued (run mac (in_use 2000 ∷ bind_rp (replicate 32 5) ∷ consume ∷ []) issued)
unfolding run step puat_in_use expire puat_bind_rp puat_consume puat_generation
puat_generation_same_example =
    puat_generation_same mac (in_use 2000 ∷ bind_rp (replicate 32 5) ∷ consume ∷ []) issued
      (omega arith) (omega arith) refl
