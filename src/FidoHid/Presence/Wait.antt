-- ===== src/FidoHid/Presence/Wait.antt =====
-- `user_presence_check` of user_presence.c: when it grants presence.
use nixtropic.Base.{
  ◌↔◌, ℕ, ◌<◌, List, [], ◌∷◌, ◌≡◌, refl, Bool, true, false, arith, ◌⊎◌, inl, inr, Option, some,
  none,
}
use nixtropic.FidoHid.Presence.{
  Presence, Round, Ending, touched, stopped, timed_out, up_ok, elapsed, wait_loop, wait_result,
  finish, user_presence_check,
}

-- A round that neither times out nor ends the wait.
pub record IsQuiet (timeout start : ℕ) (r : Round) : Type 0 where
  pub early : elapsed r.now start < timeout
  pub not_cancelled : r.cancelled ≡ false
  pub not_down : r.down ≡ false

-- A round that sees the button down in time, and no cancel.
pub record IsTouch (timeout start : ℕ) (r : Round) : Type 0 where
  pub early : elapsed r.now start < timeout
  pub not_cancelled : r.cancelled ≡ false
  pub is_down : r.down ≡ true

-- Some round is a touch, and all before it are quiet.
abbrev pub Touches : ℕ → ℕ → List Round → Type 0
Touches timeout start [] = ⊥
Touches timeout start (r ∷ rs) =
    IsTouch timeout start r ⊎ (IsQuiet timeout start r × Touches timeout start rs)

wait_touched :
    (start timeout : ℕ) (rs : List Round)
    → wait_loop start timeout rs ≡ some touched
    → Touches timeout start rs
unfolding wait_loop
wait_touched start timeout [] h = cc
wait_touched start timeout (r ∷ rs) h = ground (arith, wait_touched start timeout rs)

touched_wait :
    (start timeout : ℕ) (rs : List Round)
    → Touches timeout start rs
    → wait_loop start timeout rs ≡ some touched
unfolding wait_loop
touched_wait start timeout [] h = absurd h
touched_wait start timeout (r ∷ rs) (inl t) = ground arith
touched_wait start timeout (r ∷ rs) (inr (q, t)) = ground (arith, touched_wait start timeout rs t)

finish_ok : (late : Bool) (e : Option Ending) → finish late e ≡ some up_ok → e ≡ some touched
unfolding finish wait_result
finish_ok late none h = cc
finish_ok late (some touched) h = refl
finish_ok true (some stopped) h = cc
finish_ok false (some stopped) h = cc
finish_ok true (some timed_out) h = cc
finish_ok false (some timed_out) h = cc

check_ok :
    (timeout start : ℕ) (rounds : List Round) (late : Bool) (p : Presence)
    → user_presence_check timeout start rounds late p ≡ some up_ok
    → (p.awaiting ≡ false)
      × (p.cancel ≡ false)
      × (p.pressed ≡ false)
      × (finish late (wait_loop start timeout rounds) ≡ some up_ok)
unfolding user_presence_check
check_ok timeout start rounds late p h = ground arith

-- Presence is granted exactly when no other wait runs, no cancel stands, the button is not
-- already down at the call, and then a round before the timeout sees it go down with no cancel
-- seen until then.
pub user_presence_check_iff :
    (timeout start : ℕ) (rounds : List Round) (late : Bool) (p : Presence)
    → (user_presence_check timeout start rounds late p ≡ some up_ok) ↔ (
        (p.awaiting ≡ false)
        × (p.cancel ≡ false)
        × (p.pressed ≡ false)
        × Touches timeout start rounds)
unfolding user_presence_check
user_presence_check_iff timeout start rounds late p = (
  λ h.
      let (a, c, d, f) = check_ok timeout start rounds late p h in
      (a, c, d, wait_touched start timeout rounds (finish_ok late _ f)),
  λ (a, c, d, t).
      rw (a, c, d, touched_wait start timeout rounds t) (unfold finish wait_result in refl),
)
