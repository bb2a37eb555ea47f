-- ===== src/FidoHid/Presence.antt =====
-- firmware/src/fido_hid/user_presence.c: the button's debouncer and the wait for a touch.
pub mod Debounce
pub mod Wait
mod Tests
use nixtropic.Base.{
  ℕ, ◌+◌, ◌-◌, ◌%◌, List, [], ◌∷◌, Bool, true, false, not, Option, none, some, leb, ltb,
  if◌then◌else◌, u32_mod,
}

abbrev pub debounce_threshold_ms : ℕ
debounce_threshold_ms = 10

pub data DebState : Type 0 where
  deb_up deb_going_down deb_down deb_going_up : DebState

pub record Presence : Type 0 where
  pub deb_state : DebState
  pub stable_count : ℕ
  pub pressed : Bool
  pub awaiting : Bool
  pub cancel : Bool

abbrev pub presence_init : Presence
presence_init = record {
  deb_state = deb_up;
  stable_count = 0;
  pressed = false;
  awaiting = false;
  cancel = false;
}

-- One 1 ms tick; `raw` is the pin. The counter is a uint8_t.
tick_in : DebState → Bool → Presence → Presence
tick_in deb_up raw p = if raw then record p { deb_state = deb_going_down; stable_count = 1 } else p
tick_in deb_going_down raw p =
    let n = (p.stable_count + 1) % 256 in
    if raw
    then if leb debounce_threshold_ms n
      then record p { stable_count = n; deb_state = deb_down; pressed = true }
      else record p { stable_count = n }
    else record p { deb_state = deb_up; stable_count = 0 }
tick_in deb_down raw p =
    if not raw then record p { deb_state = deb_going_up; stable_count = 1 } else p
tick_in deb_going_up raw p =
    let n = (p.stable_count + 1) % 256 in
    if not raw
    then if leb debounce_threshold_ms n
      then record p { stable_count = n; deb_state = deb_up; pressed = false }
      else record p { stable_count = n }
    else record p { deb_state = deb_down; stable_count = 0 }

unfoldable pub systick_tick : Bool → Presence → Presence
unfolding tick_in
systick_tick raw p = tick_in p.deb_state raw p

unfoldable pub is_pressed : Presence → Bool
is_pressed p = p.pressed

unfoldable pub is_awaiting : Presence → Bool
is_awaiting p = p.awaiting

unfoldable pub cancel_wait : Presence → Presence
cancel_wait p = record p { cancel = true }

unfoldable pub clear_cancel : Presence → Presence
clear_cancel p = record p { cancel = false }

pub data UpResult : Type 0 where
  up_ok up_fail up_cancel : UpResult

-- What one round of the wait loop sees: the tick at its test, and, after it has pumped USB, the
-- cancel latch and the debounced button, which callbacks and the tick handler change.
pub record Round : Type 0 where
  pub now : ℕ
  pub cancelled : Bool
  pub down : Bool

-- How the loop ends: a press, a cancel, or the time is up; `none` while it still runs.
pub data Ending : Type 0 where
  touched stopped timed_out : Ending

pub elapsed : ℕ → ℕ → ℕ
elapsed now start = (now + u32_mod - start) % u32_mod

pub wait_loop : ℕ → ℕ → List Round → Option Ending
unfolding elapsed
wait_loop start timeout [] = none
wait_loop start timeout (r ∷ rs) =
    let rest = wait_loop start timeout rs in
    if not (ltb (elapsed r.now start) timeout)
    then some timed_out
    else if r.cancelled
    then some stopped
    else if r.down
    then some touched
    else rest

-- The result after the loop; a cancel that arrives with the timeout is seen there too.
pub wait_result : Bool → Ending → UpResult
wait_result late_cancel touched = up_ok
wait_result late_cancel stopped = up_cancel
wait_result late_cancel timed_out = if late_cancel then up_cancel else up_fail

pub finish : Bool → Option Ending → Option UpResult
unfolding wait_result
finish late_cancel none = none
finish late_cancel (some e) = some (wait_result late_cancel e)

-- `start` is the tick at the call, `late_cancel` the latch when the loop has timed out.
pub user_presence_check : ℕ → ℕ → List Round → Bool → Presence → Option UpResult
unfolding wait_loop finish
user_presence_check timeout start rounds late_cancel p =
    if p.awaiting
    then some up_fail
    else if p.cancel
    then some up_cancel
    else if p.pressed
    then some up_fail
    else finish late_cancel (wait_loop start timeout rounds)
