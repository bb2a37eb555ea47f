-- ===== src/FidoHid/Presence/Debounce.antt =====
-- The debouncer of user_presence.c over a history of pin readings, the latest first.
use nixtropic.Base.{
  ℕ, suc, ◌<◌, List, [], ◌∷◌, ◌≡◌, refl, Bool, true, false, not, arith, leb, if◌then◌else◌,
}
use nixtropic.FidoHid.Presence.{
  DebState, deb_up, deb_going_down, deb_down, deb_going_up, Presence, presence_init, systick_tick,
  tick_in, is_pressed, debounce_threshold_ms,
}

-- The state after a history.
unfoldable pub after : List Bool → Presence
after [] = presence_init
after (raw ∷ before) = systick_tick raw (after before)

-- How many of the latest readings are high, and how many are low.
abbrev pub highs : List Bool → ℕ
highs [] = 0
highs (true ∷ h) = suc (highs h)
highs (false ∷ h) = 0

abbrev pub lows : List Bool → ℕ
lows [] = 0
lows (true ∷ h) = 0
lows (false ∷ h) = suc (lows h)

-- What the button is meant to be: it goes down with the tenth high reading in a row, and up with
-- the tenth low one.
pub button : List Bool → Bool
button [] = false
button (raw ∷ h) =
    if button h
    then not (leb debounce_threshold_ms (lows (raw ∷ h)))
    else leb debounce_threshold_ms (highs (raw ∷ h))

-- What the state knows of the history.
abbrev Knows : DebState → ℕ → Bool → List Bool → Type 0
Knows deb_up n pressed h = (pressed ≡ false) × (highs h ≡ 0)
Knows deb_going_down n pressed h =
    (pressed ≡ false) × (0 < n) × (n < debounce_threshold_ms) × (highs h ≡ n)
Knows deb_down n pressed h = (pressed ≡ true) × (lows h ≡ 0)
Knows deb_going_up n pressed h =
    (pressed ≡ true) × (0 < n) × (n < debounce_threshold_ms) × (lows h ≡ n)

abbrev Agrees : Presence → List Bool → Type 0
Agrees p h = Knows p.deb_state p.stable_count p.pressed h × (p.pressed ≡ button h)

tick_in-Agrees :
    (d : DebState) (raw : Bool) (p : Presence) (h : List Bool)
    → p.deb_state ≡ d
    → Knows d p.stable_count p.pressed h
    → p.pressed ≡ button h
    → Agrees (tick_in d raw p) (raw ∷ h)
unfolding tick_in button
tick_in-Agrees deb_up true p h e k b = ground arith
tick_in-Agrees deb_up false p h e k b = ground arith
tick_in-Agrees deb_going_down true p h e k b = ground arith
tick_in-Agrees deb_going_down false p h e k b = ground arith
tick_in-Agrees deb_down true p h e k b = ground arith
tick_in-Agrees deb_down false p h e k b = ground arith
tick_in-Agrees deb_going_up true p h e k b = ground arith
tick_in-Agrees deb_going_up false p h e k b = ground arith

after-Agrees : (h : List Bool) → Agrees (after h) h
unfolding after button systick_tick
after-Agrees [] = ((refl, refl), refl)
after-Agrees (raw ∷ h) =
    let ih = after-Agrees h in tick_in-Agrees (after h).deb_state raw (after h) h refl ih.0 ih.1

-- The debounced button is down exactly when the readings say so: it goes down with the tenth
-- high reading in a row and up with the tenth low one, whatever came before.
pub is_pressed-after : (h : List Bool) → is_pressed (after h) ≡ button h
unfolding is_pressed
is_pressed-after h = (after-Agrees h).1
