-- ===== src/FidoHid/Presence/Tests.antt =====
-- user_presence.c at concrete inputs.
use nixtropic.Base.{List, [], ◌∷◌, ◌≡◌, ◌↔◌, refl, true, false, replicate, some}
use nixtropic.FidoHid.Presence.{
  Presence, Round, up_ok, is_pressed, presence_init, user_presence_check, systick_tick,
}
use nixtropic.FidoHid.Presence.Debounce.{after, button, is_pressed-after}
use nixtropic.FidoHid.Presence.Wait.{Touches, user_presence_check_iff}

-- Nine high readings do not press the button, the tenth does.
tenth :
    (is_pressed (after (replicate 9 true)) ≡ false)
    × (is_pressed (after (replicate 10 true)) ≡ true)
unfolding is_pressed after systick_tick
tenth = (refl, refl)

is_pressed-after_example :
    is_pressed (after (true ∷ false ∷ replicate 10 true))
    ≡ button (true ∷ false ∷ replicate 10 true)
is_pressed-after_example = is_pressed-after (true ∷ false ∷ replicate 10 true)

abbrev idle : Presence
idle = presence_init

abbrev rounds : List Round
rounds =
    record { now = 100; cancelled = false; down = false }
    ∷ record { now = 101; cancelled = false; down = true }
    ∷ []

user_presence_check_iff_example : (user_presence_check 30000 100 rounds false idle ≡ some up_ok) ↔ (
    (idle.awaiting ≡ false)
    × (idle.cancel ≡ false)
    × (idle.pressed ≡ false)
    × Touches 30000 100 rounds)
user_presence_check_iff_example = user_presence_check_iff 30000 100 rounds false idle
