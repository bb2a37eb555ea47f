-- ===== src/FidoHid/Slots/Session.antt =====
-- Sequences of calls of slots.c, with power cycles between them.
use nixtropic.Base.{
  ℕ, ◌≤◌, List, [], ◌∷◌, Bool, false, if◌then◌else◌, length, ◌≡◌, refl, inl, arith, AreBytes,
  replicate, if_each,
}
use nixtropic.Tropic.Rmem.{Rmem}
use nixtropic.FidoHid.Slots.Meta.{NewCred}
use nixtropic.FidoHid.Slots.Invariant.{IsSound}
use nixtropic.FidoHid.Slots.Calls.{
  slots_erase-IsSound, slots_lookup-IsSound, slots_read_meta-IsSound, slots_wipe_meta-IsSound,
  slots_alloc-IsSound, flags-IsSound,
}
use nixtropic.FidoHid.Slots.Boot.{
  slots_init-IsSound, slots_init_fresh-IsSound, off-IsSound, fresh-IsWf,
}
use nixtropic.FidoHid.Slots.{
  Slots, Services, o1_pair, slots_alloc, slots_erase, slots_lookup_by_credid, slots_read_meta,
  slots_wipe_meta, slots_set_pin_bound, slots_force_uv_set, slots_init, slots_init_fresh,
}

-- The calls that read or change the state, with their arguments.
pub data Call : Type 0 where
  init init_fresh wipe_meta reboot : Call
  alloc : NewCred → List Bool → Call
  lookup : List ℕ → Call
  erase read_meta : ℕ → Call
  set_pin_bound : Bool → Bool → Call
  force_uv_set : Bool → Call

module _ (sha256 : List ℕ → List ℕ) (m : Rmem) (c : Services m) where
  -- The static variables when the program starts.
  abbrev pub started : m.State → Slots m
  started s = record {
    o1 = o1_pair;
    initted = false;
    bitmap = replicate 32 false;
    force_uv = 0;
    pin_bound = 0;
    chip = s;
  }

  pub step : Call → Slots m → Slots m
  step init g = (slots_init sha256 m c g).1
  step init_fresh g = (slots_init_fresh sha256 m g).1
  step wipe_meta g = (slots_wipe_meta m g).1
  step reboot g = started g.chip
  step (alloc n mask) g = (slots_alloc sha256 m c n mask g).1
  step (lookup id) g = (slots_lookup_by_credid m id g).1
  step (erase idx) g = (slots_erase sha256 m idx g).1
  step (read_meta idx) g = (slots_read_meta m idx g).1
  step (set_pin_bound bound on) g = (slots_set_pin_bound sha256 m bound on g).1
  step (force_uv_set value) g = (slots_force_uv_set sha256 m value g).1

  pub run : List Call → Slots m → Slots m
  unfolding step
  run [] g = g
  run (call ∷ calls) g = run calls (step call g)

  module _ (sha256_length : (x : List ℕ) → length (sha256 x) ≡ 32) where
    pub started-IsSound : (s : m.State) → IsSound sha256 m (started s)
    started-IsSound s =
        off-IsSound sha256 sha256_length m (started s) (inl refl)
          (fresh-IsWf sha256 sha256_length m) refl

    flag_bound : (b : Bool) → (if b then 1 else 0) ≤ 1
    flag_bound b = ground arith

    step-IsSound :
        ((s : m.State) (j : ℕ) → AreBytes (m.holds s j))
        → (call : Call) (g : Slots m) → IsSound sha256 m g
        → IsSound sha256 m (step call g)
    unfolding step slots_set_pin_bound slots_force_uv_set
    step-IsSound bytes init g h = slots_init-IsSound sha256 sha256_length m c bytes g h
    step-IsSound bytes init_fresh g h = slots_init_fresh-IsSound sha256 sha256_length m g h
    step-IsSound bytes wipe_meta g h = slots_wipe_meta-IsSound sha256 sha256_length m c g h
    step-IsSound bytes reboot g h = started-IsSound g.chip
    step-IsSound bytes (alloc n mask) g h = slots_alloc-IsSound sha256 sha256_length m c n mask g h
    step-IsSound bytes (lookup id) g h = slots_lookup-IsSound sha256 sha256_length m c id g h
    step-IsSound bytes (erase idx) g h = slots_erase-IsSound sha256 sha256_length m c idx g h
    step-IsSound bytes (read_meta idx) g h =
        slots_read_meta-IsSound sha256 sha256_length m c idx g h
    step-IsSound bytes (set_pin_bound bound on) g h =
        flags-IsSound sha256 sha256_length m c _ _ g
          (if_each (λ (x : ℕ). x ≤ 1) on _ _ (λ e. omega arith) (λ e. h.wf.2)) (flag_bound bound) h
    step-IsSound bytes (force_uv_set value) g h =
        flags-IsSound sha256 sha256_length m c _ _ g (flag_bound value) h.wf.3 h

    -- On a chip that stores bytes and reads truthfully, but may fail at any write, erase or read:
    -- after any calls from a sound state, the start of the program among them, the state is sound:
    -- while the slots are usable, both copies of O1 on the chip are one valid record, and it says
    -- the bitmap and the flags that the RAM has.
    pub run-IsSound :
        ((s : m.State) (j : ℕ) → AreBytes (m.holds s j))
        → (calls : List Call) (g : Slots m) → IsSound sha256 m g
        → IsSound sha256 m (run calls g)
    unfolding run
    run-IsSound bytes [] g h = h
    run-IsSound bytes (call ∷ calls) g h =
        run-IsSound bytes calls (step call g) (step-IsSound bytes call g h)
