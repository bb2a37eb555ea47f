-- ===== src/OpenPgp/State/Session.antt =====
-- Sequences of calls of openpgp_state.c, with power cycles between them.
use nixtropic.Base.{
  ℕ, List, [], ◌∷◌, true, false, ◌≡◌, inl, inr, refl, arith, length, AreBytes, All,
}
use nixtropic.Tropic.Rmem.{Rmem, Works}
use nixtropic.Tropic.RecPair.Stored.{rec_pair_read_carried}
use nixtropic.OpenPgp.State.Codec.{length-o3_bytes, o3_of-o3_bytes}
use nixtropic.Tropic.RecPair.{slot_max}
use nixtropic.OpenPgp.State.Record.{lc_operational, zeros, o3_bytes}
use nixtropic.OpenPgp.State.Invariant.{
  IsSound, off-IsSound, commit-IsSound, openpgp_state_activate-IsSound, openpgp_state_load-IsSound,
  openpgp_state_clear-IsSound, openpgp_state_init-IsSound,
}
use nixtropic.OpenPgp.State.Effects.{Setter, IsTyped, set, set-Effect, set_permanent}
use nixtropic.OpenPgp.State.{
  Pgp, Lifecycle, o3_pair, usable, take_loaded, openpgp_state_load, openpgp_state_clear,
  openpgp_state_init, openpgp_state_activate,
}

-- All the calls that change the state, and the start of the program.
pub data Call : Type 0 where
  load clear activate reboot : Call
  init : Lifecycle → Call
  setter : Setter → Call

abbrev pub IsTypedCall : Call → Type 0
IsTypedCall (setter call) = IsTyped call
IsTypedCall _ = Unit

module _ (sha256 : List ℕ → List ℕ) (m : Rmem) where
  -- The static variables when the program starts.
  abbrev pub started : m.State → Pgp m
  started s = record { o3 = o3_pair; cur = zeros 0; loaded = false; chip = s }

  unfoldable pub step : Call → Pgp m → Pgp m
  step load g = (openpgp_state_load sha256 m g).1
  step clear g = (openpgp_state_clear sha256 m g).1
  step activate g = (openpgp_state_activate sha256 m g).1
  step reboot g = started g.chip
  step (init lc) g = (openpgp_state_init sha256 m lc g).1
  step (setter call) g = (set sha256 m call g).1

  unfoldable pub run : List Call → Pgp m → Pgp m
  unfolding step
  run [] g = g
  run (call ∷ calls) g = run calls (step call g)

  -- ACTIVATE and the setters: all calls but the ones of TERMINATE and of the start.
  abbrev pub IsOrdinary : Call → Type 0
  IsOrdinary activate = Unit
  IsOrdinary (setter call) = IsTyped call
  IsOrdinary _ = ⊥

  activate_operational :
      (g : Pgp m) → g.cur.lc ≡ lc_operational → (openpgp_state_activate sha256 m g).1 ≡ g
  unfolding openpgp_state_activate
  activate_operational g op = ground (arith, op)

  -- A permanent UIF of an operational card stays permanent through any setters and activations,
  -- whatever the chip answers: only the calls of TERMINATE clear it.
  pub permanent_uif_stays :
      (calls : List Call) (g : Pgp m)
      → All IsOrdinary calls
      → g.cur.uif ≡ 2
      → g.cur.lc ≡ lc_operational
      → (run calls g).cur.uif ≡ 2
  unfolding run step
  permanent_uif_stays [] g ordinary two op = two
  permanent_uif_stays (activate ∷ calls) g ordinary two op =
      let e = activate_operational g op in
      permanent_uif_stays calls (openpgp_state_activate sha256 m g).1 ordinary.1 (rw e two)
        (rw e op)
  permanent_uif_stays (setter call ∷ calls) g ordinary two op =
      let (two', op') = set_permanent sha256 m call g ordinary.0 two op in
      permanent_uif_stays calls (set sha256 m call g).1 ordinary.1 two' op'
  permanent_uif_stays (load ∷ calls) g ordinary two op = absurd ordinary.0
  permanent_uif_stays (clear ∷ calls) g ordinary two op = absurd ordinary.0
  permanent_uif_stays (reboot ∷ calls) g ordinary two op = absurd ordinary.0
  permanent_uif_stays (init lc ∷ calls) g ordinary two op = absurd ordinary.0

  module _ (sha256_length : (x : List ℕ) → length (sha256 x) ≡ 32) where
    set-IsSound :
        (call : Setter) (g : Pgp m)
        → IsTyped call
        → IsSound sha256 m g
        → IsSound sha256 m (set sha256 m call g).1
    set-IsSound call g typed h = elim (set-Effect sha256 m call g typed) [
      | inl (ne, same) ↦ rw same h
      | inr (inl e) ↦ rw e h
      | inr (inr (next, k, l, u, e)) ↦ rw e (commit-IsSound sha256 m sha256_length next g h k)
    ]

    step-IsSound :
        ((s : m.State) (j : ℕ) → AreBytes (m.holds s j))
        → (call : Call) (g : Pgp m) → IsTypedCall call
        → IsSound sha256 m g
        → IsSound sha256 m (step call g)
    unfolding step
    step-IsSound bytes load g typed h = openpgp_state_load-IsSound sha256 m g bytes h
    step-IsSound bytes clear g typed h = openpgp_state_clear-IsSound sha256 m g h
    step-IsSound bytes activate g typed h =
        openpgp_state_activate-IsSound sha256 m sha256_length g h
    step-IsSound bytes reboot g typed h = off-IsSound sha256 m (started g.chip) (inl refl) refl
    step-IsSound bytes (init lc) g typed h =
        openpgp_state_init-IsSound sha256 m sha256_length lc g h
    step-IsSound bytes (setter call) g typed h = set-IsSound call g typed h

    -- On a chip that stores bytes and reads truthfully, but may fail at any write, erase or read:
    -- after any calls with typed arguments from a sound state, the start of the program among
    -- them, the state is sound: while it is usable, its fields are in range and both copies of O3
    -- on the chip are one valid record with exactly the bytes of the record in RAM.
    pub calls-IsSound :
        ((s : m.State) (j : ℕ) → AreBytes (m.holds s j))
        → (calls : List Call) (g : Pgp m) → All IsTypedCall calls
        → IsSound sha256 m g
        → IsSound sha256 m (run calls g)
    unfolding run
    calls-IsSound bytes [] g typed h = h
    calls-IsSound bytes (call ∷ calls) g typed h =
        calls-IsSound bytes calls (step call g) typed.1 (step-IsSound bytes call g typed.0 h)

  pub started-IsSound : (s : m.State) → IsSound sha256 m (started s)
  started-IsSound s = off-IsSound sha256 m (started s) (inl refl) refl

  -- On a chip that works, the load after a power cycle brings back the record that a usable state
  -- had in RAM.
  pub load_after_reboot :
      (g : Pgp m)
      → Works m slot_max
      → IsSound sha256 m g
      → usable m g ≡ true
      → let (rc, g') = openpgp_state_load sha256 m (started g.chip) in
        (rc ≡ 0) × (g'.cur ≡ g.cur) × (usable m g' ≡ true)
  unfolding openpgp_state_load take_loaded usable
  load_after_reboot g works h u =
      let (e, (sized, ok), held) = h.backed u in
      let (st, pair, pl) =
        rec_pair_read_carried sha256 m o3_pair works (o3_bytes g.cur) g.chip refl held in
      rw (st, pl, length-o3_bytes g.cur sized, o3_of-o3_bytes g.cur sized, ok)
        (refl, refl, rw pair refl)
