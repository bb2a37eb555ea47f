-- ===== src/Tropic/RecPair/Stored.antt =====
-- A client's view of a record pair of rec_pair.c: a payload that both copies hold, and what a
-- write, an initialisation and a read make of it.
use nixtropic.Base.{
  some, ==_refl, bytes_eq_refl, ◌∷◌, ℕ, ◌+◌, ◌≤◌, ◌<◌, List, [], ◌≡◌, ◌≢◌, ◌⊎◌, inl, inr, refl, sym,
  ◌∙◌, true, false, arith, length, Option, u32_mod, AreBytes,
}
use nixtropic.Tropic.Rmem.{Rmem, Works, reading}
use nixtropic.Tropic.RecPair.{
  slot_max, read_copy, copy_valid, fits, choose, choose_valid, keep, settle_read, won, classify,
  RecPair, RecStatus, rec_ok, rec_payload_max, gen_of, payload_of, valid, encode, uncertain_now,
  rec_pair_read, rec_pair_write, rec_pair_init,
}
use nixtropic.Tropic.RecPair.Format.{
  gen_of-encode, payload_of-encode, valid-encode, gen_of_bound, payload_of_bytes,
}
use nixtropic.Tropic.RecPair.Commit.{encode-ne-nil}
use nixtropic.Tropic.RecPair.Read.{Hold}
use nixtropic.Tropic.RecPair.Contract.{read_copy_frame, rec_pair_read-Found}
use nixtropic.Tropic.RecPair.Writes.{Written, rec_pair_write-Written}
use nixtropic.Tropic.RecPair.Frame.{rec_pair_init-Started}

module _ (sha256 : List ℕ → List ℕ) (m : Rmem) (p : RecPair) where
  -- The record `r` is valid and carries the payload.
  abbrev pub Carries : List ℕ → List ℕ → Type 0
  Carries r payload =
      (r ≢ []) × (gen_of r < u32_mod) × (valid sha256 p r ≡ true) × (payload_of r ≡ payload)

  -- Both copies are one valid record that carries the payload.
  abbrev pub Backs : List ℕ → m.State → Type 0
  Backs payload s = (r : List ℕ) × Carries r payload × Hold m p r s

  -- What a write leaves: the new payload, acknowledged; or the old one, or an uncertain pair.
  abbrev pub Updated : List ℕ → List ℕ → RecStatus × RecPair × m.State → Type 0
  Updated old new (st, p', s') =
      ((st ≡ rec_ok) × (p' ≡ p) × Backs new s')
      ⊎ ((st ≢ rec_ok) × (((p' ≡ p) × Backs old s') ⊎ (p' ≡ uncertain_now p)))

  module _ (sha256_length : (x : List ℕ) → length (sha256 x) ≡ 32) where
    pub encode-Carries :
        (gen : ℕ) (payload : List ℕ)
        → gen ≢ 0
        → gen < u32_mod
        → length payload ≤ rec_payload_max
        → Carries (encode sha256 p gen payload) payload
    encode-Carries gen payload pos lt small = (
      encode-ne-nil sha256 m p gen payload,
      rw (gen_of-encode sha256 p gen payload lt) lt,
      valid-encode sha256 sha256_length p gen payload (omega arith) lt small,
      payload_of-encode sha256 sha256_length p gen payload small,
    )

    commit-Updated :
        (old new r : List ℕ) (out : RecStatus × RecPair × m.State)
        → length new ≤ rec_payload_max
        → Carries r old
        → Written sha256 m p r new out
        → Updated old new out
    commit-Updated old new r (st, p', s') small says (inl (ok, same, more, hold)) = inl (
      ok,
      same,
      (
        encode sha256 p (gen_of r + 1) new,
        encode-Carries (gen_of r + 1) new (omega arith) (omega (arith, says.1, more)) small,
        hold,
      ),
    )
    commit-Updated old new r (st, p', s') small says (inr (bad, inl (same, hold))) =
        inr (bad, inl (same, (r, says, hold)))
    commit-Updated old new r (st, p', s') small says (inr (bad, inr un)) = inr (bad, inr un)

    pub rec_pair_write-Updated :
        (old new : List ℕ) (s : m.State)
        → p.slot_a ≢ p.slot_b
        → p.uncertain ≡ false
        → length new ≤ rec_payload_max
        → Backs old s
        → Updated old new (rec_pair_write sha256 m p new s)
    rec_pair_write-Updated old new s apart certain small (r, says, hold) =
        commit-Updated old new r (rec_pair_write sha256 m p new s) small says
          (rec_pair_write-Written sha256 m p r new s apart says.0 certain hold)

    -- An acknowledged initialisation stores the payload.
    pub rec_pair_init-Backs :
        (payload : List ℕ) (s : m.State)
        → p.slot_a ≢ p.slot_b
        → length payload ≤ rec_payload_max
        → (rec_pair_init sha256 m p payload s).0 ≡ rec_ok
        → let (st, p', s') = rec_pair_init sha256 m p payload s in (p' ≡ p) × Backs payload s'
    rec_pair_init-Backs payload s apart small ok =
        let (same, hold) = rec_pair_init-Started sha256 m p payload s apart ok in
        (
          same,
          (
            encode sha256 p 1 payload,
            encode-Carries 1 payload (omega arith) (omega arith) small,
            hold,
          ),
        )

  valid_ne_nil : (r : List ℕ) → valid sha256 p r ≡ true → r ≢ []
  unfolding valid
  valid_ne_nil r v nil = ground (arith, rw nil at v)

  -- A read that succeeds returns bytes that both copies carry.
  pub rec_pair_read-Backs :
      (max : Option ℕ) (s : m.State)
      → ((t : m.State) (j : ℕ) → AreBytes (m.holds t j))
      → p.slot_a ≢ p.slot_b
      → (rec_pair_read sha256 m p max s).status ≡ rec_ok
      → let out = rec_pair_read sha256 m p max s in
        (out.pair ≡ p) × AreBytes out.payload × Backs out.payload out.chip
  rec_pair_read-Backs max s stored_bytes apart ok =
      let out = rec_pair_read sha256 m p max s in
      let (r, (pair, hold, v, pl, gen)) = rec_pair_read-Found sha256 m p max s apart ok in
      let bytes' : AreBytes r = rw hold.0 at (stored_bytes out.chip p.slot_a) in
      (
        pair,
        rw pl (payload_of_bytes r bytes'),
        (r, (valid_ne_nil r v, gen_of_bound r bytes', v, sym pl), hold),
      )

  -- On a chip that works, a read of what both copies carry succeeds and returns it.
  module _ (works : Works m slot_max) where
    classify-reading :
        (r : List ℕ)
        → r ≢ []
        → valid sha256 p r ≡ true
        → classify sha256 m p (reading r) ≡ copy_valid r
    unfolding classify
    classify-reading [] ne ok = absurd (ne refl)
    classify-reading (b ∷ r) ne ok = rw ok refl

    copy_reads :
        (slot : ℕ) (s : m.State) (r : List ℕ)
        → m.holds s slot ≡ r
        → r ≢ []
        → valid sha256 p r ≡ true
        → (read_copy sha256 m p slot s).0 ≡ copy_valid r
    unfolding read_copy
    copy_reads slot s r held ne ok = rw (works.read_all slot s, held) (classify-reading r ne ok)

    carried_fits : (r : List ℕ) → valid sha256 p r ≡ true → fits (some rec_payload_max) r ≡ true
    unfolding fits valid
    carried_fits r ok = ground (arith, ok)

    choose_same : (r : List ℕ) → choose (copy_valid r) (copy_valid r) ≡ keep r
    unfolding choose choose_valid
    choose_same r = rw (==_refl (gen_of r), bytes_eq_refl r) refl

    pub rec_pair_read_carried :
        (payload : List ℕ) (s : m.State)
        → p.uncertain ≡ false
        → Backs payload s
        → let out = rec_pair_read sha256 m p (some rec_payload_max) s in
          (out.status ≡ rec_ok) × (out.pair ≡ p) × (out.payload ≡ payload)
    unfolding rec_pair_read settle_read won
    rec_pair_read_carried payload s certain (r, says, hold) =
        let (ne, lt, ok, pl) = says in
        let a = copy_reads p.slot_a s r hold.0 ne ok in
        let s1 = (read_copy sha256 m p p.slot_a s).1 in
        let b =
          copy_reads p.slot_b s1 r (read_copy_frame sha256 m p p.slot_a s p.slot_b ∙ hold.1) ne
            ok in
        rw (a, b, choose_same r, carried_fits r ok) (simp certain (refl, refl, pl))
