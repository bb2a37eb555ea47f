-- ===== src/Tropic/RecPair/PowerCut.antt =====
-- A write of rec_pair.c that ends, fails or is cut anywhere, and the read after the reboot.
use nixtropic.Base.{
  ℕ, ◌+◌, ◌≤◌, ◌<◌, List, ◌≡◌, ◌≢◌, ◌⊎◌, inl, inr, sym, ◌∙◌, true, false, arith, Option, ap, some,
  u32_mod, length, take, drop,
}
use nixtropic.Tropic.Rmem.{Rmem, Works}
use nixtropic.Tropic.RecPair.{
  RecPair, rec_hdr, rec_ok, encode, slot_max, valid, rec_pair_read, rec_pair_write, fits, gen_of,
  rec_payload_max, payload_of, Outcome,
}
use nixtropic.Tropic.RecPair.Format.{valid-encode, gen_of-encode, len_of-encode, payload-encode}
use nixtropic.Tropic.RecPair.Read.{Hold, Returns}
use nixtropic.Tropic.RecPair.Recover.{
  read_both, read_left_survives, read_right_survives, read_left_newer,
}
use nixtropic.Tropic.RecPair.Crash.{Torn, Cut, in_a, in_b, in_repair, write_cut}

module _ (sha256 : List ℕ → List ℕ) (m : Rmem) (w : Works m slot_max) (p : RecPair)
    (distinct : p.slot_a ≢ p.slot_b) (sure : p.uncertain ≡ false) where
  -- After any cut the read returns the old record or the new one.
  pub read-Cut :
      (max : Option ℕ) (o n : List ℕ) (t : m.State)
      → valid sha256 p o ≡ true
      → valid sha256 p n ≡ true
      → fits max o ≡ true
      → fits max n ≡ true
      → gen_of n ≡ gen_of o + 1
      → gen_of n < u32_mod
      → Cut sha256 p o n (m.holds t p.slot_a) (m.holds t p.slot_b)
      → Returns m p o (rec_pair_read sha256 m p max t)
        ⊎ Returns m p n (rec_pair_read sha256 m p max t)
  read-Cut max o n t vo vn fo fn next small (in_a (inl a) b) =
      inl (read_both sha256 m w p distinct sure max o vo fo t (a, b))
  read-Cut max o n t vo vn fo fn next small (in_a (inr (inl a)) b) =
      inr (read_left_newer sha256 m w p distinct sure max n vn fn t a (rw b vo) (rw b next) small)
  read-Cut max o n t vo vn fo fn next small (in_a (inr (inr a)) b) =
      inl (read_right_survives sha256 m w p distinct sure max o vo fo t a b)
  read-Cut max o n t vo vn fo fn next small (in_b a (inl b)) =
      inr (read_left_newer sha256 m w p distinct sure max n vn fn t a (rw b vo) (rw b next) small)
  read-Cut max o n t vo vn fo fn next small (in_b a (inr (inl b))) =
      inr (read_both sha256 m w p distinct sure max n vn fn t (a, b))
  read-Cut max o n t vo vn fo fn next small (in_b a (inr (inr b))) =
      inr (read_left_survives sha256 m w p distinct sure max n vn fn t a b)
  read-Cut max o n t vo vn fo fn next small (in_repair a (inl b)) =
      inl (read_both sha256 m w p distinct sure max o vo fo t (a, b))
  read-Cut max o n t vo vn fo fn next small (in_repair a (inr (inl b))) =
      inl (read_both sha256 m w p distinct sure max o vo fo t (a, b))
  read-Cut max o n t vo vn fo fn next small (in_repair a (inr (inr b))) =
      inl (read_left_survives sha256 m w p distinct sure max o vo fo t a b)

module _ (sha256 : List ℕ → List ℕ) (sha256_length : (x : List ℕ) → length (sha256 x) ≡ 32) where
  -- The call succeeded with this payload and generation, and both slots hold their record.
  abbrev pub Gives : (m : Rmem) → RecPair → List ℕ → ℕ → Outcome m → Type 0
  Gives m p payload gen out =
      (out.status ≡ rec_ok)
      × (out.payload ≡ payload)
      × (out.gen ≡ gen)
      × Hold m p (encode sha256 p gen payload) out.chip

  pub Returns-Gives :
      (m : Rmem) (p : RecPair) (gen : ℕ) (payload : List ℕ) (out : Outcome m)
      → gen < u32_mod
      → length payload ≤ rec_payload_max
      → Returns m p (encode sha256 p gen payload) out
      → Gives m p payload gen out
  unfolding payload_of
  Returns-Gives m p gen payload out small short r = (
    r.status_ok,
    r.payload_is
        ∙ ap (λ k. take k (drop rec_hdr (encode sha256 p gen payload)))
            (len_of-encode sha256 p gen payload short)
        ∙ payload-encode sha256 sha256_length p gen payload short,
    r.gen_is ∙ gen_of-encode sha256 p gen payload small,
    r.both_hold,
  )

  pub fits-encode :
      (p : RecPair) (gen : ℕ) (payload : List ℕ)
      → length payload ≤ rec_payload_max
      → fits (some rec_payload_max) (encode sha256 p gen payload) ≡ true
  unfolding fits
  fits-encode p gen payload short = ground (arith, len_of-encode sha256 p gen payload short)

  -- The two records of a write, as `write_cut` and `read-Cut` want them.
  module _ (p : RecPair) (g : ℕ) (old new : List ℕ) (pos : 0 < g) (small : g + 1 < u32_mod)
      (lo : length old ≤ rec_payload_max) (ln : length new ≤ rec_payload_max) where
    old_valid : valid sha256 p (encode sha256 p g old) ≡ true
    old_valid = valid-encode sha256 sha256_length p g old pos (omega arith) lo

    old_gen : gen_of (encode sha256 p g old) ≡ g
    old_gen = gen_of-encode sha256 p g old (omega arith)

    new_gen : gen_of (encode sha256 p (g + 1) new) ≡ g + 1
    new_gen = gen_of-encode sha256 p (g + 1) new small

    read_between :
        (n : Rmem) (t : n.State)
        → Works n slot_max
        → p.slot_a ≢ p.slot_b
        → p.uncertain ≡ false
        → Cut sha256 p
            (encode sha256 p g old)
            (encode sha256 p (g + 1) new)
            (n.holds t p.slot_a)
            (n.holds t p.slot_b)
        → let out = rec_pair_read sha256 n p (some rec_payload_max) t in
          Gives n p old g out ⊎ Gives n p new (g + 1) out
    read_between n t works distinct sure c =
        elim (read-Cut sha256 n works p distinct sure (some rec_payload_max) (encode sha256 p g old)
          (encode sha256 p (g + 1) new) t old_valid
          (valid-encode sha256 sha256_length p (g + 1) new (omega arith) small ln)
          (fits-encode p g old lo) (fits-encode p (g + 1) new ln)
          (new_gen ∙ ap (λ k. k + 1) (sym old_gen)) (rw new_gen small) c) [
            | inl r ↦ inl (Returns-Gives n p g old _ (omega arith) lo r)
            | inr r ↦ inr (Returns-Gives n p (g + 1) new _ small ln r)
          ]

    read_acknowledged :
        (n : Rmem) (t : n.State)
        → Works n slot_max
        → p.slot_a ≢ p.slot_b
        → p.uncertain ≡ false
        → Hold n p (encode sha256 p (g + 1) new) t
        → Gives n p new (g + 1) (rec_pair_read sha256 n p (some rec_payload_max) t)
    read_acknowledged n t works distinct sure h = Returns-Gives n p (g + 1) new _ small ln (
        read_both sha256 n works p distinct sure (some rec_payload_max)
          (encode sha256 p (g + 1) new)
          (valid-encode sha256 sha256_length p (g + 1) new (omega arith) small ln)
          (fits-encode p (g + 1) new ln) t h)

  -- A write over a record in both copies, on a chip `m` whose calls may fail or be cut anywhere,
  -- each leaving its slot with what it held, with what was written, or with no record of the pair.
  -- After the reboot, on a working chip that holds what `m` was left with, the read succeeds with
  -- the old payload and generation or with the new ones, with the new ones if the write was
  -- acknowledged, and leaves both copies holding the record it returned.
  pub write_power_cut :
      (m n : Rmem) (p : RecPair) (g : ℕ) (old new : List ℕ) (s : m.State) (t : n.State)
      → Torn sha256 m p
      → Works n slot_max
      → p.slot_a ≢ p.slot_b
      → p.uncertain ≡ false
      → 0 < g
      → g + 1 < u32_mod
      → length old ≤ rec_payload_max
      → length new ≤ rec_payload_max
      → Hold m p (encode sha256 p g old) s
      → (let (st, p', s') = rec_pair_write sha256 m p new s in
          (n.holds t p.slot_a ≡ m.holds s' p.slot_a) × (n.holds t p.slot_b ≡ m.holds s' p.slot_b))
      → let out = rec_pair_read sha256 n p (some rec_payload_max) t in
        (Gives n p old g out ⊎ Gives n p new (g + 1) out)
        × ((rec_pair_write sha256 m p new s).0 ≡ rec_ok → Gives n p new (g + 1) out)
  write_power_cut m n p g old new s t torn works distinct sure pos small lo ln h (ea, eb) =
      let next : gen_of (encode sha256 p g old) + 1 ≡ g + 1 =
        ap (λ k. k + 1) (old_gen p g old new pos small lo ln) in
      let (cut, acknowledged) = rw next at (
        write_cut sha256 m p torn new (encode sha256 p g old) s distinct sure
          (old_valid p g old new pos small lo ln) h) in
      (
        read_between p g old new pos small lo ln n t works distinct sure (rw (ea, eb) cut),
        λ st.
            read_acknowledged p g old new pos small lo ln n t works distinct sure
              (ea ∙ (acknowledged st).0, eb ∙ (acknowledged st).1),
      )
