-- ===== src/Tropic/RecPair/Recover.antt =====
-- `rec_pair_read` of rec_pair.c after a fault: which copy it returns, and that it repairs the other.
use nixtropic.Base.{ℕ, ◌+◌, ◌<◌, List, ◌≡◌, ◌≢◌, ◌∙◌, true, false, Option, u32_mod}
use nixtropic.Tropic.Rmem.{Rmem, Works}
use nixtropic.Tropic.RecPair.{RecPair, slot_max, valid, rec_pair_read, fits, gen_of}
use nixtropic.Tropic.RecPair.Read.{
  Hold, Returns, NoRecord, rec_pair_read_lem, choose_same, choose_left, choose_right,
  choose_newer_left, settle_keep, settle_repair_a, settle_repair_b, valid-ne-nil,
}

module _ (sha256 : List ℕ → List ℕ) (m : Rmem) (w : Works m slot_max) (p : RecPair)
    (distinct : p.slot_a ≢ p.slot_b) (sure : p.uncertain ≡ false) (max : Option ℕ) (r : List ℕ)
    (good : valid sha256 p r ≡ true) (fit : fits max r ≡ true) (s : m.State) where
  -- Both copies hold the record: it is returned, and the slots stay as they are.
  pub read_both : Hold m p r s → Returns m p r (rec_pair_read sha256 m p max s)
  read_both (ha, hb) =
      let (s', same, e) = rec_pair_read_lem sha256 m w p max s sure in
      rw (e, ha, hb, choose_same sha256 p r good)
        (settle_keep sha256 m w p distinct max r (valid-ne-nil sha256 p r good) fit s'
          (same p.slot_a ∙ ha, same p.slot_b ∙ hb))

  -- Copy B is lost, empty or damaged: copy A is returned, and B rewritten from it.
  pub read_left_survives :
      m.holds s p.slot_a ≡ r
      → NoRecord sha256 p (m.holds s p.slot_b)
      → Returns m p r (rec_pair_read sha256 m p max s)
  read_left_survives ha hb =
      let (s', same, e) = rec_pair_read_lem sha256 m w p max s sure in
      rw (e, ha, choose_left sha256 p r (m.holds s p.slot_b) good hb)
        (settle_repair_b sha256 m w p distinct max r (valid-ne-nil sha256 p r good) fit s'
          (same p.slot_a ∙ ha))

  -- Copy A is lost, empty or damaged: copy B is returned, and A rewritten from it.
  pub read_right_survives :
      NoRecord sha256 p (m.holds s p.slot_a)
      → m.holds s p.slot_b ≡ r
      → Returns m p r (rec_pair_read sha256 m p max s)
  read_right_survives ha hb =
      let (s', same, e) = rec_pair_read_lem sha256 m w p max s sure in
      rw (e, hb, choose_right sha256 p (m.holds s p.slot_a) r ha good)
        (settle_repair_a sha256 m w p distinct max r (valid-ne-nil sha256 p r good) fit s'
          (same p.slot_b ∙ hb))

  -- Copy A is one generation ahead: it is returned, and B brought up to it.
  pub read_left_newer :
      m.holds s p.slot_a ≡ r
      → valid sha256 p (m.holds s p.slot_b) ≡ true
      → gen_of r ≡ gen_of (m.holds s p.slot_b) + 1
      → gen_of r < u32_mod
      → Returns m p r (rec_pair_read sha256 m p max s)
  read_left_newer ha hb next small =
      let (s', same, e) = rec_pair_read_lem sha256 m w p max s sure in
      rw (e, ha, choose_newer_left sha256 p r (m.holds s p.slot_b) good hb next small)
        (settle_repair_b sha256 m w p distinct max r (valid-ne-nil sha256 p r good) fit s'
          (same p.slot_a ∙ ha))
