-- ===== src/Tropic/RecPair/Tests.antt =====
-- Runs of rec_pair.c on concrete chips, and the properties at concrete inputs.
use nixtropic.Base.{
  sym, ◌∙◌, ℕ, ◌+◌, List, [], ◌∷◌, ◌≡◌, ◌≢◌, refl, bytes_eq, Bool, true, false, arith, ◌==◌,
  if◌then◌else◌, ◌⊎◌, inl, inr, none, some,
}
use nixtropic.Tropic.Rmem.{Rmem, reading}
use nixtropic.Tropic.SampleChip.{
  Store, update, update_self, update_other, reading_bytes, good_chip, good_chip-Works, hash,
  hash_length,
}
use nixtropic.Tropic.RecPair.{
  RecPair, rec_ok, rec_error, encode, valid, rec_pair_read, rec_pair_write, rec_pair_init,
  rec_payload_max,
}
use nixtropic.Tropic.RecPair.Read.{Hold}
use nixtropic.Tropic.RecPair.Crash.{Torn}
use nixtropic.Tropic.RecPair.PowerCut.{Gives, write_power_cut}
use nixtropic.Tropic.RecPair.Lockout.{Call, write, after, run, Kept, failed_call_locks}
use nixtropic.Tropic.RecPair.Ops.{
  rec_pair_write_acknowledged, rec_pair_init_works, damaged_copy, rec_pair_write_works,
}

cut_write : ℕ → List ℕ → Store → Bool × Store
cut_write slot r s = if slot == 43 then (false, s) else (true, update s slot r)

cut_write_other :
    (slot : ℕ) (r : List ℕ) (s : Store) (j : ℕ) → j ≢ slot → (cut_write slot r s).1 j ≡ s j
unfolding cut_write
cut_write_other slot r s j ne = ground arith

-- A chip that loses power when slot 43 is written: the erase before it was done.
abbrev cut_chip : Rmem
cut_chip = record {
  State = Store;
  read = λ slot max s. (reading (s slot), s);
  write = cut_write;
  erase = λ slot s. (true, update s slot []);
  holds = λ s j. s j;
  read_keeps = λ slot max s j. refl;
  read_bytes = λ slot max s r h ne. reading_bytes r (s slot) h;
  write_other = cut_write_other;
  erase_other = λ slot s j ne. update_other s slot [] j ne;
}

abbrev pair : RecPair
pair = record { slot_a = 33; slot_b = 43; obj = 3; schema = 2; uncertain = false }

pair_distinct : pair.slot_a ≢ pair.slot_b
pair_distinct = omega arith

-- Generation 5 of the payload 1, 2, 3 in both slots.
abbrev stored : Store
stored j = encode hash pair 5 (1 ∷ 2 ∷ 3 ∷ [])

cut_chip-Torn : Torn hash cut_chip pair
unfolding valid cut_write
cut_chip-Torn = record {
  erase_torn = λ slot s. inr (rw (update_self s slot []) refl);
  write_torn = λ slot r s. ground (arith, update_self s slot r);
}

-- The first copy of the new record is written, the second is lost.
ok_error : rec_ok ≢ rec_error
ok_error e = cc

cut_status : (rec_pair_write hash cut_chip pair (9 ∷ []) stored).0 ≡ rec_error
unfolding rec_pair_write rec_pair_read cut_write encode valid bytes_eq
cut_status = refl

write_power_cut_example :
    let t = (rec_pair_write hash cut_chip pair (9 ∷ []) stored).2 in
    let out = rec_pair_read hash good_chip pair (some rec_payload_max) t in
    (Gives hash hash_length good_chip pair (1 ∷ 2 ∷ 3 ∷ []) 5 out
      ⊎ Gives hash hash_length good_chip pair (9 ∷ []) 6 out)
    × ((rec_pair_write hash cut_chip pair (9 ∷ []) stored).0 ≡ rec_ok
        → Gives hash hash_length good_chip pair (9 ∷ []) 6 out)
write_power_cut_example =
    write_power_cut hash hash_length cut_chip good_chip pair 5 (1 ∷ 2 ∷ 3 ∷ []) (9 ∷ []) stored
      (rec_pair_write hash cut_chip pair (9 ∷ []) stored).2 cut_chip-Torn good_chip-Works
      pair_distinct refl (omega arith) (omega arith) (omega arith) (omega arith) (refl, refl)
      (refl, refl)

-- The same store with the second copy lost.
abbrev damaged : Store
damaged = update stored 43 []

damaged_copy_example :
    Gives hash hash_length good_chip pair
      (1 ∷ 2 ∷ 3 ∷ [])
      5
      (rec_pair_read hash good_chip pair (some rec_payload_max) damaged)
unfolding valid
damaged_copy_example =
    damaged_copy hash hash_length good_chip good_chip-Works pair 5 (1 ∷ 2 ∷ 3 ∷ []) damaged
      pair_distinct refl (omega arith) (omega arith) (omega arith) (inl (refl, refl))

rec_pair_write_works_example :
    let (st, p', s') = rec_pair_write hash good_chip pair (9 ∷ []) stored in
    (st ≡ rec_ok) × (p' ≡ pair) × Hold good_chip pair (encode hash pair 6 (9 ∷ [])) s'
rec_pair_write_works_example =
    rec_pair_write_works hash hash_length good_chip good_chip-Works pair 5 (1 ∷ 2 ∷ 3 ∷ []) stored
      pair_distinct refl (omega arith) (omega arith) (9 ∷ []) (omega arith) (omega arith)
      (refl, refl)

rec_pair_write_acknowledged_example :
    let seen = rec_pair_read hash good_chip pair none stored in
    (seen.status ≡ rec_ok)
    × Hold good_chip pair
        (encode hash pair (seen.gen + 1) (9 ∷ []))
        (rec_pair_write hash good_chip pair (9 ∷ []) stored).2
rec_pair_write_acknowledged_example =
    rec_pair_write_acknowledged hash good_chip pair (9 ∷ []) stored pair_distinct
      (rec_pair_write_works hash hash_length good_chip good_chip-Works pair 5 (1 ∷ 2 ∷ 3 ∷ [])
        stored pair_distinct refl (omega arith) (omega arith) (9 ∷ []) (omega arith) (omega arith)
        (refl, refl)).0

rec_pair_init_works_example :
    let (st, p', s') = rec_pair_init hash good_chip pair (9 ∷ []) damaged in
    (st ≡ rec_ok) × (p' ≡ pair) × Hold good_chip pair (encode hash pair 1 (9 ∷ [])) s'
rec_pair_init_works_example =
    rec_pair_init_works hash good_chip good_chip-Works pair (9 ∷ []) damaged pair_distinct refl
      (omega arith)

-- The cut write fails after it has erased slot 43: a later write and clear change nothing.
failed_call_locks_example :
    let (st, p', s') = after hash cut_chip (write (9 ∷ [])) (pair, stored) in
    let r = rec_pair_read hash cut_chip pair none stored in
    Kept hash cut_chip stored s'
    ⊎ (((r.status ≡ rec_ok) × Kept hash cut_chip r.chip s')
        ⊎ ((calls : List (Call hash cut_chip)) → run hash cut_chip calls (p', s') ≡ (p', s')))
unfolding after
failed_call_locks_example =
    failed_call_locks hash cut_chip (write (9 ∷ [])) pair stored
      (λ e. ok_error (sym e ∙ cut_status))
