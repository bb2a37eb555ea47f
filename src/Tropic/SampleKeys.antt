-- ===== src/Tropic/SampleKeys.antt =====
-- A chip that works, with keys and counters, for concrete runs of firmware/src/fido_hid.
use mathlib.Core.Path.{subst}
use nixtropic.Base.{
  if_each, ◌≢◌, not, zero, suc, ap, sym, ◌∙◌, ℕ, ◌+◌, ◌-◌, ◌≤◌, List, [], ◌≡◌, refl, true, arith,
  some, length, replicate, AreBytes, ltb, if◌then◌else◌, ◌==◌, length-replicate,
}
use nixtropic.Tropic.Rmem.{Rmem, reading}
use nixtropic.Tropic.Keys.{Keys}
use nixtropic.Tropic.SampleChip.{Store, update, update_self, update_other, reading_bytes}

-- The R-memory, the keys and the counters.
pub record Vault : Type 0 where
  pub mem : Store
  pub ecc : Store
  pub ctr : ℕ → ℕ

abbrev pub key_chip : Rmem
key_chip = record {
  State = Vault;
  read = λ slot max s. (reading (s.mem slot), s);
  write = λ slot r s. (true, record s { mem = update s.mem slot r });
  erase = λ slot s. (true, record s { mem = update s.mem slot [] });
  holds = λ s j. s.mem j;
  read_keeps = λ slot max s j. refl;
  read_bytes = λ slot max s r h ne. reading_bytes r (s.mem slot) h;
  write_other = λ slot r s j ne. update_other s.mem slot r j ne;
  erase_other = λ slot s j ne. update_other s.mem slot [] j ne;
}

abbrev count_down : (ℕ → ℕ) → ℕ → ℕ → ℕ
count_down c i j = if j == i then c i - 1 else c j

abbrev count_from : (ℕ → ℕ) → ℕ → ℕ → ℕ → ℕ
count_from c i v j = if j == i then v else c j

pub count_down_le : (c : ℕ → ℕ) (i : ℕ) → count_down c i i ≤ c i
count_down_le c i = ground arith

pub count_down_one : (c : ℕ → ℕ) (i : ℕ) → ltb 0 (c i) ≡ true → count_down c i i + 1 ≡ c i
count_down_one c i h = ground (arith, h)

pub count_from_self : (c : ℕ → ℕ) (i v : ℕ) → count_from c i v i ≡ v
count_from_self c i v = ground arith

zeroed-AreBytes : (n : ℕ) → AreBytes (replicate n 0)
zeroed-AreBytes zero = tt
zeroed-AreBytes (suc n) = (omega arith, zeroed-AreBytes n)

list-inj : {x y : List ℕ} → some x ≡ some y → x ≡ y
list-inj h = ground (arith, h)

number-inj : {x y : ℕ} → some x ≡ some y → x ≡ y
number-inj h = ground (arith, h)

pub zeros_length : (n : ℕ) (x : List ℕ) → some (replicate n 0) ≡ some x → length x ≡ n
zeros_length n x h = ap length (sym (list-inj h)) ∙ length-replicate n 0

pub zeros-AreBytes : (n : ℕ) (x : List ℕ) → some (replicate n 0) ≡ some x → AreBytes x
zeros-AreBytes n x h = subst AreBytes (list-inj h) (zeroed-AreBytes n)

pub same_number : (x y : ℕ) → some x ≡ some y → y ≡ x
same_number x y h = sym (number-inj h)

abbrev pub sample_keys : Keys key_chip
sample_keys = record {
  random = λ n s. (some (replicate n 0), s);
  session_ensure = λ s. (true, s);
  mac_and_destroy = λ slot x s. (some (replicate 32 5), s);
  ecc_erase = λ slot s. (true, record s { ecc = update s.ecc slot [] });
  ecc_generate = λ slot curve s. (true, record s { ecc = update s.ecc slot (replicate 32 9) });
  ecc_pubkey_read = λ slot max s. (some (s.ecc slot), s);
  ecc_eddsa_sign = λ slot x max s. (some (replicate 64 1), s);
  ecc_ecdsa_sign = λ slot x max s. (some (replicate 64 1), s);
  mcounter_get = λ i s. (some (s.ctr i), s);
  mcounter_update = λ i s. (ltb 0 (s.ctr i), record s { ctr = count_down s.ctr i });
  mcounter_init = λ i v s. (true, record s { ctr = count_from s.ctr i v });
  key = λ s j. s.ecc j;
  count = λ s i. s.ctr i;
  read_vault = λ slot max s. (λ j. refl, λ i. refl);
  write_vault = λ slot r s. (λ j. refl, λ i. refl);
  erase_vault = λ slot s. (λ j. refl, λ i. refl);
  random_vault = λ n s. (λ j. refl, λ i. refl);
  random_keeps = λ n s j. refl;
  random_length = λ n s x h. zeros_length n x h;
  random_bytes = λ n s x h. zeros-AreBytes n x h;
  ensure_vault = λ s. (λ j. refl, λ i. refl);
  ensure_keeps = λ s j. refl;
  mac_vault = λ slot x s. (λ j. refl, λ i. refl);
  mac_keeps = λ slot x s j. refl;
  pubkey_vault = λ slot max s. (λ j. refl, λ i. refl);
  eddsa_vault = λ slot x max s. (λ j. refl, λ i. refl);
  ecdsa_vault = λ slot x max s. (λ j. refl, λ i. refl);
  get_vault = λ i s. (λ j. refl, λ i'. refl);
  get_value = λ i s v h. same_number (s.ctr i) v h;
  ecc_erase_other = λ slot s j ne. update_other s.ecc slot [] j ne;
  ecc_erase_done = λ slot s h. update_self s.ecc slot [];
  ecc_erase_count = λ slot s i. refl;
  ecc_erase_keeps = λ slot s j. refl;
  ecc_generate_other = λ slot curve s j ne. update_other s.ecc slot (replicate 32 9) j ne;
  ecc_generate_count = λ slot curve s i. refl;
  update_keys = λ i s j. refl;
  update_down = λ i s. count_down_le s.ctr i;
  update_done = λ i s h. count_down_one s.ctr i h;
  init_keys = λ i v s j. refl;
  init_keeps = λ i v s j. refl;
  init_done = λ i v s h. count_from_self s.ctr i v;
}

-- The erase of slot 3 is refused and does nothing.
abbrev stuck_erase : ℕ → Vault → Vault
stuck_erase slot s = if slot == 3 then s else record s { ecc = update s.ecc slot [] }

pub stuck_erase_other :
    (slot : ℕ) (s : Vault) (j : ℕ) → j ≢ slot → (stuck_erase slot s).ecc j ≡ s.ecc j
stuck_erase_other slot s j ne =
    if_each (λ (t : Vault). t.ecc j ≡ s.ecc j) (slot == 3) s _ (λ e. refl)
      (λ e. update_other s.ecc slot [] j ne)

pub stuck_erase_done :
    (slot : ℕ) (s : Vault) → not (slot == 3) ≡ true → (stuck_erase slot s).ecc slot ≡ []
stuck_erase_done slot s ok =
    if_each (λ (t : Vault). t.ecc slot ≡ []) (slot == 3) s _ (λ e. ground (arith, ok, e))
      (λ e. update_self s.ecc slot [])

pub stuck_erase_count : (slot : ℕ) (s : Vault) (i : ℕ) → (stuck_erase slot s).ctr i ≡ s.ctr i
stuck_erase_count slot s i =
    if_each (λ (t : Vault). t.ctr i ≡ s.ctr i) (slot == 3) s _ (λ e. refl) (λ e. refl)

pub stuck_erase_keeps : (slot : ℕ) (s : Vault) (j : ℕ) → (stuck_erase slot s).mem j ≡ s.mem j
stuck_erase_keeps slot s j =
    if_each (λ (t : Vault). t.mem j ≡ s.mem j) (slot == 3) s _ (λ e. refl) (λ e. refl)

abbrev pub stuck_keys : Keys key_chip
stuck_keys = record sample_keys {
  ecc_erase = λ slot s. (not (slot == 3), stuck_erase slot s);
  ecc_erase_other = stuck_erase_other;
  ecc_erase_done = stuck_erase_done;
  ecc_erase_count = stuck_erase_count;
  ecc_erase_keeps = stuck_erase_keeps;
}
