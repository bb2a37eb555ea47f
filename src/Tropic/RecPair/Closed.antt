-- ===== src/Tropic/RecPair/Closed.antt =====
-- The functions of rec_pair.c and predicates of the chip that the R-memory calls preserve.
use nixtropic.Base.{ℕ, ◌+◌, List, Bool, not, Option, none, if_each, ◌==◌, u32_mod, ◌-◌}
use nixtropic.Tropic.Rmem.{Rmem}
use nixtropic.Tropic.RecPair.{
  RecPair, RecStatus, rec_ok, rec_absent, rec_corrupt, rec_error, slot_max, Choice, keep, repair_a,
  repair_b, refuse, is_err, read_copy, settle_read, repair, won, rec_pair_read, rec_pair_write,
  rec_pair_clear, rec_pair_init, write_next, init_next, commit_both, commit_copy, erase_checked,
  bad_args, encode, choose, Outcome, fits,
}

-- The R-memory calls preserve P.
pub record Closed (m : Rmem) (P : m.State → Type 0) : Type 0 where
  pub on_read : (slot max : ℕ) (s : m.State) → P s → P (m.read slot max s).1
  pub on_write : (slot : ℕ) (r : List ℕ) (s : m.State) → P s → P (m.write slot r s).1
  pub on_erase : (slot : ℕ) (s : m.State) → P s → P (m.erase slot s).1

module _ (sha256 : List ℕ → List ℕ) (m : Rmem) (P : m.State → Type 0) (closed : Closed m P) where
  -- The state after a call that answers with a flag, or with a status and the pair.
  abbrev AfterFlag : Bool × m.State → Type 0
  AfterFlag x = P x.1

  abbrev AfterPair : RecStatus × RecPair × m.State → Type 0
  AfterPair x = P x.2

  abbrev AfterRead : Outcome m → Type 0
  AfterRead o = P o.chip

  commit_copy-Closed : (slot : ℕ) (r : List ℕ) (s : m.State) → P s → P (commit_copy m slot r s).1
  unfolding commit_copy
  commit_copy-Closed slot r s h =
      let s1 = (m.erase slot s).1 in
      let s2 = (m.write slot r s1).1 in
      let h1 = closed.on_erase slot s h in
      let h2 = closed.on_write slot r s1 h1 in
      if_each AfterFlag (not (m.erase slot s).0) _ _ (λ e. h1)
        (λ e.
          if_each AfterFlag (not (m.write slot r s1).0) _ _ (λ f. h2)
            (λ f. closed.on_read slot slot_max s2 h2))

  erase_checked-Closed : (slot : ℕ) (s : m.State) → P s → P (erase_checked m slot s).1
  unfolding erase_checked
  erase_checked-Closed slot s h =
      let s1 = (m.erase slot s).1 in
      let h1 = closed.on_erase slot s h in
      if_each AfterFlag (not (m.erase slot s).0) _ _ (λ e. h1)
        (λ e. closed.on_read slot slot_max s1 h1)

  repair-Closed :
      (p : RecPair) (max : Option ℕ) (slot : ℕ) (r : List ℕ) (s : m.State)
      → P s
      → P (repair sha256 m p max slot r s).chip
  unfolding repair won
  repair-Closed p max slot r s h =
      let h1 = commit_copy-Closed slot r s h in
      if_each AfterRead (not (fits max r)) _ _ (λ e. h)
        (λ e. if_each AfterRead (commit_copy m slot r s).0 _ _ (λ f. h1) (λ f. h1))

  settle_read-Closed :
      (p : RecPair) (max : Option ℕ) (c : Choice) (s : m.State)
      → P s
      → P (settle_read sha256 m p max c s).chip
  unfolding settle_read won
  settle_read-Closed p max (keep r) s h = if_each AfterRead (fits max r) _ _ (λ e. h) (λ e. h)
  settle_read-Closed p max (repair_a r) s h = repair-Closed p max p.slot_a r s h
  settle_read-Closed p max (repair_b r) s h = repair-Closed p max p.slot_b r s h
  settle_read-Closed p max (refuse st) s h = h

  read_copy-Closed :
      (p : RecPair) (slot : ℕ) (s : m.State) → P s → P (read_copy sha256 m p slot s).1
  unfolding read_copy
  read_copy-Closed p slot s h = closed.on_read slot slot_max s h

  pub rec_pair_read-Closed :
      (p : RecPair) (max : Option ℕ) (s : m.State) → P s → P (rec_pair_read sha256 m p max s).chip
  unfolding rec_pair_read
  rec_pair_read-Closed p max s h =
      let (a, s1) = read_copy sha256 m p p.slot_a s in
      let (b, s2) = read_copy sha256 m p p.slot_b s1 in
      let h1 = read_copy-Closed p p.slot_a s h in
      let h2 = read_copy-Closed p p.slot_b s1 h1 in
      if_each AfterRead p.uncertain _ _ (λ e. h)
        (λ e.
          if_each AfterRead (is_err a) _ _ (λ f. h1)
            (λ f.
              if_each AfterRead (is_err b) _ _ (λ g. h2)
                (λ g. settle_read-Closed p max (choose a b) s2 h2)))

  commit_both-Closed :
      (p : RecPair) (gen : ℕ) (payload : List ℕ) (s : m.State)
      → P s
      → P (commit_both sha256 m p gen payload s).2
  unfolding commit_both
  commit_both-Closed p gen payload s h =
      let r = encode sha256 p gen payload in
      let (a, s1) = commit_copy m p.slot_a r s in
      let (b, s2) = commit_copy m p.slot_b r s1 in
      let h1 = commit_copy-Closed p.slot_a r s h in
      let h2 = commit_copy-Closed p.slot_b r s1 h1 in
      if_each AfterPair (not a) _ _ (λ e. h1)
        (λ e. if_each AfterPair (not b) _ _ (λ f. h2) (λ f. h2))

  write_next-Closed :
      (st : RecStatus) (gen : ℕ) (p : RecPair) (payload : List ℕ) (s : m.State)
      → P s
      → P (write_next sha256 m st gen p payload s).2
  unfolding write_next
  write_next-Closed rec_ok gen p payload s h =
      if_each AfterPair (gen == u32_mod - 1) _ _ (λ e. h)
        (λ e. commit_both-Closed p (gen + 1) payload s h)
  write_next-Closed rec_absent gen p payload s h = h
  write_next-Closed rec_corrupt gen p payload s h = h
  write_next-Closed rec_error gen p payload s h = h

  pub rec_pair_write-Closed :
      (p : RecPair) (payload : List ℕ) (s : m.State)
      → P s
      → P (rec_pair_write sha256 m p payload s).2
  unfolding rec_pair_write
  rec_pair_write-Closed p payload s h =
      let r = rec_pair_read sha256 m p none s in
      if_each AfterPair (bad_args payload) _ _ (λ e. h)
        (λ e.
          write_next-Closed r.status r.gen r.pair payload r.chip (rec_pair_read-Closed p none s h))

  pub rec_pair_clear-Closed : (p : RecPair) (s : m.State) → P s → P (rec_pair_clear sha256 m p s).2
  unfolding rec_pair_clear
  rec_pair_clear-Closed p s h =
      let (b, s1) = erase_checked m p.slot_b s in
      let (a, s2) = erase_checked m p.slot_a s1 in
      let h1 = erase_checked-Closed p.slot_b s h in
      let h2 = erase_checked-Closed p.slot_a s1 h1 in
      if_each AfterPair p.uncertain _ _ (λ e. h)
        (λ e.
          if_each AfterPair (not b) _ _ (λ f. h1)
            (λ f. if_each AfterPair (not a) _ _ (λ g. h2) (λ g. h2)))

  init_next-Closed :
      (st : RecStatus) (p : RecPair) (payload : List ℕ) (s : m.State)
      → P s
      → P (init_next sha256 m st p payload s).2
  unfolding init_next
  init_next-Closed rec_ok p payload s h = commit_both-Closed p 1 payload s h
  init_next-Closed rec_absent p payload s h = h
  init_next-Closed rec_corrupt p payload s h = h
  init_next-Closed rec_error p payload s h = h

  pub rec_pair_init-Closed :
      (p : RecPair) (payload : List ℕ) (s : m.State)
      → P s
      → P (rec_pair_init sha256 m p payload s).2
  unfolding rec_pair_init
  rec_pair_init-Closed p payload s h =
      let (st, p1, s1) = rec_pair_clear sha256 m p s in
      if_each AfterPair (bad_args payload) _ _ (λ e. h)
        (λ e. init_next-Closed st p1 payload s1 (rec_pair_clear-Closed p s h))
