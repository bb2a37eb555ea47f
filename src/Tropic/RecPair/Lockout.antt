-- ===== src/Tropic/RecPair/Lockout.antt =====
-- The uncertain flag of rec_pair.c over sequences of calls: what a call that fails leaves behind.
use mathlib.Core.Path.{subst}
use nixtropic.Base.{
  ◌-◌, ℕ, ◌+◌, List, [], ◌∷◌, ◌≡◌, ◌≢◌, ◌⊎◌, inl, inr, refl, ◌∙◌, ap, true, not, Option, none,
  if_each, u32_mod, ◌==◌,
}
use nixtropic.Tropic.Rmem.{Rmem}
use nixtropic.Tropic.RecPair.{
  RecPair, RecStatus, rec_ok, rec_absent, rec_corrupt, rec_error, slot_max, Choice, keep, repair_a,
  repair_b, refuse, choose, is_err, fits, read_copy, commit_copy, repair, settle_read, Outcome,
  rec_pair_read, rec_pair_write, rec_pair_clear, rec_pair_init, commit_both, write_next, init_next,
  bad_args, erase_checked, encode,
}
use nixtropic.Tropic.RecPair.Ops.{uncertain_refuses}

status_cases : (st : RecStatus) → (st ≡ rec_ok) ⊎ (st ≢ rec_ok)
status_cases rec_ok = inl refl
status_cases rec_absent = inr (λ e. cc)
status_cases rec_corrupt = inr (λ e. cc)
status_cases rec_error = inr (λ e. cc)

module _ (sha256 : List ℕ → List ℕ) (m : Rmem) where
  -- The calls of the interface of rec_pair.c.
  pub data Call : Type 0 where
    read : Option ℕ → Call
    write init : List ℕ → Call
    clear : Call

  unfoldable pub after : Call → RecPair × m.State → RecStatus × RecPair × m.State
  after (read max) (p, s) = let r = rec_pair_read sha256 m p max s in (r.status, r.pair, r.chip)
  after (write payload) (p, s) = rec_pair_write sha256 m p payload s
  after (init payload) (p, s) = rec_pair_init sha256 m p payload s
  after clear (p, s) = rec_pair_clear sha256 m p s

  pub run : List Call → RecPair × m.State → RecPair × m.State
  unfolding after
  run [] w = w
  run (c ∷ calls) w = let (st, p, s) = after c w in run calls (p, s)

  refused :
      (c : Call) (p : RecPair) (s : m.State)
      → p.uncertain ≡ true
      → after c (p, s) ≡ (rec_error, p, s)
  unfolding after
  refused (read max) p s un =
      let e = (uncertain_refuses sha256 m p max [] s un).0 in
      ap (λ (r : Outcome m). (r.status, r.pair, r.chip)) e
  refused (write payload) p s un = (uncertain_refuses sha256 m p none payload s un).1
  refused clear p s un = (uncertain_refuses sha256 m p none [] s un).2
  refused (init payload) p s un = (uncertain_refuses sha256 m p none payload s un).3

  run_locked :
      (calls : List Call) (p : RecPair) (s : m.State)
      → p.uncertain ≡ true
      → run calls (p, s) ≡ (p, s)
  unfolding run
  run_locked [] p s un = refl
  run_locked (c ∷ calls) p s un = rw (refused c p s un) (run_locked calls p s un)

  -- Every slot holds the same in both states.
  abbrev pub Kept : m.State → m.State → Type 0
  Kept s s' = (j : ℕ) → m.holds s' j ≡ m.holds s j

  -- A read that does not succeed has written nothing, or its pair is uncertain.
  abbrev ReadCloses : m.State → Outcome m → Type 0
  ReadCloses s r = r.status ≢ rec_ok → Kept s r.chip ⊎ (r.pair.uncertain ≡ true)

  repair-ReadCloses :
      (p : RecPair) (max : Option ℕ) (slot : ℕ) (r : List ℕ) (s s0 : m.State)
      → Kept s0 s
      → ReadCloses s0 (repair sha256 m p max slot r s)
  unfolding repair
  repair-ReadCloses p max slot r s s0 kept =
      if_each (ReadCloses s0) (not (fits max r)) _ _ (λ e bad. inl kept)
        (λ e.
          if_each (ReadCloses s0) (commit_copy m slot r s).0 _ _ (λ d bad. absurd (bad refl))
            (λ d bad. inr refl))

  settle-ReadCloses :
      (p : RecPair) (max : Option ℕ) (c : Choice) (s s0 : m.State)
      → Kept s0 s
      → ReadCloses s0 (settle_read sha256 m p max c s)
  unfolding settle_read
  settle-ReadCloses p max (keep r) s s0 kept =
      if_each (ReadCloses s0) (fits max r) _ _ (λ e bad. absurd (bad refl)) (λ e bad. inl kept)
  settle-ReadCloses p max (repair_a r) s s0 kept = repair-ReadCloses p max p.slot_a r s s0 kept
  settle-ReadCloses p max (repair_b r) s s0 kept = repair-ReadCloses p max p.slot_b r s s0 kept
  settle-ReadCloses p max (refuse st) s s0 kept = λ bad. inl kept

  read-ReadCloses :
      (p : RecPair) (max : Option ℕ) (s : m.State) → ReadCloses s (rec_pair_read sha256 m p max s)
  unfolding rec_pair_read read_copy
  read-ReadCloses p max s =
      let a = read_copy sha256 m p p.slot_a s in
      let b = read_copy sha256 m p p.slot_b a.1 in
      let one : Kept s a.1 = λ j. m.read_keeps p.slot_a slot_max s j in
      let two : Kept s b.1 = λ j. m.read_keeps p.slot_b slot_max a.1 j ∙ one j in
      if_each (ReadCloses s) p.uncertain _ _ (λ e bad. inr e)
        (λ e.
          if_each (ReadCloses s) (is_err a.0) _ _ (λ f bad. inl one)
            (λ f.
              if_each (ReadCloses s) (is_err b.0) _ _ (λ g bad. inl two)
                (λ g. settle-ReadCloses p max (choose a.0 b.0) b.1 s two)))

  -- A commit that does not succeed makes the pair uncertain.
  abbrev Locks : RecStatus × RecPair × m.State → Type 0
  Locks x = x.0 ≢ rec_ok → x.1.uncertain ≡ true

  commit_both-Locks :
      (p : RecPair) (gen : ℕ) (payload : List ℕ) (s : m.State)
      → Locks (commit_both sha256 m p gen payload s)
  unfolding commit_both
  commit_both-Locks p gen payload s =
      let r = encode sha256 p gen payload in
      let a = commit_copy m p.slot_a r s in
      if_each Locks (not a.0) _ _ (λ e bad. refl)
        (λ e.
          if_each Locks (not (commit_copy m p.slot_b r a.1).0) _ _ (λ f bad. refl)
            (λ f bad. absurd (bad refl)))

  -- What a call that does not succeed leaves: the slots as they were, or as the repair of a read
  -- that succeeded left them, or a pair that is uncertain.
  abbrev Closes : RecPair → m.State → RecStatus × RecPair × m.State → Type 0
  Closes p s x =
      x.0 ≢ rec_ok
      → Kept s x.2
        ⊎ ((((rec_pair_read sha256 m p none s).status ≡ rec_ok)
              × Kept (rec_pair_read sha256 m p none s).chip x.2)
            ⊎ (x.1.uncertain ≡ true))

  write_next_refused :
      (st : RecStatus) (gen : ℕ) (p : RecPair) (payload : List ℕ) (s : m.State)
      → st ≢ rec_ok
      → write_next sha256 m st gen p payload s ≡ (st, p, s)
  unfolding write_next
  write_next_refused rec_ok gen p payload s ne = absurd (ne refl)
  write_next_refused rec_absent gen p payload s ne = refl
  write_next_refused rec_corrupt gen p payload s ne = refl
  write_next_refused rec_error gen p payload s ne = refl

  write_next-Closes :
      (p : RecPair) (payload : List ℕ) (s : m.State) (r : Outcome m)
      → rec_pair_read sha256 m p none s ≡ r
      → Closes p s (write_next sha256 m r.status r.gen r.pair payload r.chip)
  unfolding write_next
  write_next-Closes p payload s r e = elim (status_cases r.status) [
    | inl ok ↦
        let done : (rec_pair_read sha256 m p none s).status ≡ rec_ok = rw e ok in
        let same : Kept (rec_pair_read sha256 m p none s).chip r.chip = rw e (λ j. refl) in
        rw ok (
          if_each (Closes p s) (r.gen == u32_mod - 1) _ _ (λ f bad. inr (inl (done, same)))
            (λ f bad. inr (inr (commit_both-Locks r.pair (r.gen + 1) payload r.chip bad))))
    | inr failing ↦
        let chances = subst (ReadCloses s) e (read-ReadCloses p none s) in
        rw (write_next_refused r.status r.gen r.pair payload r.chip failing)
          (λ bad. elim (chances failing) [ inl kept ↦ inl kept | inr un ↦ inr (inr un) ])
  ]

  clear-Locks : (p : RecPair) (s : m.State) → Locks (rec_pair_clear sha256 m p s)
  unfolding rec_pair_clear
  clear-Locks p s =
      let b = erase_checked m p.slot_b s in
      if_each Locks p.uncertain _ _ (λ e bad. e)
        (λ e.
          if_each Locks (not b.0) _ _ (λ f bad. refl)
            (λ f.
              if_each Locks (not (erase_checked m p.slot_a b.1).0) _ _ (λ g bad. refl)
                (λ g bad. absurd (bad refl))))

  init_next-Locks :
      (x : RecStatus × RecPair × m.State) (payload : List ℕ)
      → Locks x
      → Locks (init_next sha256 m x.0 x.1 payload x.2)
  unfolding init_next
  init_next-Locks (rec_ok, p, s) payload h = commit_both-Locks p 1 payload s
  init_next-Locks (rec_absent, p, s) payload h = h
  init_next-Locks (rec_corrupt, p, s) payload h = h
  init_next-Locks (rec_error, p, s) payload h = h

  after-Closes : (c : Call) (p : RecPair) (s : m.State) → Closes p s (after c (p, s))
  unfolding after rec_pair_write rec_pair_init
  after-Closes (read max) p s =
      λ bad. elim (read-ReadCloses p max s bad) [ inl kept ↦ inl kept | inr un ↦ inr (inr un) ]
  after-Closes (write payload) p s =
      if_each (Closes p s) (bad_args payload) _ _ (λ e bad. inl (λ j. refl))
        (λ e. write_next-Closes p payload s (rec_pair_read sha256 m p none s) refl)
  after-Closes (init payload) p s =
      if_each (Closes p s) (bad_args payload) _ _ (λ e bad. inl (λ j. refl))
        (λ e bad.
          inr (inr (init_next-Locks (rec_pair_clear sha256 m p s) payload (clear-Locks p s) bad)))
  after-Closes clear p s = λ bad. inr (inr (clear-Locks p s bad))

  -- Whatever the chip answers, after a call that does not return REC_OK the slots are as they were,
  -- or as the repair of a read that succeeded left them, or no later call to the pair, in any order
  -- and number, changes the pair or the chip.
  pub failed_call_locks :
      (c : Call) (p : RecPair) (s : m.State)
      → (after c (p, s)).0 ≢ rec_ok
      → let (st, p', s') = after c (p, s) in
        let r = rec_pair_read sha256 m p none s in
        Kept s s'
        ⊎ (((r.status ≡ rec_ok) × Kept r.chip s')
            ⊎ ((calls : List Call) → run calls (p', s') ≡ (p', s')))
  failed_call_locks c p s bad =
      let x = after c (p, s) in
      elim (after-Closes c p s bad) [
        | inl kept ↦ inl kept
        | inr (inl repaired) ↦ inr (inl repaired)
        | inr (inr un) ↦ inr (inr (λ calls. run_locked calls x.1 x.2 un))
      ]
