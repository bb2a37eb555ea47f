-- ===== src/FidoHid/Credstore/Isolation.antt =====
-- credstore_make of credstore.c and the keys of other slots.
use nixtropic.Base.{
  ℕ, List, Bool, true, not, ◌≡◌, ◌≢◌, refl, ap, ◌∙◌, arith, Option, none, some, if_each, ◌==◌,
}
use nixtropic.Tropic.Rmem.{Rmem}
use nixtropic.Tropic.Keys.{Keys}
use nixtropic.Tropic.PinKernel.{if_ok}
use nixtropic.Tropic.PinKernel.Chain.{if_ok-each}
use nixtropic.FidoHid.Slots.Bitmap.{bit, first_free, first_free_lem}
use nixtropic.FidoHid.Slots.Meta.{NewCred}
use nixtropic.FidoHid.Slots.{
  Alloc, allocated, alloc_error, fido_slots_max, slots_usable, slots_bitmap, slots_alloc,
}
use nixtropic.FidoHid.Slots.Closed.{slots_alloc-Closed, slots_erase-Closed}
use nixtropic.FidoHid.Store.{Fido, on_slots, on_chip, services, fido_state_boot, signcount_mcounter}
use nixtropic.Tropic.ChipClosed.{ChipClosed, vault-ChipClosed}
use nixtropic.FidoHid.Store.Boot.{Steady, fido_state_boot-Booted}
use nixtropic.FidoHid.Credstore.{
  credstore_init, credstore_make, try_key, drop_key, finish_make, publish_key, make_at, Made,
  pubkey_len, pubkey_max, of_length, curve_of,
}

module _ (sha256 : List ℕ → List ℕ) (hmac : List ℕ → List ℕ → List ℕ) (m : Rmem) (k : Keys m)
    (P : m.State → Type 0) (closed : ChipClosed sha256 hmac m k P) where
  abbrev After : {A : Type 0} → A × Fido m → Type 0
  After x = P x.1.slots.chip

  -- After credstore_init on usable slots.
  abbrev pub Ready : List Bool → Bool × Fido m → Type 0
  Ready bm x = P x.1.slots.chip × (x.0 ≡ true → Steady sha256 hmac m k bm x.1)

  pub credstore_init-Ready :
      ((s : m.State) → P s → P (k.mcounter_get signcount_mcounter s).1)
      → (g : Fido m) → P g.slots.chip
      → slots_usable m g.slots ≡ true
      → Ready g.slots.bitmap (credstore_init sha256 hmac m k g)
  unfolding credstore_init slots_usable
  credstore_init-Ready on_get g h u =
      let booted = fido_state_boot-Booted sha256 hmac m k P closed on_get g h u in
      let rc = (fido_state_boot sha256 hmac m k g).0 in
      if_each (Ready g.slots.bitmap) g.initted _ _ (λ e. (h, λ ok. (u, refl)))
        (λ e.
          if_each (Ready g.slots.bitmap) (not (rc == 0)) _ _
            (λ f. (booted.0, λ ok. ground (arith, ok)))
            (λ f. (booted.0, λ ok. booted.1 (ground (arith, f)))))

  module _ (slot : ℕ) (on_erase : (s : m.State) → P s → P (k.ecc_erase slot s).1)
      (on_generate : (curve : ℕ) (s : m.State) → P s → P (k.ecc_generate slot curve s).1)
      (on_pubkey : (s : m.State) → P s → P (k.ecc_pubkey_read slot pubkey_max s).1) where
    try_key-Closed :
        (curve want : ℕ) (s : m.State) → P s → P (try_key sha256 hmac m k slot curve want s).1
    unfolding try_key
    try_key-Closed curve want s h =
        let read : m.State → Option (List ℕ) × m.State =
          λ s2. let (got, s3) = k.ecc_pubkey_read slot pubkey_max s2 in (of_length want got, s3) in
        let h1 = on_erase s h in
        let s1 = (k.ecc_erase slot s).1 in
        let h2 = on_generate curve s1 h1 in
        let Q = λ (x : Option (List ℕ) × m.State). P x.1 in
        if_ok-each Q (k.ecc_erase slot s) none
          (λ s1'. if_ok (k.ecc_generate slot curve s1') none read) h1
          (λ ok. if_ok-each Q (k.ecc_generate slot curve s1) none read h2 (λ ok2. on_pubkey _ h2))

    drop_key-Closed : (g : Fido m) → P g.slots.chip → P (drop_key sha256 hmac m k slot g).slots.chip
    unfolding drop_key on_chip
    drop_key-Closed g h = on_erase g.slots.chip h

    finish_make-Closed :
        (pk : List ℕ) (a : Alloc) (g : Fido m)
        → P g.slots.chip
        → After (finish_make sha256 hmac m k slot pk a g)
    unfolding finish_make on_slots
    finish_make-Closed pk (allocated idx id) g h =
        let g1 = drop_key sha256 hmac m k slot g in
        if_each After (idx == slot) _ _ (λ e. h)
          (λ e. slots_erase-Closed m P closed.rmem sha256 idx g1.slots (drop_key-Closed g h))
    finish_make-Closed pk (alloc_error e) g h =
        if_each After (e == 3) _ _ (λ f. h) (λ f. drop_key-Closed g h)

    publish_key-Closed :
        (n : NewCred) (mask : List Bool) (x : Option (List ℕ) × Fido m)
        → P x.1.slots.chip
        → After (publish_key sha256 hmac m k slot n mask x)
    unfolding publish_key on_slots
    publish_key-Closed n mask (none, g) h = drop_key-Closed g h
    publish_key-Closed n mask (some pk, g) h =
        let (rc, g1) = on_slots m (slots_alloc sha256 m (services m k) n mask) g in
        finish_make-Closed pk rc g1 (
          slots_alloc-Closed m P closed.rmem sha256 (services m k) n mask g.slots closed.on_random
            h)

    pub make_at-Closed :
        (n : NewCred) (mask : List Bool) (g : Fido m)
        → P g.slots.chip
        → After (make_at sha256 hmac m k (some slot) n mask g)
    unfolding make_at on_chip
    make_at-Closed n mask g h =
        publish_key-Closed n mask _
          (try_key-Closed (curve_of n.alg) (pubkey_len n.alg) g.slots.chip h)

  make_none-Closed :
      (n : NewCred) (mask : List Bool) (g : Fido m)
      → P g.slots.chip
      → After (make_at sha256 hmac m k none n mask g)
  unfolding make_at
  make_none-Closed n mask g h = h

module _ (sha256 : List ℕ → List ℕ) (hmac : List ℕ → List ℕ → List ℕ) (m : Rmem) (k : Keys m) where
  -- The key in slot j and the counters are those of s0.
  abbrev pub KeyAsIn : m.State → ℕ → m.State → Type 0
  KeyAsIn s0 j s = (k.key s j ≡ k.key s0 j) × ((i : ℕ) → k.count s i ≡ k.count s0 i)

  key-ChipClosed : (s0 : m.State) (j : ℕ) → ChipClosed sha256 hmac m k (KeyAsIn s0 j)
  key-ChipClosed s0 j =
      vault-ChipClosed sha256 hmac m k (KeyAsIn s0 j)
        (λ s s' same h. (same.0 j ∙ h.0, λ i. same.1 i ∙ h.1 i))

  make_at-KeyAsIn :
      (s0 : m.State) (j : ℕ) (free : Option ℕ) (n : NewCred) (mask : List Bool) (g : Fido m)
      → ((slot : ℕ) → free ≡ some slot → j ≢ slot)
      → KeyAsIn s0 j g.slots.chip
      → KeyAsIn s0 j (make_at sha256 hmac m k free n mask g).1.slots.chip
  make_at-KeyAsIn s0 j none n mask g other h =
      make_none-Closed sha256 hmac m k (KeyAsIn s0 j) (key-ChipClosed s0 j) n mask g h
  make_at-KeyAsIn s0 j (some slot) n mask g other h =
      let ne = other slot refl in
      make_at-Closed sha256 hmac m k (KeyAsIn s0 j) (key-ChipClosed s0 j) slot
        (λ s p. (k.ecc_erase_other slot s j ne ∙ p.0, λ i. k.ecc_erase_count slot s i ∙ p.1 i))
        (λ curve s p. (
          k.ecc_generate_other slot curve s j ne ∙ p.0,
          λ i. k.ecc_generate_count slot curve s i ∙ p.1 i,
        ))
        (λ s p.
          let same = k.pubkey_vault slot pubkey_max s in (same.0 j ∙ p.0, λ i. same.1 i ∙ p.1 i))
        n mask g h

  -- The slot that a registration picks is not that of a registered credential.
  picked_free :
      (g : Fido m) (bm : List Bool) (j slot : ℕ)
      → Steady sha256 hmac m k bm g
      → bit bm j ≡ true
      → first_free fido_slots_max 0 (slots_bitmap m g.slots) ≡ some slot
      → j ≢ slot
  unfolding slots_bitmap
  picked_free g bm j slot (u, same) used e here =
      let free = (first_free_lem fido_slots_max 0 _ slot e).1 in
      ground (
        arith,
        u,
        free,
        used,
        ap (λ (b : List Bool). bit b j) same,
        ap (λ (i : ℕ). bit g.slots.bitmap i) here,
      )

  used_bit :
      (g : Fido m) (j : ℕ)
      → slots_usable m g.slots ≡ true
      → bit (slots_bitmap m g.slots) j ≡ true
      → bit g.slots.bitmap j ≡ true
  unfolding slots_bitmap
  used_bit g j u used = ground (arith, u, used)

  -- Whatever the chip answers, a registration, also one that fails, leaves the key of every
  -- registered credential as it was, and the monotonic counters.
  pub make_keeps_keys :
      (n : NewCred) (mask : List Bool) (g : Fido m) (j : ℕ)
      → bit (slots_bitmap m g.slots) j ≡ true
      → let s = (credstore_make sha256 hmac m k n mask g).1.slots.chip in
        (k.key s j ≡ k.key g.slots.chip j) × ((i : ℕ) → k.count s i ≡ k.count g.slots.chip i)
  unfolding credstore_make
  make_keeps_keys n mask g j used =
      let s0 = g.slots.chip in
      let Q = λ (x : Made × Fido m). KeyAsIn s0 j x.1.slots.chip in
      let here : KeyAsIn s0 j s0 = (refl, λ i. refl) in
      let on_get : (s : m.State)
          → KeyAsIn s0 j s
          → KeyAsIn s0 j (k.mcounter_get signcount_mcounter s).1 =
        λ s p.
          let same = k.get_vault signcount_mcounter s in (same.0 j ∙ p.0, λ i. same.1 i ∙ p.1 i) in
      let r = credstore_init sha256 hmac m k g in
      let g1 = record r.1 { mutating = true } in
      if_each Q (pubkey_len n.alg == 0) _ _ (λ e. here)
        (λ e.
          if_each Q (not (slots_usable m g.slots)) _ _ (λ f. here)
            (λ f.
              let u : slots_usable m g.slots ≡ true = ground (arith, f) in
              let (kept, steady) =
                credstore_init-Ready sha256 hmac m k (KeyAsIn s0 j) (key-ChipClosed s0 j) on_get g
                  here u in
              if_each Q (not r.0) _ _ (λ no. kept)
                (λ yes.
                  let st = steady (ground (arith, yes)) in
                  make_at-KeyAsIn s0 j (first_free fido_slots_max 0 (slots_bitmap m r.1.slots)) n
                    mask g1
                    (λ slot e'. picked_free r.1 g.slots.bitmap j slot st (used_bit g j u used) e')
                    kept)))
