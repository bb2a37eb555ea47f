-- ===== src/FidoHid/Slots/Codec.antt =====
-- The metadata of a credential in slots.c: read_cred of what write_cred wrote.
use Prim.Native.Nat.{min}
use nixtropic.Base.{
  le→ltb, ltb, bytes_eq, ℕ, ◌-◌, ◌≤◌, ◌<◌, List, [], ◌∷◌, ◌++◌, true, false, ◌≡◌, refl, sym, ap,
  ◌∙◌, arith, length, get_or, get_or-drop, take, drop, replicate, length-append, length-replicate,
  take_append, drop_append, take_all, drop-drop, append_assoc, of_be32-byte_of, u32_mod,
  bytes_eq_refl,
}
use nixtropic.Tropic.Rmem.{bytes}
use nixtropic.FidoHid.Slots.Meta.{
  SlotMeta, NewCred, rp_id_hash_len, cred_id_nonce_len, user_handle_max, rmem_per_cred_size,
  cred_magic, be32_store, handle_area, cred_bytes, stored_handle_len, stored_created, cred_meta,
  parse_cred, cred_ok,
}

-- The metadata that a new credential is to have.
abbrev pub meta_of : NewCred → List ℕ → SlotMeta
meta_of n nonce = record {
  alg = n.alg;
  flags = n.flags;
  rp_id_hash = n.rp_id_hash;
  cred_id_nonce = nonce;
  user_handle_len = length n.user_handle;
  user_handle = n.user_handle ++ replicate (user_handle_max - length n.user_handle) 0;
  created = n.created;
}

-- The C types of the arguments: their lengths and a uint32_t.
pub record IsNewCred (n : NewCred) (nonce : List ℕ) : Type 0 where
  pub hash_length : length n.rp_id_hash ≡ rp_id_hash_len
  pub nonce_length : length nonce ≡ cred_id_nonce_len
  pub handle_length : length n.user_handle ≤ user_handle_max
  pub created_bound : n.created < u32_mod

parse_full :
    (buf : List ℕ)
    → 56 ≤ length buf
    → take 4 buf ≡ cred_magic
    → parse_cred (bytes buf) ≡ cred_ok (cred_meta buf)
unfolding parse_cred
parse_full [] h magic = absurd (omega arith)
parse_full (b ∷ buf) h magic =
    let same : bytes_eq (take 4 (b ∷ buf)) cred_magic ≡ true =
      ap (λ x. bytes_eq x cred_magic) magic ∙ bytes_eq_refl cred_magic in
    let long : ltb (length (b ∷ buf)) 56 ≡ false = le→ltb _ _ h in rw (long, same) refl

module _ (n : NewCred) (nonce : List ℕ) (ok : IsNewCred n nonce) where
  abbrev tail : List ℕ
  tail = be32_store n.created ++ replicate (rmem_per_cred_size - 125) 0

  abbrev area : List ℕ
  area = n.user_handle ++ replicate (user_handle_max - length n.user_handle) 0

  area_is : handle_area n.user_handle ≡ area
  area_is =
      let e : min user_handle_max (length n.user_handle) ≡ length n.user_handle =
        omega (arith, ok.handle_length) in
      rw (e, take_all user_handle_max n.user_handle ok.handle_length) refl

  length-area : length area ≡ user_handle_max
  length-area = omega (
    arith,
    ok.handle_length,
    length-append n.user_handle (replicate (user_handle_max - length n.user_handle) 0),
    length-replicate {A = ℕ} (user_handle_max - length n.user_handle) 0,
  )

  from_40 : drop 40 (cred_bytes n nonce) ≡ nonce ++ length n.user_handle ∷ (area ++ tail)
  unfolding cred_bytes
  from_40 =
      let e : min user_handle_max (length n.user_handle) ≡ length n.user_handle =
        omega (arith, ok.handle_length) in
      drop_append rp_id_hash_len n.rp_id_hash _ (sym ok.hash_length) ∙ rw (area_is, e) refl

  from_56 : drop 56 (cred_bytes n nonce) ≡ length n.user_handle ∷ (area ++ tail)
  from_56 =
      sym (drop-drop 16 40 (cred_bytes n nonce))
      ∙ ap (drop 16) from_40
      ∙ drop_append cred_id_nonce_len nonce _ (sym ok.nonce_length)

  from_57 : drop 57 (cred_bytes n nonce) ≡ area ++ tail
  from_57 = sym (drop-drop 1 56 (cred_bytes n nonce)) ∙ ap (drop 1) from_56

  from_121 : drop 121 (cred_bytes n nonce) ≡ tail
  from_121 =
      sym (drop-drop 64 57 (cred_bytes n nonce))
      ∙ ap (drop 64) from_57
      ∙ drop_append user_handle_max area tail (sym length-area)

  length-cred_bytes : length (cred_bytes n nonce) ≡ rmem_per_cred_size
  unfolding cred_bytes
  length-cred_bytes =
      let h = handle_area n.user_handle in
      let cap = min user_handle_max (length n.user_handle) in
      omega (
        arith,
        ok.hash_length,
        ok.nonce_length,
        ap length area_is ∙ length-area,
        length-append n.rp_id_hash (nonce ++ cap ∷ (h ++ tail)),
        length-append nonce (cap ∷ (h ++ tail)),
        length-append h tail,
        length-replicate {A = ℕ} 131 0,
      )

  handle_len_is : stored_handle_len (cred_bytes n nonce) ≡ length n.user_handle
  unfolding stored_handle_len
  handle_len_is =
      let e : get_or (cred_bytes n nonce) 56 0 ≡ length n.user_handle =
        get_or-drop 56 0 (cred_bytes n nonce) 0 ∙ ap (λ xs. get_or xs 0 0) from_56 in
      rw (e, length-cred_bytes) (ground (arith, ok.handle_length))

  created_is : stored_created (cred_bytes n nonce) ≡ n.created
  unfolding stored_created
  created_is =
      let at_ =
        λ (k : ℕ). get_or-drop 121 k (cred_bytes n nonce) 0 ∙ ap (λ xs. get_or xs k 0) from_121 in
      rw (length-cred_bytes, at_ 0, at_ 1, at_ 2, at_ 3)
        (of_be32-byte_of n.created ok.created_bound)

  handle_is : take (length n.user_handle) (drop 57 (cred_bytes n nonce)) ≡ n.user_handle
  handle_is =
      ap (take (length n.user_handle)) (from_57 ∙ append_assoc n.user_handle _ tail)
      ∙ take_append (length n.user_handle) n.user_handle _ refl

  hash_is : take rp_id_hash_len (drop 8 (cred_bytes n nonce)) ≡ n.rp_id_hash
  unfolding cred_bytes
  hash_is = take_append rp_id_hash_len n.rp_id_hash _ (sym ok.hash_length)

  nonce_is : take cred_id_nonce_len (drop 40 (cred_bytes n nonce)) ≡ nonce
  nonce_is =
      ap (take cred_id_nonce_len) from_40
      ∙ take_append cred_id_nonce_len nonce _ (sym ok.nonce_length)

  head_is :
      (get_or (cred_bytes n nonce) 5 0 ≡ n.alg)
      × (get_or (cred_bytes n nonce) 6 0 ≡ n.flags)
      × (take 4 (cred_bytes n nonce) ≡ cred_magic)
  unfolding cred_bytes
  head_is = (refl, refl, refl)

  cred_meta-cred_bytes : cred_meta (cred_bytes n nonce) ≡ meta_of n nonce
  unfolding cred_meta
  cred_meta-cred_bytes =
      rw (head_is.0, head_is.1, hash_is, nonce_is, handle_len_is, handle_is, created_is) refl

  -- What read_cred makes of the bytes that write_cred wrote.
  pub parse_cred-cred_bytes : parse_cred (bytes (cred_bytes n nonce)) ≡ cred_ok (meta_of n nonce)
  parse_cred-cred_bytes =
      parse_full (cred_bytes n nonce) (omega (arith, length-cred_bytes)) head_is.2
      ∙ ap cred_ok cred_meta-cred_bytes
