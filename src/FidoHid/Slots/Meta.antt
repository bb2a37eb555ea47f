-- ===== src/FidoHid/Slots/Meta.antt =====
-- The metadata of one credential, write_cred and read_cred of firmware/src/fido_hid/slots.c: the
-- 256 bytes of its R-memory slot, and what is read from them. A user handle is `[]` for NULL.
use nixtropic.Base.{
  ℕ, ◌+◌, ◌-◌, List, [], ◌∷◌, ◌++◌, Bool, false, not, ◌&&◌, ltb, leb, if◌then◌else◌, length, get_or,
  take, drop, replicate, byte_of, of_be32, bytes_eq,
}
use Prim.Native.Nat.{min}
use nixtropic.Tropic.Rmem.{Rmem, Reading, bytes, slot_empty, failed}

abbrev pub rp_id_hash_len : ℕ
rp_id_hash_len = 32

abbrev pub cred_id_nonce_len : ℕ
cred_id_nonce_len = 16

abbrev pub user_handle_max : ℕ
user_handle_max = 64

abbrev pub rmem_per_cred_size : ℕ
rmem_per_cred_size = 256

abbrev pub cred_schema_version : ℕ
cred_schema_version = 4

-- "NXCR"
abbrev pub cred_magic : List ℕ
cred_magic = 0x4e ∷ 0x58 ∷ 0x43 ∷ 0x52 ∷ []

pub record SlotMeta : Type 0 where
  pub alg : ℕ
  pub flags : ℕ
  pub rp_id_hash : List ℕ
  pub cred_id_nonce : List ℕ
  pub user_handle_len : ℕ
  pub user_handle : List ℕ
  pub created : ℕ

-- What slots_alloc is asked to store.
pub record NewCred : Type 0 where
  pub alg : ℕ
  pub flags : ℕ
  pub rp_id_hash : List ℕ
  pub user_handle : List ℕ
  pub created : ℕ

abbrev pub be32_store : ℕ → List ℕ
be32_store v = byte_of v 3 ∷ byte_of v 2 ∷ byte_of v 1 ∷ byte_of v 0 ∷ []

-- The user_handle area: the bytes, zeros up to 64.
abbrev pub handle_area : List ℕ → List ℕ
handle_area h =
    let cap = min user_handle_max (length h) in
    take user_handle_max h ++ replicate (user_handle_max - cap) 0

-- The buffer that write_cred fills; the bytes from 125 on stay 0.
unfoldable pub cred_bytes : NewCred → List ℕ → List ℕ
cred_bytes n nonce =
    cred_magic
    ++ cred_schema_version
      ∷ n.alg
      ∷ n.flags
      ∷ 0
      ∷ (n.rp_id_hash
          ++ (nonce
              ++ min user_handle_max (length n.user_handle)
                ∷ (handle_area n.user_handle
                    ++ (be32_store n.created ++ replicate (rmem_per_cred_size - 125) 0))))

-- The user handle that a buffer gives: none if its length is 0, too long, or not all there.
unfoldable pub stored_handle_len : List ℕ → ℕ
stored_handle_len buf =
    let len = get_or buf 56 0 in
    if ltb 56 (length buf)
    then if ltb 0 len && leb len user_handle_max && leb (57 + len) (length buf) then len else 0
    else 0

unfoldable pub stored_created : List ℕ → ℕ
stored_created buf =
    if leb 125 (length buf)
    then of_be32 (get_or buf 121 0) (get_or buf 122 0) (get_or buf 123 0) (get_or buf 124 0)
    else 0

unfoldable pub cred_meta : List ℕ → SlotMeta
unfolding stored_handle_len stored_created
cred_meta buf =
    let len = stored_handle_len buf in
    record {
      alg = get_or buf 5 0;
      flags = get_or buf 6 0;
      rp_id_hash = take rp_id_hash_len (drop 8 buf);
      cred_id_nonce = take cred_id_nonce_len (drop 40 buf);
      user_handle_len = len;
      user_handle = take len (drop 57 buf) ++ replicate (user_handle_max - len) 0;
      created = stored_created buf;
    }

-- The codes of read_cred: 0 with the metadata, -1, -2 and -3.
pub data CredRead : Type 0 where
  cred_ok : SlotMeta → CredRead
  cred_bad_magic cred_failed cred_empty : CredRead

unfoldable pub parse_cred : Reading → CredRead
unfolding cred_meta
parse_cred slot_empty = cred_empty
parse_cred failed = cred_failed
parse_cred (bytes []) = cred_empty
parse_cred (bytes (b ∷ buf)) =
    if ltb (length (b ∷ buf)) (40 + cred_id_nonce_len)
    then cred_failed
    else if not (bytes_eq (take 4 (b ∷ buf)) cred_magic)
    then cred_bad_magic
    else cred_ok (cred_meta (b ∷ buf))

-- SLOTS_RMEM_SLOT_FOR
abbrev pub rmem_slot_for : ℕ → ℕ
rmem_slot_for idx = idx + 1

module _ (m : Rmem) where
  unfoldable pub read_cred : ℕ → m.State → CredRead × m.State
  unfolding parse_cred
  read_cred idx s =
      let (r, s') = m.read (rmem_slot_for idx) rmem_per_cred_size s in (parse_cred r, s')

  -- True for the code 0.
  unfoldable pub write_cred : ℕ → NewCred → List ℕ → m.State → Bool × m.State
  unfolding cred_bytes
  write_cred idx n nonce s =
      let (erased, s1) = m.erase (rmem_slot_for idx) s in
      let (written, s2) = m.write (rmem_slot_for idx) (cred_bytes n nonce) s1 in
      if not erased then (false, s1) else (written, s2)
