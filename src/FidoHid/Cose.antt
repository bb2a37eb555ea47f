-- ===== src/FidoHid/Cose.antt =====
-- firmware/src/fido_hid/cose.c: COSE public keys, and ES256 signatures, the chip's 64 bytes
-- r || s, as ASN.1 DER. A COSE algorithm is -8, -7 or another number; NULL pointers are not modelled.
pub mod Der
mod Tests
use Prim.Native.Nat.{bit_and}
use nixtropic.FidoHid.Cbor.Writer.{
  Writer, write_map_header, write_uint, write_negint, negsuc, write_byte_string,
}
use nixtropic.Base.{
  ◌||◌, ℕ, zero, suc, ◌+◌, ◌%◌, List, [], ◌∷◌, ◌++◌, Bool, true, false, not, Option, none, some,
  ltb, ◌==◌, if◌then◌else◌, length, get_or, take, drop,
}

abbrev pub es256_der_max : ℕ
es256_der_max = 72

-- `while (i < 31u && v[i] == 0u) ++i;`, from where at most n bytes may go.
strip_zeros : ℕ → List ℕ → List ℕ
strip_zeros zero v = v
strip_zeros (suc n) [] = []
strip_zeros (suc n) (b ∷ v) = let rest = strip_zeros n v in if b == 0 then rest else b ∷ v

-- The bytes after the tag and the length.
pub der_content : List ℕ → List ℕ
unfolding strip_zeros
der_content v =
    let d = strip_zeros 31 v in if not (bit_and (get_or d 0 0) 0x80 == 0) then 0 ∷ d else d

unfoldable pub der_int : List ℕ → List ℕ
unfolding der_content
der_int v = 0x02 ∷ length (der_content v) % 256 ∷ der_content v

-- `none` for -1.
unfoldable pub cose_es256_der : List ℕ → ℕ → Option (List ℕ)
unfolding der_int
cose_es256_der rs out_max =
    let body = der_int (take 32 rs) ++ der_int (drop 32 rs) in
    if ltb out_max (length body + 2) then none else some (0x30 ∷ length body % 256 ∷ body)

pub data CoseAlg : Type 0 where
  eddsa es256 other_alg : CoseAlg

cose_pub_len : CoseAlg → ℕ
cose_pub_len eddsa = 32
cose_pub_len es256 = 64
cose_pub_len other_alg = 0

-- The codes of the writes are not looked at: the writer keeps its error.
write_pair : (Writer → Bool × Writer) → (Writer → Bool × Writer) → Writer → Writer
write_pair a b w = (b (a w).1).1

write_okp : List ℕ → Writer → Writer
unfolding write_pair
write_okp key w =
    let w1 = (write_map_header 4 w).1 in
    let w2 = write_pair (write_uint 1) (write_uint 1) w1 in
    let w3 = write_pair (write_uint 3) (write_negint (negsuc 7)) w2 in
    let w4 = write_pair (write_negint (negsuc 0)) (write_uint 6) w3 in
    write_pair (write_negint (negsuc 1)) (write_byte_string (take 32 key)) w4

write_ec2 : List ℕ → Writer → Writer
unfolding write_pair
write_ec2 key w =
    let w1 = (write_map_header 5 w).1 in
    let w2 = write_pair (write_uint 1) (write_uint 2) w1 in
    let w3 = write_pair (write_uint 3) (write_negint (negsuc 6)) w2 in
    let w4 = write_pair (write_negint (negsuc 0)) (write_uint 1) w3 in
    let w5 = write_pair (write_negint (negsuc 1)) (write_byte_string (take 32 key)) w4 in
    write_pair (write_negint (negsuc 2)) (write_byte_string (take 32 (drop 32 key))) w5

write_key : CoseAlg → List ℕ → Writer → Writer
unfolding write_okp write_ec2
write_key eddsa key w = write_okp key w
write_key _ key w = write_ec2 key w

-- True for the code 0.
unfoldable pub cose_write_pubkey : CoseAlg → List ℕ → Writer → Bool × Writer
unfolding cose_pub_len write_key
cose_write_pubkey alg key w =
    let w' = write_key alg key w in
    if length key == 0 || not (length key == cose_pub_len alg) then (false, w) else (not w'.err, w')
