-- ===== src/FidoHid/Cose/Tests.antt =====
-- cose.c at concrete inputs.
use nixtropic.Base.{
  zero, suc, ◌<◌, arith, AreBytes, none, ℕ, ◌≤◌, List, [], ◌∷◌, ◌++◌, ◌≡◌, refl, some, length, take,
  drop, replicate,
}
use nixtropic.FidoHid.Cose.{cose_es256_der, es256_der_max}
use nixtropic.FidoHid.Cose.Der.Content.{be_value, is_shortest}
use nixtropic.FidoHid.Cose.Der.{read_int, read_signature, read_signature-cose_es256_der}

-- r needs a leading zero, s is 5.
abbrev sample : List ℕ
sample = replicate 32 200 ++ (replicate 31 0 ++ 5 ∷ [])

repeated-AreBytes : (n b : ℕ) (xs : List ℕ) → b < 256 → AreBytes xs → AreBytes (replicate n b ++ xs)
repeated-AreBytes zero b xs lt h = h
repeated-AreBytes (suc n) b xs lt h = (lt, repeated-AreBytes n b xs lt h)

sample-AreBytes : AreBytes sample
sample-AreBytes =
    repeated-AreBytes 32 200 (replicate 31 0 ++ 5 ∷ []) (omega arith)
      (repeated-AreBytes 31 0 (5 ∷ []) (omega arith) (omega arith, tt))

-- A reader of DER refuses 200 without the leading zero, and 5 with one.
negative_refused : read_int (0x02 ∷ 1 ∷ 200 ∷ []) ≡ none
unfolding read_int is_shortest
negative_refused = refl

padded_refused : read_int (0x02 ∷ 2 ∷ 0 ∷ 5 ∷ []) ≡ none
unfolding read_int is_shortest
padded_refused = refl

read_signature-cose_es256_der_example :
    (out : List ℕ) × (cose_es256_der sample es256_der_max ≡ some out)
    × (length out ≤ es256_der_max)
    × (read_signature out ≡ some (be_value 0 (take 32 sample), be_value 0 (drop 32 sample)))
read_signature-cose_es256_der_example = read_signature-cose_es256_der sample sample-AreBytes refl
