-- ===== src/FidoHid/Ctaphid/Host.antt =====
-- The CTAPHID framing of a message into packets, as the protocol states it: an independent
-- description of what the host sends and of what the device answers.
use nixtropic.Base.{ℕ, zero, suc, ◌+◌, List, [], ◌∷◌, ◌++◌, length, take, drop}
use nixtropic.FidoHid.Ctaphid.{init_data_len, cont_data_len, write_be32, write_be16}
use nixtropic.FidoHid.Ctaphid.Send.{padded}

-- The first packet: channel, command byte, length and the first bytes.
abbrev pub first_packet : ℕ → ℕ → List ℕ → List ℕ
first_packet cid cmd bs =
    padded (write_be32 cid ++ cmd ∷ write_be16 (length bs) ++ take init_data_len bs)

-- A continuation packet: channel, sequence number and the next bytes.
abbrev pub cont_packet : ℕ → ℕ → List ℕ → List ℕ
cont_packet cid seq bs = padded (write_be32 cid ++ seq ∷ take cont_data_len bs)

-- The continuation packets of `bs`; `n` at least the length of `bs` is enough.
unfoldable pub cont_packets : ℕ → ℕ → ℕ → List ℕ → List (List ℕ)
cont_packets zero cid seq bs = []
cont_packets (suc n) cid seq [] = []
cont_packets (suc n) cid seq (b ∷ bs) =
    cont_packet cid seq (b ∷ bs) ∷ cont_packets n cid (seq + 1) (drop cont_data_len (b ∷ bs))

-- All the packets of a message.
unfoldable pub packets : ℕ → ℕ → List ℕ → List (List ℕ)
packets cid cmd bs =
    first_packet cid cmd bs ∷ cont_packets (length bs) cid 0 (drop init_data_len bs)
