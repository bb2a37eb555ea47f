-- ===== src/FidoHid/Ctaphid/Send.antt =====
-- The outgoing half of ctaphid.c: one-packet answers, the queued response and its packets.
use Prim.Native.Nat.{bit_and, bit_or, min}
use nixtropic.Base.{
  ℕ, zero, suc, ◌+◌, ◌-◌, ◌%◌, List, [], ◌∷◌, ◌++◌, Bool, true, false, not, ◌&&◌, ◌||◌, ltb, ◌==◌,
  if◌then◌else◌, length, take, drop, replicate, u32_mod,
}
use nixtropic.FidoHid.Ctaphid.{
  Hid, report_len, init_data_len, cont_data_len, cid_broadcast, init_flag, cmd_error, max_payload,
  write_be32, write_be16, overwrite,
}

-- A report: the bytes given, and zeros up to its length.
abbrev pub padded : List ℕ → List ℕ
padded bs = bs ++ replicate (report_len - length bs) 0

unfoldable pub build_packet : ℕ → ℕ → List ℕ → List ℕ
build_packet cid cmd payload =
    padded (write_be32 cid ++ cmd ∷ write_be16 (length payload) ++ payload)

unfoldable pub push_to : List Bool → List ℕ → Hid → Bool × Hid
push_to [] pkt h = (false, h)
push_to (true ∷ rest) pkt h = (true, record h { endpoint = rest; sent = h.sent ++ pkt ∷ [] })
push_to (false ∷ rest) pkt h = (false, record h { endpoint = rest })

-- True if USB took the packet.
unfoldable pub push_packet : List ℕ → Hid → Bool × Hid
push_packet pkt h = push_to h.endpoint pkt h

-- The short slot first.
unfoldable pub flush_short : Hid → Hid
flush_short h =
    let (ok, h') = push_packet h.short_pkt h in
    if not h.short_pending then h else if ok then record h' { short_pending = false } else h'

unfoldable pub flush_resync : Hid → Hid
flush_resync h =
    let (ok, h') = push_packet h.resync_pkt h in
    if h.short_pending || not h.resync_pending || h.abandoned
    then h
    else if ok
    then record h' { resync_pending = false }
    else h'

-- True if the short slot is empty.
unfoldable pub flush_pending : Hid → Bool × Hid
flush_pending h = let h' = flush_resync (flush_short h) in (not h'.short_pending, h')

-- The packet goes to the short slot if that is free, and is dropped if not.
unfoldable pub hold_short : List ℕ → Hid → Hid
hold_short pkt h = if h.short_pending then h else record h { short_pkt = pkt; short_pending = true }

unfoldable pub send_now : ℕ → ℕ → List ℕ → Hid → Hid
send_now cid cmd payload h =
    let pkt = build_packet cid cmd payload in
    let (free, h1) = flush_pending h in
    let (ok, h2) = push_packet pkt h1 in
    if ltb init_data_len (length payload)
    then h
    else if free
    then (if ok then h2 else hold_short pkt h2)
    else hold_short pkt h1

unfoldable pub queue_response : ℕ → ℕ → List ℕ → Hid → Hid
queue_response cid cmd payload h =
    let bs = take max_payload payload in
    record h {
      resp_buf = overwrite h.resp_buf 0 bs;
      resp_cid = cid;
      resp_cmd = cmd;
      resp_total = length bs;
      resp_sent = 0;
      resp_seq = 0;
      resp_pending = true;
    }

unfoldable pub reply_short : ℕ → ℕ → List ℕ → Hid → Hid
reply_short cid cmd payload h =
    if h.abandoned && cid == h.busy_cid
    then h
    else if not (h.busy_cid == 0) || h.resp_pending
    then send_now cid cmd payload h
    else queue_response cid cmd payload h

unfoldable pub queue_error : ℕ → ℕ → Hid → Hid
queue_error cid err h = reply_short cid (bit_or init_flag cmd_error) (err ∷ []) h

-- The next packet of the response, and what `s_resp_seq` becomes; the first one carries the
-- command and the length.
unfoldable pub next_packet : Hid → List ℕ
next_packet h =
    if h.resp_sent == 0
    then padded (
        write_be32 h.resp_cid
        ++ h.resp_cmd ∷ write_be16 h.resp_total
        ++ take (min (h.resp_total - h.resp_sent) init_data_len) (drop h.resp_sent h.resp_buf))
    else padded (
        write_be32 h.resp_cid
        ++ bit_and h.resp_seq 0x7f
          ∷ take (min (h.resp_total - h.resp_sent) cont_data_len) (drop h.resp_sent h.resp_buf))

unfoldable pub next_chunk : Hid → ℕ
next_chunk h =
    min (h.resp_total - h.resp_sent) (if h.resp_sent == 0 then init_data_len else cont_data_len)

-- A refused push leaves the response as it was: the code rolls its counters back.
unfoldable pub emit_response_packet : Hid → Bool × Hid
emit_response_packet h =
    let (ok, h') = push_packet (next_packet h) h in
    let sent = h.resp_sent + next_chunk h in
    if not h.resp_pending then (false, h) else if not ok then (false, h') else (
      true,
      record h' {
        resp_sent = sent;
        resp_seq = if h.resp_sent == 0 then h.resp_seq else (h.resp_seq + 1) % 256;
        resp_pending = ltb sent h.resp_total;
      },
    )

-- `while (emit_response_packet())`. Each round that goes on uses up an answer of the endpoint.
unfoldable pub emit_all : ℕ → Hid → Hid
emit_all zero h = h
emit_all (suc fuel) h =
    let (ok, h') = emit_response_packet h in let rest = emit_all fuel h' in if ok then rest else h'

unfoldable pub alloc_channel : Hid → ℕ × Hid
alloc_channel h =
    let next = (h.next_cid + 1) % u32_mod in
    (h.next_cid, record h { next_cid = if next == 0 || next == cid_broadcast then 1 else next })
