-- ===== src/FidoHid/Ctaphid/Receive.antt =====
-- The incoming half of ctaphid.c: packets, the assembly of a request, and the running of it.
use Prim.Native.Nat.{bit_and, bit_or, min}
use nixtropic.Base.{
  ℕ, ◌+◌, ◌-◌, ◌*◌, ◌%◌, ◌^◌, List, [], ◌∷◌, ◌++◌, Bool, true, false, not, ◌&&◌, ◌||◌, leb, ltb,
  ◌==◌, Option, none, some, if◌then◌else◌, length, get_or, take, drop, replicate, u32_mod,
}
use nixtropic.FidoHid.Presence.{is_awaiting, cancel_wait, clear_cancel}
use nixtropic.FidoHid.Ctaphid.{
  Hid, FhState, idle, assembling, report_len, init_data_len, cont_data_len, cid_broadcast,
  init_flag, cmd_init, cmd_ping, cmd_msg, cmd_cbor, cmd_cancel, cmd_keepalive, err_invalid_cmd,
  err_invalid_len, err_invalid_seq, err_channel_busy, err_invalid_channel, err_other, max_payload,
  write_be32, read_be32, overwrite, reset_assembly, device_info,
}
use nixtropic.FidoHid.Ctaphid.Send.{
  build_packet, push_packet, flush_pending, queue_response, reply_short, queue_error, emit_all,
  alloc_channel,
}

-- s_state == FH_STATE_ASSEMBLING && cid == s_cur_cid
unfoldable pub is_assembling : FhState → Bool
is_assembling assembling = true
is_assembling idle = false

unfoldable pub assembles : ℕ → Hid → Bool
unfolding is_assembling
assembles cid h = is_assembling h.state && h.cur_cid == cid

unfoldable pub drop_assembly : ℕ → Hid → Hid
drop_assembly cid h = if assembles cid h then reset_assembly h else h

-- The channel of the answer to an INIT: a new one for the broadcast channel, else its own.
unfoldable pub init_channel : ℕ → Hid → ℕ × Hid
init_channel req_cid h =
    if req_cid == cid_broadcast then alloc_channel h else (req_cid, drop_assembly req_cid h)

-- An INIT takes the place of an unsent answer to an older one on its channel.
unfoldable pub supersede : ℕ → Hid → Hid
supersede req_cid h = record h {
  resync_pending = h.resync_pending && not (read_be32 h.resync_pkt == req_cid);
  short_pending =
      h.short_pending
      && not
          (read_be32 h.short_pkt == req_cid && get_or h.short_pkt 4 0 == bit_or init_flag cmd_init);
}

-- The request of this channel is left by its host; the answer waits until it is over.
unfoldable pub abandon : ℕ → List ℕ → Hid → Hid
abandon req_cid resp h = record h {
  abandoned = true;
  presence = if h.running then cancel_wait h.presence else h.presence;
  resync_pkt = build_packet req_cid (bit_or init_flag cmd_init) resp;
  resync_pending = true;
}

unfoldable pub handle_init : ℕ → List ℕ → Hid → Hid
handle_init req_cid payload h =
    let (out_cid, h1) = init_channel req_cid h in
    let resp = take 8 payload ++ write_be32 out_cid ++ device_info in
    let h2 = supersede req_cid h1 in
    let h3 = record h2 { resp_pending = h2.resp_pending && not (h2.resp_cid == req_cid) } in
    if not (length payload == 8)
    then queue_error req_cid err_invalid_len h
    else if req_cid == cid_broadcast
    then reply_short req_cid (bit_or init_flag cmd_init) resp h1
    else if req_cid == h2.busy_cid
    then abandon req_cid resp h2
    else reply_short req_cid (bit_or init_flag cmd_init) resp h3

unfoldable pub complete_request : ℕ → Hid → Hid
complete_request cid h =
    let h1 = record h { state = idle; cur_cid = 0 } in
    if not (h.busy_cid == 0)
    then queue_error cid err_channel_busy h1
    else if is_awaiting h.presence
    then reset_assembly (queue_error cid err_channel_busy h1)
    else record h1 { busy_cid = cid }

-- CANCEL is never answered.
unfoldable pub handle_cancel : ℕ → Hid → Hid
handle_cancel cid h =
    let h1 = record h {
      presence = if cid == h.busy_cid && h.running then cancel_wait h.presence else h.presence;
    } in
    drop_assembly cid h1

-- A new request: its command, its length, and the bytes of its first packet.
unfoldable pub start_request : ℕ → ℕ → ℕ → List ℕ → Hid → Hid
start_request cid cmd bcnt bytes h =
    let avail = min bcnt init_data_len in
    let h1 = record h {
      cur_cid = cid;
      req_cmd = cmd;
      req_total = bcnt;
      req_received = avail;
      next_seq = 0;
      req_buf = overwrite (replicate max_payload 0) 0 (take avail bytes);
    } in
    if leb bcnt avail then complete_request cid h1 else record h1 { state = assembling }

unfoldable pub handle_init_packet : ℕ → List ℕ → Hid → Hid
handle_init_packet cid pkt h =
    let cmd = bit_and (get_or pkt 4 0) 0x7f in
    let bcnt = get_or pkt 5 0 * 2 ^ 8 + get_or pkt 6 0 in
    if cid == cid_broadcast && not (cmd == cmd_init)
    then queue_error cid err_invalid_channel h
    else if cmd == cmd_init
    then if ltb init_data_len bcnt
      then queue_error cid err_invalid_len h
      else handle_init cid (take bcnt (drop 7 pkt)) (drop_assembly cid h)
    else if cmd == cmd_cancel
    then handle_cancel cid h
    else if is_awaiting h.presence || not (h.busy_cid == 0)
    then queue_error cid err_channel_busy h
    else if is_assembling h.state && not (h.cur_cid == cid)
    then queue_error cid err_channel_busy h
    else if ltb max_payload bcnt
    then queue_error cid err_invalid_len (reset_assembly h)
    else start_request cid cmd bcnt (drop 7 pkt) h

-- The bytes of a continuation packet that is next in sequence.
unfoldable pub continue_request : ℕ → List ℕ → Hid → Hid
continue_request cid bytes h =
    let chunk = min (h.req_total - h.req_received) cont_data_len in
    let h1 = record h {
      next_seq = (h.next_seq + 1) % 256;
      req_buf = overwrite h.req_buf h.req_received (take chunk bytes);
      req_received = h.req_received + chunk;
    } in
    if leb h.req_total (h.req_received + chunk) then complete_request cid h1 else h1

unfoldable pub handle_cont_packet : ℕ → List ℕ → Hid → Hid
handle_cont_packet cid pkt h =
    if not (assembles cid h)
    then h
    else if not (bit_and (get_or pkt 4 0) 0x7f == h.next_seq)
    then queue_error cid err_invalid_seq (reset_assembly h)
    else continue_request cid (drop 5 pkt) h

unfoldable pub fido_hid_handle_packet : List ℕ → Hid → Hid
fido_hid_handle_packet pkt h =
    let cid = read_be32 pkt in
    if ltb (length pkt) report_len
    then h
    else if cid == 0
    then queue_error cid err_invalid_channel h
    else if not (bit_and (get_or pkt 4 0) init_flag == 0)
    then handle_init_packet cid pkt h
    else handle_cont_packet cid pkt h

-- The packets of one USB pump, in order.
unfoldable pub pump : List (List ℕ) → Hid → Hid
pump [] h = h
pump (pkt ∷ pkts) h = pump pkts (fido_hid_handle_packet pkt h)

abbrev pub ka_interval_ms : ℕ
ka_interval_ms = 50

-- One KEEPALIVE, if it is due at `now`.
unfoldable pub keepalive : ℕ → Hid → Hid
keepalive now h =
    let status = if is_awaiting h.presence then 2 else 1 in
    let (ok, h') =
      push_packet (build_packet h.busy_cid (bit_or init_flag cmd_keepalive) (status ∷ [])) h in
    if status == h.ka_status && ltb ((now + u32_mod - h.ka_last) % u32_mod) ka_interval_ms
    then h
    else if ok
    then record h' { ka_status = status; ka_last = now }
    else h'

-- `pkts` is what the pump delivers. The guard on `in_progress` keeps a callback out; none calls it.
unfoldable pub fido_hid_progress : List (List ℕ) → ℕ → Hid → Hid
fido_hid_progress pkts now h =
    let (free, h1) = flush_pending (pump pkts (record h { in_progress = true })) in
    let h2 = if free && not h1.abandoned then keepalive now h1 else h1 in
    if not h.running || h.in_progress then h else record h2 { in_progress = false }

-- The CTAP2 command dispatcher, with the progress points on its way: the response, or `none` for
-- a negative return.
module _ (cbor_dispatch : List ℕ → Hid → Option (List ℕ) × Hid) where
  unfoldable pub answer_cbor : ℕ → Option (List ℕ) × Hid → Hid
  answer_cbor cid (none, h) = queue_error cid err_other h
  answer_cbor cid (some resp, h) = queue_response cid (bit_or init_flag cmd_cbor) resp h

  unfoldable pub dispatch_request : ℕ → Hid → Hid
  dispatch_request cid h =
      let payload = take h.req_received h.req_buf in
      if h.req_cmd == cmd_init
      then handle_init cid payload h
      else if h.req_cmd == cmd_ping
      then queue_response cid (bit_or init_flag cmd_ping) payload h
      else if h.req_cmd == cmd_msg
      then queue_response cid (bit_or init_flag cmd_msg) (0x6e ∷ 0x00 ∷ []) h
      else if h.req_cmd == cmd_cbor
      then answer_cbor cid (cbor_dispatch payload h)
      else queue_error cid err_invalid_cmd h

  -- The running of a complete request, before its answer goes out.
  unfoldable pub run_request : ℕ → Hid → Hid
  run_request now h =
      let h1 = record h {
        ka_status = 0;
        ka_last = now;
        presence = clear_cancel h.presence;
        running = true;
      } in
      let h2 = if h.abandoned then h1 else dispatch_request h.busy_cid h1 in
      let h3 = record h2 {
        running = false;
        resp_pending = h2.resp_pending && not h2.abandoned;
        presence = clear_cancel h2.presence;
      } in
      record (reset_assembly h3) { busy_cid = 0; abandoned = false }

  unfoldable pub fido_hid_task : ℕ → Hid → Hid
  fido_hid_task now h =
      let h1 = if not (h.busy_cid == 0) && not h.resp_pending then run_request now h else h in
      let (free, h2) = flush_pending h1 in
      if free && not h2.resync_pending then emit_all (length h2.endpoint + 1) h2 else h2
