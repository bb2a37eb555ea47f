-- ===== src/FidoHid/Ctaphid/Busy.antt =====
-- What the packets that come in while a request runs leave alone.
use Prim.Native.Nat.{bit_and}
use nixtropic.Base.{
  inl, inr, Bool-cases, Bool-cases, ℕ, ◌≡◌, refl, ◌≢◌, ◌∙◌, ap, sym, List, [], ◌∷◌, Bool, true,
  false, arith, not, ◌&&◌, ◌||◌, ltb, ◌==◌, if◌then◌else◌, length, get_or, take, drop, ◌+◌, ◌*◌,
  ◌^◌,
}
use nixtropic.FidoHid.Presence.{is_awaiting}
use nixtropic.FidoHid.Ctaphid.{
  err_invalid_len, Hid, FhState, idle, init_data_len, cid_broadcast, cmd_init, cmd_cancel,
  err_channel_busy, read_be32,
}
use nixtropic.FidoHid.Ctaphid.Send.{
  push_packet, push_to, flush_short, flush_resync, flush_pending, hold_short, send_now, reply_short,
  queue_error, alloc_channel, build_packet,
}
use nixtropic.FidoHid.Ctaphid.Receive.{
  is_assembling, assembles, drop_assembly, init_channel, supersede, abandon, handle_init,
  handle_cancel, handle_init_packet, handle_cont_packet, fido_hid_handle_packet, pump,
}

-- The request that runs, whose channel is `busy_cid`, and its answer as far as it is there.
pub record Owned : Type 0 where
  pub state : FhState
  pub busy_cid : ℕ
  pub req_cmd : ℕ
  pub req_total : ℕ
  pub req_received : ℕ
  pub req_buf : List ℕ
  pub resp_cid : ℕ
  pub resp_cmd : ℕ
  pub resp_total : ℕ
  pub resp_sent : ℕ
  pub resp_seq : ℕ
  pub resp_buf : List ℕ

abbrev pub owned : Hid → Owned
owned h = record {
  state = h.state;
  busy_cid = h.busy_cid;
  req_cmd = h.req_cmd;
  req_total = h.req_total;
  req_received = h.req_received;
  req_buf = h.req_buf;
  resp_cid = h.resp_cid;
  resp_cmd = h.resp_cmd;
  resp_total = h.resp_total;
  resp_sent = h.resp_sent;
  resp_seq = h.resp_seq;
  resp_buf = h.resp_buf;
}

-- A request runs, and none is being assembled.
abbrev pub IsBusy : Hid → Type 0
IsBusy h = (h.state ≡ idle) × (h.busy_cid ≢ 0)

-- Each branch of a test leaves it alone.
if-owned :
    (b : Bool) (x y : Hid) (o : Owned) → owned x ≡ o → owned y ≡ o → owned (if b then x else y) ≡ o
if-owned true x y o ex ey = ex
if-owned false x y o ex ey = ey

taken-owned :
    (b : Bool) (x y : Hid) (o : Owned) → b ≡ true → owned x ≡ o → owned (if b then x else y) ≡ o
taken-owned true x y o on ex = ex
taken-owned false x y o on ex = ground (arith, on)

refused_while_busy :
    (h : Hid) → h.busy_cid ≢ 0 → (is_awaiting h.presence || not (h.busy_cid == 0)) ≡ true
refused_while_busy h busy =
    let running : (h.busy_cid == 0) ≡ false = ground arith in
    elim (Bool-cases (is_awaiting h.presence)) [
      | inl on ↦ rw on refl
      | inr off ↦ rw (off, running) refl
    ]

push_to-owned : (e : List Bool) (pkt : List ℕ) (h : Hid) → owned ((push_to e pkt h).1) ≡ owned h
unfolding push_to
push_to-owned [] pkt h = refl
push_to-owned (true ∷ rest) pkt h = refl
push_to-owned (false ∷ rest) pkt h = refl

push_packet-owned : (pkt : List ℕ) (h : Hid) → owned ((push_packet pkt h).1) ≡ owned h
unfolding push_packet
push_packet-owned pkt h = push_to-owned h.endpoint pkt h

flush_short-owned : (h : Hid) → owned (flush_short h) ≡ owned h
unfolding flush_short
flush_short-owned h =
    let p = push_packet-owned h.short_pkt h in
    if-owned (not h.short_pending) h _ (owned h) refl
      (if-owned ((push_packet h.short_pkt h).0) _ ((push_packet h.short_pkt h).1) (owned h) p p)

flush_resync-owned : (h : Hid) → owned (flush_resync h) ≡ owned h
unfolding flush_resync
flush_resync-owned h =
    let p = push_packet-owned h.resync_pkt h in
    if-owned (h.short_pending || not h.resync_pending || h.abandoned) h _ (owned h) refl
      (if-owned ((push_packet h.resync_pkt h).0) _ ((push_packet h.resync_pkt h).1) (owned h) p p)

flush_pending-owned : (h : Hid) → owned ((flush_pending h).1) ≡ owned h
unfolding flush_pending
flush_pending-owned h = flush_resync-owned (flush_short h) ∙ flush_short-owned h

hold_short-owned : (pkt : List ℕ) (h : Hid) → owned (hold_short pkt h) ≡ owned h
unfolding hold_short
hold_short-owned pkt h = if-owned h.short_pending h _ (owned h) refl refl

send_now-owned :
    (cid cmd : ℕ) (payload : List ℕ) (h : Hid) → owned (send_now cid cmd payload h) ≡ owned h
unfolding send_now
send_now-owned cid cmd payload h =
    let pkt = build_packet cid cmd payload in
    let h1 = (flush_pending h).1 in
    let h2 = (push_packet pkt h1).1 in
    let f = flush_pending-owned h in
    let p = push_packet-owned pkt h1 ∙ f in
    if-owned (ltb init_data_len (length payload)) h _ (owned h) refl (
      if-owned ((flush_pending h).0) _ (hold_short pkt h1) (owned h)
        (if-owned ((push_packet pkt h1).0) h2 (hold_short pkt h2) (owned h) p
          (hold_short-owned pkt h2 ∙ p))
        (hold_short-owned pkt h1 ∙ f))

reply_short-owned :
    (cid cmd : ℕ) (payload : List ℕ) (h : Hid)
    → h.busy_cid ≢ 0
    → owned (reply_short cid cmd payload h) ≡ owned h
unfolding reply_short
reply_short-owned cid cmd payload h busy =
    let running : (h.busy_cid == 0) ≡ false = ground arith in
    let sent = send_now-owned cid cmd payload h in
    if-owned (h.abandoned && cid == h.busy_cid) h _ (owned h) refl (rw running sent)

queue_error-owned :
    (cid err : ℕ) (h : Hid) → h.busy_cid ≢ 0 → owned (queue_error cid err h) ≡ owned h
unfolding queue_error
queue_error-owned cid err h busy = reply_short-owned cid _ (err ∷ []) h busy

drop_assembly-idle : (cid : ℕ) (h : Hid) → h.state ≡ idle → drop_assembly cid h ≡ h
unfolding drop_assembly assembles is_assembling
drop_assembly-idle cid h off = rw off refl

init_channel-owned : (cid : ℕ) (h : Hid) → h.state ≡ idle → owned ((init_channel cid h).1) ≡ owned h
unfolding init_channel alloc_channel
init_channel-owned cid h off = elim (Bool-cases (cid == cid_broadcast)) [
  | inl all ↦ rw all refl
  | inr one ↦ rw one (ap owned (drop_assembly-idle cid h off))
]

handle_init-owned :
    (cid : ℕ) (payload : List ℕ) (h : Hid) → IsBusy h → owned (handle_init cid payload h) ≡ owned h
unfolding handle_init supersede abandon
handle_init-owned cid payload h (off, busy) =
    let h1 = (init_channel cid h).1 in
    let c = init_channel-owned cid h off in
    let still : h1.busy_cid ≢ 0 = λ e. busy (sym (ap (λ (o : Owned). o.busy_cid) c) ∙ e) in
    if-owned (not (length payload == 8)) _ _ (owned h) (queue_error-owned cid _ h busy) (
      if-owned (cid == cid_broadcast) _ _ (owned h) (reply_short-owned cid _ _ h1 still ∙ c)
        (if-owned (cid == h1.busy_cid) _ _ (owned h) c (reply_short-owned cid _ _ _ still ∙ c)))

handle_cancel-owned : (cid : ℕ) (h : Hid) → h.state ≡ idle → owned (handle_cancel cid h) ≡ owned h
unfolding handle_cancel
handle_cancel-owned cid h off = ap owned (drop_assembly-idle cid _ off)

handle_init_packet-owned :
    (cid : ℕ) (pkt : List ℕ) (h : Hid) → IsBusy h → owned (handle_init_packet cid pkt h) ≡ owned h
unfolding handle_init_packet
handle_init_packet-owned cid pkt h (off, busy) =
    let cmd = bit_and (get_or pkt 4 0) 0x7f in
    let refused = queue_error-owned cid err_channel_busy h busy in
    let init = queue_error-owned cid err_invalid_len h busy in
    let start =
      handle_init-owned cid (take (get_or pkt 5 0 * 2 ^ 8 + get_or pkt 6 0) (drop 7 pkt)) h
        (off, busy) in
    let same = drop_assembly-idle cid h off in
    if-owned (cid == cid_broadcast && not (cmd == cmd_init)) _ _ (owned h)
      (queue_error-owned cid _ h busy)
      (if-owned (cmd == cmd_init) _ _ (owned h)
        (if-owned (ltb init_data_len (get_or pkt 5 0 * 2 ^ 8 + get_or pkt 6 0)) _ _ (owned h) init
          (rw same start))
        (if-owned (cmd == cmd_cancel) _ _ (owned h) (handle_cancel-owned cid h off)
          (taken-owned _ _ _ (owned h) (refused_while_busy h busy) refused)))

handle_cont_packet-owned :
    (cid : ℕ) (pkt : List ℕ) (h : Hid) → IsBusy h → owned (handle_cont_packet cid pkt h) ≡ owned h
unfolding handle_cont_packet assembles is_assembling
handle_cont_packet-owned cid pkt h (off, busy) = rw off refl

handle_packet-owned :
    (pkt : List ℕ) (h : Hid) → IsBusy h → owned (fido_hid_handle_packet pkt h) ≡ owned h
unfolding fido_hid_handle_packet
handle_packet-owned pkt h (off, busy) =
    let cid = read_be32 pkt in
    if-owned _ h _ (owned h) refl (
      if-owned (cid == 0) _ _ (owned h) (queue_error-owned cid _ h busy) (
        if-owned _ _ _ (owned h) (handle_init_packet-owned cid pkt h (off, busy))
          (handle_cont_packet-owned cid pkt h (off, busy))))

-- While a request runs, no sequence of packets, whatever their channels, changes the request,
-- its channel or the answer in the response buffer.
pub pump-owned : (pkts : List (List ℕ)) (h : Hid) → IsBusy h → owned (pump pkts h) ≡ owned h
unfolding pump
pump-owned [] h busy = refl
pump-owned (pkt ∷ pkts) h (off, busy) =
    let h1 = fido_hid_handle_packet pkt h in
    let e = handle_packet-owned pkt h (off, busy) in
    let off1 = ap (λ (o : Owned). o.state) e ∙ off in
    let busy1 : h1.busy_cid ≢ 0 = λ z. busy (sym (ap (λ (o : Owned). o.busy_cid) e) ∙ z) in
    pump-owned pkts h1 (off1, busy1) ∙ e
