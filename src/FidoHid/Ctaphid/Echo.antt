-- ===== src/FidoHid/Ctaphid/Echo.antt =====
-- A request from its first packet to the last one of its answer.
use nixtropic.Base.{
  length-replicate, not, ◌==◌, ℕ, ◌+◌, ◌-◌, ◌≤◌, ◌<◌, ◌≡◌, refl, ◌∙◌, ap, List, ◌++◌, Bool, true,
  false, Option, arith, length, drop, replicate, take_append, take_all, length-append, inl,
}
use nixtropic.FidoHid.Presence.{clear_cancel}
use nixtropic.FidoHid.Ctaphid.{
  cid_broadcast, Hid, idle, max_payload, cmd_ping, overwrite, reset_assembly,
}
use nixtropic.FidoHid.Ctaphid.Send.{
  queue_response, flush_pending, flush_short, flush_resync, emit_all,
}
use nixtropic.FidoHid.Ctaphid.Receive.{run_request, dispatch_request, fido_hid_task, pump}
use nixtropic.FidoHid.Ctaphid.Host.{packets}
use nixtropic.FidoHid.Ctaphid.Assembly.{complete}
use nixtropic.FidoHid.Ctaphid.Request.{IsRequest, IsReady, pump-packets}
use nixtropic.FidoHid.Ctaphid.Response.{IsSound, unsent}
use nixtropic.FidoHid.Ctaphid.Emission.{emit_all-Sends}

-- A device with nothing to send and nothing left over, and its response buffer.
abbrev IsQuiet : Hid → Type 0
IsQuiet h =
    (h.resp_pending ≡ false)
    × (h.short_pending ≡ false)
    × (h.resync_pending ≡ false)
    × (h.abandoned ≡ false)
    × (length h.resp_buf ≡ max_payload)

-- What running the PING leaves.
abbrev answered : ℕ → ℕ → List ℕ → Hid → Hid
answered now cid bs h = record h {
  state = idle;
  cur_cid = 0;
  req_cmd = 0;
  req_total = 0;
  req_received = 0;
  next_seq = 0;
  req_buf = replicate max_payload 0;
  resp_buf = bs ++ drop (length bs) h.resp_buf;
  resp_cid = cid;
  resp_cmd = 0x81;
  resp_total = length bs;
  resp_sent = 0;
  resp_seq = 0;
  resp_pending = true;
  busy_cid = 0;
  running = false;
  abandoned = false;
  ka_status = 0;
  ka_last = now;
  presence = clear_cancel (clear_cancel h.presence);
}

flush_short-off : (h : Hid) → h.short_pending ≡ false → flush_short h ≡ h
unfolding flush_short
flush_short-off h off = rw off refl

flush_resync-off :
    (h : Hid) → h.short_pending ≡ false → h.resync_pending ≡ false → flush_resync h ≡ h
unfolding flush_resync
flush_resync-off h none_short off = rw (none_short, off) refl

flush_pending-off :
    (h : Hid) → h.short_pending ≡ false → h.resync_pending ≡ false → flush_pending h ≡ (true, h)
unfolding flush_pending
flush_pending-off h none_short off =
    rw (flush_short-off h none_short, flush_resync-off h none_short off)
      (ap (λ b. (not b, h)) none_short)

answered-unsent :
    (now cid : ℕ) (bs : List ℕ) (h : Hid) → unsent (answered now cid bs h) ≡ packets cid 0x81 bs
unfolding unsent
answered-unsent now cid bs h =
    rw (take_append (length bs) bs (drop (length bs) h.resp_buf) refl) refl

answered-IsSound :
    (now cid : ℕ) (bs : List ℕ) (h : Hid)
    → length bs ≤ max_payload
    → IsSound (answered now cid bs h)
answered-IsSound now cid bs h fit =
    (fit, omega (arith, length-append bs (drop (length bs) h.resp_buf)), λ on. inl (refl, refl))

module _ (cbor_dispatch : List ℕ → Hid → Option (List ℕ) × Hid) where
  run_request-ping :
      (now cid seq : ℕ) (bs : List ℕ) (h : Hid)
      → length bs ≤ max_payload
      → IsQuiet h
      → run_request cbor_dispatch now (complete cid cmd_ping seq bs h) ≡ answered now cid bs h
  unfolding run_request dispatch_request queue_response overwrite reset_assembly
  run_request-ping now cid seq bs h fit (quiet, short, resync, here, buf) =
      let zeros : List ℕ = replicate (max_payload - length bs) 0 in
      let at_start : 0 + length bs ≡ length bs = omega arith in
      rw (here, take_append (length bs) bs zeros refl, take_all max_payload bs fit)
        (rw at_start refl)

  fido_hid_task-run :
      (now : ℕ) (h h1 : Hid)
      → (h.busy_cid == 0) ≡ false
      → h.resp_pending ≡ false
      → run_request cbor_dispatch now h ≡ h1
      → h1.short_pending ≡ false
      → h1.resync_pending ≡ false
      → fido_hid_task cbor_dispatch now h ≡ emit_all (length h1.endpoint + 1) h1
  unfolding fido_hid_task
  fido_hid_task-run now h h1 busy quiet run short resync =
      rw (run, busy, quiet, flush_pending-off h1 short resync, resync) refl

  -- A PING from a host's packets to the packets of its answer: a device with nothing under way and
  -- nothing to send, whose endpoint takes the packets, sends the payload back in order, whole and
  -- on its channel, and nothing else, and is then done with it.
  pub ping_echo :
      (now n cid : ℕ) (bs : List ℕ) (h : Hid)
      → 0 < cid
      → cid < cid_broadcast
      → length bs ≤ max_payload
      → IsReady h
      → IsQuiet h
      → h.endpoint ≡ replicate n true
      → length (packets cid 0x81 bs) ≤ n
      → ((fido_hid_task cbor_dispatch now (pump (packets cid 0x81 bs) h)).sent
          ≡ h.sent ++ packets cid 0x81 bs)
        × ((fido_hid_task cbor_dispatch now (pump (packets cid 0x81 bs) h)).resp_pending ≡ false)
  ping_echo now n cid bs h pos own fit ready (quiet, short, resync, here, buf) all enough =
      let req : IsRequest cid cmd_ping bs = (
        pos,
        own,
        omega arith,
        (λ e. absurd (omega (arith, e))),
        (λ e. absurd (omega (arith, e))),
        fit,
      ) in
      let k = length (packets cid 0x81 bs) - 1 in
      let nonzero : (cid == 0) ≡ false = ground arith in
      let run = run_request-ping now cid k bs h fit (quiet, short, resync, here, buf) in
      let task =
        fido_hid_task-run now (complete cid cmd_ping k bs h) (answered now cid bs h) nonzero quiet
          run short resync in
      let out = answered-unsent now cid bs h in
      let len = ap (length {A = List ℕ}) out in
      let count = ap (length {A = Bool}) all ∙ length-replicate n true in
      let (sends, over) =
        emit_all-Sends (length h.endpoint + 1) n (answered now cid bs h)
          (answered-IsSound now cid bs h fit) all (omega (arith, len, enough))
          (omega (arith, count)) in
      rw (pump-packets cid cmd_ping bs h req ready, task) (sends ∙ ap (◌++◌ h.sent) out, over)
