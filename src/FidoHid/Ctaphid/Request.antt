-- ===== src/FidoHid/Ctaphid/Request.antt =====
-- The first packet of a request, and all its packets together.
use Prim.Native.Nat.{min}
use nixtropic.Base.{
  take-append-drop, leb→le, inl, inr, Bool-cases, length-drop, ap, ℕ, suc, ◌+◌, ◌-◌, ◌*◌, ◌^◌, ◌%◌,
  ◌≤◌, ◌<◌, ◌≡◌, refl, ◌≢◌, List, [], ◌++◌, false, arith, length, take, drop, replicate,
  length-append, length-take, length-replicate, take_append, ltb, leb, byte_of,
}
use nixtropic.Base.Bits.{bit_and_flag}
use nixtropic.FidoHid.Presence.{is_awaiting}
use nixtropic.FidoHid.Ctaphid.{
  Hid, idle, init_data_len, max_payload, cid_broadcast, cmd_init, cmd_cancel, write_be16,
}
use nixtropic.FidoHid.Ctaphid.Receive.{
  fido_hid_handle_packet, handle_init_packet, start_request, is_assembling, complete_request, pump,
}
use nixtropic.FidoHid.Ctaphid.Host.{cont_packets, first_packet, packets}
use nixtropic.FidoHid.Ctaphid.Assembly.{
  pump-last, assembly-goes_on, not_leb→lt, packet, next, complete, pump-cont_packets, pump-step,
  padded-first, handle_packet-packet, overwrite-next,
}

-- Two bytes of a length that fits them.
of_be16-write_be16 : (n : ℕ) → n ≤ max_payload → byte_of n 1 * 2 ^ 8 + byte_of n 0 ≡ n
of_be16-write_be16 n h = omega arith

-- The first packet of a new request starts it.
handle_init_packet-start :
    (cid cmd n : ℕ) (rest : List ℕ) (h : Hid)
    → cid ≢ cid_broadcast
    → cmd < 128
    → cmd ≢ cmd_init
    → cmd ≢ cmd_cancel
    → n ≤ max_payload
    → h.state ≡ idle
    → h.busy_cid ≡ 0
    → is_awaiting h.presence ≡ false
    → handle_init_packet cid (packet cid (128 + cmd) (write_be16 n ++ rest)) h
      ≡ start_request cid cmd n rest h
unfolding handle_init_packet is_assembling
handle_init_packet-start cid cmd n rest h own small ni nc fit off free quiet =
    let (hi, lo) = bit_and_flag (128 + cmd) (omega arith) in
    let low : (128 + cmd) % 128 ≡ cmd = omega arith in
    let len = of_be16-write_be16 n fit in rw (lo, low, len, off, free, quiet) (ground arith)

start_request-half :
    (cid cmd : ℕ) (bs rest : List ℕ) (h : Hid)
    → start_request cid cmd (length bs) (take init_data_len bs ++ rest) h
      ≡ next cid cmd (length bs) 0 (take init_data_len bs) h
unfolding start_request complete_request
start_request-half cid cmd bs rest h =
    let c : List ℕ = take init_data_len bs in
    let k : min (length bs) init_data_len ≡ length c =
      omega (arith, length-take init_data_len bs) in
    rw (k, take_append (length c) c rest refl, overwrite-next [] c max_payload) refl

length-first :
    (bs : List ℕ)
    → length (take init_data_len bs ++ replicate (57 - length (take init_data_len bs)) 0) ≡ 57
length-first bs =
    let c : List ℕ = take init_data_len bs in
    omega (
      arith,
      length-take init_data_len bs,
      length-append c (replicate (57 - length c) 0),
      length-replicate {A = ℕ} (57 - length c) 0,
    )

-- What a request of the host is: its channel, its command and its length.
abbrev pub IsRequest : ℕ → ℕ → List ℕ → Type 0
IsRequest cid cmd bs =
    (0 < cid)
    × (cid < cid_broadcast)
    × (cmd < 128)
    × (cmd ≢ cmd_init)
    × (cmd ≢ cmd_cancel)
    × (length bs ≤ max_payload)

-- A device with nothing under way.
abbrev pub IsReady : Hid → Type 0
IsReady h = (h.state ≡ idle) × (h.busy_cid ≡ 0) × (is_awaiting h.presence ≡ false)

handle_packet-first :
    (cid cmd : ℕ) (bs : List ℕ) (h : Hid)
    → IsRequest cid cmd bs
    → IsReady h
    → fido_hid_handle_packet (first_packet cid (128 + cmd) bs) h
      ≡ next cid cmd (length bs) 0 (take init_data_len bs) h
handle_packet-first cid cmd bs h (pos, own, low, ni, nc, fit) (off, free, quiet) =
    let c : List ℕ = take init_data_len bs in
    let z : List ℕ = replicate (57 - length c) 0 in
    let byte : 128 + cmd < 256 = omega arith in
    let start =
      handle_packet-packet cid (128 + cmd) (write_be16 (length bs) ++ (c ++ z)) h pos (omega arith)
        byte (ap (λ n. suc (suc n)) (length-first bs)) in
    let high : ltb (128 + cmd) 128 ≡ false = ground arith in
    rw
      (
        padded-first cid (128 + cmd) bs,
        start,
        high,
        handle_init_packet-start cid cmd (length bs) (c ++ z) h (omega arith) low ni nc fit off free
            quiet,
      )
      (start_request-half cid cmd bs z h)

-- The rest of the packets after the first.
pump-rest :
    (cid cmd : ℕ) (bs : List ℕ) (h : Hid)
    → IsRequest cid cmd bs
    → IsReady h
    → pump
        (cont_packets (length bs) cid 0 (drop init_data_len bs))
        (next cid cmd (length bs) 0 (take init_data_len bs) h)
      ≡ complete cid cmd (length (cont_packets (length bs) cid 0 (drop init_data_len bs))) bs h
pump-rest cid cmd bs h (pos, own, low, ni, nc, fit) (off, free, quiet) =
    let c : List ℕ = take init_data_len bs in
    let d : List ℕ = drop init_data_len bs in
    let left = length-drop init_data_len bs in
    let n = length (cont_packets (length bs) cid 0 d) in
    let e : 0 + n ≡ n = omega arith in
    elim (Bool-cases (leb (length bs) 57)) [
      | inl few ↦ rw e at (
          pump-last init_data_len (length bs) cid cmd 0 [] bs h (leb→le (length bs) 57 few) free
            quiet)
      | inr many ↦
          let long = not_leb→lt (length bs) 57 many in
          let on = assembly-goes_on init_data_len [] bs long in
          let all =
            pump-cont_packets (length bs) cid cmd 0 c d h pos (omega arith)
              (omega (arith, left, long, fit)) (omega (arith, left)) (omega (arith, left, long))
              free quiet in
          rw on (rw (take-append-drop init_data_len bs, e) at all)
    ]

-- The packets of a request, taken one after the other by a device with nothing under way, leave
-- the request, all its bytes in order, to be run on its channel.
pub pump-packets :
    (cid cmd : ℕ) (bs : List ℕ) (h : Hid)
    → IsRequest cid cmd bs
    → IsReady h
    → pump (packets cid (128 + cmd) bs) h
      ≡ complete cid cmd (length (packets cid (128 + cmd) bs) - 1) bs h
unfolding packets
pump-packets cid cmd bs h req ready =
    let conts = cont_packets (length bs) cid 0 (drop init_data_len bs) in
    let e : suc (length conts) - 1 ≡ length conts = omega arith in
    pump-step (first_packet cid (128 + cmd) bs) conts h
      (next cid cmd (length bs) 0 (take init_data_len bs) h)
      (complete cid cmd (suc (length conts) - 1) bs h) (handle_packet-first cid cmd bs h req ready)
      (rw e (pump-rest cid cmd bs h req ready))
