-- ===== src/FidoHid/Ctaphid/Assembly.antt =====
-- The packets of a request, taken by fido_hid_handle_packet one by one.
use Prim.Native.Nat.{min}
use nixtropic.Base.{
  ◌∙◌, length-zero, length-drop, take_all, Bool-cases, inl, inr, leb→le, ap, leb, ltb,
  if◌then◌else◌, drop-replicate, drop-drop, sym, ℕ, zero, suc, ◌+◌, ◌-◌, ◌*◌, ◌%◌, ◌≤◌, ◌<◌, ◌≡◌,
  refl, List, [], ◌∷◌, ◌++◌, true, false, arith, length, take, drop, replicate, length-append,
  length-take, length-replicate, take_append, drop_append, take-append-drop, u32_mod,
  of_be32-byte_of, append_assoc,
}
use nixtropic.Base.Bits.{bit_and_flag}
use nixtropic.FidoHid.Presence.{is_awaiting}
use nixtropic.FidoHid.Ctaphid.{
  write_be16, Hid, idle, assembling, init_data_len, cont_data_len, max_payload, write_be32,
  read_be32, overwrite,
}
use nixtropic.FidoHid.Ctaphid.Send.{padded}
use nixtropic.FidoHid.Ctaphid.Receive.{
  is_assembling, handle_init_packet, fido_hid_handle_packet, handle_cont_packet, continue_request,
  complete_request, assembles, pump,
}
use nixtropic.FidoHid.Ctaphid.Host.{cont_packet, cont_packets, first_packet}

pub overwrite-next :
    (done bs : List ℕ) (n : ℕ)
    → overwrite (done ++ replicate n 0) (length done) bs
      ≡ (done ++ bs) ++ replicate (n - length bs) 0
unfolding overwrite
overwrite-next done bs n =
    rw
      (
        take_append (length done) done (replicate n 0) refl,
        sym (drop-drop (length bs) (length done) (done ++ replicate n 0)),
        drop_append (length done) done (replicate n 0) refl,
        drop-replicate {A = ℕ} (length bs) n 0,
      )
      (sym (append_assoc done bs (replicate (n - length bs) 0)))

-- An assembly under way: `done` has come in, of `total` bytes.
abbrev pub half : ℕ → ℕ → ℕ → ℕ → List ℕ → Hid → Hid
half cid cmd total seq done h = record h {
  state = assembling;
  cur_cid = cid;
  req_cmd = cmd;
  req_total = total;
  req_received = length done;
  next_seq = seq;
  req_buf = done ++ replicate (max_payload - length done) 0;
}

-- The request `bs` handed over to run.
abbrev pub complete : ℕ → ℕ → ℕ → List ℕ → Hid → Hid
complete cid cmd seq bs h = record h {
  state = idle;
  cur_cid = 0;
  req_cmd = cmd;
  req_total = length bs;
  req_received = length bs;
  next_seq = seq;
  req_buf = bs ++ replicate (max_payload - length bs) 0;
  busy_cid = cid;
}

read_be32-write_be32 : (v : ℕ) (bs : List ℕ) → v < u32_mod → read_be32 (write_be32 v ++ bs) ≡ v
unfolding read_be32
read_be32-write_be32 v bs h = of_be32-byte_of v h

-- A packet of a channel: `b` is its command or its sequence number.
abbrev pub packet : ℕ → ℕ → List ℕ → List ℕ
packet cid b rest = write_be32 cid ++ b ∷ rest

-- A packet of full length goes to the handler that the highest bit of `b` names.
pub handle_packet-packet :
    (cid b : ℕ) (rest : List ℕ) (h : Hid)
    → 0 < cid
    → cid < u32_mod
    → b < 256
    → length rest ≡ 59
    → fido_hid_handle_packet (packet cid b rest) h ≡ (
        if ltb b 128
        then handle_cont_packet cid (packet cid b rest) h
        else handle_init_packet cid (packet cid b rest) h)
unfolding fido_hid_handle_packet
handle_packet-packet cid b rest h pos fit byte len =
    let c = read_be32-write_be32 cid (b ∷ rest) fit in
    let (hi, lo) = bit_and_flag b byte in rw c (ground (arith, c, hi))

-- A continuation packet that is next in sequence reaches continue_request.
handle_packet-cont :
    (cid seq : ℕ) (rest : List ℕ) (h : Hid)
    → 0 < cid
    → cid < u32_mod
    → seq < 128
    → length rest ≡ 59
    → assembles cid h ≡ true
    → h.next_seq ≡ seq
    → fido_hid_handle_packet (packet cid seq rest) h ≡ continue_request cid rest h
unfolding handle_cont_packet
handle_packet-cont cid seq rest h pos fit hs len ha hn =
    let (hi, lo) = bit_and_flag seq (omega arith) in
    let low : seq % 128 ≡ seq = omega arith in
    rw (handle_packet-packet cid seq rest h pos fit (omega arith) len)
      (ground (arith, lo, low, ha, hn))

padded-cont :
    (cid seq : ℕ) (bs : List ℕ)
    → padded (write_be32 cid ++ seq ∷ bs) ≡ packet cid seq (bs ++ replicate (59 - length bs) 0)
padded-cont cid seq bs =
    let e : 64 - suc (suc (suc (suc (suc (length bs))))) ≡ 59 - length bs = omega arith in
    ap (λ k. packet cid seq (bs ++ replicate k 0)) e

-- An assembly goes on, or hands its request over when it has all of it.
abbrev pub next : ℕ → ℕ → ℕ → ℕ → List ℕ → Hid → Hid
next cid cmd total seq done h =
    let h1 = half cid cmd total seq done h in
    if leb total (length done) then complete_request cid h1 else h1

continue_request-half :
    (cid cmd total seq : ℕ) (done bs rest : List ℕ) (h : Hid)
    → seq < 128
    → min (total - length done) cont_data_len ≡ length bs
    → continue_request cid (bs ++ rest) (half cid cmd total seq done h)
      ≡ next cid cmd total (seq + 1) (done ++ bs) h
unfolding continue_request
continue_request-half cid cmd total seq done bs rest h hs k =
    let low : (seq + 1) % 256 ≡ seq + 1 = omega arith in
    let len : length (done ++ bs) ≡ length done + length bs = length-append done bs in
    let room : max_payload - length done - length bs ≡ max_payload - (length done + length bs) =
      omega arith in
    rw
      (
        k,
        low,
        len,
        take_append (length bs) bs rest refl,
        overwrite-next done bs (max_payload - length done),
        room,
      )
      refl

half-assembles :
    (cid cmd total seq : ℕ) (done : List ℕ) (h : Hid)
    → assembles cid (half cid cmd total seq done h) ≡ true
unfolding assembles is_assembling
half-assembles cid cmd total seq done h = ground arith

length-chunk :
    (bs : List ℕ)
    → length (take cont_data_len bs ++ replicate (59 - length (take cont_data_len bs)) 0) ≡ 59
length-chunk bs =
    let c = take cont_data_len bs in
    omega (
      arith,
      length-take cont_data_len bs,
      length-append c (replicate (59 - length c) 0),
      length-replicate {A = ℕ} (59 - length c) 0,
    )

-- One continuation packet of the host.
handle_packet-half :
    (cid cmd total seq : ℕ) (done bs : List ℕ) (h : Hid)
    → 0 < cid
    → cid < u32_mod
    → seq < 128
    → length done + length bs ≡ total
    → fido_hid_handle_packet (cont_packet cid seq bs) (half cid cmd total seq done h)
      ≡ next cid cmd total (seq + 1) (done ++ take cont_data_len bs) h
handle_packet-half cid cmd total seq done bs h pos fit hs all =
    let c = take cont_data_len bs in
    let z : List ℕ = replicate (59 - length c) 0 in
    let k : min (total - length done) cont_data_len ≡ length c =
      omega (arith, length-take cont_data_len bs) in
    let on = half-assembles cid cmd total seq done h in
    rw
      (
        padded-cont cid seq c,
        handle_packet-cont cid seq (c ++ z) (half cid cmd total seq done h) pos fit hs
            (length-chunk bs) on refl,
      )
      (continue_request-half cid cmd total seq done c z h hs k)

-- The request is run if no other one owns the buffers.
pub complete_request-half :
    (cid cmd seq : ℕ) (bs : List ℕ) (h : Hid)
    → h.busy_cid ≡ 0
    → is_awaiting h.presence ≡ false
    → complete_request cid (half cid cmd (length bs) seq bs h) ≡ complete cid cmd seq bs h
unfolding complete_request
complete_request-half cid cmd seq bs h free quiet = rw (free, quiet) refl

pub cont_packets-nil : (n cid seq : ℕ) → cont_packets n cid seq [] ≡ []
unfolding cont_packets
cont_packets-nil zero cid seq = refl
cont_packets-nil (suc n) cid seq = refl

pub chunks-join : (k : ℕ) (done bs : List ℕ) → (done ++ take k bs) ++ drop k bs ≡ done ++ bs
chunks-join k done bs =
    append_assoc done (take k bs) (drop k bs) ∙ ap (◌++◌ done) (take-append-drop k bs)

-- The last bytes of a request complete it.
pub pump-last :
    (k : ℕ) (n cid cmd seq : ℕ) (done bs : List ℕ) (h : Hid)
    → length bs ≤ k
    → h.busy_cid ≡ 0
    → is_awaiting h.presence ≡ false
    → pump
        (cont_packets n cid seq (drop k bs))
        (next cid cmd (length (done ++ bs)) seq (done ++ take k bs) h)
      ≡ complete cid cmd (seq + length (cont_packets n cid seq (drop k bs))) (done ++ bs) h
unfolding pump
pump-last k n cid cmd seq done bs h few free quiet =
    let none_left : drop k bs ≡ [] = length-zero (drop k bs) (omega (arith, length-drop k bs)) in
    let whole : leb (length (done ++ bs)) (length (done ++ bs)) ≡ true = ground arith in
    let same : seq + 0 ≡ seq = omega arith in
    rw
      (
        take_all k bs few,
        none_left,
        cont_packets-nil n cid seq,
        whole,
        complete_request-half cid cmd seq (done ++ bs) h free quiet,
        same,
      )
      refl

pub not_leb→lt : (a b : ℕ) → leb a b ≡ false → b < a
not_leb→lt a b h = ground arith

lt→not_leb : (a b : ℕ) → b < a → leb a b ≡ false
lt→not_leb a b h = ground arith

pub assembly-goes_on :
    (k : ℕ) (done bs : List ℕ)
    → k < length bs
    → leb (length (done ++ bs)) (length (done ++ take k bs)) ≡ false
assembly-goes_on k done bs h =
    lt→not_leb (length (done ++ bs)) (length (done ++ take k bs))
      (omega (arith, length-append done bs, length-append done (take k bs), length-take k bs))

pub pump-step :
    (pkt : List ℕ) (pkts : List (List ℕ)) (h h1 h2 : Hid)
    → fido_hid_handle_packet pkt h ≡ h1
    → pump pkts h1 ≡ h2
    → pump (pkt ∷ pkts) h ≡ h2
unfolding pump
pump-step pkt pkts h h1 h2 e f = ap (pump pkts) e ∙ f

-- The continuation packets of the rest of a request complete it.
pub pump-cont_packets :
    (n cid cmd seq : ℕ) (done bs : List ℕ) (h : Hid)
    → 0 < cid
    → cid < u32_mod
    → seq * 59 + length bs ≤ max_payload
    → length bs ≤ n
    → 0 < length bs
    → h.busy_cid ≡ 0
    → is_awaiting h.presence ≡ false
    → pump (cont_packets n cid seq bs) (half cid cmd (length (done ++ bs)) seq done h)
      ≡ complete cid cmd (seq + length (cont_packets n cid seq bs)) (done ++ bs) h
unfolding cont_packets pump
pump-cont_packets n cid cmd seq done [] h pos fit small enough more free quiet =
    absurd (omega arith)
pump-cont_packets zero cid cmd seq done (b ∷ bs) h pos fit small enough more free quiet =
    absurd (omega arith)
pump-cont_packets (suc n) cid cmd seq done (b ∷ bs) h pos fit small enough more free quiet =
    let xs : List ℕ = b ∷ bs in
    let all : length done + length xs ≡ length (done ++ xs) = sym (length-append done xs) in
    let on = length (cont_packets n cid (seq + 1) (drop cont_data_len xs)) in
    let count : seq + suc on ≡ seq + 1 + on = omega arith in
    pump-step (cont_packet cid seq xs) (cont_packets n cid (seq + 1) (drop cont_data_len xs))
      (half cid cmd (length (done ++ xs)) seq done h)
      (next cid cmd (length (done ++ xs)) (seq + 1) (done ++ take cont_data_len xs) h)
      (complete cid cmd (seq + suc on) (done ++ xs) h)
      (handle_packet-half cid cmd (length (done ++ xs)) seq done xs h pos fit (omega arith) all)
      (rw count (elim (Bool-cases (leb (length xs) 59)) [
        | inl few ↦
            pump-last cont_data_len n cid cmd (seq + 1) done xs h (leb→le (length xs) 59 few) free
              quiet
        | inr many ↦
            let rest : leb (length (done ++ xs)) (length (done ++ take cont_data_len xs)) ≡ false =
              assembly-goes_on cont_data_len done xs (not_leb→lt (length xs) 59 many) in
            let left = length-drop cont_data_len xs in
            let long = not_leb→lt (length xs) 59 many in
            let ih =
              pump-cont_packets n cid cmd (seq + 1) (done ++ take cont_data_len xs)
                (drop cont_data_len xs) h pos fit (omega (arith, left, long))
                (omega (arith, left, long)) (omega (arith, left, long)) free quiet in
            rw rest (rw (chunks-join cont_data_len done xs) at ih)
      ]))

pub padded-first :
    (cid cmd : ℕ) (bs : List ℕ)
    → first_packet cid cmd bs
      ≡ packet cid cmd (
          write_be16 (length bs)
          ++ (take init_data_len bs ++ replicate (57 - length (take init_data_len bs)) 0))
padded-first cid cmd bs =
    let c : List ℕ = take init_data_len bs in
    let e : 64 - suc (suc (suc (suc (suc (suc (suc (length c))))))) ≡ 57 - length c = omega arith in
    ap (λ k. packet cid cmd (write_be16 (length bs) ++ (c ++ replicate k 0))) e
