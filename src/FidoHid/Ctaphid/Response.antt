-- ===== src/FidoHid/Ctaphid/Response.antt =====
-- The packets of the queued response: what of it is still to go out, whatever the endpoint refuses.
use Prim.Native.Nat.{min}
use nixtropic.Base.{
  take-take, drop-take, ◌⊎◌, ℕ, zero, suc, ◌+◌, ◌-◌, ◌*◌, ◌%◌, ◌≤◌, ◌<◌, ◌≡◌, refl, ◌∙◌, ap, sym,
  List, [], ◌∷◌, Bool, true, false, arith, length, take, drop, length-take, length-drop,
  length-zero, drop-drop, ltb, ◌==◌, if◌then◌else◌, inl, inr, Bool-cases,
}
use nixtropic.Base.Bits.{bit_and_flag}
use nixtropic.FidoHid.Ctaphid.{Hid, init_data_len, cont_data_len, max_payload}
use nixtropic.FidoHid.Ctaphid.Send.{next_packet, next_chunk}
use nixtropic.FidoHid.Ctaphid.Host.{cont_packet, cont_packets, first_packet, packets}
use nixtropic.FidoHid.Ctaphid.Assembly.{cont_packets-nil}

cont_packets-enough :
    (m n cid seq : ℕ) (bs : List ℕ)
    → length bs ≤ m
    → length bs ≤ n
    → cont_packets m cid seq bs ≡ cont_packets n cid seq bs
unfolding cont_packets
cont_packets-enough m n cid seq [] hm hn =
    cont_packets-nil m cid seq ∙ sym (cont_packets-nil n cid seq)
cont_packets-enough zero n cid seq (b ∷ bs) hm hn = absurd (omega arith)
cont_packets-enough (suc m) zero cid seq (b ∷ bs) hm hn = absurd (omega arith)
cont_packets-enough (suc m) (suc n) cid seq (b ∷ bs) hm hn =
    let left = length-drop 58 bs in
    ap (◌∷◌ (cont_packet cid seq (b ∷ bs))) (
      cont_packets-enough m n cid (seq + 1) (drop 58 bs) (omega (arith, left))
        (omega (arith, left)))

cont_packets-step :
    (n cid seq : ℕ) (bs : List ℕ)
    → 0 < length bs
    → length bs ≤ n
    → cont_packets n cid seq bs
      ≡ cont_packet cid seq bs ∷ cont_packets n cid (seq + 1) (drop cont_data_len bs)
unfolding cont_packets
cont_packets-step n cid seq [] some_left enough = absurd (omega arith)
cont_packets-step zero cid seq (b ∷ bs) some_left enough = absurd (omega arith)
cont_packets-step (suc n) cid seq (b ∷ bs) some_left enough =
    let left = length-drop 58 bs in
    ap (◌∷◌ (cont_packet cid seq (b ∷ bs))) (
      cont_packets-enough n (suc n) cid (seq + 1) (drop 58 bs) (omega (arith, left))
        (omega (arith, left)))

-- The packets left of the message `bs` when `sent` of its bytes have gone out.
abbrev left_of : Bool → ℕ → ℕ → ℕ → ℕ → List ℕ → List (List ℕ)
left_of pending sent seq cid cmd bs =
    if pending
    then if sent == 0 then packets cid cmd bs else cont_packets (length bs) cid seq (drop sent bs)
    else []

-- The bytes of the response, and the packets of it still to go out.
abbrev pub response : Hid → List ℕ
response h = take h.resp_total h.resp_buf

unfoldable pub unsent : Hid → List (List ℕ)
unsent h = left_of h.resp_pending h.resp_sent h.resp_seq h.resp_cid h.resp_cmd (response h)

left_of-chunk :
    (n k m seq cid cmd : ℕ) (bs : List ℕ)
    → length bs ≡ n
    → k ≡ min n m
    → 0 < m
    → left_of (ltb k n) k seq cid cmd bs ≡ cont_packets (length bs) cid seq (drop m bs)
left_of-chunk n k m seq cid cmd bs len e pos = elim (Bool-cases (ltb k n)) [
  | inl more ↦
      let nonzero : (k == 0) ≡ false = ground arith in
      let same : k ≡ m = ground arith in rw (more, nonzero, same) refl
  | inr done ↦
      let over : n ≤ m = ground arith in
      let nothing : drop m bs ≡ [] =
        length-zero (drop m bs) (omega (arith, len, length-drop m bs)) in
      rw (done, nothing, cont_packets-nil (length bs) cid seq) refl
]

-- A response within its buffer, and how far it is: the sequence number counts the continuation
-- packets, of 59 bytes until the last.
abbrev pub IsUnderWay : Hid → Type 0
IsUnderWay h = (0 < h.resp_sent) × (h.resp_sent < h.resp_total) × (h.resp_seq * 59 ≤ h.resp_sent)

abbrev pub IsSound : Hid → Type 0
IsSound h =
    (h.resp_total ≤ max_payload)
    × (h.resp_total ≤ length h.resp_buf)
    × (h.resp_pending ≡ true → ((h.resp_sent ≡ 0) × (h.resp_seq ≡ 0)) ⊎ IsUnderWay h)

-- What an accepted packet does to the counters.
abbrev pub advance : Hid → Hid
advance h =
    let sent = h.resp_sent + next_chunk h in
    record h {
      resp_sent = sent;
      resp_seq = if h.resp_sent == 0 then h.resp_seq else (h.resp_seq + 1) % 256;
      resp_pending = ltb sent h.resp_total;
    }

length-response : (h : Hid) → h.resp_total ≤ length h.resp_buf → length (response h) ≡ h.resp_total
length-response h fits = omega (arith, length-take h.resp_total h.resp_buf)

next_packet-first :
    (h : Hid)
    → h.resp_total ≤ length h.resp_buf
    → h.resp_sent ≡ 0
    → next_packet h ≡ first_packet h.resp_cid h.resp_cmd (response h)
unfolding next_packet
next_packet-first h fits none_sent =
    let whole : h.resp_total - 0 ≡ h.resp_total = omega arith in
    rw (none_sent, whole, length-response h fits, take-take init_data_len h.resp_total h.resp_buf)
      refl

next_packet-cont :
    (h : Hid)
    → (h.resp_sent == 0) ≡ false
    → h.resp_seq < 128
    → next_packet h ≡ cont_packet h.resp_cid h.resp_seq (drop h.resp_sent (response h))
unfolding next_packet
next_packet-cont h some_sent low =
    let (hi, lo) = bit_and_flag h.resp_seq (omega arith) in
    let same : h.resp_seq % 128 ≡ h.resp_seq = omega arith in
    rw
      (
        some_sent,
        lo,
        same,
        drop-take h.resp_sent h.resp_total h.resp_buf,
        take-take cont_data_len (h.resp_total - h.resp_sent) (drop h.resp_sent h.resp_buf),
      )
      refl

unsent-first :
    (h : Hid)
    → IsSound h
    → h.resp_pending ≡ true
    → h.resp_sent ≡ 0
    → h.resp_seq ≡ 0
    → unsent h ≡ next_packet h ∷ unsent (advance h)
unfolding unsent next_chunk packets
unsent-first h (small, fits, along) on none_sent zero_seq =
    let len = length-response h fits in
    let whole : h.resp_total - 0 ≡ h.resp_total = omega arith in
    let k : 0 + min h.resp_total init_data_len ≡ min h.resp_total init_data_len =
      omega (arith, len) in
    let rest =
      left_of-chunk h.resp_total (0 + min h.resp_total init_data_len) init_data_len 0 h.resp_cid
        h.resp_cmd (response h) len k (omega arith) in
    rw (next_packet-first h fits none_sent, on, none_sent, zero_seq, whole)
      (ap (◌∷◌ (first_packet h.resp_cid h.resp_cmd (response h))) (sym rest))

unsent-cont :
    (h : Hid)
    → IsSound h
    → h.resp_pending ≡ true
    → IsUnderWay h
    → unsent h ≡ next_packet h ∷ unsent (advance h)
unfolding unsent next_chunk
unsent-cont h (small, fits, along) on (some_sent, more, count) =
    let len = length-response h fits in
    let nonzero : (h.resp_sent == 0) ≡ false = ground arith in
    let low : (h.resp_seq + 1) % 256 ≡ h.resp_seq + 1 = omega arith in
    let k : h.resp_sent + min (h.resp_total - h.resp_sent) cont_data_len
        ≡ min h.resp_total (h.resp_sent + cont_data_len) =
      omega (arith, len) in
    let rest =
      left_of-chunk h.resp_total (h.resp_sent + min (h.resp_total - h.resp_sent) cont_data_len)
        (h.resp_sent + cont_data_len) (h.resp_seq + 1) h.resp_cid h.resp_cmd (response h) len k
        (omega arith) in
    let step =
      cont_packets-step (length (response h)) h.resp_cid h.resp_seq (drop h.resp_sent (response h))
        (omega (arith, len, length-drop h.resp_sent (response h)))
        (omega (arith, length-drop h.resp_sent (response h))) in
    rw (next_packet-cont h nonzero (omega arith), on, nonzero, low)
      (step
        ∙ ap (◌∷◌ (cont_packet h.resp_cid h.resp_seq (drop h.resp_sent (response h))))
            (rw (drop-drop cont_data_len h.resp_sent (response h)) (sym rest)))

pub advance-IsSound : (h : Hid) → IsSound h → h.resp_pending ≡ true → IsSound (advance h)
unfolding next_chunk
advance-IsSound h (small, fits, along) on = elim (along on) [
  | inl (none_sent, zero_seq) ↦
      (small, fits, λ more. inr (rw (none_sent, zero_seq) (ground (arith, more, none_sent))))
  | inr (some_sent, left, count) ↦
      let nonzero : (h.resp_sent == 0) ≡ false = ground arith in
      let low : (h.resp_seq + 1) % 256 ≡ h.resp_seq + 1 = omega arith in
      (small, fits, λ more. inr (rw (nonzero, low) (ground (arith, more))))
]

pub unsent-advance :
    (h : Hid) → IsSound h → h.resp_pending ≡ true → unsent h ≡ next_packet h ∷ unsent (advance h)
unsent-advance h (small, fits, along) on = elim (along on) [
  | inl (none_sent, zero_seq) ↦ unsent-first h (small, fits, along) on none_sent zero_seq
  | inr under_way ↦ unsent-cont h (small, fits, along) on under_way
]
