-- ===== src/FidoHid/Ctaphid/Termination.antt =====
-- The loop `while (emit_response_packet())` of ctaphid.c, round by round, and how many rounds it takes.
use nixtropic.Base.{
  ap, ◌+◌, ◌*◌, ◌≤◌, ◌==◌, take, drop, length-take, length-drop, ap, ℕ, zero, suc, ◌<◌, ◌≡◌, refl,
  List, [], ◌∷◌, Bool, true, false, arith, length, inl, inr, Bool-cases, if_each,
}
use nixtropic.FidoHid.Ctaphid.{Hid}
use nixtropic.FidoHid.Ctaphid.Host.{cont_packets, packets}
use nixtropic.FidoHid.Ctaphid.Send.{next_packet, emit_response_packet, emit_all}
use nixtropic.FidoHid.Ctaphid.Emission.{
  emitted, emit_response_packet-emitted, emit_response_packet-off,
}
use nixtropic.FidoHid.Ctaphid.Response.{IsSound, advance-IsSound, unsent, unsent-advance}

-- The runs of the loop, round by round: it ends with the first round that returns 0.
pub data Emits : Hid → Hid → Type 0 where
  stops : (h : Hid) → (emit_response_packet h).0 ≡ false → Emits h (emit_response_packet h).1
  goes_on :
      (h h' : Hid)
      → (emit_response_packet h).0 ≡ true
      → Emits (emit_response_packet h).1 h'
      → Emits h h'

IsSound-emitted :
    (e : List Bool) (h : Hid)
    → IsSound h
    → h.resp_pending ≡ true
    → (emitted e h).0 ≡ true
    → IsSound (emitted e h).1 × (unsent h ≡ next_packet h ∷ unsent (emitted e h).1)
unfolding unsent
IsSound-emitted [] h sound on ok = ground (arith, ok)
IsSound-emitted (true ∷ rest) h sound on ok =
    (advance-IsSound h sound on, unsent-advance h sound on)
IsSound-emitted (false ∷ rest) h sound on ok = ground (arith, ok)

-- A round that goes on has sent one of the packets left, the next one.
round_sends :
    (h : Hid)
    → IsSound h
    → (emit_response_packet h).0 ≡ true
    → IsSound (emit_response_packet h).1
      × (unsent h ≡ next_packet h ∷ unsent (emit_response_packet h).1)
round_sends h sound ok = elim (Bool-cases h.resp_pending) [
  | inl on ↦
      let e = emit_response_packet-emitted h.endpoint h refl on in
      rw e (IsSound-emitted h.endpoint h sound on (rw e at ok))
  | inr off ↦ ground (arith, rw (emit_response_packet-off h off) at ok)
]

-- With more fuel than packets left, emit_all ends in the state in which the loop ends.
within_packets :
    (fuel : ℕ) (h : Hid) → IsSound h → length (unsent h) < fuel → Emits h (emit_all fuel h)
unfolding emit_all
within_packets zero h sound enough = absurd (omega (arith, enough))
within_packets (suc fuel) h sound enough =
    let h1 = (emit_response_packet h).1 in
    if_each (λ (x : Hid). Emits h x) (emit_response_packet h).0 (emit_all fuel h1) h1
      (λ e.
        let (sound1, left) = round_sends h sound e in
        let fewer = ap (length {A = List ℕ}) left in
        goes_on h (emit_all fuel h1) e
          (within_packets fuel h1 sound1 (omega (arith, fewer, enough))))
      (λ e. stops h e)

length-cont_packets :
    (n cid seq : ℕ) (bs : List ℕ) → length (cont_packets n cid seq bs) * 59 ≤ length bs + 58
unfolding cont_packets
length-cont_packets zero cid seq bs = omega arith
length-cont_packets (suc n) cid seq [] = omega arith
length-cont_packets (suc n) cid seq (b ∷ bs) =
    omega (arith, length-cont_packets n cid (seq + 1) (drop 58 bs), length-drop 58 bs)

-- A response has at most 35 packets.
length-unsent : (h : Hid) → IsSound h → length (unsent h) ≤ 35
unfolding unsent packets
length-unsent h (small, fits, along) =
    let bs = take h.resp_total h.resp_buf in
    let len = length-take h.resp_total h.resp_buf in
    let first = length-cont_packets (length bs) h.resp_cid 0 (drop 57 bs) in
    let later = length-cont_packets (length bs) h.resp_cid h.resp_seq (drop h.resp_sent bs) in
    let L = λ (x : List (List ℕ)). length x ≤ 35 in
    if_each L h.resp_pending _ []
      (λ on.
        if_each L (h.resp_sent == 0) _ _ (λ e. omega (arith, first, len, length-drop 57 bs, small))
          (λ e.
            let some_sent : 0 < h.resp_sent = ground (arith, e) in
            omega (arith, later, len, length-drop h.resp_sent bs, small, some_sent)))
      (λ off. omega arith)

-- For a sound response, and an endpoint that takes and refuses packets in any order and for as long
-- as it likes, the loop terminates within 36 rounds: with that fuel emit_all ends in the state in
-- which the loop ends.
pub emit_all_terminates : (fuel : ℕ) (h : Hid) → IsSound h → 35 < fuel → Emits h (emit_all fuel h)
emit_all_terminates fuel h sound enough =
    within_packets fuel h sound (omega (arith, length-unsent h sound, enough))

emitted_uses :
    (e : List Bool) (h : Hid)
    → (emitted e h).0 ≡ true
    → suc (length (emitted e h).1.endpoint) ≡ length e
emitted_uses [] h ok = ground (arith, ok)
emitted_uses (true ∷ rest) h ok = refl
emitted_uses (false ∷ rest) h ok = ground (arith, ok)

-- A round that goes on uses up an answer of the endpoint.
round_uses :
    (h : Hid)
    → (emit_response_packet h).0 ≡ true
    → suc (length (emit_response_packet h).1.endpoint) ≡ length h.endpoint
round_uses h ok = elim (Bool-cases h.resp_pending) [
  | inl on ↦
      let e = emit_response_packet-emitted h.endpoint h refl on in
      rw e (emitted_uses h.endpoint h (rw e at ok))
  | inr off ↦ ground (arith, rw (emit_response_packet-off h off) at ok)
]

-- The fuel of fido_hid_task, one more than the endpoint has answers, is enough too.
pub within_answers : (fuel : ℕ) (h : Hid) → length h.endpoint < fuel → Emits h (emit_all fuel h)
unfolding emit_all
within_answers zero h enough = absurd (omega (arith, enough))
within_answers (suc fuel) h enough =
    let h1 = (emit_response_packet h).1 in
    if_each (λ (x : Hid). Emits h x) (emit_response_packet h).0 (emit_all fuel h1) h1
      (λ e.
        let used = round_uses h e in
        goes_on h (emit_all fuel h1) e (within_answers fuel h1 (omega (arith, used, enough))))
      (λ e. stops h e)
