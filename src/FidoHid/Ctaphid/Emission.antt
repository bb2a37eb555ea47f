-- ===== src/FidoHid/Ctaphid/Emission.antt =====
-- emit_response_packet and its loop, over every endpoint.
use nixtropic.Base.{
  replicate, ℕ, zero, suc, ◌≤◌, ◌<◌, ◌≡◌, refl, ◌∙◌, ap, sym, List, [], ◌∷◌, ◌++◌, Bool, true,
  false, arith, length, append_assoc, append-nil, inl, inr, Bool-cases,
}
use nixtropic.FidoHid.Ctaphid.{Hid}
use nixtropic.FidoHid.Ctaphid.Send.{
  push_packet, push_to, next_packet, emit_response_packet, emit_all,
}
use nixtropic.FidoHid.Ctaphid.Response.{IsSound, advance, advance-IsSound, unsent, unsent-advance}

-- What an endpoint makes of the next packet.
abbrev pub emitted : List Bool → Hid → Bool × Hid
emitted [] h = (false, h)
emitted (true ∷ rest) h =
    (true, record (advance h) { endpoint = rest; sent = h.sent ++ next_packet h ∷ [] })
emitted (false ∷ rest) h = (false, record h { endpoint = rest })

pub emit_response_packet-emitted :
    (e : List Bool) (h : Hid)
    → h.endpoint ≡ e
    → h.resp_pending ≡ true
    → emit_response_packet h ≡ emitted e h
unfolding emit_response_packet push_packet push_to
emit_response_packet-emitted [] h eq on = rw (eq, on) refl
emit_response_packet-emitted (true ∷ rest) h eq on = rw (eq, on) refl
emit_response_packet-emitted (false ∷ rest) h eq on = rw (eq, on) refl

pub emit_response_packet-off :
    (h : Hid) → h.resp_pending ≡ false → emit_response_packet h ≡ (false, h)
unfolding emit_response_packet
emit_response_packet-off h off = rw off refl

-- What every step of the emission keeps: a sound response, and, of the packets sent and those to
-- be sent, the whole sequence.
abbrev pub Keeps : Hid → Hid → Type 0
Keeps h h' = IsSound h' × (h'.sent ++ unsent h' ≡ h.sent ++ unsent h)

emitted-Keeps :
    (e : List Bool) (h : Hid) → IsSound h → h.resp_pending ≡ true → Keeps h ((emitted e h).1)
unfolding unsent
emitted-Keeps [] h sound on = (sound, refl)
emitted-Keeps (true ∷ rest) h sound on = (
  advance-IsSound h sound on,
  append_assoc h.sent (next_packet h ∷ []) (unsent (advance h))
      ∙ ap (◌++◌ h.sent) (sym (unsent-advance h sound on)),
)
emitted-Keeps (false ∷ rest) h sound on = (sound, refl)

emit_response_packet-Keeps : (h : Hid) → IsSound h → Keeps h ((emit_response_packet h).1)
emit_response_packet-Keeps h sound = elim (Bool-cases h.resp_pending) [
  | inl on ↦
      rw (emit_response_packet-emitted h.endpoint h refl on) (emitted-Keeps h.endpoint h sound on)
  | inr off ↦ rw (emit_response_packet-off h off) (sound, refl)
]

-- Whatever the endpoint takes or refuses, a run of the loop sends the next packets of the response
-- in order: those sent and those still to be sent are the same sequence before and after.
pub emit_all-Keeps : (fuel : ℕ) (h : Hid) → IsSound h → Keeps h (emit_all fuel h)
unfolding emit_all
emit_all-Keeps zero h sound = (sound, refl)
emit_all-Keeps (suc fuel) h sound =
    let (s1, e1) = emit_response_packet-Keeps h sound in
    let (s2, e2) = emit_all-Keeps fuel ((emit_response_packet h).1) s1 in
    elim (Bool-cases ((emit_response_packet h).0)) [
      | inl ok ↦ rw ok (s2, e2 ∙ e1)
      | inr stop ↦ rw stop (s1, e1)
    ]

unsent-off : (h : Hid) → h.resp_pending ≡ false → unsent h ≡ []
unfolding unsent
unsent-off h off = rw off refl

emit_all-off : (fuel : ℕ) (h : Hid) → h.resp_pending ≡ false → emit_all (suc fuel) h ≡ h
unfolding emit_all
emit_all-off fuel h off = rw (emit_response_packet-off h off) refl

-- What is left does not depend on the endpoint.
unsent-same :
    (h : Hid) (n : ℕ) → unsent ((emitted (true ∷ replicate n true) h).1) ≡ unsent (advance h)
unfolding unsent
unsent-same h n = refl

-- An endpoint that takes every packet left gets them all.
abbrev Sends : ℕ → Type 0
Sends fuel =
    (n : ℕ) (h : Hid)
    → IsSound h
    → h.endpoint ≡ replicate n true
    → length (unsent h) ≤ n
    → n < fuel
    → ((emit_all fuel h).sent ≡ h.sent ++ unsent h) × ((emit_all fuel h).resp_pending ≡ false)

emit_all-Sends_on :
    (fuel n : ℕ) (h : Hid)
    → Sends fuel
    → IsSound h
    → h.endpoint ≡ replicate n true
    → length (unsent h) ≤ n
    → n < suc fuel
    → h.resp_pending ≡ true
    → ((emit_all (suc fuel) h).sent ≡ h.sent ++ unsent h)
      × ((emit_all (suc fuel) h).resp_pending ≡ false)
unfolding emit_all
emit_all-Sends_on fuel zero h ih sound all enough more on =
    let len = ap (length {A = List ℕ}) (unsent-advance h sound on) in absurd (omega (arith, len))
emit_all-Sends_on fuel (suc n) h ih sound all enough more on =
    let h2 : Hid = (emitted (replicate (suc n) true) h).1 in
    let e = unsent-advance h sound on in
    let len = ap (length {A = List ℕ}) e in
    let (sends, over) =
      ih n h2 (advance-IsSound h sound on) refl
        (omega (arith, len, enough, ap (length {A = List ℕ}) (unsent-same h n))) (omega arith) in
    rw (emit_response_packet-emitted (replicate (suc n) true) h all on) (
      sends
          ∙ ap (λ u. (h.sent ++ next_packet h ∷ []) ++ u) (unsent-same h n)
          ∙ append_assoc h.sent (next_packet h ∷ []) (unsent (advance h))
          ∙ ap (◌++◌ h.sent) (sym e),
      over,
    )

pub emit_all-Sends : (fuel : ℕ) → Sends fuel
emit_all-Sends zero n h sound all enough more = absurd (omega arith)
emit_all-Sends (suc fuel) n h sound all enough more = elim (Bool-cases h.resp_pending) [
  | inl on ↦ emit_all-Sends_on fuel n h (emit_all-Sends fuel) sound all enough more on
  | inr off ↦ (
    ap (λ (x : Hid). x.sent) (emit_all-off fuel h off)
        ∙ sym (append-nil h.sent)
        ∙ ap (◌++◌ h.sent) (sym (unsent-off h off)),
    ap (λ (x : Hid). x.resp_pending) (emit_all-off fuel h off) ∙ off,
  )
]
