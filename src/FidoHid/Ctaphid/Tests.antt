-- ===== src/FidoHid/Ctaphid/Tests.antt =====
-- ctaphid.c at concrete inputs.
use nixtropic.Base.{
  ◌-◌, ◌≤◌, inl, ℕ, ◌≡◌, refl, List, [], ◌∷◌, true, false, Option, some, arith, length, replicate,
}
use nixtropic.FidoHid.Presence.{presence_init, is_awaiting}
use nixtropic.FidoHid.Ctaphid.{Hid, idle, max_payload}
use nixtropic.FidoHid.Ctaphid.Receive.{fido_hid_task, pump}
use nixtropic.FidoHid.Ctaphid.Host.{packets, cont_packets}
use nixtropic.FidoHid.Ctaphid.Send.{emit_all}
use nixtropic.FidoHid.Ctaphid.Request.{pump-packets}
use nixtropic.FidoHid.Ctaphid.Assembly.{complete}
use nixtropic.FidoHid.Ctaphid.Echo.{ping_echo}
use nixtropic.FidoHid.Ctaphid.Busy.{owned, pump-owned}
use nixtropic.FidoHid.Ctaphid.Termination.{Emits, emit_all_terminates}
use nixtropic.FidoHid.Ctaphid.Emission.{emit_all-Keeps, Keeps}

-- A device after its start, with an endpoint that takes three packets.
abbrev started : Hid
started = record {
  state = idle;
  cur_cid = 0;
  req_cmd = 0;
  req_total = 0;
  req_received = 0;
  next_seq = 0;
  req_buf = replicate max_payload 0;
  resp_cid = 0;
  resp_cmd = 0;
  resp_total = 0;
  resp_sent = 0;
  resp_seq = 0;
  resp_pending = false;
  resp_buf = replicate max_payload 0;
  next_cid = 1;
  busy_cid = 0;
  running = false;
  in_progress = false;
  ka_status = 0;
  ka_last = 0;
  short_pkt = [];
  short_pending = false;
  abandoned = false;
  resync_pkt = [];
  resync_pending = false;
  presence = presence_init;
  endpoint = replicate 3 true;
  sent = [];
}

-- A request of two packets.
abbrev hundred : List ℕ
hundred = replicate 100 7

-- A dispatcher of commands that answers one byte.
abbrev dispatch : List ℕ → Hid → Option (List ℕ) × Hid
dispatch req h = (some (0 ∷ []), h)

not_awaiting : is_awaiting started.presence ≡ false
unfolding is_awaiting
not_awaiting = refl

enough : length (packets 5 0x81 hundred) ≤ 3
unfolding packets cont_packets
enough = omega arith

ping_echo_example :
    ((fido_hid_task dispatch 9 (pump (packets 5 0x81 hundred) started)).sent
      ≡ packets 5 0x81 hundred)
    × ((fido_hid_task dispatch 9 (pump (packets 5 0x81 hundred) started)).resp_pending ≡ false)
ping_echo_example =
    ping_echo dispatch 9 3 5 hundred started (omega arith) (omega arith) (omega arith)
      (refl, refl, not_awaiting) (refl, refl, refl, refl, refl) refl enough

pump-packets_example :
    pump (packets 5 0x90 hundred) started
    ≡ complete 5 16 (length (packets 5 0x90 hundred) - 1) hundred started
pump-packets_example =
    pump-packets 5 16 hundred started
      (
        omega arith,
        omega arith,
        omega arith,
        (λ e. absurd (omega (arith, e))),
        (λ e. absurd (omega (arith, e))),
        omega arith,
      )
      (refl, refl, not_awaiting)

-- An answer of 100 bytes, and an endpoint that refuses after one packet.
abbrev answering : Hid
answering = record started {
  resp_buf = hundred;
  resp_total = 100;
  resp_cid = 5;
  resp_cmd = 0x90;
  resp_pending = true;
  endpoint = true ∷ false ∷ true ∷ [];
}

emit_all-Keeps_example : Keeps answering (emit_all 4 answering)
emit_all-Keeps_example =
    emit_all-Keeps 4 answering (omega arith, omega arith, λ on. inl (refl, refl))

-- The packets of another channel while a request of channel 5 runs.
pump-owned_example :
    owned (pump (packets 9 0x81 hundred) (record started { busy_cid = 5 }))
    ≡ owned (record started { busy_cid = 5 })
pump-owned_example =
    pump-owned (packets 9 0x81 hundred) (record started { busy_cid = 5 })
      (refl, λ e. absurd (omega (arith, e)))

-- The longest response, and an endpoint with more answers than it has packets.
abbrev long_answer : Hid
long_answer = record started {
  resp_buf = replicate max_payload 7;
  resp_total = max_payload;
  resp_pending = true;
  endpoint = replicate 99 true;
}

emit_all_terminates_example : Emits long_answer (emit_all 36 long_answer)
emit_all_terminates_example =
    emit_all_terminates 36 long_answer (omega arith, omega arith, λ on. inl (refl, refl))
      (omega arith)
