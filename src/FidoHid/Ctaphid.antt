-- ===== src/FidoHid/Ctaphid.antt =====
-- firmware/src/fido_hid/ctaphid.c and proto.h: the CTAPHID framing. The file's static variables
-- are the record Hid; `presence` holds those of user_presence.c that it reads and sets. The USB
-- endpoint is TinyUSB's: `endpoint` says for the coming packets, in order, whether it takes them
-- (ready and report in one; a refusal when it is empty), and `sent` is what it took, latest last.
-- The debug build's timing is not modelled.
pub mod Send
pub mod Receive
pub mod Host
mod Assembly
mod Request
mod Response
mod Emission
mod Termination
mod Echo
mod Busy
mod Tests
use Prim.Native.Nat.{bit_and}
use nixtropic.Base.{
  ℕ, ◌+◌, ◌-◌, ◌*◌, ◌^◌, List, [], ◌∷◌, ◌++◌, Bool, true, false, length, get_or, take, drop,
  replicate, byte_of, of_be32,
}
use nixtropic.FidoHid.Presence.{Presence, presence_init}

abbrev pub report_len : ℕ
report_len = 64

abbrev pub init_data_len : ℕ
init_data_len = 57

abbrev pub cont_data_len : ℕ
cont_data_len = 59

abbrev pub cid_broadcast : ℕ
cid_broadcast = 0xffff_ffff

abbrev pub init_flag : ℕ
init_flag = 0x80

abbrev pub cmd_ping : ℕ
cmd_ping = 0x01

abbrev pub cmd_msg : ℕ
cmd_msg = 0x03

abbrev pub cmd_init : ℕ
cmd_init = 0x06

abbrev pub cmd_cbor : ℕ
cmd_cbor = 0x10

abbrev pub cmd_cancel : ℕ
cmd_cancel = 0x11

abbrev pub cmd_keepalive : ℕ
cmd_keepalive = 0x3b

abbrev pub cmd_error : ℕ
cmd_error = 0x3f

abbrev pub err_invalid_cmd : ℕ
err_invalid_cmd = 0x01

abbrev pub err_invalid_len : ℕ
err_invalid_len = 0x03

abbrev pub err_invalid_seq : ℕ
err_invalid_seq = 0x04

abbrev pub err_channel_busy : ℕ
err_channel_busy = 0x06

abbrev pub err_invalid_channel : ℕ
err_invalid_channel = 0x0b

abbrev pub err_other : ℕ
err_other = 0x7f

abbrev pub max_payload : ℕ
max_payload = 2048

-- Device version and capabilities, the last five bytes of an INIT answer.
abbrev pub device_info : List ℕ
device_info = 2 ∷ 0 ∷ 4 ∷ 0 ∷ 0x0c ∷ []

pub data FhState : Type 0 where
  idle assembling : FhState

pub record Hid : Type 0 where
  pub state : FhState
  pub cur_cid : ℕ
  pub req_cmd : ℕ
  pub req_total : ℕ
  pub req_received : ℕ
  pub next_seq : ℕ
  pub req_buf : List ℕ
  pub resp_cid : ℕ
  pub resp_cmd : ℕ
  pub resp_total : ℕ
  pub resp_sent : ℕ
  pub resp_seq : ℕ
  pub resp_pending : Bool
  pub resp_buf : List ℕ
  pub next_cid : ℕ
  pub busy_cid : ℕ
  pub running : Bool
  pub in_progress : Bool
  pub ka_status : ℕ
  pub ka_last : ℕ
  pub short_pkt : List ℕ
  pub short_pending : Bool
  pub abandoned : Bool
  pub resync_pkt : List ℕ
  pub resync_pending : Bool
  pub presence : Presence
  pub endpoint : List Bool
  pub sent : List (List ℕ)

unfoldable pub read_be32 : List ℕ → ℕ
read_be32 p = of_be32 (get_or p 0 0) (get_or p 1 0) (get_or p 2 0) (get_or p 3 0)

abbrev pub write_be32 : ℕ → List ℕ
write_be32 v = byte_of v 3 ∷ byte_of v 2 ∷ byte_of v 1 ∷ byte_of v 0 ∷ []

abbrev pub write_be16 : ℕ → List ℕ
write_be16 v = byte_of v 1 ∷ byte_of v 0 ∷ []

-- memcpy(&buf[at], bs, length of bs)
unfoldable pub overwrite : List ℕ → ℕ → List ℕ → List ℕ
overwrite buf at bs = take at buf ++ (bs ++ drop (at + length bs) buf)

unfoldable pub reset_assembly : Hid → Hid
reset_assembly h = record h {
  state = idle;
  cur_cid = 0;
  req_cmd = 0;
  req_total = 0;
  req_received = 0;
  next_seq = 0;
  req_buf = replicate max_payload 0;
}

-- The static buffers start at zero.
pub fido_hid_init : Hid → Hid
unfolding reset_assembly
fido_hid_init h =
    let h1 = reset_assembly h in
    record h1 {
      resp_pending = false;
      resp_total = 0;
      resp_sent = 0;
      resp_cid = 0;
      resp_cmd = 0;
      resp_seq = 0;
      short_pending = false;
      resync_pending = false;
      abandoned = false;
      busy_cid = 0;
      next_cid = 1;
    }

pub fido_hid_is_running : Hid → Bool
fido_hid_is_running h = h.running
