-- ===== src/Lib.antt =====
-- Verification of the nixtropic firmware (firmware/src): a USB security key on an STM32U5 with a
-- TROPIC01 secure element behind it.
--
-- Host packets come in through CTAPHID (fido_hid/ctaphid.c), which assembles requests, hands them
-- to the CTAP2 dispatcher and sends the answers. The commands read and write CBOR
-- (fido_hid/cbor.c), ask for a touch (fido_hid/user_presence.c), check the PIN/UV auth token
-- (fido_hid/pin_token.c), and keep their persistent state on the chip in records of two copies
-- (tropic/rec_pair.c). A PIN is checked by the chip's MAC-and-Destroy (tropic/pin_md_kernel.c).
-- The allocation of the FIDO credentials and their metadata (fido_hid/slots.c) and the state of the
-- OpenPGP card (openpgp/openpgp_state.c) are clients of the record pairs. The credential store
-- (fido_hid/credstore.c) puts the chip's keys and counter beside the slots; the FIDO PIN
-- (fido_hid/pin_md.c) is bound by the M&D kernel, and fido_hid/fido_state.c boots and wipes all of
-- them together.
--
-- - Base: the names and lemmas that all files share: lists, bytes, tests on numbers, and masks of
--   one byte as tables checked by evaluation (Base/Bits).
-- - Tropic/Rmem: the R-memory of the chip as an interface, a record of operations, with the laws of
--   a chip that tells the truth and of one that works. libtropic and the chip are not in this
--   repository.
-- - Tropic/Keys: the other calls of tropic/tropic.c that the FIDO store makes, as an interface with
--   their laws: random numbers, MAC-and-Destroy, the ECC key slots and the monotonic counters. What
--   a key slot holds and where a counter is are ghost values that the laws speak of.
-- - Tropic/RecPair: tropic/rec_pair.c and rec_pair.h. Each function takes the pair and the state of
--   the chip and returns what the code returns and both of them; SHA-256 is a parameter. The
--   children hold the record format, the commit of one copy, the read with its repair, the power
--   cuts, the lockout after a failure (Lockout), and, for the clients, what calls leave in the slots
--   of a pair (Contract, Writes, Stored) and in all others (Frame). A slot that reads as empty may
--   be a damaged one, so what a clear leaves (Cleared) is said as the code can know it: the erase
--   was acknowledged and the slot read as empty after it. Closed is about any predicate of the chip
--   that the R-memory calls preserve; the other components' files of that name carry it up to their
--   calls.
-- - Tropic/PinKernel: tropic/pin_md_kernel.c and pin_md_kernel.h, the PIN bound to
--   MAC-and-Destroy slots. Scheme holds settling, setup and verify, Api the public functions. The
--   record pair and the chip are the state; the chip's calls, HMAC and SHA-256 are parameters. The
--   loops over slots recurse on the number of slots left.
-- - Tropic/SampleChip: a working chip, and one that fails at a slot, for the concrete runs;
--   Tropic/SampleKeys is one with keys and counters.
-- - FidoHid/PinToken: fido_hid/pin_token.c. The static variables are the record Puat; the time is
--   an argument and HMAC-SHA-256 a parameter.
-- - FidoHid/Slots: fido_hid/slots.c and slots.h. The static variables and the chip are the record
--   Slots; a uint32_t bitmap is the list of its 32 bits (Slots/Bitmap), the 256 bytes of a
--   credential's metadata are built and read in Slots/Meta. The loops over the 29 slots recurse on
--   the number of slots left. The random numbers and the session are the interface Services.
--   Slots/Session has the calls as steps, with power cycles.
-- - OpenPgp/State: openpgp/openpgp_state.c and openpgp_state.h. The 214 bytes of the cached record
--   are a record of the fields at their offsets (State/Record); State/Codec shows that this is the
--   same thing. State/Effects has the setters, State/Session sequences of calls.
-- - FidoHid/Store: fido_hid/pin_md.c and fido_state.c. The record Fido joins the state of the slots
--   and the chip, the record pair O2 of the PIN and the flags of credstore.c. Steps, Wipe and Boot
--   follow a wipe and a boot through all components.
-- - FidoHid/Credstore: fido_hid/credstore.c over FidoHid/Store. Isolation is about the keys, Count
--   about the signature counter.
-- - OpenPgp/Pin: openpgp/pgp_pin.c and pgp_pin.h. The record Card joins the state of
--   openpgp_state.c and the chip, the record pairs O4, O5 and O6, and the count of boots.
-- - OpenPgp/Lifecycle: openpgp/pgp_lifecycle.c; Steps and Wipe follow a TERMINATE through all
--   components.
-- - OpenPgp/Keys: openpgp/pgp_keys.c. OpenPgp/Dec: openpgp/pgp_dec.c, with AES-GCM as an
--   interface whose contexts are opaque.
-- - FidoHid/Cbor: fido_hid/cbor.c. Writer holds the bytes written so far and the capacity, Reader a
--   buffer and a position. The validator and the skip recurse on the nesting that is left (4 and
--   16 levels, the code's limits), so no fuel is needed.
-- - FidoHid/Cose: fido_hid/cose.c and cose.h, the COSE keys over the CBOR writer and the DER
--   signatures; Cose/Der has a strict reader of DER.
-- - FidoHid/Presence: fido_hid/user_presence.c, the debouncer that the timer interrupt runs and the
--   wait for a touch. What interrupts and callbacks do during the wait is a list of rounds.
-- - FidoHid/Ctaphid: fido_hid/ctaphid.c, ctaphid.h and proto.h. The static variables are the record
--   Hid. Send is the outgoing half, Receive the incoming one with fido_hid_task and
--   fido_hid_progress. The USB endpoint is the list of its coming answers; the emission loop runs
--   on fuel, one more than the endpoint has answers, which is enough since each round that goes on
--   uses one up; Termination bounds the rounds by the packets of the response, whatever the
--   endpoint does. Host is an independent description of the packets of a message. The CTAP2
--   dispatcher is a parameter.
--
-- Machine integers wrap where the code can wrap them: the generation of a record, the millisecond
-- clock, the token's generation, the channel counter and the sequence numbers. Positions and
-- lengths in buffers stay far below 2^16 and are plain numbers.
--
-- Not modelled: the TROPIC01 calls themselves, ClientPIN and the CTAP2 commands, the command
-- dispatch of the OpenPGP applet, CCID, the RPC of the development tools, the platform code and the
-- debug output of a debug build.
mod Base
pub mod Tropic
pub mod OpenPgp
pub mod FidoHid
