-- ===== src/FidoHid/Cbor.antt =====
-- firmware/src/fido_hid/cbor.c and cbor.h: the CBOR writer and the reader with its validator.
pub mod Writer
pub mod Reader
pub mod RoundTrip
mod Tests
