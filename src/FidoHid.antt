-- ===== src/FidoHid.antt =====
-- firmware/src/fido_hid: the FIDO2 side of the firmware.
pub mod PinToken
pub mod Slots
pub mod Cbor
pub mod Cose
pub mod Presence
pub mod Ctaphid
pub mod Store
pub mod Credstore
