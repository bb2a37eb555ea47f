-- ===== src/Tropic.antt =====
-- firmware/src/tropic: what the firmware keeps in the TROPIC01 chip, and how.
pub mod Rmem
pub mod Keys
pub mod RecPair
pub mod PinKernel
pub mod SampleChip
pub mod SampleKeys
pub mod ChipClosed
