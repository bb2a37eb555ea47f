-- ===== src/OpenPgp.antt =====
-- firmware/src/openpgp: the OpenPGP card.
pub mod State
pub mod Pin
pub mod Lifecycle
pub mod Keys
pub mod Dec
