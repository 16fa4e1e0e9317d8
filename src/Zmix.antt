-- ===== src/Zmix.antt =====
-- The crate ursa_Master/libzmix: proofs of knowledge of committed values, and the BBS+ and PS
-- signature schemes with selective disclosure.
pub mod Bytes
pub mod Selection
pub mod PokVc
pub mod Bbs
pub mod Ps
