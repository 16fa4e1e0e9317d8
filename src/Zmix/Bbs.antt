-- ===== src/Zmix/Bbs.antt =====
-- ursa_Master/libzmix/src/signatures/bbs: BBS+ signatures, with the error kinds of
-- ursa_Master/libzmix/src/errors.rs.
pub mod Errors
pub mod Keys
pub mod Signature
pub mod PokSig
