-- ===== src/Zmix/Ps.antt =====
-- ursa_Master/libzmix/src/signatures/ps: Pointcheval-Sanders signatures. `SignatureGroup` and
-- `OtherGroup` are the two groups of the pairing, in the order that the enabled feature gives them; the
-- pairing is taken with the signature group first, as `ate_2_pairing` of ps/mod.rs does.
pub mod Errors
pub mod Keys
pub mod Signature
pub mod PokSig
