-- ===== src/Ursa.antt =====
-- libursa: the credentials of ursa_Master/libursa/src/cl with their revocation, over the numbers of bn and
-- the pairing of pair, and the BLS signatures of bls.
pub mod Errors
pub mod Pair
pub mod Revocation
pub mod NonRevoc
pub mod Bls
pub mod BigNumber
pub mod FourSquares
pub mod Names
pub mod Int
pub mod Predicates
pub mod NameSets
pub mod Primary
pub mod Builders
