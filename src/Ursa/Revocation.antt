-- ===== src/Ursa/Revocation.antt =====
-- The data of revocation in ursa_Master/libursa/src/cl/mod.rs: keys, the registry with its accumulator,
-- signatures and witnesses. A `HashSet<u32>` is the list of its elements in the order of its iterator.
pub mod Sets
pub mod Tails
pub mod Delta
pub mod Witnesses
pub mod Issuer
pub mod Prover
pub mod Sums
pub mod Registry
pub mod Holder
pub mod Sound
mod Tests
use smartchaindb_driver.Prelude.{ℕ, Option, List}
use smartchaindb_driver.Amcl.{Field, Group, Pairing}

-- `M` is the group of PointG1, `N` that of PointG2 and of `Accumulator` and `Tail`.
pub record CredentialRevocationPublicKey {K : Field} (M N : Group K) : Type 0 where
  pub g : M.G
  pub g_dash : N.G
  pub h : M.G
  pub h0 : M.G
  pub h1 : M.G
  pub h2 : M.G
  pub htilde : M.G
  pub h_cap : N.G
  pub u : N.G
  pub pk : M.G
  pub y : N.G

pub record CredentialRevocationPrivateKey (K : Field) : Type 0 where
  pub x : K.F
  pub sk : K.F

pub record RevocationRegistry {K : Field} (N : Group K) : Type 0 where
  pub accum : N.G

pub record RevocationRegistryDelta {K : Field} (N : Group K) : Type 0 where
  pub prev_accum : Option N.G
  pub accum : N.G
  pub issued : List ℕ
  pub revoked : List ℕ

pub record RevocationKeyPublic {K : Field} {M N : Group K} (P : Pairing M N) : Type 0 where
  pub z : P.GT

pub record RevocationKeyPrivate (K : Field) : Type 0 where
  pub gamma : K.F

pub record WitnessSignature {K : Field} (M N : Group K) : Type 0 where
  pub sigma_i : N.G
  pub u_i : N.G
  pub g_i : M.G

pub record NonRevocationCredentialSignature {K : Field} (M N : Group K) : Type 0 where
  pub sigma : M.G
  pub c : K.F
  pub vr_prime_prime : K.F
  pub witness_signature : WitnessSignature M N
  pub g_i : M.G
  pub i : ℕ
  pub m2 : K.F

pub record Witness {K : Field} (N : Group K) : Type 0 where
  pub omega : N.G
