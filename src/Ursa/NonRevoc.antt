-- ===== src/Ursa/NonRevoc.antt =====
-- The proof of non-revocation: its lists in ursa_Master/libursa/src/cl/mod.rs.
pub mod Steps
pub mod Lists
pub mod Points
mod Tests
use smartchaindb_driver.Prelude.{
  ℕ, Bool, true, false, List, [], ◌∷◌, get_elem?, if◌then◌else◌, Outcome, ok, ◌>>=◌, unwrap,
}
use smartchaindb_driver.Amcl.{Field, Group, Pairing}
use smartchaindb_driver.Ursa.Errors.{UrsaCryptoError}
use smartchaindb_driver.Ursa.Pair.{Curve}
use smartchaindb_driver.Ursa.Revocation.{
  CredentialRevocationPublicKey, RevocationRegistry, RevocationKeyPublic,
  NonRevocationCredentialSignature, Witness,
}

pub record NonRevocProofXList (F : Type 0) : Type 0 where
  pub rho : F
  pub r : F
  pub r_prime : F
  pub r_prime_prime : F
  pub r_prime_prime_prime : F
  pub o : F
  pub o_prime : F
  pub m : F
  pub m_prime : F
  pub t : F
  pub t_prime : F
  pub m2 : F
  pub s : F
  pub c : F

unfoldable pub as_list : {F : Type 0} → NonRevocProofXList F → List F
as_list self =
    self.rho ∷ self.o ∷ self.c ∷ self.o_prime ∷ self.m ∷ self.m_prime ∷ self.t ∷ self.t_prime
    ∷ self.m2 ∷ self.s ∷ self.r ∷ self.r_prime ∷ self.r_prime_prime ∷ self.r_prime_prime_prime ∷ []

-- `seq[i]`
abbrev at : {F : Type 0} → List F → ℕ → Outcome UrsaCryptoError F
at seq i = unwrap (get_elem? seq i)

unfoldable pub from_list : {F : Type 0} → List F → Outcome UrsaCryptoError (NonRevocProofXList F)
from_list seq = do
  rho ← at seq 0
  r ← at seq 10
  r_prime ← at seq 11
  r_prime_prime ← at seq 12
  r_prime_prime_prime ← at seq 13
  o ← at seq 1
  o_prime ← at seq 3
  m ← at seq 4
  m_prime ← at seq 5
  t ← at seq 6
  t_prime ← at seq 7
  m2 ← at seq 8
  s ← at seq 9
  c ← at seq 2
  ok (record {
    rho = rho;
    r = r;
    r_prime = r_prime;
    r_prime_prime = r_prime_prime;
    r_prime_prime_prime = r_prime_prime_prime;
    o = o;
    o_prime = o_prime;
    m = m;
    m_prime = m_prime;
    t = t;
    t_prime = t_prime;
    m2 = m2;
    s = s;
    c = c;
  })

pub record NonRevocProofCList {K : Field} (M N : Group K) : Type 0 where
  pub e : M.G
  pub d : M.G
  pub a : M.G
  pub g : M.G
  pub w : N.G
  pub s : N.G
  pub u : N.G

pub record NonRevocProofTauList {K : Field} {M N : Group K} (P : Pairing M N) : Type 0 where
  pub t1 : M.G
  pub t2 : M.G
  pub t3 : P.GT
  pub t4 : P.GT
  pub t5 : M.G
  pub t6 : M.G
  pub t7 : P.GT
  pub t8 : P.GT

pub record NonRevocProof {K : Field} (M N : Group K) : Type 0 where
  pub x_list : NonRevocProofXList K.F
  pub c_list : NonRevocProofCList M N

pub record NonRevocInitProof {K : Field} {M N : Group K} (P : Pairing M N) : Type 0 where
  pub c_list_params : NonRevocProofXList K.F
  pub tau_list_params : NonRevocProofXList K.F
  pub c_list : NonRevocProofCList M N
  pub tau_list : NonRevocProofTauList P
