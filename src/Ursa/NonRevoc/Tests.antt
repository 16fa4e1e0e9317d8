-- ===== src/Ursa/NonRevoc/Tests.antt =====
-- A proof of non-revocation over the integers modulo 3, and the theorems at concrete inputs.
use smartchaindb_driver.Prelude.{◌≡◌, ok, ◌>>=◌}
use smartchaindb_driver.Amcl.Mod3.{Residue, r0, r1, r2, group3, pairing3}
use smartchaindb_driver.Ursa.Pair.Mod3.{curve3}
use smartchaindb_driver.Ursa.Revocation.{
  CredentialRevocationPublicKey, RevocationRegistry, RevocationKeyPublic,
  NonRevocationCredentialSignature, Witness,
}
use smartchaindb_driver.Ursa.NonRevoc.{NonRevocProofXList, as_list, from_list}
use smartchaindb_driver.Ursa.NonRevoc.Steps.{
  init_non_revocation_proof, finalize_non_revocation_proof, verify_non_revocation_proof,
}
use smartchaindb_driver.Ursa.NonRevoc.Lists.{from_list-as_list}
use smartchaindb_driver.Ursa.NonRevoc.Points.{points_of, verify_points}

abbrev params : NonRevocProofXList Residue
params = record {
  rho = r1;
  r = r2;
  r_prime = r0;
  r_prime_prime = r2;
  r_prime_prime_prime = r1;
  o = r2;
  o_prime = r1;
  m = r1;
  m_prime = r2;
  t = r0;
  t_prime = r1;
  m2 = r2;
  s = r1;
  c = r2;
}

abbrev public : CredentialRevocationPublicKey group3 group3
public = record {
  g = r1;
  g_dash = r1;
  h = r2;
  h0 = r1;
  h1 = r2;
  h2 = r1;
  htilde = r1;
  h_cap = r1;
  u = r1;
  pk = r2;
  y = r1;
}

abbrev credential : NonRevocationCredentialSignature group3 group3
credential = record {
  sigma = r1;
  c = r2;
  vr_prime_prime = r1;
  witness_signature = record { sigma_i = r1; u_i = r2; g_i = r2 };
  g_i = r2;
  i = 1;
  m2 = r1;
}

abbrev registry : RevocationRegistry group3
registry = record { accum = r1 }

abbrev registry_key : RevocationKeyPublic pairing3
registry_key = record { z = r2 }

abbrev witness : Witness group3
witness = record { omega = r1 }

from_list-as_list_example : from_list (as_list params) ≡ ok params
from_list-as_list_example = from_list-as_list params

verify_points_example :
    (let init_proof =
        init_non_revocation_proof curve3 credential registry public witness (λ i. r2) params in
      do
        proof ← finalize_non_revocation_proof curve3 init_proof r2
        ok (
            points_of curve3
              (verify_non_revocation_proof curve3 public registry registry_key r2 proof)))
    ≡ ok (
        points_of curve3
          (init_non_revocation_proof curve3 credential registry public witness
            (λ i. r2)
            params).tau_list)
verify_points_example =
    verify_points curve3 credential registry public registry_key witness (λ i. r2) params r2
