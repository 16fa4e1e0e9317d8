-- ===== src/Ursa/Revocation/Prover.antt =====
-- The check of a non-revocation credential in ursa_Master/libursa/src/cl/prover.rs.
use smartchaindb_driver.Prelude.{not, Outcome, ok, fail_if, ◌>>◌}
use smartchaindb_driver.Amcl.{Field, Group, Pairing}
use smartchaindb_driver.Ursa.Errors.{UrsaCryptoError, incorrect_data}
use smartchaindb_driver.Ursa.Pair.{Curve}
use smartchaindb_driver.Ursa.Revocation.{
  CredentialRevocationPublicKey, RevocationRegistry, RevocationKeyPublic,
  NonRevocationCredentialSignature, Witness,
}

-- `_generate_blinded_revocation_credential_secrets`: the commitment to the drawn blinding factor
unfoldable pub blinded_secrets :
    {K : Field} {M N : Group K} → CredentialRevocationPublicKey M N → K.F → M.G × K.F
blinded_secrets {M = M} r_pub_key vr_prime = (M.◌•◌ r_pub_key.h2 vr_prime, vr_prime)

module _ {K : Field} {M N : Group K} {P : Pairing M N} (C : Curve P) where
  open K use {F, ◌⊞◌}
  open M use {◌⊕◌, ◌•◌}
  open P use {ate_pairing, ◌⊗◌}

  -- `_test_witness_signature`
  unfoldable pub test_witness_signature :
      NonRevocationCredentialSignature M N
      → CredentialRevocationPublicKey M N
      → RevocationKeyPublic P
      → RevocationRegistry N
      → Witness N
      → F
      → Outcome UrsaCryptoError (Unit {0})
  test_witness_signature r_cred cred_rev_pub_key rev_key_pub rev_reg witness r_cnxt_m2 = do
    let z_calc =
        ate_pairing r_cred.witness_signature.g_i rev_reg.accum
        ⊗ C.pair_inverse (ate_pairing cred_rev_pub_key.g witness.omega)
    fail_if (not (C.pair_eq z_calc rev_key_pub.z)) incorrect_data
    let pair_gg_calc =
        ate_pairing (cred_rev_pub_key.pk ⊕ r_cred.g_i) r_cred.witness_signature.sigma_i
    let pair_gg = ate_pairing cred_rev_pub_key.g cred_rev_pub_key.g_dash
    fail_if (not (C.pair_eq pair_gg_calc pair_gg)) incorrect_data
    let pair_h1 =
        ate_pairing r_cred.sigma (N.◌⊕◌ cred_rev_pub_key.y (N.◌•◌ cred_rev_pub_key.h_cap r_cred.c))
    let pair_h2 =
        ate_pairing
          (((cred_rev_pub_key.h0 ⊕ (cred_rev_pub_key.h1 • C.reread r_cnxt_m2))
              ⊕ (cred_rev_pub_key.h2 • r_cred.vr_prime_prime))
            ⊕ r_cred.g_i)
          cred_rev_pub_key.h_cap
    fail_if (not (C.pair_eq pair_h1 pair_h2)) incorrect_data
    ok tt

  -- `_process_non_revocation_credential`: the credential with its blinding factor added, once it is checked
  unfoldable pub process_non_revocation_credential :
      NonRevocationCredentialSignature M N
      → F
      → CredentialRevocationPublicKey M N
      → RevocationKeyPublic P
      → RevocationRegistry N
      → Witness N
      → Outcome UrsaCryptoError (NonRevocationCredentialSignature M N)
  process_non_revocation_credential r_cred vr_prime cred_rev_pub_key rev_key_pub rev_reg witness =
      do
        let processed : NonRevocationCredentialSignature M N = record {
          sigma = r_cred.sigma;
          c = r_cred.c;
          vr_prime_prime = vr_prime ⊞ r_cred.vr_prime_prime;
          witness_signature = r_cred.witness_signature;
          g_i = r_cred.g_i;
          i = r_cred.i;
          m2 = r_cred.m2;
        }
        test_witness_signature processed cred_rev_pub_key rev_key_pub rev_reg witness r_cred.m2
        ok processed
