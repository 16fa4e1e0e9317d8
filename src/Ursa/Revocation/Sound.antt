-- ===== src/Ursa/Revocation/Sound.antt =====
-- An issued credential passes the prover's check while it is valid, and no longer once it is revoked.
pub mod Checks
use smartchaindb_driver.Prelude.{
  ℕ, ◌+◌, ◌*◌, ◌^◌, ◌≤◌, ◌<◌, ◌≡◌, ◌≢◌, sym, ap, ap₂, ◌∙◌, true, false, List, length, ok, err,
  ◌>>=◌, arith, le→ltb,
}
use smartchaindb_driver.Amcl.{Field, Group, Pairing}
use smartchaindb_driver.Amcl.Algebra.{•-inverse, •-inverse_right, identity-⊕}
use smartchaindb_driver.Zmix.Bytes.{Bytes}
use smartchaindb_driver.Zmix.Selection.{contains}
use smartchaindb_driver.Ursa.Errors.{incorrect_data}
use smartchaindb_driver.Ursa.Pair.{Curve, power, add_u32, element_from_bytes, number_from}
use smartchaindb_driver.Ursa.Revocation.{
  CredentialRevocationPublicKey, CredentialRevocationPrivateKey, RevocationRegistry,
  RevocationKeyPublic, NonRevocationCredentialSignature, Witness,
}
use smartchaindb_driver.Ursa.Revocation.Sets.{remove}
use smartchaindb_driver.Ursa.Revocation.Tails.Laws.{index_power-eq}
use smartchaindb_driver.Ursa.Revocation.Sums.{
  IsCredentials, weight, weight-remove, weight-shift, exponent, remove_absent,
}
use smartchaindb_driver.Ursa.Revocation.Registry.{Accumulates, place}
use smartchaindb_driver.Ursa.Revocation.Holder.{IsWitness}
use smartchaindb_driver.Ursa.Revocation.Issuer.{sign_index, new_revocation_registry_keys}
use smartchaindb_driver.Ursa.Revocation.Prover.{
  test_witness_signature, process_non_revocation_credential, blinded_secrets,
}
use smartchaindb_driver.Ursa.Revocation.Sound.Checks.{
  AreKeys, key_of, new_revocation_registry_keys-eq, z_calc_valid, z_calc_revoked, second_check,
  third_check,
}

module _ {K : Field} {M N : Group K} {P : Pairing M N} (C : Curve P)
    (r_pub : CredentialRevocationPublicKey M N) (r_priv : CredentialRevocationPrivateKey K)
    (gamma : K.F) (max_cred_num i : ℕ) where
  open K use {F, fe_zero, ◌⊞◌, ◌⊠◌, inverse}
  open M use {G, identity, ◌⊕◌, ◌•◌, ⊕_assoc, ⊕_comm}
  open P use {ate_pairing, ◌⊗◌, pairing-•}

  -- the signature on the index
  abbrev pub signature_of : F → F → F → F → NonRevocationCredentialSignature M N
  signature_of m2 vr_prime vr_prime_prime c = record {
    sigma =
        ((((r_pub.h0 ⊕ (r_pub.h1 • m2)) ⊕ (r_pub.h2 • vr_prime)) ⊕ (r_pub.g • power K gamma i))
          ⊕ (r_pub.h2 • vr_prime_prime))
        • inverse (r_priv.x ⊞ c);
    c = c;
    vr_prime_prime = vr_prime_prime;
    witness_signature = record {
      sigma_i = N.◌•◌ r_pub.g_dash (inverse (r_priv.sk ⊞ power K gamma i));
      u_i = N.◌•◌ r_pub.u (power K gamma i);
      g_i = r_pub.g • power K gamma i;
    };
    g_i = r_pub.g • power K gamma i;
    i = i;
    m2 = m2;
  }

  signed :
      (cred_context : Bytes) (vr_prime vr_prime_prime c : F)
      → i < 2 ^ 32
      → length cred_context ≤ 32
      → sign_index C
          (blinded_secrets r_pub vr_prime).0
          r_pub
          r_priv
          gamma
          i
          cred_context
          vr_prime_prime
          c
        ≡ ok (signature_of (C.element (number_from 0 cred_context)) vr_prime vr_prime_prime c)
  unfolding sign_index blinded_secrets element_from_bytes
  signed cred_context vr_prime vr_prime_prime c s l =
      rw (le→ltb 32 (length cred_context) l, index_power-eq C i gamma s)

  equal : (a b : P.GT) → a ≡ b → C.pair_eq a b ≡ true
  equal a b e = (C.pair_eq_iff a b).1 e

  unequal : (a b : P.GT) → a ≢ b → C.pair_eq a b ≡ false
  unequal a b n = ground (arith, C.pair_eq_iff a b)

  -- A non-revocation credential that the issuer signs for the blinded secrets of a prover, with a context of at most
  -- 32 bytes and draws that leave x + c and sk + gamma^i other than 0, is accepted when the prover
  -- processes it: under the keys of the issuer and of the registry, against a registry whose accumulator is the sum for a set
  -- of valid credentials in range that contains the index, and with a witness for that set; for fewer than 2^31
  -- credentials.
  pub signed_credential_accepted :
      (cred_context : Bytes) (vr_prime vr_prime_prime c : F) (rev_reg : RevocationRegistry N)
      (witness : Witness N) (live : List ℕ)
      → AreKeys r_pub r_priv
      → 2 * max_cred_num + 1 < 2 ^ 32
      → i ≤ max_cred_num
      → length cred_context ≤ 32
      → r_priv.x ⊞ c ≢ fe_zero
      → r_priv.sk ⊞ power K gamma i ≢ fe_zero
      → IsCredentials live max_cred_num
      → contains live i ≡ true
      → Accumulates C r_pub gamma max_cred_num rev_reg live
      → IsWitness N r_pub.g_dash gamma max_cred_num i witness live
      → (do
        keys ← new_revocation_registry_keys C r_pub max_cred_num gamma
        let blinded = blinded_secrets r_pub vr_prime
        signature ← sign_index C blinded.0 r_pub r_priv keys.1.gamma i cred_context vr_prime_prime c
        processed ←
            process_non_revocation_credential C signature blinded.1 r_pub keys.0 rev_reg witness
        ok processed.vr_prime_prime)
        ≡ ok (vr_prime ⊞ vr_prime_prime)
  unfolding process_non_revocation_credential test_witness_signature blinded_secrets
  signed_credential_accepted cred_context vr_prime vr_prime_prime c rev_reg witness live k s within
        l n n' set m a w =
      rw (
        new_revocation_registry_keys-eq C r_pub r_priv gamma max_cred_num i s,
        signed cred_context vr_prime vr_prime_prime c (omega arith) l,
        C.reread-eq,
        equal _ _ (
            z_calc_valid C r_pub r_priv gamma max_cred_num i rev_reg witness live within set m a w),
        equal _ _ (second_check C r_pub r_priv gamma max_cred_num i k n'),
        equal _ _ (
            third_check C r_pub r_priv gamma max_cred_num i (C.element (number_from 0 cred_context))
              vr_prime vr_prime_prime c k n),
      )

  -- Where the index is not among the valid credentials of the registry, and the accumulator's key is not 1, the prover
  -- refuses every credential with the index's point, given a witness for those valid credentials.
  pub revoked_credential_refused :
      (signature : NonRevocationCredentialSignature M N) (vr_prime : F)
      (rev_reg : RevocationRegistry N) (witness : Witness N) (live : List ℕ)
      → signature.witness_signature.g_i ≡ r_pub.g • power K gamma i
      → (key_of C r_pub r_priv gamma max_cred_num i).z ≢ P.gt_one
      → contains live i ≡ false
      → Accumulates C r_pub gamma max_cred_num rev_reg live
      → IsWitness N r_pub.g_dash gamma max_cred_num i witness live
      → process_non_revocation_credential C signature vr_prime r_pub
          (key_of C r_pub r_priv gamma max_cred_num i)
          rev_reg
          witness
        ≡ err incorrect_data
  unfolding process_non_revocation_credential test_witness_signature
  revoked_credential_refused signature vr_prime rev_reg witness live point proper absent a w = rw (
    point,
    z_calc_revoked C r_pub r_priv gamma max_cred_num i rev_reg witness live absent a w,
    unequal _ _ (λ e. proper (sym e)),
  )
