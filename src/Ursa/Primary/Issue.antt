-- ===== src/Ursa/Primary/Issue.antt =====
-- The signature of an issuer on a credential, the proof that it is right, and what the prover makes of them:
-- ursa_Master/libursa/src/cl/issuer.rs and cl/prover.rs.
pub mod Products
pub mod Accepted
pub mod Equation
use smartchaindb_driver.Prelude.{
  Bool, true, false, not, ◌&&◌, ◌||◌, List, [], ◌∷◌, ◌++◌, Outcome, ok, err, ◌>>=◌, ◌>>◌, unwrap,
  fail_if, if◌then◌else◌,
}
use smartchaindb_driver.Zmix.Bytes.{Bytes}
use smartchaindb_driver.Ursa.Errors.{
  UrsaCryptoError, not_in_public_key, not_found_in_public_key, invalid_signature_proof, unequal_q,
  unequal_c,
}
use smartchaindb_driver.Ursa.BigNumber.{BigNumbers, mod_div, get_pedersen_commitment}
use smartchaindb_driver.Ursa.Names.{Name, Map, lookup, contains_key}
use smartchaindb_driver.Ursa.Primary.{
  CredentialPrimaryPublicKey, CredentialPrimaryPrivateKey, CredentialValue, known, hidden,
  commitment, is_known, is_hidden, value_of, PrimaryCredentialSignature, SignatureCorrectnessProof,
}
use smartchaindb_driver.Ursa.Primary.Secrets.{get_or_err}

module _ (B : BigNumbers) where
  open B use {
    Z, bn_zero, ◌⊞◌, ◌⊠◌, eq, mod_exp, mod_mul, mod_sub, inverse, is_prime, to_bytes,
    get_hash_as_int,
  }

  -- the loop over the known values
  abbrev pub multiply_known :
      CredentialPrimaryPublicKey Z → Z → Map (CredentialValue Z) → Outcome UrsaCryptoError Z
  multiply_known p_pub_key rx [] = ok rx
  multiply_known p_pub_key rx ((key, known value) ∷ values) = do
    pk_r ← get_or_err not_in_public_key (lookup key p_pub_key.r)
    multiply_known p_pub_key (mod_mul (mod_exp pk_r value p_pub_key.n) rx p_pub_key.n) values
  multiply_known p_pub_key rx ((key, hidden value) ∷ values) = multiply_known p_pub_key rx values
  multiply_known p_pub_key rx ((key, commitment value blinding_factor) ∷ values) =
      multiply_known p_pub_key rx values

  -- The signature's a, and q. `u` is that of the blinded secrets.
  unfoldable pub sign_primary_credential :
      CredentialPrimaryPublicKey Z
      → CredentialPrimaryPrivateKey Z
      → Z
      → Map (CredentialValue Z)
      → Z
      → Z
      → Z
      → Outcome UrsaCryptoError (Z × Z)
  sign_primary_credential p_pub_key p_priv_key cred_context values v u e = do
    let rx_1 = mod_exp p_pub_key.s v p_pub_key.n
    let rx_2 = if not (eq u bn_zero) then mod_mul rx_1 u p_pub_key.n else rx_1
    let rx_3 = mod_mul rx_2 (mod_exp p_pub_key.rctxt cred_context p_pub_key.n) p_pub_key.n
    rx ← multiply_known p_pub_key rx_3 values
    q ← mod_div B p_pub_key.z rx p_pub_key.n
    let n = p_priv_key.p ⊠ p_priv_key.q
    e_inverse ← inverse e n
    ok (mod_exp q e_inverse p_pub_key.n, q)

  -- `v` and `e` are drawn
  unfoldable pub new_primary_credential :
      CredentialPrimaryPublicKey Z
      → CredentialPrimaryPrivateKey Z
      → Z
      → Map (CredentialValue Z)
      → Z
      → Z
      → Z
      → Outcome UrsaCryptoError (PrimaryCredentialSignature Z × Z)
  new_primary_credential p_pub_key p_priv_key cred_context values v u e = do
    signed ← sign_primary_credential p_pub_key p_priv_key cred_context values v u e
    ok (record { m_2 = cred_context; a = signed.0; e = e; v = v }, signed.1)

  -- `r` is drawn
  unfoldable pub new_signature_correctness_proof :
      CredentialPrimaryPublicKey Z
      → CredentialPrimaryPrivateKey Z
      → PrimaryCredentialSignature Z
      → Z
      → Z
      → Z
      → Outcome UrsaCryptoError (SignatureCorrectnessProof Z)
  new_signature_correctness_proof p_pub_key p_priv_key p_cred_signature q nonce r = do
    let n = p_priv_key.p ⊠ p_priv_key.q
    let a_cap = mod_exp q r p_pub_key.n
    let values = to_bytes q ++ (to_bytes p_cred_signature.a ++ (to_bytes a_cap ++ to_bytes nonce))
    let c = get_hash_as_int (values ∷ [])
    e_inverse ← inverse p_cred_signature.e n
    ok (record { c = c; se = mod_sub r (mod_mul c e_inverse n) n })

  unfoldable pub process_primary_credential :
      PrimaryCredentialSignature Z → Z → PrimaryCredentialSignature Z
  process_primary_credential p_cred v_prime = record {
    m_2 = p_cred.m_2;
    a = p_cred.a;
    e = p_cred.e;
    v = v_prime ⊞ p_cred.v;
  }

  -- `value.is_known() || value.is_hidden()`
  abbrev pub is_signed : CredentialValue Z → Bool
  is_signed value = is_known value || is_hidden value

  abbrev pub check_attributes :
      CredentialPrimaryPublicKey Z → Map (CredentialValue Z) → Outcome UrsaCryptoError (Unit {0})
  check_attributes p_pub_key [] = ok tt
  check_attributes p_pub_key ((attr, value) ∷ values) =
      let rest = check_attributes p_pub_key values in
      fail_if (is_signed value && not (contains_key attr p_pub_key.r)) not_found_in_public_key
      >> rest

  -- one round of the fold over the values that are signed and have a base in the key
  abbrev pub multiply_one :
      CredentialPrimaryPublicKey Z → Z → Name → CredentialValue Z → Outcome UrsaCryptoError Z
  multiply_one p_pub_key acc attr value =
      if is_signed value && contains_key attr p_pub_key.r
      then (do
        pk_r ← unwrap (lookup attr p_pub_key.r)
        ok (mod_mul acc (mod_exp pk_r (value_of value) p_pub_key.n) p_pub_key.n))
      else ok acc

  abbrev pub multiply_signed :
      CredentialPrimaryPublicKey Z → Z → Map (CredentialValue Z) → Outcome UrsaCryptoError Z
  multiply_signed p_pub_key acc [] = ok acc
  multiply_signed p_pub_key acc ((attr, value) ∷ values) = do
    next ← multiply_one p_pub_key acc attr value
    multiply_signed p_pub_key next values

  unfoldable pub check_signature_correctness_proof :
      PrimaryCredentialSignature Z
      → Map (CredentialValue Z)
      → SignatureCorrectnessProof Z
      → CredentialPrimaryPublicKey Z
      → Z
      → Outcome UrsaCryptoError (Unit {0})
  check_signature_correctness_proof p_cred_sig values proof p_pub_key nonce = do
    fail_if (not (is_prime p_cred_sig.e)) invalid_signature_proof
    check_attributes p_pub_key values
    rx ←
        multiply_signed p_pub_key
          (get_pedersen_commitment B p_pub_key.s p_cred_sig.v p_pub_key.rctxt p_cred_sig.m_2
            p_pub_key.n)
          values
    q ← mod_div B p_pub_key.z rx p_pub_key.n
    let expected_q = mod_exp p_cred_sig.a p_cred_sig.e p_pub_key.n
    fail_if (not (eq q expected_q)) unequal_q
    let degree = proof.c ⊞ (proof.se ⊠ p_cred_sig.e)
    let a_cap = mod_exp p_cred_sig.a degree p_pub_key.n
    let bytes = to_bytes q ++ (to_bytes p_cred_sig.a ++ (to_bytes a_cap ++ to_bytes nonce))
    let c = get_hash_as_int (bytes ∷ [])
    fail_if (not (eq proof.c c)) unequal_c
