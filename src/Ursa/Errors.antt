-- ===== src/Ursa/Errors.antt =====
-- The errors that the modelled part of libursa returns, one for each text and kind; the kind is InvalidStructure
-- of ursa_Master/libursa/src/errors/mod.rs, where no other is named.
use smartchaindb_driver.Ursa.Int.{ℤ}

pub data UrsaCryptoError : Type 0 where
  -- "Deltas can not be merged."
  deltas_can_not_be_merged : UrsaCryptoError
  -- "Issuer is sending incorrect data"
  incorrect_data : UrsaCryptoError
  -- "No revocation part present in blinded master secret."
  no_revocation_in_blinded_secrets : UrsaCryptoError
  -- "No revocation part present in credential revocation public key.er secret."
  no_revocation_in_public_key : UrsaCryptoError
  -- "No revocation part present in credential revocation private key."
  no_revocation_in_private_key : UrsaCryptoError
  -- "There are not revocation keys in the credential public key."
  no_revocation_keys : UrsaCryptoError
  -- "Invalid len of bytes representation for GroupOrderElement"
  invalid_element_len : UrsaCryptoError
  -- "Invalid len of bytes representation for PointG1"
  invalid_g1_len : UrsaCryptoError
  -- "Invalid len of bytes representation for PoingG2"
  invalid_g2_len : UrsaCryptoError
  -- "Invalid len of seed: expected {}, actual {}"
  invalid_seed_len : UrsaCryptoError
  -- an error of OpenSSL, of kind InvalidState
  no_inverse : UrsaCryptoError
  -- "List of attributes is empty"
  no_attributes : UrsaCryptoError
  -- "Value by key '{}' not found in pk.r", and in cred_pr_pub_key.r
  not_in_public_key : UrsaCryptoError
  -- "Value by key '{}' not found in pk.r", of kind ProofRejected
  rejected_not_in_public_key : UrsaCryptoError
  -- "Value by key '{}' not found in public key"
  not_found_in_public_key : UrsaCryptoError
  -- "Value by key '{}' not found in key_correctness_proof.xr_cap"
  not_in_xr_cap : UrsaCryptoError
  -- "Public key doesn't contains item for {} key in key_correctness_proof.xr_cap"
  no_item_in_public_key : UrsaCryptoError
  -- "Invalid Credential key correctness proof"
  invalid_key_correctness_proof : UrsaCryptoError
  -- "Value by key '{}' not found in primary_blinded_cred_secrets.committed_attributes"
  not_in_committed_attributes : UrsaCryptoError
  -- "Value by key '{}' not found in cred_values.committed_attributes"
  not_in_cred_values : UrsaCryptoError
  -- "Invalid BlindedCredentialSecrets correctness proof"
  invalid_blinded_secrets_proof : UrsaCryptoError
  -- "Invalid Signature correctness proof"
  invalid_signature_proof : UrsaCryptoError
  -- "Invalid Signature correctness proof q != q'"
  unequal_q : UrsaCryptoError
  -- "Invalid Signature correctness proof c != c'"
  unequal_c : UrsaCryptoError
  -- "Credential doesn't correspond to credential schema"
  schema_differs : UrsaCryptoError
  -- "Credential doesn't contain requested attribute"
  no_requested_attribute : UrsaCryptoError
  -- "Credential doesn't contain attribute requested in predicate"
  no_predicate_attribute : UrsaCryptoError
  -- "Value by key '{}' not found in m_tilde", and in init_proof.mtilde
  not_in_m_tilde : UrsaCryptoError
  -- "Value by key '{}' not found in attributes_values"
  not_in_attributes_values : UrsaCryptoError
  -- "Encoded value not found"
  encoded_value_not_found : UrsaCryptoError
  -- "Cannot express a negative number as sum of four squares {} "
  negative_delta : (delta : ℤ) → UrsaCryptoError
