-- ===== src/Ursa/Revocation/Issuer.antt =====
-- The part of ursa_Master/libursa/src/cl/issuer.rs for revocation: keys, the registry and its changes, and
-- the signature on a credential's index. Random points and elements are arguments.
use smartchaindb_driver.Prelude.{
  ℕ, Bool, Option, none, some, List, [], ◌∷◌, if◌then◌else◌, Outcome, ok, err, ◌>>=◌,
}
use smartchaindb_driver.Amcl.{Field, Group, Pairing}
use smartchaindb_driver.Zmix.Bytes.{Bytes}
use smartchaindb_driver.Ursa.Errors.{
  UrsaCryptoError, no_revocation_in_blinded_secrets, no_revocation_in_public_key,
  no_revocation_in_private_key, no_revocation_keys,
}
use smartchaindb_driver.Ursa.Pair.{Curve, add_u32, sub_u32, element_from_bytes}
use smartchaindb_driver.Ursa.Revocation.{
  CredentialRevocationPublicKey, CredentialRevocationPrivateKey, RevocationRegistry,
  RevocationRegistryDelta, RevocationKeyPublic, RevocationKeyPrivate,
  NonRevocationCredentialSignature,
}
use smartchaindb_driver.Ursa.Revocation.Sets.{range}
use smartchaindb_driver.Ursa.Revocation.Tails.{
  RevocationTailsGenerator, new_generator, index_power, new_tail, access_tail,
}

-- `_get_index`
unfoldable pub get_index : ℕ → ℕ → ℕ
get_index max_cred_num rev_idx = sub_u32 (add_u32 max_cred_num 1) rev_idx

-- `_new_credential_revocation_keys`, with the points and elements that it draws
unfoldable pub new_credential_revocation_keys :
    {K : Field} {M N : Group K}
    → (h h0 h1 h2 htilde g : M.G) → (u h_cap : N.G) → (x sk : K.F) → (g_dash : N.G)
    → CredentialRevocationPublicKey M N × CredentialRevocationPrivateKey K
new_credential_revocation_keys {M = M} {N = N} h h0 h1 h2 htilde g u h_cap x sk g_dash = (
  record {
    g = g;
    g_dash = g_dash;
    h = h;
    h0 = h0;
    h1 = h1;
    h2 = h2;
    htilde = htilde;
    h_cap = h_cap;
    u = u;
    pk = M.◌•◌ g sk;
    y = N.◌•◌ h_cap x;
  },
  record { x = x; sk = sk },
)

module _ {K : Field} {M N : Group K} {P : Pairing M N} (C : Curve P) where
  open K use {F, ◌⊞◌, inverse}
  open M use {◌⊕◌, ◌•◌}

  -- `_new_revocation_registry_keys`, with the drawn gamma
  unfoldable pub new_revocation_registry_keys :
      CredentialRevocationPublicKey M N
      → ℕ
      → F
      → Outcome UrsaCryptoError (RevocationKeyPublic P × RevocationKeyPrivate K)
  new_revocation_registry_keys cred_rev_pub_key max_cred_num gamma = do
    let z = P.ate_pairing cred_rev_pub_key.g cred_rev_pub_key.g_dash
    pow ← index_power C (add_u32 max_cred_num 1) gamma
    ok (record { z = C.pair_pow z pow }, record { gamma = gamma })

  -- the loop of `_new_revocation_registry`
  unfoldable pub add_all_tails : ℕ → N.G → F → List ℕ → N.G → Outcome UrsaCryptoError N.G
  add_all_tails max_cred_num g_dash gamma [] accum = ok accum
  add_all_tails max_cred_num g_dash gamma (i ∷ is) accum = do
    tail ← new_tail C (get_index max_cred_num i) g_dash gamma
    add_all_tails max_cred_num g_dash gamma is (N.◌⊕◌ accum tail)

  -- `_new_revocation_registry`
  unfoldable pub new_revocation_registry :
      CredentialRevocationPublicKey M N
      → RevocationKeyPrivate K
      → ℕ
      → Bool
      → Outcome UrsaCryptoError (RevocationRegistry N)
  new_revocation_registry cred_rev_pub_key rev_key_priv max_cred_num issuance_by_default = do
    accum ←
        (if issuance_by_default
          then add_all_tails max_cred_num cred_rev_pub_key.g_dash rev_key_priv.gamma
              (range 1 max_cred_num) N.identity
          else ok N.identity)
    ok (record { accum = accum })

  unfoldable pub new_revocation_registry_def :
      Option (CredentialRevocationPublicKey M N)
      → ℕ
      → Bool
      → F
      → Outcome UrsaCryptoError (
          RevocationKeyPublic P
          × RevocationKeyPrivate K
          × RevocationRegistry N
          × RevocationTailsGenerator N)
  new_revocation_registry_def r_key max_cred_num issuance_by_default gamma = elim r_key [
    | none ↦ err no_revocation_keys
    | some cred_rev_pub_key ↦ do
      keys ← new_revocation_registry_keys cred_rev_pub_key max_cred_num gamma
      rev_reg ← new_revocation_registry cred_rev_pub_key keys.1 max_cred_num issuance_by_default
      ok (keys.0, keys.1, rev_reg, new_generator max_cred_num keys.1.gamma cred_rev_pub_key.g_dash)
  ]

  -- `revoke_credential`, with the registry as it leaves it
  unfoldable pub revoke_credential :
      RevocationRegistry N
      → ℕ
      → ℕ
      → List N.G
      → Outcome UrsaCryptoError (RevocationRegistryDelta N × RevocationRegistry N)
  revoke_credential rev_reg max_cred_num rev_idx tails = do
    tail ← access_tail tails (get_index max_cred_num rev_idx)
    let accum = N.◌⊖◌ rev_reg.accum tail
    ok (
      record {
        prev_accum = some rev_reg.accum;
        accum = accum;
        issued = [];
        revoked = rev_idx ∷ [];
      },
      record { accum = accum },
    )

  -- `recovery_credential`
  unfoldable pub recovery_credential :
      RevocationRegistry N
      → ℕ
      → ℕ
      → List N.G
      → Outcome UrsaCryptoError (RevocationRegistryDelta N × RevocationRegistry N)
  recovery_credential rev_reg max_cred_num rev_idx tails = do
    tail ← access_tail tails (get_index max_cred_num rev_idx)
    let accum = N.◌⊕◌ rev_reg.accum tail
    ok (
      record {
        prev_accum = some rev_reg.accum;
        accum = accum;
        issued = rev_idx ∷ [];
        revoked = [];
      },
      record { accum = accum },
    )

  -- the change of the registry in `_new_non_revocation_credential`
  unfoldable pub issue :
      RevocationRegistry N
      → ℕ
      → ℕ
      → Bool
      → List N.G
      → Outcome UrsaCryptoError (Option (RevocationRegistryDelta N) × RevocationRegistry N)
  issue rev_reg max_cred_num rev_idx issuance_by_default tails =
      if issuance_by_default then ok (none, rev_reg) else (do
        tail ← access_tail tails (get_index max_cred_num rev_idx)
        let accum = N.◌⊕◌ rev_reg.accum tail
        ok (
          some (record {
            prev_accum = some rev_reg.accum;
            accum = accum;
            issued = rev_idx ∷ [];
            revoked = [];
          }),
          record { accum = accum },
        ))

  -- the signature in `_new_non_revocation_credential`, with the draws of vr'' and c
  unfoldable pub sign_index :
      M.G
      → CredentialRevocationPublicKey M N
      → CredentialRevocationPrivateKey K
      → F
      → ℕ
      → Bytes
      → F
      → F
      → Outcome UrsaCryptoError (NonRevocationCredentialSignature M N)
  sign_index ur r_pub_key r_priv_key gamma rev_idx cred_context vr_prime_prime c = do
    m2' ← element_from_bytes cred_context
    let m2 = C.element m2'
    pow ← index_power C rev_idx gamma
    let g_i = r_pub_key.g • pow
    let sigma =
        ((((r_pub_key.h0 ⊕ (r_pub_key.h1 • m2)) ⊕ ur) ⊕ g_i) ⊕ (r_pub_key.h2 • vr_prime_prime))
        • inverse (r_priv_key.x ⊞ c)
    let sigma_i = N.◌•◌ r_pub_key.g_dash (inverse (r_priv_key.sk ⊞ pow))
    let u_i = N.◌•◌ r_pub_key.u pow
    ok (record {
      sigma = sigma;
      c = c;
      vr_prime_prime = vr_prime_prime;
      witness_signature = record { sigma_i = sigma_i; u_i = u_i; g_i = g_i };
      g_i = g_i;
      i = rev_idx;
      m2 = m2;
    })

  -- `_new_non_revocation_credential`, with the registry as it leaves it
  unfoldable pub new_non_revocation_credential :
      ℕ
      → Bytes
      → Option M.G
      → Option (CredentialRevocationPublicKey M N)
      → Option (CredentialRevocationPrivateKey K)
      → ℕ
      → Bool
      → RevocationRegistry N
      → RevocationKeyPrivate K
      → List N.G
      → F
      → F
      → Outcome UrsaCryptoError (
          NonRevocationCredentialSignature M N
          × Option (RevocationRegistryDelta N)
          × RevocationRegistry N)
  new_non_revocation_credential rev_idx cred_context none pub_key priv_key max_cred_num by_default
        rev_reg key tails vr c =
      err no_revocation_in_blinded_secrets
  new_non_revocation_credential rev_idx cred_context (some ur) none priv_key max_cred_num by_default
        rev_reg key tails vr c =
      err no_revocation_in_public_key
  new_non_revocation_credential rev_idx cred_context (some ur) (some r_pub) none max_cred_num
        by_default rev_reg key tails vr c =
      err no_revocation_in_private_key
  new_non_revocation_credential rev_idx cred_context (some ur) (some r_pub) (some r_priv)
        max_cred_num by_default rev_reg key tails vr c =
      do
        signature ← sign_index ur r_pub r_priv key.gamma rev_idx cred_context vr c
        changed ← issue rev_reg max_cred_num rev_idx by_default tails
        ok (signature, changed.0, changed.1)
