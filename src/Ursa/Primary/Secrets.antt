-- ===== src/Ursa/Primary/Secrets.antt =====
-- The blinded secrets of a prover and the proof that they are right: ursa_Master/libursa/src/cl/prover.rs
-- and, for the check, cl/issuer.rs.
pub mod Collect
pub mod Products
pub mod Accepted
use smartchaindb_driver.Prelude.{
  ℕ, suc, ◌+◌, Bool, not, Option, some, none, List, [], ◌∷◌, ◌++◌, Outcome, ok, err, ◌>>=◌, ◌>>◌,
  unwrap, fail_if,
}
use smartchaindb_driver.Zmix.Bytes.{Bytes}
use smartchaindb_driver.Ursa.Errors.{
  UrsaCryptoError, not_in_public_key, not_in_committed_attributes, not_in_cred_values,
  invalid_blinded_secrets_proof,
}
use smartchaindb_driver.Ursa.BigNumber.{BigNumbers, get_pedersen_commitment}
use smartchaindb_driver.Ursa.Names.{Name, Map, lookup}
use smartchaindb_driver.Ursa.Primary.{
  CredentialPrimaryPublicKey, CredentialValue, known, hidden, commitment,
  PrimaryBlindedCredentialSecretsFactors, BlindedCredentialSecretsCorrectnessProof, value_of,
}

-- `get(key).ok_or_else(..)`
abbrev pub get_or_err {ℓ} : {A : Type ℓ} → UrsaCryptoError → Option A → Outcome UrsaCryptoError A
get_or_err e (some value) = ok value
get_or_err e none = err e

module _ (B : BigNumbers) where
  open B use {Z, ◌⊞◌, ◌⊠◌, eq, mod_exp, mod_mul, inverse, to_bytes, get_hash_as_int}

  abbrev pub hidden_names : Map (CredentialValue Z) → List Name
  hidden_names [] = []
  hidden_names ((attr, known value) ∷ rest) = hidden_names rest
  hidden_names ((attr, hidden value) ∷ rest) = attr ∷ hidden_names rest
  hidden_names ((attr, commitment value blinding_factor) ∷ rest) = hidden_names rest

  abbrev pub fold_hidden :
      CredentialPrimaryPublicKey Z
      → Map (CredentialValue Z)
      → Z
      → List Name
      → Outcome UrsaCryptoError Z
  fold_hidden p_pub_key values acc [] = ok acc
  fold_hidden p_pub_key values acc (attr ∷ attrs) = do
    pk_r ← get_or_err not_in_public_key (lookup attr p_pub_key.r)
    cred_value ← unwrap (lookup attr values)
    fold_hidden p_pub_key values
        (mod_mul acc (mod_exp pk_r (value_of cred_value) p_pub_key.n) p_pub_key.n) attrs

  abbrev pub commit_all : CredentialPrimaryPublicKey Z → Map (CredentialValue Z) → Map Z
  commit_all p_pub_key [] = []
  commit_all p_pub_key ((attr, known value) ∷ rest) = commit_all p_pub_key rest
  commit_all p_pub_key ((attr, hidden value) ∷ rest) = commit_all p_pub_key rest
  commit_all p_pub_key ((attr, commitment value blinding_factor) ∷ rest) =
      (attr, get_pedersen_commitment B p_pub_key.s blinding_factor p_pub_key.z value p_pub_key.n)
      ∷ commit_all p_pub_key rest

  -- `v_prime` is drawn
  unfoldable pub generate_blinded_primary_credential_secrets_factors :
      CredentialPrimaryPublicKey Z
      → Map (CredentialValue Z)
      → Z
      → Outcome UrsaCryptoError (PrimaryBlindedCredentialSecretsFactors Z)
  generate_blinded_primary_credential_secrets_factors p_pub_key values v_prime = do
    let hidden_attributes = hidden_names values
    u ← fold_hidden p_pub_key values (mod_exp p_pub_key.s v_prime p_pub_key.n) hidden_attributes
    ok (record {
      u = u;
      v_prime = v_prime;
      hidden_attributes = hidden_attributes;
      committed_attributes = commit_all p_pub_key values;
    })

  -- What the first loop of the proof leaves.
  pub record Tildes : Type 0 where
    pub m_tildes : Map Z
    pub r_tildes : Map Z
    pub bytes : Bytes
    pub u_tilde : Z

  -- `random i` is the next draw
  abbrev pub draw_tildes :
      CredentialPrimaryPublicKey Z
      → Map Z
      → (ℕ → Z)
      → ℕ
      → Z
      → Map (CredentialValue Z)
      → Outcome UrsaCryptoError Tildes
  draw_tildes p_pub_key committed random i u_tilde [] =
      ok (record { m_tildes = []; r_tildes = []; bytes = []; u_tilde = u_tilde })
  draw_tildes p_pub_key committed random i u_tilde ((attr, known value) ∷ rest) =
      draw_tildes p_pub_key committed random i u_tilde rest
  draw_tildes p_pub_key committed random i u_tilde ((attr, hidden value) ∷ rest) = do
    let m_tilde = random i
    pk_r ← get_or_err not_in_public_key (lookup attr p_pub_key.r)
    tildes ←
        draw_tildes p_pub_key committed random (suc i)
          (mod_mul u_tilde (mod_exp pk_r m_tilde p_pub_key.n) p_pub_key.n) rest
    ok (record {
      m_tildes = (attr, m_tilde) ∷ tildes.m_tildes;
      r_tildes = tildes.r_tildes;
      bytes = tildes.bytes;
      u_tilde = tildes.u_tilde;
    })
  draw_tildes p_pub_key committed random i u_tilde ((attr, commitment value blinding) ∷ rest) = do
    let m_tilde = random i
    pk_r ← get_or_err not_in_public_key (lookup attr p_pub_key.r)
    let r_tilde = random (suc i)
    let commitment_tilde =
        get_pedersen_commitment B p_pub_key.z m_tilde p_pub_key.s r_tilde p_pub_key.n
    ca_value ← get_or_err not_in_committed_attributes (lookup attr committed)
    tildes ← draw_tildes p_pub_key committed random (suc (suc i)) u_tilde rest
    ok (record {
      m_tildes = (attr, m_tilde) ∷ tildes.m_tildes;
      r_tildes = (attr, r_tilde) ∷ tildes.r_tildes;
      bytes = to_bytes commitment_tilde ++ (to_bytes ca_value ++ tildes.bytes);
      u_tilde = tildes.u_tilde;
    })

  -- the entries of m_caps and of r_caps for one attribute
  abbrev pub caps_of :
      Z → Map Z → Name → Z → CredentialValue Z → Outcome UrsaCryptoError (Map Z × Map Z)
  caps_of c r_tildes attr m_tilde (known value) = ok ([], [])
  caps_of c r_tildes attr m_tilde (hidden value) = ok ((attr, m_tilde ⊞ (c ⊠ value)) ∷ [], [])
  caps_of c r_tildes attr m_tilde (commitment value blinding_factor) = do
    r_tilde ← unwrap (lookup attr r_tildes)
    ok ((attr, m_tilde ⊞ (c ⊠ value)) ∷ [], (attr, r_tilde ⊞ (c ⊠ blinding_factor)) ∷ [])

  abbrev pub make_caps :
      Z → Map (CredentialValue Z) → Map Z → Map Z → Outcome UrsaCryptoError (Map Z × Map Z)
  make_caps c values r_tildes [] = ok ([], [])
  make_caps c values r_tildes ((attr, m_tilde) ∷ m_tildes) = do
    ca ← get_or_err not_in_cred_values (lookup attr values)
    own ← caps_of c r_tildes attr m_tilde ca
    rest ← make_caps c values r_tildes m_tildes
    ok (own.0 ++ rest.0, own.1 ++ rest.1)

  -- `v_dash_tilde` is draw 0
  unfoldable pub new_blinded_credential_secrets_correctness_proof :
      CredentialPrimaryPublicKey Z
      → PrimaryBlindedCredentialSecretsFactors Z
      → Z
      → Map (CredentialValue Z)
      → (ℕ → Z)
      → Outcome UrsaCryptoError (BlindedCredentialSecretsCorrectnessProof Z)
  new_blinded_credential_secrets_correctness_proof p_pub_key blinded nonce values random = do
    let v_dash_tilde = random 0
    tildes ←
        draw_tildes p_pub_key blinded.committed_attributes random 1
          (mod_exp p_pub_key.s v_dash_tilde p_pub_key.n) values
    let bytes = tildes.bytes ++ (to_bytes blinded.u ++ (to_bytes tildes.u_tilde ++ to_bytes nonce))
    let c = get_hash_as_int (bytes ∷ [])
    caps ← make_caps c values tildes.r_tildes tildes.m_tildes
    ok (record {
      c = c;
      v_dash_cap = (c ⊠ blinded.v_prime) ⊞ v_dash_tilde;
      m_caps = caps.0;
      r_caps = caps.1;
    })

  abbrev pub fold_caps :
      CredentialPrimaryPublicKey Z → Map Z → Z → List Name → Outcome UrsaCryptoError Z
  fold_caps pub_key m_caps acc [] = ok acc
  fold_caps pub_key m_caps acc (attr ∷ attrs) = do
    pk_r ← get_or_err not_in_public_key (lookup attr pub_key.r)
    m_cap ← unwrap (lookup attr m_caps)
    fold_caps pub_key m_caps (mod_mul acc (mod_exp pk_r m_cap pub_key.n) pub_key.n) attrs

  abbrev pub check_commitments :
      CredentialPrimaryPublicKey Z
      → BlindedCredentialSecretsCorrectnessProof Z
      → Map Z
      → Outcome UrsaCryptoError Bytes
  check_commitments pub_key proof [] = ok []
  check_commitments pub_key proof ((key, value) ∷ committed) = do
    m_cap ← unwrap (lookup key proof.m_caps)
    i ← inverse value pub_key.n
    r_cap ← unwrap (lookup key proof.r_caps)
    let comm_att_cap =
        mod_mul (mod_exp i proof.c pub_key.n)
          (get_pedersen_commitment B pub_key.z m_cap pub_key.s r_cap pub_key.n) pub_key.n
    rest ← check_commitments pub_key proof committed
    ok (to_bytes comm_att_cap ++ (to_bytes value ++ rest))

  unfoldable pub check_blinded_credential_secrets_correctness_proof :
      Z
      → List Name
      → Map Z
      → BlindedCredentialSecretsCorrectnessProof Z
      → Z
      → CredentialPrimaryPublicKey Z
      → Outcome UrsaCryptoError (Unit {0})
  check_blinded_credential_secrets_correctness_proof u hidden_attributes committed proof nonce
        pub_key =
      do
        i ← inverse u pub_key.n
        u_cap ←
            fold_caps pub_key proof.m_caps
              (mod_mul (mod_exp i proof.c pub_key.n) (mod_exp pub_key.s proof.v_dash_cap pub_key.n)
                pub_key.n)
              hidden_attributes
        bytes ← check_commitments pub_key proof committed
        let values = bytes ++ (to_bytes u ++ (to_bytes u_cap ++ to_bytes nonce))
        let c = get_hash_as_int (values ∷ [])
        fail_if (not (eq proof.c c)) invalid_blinded_secrets_proof
