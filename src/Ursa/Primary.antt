-- ===== src/Ursa/Primary.antt =====
-- Primary credentials of ursa_Master/libursa/src/cl/mod.rs: keys, values, signatures and their proofs.
pub mod Keys
pub mod Secrets
pub mod Issue
pub mod Equality
pub mod Tests
use smartchaindb_driver.Prelude.{Bool, true, false, List, Option}
use smartchaindb_driver.Ursa.BigNumber.{BigNumbers}
use smartchaindb_driver.Ursa.Names.{Name, Map}

module _ (Z : Type 0) where
  pub record CredentialPrimaryPublicKey : Type 0 where
    pub n : Z
    pub s : Z
    pub r : Map Z
    pub rctxt : Z
    pub z : Z

  pub record CredentialPrimaryPrivateKey : Type 0 where
    pub p : Z
    pub q : Z

  pub record CredentialPrimaryPublicKeyMetadata : Type 0 where
    pub xz : Z
    pub xr : Map Z

  pub record CredentialKeyCorrectnessProof : Type 0 where
    pub c : Z
    pub xz_cap : Z
    pub xr_cap : Map Z

  pub data CredentialValue : Type 0 where
    known : (value : Z) → CredentialValue
    hidden : (value : Z) → CredentialValue
    commitment : (value blinding_factor : Z) → CredentialValue

  pub record PrimaryBlindedCredentialSecretsFactors : Type 0 where
    pub u : Z
    pub v_prime : Z
    pub hidden_attributes : List Name
    pub committed_attributes : Map Z

  pub record BlindedCredentialSecretsCorrectnessProof : Type 0 where
    pub c : Z
    pub v_dash_cap : Z
    pub m_caps : Map Z
    pub r_caps : Map Z

  pub record PrimaryCredentialSignature : Type 0 where
    pub m_2 : Z
    pub a : Z
    pub e : Z
    pub v : Z

  pub record SignatureCorrectnessProof : Type 0 where
    pub se : Z
    pub c : Z

module _ {Z : Type 0} where
  unfoldable pub is_known : CredentialValue Z → Bool
  is_known (known value) = true
  is_known _ = false

  unfoldable pub is_hidden : CredentialValue Z → Bool
  is_hidden (hidden value) = true
  is_hidden _ = false

  unfoldable pub is_commitment : CredentialValue Z → Bool
  is_commitment (commitment value blinding_factor) = true
  is_commitment _ = false

  unfoldable pub value_of : CredentialValue Z → Z
  value_of (known value) = value
  value_of (hidden value) = value
  value_of (commitment value blinding_factor) = value
