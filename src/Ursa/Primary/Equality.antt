-- ===== src/Ursa/Primary/Equality.antt =====
-- The proof that a prover has a primary credential with the revealed attributes: its part of
-- ursa_Master/libursa/src/cl/prover.rs, cl/verifier.rs and cl/helpers.rs.
pub mod Tables
pub mod Products
pub mod Consistent
pub mod Algebra
pub mod Complete
mod Tests
use smartchaindb_driver.Prelude.{
  ℕ, suc, Bool, true, false, not, Option, some, none, List, [], ◌∷◌, ◌++◌, Outcome, ok, err, ◌>>=◌,
  ◌>>◌, fail_if, if◌then◌else◌,
}
use smartchaindb_driver.Ursa.Errors.{
  UrsaCryptoError, not_in_public_key, rejected_not_in_public_key, not_in_m_tilde,
  not_in_attributes_values, encoded_value_not_found, schema_differs, no_requested_attribute,
  no_predicate_attribute,
}
use smartchaindb_driver.Ursa.BigNumber.{BigNumbers, mod_div}
use smartchaindb_driver.Ursa.Names.{Name, Map, lookup, contains_key, keys, insert}
use smartchaindb_driver.Ursa.NameSets.{add_name, union, equal_names}
use smartchaindb_driver.Ursa.Revocation.Sets.{difference}
use smartchaindb_driver.Ursa.Primary.{
  CredentialPrimaryPublicKey, CredentialValue, value_of, PrimaryCredentialSignature,
}
use smartchaindb_driver.Ursa.Primary.Secrets.{get_or_err}

module _ (Z : Type 0) where
  pub record PrimaryEqualInitProof : Type 0 where
    pub a_prime : Z
    pub t : Z
    pub e_tilde : Z
    pub e_prime : Z
    pub v_tilde : Z
    pub v_prime : Z
    pub m_tilde : Map Z
    pub m2_tilde : Z
    pub m2 : Z

  pub record PrimaryEqualProof : Type 0 where
    pub revealed_attrs : Map Z
    pub a_prime : Z
    pub e : Z
    pub v : Z
    pub m : Map Z
    pub m2 : Z

abbrev pub has_any : List Name → Bool
has_any [] = false
has_any (name ∷ names) = true

-- The names that the predicates use are collected to a set before.
unfoldable pub check_add_sub_proof_request_params_consistency :
    {Z : Type 0}
    → Map (CredentialValue Z)
    → List Name
    → List Name
    → List Name
    → List Name
    → Outcome UrsaCryptoError (Unit {0})
check_add_sub_proof_request_params_consistency values revealed predicate_attrs schema non_schema =
    do
      let schema_attrs = union non_schema schema
      let cred_attrs = keys values
      fail_if (not (equal_names schema_attrs cred_attrs)) schema_differs
      fail_if (has_any (difference revealed cred_attrs)) no_requested_attribute
      fail_if (has_any (difference predicate_attrs cred_attrs)) no_predicate_attribute

module _ (B : BigNumbers) where
  open B use {Z, ◌⊞◌, ◌⊟◌, ◌⊠◌, mod_exp, mod_mul, inverse}

  -- `random i` is the next draw
  abbrev pub get_mtilde : (ℕ → Z) → ℕ → List Name → Map Z → Map Z
  get_mtilde random i [] mtilde = mtilde
  get_mtilde random i (attr ∷ attrs) mtilde =
      if contains_key attr mtilde
      then get_mtilde random i attrs mtilde
      else get_mtilde random (suc i) attrs (insert attr (random i) mtilde)

  abbrev pub multiply_unrevealed :
      CredentialPrimaryPublicKey Z → Map Z → Z → List Name → Outcome UrsaCryptoError Z
  multiply_unrevealed p_pub_key m_tilde result [] = ok result
  multiply_unrevealed p_pub_key m_tilde result (k ∷ unrevealed) = do
    cur_r ← get_or_err not_in_public_key (lookup k p_pub_key.r)
    cur_m ← get_or_err not_in_m_tilde (lookup k m_tilde)
    multiply_unrevealed p_pub_key m_tilde
        (mod_mul (mod_exp cur_r cur_m p_pub_key.n) result p_pub_key.n) unrevealed

  unfoldable pub calc_teq :
      CredentialPrimaryPublicKey Z → Z → Z → Z → Map Z → Z → List Name → Outcome UrsaCryptoError Z
  calc_teq p_pub_key a_prime e v m_tilde m2tilde unrevealed = do
    result ← multiply_unrevealed p_pub_key m_tilde (mod_exp a_prime e p_pub_key.n) unrevealed
    let with_s = mod_mul (mod_exp p_pub_key.s v p_pub_key.n) result p_pub_key.n
    ok (mod_mul (mod_exp p_pub_key.rctxt m2tilde p_pub_key.n) with_s p_pub_key.n)

  -- `m2_t.unwrap_or(bn_rand(..)?)`
  abbrev pub or_drawn : Option Z → Z → Z
  or_drawn (some m2_t) drawn = m2_t
  or_drawn none drawn = drawn

  -- the loop for m_hat
  abbrev pub respond_all :
      Map Z → Map (CredentialValue Z) → Z → List Name → Outcome UrsaCryptoError (Map Z)
  respond_all m_tilde values challenge [] = ok []
  respond_all m_tilde values challenge (k ∷ unrevealed) = do
    cur_mtilde ← get_or_err not_in_m_tilde (lookup k m_tilde)
    cur_val ← get_or_err not_in_attributes_values (lookup k values)
    rest ← respond_all m_tilde values challenge unrevealed
    ok ((k, (challenge ⊠ value_of cur_val) ⊞ cur_mtilde) ∷ rest)

  abbrev pub reveal_all : Map (CredentialValue Z) → List Name → Outcome UrsaCryptoError (Map Z)
  reveal_all values [] = ok []
  reveal_all values (attr ∷ revealed) = do
    value ← get_or_err encoded_value_not_found (lookup attr values)
    rest ← reveal_all values revealed
    ok ((attr, value_of value) ∷ rest)

  abbrev pub multiply_revealed :
      CredentialPrimaryPublicKey Z → Z → Map Z → Outcome UrsaCryptoError Z
  multiply_revealed p_pub_key rar [] = ok rar
  multiply_revealed p_pub_key rar ((attr, encoded_value) ∷ revealed) = do
    cur_r ← get_or_err rejected_not_in_public_key (lookup attr p_pub_key.r)
    multiply_revealed p_pub_key (mod_mul (mod_exp cur_r encoded_value p_pub_key.n) rar p_pub_key.n)
        revealed

  unfoldable pub finalize_eq_proof :
      PrimaryEqualInitProof Z
      → Z
      → List Name
      → List Name
      → Map (CredentialValue Z)
      → List Name
      → Outcome UrsaCryptoError (PrimaryEqualProof Z)
  finalize_eq_proof init_proof challenge schema non_schema values revealed = do
    let unrevealed = difference (union non_schema schema) revealed
    m_hat ← respond_all init_proof.m_tilde values challenge unrevealed
    revealed_attrs ← reveal_all values revealed
    ok (record {
      revealed_attrs = revealed_attrs;
      a_prime = init_proof.a_prime;
      e = (challenge ⊠ init_proof.e_prime) ⊞ init_proof.e_tilde;
      v = (challenge ⊠ init_proof.v_prime) ⊞ init_proof.v_tilde;
      m = m_hat;
      m2 = (challenge ⊠ init_proof.m2) ⊞ init_proof.m2_tilde;
    })

  -- `LARGE_E_START_VALUE`, the power 2^596
  module _ (large_e_start : Z) where
    -- The draws are, in turn, for m2_tilde, r, e_tilde, v_tilde and m_tilde.
    unfoldable pub init_eq_proof :
        Map Z
        → CredentialPrimaryPublicKey Z
        → PrimaryCredentialSignature Z
        → List Name
        → List Name
        → List Name
        → Option Z
        → (ℕ → Z)
        → Outcome UrsaCryptoError (PrimaryEqualInitProof Z)
    init_eq_proof common cred_pub_key c1 schema non_schema revealed m2_t random = do
      let m2_tilde = or_drawn m2_t (random 0)
      let r = random 1
      let e_tilde = random 2
      let v_tilde = random 3
      let unrevealed = difference (union non_schema schema) revealed
      let m_tilde = get_mtilde random 4 unrevealed common
      let a_prime = mod_mul (mod_exp cred_pub_key.s r cred_pub_key.n) c1.a cred_pub_key.n
      t ← calc_teq cred_pub_key a_prime e_tilde v_tilde m_tilde m2_tilde unrevealed
      ok (record {
        a_prime = a_prime;
        t = t;
        e_tilde = e_tilde;
        e_prime = c1.e ⊟ large_e_start;
        v_tilde = v_tilde;
        v_prime = c1.v ⊟ (c1.e ⊠ r);
        m_tilde = m_tilde;
        m2_tilde = m2_tilde;
        m2 = c1.m_2;
      })

    unfoldable pub verify_equality :
        CredentialPrimaryPublicKey Z
        → PrimaryEqualProof Z
        → Z
        → List Name
        → List Name
        → List Name
        → Outcome UrsaCryptoError Z
    verify_equality p_pub_key proof c_hash schema non_schema revealed = do
      let unrevealed = difference (union schema non_schema) revealed
      t1 ← calc_teq p_pub_key proof.a_prime proof.e proof.v proof.m proof.m2 unrevealed
      rar ←
          multiply_revealed p_pub_key (mod_exp proof.a_prime large_e_start p_pub_key.n)
            proof.revealed_attrs
      quotient ← mod_div B p_pub_key.z rar p_pub_key.n
      i ← inverse quotient p_pub_key.n
      ok (mod_mul t1 (mod_exp i c_hash p_pub_key.n) p_pub_key.n)
