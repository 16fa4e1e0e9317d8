-- ===== src/Ursa/Primary/Keys.antt =====
-- The primary keys of an issuer and the proof that they are right: ursa_Master/libursa/src/cl/issuer.rs
-- and, for the check, cl/prover.rs.
pub mod Accepted
use smartchaindb_driver.Prelude.{
  ℕ, zero, suc, Bool, true, false, not, ◌&&◌, Option, some, none, List, [], ◌∷◌, ◌++◌, ◌==◌,
  Outcome, ok, err, ◌>>=◌, ◌>>◌, unwrap, fail_if, if◌then◌else◌,
}
use smartchaindb_driver.Zmix.Bytes.{Bytes}
use smartchaindb_driver.Ursa.Errors.{
  UrsaCryptoError, no_attributes, not_in_xr_cap, no_item_in_public_key,
  invalid_key_correctness_proof,
}
use smartchaindb_driver.Ursa.BigNumber.{BigNumbers, get_pedersen_commitment}
use smartchaindb_driver.Ursa.Names.{Name, Map, master_secret, lookup, contains_key, keys, insert}
use smartchaindb_driver.Ursa.Primary.{
  CredentialPrimaryPublicKey, CredentialPrimaryPrivateKey, CredentialPrimaryPublicKeyMetadata,
  CredentialKeyCorrectnessProof,
}

module _ (B : BigNumbers) where
  open B use {Z, ◌⊞◌, ◌⊠◌, eq, mod_exp, inverse, rshift1, to_bytes, get_hash_as_int}

  -- A draw of `gen_x` for each name; `random i` is the draw with number i.
  abbrev pub draw_all : (ℕ → Z) → ℕ → List Name → Map Z → Map Z
  draw_all random i [] xr = xr
  draw_all random i (name ∷ names) xr = draw_all random (suc i) names (insert name (random i) xr)

  -- `s.mod_exp(&xr_value, &n)` for each entry
  abbrev pub powers : Z → Z → Map Z → Map Z
  powers s n [] = []
  powers s n ((key, xr_value) ∷ xr) = (key, mod_exp s xr_value n) ∷ powers s n xr

  abbrev pub is_empty : List Name → Bool
  is_empty [] = true
  is_empty _ = false

  -- The two safe primes, the quadratic residue s and the exponent of rctxt are given; xz is draw 0, and the
  -- exponents of the attributes are those from 1 on.
  unfoldable pub new_credential_primary_keys :
      Z
      → Z
      → Z
      → Z
      → (ℕ → Z)
      → List Name
      → List Name
      → Outcome UrsaCryptoError (
          CredentialPrimaryPublicKey Z
          × CredentialPrimaryPrivateKey Z
          × CredentialPrimaryPublicKeyMetadata Z)
  new_credential_primary_keys p_safe q_safe s x_rctxt random schema_attrs non_schema_attrs = do
    fail_if (is_empty schema_attrs) no_attributes
    let n = p_safe ⊠ q_safe
    let xz = random 0
    let xr = draw_all random 1 (non_schema_attrs ++ schema_attrs) []
    ok (
      record { n = n; s = s; r = powers s n xr; rctxt = mod_exp s x_rctxt n; z = mod_exp s xz n },
      record { p = rshift1 p_safe; q = rshift1 q_safe },
      record { xz = xz; xr = xr },
    )

  -- the values of a map, written one after the other
  abbrev pub bytes_of : Map Z → Bytes
  bytes_of [] = []
  bytes_of ((key, val) ∷ entries) = to_bytes val ++ bytes_of entries

  -- `r_tilda[attr]` for each attribute, written one after the other
  abbrev pub bytes_at : Map Z → List Name → Outcome UrsaCryptoError Bytes
  bytes_at r_tilda [] = ok []
  bytes_at r_tilda (attr ∷ attrs) = do
    val ← unwrap (lookup attr r_tilda)
    rest ← bytes_at r_tilda attrs
    ok (to_bytes val ++ rest)

  abbrev pub caps_at : Z → Map Z → Map Z → List Name → Outcome UrsaCryptoError (Map Z)
  caps_at c xr xr_tilda [] = ok []
  caps_at c xr xr_tilda (key ∷ names) = do
    xr_tilda_value ← unwrap (lookup key xr_tilda)
    xr_value ← unwrap (lookup key xr)
    rest ← caps_at c xr xr_tilda names
    ok ((key, (c ⊠ xr_value) ⊞ xr_tilda_value) ∷ rest)

  -- xz_tilda is draw 0, the others are those from 1 on
  unfoldable pub new_credential_key_correctness_proof :
      (ℕ → Z)
      → CredentialPrimaryPublicKey Z
      → CredentialPrimaryPublicKeyMetadata Z
      → Outcome UrsaCryptoError (CredentialKeyCorrectnessProof Z)
  new_credential_key_correctness_proof random cred_pr_pub_key meta = do
    let xz_tilda = random 0
    let ordered_attrs = keys cred_pr_pub_key.r
    let xr_tilda = draw_all random 1 ordered_attrs []
    let z_tilda = mod_exp cred_pr_pub_key.s xz_tilda cred_pr_pub_key.n
    let r_tilda = powers cred_pr_pub_key.s cred_pr_pub_key.n xr_tilda
    tilda_bytes ← bytes_at r_tilda ordered_attrs
    let values =
        to_bytes cred_pr_pub_key.z
        ++ (bytes_of cred_pr_pub_key.r ++ (to_bytes z_tilda ++ tilda_bytes))
    let c = get_hash_as_int (values ∷ [])
    xr_cap ← caps_at c meta.xr xr_tilda ordered_attrs
    ok (record { c = c; xz_cap = (c ⊠ meta.xz) ⊞ xz_tilda; xr_cap = xr_cap })

  abbrev pub check_names : Map Z → List Name → Outcome UrsaCryptoError (Unit {0})
  check_names xr_cap [] = ok tt
  check_names xr_cap (r_key ∷ names) =
      let rest = check_names xr_cap names in
      fail_if (not (contains_key r_key xr_cap) && not (r_key == master_secret)) not_in_xr_cap
      >> rest

  abbrev pub check_caps : Map Z → Map Z → Outcome UrsaCryptoError (Unit {0})
  check_caps r [] = ok tt
  check_caps r ((correctness_name, value) ∷ xr_cap) =
      let rest = check_caps r xr_cap in
      fail_if (not (contains_key correctness_name r)) no_item_in_public_key >> rest

  -- the loop over xr_cap: the bytes of the values of r, and those of the values that are recomputed
  abbrev pub recompute :
      CredentialPrimaryPublicKey Z → Z → Map Z → Outcome UrsaCryptoError (Bytes × Bytes)
  recompute pr_pub_key c [] = ok ([], [])
  recompute pr_pub_key c ((key, xr_cap_value) ∷ xr_cap) = do
    r_value ← unwrap (lookup key pr_pub_key.r)
    r_inverse ← inverse r_value pr_pub_key.n
    let val = get_pedersen_commitment B r_inverse c pr_pub_key.s xr_cap_value pr_pub_key.n
    rest ← recompute pr_pub_key c xr_cap
    ok (to_bytes r_value ++ rest.0, to_bytes val ++ rest.1)

  unfoldable pub check_credential_key_correctness_proof :
      CredentialPrimaryPublicKey Z
      → CredentialKeyCorrectnessProof Z
      → Outcome UrsaCryptoError (Unit {0})
  check_credential_key_correctness_proof pr_pub_key key_correctness_proof = do
    check_names key_correctness_proof.xr_cap (keys pr_pub_key.r)
    check_caps pr_pub_key.r key_correctness_proof.xr_cap
    z_inverse ← inverse pr_pub_key.z pr_pub_key.n
    let z_cap =
        get_pedersen_commitment B z_inverse key_correctness_proof.c pr_pub_key.s
          key_correctness_proof.xz_cap pr_pub_key.n
    ordered ← recompute pr_pub_key key_correctness_proof.c key_correctness_proof.xr_cap
    let values = to_bytes pr_pub_key.z ++ (ordered.0 ++ (to_bytes z_cap ++ ordered.1))
    let c = get_hash_as_int (values ∷ [])
    fail_if (not (eq key_correctness_proof.c c)) invalid_key_correctness_proof
