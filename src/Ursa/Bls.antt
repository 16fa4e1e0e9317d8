-- ===== src/Ursa/Bls.antt =====
-- BLS signatures: ursa_Master/libursa/src/bls/mod.rs.
pub mod Laws
pub mod Hash
pub mod Verify
pub mod Codec
mod Tests
use smartchaindb_driver.Prelude.{ℕ, Bool, Option, none, some, List, [], ◌∷◌, Outcome, ok, ◌>>=◌}
use smartchaindb_driver.Amcl.{Field, Group, Pairing}
use smartchaindb_driver.Zmix.Bytes.{Bytes}
use smartchaindb_driver.Ursa.Errors.{UrsaCryptoError}
use smartchaindb_driver.Ursa.Pair.{Curve, element_from_bytes}
use smartchaindb_driver.Ursa.Pair.Points.{
  PointBytes, g1_to_bytes, g2_to_bytes, element_to_bytes, g1_from_bytes, g2_from_bytes,
  new_from_seed, from_hash,
}

pub record Generator {K : Field} (N : Group K) : Type 0 where
  pub point : N.G
  pub bytes : Bytes

pub record SignKey (K : Field) : Type 0 where
  pub group_order_element : K.F
  pub bytes : Bytes

pub record VerKey {K : Field} (N : Group K) : Type 0 where
  pub point : N.G
  pub bytes : Bytes

pub record ProofOfPossession {K : Field} (M : Group K) : Type 0 where
  pub point : M.G
  pub bytes : Bytes

pub record Signature {K : Field} (M : Group K) : Type 0 where
  pub point : M.G
  pub bytes : Bytes

pub record MultiSignature {K : Field} (M : Group K) : Type 0 where
  pub point : M.G
  pub bytes : Bytes

module _ {K : Field} {M N : Group K} {P : Pairing M N} {C : Curve P} (B : PointBytes C) where
  open K use {F}

  -- `point` is the one drawn by `PointG2::new`
  unfoldable pub new_generator : N.G → Generator N
  new_generator point = record { point = point; bytes = g2_to_bytes B point }

  unfoldable pub generator_from_bytes : Bytes → Outcome UrsaCryptoError (Generator N)
  generator_from_bytes bytes = do
    point ← g2_from_bytes B bytes
    ok (record { point = point; bytes = bytes })

  -- the element of a new key: from the seed, or the one drawn by `GroupOrderElement::new`
  abbrev pub seeded : F → Option Bytes → Outcome UrsaCryptoError F
  seeded drawn (some seed) = new_from_seed B seed
  seeded drawn none = ok drawn

  unfoldable pub new_sign_key : F → Option Bytes → Outcome UrsaCryptoError (SignKey K)
  new_sign_key drawn seed = do
    group_order_element ← seeded drawn seed
    ok (record {
      group_order_element = group_order_element;
      bytes = element_to_bytes B group_order_element;
    })

  unfoldable pub sign_key_from_bytes : Bytes → Outcome UrsaCryptoError (SignKey K)
  sign_key_from_bytes bytes = do
    n ← element_from_bytes bytes
    ok (record { group_order_element = C.element n; bytes = bytes })

  unfoldable pub new_ver_key : Generator N → SignKey K → VerKey N
  new_ver_key gen sign_key =
      let point = N.◌•◌ gen.point sign_key.group_order_element in
      record { point = point; bytes = g2_to_bytes B point }

  unfoldable pub ver_key_from_bytes : Bytes → Outcome UrsaCryptoError (VerKey N)
  ver_key_from_bytes bytes = do
    point ← g2_from_bytes B bytes
    ok (record { point = point; bytes = bytes })

  unfoldable pub pop_from_bytes : Bytes → Outcome UrsaCryptoError (ProofOfPossession M)
  pop_from_bytes bytes = do
    point ← g1_from_bytes B bytes
    ok (record { point = point; bytes = bytes })

  unfoldable pub signature_from_bytes : Bytes → Outcome UrsaCryptoError (Signature M)
  signature_from_bytes bytes = do
    point ← g1_from_bytes B bytes
    ok (record { point = point; bytes = bytes })

  unfoldable pub multi_signature_from_bytes : Bytes → Outcome UrsaCryptoError (MultiSignature M)
  multi_signature_from_bytes bytes = do
    point ← g1_from_bytes B bytes
    ok (record { point = point; bytes = bytes })

  -- `point = point.add(&signature.point)?` over the signatures
  abbrev pub add_signatures : M.G → List (Signature M) → M.G
  add_signatures point [] = point
  add_signatures point (signature ∷ signatures) =
      add_signatures (M.◌⊕◌ point signature.point) signatures

  unfoldable pub new_multi_signature : List (Signature M) → MultiSignature M
  new_multi_signature signatures =
      let point = add_signatures M.identity signatures in
      record { point = point; bytes = g1_to_bytes B point }

  abbrev pub add_ver_keys : N.G → List (VerKey N) → N.G
  add_ver_keys aggregated_verkey [] = aggregated_verkey
  add_ver_keys aggregated_verkey (ver_key ∷ ver_keys) =
      add_ver_keys (N.◌⊕◌ aggregated_verkey ver_key.point) ver_keys

  -- A hasher is its digest of a whole input. The fuel is for the search of a point.
  module _ (fuel : ℕ) where
    unfoldable pub hash : Bytes → (Bytes → Bytes) → Outcome UrsaCryptoError M.G
    hash message hasher = from_hash B fuel (hasher message)

    unfoldable pub gen_signature : Bytes → SignKey K → (Bytes → Bytes) → Outcome UrsaCryptoError M.G
    gen_signature message sign_key hasher = do
      h ← hash message hasher
      ok (M.◌•◌ h sign_key.group_order_element)

    unfoldable pub verify_signature :
        M.G → Bytes → N.G → Generator N → (Bytes → Bytes) → Outcome UrsaCryptoError Bool
    verify_signature signature message ver_key gen hasher = do
      h ← hash message hasher
      ok (P.is_one (P.ate_2_pairing signature (N.negate gen.point) h ver_key))

    -- `sha256` and `keccak256` are the crates' digests
    module _ (sha256 keccak256 : Bytes → Bytes) where
      unfoldable pub new_proof_of_possession :
          VerKey N → SignKey K → Outcome UrsaCryptoError (ProofOfPossession M)
      new_proof_of_possession ver_key sign_key = do
        point ← gen_signature ver_key.bytes sign_key keccak256
        ok (record { point = point; bytes = g1_to_bytes B point })

      unfoldable pub sign : Bytes → SignKey K → Outcome UrsaCryptoError (Signature M)
      sign message sign_key = do
        point ← gen_signature message sign_key sha256
        ok (record { point = point; bytes = g1_to_bytes B point })

      unfoldable pub verify :
          Signature M → Bytes → VerKey N → Generator N → Outcome UrsaCryptoError Bool
      verify signature message ver_key gen =
          verify_signature signature.point message ver_key.point gen sha256

      unfoldable pub verify_proof_of_posession :
          ProofOfPossession M → VerKey N → Generator N → Outcome UrsaCryptoError Bool
      verify_proof_of_posession pop ver_key gen =
          verify_signature pop.point ver_key.bytes ver_key.point gen keccak256

      unfoldable pub verify_multi_sig :
          MultiSignature M → Bytes → List (VerKey N) → Generator N → Outcome UrsaCryptoError Bool
      verify_multi_sig multi_sig message ver_keys gen =
          verify_signature multi_sig.point message (add_ver_keys N.identity ver_keys) gen sha256
