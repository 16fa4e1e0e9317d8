-- ===== src/Zmix/Bbs/Signature.antt =====
-- ursa_Master/libzmix/src/signatures/bbs/signature.rs. The random `e` and `s` of a signature are
-- arguments; `G1::new()` is the identity.
pub mod Base
pub mod Verify
pub mod Sign
pub mod Encode
pub mod Tests
use smartchaindb_driver.Prelude.{
  ℕ, suc, ◌+◌, ◌-◌, ◌*◌, Bool, true, false, Option, none, some, List, [], ◌∷◌, ◌++◌, length,
  get_elem?, not, ltb, ◌==◌, if◌then◌else◌, Outcome, ok, err, panic, ◌>>=◌, ◌>>◌, fail_if, unwrap,
}
use smartchaindb_driver.Amcl.{Field, Group, Pairing}
use smartchaindb_driver.Zmix.Bytes.{Bytes, Encoding, slice}
use smartchaindb_driver.Zmix.Bbs.Errors.{
  BbsErrorKind, signing_error_message_count_mismatch, signature_incorrect_size,
  signature_value_incorrect_size,
}
use smartchaindb_driver.Zmix.Bbs.Keys.{PublicKey, message_count}

pub record Signature {K : Field} (G1 : Group K) : Type 0 where
  pub a : G1.G
  pub e : K.F
  pub s : K.F

-- the loop of `prep_vec_for_b`: from `index` on, one point of `h` for each message
unfoldable pub message_points :
    {P F : Type 0} → List P → ℕ → List F → Outcome BbsErrorKind (List P × List F)
message_points h index [] = ok ([], [])
message_points h index (m ∷ ms) = do
  p ← unwrap (get_elem? h index)
  rest ← message_points h (index + 1) ms
  ok (p ∷ rest.0, m ∷ rest.1)

-- `SigningErrorMessageCountMismatch` unless the test fails
abbrev pub check_verkey_message : Bool → ℕ → ℕ → Outcome BbsErrorKind (Unit {0})
check_verkey_message statement count1 count2 =
    fail_if statement (signing_error_message_count_mismatch count1 count2)

module _ {K : Field} {G1 G2 : Group K} where
  unfoldable pub prep_vec_for_b :
      PublicKey G1 G2 → List K.F → K.F → ℕ → Outcome BbsErrorKind (List G1.G × List K.F)
  unfolding message_points
  prep_vec_for_b vk messages blinding_factor offset = do
    rest ← message_points vk.h offset messages
    ok (G1.generator ∷ vk.h0 ∷ rest.0, K.fe_one ∷ blinding_factor ∷ rest.1)

  unfoldable pub compute_b_const_time :
      G1.G → PublicKey G1 G2 → List K.F → K.F → ℕ → Outcome BbsErrorKind G1.G
  unfolding prep_vec_for_b
  compute_b_const_time starting_value vk messages blinding_factor offset = do
    prepared ← prep_vec_for_b vk messages blinding_factor offset
    sum ← unwrap (G1.multi_scalar_mul_const_time prepared.0 prepared.1)
    ok (G1.◌⊕◌ starting_value sum)

  unfoldable pub compute_b_var_time :
      G1.G → PublicKey G1 G2 → List K.F → K.F → ℕ → Outcome BbsErrorKind G1.G
  unfolding prep_vec_for_b
  compute_b_var_time starting_value vk messages blinding_factor offset = do
    prepared ← prep_vec_for_b vk messages blinding_factor offset
    sum ← unwrap (G1.multi_scalar_mul_var_time prepared.0 prepared.1)
    ok (G1.◌⊕◌ starting_value sum)

  unfoldable pub new_with_committed_messages :
      (e s : K.F) → G1.G → List K.F → K.F → PublicKey G1 G2 → Outcome BbsErrorKind (Signature G1)
  unfolding compute_b_const_time message_count
  new_with_committed_messages e s commitment messages signkey verkey = do
    check_verkey_message (ltb (message_count verkey) (length messages)) (message_count verkey)
        (length messages)
    b ← compute_b_const_time commitment verkey messages s (message_count verkey - length messages)
    let exp = K.inverse (K.◌⊞◌ signkey e)
    ok (record { a = G1.◌•◌ b exp; e = e; s = s })

  -- `Signature::new`
  unfoldable pub new :
      (e s : K.F) → List K.F → K.F → PublicKey G1 G2 → Outcome BbsErrorKind (Signature G1)
  unfolding new_with_committed_messages message_count
  new e s messages signkey verkey = do
    check_verkey_message (length messages == 0) (message_count verkey) (length messages)
    new_with_committed_messages e s G1.identity messages signkey verkey

  unfoldable pub verify :
      Pairing G1 G2 → Signature G1 → List K.F → PublicKey G1 G2 → Outcome BbsErrorKind Bool
  unfolding compute_b_var_time message_count
  verify P self messages verkey = do
    check_verkey_message (not (length messages == message_count verkey)) (message_count verkey)
        (length messages)
    b ← compute_b_var_time G1.identity verkey messages self.s 0
    let a = G2.◌⊕◌ (G2.◌•◌ G2.generator self.e) verkey.w
    ok (P.is_one (P.ate_2_pairing self.a a (G1.negate b) G2.generator))

module _ {K : Field} {G1 : Group K} where
  unfoldable pub get_unblinded_signature : Signature G1 → K.F → Signature G1
  get_unblinded_signature self blinding = record {
    a = self.a;
    e = self.e;
    s = K.◌⊞◌ self.s blinding;
  }

-- `from_bytes(..).map_err(|_| SignatureValueIncorrectSize)?`
abbrev pub decode : {A : Type 0} → Encoding A → Bytes → Outcome BbsErrorKind A
decode enc bytes = elim (enc.from_bytes bytes) [
  | none ↦ err signature_value_incorrect_size
  | some a ↦ ok a
]

-- `GroupG1_SIZE` and `MODBYTES` are the sizes of the encodings.
module _ {K : Field} (G1 : Group K) (point : Encoding G1.G) (scalar : Encoding K.F) where
  unfoldable pub to_bytes : Signature G1 → Bytes
  to_bytes self = point.to_bytes self.a ++ (scalar.to_bytes self.e ++ scalar.to_bytes self.s)

  unfoldable pub from_bytes : Bytes → Outcome BbsErrorKind (Signature G1)
  unfolding slice
  from_bytes bytes = do
    let expected = point.size + scalar.size * 2
    fail_if (not (length bytes == expected)) (signature_incorrect_size (length bytes))
    a_bytes ← slice bytes 0 point.size
    a ← decode point a_bytes
    let index = point.size
    e_bytes ← slice bytes index (index + scalar.size)
    e ← decode scalar e_bytes
    let index' = index + scalar.size
    s_bytes ← slice bytes index' (index' + scalar.size)
    s ← decode scalar s_bytes
    ok (record { a = a; e = e; s = s })
