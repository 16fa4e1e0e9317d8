-- ===== src/Zmix/Ps/Signature.antt =====
-- ursa_Master/libzmix/src/signatures/ps/signature.rs. The random `u` of a signature is an argument.
pub mod Verify
pub mod Sign
pub mod Tests
use smartchaindb_driver.Prelude.{
  ℕ, zero, suc, ◌+◌, ◌-◌, Bool, true, false, ◌||◌, not, Option, none, some, List, [], ◌∷◌, ◌++◌,
  length, get_elem?, leb, ◌==◌, if◌then◌else◌, Outcome, ok, err, panic, ◌>>=◌, ◌>>◌, fail_if,
  unwrap,
}
use smartchaindb_driver.Amcl.{Field, Group, Pairing}
use smartchaindb_driver.Zmix.Bytes.{Bytes, Encoding}
use smartchaindb_driver.Zmix.Ps.Errors.{PsErrorKind, unsupported_no_of_messages}
use smartchaindb_driver.Zmix.Ps.Keys.{Sigkey, Verkey, validate}

pub record Signature {K : Field} (S : Group K) : Type 0 where
  pub sigma_1 : S.G
  pub sigma_2 : S.G

-- the loops that push one point, from `index` on, for each message
unfoldable pub message_points : {P F : Type 0} → List P → ℕ → List F → Outcome PsErrorKind (List P)
message_points ps index [] = ok []
message_points ps index (m ∷ ms) = do
  p ← unwrap (get_elem? ps index)
  rest ← message_points ps (suc index) ms
  ok (p ∷ rest)

module _ {K : Field} {S O : Group K} where
  open K use {F, fe_one}
  open S use {G, ◌⊕◌, ◌⊖◌, ◌•◌, negate, is_identity, multi_scalar_mul_const_time}

  unfoldable pub check_verkey_and_messages_compat :
      Verkey S O → List F → Outcome PsErrorKind (Unit {0})
  unfolding validate
  check_verkey_and_messages_compat verkey messages = do
    validate verkey
    if not (length messages == length verkey.y)
        then err (unsupported_no_of_messages (length messages) (length verkey.y))
        else ok tt

  -- `_sign`
  unfoldable pub sign_with :
      Verkey S O → Sigkey S → List F → Option G → F → Outcome PsErrorKind (Signature S)
  unfolding message_points
  sign_with verkey sigkey messages commitment u = do
    let sigma_1 = verkey.g • u
    let offset = length verkey.y - length messages
    points ← message_points verkey.y offset messages
    sum ← unwrap (multi_scalar_mul_const_time points messages)
    let sigma_2 = sigkey.x ⊕ sum
    let committed : G = elim commitment [ some c ↦ sigma_2 ⊕ c | none ↦ sigma_2 ]
    ok (record { sigma_1 = sigma_1; sigma_2 = committed • u })

  -- `Signature::new`
  unfoldable pub new : Verkey S O → Sigkey S → List F → F → Outcome PsErrorKind (Signature S)
  unfolding check_verkey_and_messages_compat sign_with
  new verkey sigkey messages u = do
    check_verkey_and_messages_compat verkey messages
    sign_with verkey sigkey messages none u

  unfoldable pub new_with_committed_messages :
      Verkey S O → Sigkey S → G → List F → F → Outcome PsErrorKind (Signature S)
  unfolding validate sign_with
  new_with_committed_messages verkey sigkey commitment messages u = do
    validate verkey
    fail_if (leb (length verkey.y) (length messages))
        (unsupported_no_of_messages (length messages) (length verkey.y))
    sign_with verkey sigkey messages (some commitment) u

  unfoldable pub verify : Pairing S O → Signature S → List F → Verkey S O → Outcome PsErrorKind Bool
  unfolding check_verkey_and_messages_compat message_points
  verify P self messages verkey =
      if is_identity self.sigma_1 || is_identity self.sigma_2 then ok false else (do
        check_verkey_and_messages_compat verkey messages
        points ← message_points verkey.y_tilde 0 messages
        pr ← unwrap (O.multi_scalar_mul_var_time (verkey.x_tilde ∷ points) (fe_one ∷ messages))
        ok (P.is_one (P.ate_2_pairing self.sigma_1 pr (negate self.sigma_2) verkey.g_tilde)))

module _ {K : Field} {S : Group K} where
  unfoldable pub get_unblinded_signature : Signature S → K.F → Signature S
  get_unblinded_signature self blinding =
      let sigma_1_t = S.◌•◌ self.sigma_1 blinding in
      record { sigma_1 = self.sigma_1; sigma_2 = S.◌⊖◌ self.sigma_2 sigma_1_t }
