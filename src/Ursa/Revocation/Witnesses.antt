-- ===== src/Ursa/Revocation/Witnesses.antt =====
-- `Witness` in ursa_Master/libursa/src/cl/mod.rs: the sum of tails that a holder keeps.
use smartchaindb_driver.Prelude.{
  ℕ, Bool, true, false, List, [], ◌∷◌, ◌==◌, if◌then◌else◌, Outcome, ok, ◌>>=◌,
}
use smartchaindb_driver.Amcl.{Field, Group}
use smartchaindb_driver.Ursa.Errors.{UrsaCryptoError}
use smartchaindb_driver.Ursa.Pair.{add_u32, sub_u32}
use smartchaindb_driver.Ursa.Revocation.{RevocationRegistryDelta, Witness}
use smartchaindb_driver.Ursa.Revocation.Sets.{remove, difference, range}
use smartchaindb_driver.Ursa.Revocation.Tails.{access_tail}

-- `max_cred_num + 1 - j + rev_idx`
abbrev pub witness_index : ℕ → ℕ → ℕ → ℕ
witness_index max_cred_num rev_idx j = add_u32 (sub_u32 (add_u32 max_cred_num 1) j) rev_idx

module _ {K : Field} (N : Group K) where
  open N use {G, identity, ◌⊕◌, ◌⊖◌}

  -- the loop of `new` over a set, which adds the tails to `omega`
  unfoldable pub add_tails : ℕ → ℕ → List G → List ℕ → G → Outcome UrsaCryptoError G
  add_tails max_cred_num rev_idx tails [] sum = ok sum
  add_tails max_cred_num rev_idx tails (j ∷ js) sum = do
    tail ← access_tail tails (witness_index max_cred_num rev_idx j)
    add_tails max_cred_num rev_idx tails js (sum ⊕ tail)

  -- the loops of `update`, which skip the index of the holder
  unfoldable pub add_other_tails : ℕ → ℕ → List G → List ℕ → G → Outcome UrsaCryptoError G
  add_other_tails max_cred_num rev_idx tails [] sum = ok sum
  add_other_tails max_cred_num rev_idx tails (j ∷ js) sum = elim (rev_idx == j) [
    | true ↦ add_other_tails max_cred_num rev_idx tails js sum
    | false ↦ do
      tail ← access_tail tails (witness_index max_cred_num rev_idx j)
      add_other_tails max_cred_num rev_idx tails js (sum ⊕ tail)
  ]

  -- `Witness::new`
  unfoldable pub new :
      ℕ → ℕ → Bool → RevocationRegistryDelta N → List G → Outcome UrsaCryptoError (Witness N)
  new rev_idx max_cred_num issuance_by_default rev_reg_delta tails = do
    let issued =
        if issuance_by_default
        then difference (range 1 max_cred_num) rev_reg_delta.revoked
        else rev_reg_delta.issued
    omega ← add_tails max_cred_num rev_idx tails (remove rev_idx issued) N.identity
    ok (record { omega = omega })

  -- `Witness::update`
  unfoldable pub update :
      Witness N → ℕ → ℕ → RevocationRegistryDelta N → List G → Outcome UrsaCryptoError (Witness N)
  update self rev_idx max_cred_num rev_reg_delta tails = do
    omega_denom ← add_other_tails max_cred_num rev_idx tails rev_reg_delta.revoked identity
    omega_num ← add_other_tails max_cred_num rev_idx tails rev_reg_delta.issued identity
    ok (record { omega = self.omega ⊕ (omega_num ⊖ omega_denom) })
