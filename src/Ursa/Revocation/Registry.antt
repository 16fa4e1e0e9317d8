-- ===== src/Ursa/Revocation/Registry.antt =====
-- The registry through its life: what is issued, revoked and recovered, and the tails in its accumulator.
pub mod Live
use smartchaindb_driver.Prelude.{
  ℕ, zero, suc, ◌+◌, ◌-◌, ◌*◌, ◌^◌, ◌≤◌, ◌<◌, ◌≡◌, refl, sym, ap, ◌∙◌, Bool, true, false, Option,
  List, [], ◌∷◌, length, if◌then◌else◌, ltb, ltb→lt, get_elem?-beyond, Outcome, panic, ok,
  ok-injective, >>=-ok, ◌>>=◌, arith, Bool-cases, inl, inr,
}
use smartchaindb_driver.Amcl.{Field, Group, Pairing}
use smartchaindb_driver.Amcl.Algebra.{•-zero, identity-⊕, eq_⊖, ⊖_cancel}
use smartchaindb_driver.Zmix.Selection.{contains}
use smartchaindb_driver.Ursa.Errors.{UrsaCryptoError}
use smartchaindb_driver.Ursa.Revocation.Tails.{access_tail}
use smartchaindb_driver.Ursa.Pair.{Curve, power}
use smartchaindb_driver.Ursa.Revocation.{
  CredentialRevocationPublicKey, RevocationRegistry, RevocationRegistryDelta,
}
use smartchaindb_driver.Ursa.Revocation.Sets.{remove, range}
use smartchaindb_driver.Ursa.Revocation.Tails.Laws.{IsTails, new_tail-eq}
use smartchaindb_driver.Ursa.Revocation.Sums.{
  IsCredentials, weight, weight-remove, remove-IsCredentials, access_tail-eq,
}
use smartchaindb_driver.Ursa.Revocation.Issuer.{
  get_index, add_all_tails, new_revocation_registry, issue, revoke_credential, recovery_credential,
}

-- the exponent of the tail of a credential in the accumulator
abbrev pub place : ℕ → ℕ → ℕ
place max_cred_num j = max_cred_num + 1 - j

get_index-eq :
    (max_cred_num j : ℕ)
    → 2 * max_cred_num + 1 < 2 ^ 32
    → 0 < j
    → j ≤ max_cred_num
    → get_index max_cred_num j ≡ place max_cred_num j
unfolding get_index
get_index-eq max_cred_num j h a b = omega arith

module _ {K : Field} {M N : Group K} {P : Pairing M N} (C : Curve P)
    (key : CredentialRevocationPublicKey M N) (gamma : K.F) (max_cred_num : ℕ) where
  open N use {G, identity, ◌⊕◌, ◌⊖◌, ◌•◌}

  -- the accumulator is the sum of the tails of the valid credentials
  abbrev pub Accumulates : RevocationRegistry N → List ℕ → Type 0
  Accumulates rev_reg live = rev_reg.accum ≡ key.g_dash • weight K gamma (place max_cred_num) live

  -- the sum of the tails that stand in the accessor at the indices of the credentials
  abbrev pub tails_of : List ℕ → G
  tails_of js = key.g_dash • weight K gamma (get_index max_cred_num) js

  -- the accumulator is the sum of the tails added, less those taken away
  abbrev pub IsBalance : RevocationRegistry N → List ℕ → List ℕ → Type 0
  IsBalance rev_reg added removed = rev_reg.accum ≡ tails_of added ⊖ tails_of removed

  get_index-small : (j : ℕ) → get_index max_cred_num j < 2 ^ 32
  unfolding get_index
  get_index-small j = omega arith

  add_all_tails-eq :
      (js : List ℕ) (accum : G)
      → add_all_tails C max_cred_num key.g_dash gamma js accum ≡ ok (accum ⊕ tails_of js)
  unfolding add_all_tails
  add_all_tails-eq [] accum =
      ap ok (sym (ap (λ z. accum ⊕ z) (•-zero N key.g_dash) ∙ N.⊕-identity accum))
  add_all_tails-eq (j ∷ js) accum =
      rw
        (
          new_tail-eq C (get_index max_cred_num j) key.g_dash gamma (get_index-small j),
          add_all_tails-eq js (accum ⊕ (key.g_dash • power K gamma (get_index max_cred_num j))),
        )
        (ap ok (N.⊕_assoc _ _ _ ∙ ap (λ z. accum ⊕ z) (sym (N.•-⊞ key.g_dash _ _))))

  -- the credentials that are valid in a new registry
  abbrev pub valid_at_start : Bool → List ℕ
  valid_at_start issuance_by_default = if issuance_by_default then range 1 max_cred_num else []

  none_removed : (p : G) → p ≡ p ⊖ tails_of []
  none_removed p = eq_⊖ N p (tails_of []) p (ap (λ z. p ⊕ z) (•-zero N key.g_dash) ∙ N.⊕-identity p)

  new_registry-IsBalance :
      (issuance_by_default : Bool) (rev_reg : RevocationRegistry N)
      → new_revocation_registry C key (record { gamma = gamma }) max_cred_num issuance_by_default
        ≡ ok rev_reg
      → IsBalance rev_reg (valid_at_start issuance_by_default) []
  unfolding new_revocation_registry
  new_registry-IsBalance true rev_reg e =
      ap (λ r. r.accum)
        (sym (ok-injective (rw (add_all_tails-eq (range 1 max_cred_num) identity) at e)))
      ∙ identity-⊕ N _
      ∙ none_removed _
  new_registry-IsBalance false rev_reg e =
      ap (λ r. r.accum) (sym (ok-injective e)) ∙ sym (•-zero N key.g_dash) ∙ none_removed _

  plus_tail :
      (accum : G) (i : ℕ) (added removed : List ℕ)
      → accum ≡ tails_of added ⊖ tails_of removed
      → accum ⊕ (key.g_dash • power K gamma (get_index max_cred_num i))
        ≡ tails_of (i ∷ added) ⊖ tails_of removed
  plus_tail accum i added removed a =
      let tail = key.g_dash • power K gamma (get_index max_cred_num i) in
      eq_⊖ N _ _ _ (
        N.⊕_assoc accum tail (tails_of removed)
        ∙ ap (λ z. accum ⊕ z) (N.⊕_comm _ _)
        ∙ sym (N.⊕_assoc accum (tails_of removed) tail)
        ∙ ap (λ z. (z ⊕ tails_of removed) ⊕ tail) a
        ∙ ap (λ z. z ⊕ tail) (⊖_cancel N (tails_of added) (tails_of removed))
        ∙ N.⊕_comm _ _
        ∙ sym (N.•-⊞ key.g_dash _ _))

  minus_tail :
      (accum : G) (i : ℕ) (added removed : List ℕ)
      → accum ≡ tails_of added ⊖ tails_of removed
      → accum ⊖ (key.g_dash • power K gamma (get_index max_cred_num i))
        ≡ tails_of added ⊖ tails_of (i ∷ removed)
  minus_tail accum i added removed a =
      let tail = key.g_dash • power K gamma (get_index max_cred_num i) in
      eq_⊖ N _ _ _ (
        ap (λ z. (accum ⊖ tail) ⊕ z) (N.•-⊞ key.g_dash _ _)
        ∙ sym (N.⊕_assoc (accum ⊖ tail) tail (tails_of removed))
        ∙ ap (λ z. z ⊕ tails_of removed) (⊖_cancel N accum tail)
        ∙ ap (λ z. z ⊕ tails_of removed) a
        ∙ ⊖_cancel N (tails_of added) (tails_of removed))

  module _ (tails : List G) where
    -- The registries that calls of the issuer reach, whatever credentials they name, each with the credentials whose
    -- tails were added, at the start or by a call, and with those whose tails were taken away.
    pub data Reaches : RevocationRegistry N → List ℕ → List ℕ → Type 0 where
      created :
          (issuance_by_default : Bool) (rev_reg : RevocationRegistry N)
          → new_revocation_registry C key
              (record { gamma = gamma })
              max_cred_num
              issuance_by_default
            ≡ ok rev_reg
          → Reaches rev_reg (valid_at_start issuance_by_default) []
      issued :
          (rev_reg rev_reg' : RevocationRegistry N) (added removed : List ℕ) (i : ℕ)
          (issuance_by_default : Bool) (delta : Option (RevocationRegistryDelta N))
          → Reaches rev_reg added removed
          → issue C rev_reg max_cred_num i issuance_by_default tails ≡ ok (delta, rev_reg')
          → Reaches rev_reg' (if issuance_by_default then added else i ∷ added) removed
      recovered :
          (rev_reg rev_reg' : RevocationRegistry N) (added removed : List ℕ) (i : ℕ)
          (delta : RevocationRegistryDelta N)
          → Reaches rev_reg added removed
          → recovery_credential C rev_reg max_cred_num i tails ≡ ok (delta, rev_reg')
          → Reaches rev_reg' (i ∷ added) removed
      revoked :
          (rev_reg rev_reg' : RevocationRegistry N) (added removed : List ℕ) (i : ℕ)
          (delta : RevocationRegistryDelta N)
          → Reaches rev_reg added removed
          → revoke_credential C rev_reg max_cred_num i tails ≡ ok (delta, rev_reg')
          → Reaches rev_reg' added (i ∷ removed)

    module _ (count : length tails ≡ 2 * max_cred_num + 1)
        (are : IsTails N key.g_dash gamma tails max_cred_num) where
      -- whatever index the accessor has a tail for, it is the one of that index
      access_tail-is :
          (k : ℕ) (tail : G)
          → access_tail {A = G} tails k ≡ ok tail
          → tail ≡ key.g_dash • power K gamma k
      unfolding access_tail
      access_tail-is k tail e = elim (Bool-cases (ltb k (length tails))) [
        | inl t ↦
            let found = are k (omega (arith, ltb→lt k (length tails) t, count)) in
            sym (ok-injective (rw found at e))
        | inr f ↦
            let out = get_elem?-beyond tails k (ground arith) in absurd (panic-ok (rw out at e))
      ]
        where
          panic-ok : ◌≡◌ {A = Outcome UrsaCryptoError G} panic (ok tail) → ⊥
          panic-ok h = cc

      -- Whatever sequence of creation, issue, recovery and revocation reaches a registry, the accumulator is the sum of
      -- the tails that the calls added, less those that they took away, for an accessor of the 2 L + 1 tails.
      pub Reaches-IsBalance :
          (rev_reg : RevocationRegistry N) (added removed : List ℕ)
          → Reaches rev_reg added removed
          → IsBalance rev_reg added removed
      unfolding issue recovery_credential revoke_credential
      Reaches-IsBalance _ _ _ (created by_default rev_reg e) =
          new_registry-IsBalance by_default rev_reg e
      Reaches-IsBalance _ _ _ (issued rev_reg rev_reg' added removed i true delta r e) =
          ap (λ p. p.1.accum) (sym (ok-injective e)) ∙ Reaches-IsBalance rev_reg added removed r
      Reaches-IsBalance _ _ _ (issued rev_reg rev_reg' added removed i false delta r e) =
          let (tail, found, done) = >>=-ok _ _ _ e in
          ap (λ p. p.1.accum) (sym (ok-injective done))
          ∙ ap (λ z. rev_reg.accum ⊕ z) (access_tail-is _ tail found)
          ∙ plus_tail rev_reg.accum i added removed (Reaches-IsBalance rev_reg added removed r)
      Reaches-IsBalance _ _ _ (recovered rev_reg rev_reg' added removed i delta r e) =
          let (tail, found, done) = >>=-ok _ _ _ e in
          ap (λ p. p.1.accum) (sym (ok-injective done))
          ∙ ap (λ z. rev_reg.accum ⊕ z) (access_tail-is _ tail found)
          ∙ plus_tail rev_reg.accum i added removed (Reaches-IsBalance rev_reg added removed r)
      Reaches-IsBalance _ _ _ (revoked rev_reg rev_reg' added removed i delta r e) =
          let (tail, found, done) = >>=-ok _ _ _ e in
          ap (λ p. p.1.accum) (sym (ok-injective done))
          ∙ ap (λ z. rev_reg.accum ⊖ z) (access_tail-is _ tail found)
          ∙ minus_tail rev_reg.accum i added removed (Reaches-IsBalance rev_reg added removed r)
