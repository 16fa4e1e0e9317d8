-- ===== src/Ursa/Primary/Secrets/Products.antt =====
-- The product that blinds the hidden attributes, and the commitments, in the group.
use smartchaindb_driver.Prelude.{ℕ, suc, ◌≡◌, refl, ap, ap₂, ◌∙◌, Option, some, none, [], ◌∷◌, ok}
use smartchaindb_driver.Ursa.BigNumber.{BigNumbers, Residues}
use smartchaindb_driver.Ursa.BigNumber.Laws.{get_pedersen_commitment-eq}
use smartchaindb_driver.Ursa.Names.{Name, Map, lookup, HasEntries}
use smartchaindb_driver.Ursa.Primary.{
  CredentialPrimaryPublicKey, CredentialValue, known, hidden, commitment, value_of,
}
use smartchaindb_driver.Ursa.Primary.Secrets.{hidden_names, fold_hidden, commit_all}
use smartchaindb_driver.Ursa.Primary.Secrets.Collect.{collect}

module _ {B : BigNumbers} {n : B.Z} (R : Residues B n) where
  open B use {Z, ◌⊞◌, ◌⊠◌, eq, mod_exp, mod_mul, inverse, to_bytes, get_hash_as_int}
  open R use {Q, unit, ◌⊙◌, ◌↑◌, inv, val, ⊙_assoc, mod_exp-eq, mod_mul-eq, inverse-eq}

  -- The key has a member of the group for every attribute that is hidden or committed to.
  abbrev pub HasBases : Map Z → (Name → Q) → Map (CredentialValue Z) → Type 0
  HasBases r base [] = Unit {0}
  HasBases r base ((attr, known value) ∷ values) = HasBases r base values
  HasBases r base ((attr, hidden value) ∷ values) =
      (lookup attr r ≡ some (val (base attr))) × HasBases r base values
  HasBases r base ((attr, commitment value blinding_factor) ∷ values) =
      (lookup attr r ≡ some (val (base attr))) × HasBases r base values

  module _ (σ ζ : Q) (base : Name → Q) (r : Map Z) (rctxt : Z) where
    abbrev pub pub_key_of : CredentialPrimaryPublicKey Z
    pub_key_of = record { n = n; s = val σ; r = r; rctxt = rctxt; z = val ζ }

    -- the hidden attributes' part of u
    abbrev pub hidden_product : Map (CredentialValue Z) → Q
    hidden_product [] = unit
    hidden_product ((attr, known value) ∷ rest) = hidden_product rest
    hidden_product ((attr, hidden value) ∷ rest) = base attr ↑ value ⊙ hidden_product rest
    hidden_product ((attr, commitment value blinding_factor) ∷ rest) = hidden_product rest

    pub fold_step :
        (a : Q) (attr : Name) (x : Z)
        → mod_mul (val a) (mod_exp (val (base attr)) x n) n ≡ val (a ⊙ base attr ↑ x)
    fold_step a attr x =
        ap (λ y. mod_mul (val a) y n) (mod_exp-eq (base attr) x) ∙ mod_mul-eq a (base attr ↑ x)

    pub fold_hidden-product :
        (values : Map (CredentialValue Z)) (a : Q) (part : Map (CredentialValue Z))
        → HasEntries values part
        → HasBases r base part
        → fold_hidden B pub_key_of values (val a) (hidden_names B part)
          ≡ ok (val (a ⊙ hidden_product part))
    unfolding value_of
    fold_hidden-product values a [] h g = rw (R.⊙-unit a)
    fold_hidden-product values a ((attr, known value) ∷ part) (h, hs) g =
        fold_hidden-product values a part hs g
    fold_hidden-product values a ((attr, hidden value) ∷ part) (h, hs) (g, gs) =
        rw (g, h, fold_step a attr value)
          (fold_hidden-product values (a ⊙ base attr ↑ value) part hs gs
            ∙ ap (λ y. ok (val y)) (⊙_assoc _ _ _))
    fold_hidden-product values a ((attr, commitment value b) ∷ part) (h, hs) (g, gs) =
        fold_hidden-product values a part hs gs

    -- the maps of the proof
    abbrev pub committed_of : CredentialValue Z → ℕ → Option Z
    committed_of (known value) i = none
    committed_of (hidden value) i = none
    committed_of (commitment value blinding_factor) i = some (val (σ ↑ blinding_factor ⊙ ζ ↑ value))

    pub commit_all-collect :
        (i : ℕ) (part : Map (CredentialValue Z))
        → commit_all B pub_key_of part ≡ collect committed_of i part
    commit_all-collect i [] = refl
    commit_all-collect i ((attr, known value) ∷ part) = commit_all-collect i part
    commit_all-collect i ((attr, hidden value) ∷ part) = commit_all-collect (suc i) part
    commit_all-collect i ((attr, commitment value b) ∷ part) =
        ap₂ (λ x xs. (attr, x) ∷ xs) (get_pedersen_commitment-eq R σ ζ b value)
          (commit_all-collect (suc (suc i)) part)
