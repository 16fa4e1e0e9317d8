-- ===== src/Ursa/Primary/Issue/Products.antt =====
-- The products that the issuer and the prover make of the values of a credential.
use smartchaindb_driver.Prelude.{
  ◌≡◌, refl, ap, ◌∙◌, some, [], ◌∷◌, ok, Option-cases, arith, inl, inr,
}
use smartchaindb_driver.Ursa.BigNumber.{BigNumbers, Residues}
use smartchaindb_driver.Ursa.BigNumber.Laws.{⊙_left_comm}
use smartchaindb_driver.Ursa.Names.{Name, Map, lookup, contains_key-lookup}
use smartchaindb_driver.Ursa.Primary.{
  CredentialPrimaryPublicKey, CredentialValue, known, hidden, commitment, is_known, is_hidden,
  value_of,
}
use smartchaindb_driver.Ursa.Primary.Secrets.Products.{HasBases, pub_key_of, hidden_product}
use smartchaindb_driver.Ursa.Primary.Issue.{multiply_known, check_attributes, multiply_signed}

module _ {B : BigNumbers} {n : B.Z} (R : Residues B n) where
  open B use {
    Z, bn_zero, ◌⊞◌, ◌⊟◌, ◌⊠◌, eq, mod_exp, mod_mul, mod_sub, inverse, is_prime, to_bytes,
    get_hash_as_int,
  }
  open R use {Q, unit, ◌⊙◌, ◌↑◌, inv, val, ⊙_assoc, ⊙_comm, mod_exp-eq, mod_mul-eq, inverse-eq}

  -- The key has a member of the group for every attribute.
  abbrev pub HasAllBases : Map Z → (Name → Q) → Map (CredentialValue Z) → Type 0
  HasAllBases r base [] = Unit {0}
  HasAllBases r base ((attr, value) ∷ values) =
      (lookup attr r ≡ some (val (base attr))) × HasAllBases r base values

  pub all_bases-HasBases :
      (r : Map Z) (base : Name → Q) (values : Map (CredentialValue Z))
      → HasAllBases r base values
      → HasBases R r base values
  all_bases-HasBases r base [] h = tt
  all_bases-HasBases r base ((attr, known value) ∷ values) (h, hs) =
      all_bases-HasBases r base values hs
  all_bases-HasBases r base ((attr, hidden value) ∷ values) (h, hs) =
      (h, all_bases-HasBases r base values hs)
  all_bases-HasBases r base ((attr, commitment value b) ∷ values) (h, hs) =
      (h, all_bases-HasBases r base values hs)

  -- what the issuer knows of the values
  abbrev pub only_known : Map (CredentialValue Z) → Map (CredentialValue Z)
  only_known [] = []
  only_known ((attr, known value) ∷ values) = (attr, known value) ∷ only_known values
  only_known ((attr, hidden value) ∷ values) = only_known values
  only_known ((attr, commitment value blinding_factor) ∷ values) = only_known values

  pub multiply_known-only_known :
      (pub_key : CredentialPrimaryPublicKey Z) (rx : Z) (values : Map (CredentialValue Z))
      → multiply_known B pub_key rx (only_known values) ≡ multiply_known B pub_key rx values
  multiply_known-only_known pub_key rx [] = refl
  multiply_known-only_known pub_key rx ((attr, hidden value) ∷ values) =
      multiply_known-only_known pub_key rx values
  multiply_known-only_known pub_key rx ((attr, commitment value b) ∷ values) =
      multiply_known-only_known pub_key rx values
  multiply_known-only_known pub_key rx ((attr, known value) ∷ values) =
      elim (Option-cases (lookup attr pub_key.r)) [
        | inl missing ↦ rw (missing)
        | inr (pk_r, there) ↦ rw there (
            multiply_known-only_known pub_key (mod_mul (mod_exp pk_r value pub_key.n) rx pub_key.n)
              values)
      ]

  module _ (σ ζ κ : Q) (base : Name → Q) (r : Map Z) where
    abbrev pub pub_key : CredentialPrimaryPublicKey Z
    pub_key = pub_key_of R σ ζ base r (val κ)

    abbrev pub known_product : Map (CredentialValue Z) → Q
    known_product [] = unit
    known_product ((attr, known value) ∷ rest) = base attr ↑ value ⊙ known_product rest
    known_product ((attr, hidden value) ∷ rest) = known_product rest
    known_product ((attr, commitment value blinding_factor) ∷ rest) = known_product rest

    pub multiply_known-product :
        (a : Q) (values : Map (CredentialValue Z))
        → HasAllBases r base values
        → multiply_known B pub_key (val a) values ≡ ok (val (a ⊙ known_product values))
    multiply_known-product a [] h = rw (R.⊙-unit a)
    multiply_known-product a ((attr, known value) ∷ values) (h, hs) =
        rw (h, mod_exp-eq (base attr) value, mod_mul-eq (base attr ↑ value) a)
          (multiply_known-product (base attr ↑ value ⊙ a) values hs
            ∙ ap (λ y. ok (val y))
                (ap (λ y. y ⊙ known_product values) (⊙_comm _ _) ∙ ⊙_assoc _ _ _))
    multiply_known-product a ((attr, hidden value) ∷ values) (h, hs) =
        multiply_known-product a values hs
    multiply_known-product a ((attr, commitment value b) ∷ values) (h, hs) =
        multiply_known-product a values hs

    pub check_attributes-ok :
        (values : Map (CredentialValue Z))
        → HasAllBases r base values
        → check_attributes B pub_key values ≡ ok tt
    check_attributes-ok [] h = refl
    check_attributes-ok ((attr, value) ∷ values) (h, hs) =
        let there = contains_key-lookup attr r _ h in
        let later = check_attributes-ok values hs in ground arith

    pub multiply_signed-product :
        (a : Q) (values : Map (CredentialValue Z))
        → HasAllBases r base values
        → multiply_signed B pub_key (val a) values
          ≡ ok (val (a ⊙ (known_product values ⊙ hidden_product R σ ζ base r (val κ) values)))
    unfolding is_known is_hidden value_of
    multiply_signed-product a [] h = rw (R.⊙-unit unit, R.⊙-unit a)
    multiply_signed-product a ((attr, known value) ∷ values) (h, hs) =
        rw
          (
            contains_key-lookup attr r _ h,
            h,
            mod_exp-eq (base attr) value,
            mod_mul-eq a (base attr ↑ value),
            multiply_signed-product (a ⊙ base attr ↑ value) values hs,
          )
          (ap (λ y. ok (val y)) (simp (⊙_assoc)))
    multiply_signed-product a ((attr, hidden value) ∷ values) (h, hs) =
        rw
          (
            contains_key-lookup attr r _ h,
            h,
            mod_exp-eq (base attr) value,
            mod_mul-eq a (base attr ↑ value),
            multiply_signed-product (a ⊙ base attr ↑ value) values hs,
          )
          (ap (λ y. ok (val y)) (simp (⊙_assoc, ⊙_left_comm R)))
    multiply_signed-product a ((attr, commitment value b) ∷ values) (h, hs) =
        multiply_signed-product a values hs
