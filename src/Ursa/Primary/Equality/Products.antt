-- ===== src/Ursa/Primary/Equality/Products.antt =====
-- The loops of the equality proof as products in the group.
use smartchaindb_driver.Prelude.{
  ◌≡◌, refl, sym, ap, ap₂, ◌∙◌, false, List, [], ◌∷◌, ok, Bool-cases, inl, inr,
}
use smartchaindb_driver.Zmix.Selection.{contains}
use smartchaindb_driver.Ursa.BigNumber.{BigNumbers, Residues}
use smartchaindb_driver.Ursa.BigNumber.Laws.{interchange, ⊙_left_comm, unit-↑}
use smartchaindb_driver.Ursa.Names.{Name, Map, keys, at_or, HasEntries}
use smartchaindb_driver.Ursa.NameSets.{both}
use smartchaindb_driver.Ursa.Revocation.Sets.{difference}
use smartchaindb_driver.Ursa.Primary.{
  CredentialPrimaryPublicKey, CredentialValue, known, hidden, commitment, is_commitment, value_of,
}
use smartchaindb_driver.Ursa.Primary.Secrets.Products.{hidden_product}
use smartchaindb_driver.Ursa.Primary.Issue.Products.{pub_key, known_product}
use smartchaindb_driver.Ursa.Primary.Equality.{
  multiply_unrevealed, calc_teq, respond_all, reveal_all, multiply_revealed,
}
use smartchaindb_driver.Ursa.Primary.Equality.Tables.{Gives, table, at_or-lookup}

module _ {B : BigNumbers} {n : B.Z} (R : Residues B n) where
  open B use {Z, bn_zero, ◌⊞◌, ◌⊠◌, mod_exp, mod_mul}
  open R use {Q, unit, ◌⊙◌, ◌↑◌, val, ⊙_assoc, ⊙_comm, mod_exp-eq, mod_mul-eq}

  module _ (σ ζ κ : Q) (base : Name → Q) (r : Map Z) where
    abbrev key : CredentialPrimaryPublicKey Z
    key = pub_key R σ ζ κ base r

    abbrev pub product : (Name → Z) → List Name → Q
    product f [] = unit
    product f (k ∷ ks) = base k ↑ f k ⊙ product f ks

    -- The key has the base of each of the names.
    abbrev pub HasBasesAt : List Name → Type 0
    HasBasesAt ks = Gives r (λ k. val (base k)) ks

    step :
        (a : Q) (k : Name) (x : Z)
        → mod_mul (mod_exp (val (base k)) x n) (val a) n ≡ val (a ⊙ base k ↑ x)
    step a k x =
        ap (λ y. mod_mul y (val a) n) (mod_exp-eq (base k) x)
        ∙ mod_mul-eq (base k ↑ x) a
        ∙ ap val (⊙_comm _ _)

    multiply_unrevealed-product :
        (m_tilde : Map Z) (f : Name → Z) (a : Q) (ks : List Name)
        → HasBasesAt ks
        → Gives m_tilde f ks
        → multiply_unrevealed B key m_tilde (val a) ks ≡ ok (val (a ⊙ product f ks))
    multiply_unrevealed-product m_tilde f a [] g h = rw (R.⊙-unit a)
    multiply_unrevealed-product m_tilde f a (k ∷ ks) (g, gs) (h, hs) = rw (
      g,
      h,
      step a k (f k),
      multiply_unrevealed-product m_tilde f (a ⊙ base k ↑ f k) ks gs hs,
      ⊙_assoc a (base k ↑ f k) (product f ks),
    )

    pub calc_teq-product :
        (m_tilde : Map Z) (f : Name → Z) (a : Q) (e v m2 : Z) (ks : List Name)
        → HasBasesAt ks
        → Gives m_tilde f ks
        → calc_teq B key (val a) e v m_tilde m2 ks
          ≡ ok (val (κ ↑ m2 ⊙ (σ ↑ v ⊙ (a ↑ e ⊙ product f ks))))
    unfolding calc_teq
    calc_teq-product m_tilde f a e v m2 ks g h = rw (
      mod_exp-eq a e,
      multiply_unrevealed-product m_tilde f (a ↑ e) ks g h,
      mod_exp-eq σ v,
      mod_mul-eq (σ ↑ v) (a ↑ e ⊙ product f ks),
      mod_exp-eq κ m2,
      mod_mul-eq (κ ↑ m2) (σ ↑ v ⊙ (a ↑ e ⊙ product f ks)),
    )

    pub multiply_revealed-product :
        (f : Name → Z) (a : Q) (ks : List Name)
        → HasBasesAt ks
        → multiply_revealed B key (val a) (table f ks) ≡ ok (val (a ⊙ product f ks))
    multiply_revealed-product f a [] g = rw (R.⊙-unit a)
    multiply_revealed-product f a (k ∷ ks) (g, gs) = rw (
      g,
      step a k (f k),
      multiply_revealed-product f (a ⊙ base k ↑ f k) ks gs,
      ⊙_assoc a (base k ↑ f k) (product f ks),
    )

    pub product-split :
        (f : Name → Z) (ks rs : List Name)
        → product f ks ≡ product f (difference ks rs) ⊙ product f (both ks rs)
    product-split f [] rs = sym (R.⊙-unit unit)
    product-split f (k ∷ ks) rs = elim (Bool-cases (contains rs k)) [
      | inl shared ↦
          rw shared
            (ap (λ x. base k ↑ f k ⊙ x) (product-split f ks rs) ∙ ⊙_left_comm R (base k ↑ f k) _ _)
      | inr own ↦
          rw own
            (ap (λ x. base k ↑ f k ⊙ x) (product-split f ks rs) ∙ sym (⊙_assoc (base k ↑ f k) _ _))
    ]

    pub product-respond :
        (m t : Name → Z) (c : Z) (ks : List Name)
        → product (λ k. (c ⊠ m k) ⊞ t k) ks ≡ product m ks ↑ c ⊙ product t ks
    product-respond m t c [] = sym (ap (λ y. y ⊙ unit) (unit-↑ R c) ∙ R.⊙-unit unit)
    product-respond m t c (k ∷ ks) =
        ap₂ (λ x y. x ⊙ y)
          (R.↑-⊞ (base k) (c ⊠ m k) (t k)
            ∙ ap (λ y. y ⊙ base k ↑ t k)
                (ap (λ y. base k ↑ y) (B.⊠_comm c (m k)) ∙ R.↑-⊠ (base k) (m k) c))
          (product-respond m t c ks)
        ∙ interchange R _ _ _ _
        ∙ ap (λ y. y ⊙ (base k ↑ t k ⊙ product t ks)) (sym (R.⊙-↑ _ _ c))

  -- the value at a name, where there is one
  abbrev pub value_at : Map (CredentialValue Z) → Name → Z
  value_at values k = value_of (at_or (known bn_zero) values k)

  pub respond_all-table :
      (m_tilde : Map Z) (values : Map (CredentialValue Z)) (t : Name → Z) (c : Z) (ks : List Name)
      → Gives m_tilde t ks
      → Gives values (at_or (known bn_zero) values) ks
      → respond_all B m_tilde values c ks ≡ ok (table (λ k. (c ⊠ value_at values k) ⊞ t k) ks)
  respond_all-table m_tilde values t c [] h g = refl
  respond_all-table m_tilde values t c (k ∷ ks) (h, hs) (g, gs) =
      rw (h, g, respond_all-table m_tilde values t c ks hs gs)

  pub reveal_all-table :
      (values : Map (CredentialValue Z)) (ks : List Name)
      → Gives values (at_or (known bn_zero) values) ks
      → reveal_all B values ks ≡ ok (table (value_at values) ks)
  reveal_all-table values [] g = refl
  reveal_all-table values (k ∷ ks) (g, gs) = rw (g, reveal_all-table values ks gs)

  -- no value is only committed to
  abbrev pub AreSigned : Map (CredentialValue Z) → Type 0
  AreSigned [] = Unit {0}
  AreSigned ((attr, value) ∷ values) = (is_commitment value ≡ false) × AreSigned values

  pub signed_product :
      (σ ζ κ : Q) (base : Name → Q) (r : Map Z) (values part : Map (CredentialValue Z))
      → AreSigned part
      → HasEntries values part
      → known_product R σ ζ κ base r part ⊙ hidden_product R σ ζ base r (val κ) part
        ≡ product σ ζ κ base r (value_at values) (keys part)
  unfolding is_commitment value_of
  signed_product σ ζ κ base r values [] s h = R.⊙-unit unit
  signed_product σ ζ κ base r values ((k, known v) ∷ part) (s, ss) (h, hs) =
      ⊙_assoc _ _ _
      ∙ ap₂ (λ x y. x ⊙ y)
          (ap (λ x. base k ↑ value_of x) (sym (at_or-lookup (known bn_zero) k values _ h)))
          (signed_product σ ζ κ base r values part ss hs)
  signed_product σ ζ κ base r values ((k, hidden v) ∷ part) (s, ss) (h, hs) =
      ⊙_left_comm R _ _ _
      ∙ ap₂ (λ x y. x ⊙ y)
          (ap (λ x. base k ↑ value_of x) (sym (at_or-lookup (known bn_zero) k values _ h)))
          (signed_product σ ζ κ base r values part ss hs)
  signed_product σ ζ κ base r values ((k, commitment v b) ∷ part) (s, ss) h = absurd cc
