-- ===== src/Amcl.antt =====
-- The third-party crate amcl_wrapper, as libzmix uses it: a prime field, groups of that order and a
-- pairing. None of its code is in the repository, so a user of it takes these records as parameters;
-- their laws are what the crate documents of its types.
pub mod Algebra
pub mod Sums
pub mod Mod3
use smartchaindb_driver.Prelude.{
  ℕ, ◌≡◌, ◌≢◌, ◌↔◌, Bool, true, Option, none, some, List, [], ◌∷◌, length,
}

-- `FieldElement`: the integers modulo the prime order of the curve's groups.
pub record Field : Type 1 where
  pub F : Type 0
  pub fe_zero : F
  pub fe_one : F
  infixl 65 ◌⊞◌ ◌⊟◌
  infixl 70 ◌⊠◌
  pub ◌⊞◌ : F → F → F
  pub ◌⊟◌ : F → F → F
  pub ◌⊠◌ : F → F → F
  pub neg : F → F
  pub inverse : F → F
  pub ⊞_assoc : (a b c : F) → (a ⊞ b) ⊞ c ≡ a ⊞ (b ⊞ c)
  pub ⊞_comm : (a b : F) → a ⊞ b ≡ b ⊞ a
  pub ⊞-zero : (a : F) → a ⊞ fe_zero ≡ a
  pub ⊞-neg : (a : F) → a ⊞ neg a ≡ fe_zero
  pub ⊟-eq : (a b : F) → a ⊟ b ≡ a ⊞ neg b
  pub ⊠_assoc : (a b c : F) → (a ⊠ b) ⊠ c ≡ a ⊠ (b ⊠ c)
  pub ⊠_comm : (a b : F) → a ⊠ b ≡ b ⊠ a
  pub ⊠-one : (a : F) → a ⊠ fe_one ≡ a
  pub ⊠-⊞ : (a b c : F) → a ⊠ (b ⊞ c) ≡ (a ⊠ b) ⊞ (a ⊠ c)
  pub ⊠-inverse : (a : F) → a ≢ fe_zero → a ⊠ inverse a ≡ fe_one

-- The sum of the points, each times the scalar at its place.
abbrev pub sum_with : {F G : Type 0} → G → (G → G → G) → (G → F → G) → List G → List F → G
sum_with o plus times [] ss = o
sum_with o plus times (p ∷ ps) [] = o
sum_with o plus times (p ∷ ps) (s ∷ ss) = plus (times p s) (sum_with o plus times ps ss)

-- `G1`, `G2` (trait `GroupElement`) with `G1Vector`, `G2Vector` (trait `GroupElementVector`), written
-- additively as in the crate: `p • s` is the source's `&p * &s`.
pub record Group (K : Field) : Type 1 where
  pub G : Type 0
  pub identity : G
  pub generator : G
  infixl 65 ◌⊕◌ ◌⊖◌
  infixl 70 ◌•◌
  pub ◌⊕◌ : G → G → G
  pub ◌⊖◌ : G → G → G
  pub negate : G → G
  pub ◌•◌ : G → K.F → G
  pub is_identity : G → Bool
  -- `None` stands for the error on vectors of different lengths
  pub multi_scalar_mul_const_time : List G → List K.F → Option G
  pub multi_scalar_mul_var_time : List G → List K.F → Option G
  -- `p.binary_scalar_mul(h, r1, r2)`
  pub binary_scalar_mul : G → G → K.F → K.F → G
  pub ⊕_assoc : (a b c : G) → (a ⊕ b) ⊕ c ≡ a ⊕ (b ⊕ c)
  pub ⊕_comm : (a b : G) → a ⊕ b ≡ b ⊕ a
  pub ⊕-identity : (a : G) → a ⊕ identity ≡ a
  pub ⊕-negate : (a : G) → a ⊕ negate a ≡ identity
  pub ⊖-eq : (a b : G) → a ⊖ b ≡ a ⊕ negate b
  pub •-one : (p : G) → p • K.fe_one ≡ p
  pub •-⊠ : (p : G) (a b : K.F) → p • (K.◌⊠◌ a b) ≡ (p • a) • b
  pub •-⊞ : (p : G) (a b : K.F) → p • (K.◌⊞◌ a b) ≡ (p • a) ⊕ (p • b)
  pub ⊕-• : (p q : G) (a : K.F) → (p ⊕ q) • a ≡ (p • a) ⊕ (q • a)
  pub is_identity_iff : (p : G) → (is_identity p ≡ true) ↔ (p ≡ identity)
  pub const_time-eq :
      (ps : List G) (ss : List K.F)
      → length ps ≡ length ss
      → multi_scalar_mul_const_time ps ss ≡ some (sum_with identity ◌⊕◌ ◌•◌ ps ss)
  pub var_time-eq :
      (ps : List G) (ss : List K.F)
      → length ps ≡ length ss
      → multi_scalar_mul_var_time ps ss ≡ some (sum_with identity ◌⊕◌ ◌•◌ ps ss)
  pub binary-eq : (p h : G) (a b : K.F) → binary_scalar_mul p h a b ≡ (p • a) ⊕ (h • b)

-- `GT` with the ate pairing of the curve. `ate_2_pairing` is the product of two pairings.
pub record Pairing {K : Field} (M N : Group K) : Type 1 where
  pub GT : Type 0
  pub gt_one : GT
  infixl 70 ◌⊗◌
  pub ◌⊗◌ : GT → GT → GT
  pub ate_pairing : M.G → N.G → GT
  pub ate_2_pairing : M.G → N.G → M.G → N.G → GT
  pub is_one : GT → Bool
  pub ate_2-eq :
      (p : M.G) (q : N.G) (r : M.G) (s : N.G)
      → ate_2_pairing p q r s ≡ ate_pairing p q ⊗ ate_pairing r s
  pub pairing-⊕ :
      (p q : M.G) (r : N.G) → ate_pairing (M.◌⊕◌ p q) r ≡ ate_pairing p r ⊗ ate_pairing q r
  -- a scalar moves from one side to the other
  pub pairing-• :
      (p : M.G) (q : N.G) (a : K.F) → ate_pairing p (N.◌•◌ q a) ≡ ate_pairing (M.◌•◌ p a) q
  pub is_one_iff : (z : GT) → (is_one z ≡ true) ↔ (z ≡ gt_one)
  -- the pairing with a point other than the identity is not degenerate
  pub pairing-identity : (q : N.G) → ate_pairing M.identity q ≡ gt_one
  pub eq_identity_of_pairing :
      (p : M.G) (q : N.G) → q ≢ N.identity → ate_pairing p q ≡ gt_one → p ≡ M.identity
