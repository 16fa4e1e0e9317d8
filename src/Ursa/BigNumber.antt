-- ===== src/Ursa/BigNumber.antt =====
-- The numbers of ursa_Master/libursa/src/bn/openssl.rs, as cl uses them, and utils/commitment.rs. The big
-- integers are those of OpenSSL, a parameter.
pub mod Laws
pub mod Mod6
use smartchaindb_driver.Prelude.{◌≡◌, ◌≢◌, ◌↔◌, Bool, true, List, Outcome, ok, ◌>>=◌}
use smartchaindb_driver.Zmix.Bytes.{Bytes}
use smartchaindb_driver.Ursa.Errors.{UrsaCryptoError}

-- `BigNumber`: the integers, and their operations modulo a number. `mod_exp` takes the inverse for a negative
-- exponent; an error for want of memory is left out.
pub record BigNumbers : Type 1 where
  pub Z : Type 0
  pub bn_zero : Z
  pub bn_one : Z
  infixl 65 ◌⊞◌ ◌⊟◌
  infixl 70 ◌⊠◌
  pub ◌⊞◌ : Z → Z → Z
  pub ◌⊟◌ : Z → Z → Z
  pub ◌⊠◌ : Z → Z → Z
  pub neg : Z → Z
  -- `BigNumber::eq`
  pub eq : Z → Z → Bool
  pub mod_exp : Z → Z → Z → Z
  pub mod_mul : Z → Z → Z → Z
  pub mod_sub : Z → Z → Z → Z
  -- an error where there is none
  pub inverse : Z → Z → Outcome UrsaCryptoError Z
  pub rshift1 : Z → Z
  pub is_prime : Z → Bool
  pub to_bytes : Z → Bytes
  -- `get_hash_as_int` of cl/hash.rs: the number of the digest
  pub get_hash_as_int : List Bytes → Z
  pub ⊞_assoc : (a b c : Z) → (a ⊞ b) ⊞ c ≡ a ⊞ (b ⊞ c)
  pub ⊞_comm : (a b : Z) → a ⊞ b ≡ b ⊞ a
  pub ⊞-zero : (a : Z) → a ⊞ bn_zero ≡ a
  pub ⊞-neg : (a : Z) → a ⊞ neg a ≡ bn_zero
  pub ⊟-eq : (a b : Z) → a ⊟ b ≡ a ⊞ neg b
  pub ⊠_assoc : (a b c : Z) → (a ⊠ b) ⊠ c ≡ a ⊠ (b ⊠ c)
  pub ⊠_comm : (a b : Z) → a ⊠ b ≡ b ⊠ a
  pub ⊠-one : (a : Z) → a ⊠ bn_one ≡ a
  pub ⊠-⊞ : (a b c : Z) → a ⊠ (b ⊞ c) ≡ (a ⊠ b) ⊞ (a ⊠ c)
  pub eq_iff : (a b : Z) → (eq a b ≡ true) ↔ (a ≡ b)

-- A commutative group of invertible numbers modulo `n`, such as that of the quadratic residues, and how the
-- operations modulo `n` act on it.
pub record Residues (B : BigNumbers) (n : B.Z) : Type 1 where
  pub Q : Type 0
  pub unit : Q
  infixl 70 ◌⊙◌
  infixl 75 ◌↑◌
  pub ◌⊙◌ : Q → Q → Q
  pub ◌↑◌ : Q → B.Z → Q
  pub inv : Q → Q
  -- the number of a member, from 1 to n - 1
  pub val : Q → B.Z
  pub ⊙_assoc : (a b c : Q) → (a ⊙ b) ⊙ c ≡ a ⊙ (b ⊙ c)
  pub ⊙_comm : (a b : Q) → a ⊙ b ≡ b ⊙ a
  pub ⊙-unit : (a : Q) → a ⊙ unit ≡ a
  pub ⊙-inv : (a : Q) → a ⊙ inv a ≡ unit
  pub ↑-one : (a : Q) → a ↑ B.bn_one ≡ a
  pub ↑-⊞ : (a : Q) (x y : B.Z) → a ↑ (B.◌⊞◌ x y) ≡ a ↑ x ⊙ a ↑ y
  pub ↑-⊠ : (a : Q) (x y : B.Z) → a ↑ (B.◌⊠◌ x y) ≡ (a ↑ x) ↑ y
  pub ⊙-↑ : (a b : Q) (x : B.Z) → (a ⊙ b) ↑ x ≡ a ↑ x ⊙ b ↑ x
  pub val-injective : (a b : Q) → val a ≡ val b → a ≡ b
  pub val-ne : (a : Q) → val a ≢ B.bn_zero
  pub mod_mul-eq : (a b : Q) → B.mod_mul (val a) (val b) n ≡ val (a ⊙ b)
  pub mod_exp-eq : (a : Q) (x : B.Z) → B.mod_exp (val a) x n ≡ val (a ↑ x)
  pub inverse-eq : (a : Q) → B.inverse (val a) n ≡ ok (val (inv a))

-- `m` is a multiple of the order of the group, and what the operations modulo `m` then give as exponents.
pub record IsOrder {B : BigNumbers} {n : B.Z} (R : Residues B n) (m : B.Z) : Type 0 where
  pub ↑-mod_mul : (a : R.Q) (x y : B.Z) → R.◌↑◌ a (B.mod_mul x y m) ≡ R.◌↑◌ a (B.◌⊠◌ x y)
  pub ↑-mod_sub : (a : R.Q) (x y : B.Z) → R.◌↑◌ a (B.mod_sub x y m) ≡ R.◌↑◌ a (B.◌⊟◌ x y)
  pub ↑-inverse : (a : R.Q) (x i : B.Z) → B.inverse x m ≡ ok i → R.◌↑◌ a (B.◌⊠◌ x i) ≡ a

module _ (B : BigNumbers) where
  open B use {Z, mod_exp, mod_mul, inverse}

  unfoldable pub mod_div : Z → Z → Z → Outcome UrsaCryptoError Z
  mod_div self b p = do i ← inverse b p; ok (mod_mul self i p)

  unfoldable pub get_pedersen_commitment : Z → Z → Z → Z → Z → Z
  get_pedersen_commitment gen_1 m gen_2 r modulus =
      mod_mul (mod_exp gen_1 m modulus) (mod_exp gen_2 r modulus) modulus
