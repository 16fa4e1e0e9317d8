-- ===== src/Amcl/Mod3.antt =====
-- The integers modulo 3 as a field, as a group over it and with the product as its pairing: the
-- assumptions of Amcl can be met. Two points of order 3 pair to their product.
pub mod Codec
use smartchaindb_driver.Prelude.{
  ◌≡◌, ◌≢◌, ◌↔◌, refl, Bool, true, false, Option, some, none, List, length, arith, ◌==◌, ==_refl,
  if◌then◌else◌,
}
use smartchaindb_driver.Amcl.{Field, Group, Pairing, sum_with}

pub data Residue : Type 0 where
  r0 r1 r2 : Residue

abbrev pub add : Residue → Residue → Residue
add r0 b = b
add r1 r0 = r1
add r1 r1 = r2
add r1 r2 = r0
add r2 r0 = r2
add r2 r1 = r0
add r2 r2 = r1

abbrev pub neg : Residue → Residue
neg r0 = r0
neg r1 = r2
neg r2 = r1

abbrev pub sub : Residue → Residue → Residue
sub a b = add a (neg b)

abbrev pub mul : Residue → Residue → Residue
mul r0 b = r0
mul r1 b = b
mul r2 b = neg b

-- 1 and 2 are their own inverses
abbrev pub inverse : Residue → Residue
inverse a = a

abbrev pub is_r0 : Residue → Bool
is_r0 r0 = true
is_r0 _ = false

pub add_assoc : (a b c : Residue) → add (add a b) c ≡ add a (add b c)
add_assoc a b c = ground arith

pub add_comm : (a b : Residue) → add a b ≡ add b a
add_comm a b = ground arith

pub add-r0 : (a : Residue) → add a r0 ≡ a
add-r0 a = ground arith

pub add-neg : (a : Residue) → add a (neg a) ≡ r0
add-neg a = ground arith

pub mul_assoc : (a b c : Residue) → mul (mul a b) c ≡ mul a (mul b c)
mul_assoc a b c = ground arith

pub mul_assoc' : (a b c : Residue) → mul a (mul b c) ≡ mul (mul a b) c
mul_assoc' a b c = ground arith

pub mul_comm : (a b : Residue) → mul a b ≡ mul b a
mul_comm a b = ground arith

pub mul-r1 : (a : Residue) → mul a r1 ≡ a
mul-r1 a = ground arith

pub mul-add : (a b c : Residue) → mul a (add b c) ≡ add (mul a b) (mul a c)
mul-add a b c = ground arith

pub add-mul : (a b c : Residue) → mul (add a b) c ≡ add (mul a c) (mul b c)
add-mul a b c = ground arith

pub mul-inverse : (a : Residue) → a ≢ r0 → mul a (inverse a) ≡ r1
mul-inverse a n = ground arith

pub is_r0_iff : (a : Residue) → (is_r0 a ≡ true) ↔ (a ≡ r0)
is_r0_iff a = ground arith

pub eq_r0_of_mul : (a b : Residue) → b ≢ r0 → mul a b ≡ r0 → a ≡ r0
eq_r0_of_mul a b n h = ground arith

pub pairing-mul : (p q a : Residue) → mul p (mul q a) ≡ mul (mul p a) q
pairing-mul p q a = ground arith

abbrev pub field3 : Field
field3 = record {
  F = Residue;
  fe_zero = r0;
  fe_one = r1;
  ◌⊞◌ = add;
  ◌⊟◌ = sub;
  ◌⊠◌ = mul;
  neg = neg;
  inverse = inverse;
  ⊞_assoc = add_assoc;
  ⊞_comm = add_comm;
  ⊞-zero = add-r0;
  ⊞-neg = add-neg;
  ⊟-eq = λ a b. refl;
  ⊠_assoc = mul_assoc;
  ⊠_comm = mul_comm;
  ⊠-one = mul-r1;
  ⊠-⊞ = mul-add;
  ⊠-inverse = mul-inverse;
}

abbrev pub multi_scalar_mul : List Residue → List Residue → Option Residue
multi_scalar_mul ps ss =
    if length ps == length ss then some (sum_with {F = Residue} r0 add mul ps ss) else none

pub multi_scalar_mul-eq :
    (ps ss : List Residue)
    → length ps ≡ length ss
    → multi_scalar_mul ps ss ≡ some (sum_with {F = Residue} r0 add mul ps ss)
multi_scalar_mul-eq ps ss h = rw (h, ==_refl)

abbrev pub group3 : Group field3
group3 = record {
  G = Residue;
  identity = r0;
  generator = r1;
  ◌⊕◌ = add;
  ◌⊖◌ = sub;
  negate = neg;
  ◌•◌ = mul;
  is_identity = is_r0;
  multi_scalar_mul_const_time = multi_scalar_mul;
  multi_scalar_mul_var_time = multi_scalar_mul;
  binary_scalar_mul = λ p h a b. add (mul p a) (mul h b);
  ⊕_assoc = add_assoc;
  ⊕_comm = add_comm;
  ⊕-identity = add-r0;
  ⊕-negate = add-neg;
  ⊖-eq = λ a b. refl;
  •-one = mul-r1;
  •-⊠ = mul_assoc';
  •-⊞ = mul-add;
  ⊕-• = add-mul;
  is_identity_iff = is_r0_iff;
  const_time-eq = multi_scalar_mul-eq;
  var_time-eq = multi_scalar_mul-eq;
  binary-eq = λ p h a b. refl;
}

abbrev pub pairing3 : Pairing group3 group3
pairing3 = record {
  GT = Residue;
  gt_one = r0;
  ◌⊗◌ = add;
  ate_pairing = mul;
  ate_2_pairing = λ p q r s. add (mul p q) (mul r s);
  is_one = is_r0;
  ate_2-eq = λ p q r s. refl;
  pairing-⊕ = add-mul;
  pairing-• = pairing-mul;
  is_one_iff = is_r0_iff;
  pairing-identity = λ q. refl;
  eq_identity_of_pairing = eq_r0_of_mul;
}
