-- ===== src/Ursa/BigNumber/Mod6.antt =====
-- The integers modulo 6 as pairs of the remainders by 2 and by 3, with the invertible numbers modulo 3 as
-- the group, which has order 2: the assumptions of Ursa/BigNumber can be met.
use smartchaindb_driver.Prelude.{
  ◌≡◌, ◌≢◌, ◌↔◌, refl, sym, ap₂, Bool, true, false, ◌&&◌, List, [], ◌∷◌, ◌++◌, arith, if◌then◌else◌,
  Outcome, ok, err,
}
use smartchaindb_driver.Amcl.Mod3.{
  Residue, r0, r1, r2, add, neg, sub, mul, add_assoc, add_comm, add-r0, add-neg, mul_assoc,
  mul_comm, mul-r1, mul-add,
}
use smartchaindb_driver.Amcl.Mod3.Codec.{write}
use smartchaindb_driver.Zmix.Bytes.{Bytes}
use smartchaindb_driver.Ursa.Errors.{UrsaCryptoError, no_inverse}
use smartchaindb_driver.Ursa.BigNumber.{BigNumbers, Residues, IsOrder}

abbrev pub Six : Type 0
Six = Bool × Residue

abbrev pub xor : Bool → Bool → Bool
xor false b = b
xor true false = true
xor true true = false

abbrev pub equal_bit : Bool → Bool → Bool
equal_bit false false = true
equal_bit true true = true
equal_bit _ _ = false

abbrev pub equal_residue : Residue → Residue → Bool
equal_residue r0 r0 = true
equal_residue r1 r1 = true
equal_residue r2 r2 = true
equal_residue _ _ = false

abbrev pub is_two : Six → Bool
is_two (false, r2) = true
is_two _ = false

-- the least number with a remainder
abbrev pub below_three : Residue → Six
below_three r0 = (false, r0)
below_three r1 = (true, r1)
below_three r2 = (false, r2)

abbrev pub below_two : Bool → Six
below_two false = (false, r0)
below_two true = (true, r1)

abbrev pub invert_three : Residue → Outcome UrsaCryptoError Six
invert_three r0 = err no_inverse
invert_three r1 = ok (true, r1)
invert_three r2 = ok (false, r2)

abbrev pub invert_two : Bool → Outcome UrsaCryptoError Six
invert_two false = err no_inverse
invert_two true = ok (true, r1)

abbrev pub byte_of : Bool → Bytes
byte_of false = 0 ∷ []
byte_of true = 1 ∷ []

-- a digest: whether there is a byte
abbrev pub digest : List Bytes → Six
digest [] = (false, r2)
digest (bytes ∷ rest) = (true, r1)

abbrev pub half : Six → Six
half (b, r) = (false, neg r)

pub xor_assoc : (a b c : Bool) → xor (xor a b) c ≡ xor a (xor b c)
xor_assoc a b c = ground arith

pub xor_comm : (a b : Bool) → xor a b ≡ xor b a
xor_comm a b = ground arith

pub xor-false : (a : Bool) → xor a false ≡ a
xor-false a = ground arith

pub xor_self : (a : Bool) → xor a a ≡ false
xor_self a = ground arith

pub &&_assoc : (a b c : Bool) → ((a && b) && c) ≡ (a && (b && c))
&&_assoc a b c = ground arith

pub &&_comm : (a b : Bool) → (a && b) ≡ (b && a)
&&_comm a b = ground arith

pub &&-true : (a : Bool) → (a && true) ≡ a
&&-true a = ground arith

pub &&-xor : (a b c : Bool) → (a && xor b c) ≡ xor (a && b) (a && c)
&&-xor a b c = ground arith

pub xor-&& : (a b c : Bool) → (xor a b && c) ≡ xor (a && c) (b && c)
xor-&& a b c = ground arith

pub equal_six_iff : (a b : Six) → ((equal_bit a.0 b.0 && equal_residue a.1 b.1) ≡ true) ↔ (a ≡ b)
equal_six_iff a b = ground arith

abbrev pub numbers6 : BigNumbers
numbers6 = record {
  Z = Six;
  bn_zero = (false, r0);
  bn_one = (true, r1);
  ◌⊞◌ = λ a b. (xor a.0 b.0, add a.1 b.1);
  ◌⊟◌ = λ a b. (xor a.0 b.0, sub a.1 b.1);
  ◌⊠◌ = λ a b. (a.0 && b.0, mul a.1 b.1);
  neg = λ a. (a.0, neg a.1);
  eq = λ a b. equal_bit a.0 b.0 && equal_residue a.1 b.1;
  mod_exp = λ a e n. below_three (if e.0 then a.1 else r1);
  mod_mul = λ a b n. if is_two n then below_two (a.0 && b.0) else below_three (mul a.1 b.1);
  mod_sub = λ a b n. if is_two n then below_two (xor a.0 b.0) else below_three (sub a.1 b.1);
  inverse = λ a n. if is_two n then invert_two a.0 else invert_three a.1;
  rshift1 = half;
  is_prime = λ a. true;
  to_bytes = λ a. byte_of a.0 ++ write a.1;
  get_hash_as_int = digest;
  ⊞_assoc = λ a b c. ap₂ (λ x y. (x, y)) (xor_assoc a.0 b.0 c.0) (add_assoc a.1 b.1 c.1);
  ⊞_comm = λ a b. ap₂ (λ x y. (x, y)) (xor_comm a.0 b.0) (add_comm a.1 b.1);
  ⊞-zero = λ a. ap₂ (λ x y. (x, y)) (xor-false a.0) (add-r0 a.1);
  ⊞-neg = λ a. ap₂ (λ x y. (x, y)) (xor_self a.0) (add-neg a.1);
  ⊟-eq = λ a b. refl;
  ⊠_assoc = λ a b c. ap₂ (λ x y. (x, y)) (&&_assoc a.0 b.0 c.0) (mul_assoc a.1 b.1 c.1);
  ⊠_comm = λ a b. ap₂ (λ x y. (x, y)) (&&_comm a.0 b.0) (mul_comm a.1 b.1);
  ⊠-one = λ a. ap₂ (λ x y. (x, y)) (&&-true a.0) (mul-r1 a.1);
  ⊠-⊞ = λ a b c. ap₂ (λ x y. (x, y)) (&&-xor a.0 b.0 c.0) (mul-add a.1 b.1 c.1);
  eq_iff = equal_six_iff;
}

abbrev pub three : Six
three = (true, r0)

abbrev pub two : Six
two = (false, r2)

abbrev pub val : Bool → Six
val false = (true, r1)
val true = (false, r2)

pub val-ne : (a : Bool) → val a ≢ (false, r0)
val-ne a = ground arith

pub val-injective : (a b : Bool) → val a ≡ val b → a ≡ b
val-injective a b h = ground arith

pub mod_mul-val : (a b : Bool) → numbers6.mod_mul (val a) (val b) three ≡ val (xor a b)
mod_mul-val a b = ground arith

pub mod_exp-val : (a : Bool) (x : Six) → numbers6.mod_exp (val a) x three ≡ val (a && x.0)
mod_exp-val a x = ground arith

pub inverse-val : (a : Bool) → numbers6.inverse (val a) three ≡ ok (val a)
inverse-val a = ground arith

abbrev pub residues3 : Residues numbers6 three
residues3 = record {
  Q = Bool;
  unit = false;
  ◌⊙◌ = xor;
  ◌↑◌ = λ a x. a && x.0;
  inv = λ a. a;
  val = val;
  ⊙_assoc = xor_assoc;
  ⊙_comm = xor_comm;
  ⊙-unit = xor-false;
  ⊙-inv = xor_self;
  ↑-one = &&-true;
  ↑-⊞ = λ a x y. &&-xor a x.0 y.0;
  ↑-⊠ = λ a x y. sym (&&_assoc a x.0 y.0);
  ⊙-↑ = λ a b x. xor-&& a b x.0;
  val-injective = val-injective;
  val-ne = val-ne;
  mod_mul-eq = mod_mul-val;
  mod_exp-eq = mod_exp-val;
  inverse-eq = inverse-val;
}

pub ↑-mod_mul : (a : Bool) (x y : Six) → (a && (numbers6.mod_mul x y two).0) ≡ (a && (x.0 && y.0))
↑-mod_mul a x y = ground arith

pub ↑-mod_sub : (a : Bool) (x y : Six) → (a && (numbers6.mod_sub x y two).0) ≡ (a && xor x.0 y.0)
↑-mod_sub a x y = ground arith

pub ↑-inverse : (a : Bool) (x i : Six) → numbers6.inverse x two ≡ ok i → (a && (x.0 && i.0)) ≡ a
↑-inverse a x i h = ground arith

abbrev pub order2 : IsOrder residues3 two
order2 = record { ↑-mod_mul = ↑-mod_mul; ↑-mod_sub = ↑-mod_sub; ↑-inverse = ↑-inverse }
