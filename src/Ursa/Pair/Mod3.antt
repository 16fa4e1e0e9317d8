-- ===== src/Ursa/Pair/Mod3.antt =====
-- The assumptions of Ursa/Pair on the crate amcl can be met: over the integers modulo 3.
pub mod Points
use smartchaindb_driver.Prelude.{ℕ, zero, suc, ◌≡◌, ◌↔◌, refl, Bool, true, arith}
use smartchaindb_driver.Amcl.Mod3.{Residue, r0, r1, add, mul, neg, sub, is_r0, field3, pairing3}
use smartchaindb_driver.Ursa.Pair.{Curve, power}

abbrev pub equal : Residue → Residue → Bool
equal a b = is_r0 (sub a b)

pub equal_iff : (a b : Residue) → (equal a b ≡ true) ↔ (a ≡ b)
equal_iff a b = ground arith

pub add-neg_right : (a b : Residue) → add (add a b) (neg b) ≡ a
add-neg_right a b = ground arith

pub pow-mul : (p q a : Residue) → mul (mul p q) a ≡ mul (mul p a) q
pow-mul p q a = ground arith

abbrev pub residue_of : ℕ → Residue
residue_of zero = r0
residue_of (suc n) = add r1 (residue_of n)

abbrev pub curve3 : Curve pairing3
curve3 = record {
  element = residue_of;
  pow_mod = power field3;
  pair_pow = mul;
  pair_inverse = neg;
  pair_eq = equal;
  point_eq = equal;
  reread = λ a. a;
  pow_mod-eq = λ a n. refl;
  pair_pow-eq = pow-mul;
  ⊗-inverse = add-neg_right;
  pair_eq_iff = equal_iff;
  point_eq_iff = equal_iff;
  reread-eq = λ a. refl;
}
