-- ===== src/Ursa/Pair.antt =====
-- ursa_Master/libursa/src/pair/amcl.rs and the u32 arithmetic of its callers. The points, the elements of
-- the group order and the pairing are those of the third-party crate amcl: PointG1 and PointG2 are groups
-- over the field of GroupOrderElement, and Pair is the target of the pairing.
pub mod Laws
pub mod Points
pub mod Mod3
use smartchaindb_driver.Prelude.{
  ℕ, zero, suc, ◌+◌, ◌-◌, ◌*◌, ◌/◌, ◌%◌, ◌^◌, ◌<◌, ◌≡◌, ◌↔◌, Bool, true, List, [], ◌∷◌, length, ltb,
  if◌then◌else◌, Outcome, ok, err,
}
use smartchaindb_driver.Amcl.{Field, Group, Pairing}
use smartchaindb_driver.Zmix.Bytes.{Bytes}
use smartchaindb_driver.Ursa.Errors.{UrsaCryptoError, invalid_element_len}

-- `n` factors `a`
abbrev pub power : (K : Field) → K.F → ℕ → K.F
power K a zero = K.fe_one
power K a (suc n) = K.◌⊠◌ a (power K a n)

-- What amcl gives for the elements of the group order and for the target of the pairing beyond the laws of a
-- field and of a pairing. A GroupOrderElement is a big number; as an exponent it is read as that number.
pub record Curve {K : Field} {M N : Group K} (P : Pairing M N) : Type 0 where
  -- the element of a big number
  pub element : ℕ → K.F
  -- `BIG::powmod` with the order of the group
  pub pow_mod : K.F → ℕ → K.F
  pub pair_pow : P.GT → K.F → P.GT
  pub pair_inverse : P.GT → P.GT
  pub pair_eq : P.GT → P.GT → Bool
  -- `==` of `PointG2`
  pub point_eq : N.G → N.G → Bool
  -- an element is written as a big number and read back
  pub reread : K.F → K.F
  pub pow_mod-eq : (a : K.F) (n : ℕ) → pow_mod a n ≡ power K a n
  pub pair_pow-eq :
      (p : M.G) (q : N.G) (a : K.F) → pair_pow (P.ate_pairing p q) a ≡ P.ate_pairing (M.◌•◌ p a) q
  pub ⊗-inverse : (a b : P.GT) → P.◌⊗◌ (P.◌⊗◌ a b) (pair_inverse b) ≡ a
  pub pair_eq_iff : (a b : P.GT) → (pair_eq a b ≡ true) ↔ (a ≡ b)
  pub point_eq_iff : (p q : N.G) → (point_eq p q ≡ true) ↔ (p ≡ q)
  pub reread-eq : (a : K.F) → reread a ≡ a

-- `u32` arithmetic wraps
abbrev pub add_u32 : ℕ → ℕ → ℕ
add_u32 a b = (a + b) % 2 ^ 32

abbrev pub sub_u32 : ℕ → ℕ → ℕ
sub_u32 a b = (a + 2 ^ 32 - b) % 2 ^ 32

-- the rounds of the loop for `i` below `todo`, downwards
unfoldable pub bytes_below : ℕ → ℕ → Bytes
bytes_below zero x = []
bytes_below (suc i) x = x / 2 ^ (i * 8) % 256 ∷ bytes_below i x

unfoldable pub transform_u32_to_array_of_u8 : ℕ → Bytes
unfolding bytes_below
transform_u32_to_array_of_u8 x = bytes_below 4 x

-- `BIG::frombytes`: the number of the bytes, the most significant first
abbrev pub number_from : ℕ → Bytes → ℕ
number_from acc [] = acc
number_from acc (b ∷ bs) = number_from (acc * 256 + b) bs

-- `GroupOrderElement::from_bytes`, the number of the element; leading zeros do not change it
unfoldable pub element_from_bytes : Bytes → Outcome UrsaCryptoError ℕ
element_from_bytes b = if ltb 32 (length b) then err invalid_element_len else ok (number_from 0 b)
