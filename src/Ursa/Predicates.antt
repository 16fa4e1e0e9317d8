-- ===== src/Ursa/Predicates.antt =====
-- The predicates of a proof request: ursa_Master/libursa/src/cl/mod.rs. Overflow of `i32` wraps, as in a
-- build without overflow checks.
pub mod Bounds
mod Tests
use smartchaindb_driver.Prelude.{ℕ, Bool, true, false}
use smartchaindb_driver.Ursa.Int.{ℤ, pos, ◌+ℤ◌, ◌-ℤ◌, wrap_i32}
use smartchaindb_driver.Ursa.Names.{Name}

pub data PredicateType : Type 0 where
  ge le gt lt : PredicateType

pub record Predicate : Type 0 where
  pub attr_name : Name
  pub p_type : PredicateType
  pub value : ℤ

abbrev pub delta_at : PredicateType → ℤ → ℤ → ℤ
delta_at ge value attr_value = wrap_i32 (attr_value -ℤ value)
delta_at gt value attr_value = wrap_i32 (wrap_i32 (attr_value -ℤ value) -ℤ pos 1)
delta_at le value attr_value = wrap_i32 (value -ℤ attr_value)
delta_at lt value attr_value = wrap_i32 (wrap_i32 (value -ℤ attr_value) -ℤ pos 1)

unfoldable pub get_delta : Predicate → ℤ → ℤ
get_delta self attr_value = delta_at self.p_type self.value attr_value

abbrev pub delta_prime_at : PredicateType → ℤ → ℤ
delta_prime_at ge value = value
delta_prime_at gt value = wrap_i32 (value +ℤ pos 1)
delta_prime_at le value = value
delta_prime_at lt value = wrap_i32 (value -ℤ pos 1)

-- the number that the decimals of the `i32` give
unfoldable pub get_delta_prime : Predicate → ℤ
get_delta_prime self = delta_prime_at self.p_type self.value

abbrev pub is_less_type : PredicateType → Bool
is_less_type ge = false
is_less_type gt = false
is_less_type le = true
is_less_type lt = true

unfoldable pub is_less : Predicate → Bool
is_less self = is_less_type self.p_type
