-- ===== src/Ursa/Predicates/Bounds.antt =====
-- What the difference of a predicate says of an attribute, within the range of `i32`.
use smartchaindb_driver.Prelude.{◌-◌, ◌^◌, ◌≡◌, ◌↔◌, refl, Bool, true, false, arith}
use smartchaindb_driver.Ursa.Int.{ℤ, pos, negsuc, ◌+ℤ◌, ◌-ℤ◌, ◌≤ℤ◌, ◌<ℤ◌, IsI32, wrap_i32-eq}
use smartchaindb_driver.Ursa.Names.{Name}
use smartchaindb_driver.Ursa.Predicates.{
  PredicateType, ge, le, gt, lt, Predicate, delta_at, get_delta, delta_prime_at, get_delta_prime,
  is_less_type, is_less,
}

-- What a predicate says of the value of its attribute.
abbrev pub Holds : PredicateType → ℤ → ℤ → Type 0
Holds ge value attr_value = value ≤ℤ attr_value
Holds gt value attr_value = value <ℤ attr_value
Holds le value attr_value = attr_value ≤ℤ value
Holds lt value attr_value = attr_value <ℤ value

-- The bound that the verifier takes has not overflowed, nor has the difference that the prover takes.
abbrev pub HasRange : PredicateType → ℤ → ℤ → Type 0
HasRange ge value attr_value = IsI32 (attr_value -ℤ value)
HasRange gt value attr_value =
    IsI32 (value +ℤ pos 1) × IsI32 (attr_value -ℤ value) × IsI32 (attr_value -ℤ value -ℤ pos 1)
HasRange le value attr_value = IsI32 (value -ℤ attr_value)
HasRange lt value attr_value =
    IsI32 (value -ℤ pos 1) × IsI32 (value -ℤ attr_value) × IsI32 (value -ℤ attr_value -ℤ pos 1)

delta-Holds :
    (t : PredicateType) (value attr_value : ℤ)
    → HasRange t value attr_value
    → (pos 0 ≤ℤ delta_at t value attr_value) ↔ Holds t value attr_value
delta-Holds ge value attr_value h = rw (wrap_i32-eq _ h) (ground arith)
delta-Holds gt value attr_value (g, h, k) = rw (wrap_i32-eq _ h, wrap_i32-eq _ k) (ground arith)
delta-Holds le value attr_value h = rw (wrap_i32-eq _ h) (ground arith)
delta-Holds lt value attr_value (g, h, k) = rw (wrap_i32-eq _ h, wrap_i32-eq _ k) (ground arith)

-- the difference of the attribute and the bound, in the direction of the predicate
abbrev pub between : Bool → ℤ → ℤ → ℤ
between true bound attr_value = bound -ℤ attr_value
between false bound attr_value = attr_value -ℤ bound

delta-between :
    (t : PredicateType) (value attr_value : ℤ)
    → HasRange t value attr_value
    → delta_at t value attr_value ≡ between (is_less_type t) (delta_prime_at t value) attr_value
delta-between ge value attr_value h = wrap_i32-eq _ h
delta-between gt value attr_value (g, h, k) =
    rw (wrap_i32-eq _ h, wrap_i32-eq _ k, wrap_i32-eq _ g) (ground arith)
delta-between le value attr_value h = wrap_i32-eq _ h
delta-between lt value attr_value (g, h, k) =
    rw (wrap_i32-eq _ h, wrap_i32-eq _ k, wrap_i32-eq _ g) (ground arith)

-- Where neither the bound nor the differences leave the range of `i32`: the difference that the prover takes is
-- at least 0 exactly where the predicate holds of the value, and it is the exact difference between the
-- value and the bound that the verifier takes, in the direction that `is_less` gives.
pub get_delta-Holds :
    (predicate : Predicate) (attr_value : ℤ)
    → HasRange predicate.p_type predicate.value attr_value
    → ((pos 0 ≤ℤ get_delta predicate attr_value)
        ↔ Holds predicate.p_type predicate.value attr_value)
      × (get_delta predicate attr_value
          ≡ between (is_less predicate) (get_delta_prime predicate) attr_value)
unfolding get_delta get_delta_prime is_less
get_delta-Holds predicate attr_value h = (
  delta-Holds predicate.p_type predicate.value attr_value h,
  delta-between predicate.p_type predicate.value attr_value h,
)

-- On the greatest `i32` the strict bound is the least one.
pub get_delta_prime-overflow :
    (attr_name : Name)
    → get_delta_prime (record { attr_name = attr_name; p_type = gt; value = pos (2 ^ 31 - 1) })
      ≡ negsuc (2 ^ 31 - 1)
unfolding get_delta_prime
get_delta_prime-overflow attr_name = refl
