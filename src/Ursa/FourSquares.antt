-- ===== src/Ursa/FourSquares.antt =====
-- A number as a sum of four squares: ursa_Master/libursa/src/cl/helpers.rs.
pub mod Sums
pub mod Found
mod Tests
use smartchaindb_driver.Prelude.{
  ℕ, zero, suc, ◌+◌, ◌-◌, ◌*◌, Bool, true, false, leb, ◌==◌, if◌then◌else◌, Outcome, ok, err,
}
use smartchaindb_driver.Ursa.Errors.{UrsaCryptoError, negative_delta}
use smartchaindb_driver.Ursa.Int.{ℤ, pos, negsuc}

-- `roots`
pub record Roots : Type 0 where
  pub root_0 : ℕ
  pub root_1 : ℕ
  pub root_2 : ℕ
  pub root_3 : ℕ

abbrev pub square : ℕ → ℕ
square n = n * n

-- the greatest number up to `r` whose square is at most `delta`
unfoldable pub root_below : ℕ → ℕ → ℕ
root_below delta zero = 0
root_below delta (suc r) =
    let rest = root_below delta r in if leb (square (suc r)) delta then suc r else rest

-- `(delta as f64).sqrt().floor()`, which is exact for an `i32`
unfoldable pub largest_square_less_than : ℕ → ℕ
largest_square_less_than delta = root_below delta delta

-- A loop returns whether it left by `break 'outer`, with the roots. This one is `for k in (1..=k).rev()`.
unfoldable pub third_loop : ℕ → ℕ → ℕ → ℕ → Roots → Bool × Roots
third_loop d i j zero roots = (false, roots)
third_loop d i j (suc k) roots =
    let root_3 = largest_square_less_than (d - square i - square j - square (suc k)) in
    let tried : Roots = record { root_0 = i; root_1 = j; root_2 = suc k; root_3 = root_3 } in
    let rest = third_loop d i j k tried in
    if d == square i + square j + square (suc k)
    then (true, record { root_0 = i; root_1 = j; root_2 = suc k; root_3 = 0 })
    else if d == square i + square j + square (suc k) + square root_3
    then (true, tried)
    else rest

-- `for j in (1..=j).rev()`
unfoldable pub second_loop : ℕ → ℕ → ℕ → Roots → Bool × Roots
second_loop d i zero roots = (false, roots)
second_loop d i (suc j) roots =
    let root_2 = largest_square_less_than (d - square i - square (suc j)) in
    let inner =
      third_loop d i (suc j) root_2
        (record { root_0 = i; root_1 = suc j; root_2 = root_2; root_3 = roots.root_3 }) in
    let rest = second_loop d i j inner.1 in
    if d == square i + square (suc j)
    then (true, record { root_0 = i; root_1 = suc j; root_2 = 0; root_3 = 0 })
    else if inner.0
    then inner
    else rest

-- `'outer: for i in (1..=i).rev()`
unfoldable pub first_loop : ℕ → ℕ → Roots → Bool × Roots
first_loop d zero roots = (false, roots)
first_loop d (suc i) roots =
    let root_1 = largest_square_less_than (d - square (suc i)) in
    let inner =
      second_loop d (suc i) root_1 (record {
        root_0 = suc i;
        root_1 = root_1;
        root_2 = roots.root_2;
        root_3 = roots.root_3;
      }) in
    let rest = first_loop d i inner.1 in
    if d == square (suc i)
    then (true, record { root_0 = suc i; root_1 = 0; root_2 = 0; root_3 = 0 })
    else if inner.0
    then inner
    else rest

unfoldable pub four_squares : ℤ → Outcome UrsaCryptoError Roots
four_squares (negsuc n) = err (negative_delta (negsuc n))
four_squares (pos d) =
    let root = largest_square_less_than d in
    ok (first_loop d root (record { root_0 = root; root_1 = 0; root_2 = 0; root_3 = 0 })).1
