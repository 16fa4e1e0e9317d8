-- ===== src/Ursa/FourSquares/Tests.antt =====
-- 7 as a sum of four squares, and 30.
use smartchaindb_driver.Prelude.{◌≡◌, refl, ok, err, arith}
use smartchaindb_driver.Ursa.Errors.{negative_delta}
use smartchaindb_driver.Ursa.Int.{pos, negsuc}
use smartchaindb_driver.Ursa.FourSquares.{
  Roots, largest_square_less_than, root_below, third_loop, second_loop, first_loop, four_squares,
}
use smartchaindb_driver.Ursa.FourSquares.Sums.{IsSum}
use smartchaindb_driver.Ursa.FourSquares.Found.{four_squares-IsSum}

four_squares-7 :
    four_squares (pos 7) ≡ ok (record { root_0 = 2; root_1 = 1; root_2 = 1; root_3 = 1 })
unfolding four_squares first_loop second_loop third_loop largest_square_less_than root_below
four_squares-7 = refl

four_squares-negative : four_squares (negsuc 0) ≡ err (negative_delta (negsuc 0))
unfolding four_squares
four_squares-negative = refl

four_squares-IsSum_example : (roots : Roots) × (four_squares (pos 30) ≡ ok roots) × IsSum 30 roots
four_squares-IsSum_example =
    four_squares-IsSum 30 4 3 2 1 (omega arith) (omega arith) (omega arith) refl
