-- ===== src/Ursa/Predicates/Tests.antt =====
-- The difference of a predicate at a concrete input.
use smartchaindb_driver.Prelude.{◌≡◌, ◌↔◌, arith}
use smartchaindb_driver.Ursa.Int.{pos, negsuc, ◌≤ℤ◌}
use smartchaindb_driver.Ursa.Predicates.{gt, Predicate, get_delta, get_delta_prime, is_less}
use smartchaindb_driver.Ursa.Predicates.Bounds.{Holds, between, get_delta-Holds}

abbrev adult : Predicate
adult = record { attr_name = 3; p_type = gt; value = pos 17 }

get_delta-Holds_example :
    ((pos 0 ≤ℤ get_delta adult (negsuc 4)) ↔ Holds gt (pos 17) (negsuc 4))
    × (get_delta adult (negsuc 4) ≡ between (is_less adult) (get_delta_prime adult) (negsuc 4))
get_delta-Holds_example =
    get_delta-Holds adult (negsuc 4)
      ((omega arith, omega arith), (omega arith, omega arith), (omega arith, omega arith))
