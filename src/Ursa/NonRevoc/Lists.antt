-- ===== src/Ursa/NonRevoc/Lists.antt =====
-- The list of the responses is written and read in the same order.
use smartchaindb_driver.Prelude.{◌≡◌, refl, ok}
use smartchaindb_driver.Ursa.NonRevoc.{NonRevocProofXList, as_list, from_list}

-- The elements that `as_list` gives are put back by `from_list`, each in its place.
pub from_list-as_list : {F : Type 0} (x : NonRevocProofXList F) → from_list (as_list x) ≡ ok x
unfolding from_list as_list
from_list-as_list x = refl
