-- ===== src/Zmix/Bbs/Keys/Tests.antt =====
-- Keys over the integers modulo 3, and the theorems at concrete inputs.
use smartchaindb_driver.Prelude.{◌<◌, ℕ, ◌≡◌, ◌≢◌, ◌↔◌, ◌⊎◌, refl, err, [], ◌∷◌, ok, arith}
use smartchaindb_driver.Amcl.Mod3.{r0, r1, r2, group3}
use smartchaindb_driver.Amcl.Mod3.Codec.{codec3}
use smartchaindb_driver.Zmix.Bbs.Errors.{key_gen_error}
use smartchaindb_driver.Zmix.Bbs.Keys.{
  PublicKey, to_bytes, from_bytes, validate, generate, message_count,
}
use smartchaindb_driver.Zmix.Bbs.Keys.Laws.{
  from_bytes-to_bytes_key, validate_iff, AllProper, generate_lem,
}

abbrev key : PublicKey group3 group3
key = record { h0 = r2; h = r1 ∷ r2 ∷ []; w = r2 }

key_bytes : to_bytes group3 group3 codec3 codec3 key ≡ 2 ∷ 2 ∷ 0 ∷ 0 ∷ 0 ∷ 2 ∷ 1 ∷ 2 ∷ []
unfolding to_bytes
key_bytes = refl

from_bytes-to_bytes_key_example :
    from_bytes group3 group3 codec3 codec3 (to_bytes group3 group3 codec3 codec3 key) ≡ ok key
from_bytes-to_bytes_key_example =
    from_bytes-to_bytes_key group3 group3 codec3 codec3 key (omega arith)

validate_iff_example :
    (validate key ≡ ok tt) ↔ ((r2 ≢ r0) × (r2 ≢ r0) × AllProper group3 group3 (r1 ∷ r2 ∷ []))
validate_iff_example = validate_iff group3 group3 key

abbrev count : ℕ
count = 2

generate_example :
    (count ≡ 0) × (generate group3 group3 2 r2 (λ i. r1) ≡ err key_gen_error)
    ⊎ (0 < count)
      × (vk : PublicKey group3 group3) × (generate group3 group3 2 r2 (λ i. r1) ≡ ok (vk, r2))
      × (message_count vk ≡ 2)
      × (vk.w ≡ r2)
generate_example = generate_lem group3 group3 2 r2 (λ i. r1)
