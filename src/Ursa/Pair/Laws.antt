-- ===== src/Ursa/Pair/Laws.antt =====
-- An index survives its bytes, and the laws of powers.
use smartchaindb_driver.Prelude.{ℕ, zero, suc, ◌+◌, ◌^◌, ◌<◌, ◌≡◌, sym, ap, ◌∙◌, ok, arith}
use smartchaindb_driver.Amcl.{Field}
use smartchaindb_driver.Ursa.Pair.{
  power, transform_u32_to_array_of_u8, bytes_below, element_from_bytes,
}

-- A 32-bit index is read back from its bytes.
pub element_from_bytes-transform_u32_to_array_of_u8 :
    (x : ℕ) → x < 2 ^ 32 → element_from_bytes (transform_u32_to_array_of_u8 x) ≡ ok x
unfolding element_from_bytes transform_u32_to_array_of_u8 bytes_below
element_from_bytes-transform_u32_to_array_of_u8 x h = ap ok (omega arith)

pub power-add :
    (K : Field) (a : K.F) (m n : ℕ) → power K a (m + n) ≡ K.◌⊠◌ (power K a m) (power K a n)
power-add K a zero n =
    let e : zero + n ≡ n = omega arith in rw e (sym (K.⊠_comm _ _ ∙ K.⊠-one (power K a n)))
power-add K a (suc m) n =
    let e : suc m + n ≡ suc (m + n) = omega arith in
    rw e (ap (λ x. K.◌⊠◌ a x) (power-add K a m n) ∙ sym (K.⊠_assoc _ _ _))
