-- ===== src/Ursa/Revocation/Tails.antt =====
-- The tails in ursa_Master/libursa/src/cl/mod.rs: a point for each index, its generator and its accessor.
pub mod Laws
use smartchaindb_driver.Prelude.{
  ℕ, zero, suc, ◌+◌, ◌*◌, ◌-◌, ◌^◌, ◌%◌, Option, none, some, List, [], ◌∷◌, leb, get_elem?,
  if◌then◌else◌, Outcome, ok, panic, unwrap, ◌>>=◌,
}
use smartchaindb_driver.Amcl.{Field, Group, Pairing}
use smartchaindb_driver.Ursa.Errors.{UrsaCryptoError}
use smartchaindb_driver.Ursa.Pair.{
  Curve, add_u32, sub_u32, transform_u32_to_array_of_u8, element_from_bytes,
}

pub record RevocationTailsGenerator {K : Field} (N : Group K) : Type 0 where
  pub size : ℕ
  pub current_index : ℕ
  pub g_dash : N.G
  pub gamma : K.F

-- `RevocationTailsGenerator::new`
unfoldable pub new_generator :
    {K : Field} {N : Group K} → ℕ → K.F → N.G → RevocationTailsGenerator N
new_generator max_cred_num gamma g_dash = record {
  size = (2 * max_cred_num + 1) % 2 ^ 32;
  current_index = 0;
  g_dash = g_dash;
  gamma = gamma;
}

unfoldable pub count : {K : Field} {N : Group K} → RevocationTailsGenerator N → ℕ
count self = sub_u32 self.size self.current_index

module _ {K : Field} {M N : Group K} {P : Pairing M N} (C : Curve P) where
  open K use {F}
  open N use {G, ◌•◌}

  -- the power of `gamma` of the number `index`
  unfoldable pub index_power : ℕ → F → Outcome UrsaCryptoError F
  index_power index gamma = do
    pow ← element_from_bytes (transform_u32_to_array_of_u8 index)
    ok (C.pow_mod gamma pow)

  unfoldable pub new_tail : ℕ → G → F → Outcome UrsaCryptoError G
  new_tail index g_dash gamma = do pow ← index_power index gamma; ok (g_dash • pow)

  unfoldable pub try_next :
      RevocationTailsGenerator N → Outcome UrsaCryptoError (Option G × RevocationTailsGenerator N)
  try_next self = if leb self.size self.current_index then ok (none, self) else (do
    tail ← new_tail self.current_index self.g_dash self.gamma
    ok (
      some tail,
      record {
        size = self.size;
        current_index = add_u32 self.current_index 1;
        g_dash = self.g_dash;
        gamma = self.gamma;
      },
    ))

  -- `SimpleTailsAccessor::new`: the loop that takes tails until there is none, for at most `fuel` rounds; it
  -- returns nothing where they do not suffice
  unfoldable pub collect_tails :
      ℕ → RevocationTailsGenerator N → Outcome UrsaCryptoError (Option (List G))
  collect_tails zero generator = ok none
  collect_tails (suc fuel) generator = do
    next ← try_next generator
    elim next.0 [
      | none ↦ ok (some [])
      | some tail ↦ do
        rest ← collect_tails fuel next.1
        elim rest [ none ↦ ok none | some tails ↦ ok (some (tail ∷ tails)) ]
    ]

-- `SimpleTailsAccessor::access_tail`, with what the accessor is applied to
unfoldable pub access_tail : {A : Type 0} → List A → ℕ → Outcome UrsaCryptoError A
access_tail tails tail_id = unwrap (get_elem? tails tail_id)
