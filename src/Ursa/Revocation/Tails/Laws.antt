-- ===== src/Ursa/Revocation/Tails/Laws.antt =====
-- The tails of a generator are the multiples of its point by the powers of gamma.
use smartchaindb_driver.Prelude.{
  ℕ, zero, suc, ◌+◌, ◌*◌, ◌%◌, ◌^◌, ◌<◌, ◌≡◌, ◌∙◌, some, List, [], ◌∷◌, get_elem?, ok, arith,
  le→leb, lt→leb,
}
use smartchaindb_driver.Amcl.{Field, Group, Pairing}
use smartchaindb_driver.Ursa.Pair.{Curve, power, add_u32}
use smartchaindb_driver.Ursa.Pair.Laws.{element_from_bytes-transform_u32_to_array_of_u8}
use smartchaindb_driver.Ursa.Revocation.Tails.{
  new_generator, index_power, new_tail, try_next, collect_tails,
}

module _ {K : Field} (N : Group K) (g_dash : N.G) (gamma : K.F) where
  open N use {G, ◌•◌}

  -- the tails of `n` indices from `i` on
  abbrev pub tails_from : ℕ → ℕ → List G
  tails_from i zero = []
  tails_from i (suc n) = (g_dash • power K gamma i) ∷ tails_from (suc i) n

  -- the tails of all indices up to twice the number of credentials
  abbrev pub IsTails : List G → ℕ → Type 0
  IsTails tails max_cred_num =
      (k : ℕ) → k < 2 * max_cred_num + 1 → get_elem? tails k ≡ some (g_dash • power K gamma k)

  pub get_elem?-tails_from :
      (i n k : ℕ) → k < n → get_elem? (tails_from i n) k ≡ some (g_dash • power K gamma (i + k))
  get_elem?-tails_from i zero k h = absurd (omega arith)
  get_elem?-tails_from i (suc n) zero h = let e : i + zero ≡ i = omega arith in rw e
  get_elem?-tails_from i (suc n) (suc k) h =
      let e : i + suc k ≡ suc i + k = omega arith in
      rw e (get_elem?-tails_from (suc i) n k (omega arith))

module _ {K : Field} {M N : Group K} {P : Pairing M N} (C : Curve P) where
  open K use {F}
  open N use {G, ◌•◌}

  pub index_power-eq :
      (index : ℕ) (gamma : F)
      → index < 2 ^ 32
      → index_power C index gamma ≡ ok (power K gamma index)
  unfolding index_power
  index_power-eq index gamma h =
      rw (element_from_bytes-transform_u32_to_array_of_u8 index h, C.pow_mod-eq gamma index)

  pub new_tail-eq :
      (index : ℕ) (g_dash : G) (gamma : F)
      → index < 2 ^ 32
      → new_tail C index g_dash gamma ≡ ok (g_dash • power K gamma index)
  unfolding new_tail
  new_tail-eq index g_dash gamma h = rw (index_power-eq index gamma h)

  collect_tails-eq :
      (n i fuel : ℕ) (g_dash : G) (gamma : F)
      → i + n < 2 ^ 32
      → n < fuel
      → collect_tails C fuel
          (record { size = i + n; current_index = i; g_dash = g_dash; gamma = gamma })
        ≡ ok (some (tails_from N g_dash gamma i n))
  unfolding collect_tails try_next
  collect_tails-eq n i zero g_dash gamma h k = absurd (omega arith)
  collect_tails-eq zero i (suc fuel) g_dash gamma h k = rw (le→leb (i + zero) i (omega arith))
  collect_tails-eq (suc n) i (suc fuel) g_dash gamma h k =
      let next : add_u32 i 1 ≡ suc i = omega arith in
      let same : i + suc n ≡ suc i + n = omega arith in
      rw (
        lt→leb (i + suc n) i (omega arith),
        new_tail-eq i g_dash gamma (omega arith),
        next,
        same,
        collect_tails-eq n (suc i) fuel g_dash gamma (omega arith) (omega arith),
      )

  -- For fewer than 2^31 credentials, 2 L + 2 rounds or more suffice to collect the tails of a new generator, and
  -- the accessor then holds at each index k up to 2 L the multiple of g_dash by gamma^k.
  pub collect_tails_lem :
      (max_cred_num fuel : ℕ) (g_dash : G) (gamma : F)
      → 2 * max_cred_num + 1 < 2 ^ 32
      → 2 * max_cred_num + 1 < fuel
      → (tails : List G) × (collect_tails C fuel (new_generator max_cred_num gamma g_dash)
          ≡ ok (some tails))
        × IsTails N g_dash gamma tails max_cred_num
  unfolding new_generator
  collect_tails_lem max_cred_num fuel g_dash gamma h k =
      let small : (2 * max_cred_num + 1) % 2 ^ 32 ≡ 0 + (2 * max_cred_num + 1) = omega arith in
      (
        tails_from N g_dash gamma 0 (2 * max_cred_num + 1),
        rw (small, collect_tails-eq (2 * max_cred_num + 1) 0 fuel g_dash gamma (omega arith) k),
        (λ j l.
            let e : 0 + j ≡ j = omega arith in
            get_elem?-tails_from N g_dash gamma 0 (2 * max_cred_num + 1) j l ∙ rw e),
      )
