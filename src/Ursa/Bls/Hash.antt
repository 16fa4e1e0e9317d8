-- ===== src/Ursa/Bls/Hash.antt =====
-- The search for a point of a hash ends at the first number that has one.
use smartchaindb_driver.Prelude.{
  ℕ, zero, suc, ◌+◌, ◌≤◌, ◌<◌, ◌≡◌, sym, ap, ◌∙◌, subst, inl, inr, true, false, some, length,
  Bool-cases, le→ltb, ok, arith,
}
use smartchaindb_driver.Amcl.{Field, Group, Pairing}
use smartchaindb_driver.Zmix.Bytes.{Bytes}
use smartchaindb_driver.Ursa.Pair.{Curve, number_from, element_from_bytes}
use smartchaindb_driver.Ursa.Pair.Points.{PointBytes, next_point, from_hash}

module _ {K : Field} {M N : Group K} {P : Pairing M N} {C : Curve P} (B : PointBytes C) where
  -- `j` is the first number above `el` where the curve has a point
  abbrev pub IsFirst : ℕ → ℕ → Type 0
  IsFirst el j =
      (M.is_identity (B.point_at (el + j)) ≡ false)
      × ((i : ℕ) → i < j → M.is_identity (B.point_at (el + i)) ≡ true)

  later-IsFirst :
      (el j : ℕ) → M.is_identity (B.point_at el) ≡ true → IsFirst (suc el) j → IsFirst el (suc j)
  later-IsFirst el j h (point, before) =
      (subst (λ n. M.is_identity (B.point_at n) ≡ false) (omega arith) point, λ i. at i)
    where
      at : (i : ℕ) → i < suc j → M.is_identity (B.point_at (el + i)) ≡ true
      at zero l = subst (λ n. M.is_identity (B.point_at n) ≡ true) (omega arith) h
      at (suc i) l =
          subst (λ n. M.is_identity (B.point_at n) ≡ true) (omega arith) (before i (omega arith))

  IsFirst-here :
      (fuel el k : ℕ)
      → M.is_identity (B.point_at el) ≡ false
      → (j : ℕ) × (j ≤ k) × (next_point B (suc fuel) el ≡ some (B.point_at (el + j))) × IsFirst el j
  unfolding next_point
  IsFirst-here fuel el k here = (
    zero,
    omega arith,
    rw here (ap (λ n. some (B.point_at n)) (omega arith)),
    (
      subst (λ n. M.is_identity (B.point_at n) ≡ false) (omega arith) here,
      λ i before. absurd (omega arith),
    ),
  )

  next_point-IsFirst :
      (fuel el k : ℕ)
      → k < fuel
      → M.is_identity (B.point_at (el + k)) ≡ false
      → (j : ℕ) × (j ≤ k) × (next_point B fuel el ≡ some (B.point_at (el + j))) × IsFirst el j
  unfolding next_point
  next_point-IsFirst zero el k l h = absurd (omega arith)
  next_point-IsFirst (suc fuel) el zero l h =
      IsFirst-here fuel el zero
        (let e : el + 0 ≡ el = omega arith in ap (λ n. M.is_identity (B.point_at n)) (sym e) ∙ h)
  next_point-IsFirst (suc fuel) el (suc k) l h = elim (Bool-cases (M.is_identity (B.point_at el))) [
    | inr here ↦ IsFirst-here fuel el (suc k) here
    | inl none_here ↦
        let (j, le, e, first) =
          next_point-IsFirst fuel (suc el) k (omega arith)
            (subst (λ n. M.is_identity (B.point_at n) ≡ false) (omega arith) h) in
        (
          suc j,
          omega arith,
          rw none_here (e ∙ ap (λ n. some (B.point_at n)) (omega arith)),
          later-IsFirst el j none_here first,
        )
  ]

  -- Where a hash has at most 32 bytes, and the number k places above its number is that of a point, with k below the fuel,
  -- `from_hash` returns the point of the first such number, which is not infinity.
  pub from_hash-IsFirst :
      (fuel : ℕ) (hash : Bytes) (k : ℕ)
      → length hash ≤ 32
      → k < fuel
      → M.is_identity (B.point_at (number_from 0 hash + k)) ≡ false
      → (j : ℕ) × (j ≤ k)
        × (from_hash B fuel hash ≡ ok (B.point_at (number_from 0 hash + j)))
        × IsFirst (number_from 0 hash) j
  unfolding from_hash element_from_bytes
  from_hash-IsFirst fuel hash k short l h =
      let (j, le, e, first) = next_point-IsFirst fuel (number_from 0 hash) k l h in
      (j, le, rw (le→ltb 32 (length hash) short, e), first)
