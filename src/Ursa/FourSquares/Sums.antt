-- ===== src/Ursa/FourSquares/Sums.antt =====
-- The greatest square below a number, and that a loop that leaves by its break has found the squares.
use smartchaindb_driver.Prelude.{
  ℕ, zero, suc, ◌+◌, ◌-◌, ◌≤◌, ◌≡◌, ◌≢◌, refl, sym, ap, Bool, true, false, ◌==◌, ==_iff, arith,
  Bool-cases, inl, inr,
}
use smartchaindb_driver.Ursa.FourSquares.{
  Roots, square, root_below, largest_square_less_than, third_loop, second_loop, first_loop,
}

square-suc : (a : ℕ) → square (suc a) ≡ square a + a + a + 1
square-suc a = omega arith

square_mono : (a b : ℕ) → a ≤ b → square a ≤ square b
square_mono zero b h = omega arith
square_mono (suc a) zero h = absurd (omega arith)
square_mono (suc a) (suc b) h = let later = square_mono a b (omega arith) in omega arith

root_below-fits : (delta r : ℕ) → square (root_below delta r) ≤ delta
unfolding root_below
root_below-fits delta zero = omega arith
root_below-fits delta (suc r) = let later = root_below-fits delta r in ground arith

root_below-greatest : (delta r k : ℕ) → k ≤ r → square k ≤ delta → k ≤ root_below delta r
unfolding root_below
root_below-greatest delta zero k l h = omega arith
root_below-greatest delta (suc r) k l h =
    let later = root_below-greatest delta r k in
    let same : k ≡ suc r → square k ≡ square (suc r) = λ e. ap square e in ground arith

le_square : (k : ℕ) → k ≤ square k
le_square zero = omega arith
le_square (suc k) = let e = square-suc k in omega arith

largest-fits : (m : ℕ) → square (largest_square_less_than m) ≤ m
unfolding largest_square_less_than
largest-fits m = root_below-fits m m

pub largest-greatest : (m k : ℕ) → square k ≤ m → k ≤ largest_square_less_than m
unfolding largest_square_less_than
largest-greatest m k h = root_below-greatest m m k (let small = le_square k in omega arith) h

pub largest-exact : (m e : ℕ) → square e ≡ m → square (largest_square_less_than m) ≡ m
largest-exact m e h =
    let below = largest-fits m in
    let above =
      square_mono e (largest_square_less_than m) (largest-greatest m e (omega (arith, h))) in
    omega arith

-- the squares of the roots add up to the number
abbrev pub IsSum : ℕ → Roots → Type 0
IsSum d roots =
    square roots.root_0 + square roots.root_1 + square roots.root_2 + square roots.root_3 ≡ d

-- a loop that leaves by its break has found the squares
abbrev pub IsRight : ℕ → Bool × Roots → Type 0
IsRight d left = left.0 ≡ true → IsSum d left.1

pub ==_false : (a b : ℕ) → (a == b) ≡ false → a ≢ b
==_false a b h e = let hit = (==_iff a b).1 e in absurd cc

pub nonzero : (n : ℕ) → n ≢ 0 → 1 ≤ n
nonzero zero h = absurd (h refl)
nonzero (suc n) h = omega arith

pub third_loop-IsRight : (d i j k : ℕ) (roots : Roots) → IsRight d (third_loop d i j k roots)
unfolding third_loop
third_loop-IsRight d i j zero roots = λ e. absurd cc
third_loop-IsRight d i j (suc k) roots =
    elim (Bool-cases (d == square i + square j + square (suc k))) [
      | inl t ↦ rw t (λ _. let q = (==_iff _ _).0 t in omega arith)
      | inr f ↦ elim (Bool-cases (d == square i + square j + square (suc k) + square root_3)) [
        | inl t ↦ rw (f, t) (λ _. sym ((==_iff _ _).0 t))
        | inr g ↦ rw (f, g) (third_loop-IsRight d i j k tried)
      ]
    ]
  where
    root_3 : ℕ
    root_3 = largest_square_less_than (d - square i - square j - square (suc k))

    tried : Roots
    tried = record { root_0 = i; root_1 = j; root_2 = suc k; root_3 = root_3 }

pub second_loop-IsRight : (d i j : ℕ) (roots : Roots) → IsRight d (second_loop d i j roots)
unfolding second_loop
second_loop-IsRight d i zero roots = λ e. absurd cc
second_loop-IsRight d i (suc j) roots = elim (Bool-cases (d == square i + square (suc j))) [
  | inl t ↦ rw t (λ _. let q = (==_iff _ _).0 t in omega arith)
  | inr f ↦ elim (Bool-cases inner.0) [
    | inl t ↦ rw (f, t) (λ _. third_loop-IsRight d i (suc j) root_2 started t)
    | inr g ↦ rw (f, g) (second_loop-IsRight d i j inner.1)
  ]
]
  where
    root_2 : ℕ
    root_2 = largest_square_less_than (d - square i - square (suc j))

    started : Roots
    started = record { root_0 = i; root_1 = suc j; root_2 = root_2; root_3 = roots.root_3 }

    inner : Bool × Roots
    inner = third_loop d i (suc j) root_2 started

pub first_loop-IsRight : (d i : ℕ) (roots : Roots) → IsRight d (first_loop d i roots)
unfolding first_loop
first_loop-IsRight d zero roots = λ e. absurd cc
first_loop-IsRight d (suc i) roots = elim (Bool-cases (d == square (suc i))) [
  | inl t ↦ rw t (λ _. let q = (==_iff _ _).0 t in omega arith)
  | inr f ↦ elim (Bool-cases inner.0) [
    | inl t ↦ rw (f, t) (λ _. second_loop-IsRight d (suc i) root_1 started t)
    | inr g ↦ rw (f, g) (first_loop-IsRight d i inner.1)
  ]
]
  where
    root_1 : ℕ
    root_1 = largest_square_less_than (d - square (suc i))

    started : Roots
    started = record {
      root_0 = suc i;
      root_1 = root_1;
      root_2 = roots.root_2;
      root_3 = roots.root_3;
    }

    inner : Bool × Roots
    inner = second_loop d (suc i) root_1 started
