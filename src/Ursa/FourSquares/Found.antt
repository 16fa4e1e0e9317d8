-- ===== src/Ursa/FourSquares/Found.antt =====
-- The search for four squares finds them where there are any.
use smartchaindb_driver.Prelude.{
  ℕ, zero, suc, ◌+◌, ◌-◌, ◌≤◌, ◌≡◌, refl, ap, Bool, true, false, ◌==◌, ==_iff, ok, arith,
  Bool-cases, inl, inr,
}
use smartchaindb_driver.Ursa.Int.{pos}
use smartchaindb_driver.Ursa.FourSquares.{
  Roots, square, root_below, largest_square_less_than, third_loop, second_loop, first_loop,
  four_squares,
}
use smartchaindb_driver.Ursa.FourSquares.Sums.{
  largest-greatest, largest-exact, ==_false, nonzero, IsSum, first_loop-IsRight,
}

third_loop-breaks :
    (d i j k : ℕ) (roots : Roots) (c e : ℕ)
    → c ≤ k
    → 1 ≤ c
    → square i + square j + square c + square e ≡ d
    → (third_loop d i j k roots).0 ≡ true
unfolding third_loop
third_loop-breaks d i j zero roots c e l p h = absurd (omega arith)
third_loop-breaks d i j (suc k) roots c e l p h =
    elim (Bool-cases (d == square i + square j + square (suc k))) [
      | inl t ↦ rw (t)
      | inr f ↦ elim (Bool-cases (d == square i + square j + square (suc k) + square root_3)) [
        | inl t ↦ rw (f, t)
        | inr g ↦ rw (f, g) (third_loop-breaks d i j k tried c e (below g) p h)
      ]
    ]
  where
    root_3 : ℕ
    root_3 = largest_square_less_than (d - square i - square j - square (suc k))

    tried : Roots
    tried = record { root_0 = i; root_1 = j; root_2 = suc k; root_3 = root_3 }

    found : c ≡ suc k → d ≡ square i + square j + square (suc k) + square root_3
    found same =
        let q : square c ≡ square (suc k) = ap square same in
        let rest : square e ≡ d - square i - square j - square (suc k) = omega arith in
        let exact = largest-exact (d - square i - square j - square (suc k)) e rest in omega arith

    below : (d == square i + square j + square (suc k) + square root_3) ≡ false → c ≤ k
    below g = elim (Bool-cases (c == suc k)) [
      | inl t ↦ absurd (==_false _ _ g (found ((==_iff c (suc k)).0 t)))
      | inr t ↦ let other = ==_false c (suc k) t in ground arith
    ]

second_loop-breaks :
    (d i j : ℕ) (roots : Roots) (b c e : ℕ)
    → b ≤ j
    → 1 ≤ b
    → (c ≡ 0 → e ≡ 0)
    → square i + square b + square c + square e ≡ d
    → (second_loop d i j roots).0 ≡ true
unfolding second_loop
second_loop-breaks d i zero roots b c e l p z h = absurd (omega arith)
second_loop-breaks d i (suc j) roots b c e l p z h =
    elim (Bool-cases (d == square i + square (suc j))) [
      | inl t ↦ rw (t)
      | inr f ↦ elim (Bool-cases inner.0) [
        | inl t ↦ rw (f, t)
        | inr g ↦ rw (f, g) (second_loop-breaks d i j inner.1 b c e (below f g) p z h)
      ]
    ]
  where
    root_2 : ℕ
    root_2 = largest_square_less_than (d - square i - square (suc j))

    inner : Bool × Roots
    inner =
        third_loop d i (suc j) root_2
          (record { root_0 = i; root_1 = suc j; root_2 = root_2; root_3 = roots.root_3 })

    found : (d == square i + square (suc j)) ≡ false → b ≡ suc j → inner.0 ≡ true
    found f same =
        let q : square b ≡ square (suc j) = ap square same in
        let some_left = ==_false _ _ f in
        let positive : 1 ≤ c =
          nonzero c λ none.
            some_left (let r = ap square none in let s = ap square (z none) in omega arith) in
        third_loop-breaks d i (suc j) root_2 _ c e
          (largest-greatest (d - square i - square (suc j)) c (omega arith)) positive (omega arith)

    below : (d == square i + square (suc j)) ≡ false → inner.0 ≡ false → b ≤ j
    below f g = elim (Bool-cases (b == suc j)) [
      | inl t ↦ let hit = found f ((==_iff b (suc j)).0 t) in absurd cc
      | inr t ↦ let other = ==_false b (suc j) t in ground arith
    ]

first_loop-breaks :
    (d i : ℕ) (roots : Roots) (a b c e : ℕ)
    → a ≤ i
    → 1 ≤ a
    → (b ≡ 0 → c ≡ 0)
    → (c ≡ 0 → e ≡ 0)
    → square a + square b + square c + square e ≡ d
    → (first_loop d i roots).0 ≡ true
unfolding first_loop
first_loop-breaks d zero roots a b c e l p y z h = absurd (omega arith)
first_loop-breaks d (suc i) roots a b c e l p y z h = elim (Bool-cases (d == square (suc i))) [
  | inl t ↦ rw (t)
  | inr f ↦ elim (Bool-cases inner.0) [
    | inl t ↦ rw (f, t)
    | inr g ↦ rw (f, g) (first_loop-breaks d i inner.1 a b c e (below f g) p y z h)
  ]
]
  where
    root_1 : ℕ
    root_1 = largest_square_less_than (d - square (suc i))

    inner : Bool × Roots
    inner =
        second_loop d (suc i) root_1
          (record { root_0 = suc i; root_1 = root_1; root_2 = roots.root_2; root_3 = roots.root_3 })

    found : (d == square (suc i)) ≡ false → a ≡ suc i → inner.0 ≡ true
    found f same =
        let q : square a ≡ square (suc i) = ap square same in
        let some_left = ==_false _ _ f in
        let positive : 1 ≤ b = nonzero b λ none. some_left (
          let r = ap square none in
          let s = ap square (y none) in let t = ap square (z (y none)) in omega arith) in
        second_loop-breaks d (suc i) root_1 _ b c e
          (largest-greatest (d - square (suc i)) b (omega arith)) positive z (omega arith)

    below : (d == square (suc i)) ≡ false → inner.0 ≡ false → a ≤ i
    below f g = elim (Bool-cases (a == suc i)) [
      | inl t ↦ let hit = found f ((==_iff a (suc i)).0 t) in absurd cc
      | inr t ↦ let other = ==_false a (suc i) t in ground arith
    ]

abbrev started : ℕ → Roots
started d = record { root_0 = largest_square_less_than d; root_1 = 0; root_2 = 0; root_3 = 0 }

-- the first loop on 0 does nothing, and the roots that it starts with are 0
zero-IsSum : (d : ℕ) → d ≡ 0 → IsSum d (first_loop d (largest_square_less_than d) (started d)).1
unfolding first_loop largest_square_less_than root_below
zero-IsSum zero h = refl
zero-IsSum (suc d) h = absurd (omega arith)

positive-IsSum :
    (d a b c e : ℕ)
    → b ≤ a
    → c ≤ b
    → e ≤ c
    → 1 ≤ a
    → square a + square b + square c + square e ≡ d
    → IsSum d (first_loop d (largest_square_less_than d) (started d)).1
positive-IsSum d a b c e p q r s h = first_loop-IsRight d (largest_square_less_than d) (started d) (
    first_loop-breaks d (largest_square_less_than d) (started d) a b c e
      (largest-greatest d a (omega arith)) s (λ z. omega arith) (λ z. omega arith) h)

-- Where the number is the sum of the squares of a, b, c and e, in descending order (which by the theorem of Lagrange
-- every number is), four_squares returns roots whose squares add up to the number.
pub four_squares-IsSum :
    (d a b c e : ℕ)
    → b ≤ a
    → c ≤ b
    → e ≤ c
    → square a + square b + square c + square e ≡ d
    → (roots : Roots) × (four_squares (pos d) ≡ ok roots) × IsSum d roots
unfolding four_squares
four_squares-IsSum d zero b c e p q r h = (_, refl, zero-IsSum d none)
  where
    none : d ≡ 0
    none =
        let x : square b ≡ square 0 = ap square {x = b} {y = 0} (omega arith) in
        let y : square c ≡ square 0 = ap square {x = c} {y = 0} (omega arith) in
        let z : square e ≡ square 0 = ap square {x = e} {y = 0} (omega arith) in omega arith
four_squares-IsSum d (suc a) b c e p q r h =
    (_, refl, positive-IsSum d (suc a) b c e p q r (omega arith) h)
