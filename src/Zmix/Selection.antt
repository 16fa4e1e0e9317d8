-- ===== src/Zmix/Selection.antt =====
-- Sets of message indices and maps from them, as the proofs of knowledge of a signature read them: a
-- `HashSet<usize>` is the list of its elements in the order of its iterator, a `HashMap<usize, _>` that
-- of its entries. `pick` is the specification of the loops that select the hidden or revealed places.
use smartchaindb_driver.Prelude.{
  ℕ, suc, ◌+◌, ◌-◌, ◌≤◌, ◌<◌, ◌≡◌, refl, ap, ◌∙◌, Bool, false, not, ◌||◌, Option, none, some, List,
  [], ◌∷◌, length, get_elem?, ◌==◌, ==_iff, if◌then◌else◌, arith, Bool-cases, inl, inr,
}
use smartchaindb_driver.Amcl.{Field, Group}
use smartchaindb_driver.Amcl.Algebra.{identity-⊕, ⊕_left_comm}
use smartchaindb_driver.Amcl.Sums.{sum_of}

-- `set.contains(&i)`
abbrev pub contains : List ℕ → ℕ → Bool
contains [] i = false
contains (j ∷ js) i = i == j || contains js i

-- `map.get(&i)`
abbrev pub get {ℓ} : {A : Type ℓ} → List (ℕ × A) → ℕ → Option A
get [] i = none
get ((j, a) ∷ entries) i = if i == j then some a else get entries i

-- the elements of a set are distinct and below a bound
abbrev pub IsIndexSet : List ℕ → ℕ → Type 0
IsIndexSet [] n = Unit {0}
IsIndexSet (j ∷ js) n = (contains js j ≡ false) × (j < n) × IsIndexSet js n

module _ {ℓ} {A : Type ℓ} where
  -- the elements at the places that pass the test, the first of them at place `i`
  abbrev pub pick : (ℕ → Bool) → ℕ → List A → List A
  pick test i [] = []
  pick test i (x ∷ xs) = if test i then x ∷ pick test (suc i) xs else pick test (suc i) xs

  pub length-pick-not :
      (test : ℕ → Bool) (i : ℕ) (xs : List A)
      → length (pick test i xs) + length (pick (λ j. not (test j)) i xs) ≡ length xs
  length-pick-not test i [] = refl
  length-pick-not test i (x ∷ xs) = ground (arith, length-pick-not test (suc i) xs)

  pick_beyond :
      (f : ℕ → Bool) (r i : ℕ) (xs : List A) → r < i → pick (λ j. j == r || f j) i xs ≡ pick f i xs
  pick_beyond f r i [] h = refl
  pick_beyond f r i (x ∷ xs) h = ground (arith, pick_beyond f r (suc i) xs)

  length-pick_insert :
      (f : ℕ → Bool) (r i : ℕ) (xs : List A)
      → f r ≡ false
      → i ≤ r
      → r < i + length xs
      → length (pick (λ j. j == r || f j) i xs) ≡ suc (length (pick f i xs))
  length-pick_insert f r i [] e h k = absurd (omega arith)
  length-pick_insert f r i (x ∷ xs) e h k = elim (Bool-cases (i == r)) [
    | inl here ↦
        let at : i ≡ r = (==_iff i r).0 here in
        let out : f i ≡ false = ap f at ∙ e in
        rw (here, out) (ap (λ l. suc (length l)) (pick_beyond f r (suc i) xs (omega arith)))
    | inr later ↦
        let below : suc i ≤ r = ground arith in
        let rest = length-pick_insert f r (suc i) xs e below (omega arith) in
        elim (Bool-cases (f i)) [ inl t ↦ rw (later, t) (ap suc rest) | inr t ↦ rw (later, t) rest ]
  ]

  length-pick_none : (i : ℕ) (xs : List A) → length (pick (λ j. false) i xs) ≡ 0
  length-pick_none i [] = refl
  length-pick_none i (x ∷ xs) = length-pick_none (suc i) xs

  -- as many places are selected as the set has elements
  pub length-pick-contains :
      (js : List ℕ) (xs : List A)
      → IsIndexSet js (length xs)
      → length (pick (contains js) 0 xs) ≡ length js
  length-pick-contains [] xs h = length-pick_none 0 xs
  length-pick-contains (j ∷ js) xs h =
      length-pick_insert (contains js) j 0 xs h.0 (omega arith) (omega arith)
      ∙ ap suc (length-pick-contains js xs h.2)

  pub length-pick_hidden :
      (js : List ℕ) (xs : List A)
      → IsIndexSet js (length xs)
      → length (pick (λ j. not (contains js j)) 0 xs) ≡ length xs - length js
  length-pick_hidden js xs h =
      omega (arith, length-pick-contains js xs h, length-pick-not (contains js) 0 xs)

pub length-pick_same {ℓ κ} :
    {A : Type ℓ} {B : Type κ} (test : ℕ → Bool) (i : ℕ) (xs : List A) (ys : List B)
    → length xs ≡ length ys
    → length (pick test i xs) ≡ length (pick test i ys)
length-pick_same test i [] [] h = refl
length-pick_same test i [] (y ∷ ys) h = absurd (omega arith)
length-pick_same test i (x ∷ xs) [] h = absurd (omega arith)
length-pick_same test i (x ∷ xs) (y ∷ ys) h = ground (arith, length-pick_same test (suc i) xs ys)

module _ {K : Field} (M : Group K) where
  open M use {G, ◌⊕◌, ◌•◌, ⊕_assoc, ⊕_comm}

  -- a sum is the sum over the selected places and that over the others
  pub sum_of-pick :
      (test : ℕ → Bool) (i : ℕ) (ps : List G) (ss : List K.F)
      → length ps ≡ length ss
      → sum_of M (pick test i ps) (pick test i ss)
          ⊕ sum_of M (pick (λ j. not (test j)) i ps) (pick (λ j. not (test j)) i ss)
        ≡ sum_of M ps ss
  sum_of-pick test i [] [] h = identity-⊕ M _
  sum_of-pick test i [] (s ∷ ss) h = absurd (omega arith)
  sum_of-pick test i (p ∷ ps) [] h = absurd (omega arith)
  sum_of-pick test i (p ∷ ps) (s ∷ ss) h = elim (Bool-cases (test i)) [
    | inl e ↦
        rw e (⊕_assoc _ _ _ ∙ ap (λ x. (p • s) ⊕ x) (sum_of-pick test (suc i) ps ss (omega arith)))
    | inr e ↦
        rw e (
          ⊕_left_comm M _ _ _
          ∙ ap (λ x. (p • s) ⊕ x) (sum_of-pick test (suc i) ps ss (omega arith)))
  ]

-- The places that a set of revealed indices hides.
abbrev pub hides : List ℕ → ℕ → Bool
hides revealed j = not (contains revealed j)

-- A map gives the messages at the revealed indices, and nothing elsewhere.
pub record Reveals {ℓ} {A : Type ℓ} (entries : List (ℕ × A)) (revealed : List ℕ) (messages : List A)
    : Type ℓ where
  pub agrees :
      (i : ℕ) → get entries i ≡ (if contains revealed i then get_elem? messages i else none)

contains-lt : (js : List ℕ) (n i : ℕ) → IsIndexSet js n → n ≤ i → contains js i ≡ false
contains-lt [] n i h k = refl
contains-lt (j ∷ js) n i h k = ground (arith, contains-lt js n i h.2 k)

pub get_beyond {ℓ} :
    {A : Type ℓ} (entries : List (ℕ × A)) (revealed : List ℕ) (messages : List A) (n i : ℕ)
    → Reveals entries revealed messages
    → IsIndexSet revealed n
    → n ≤ i
    → get entries i ≡ none
get_beyond entries revealed messages n i r h k = rw (r.agrees i, contains-lt revealed n i h k)
