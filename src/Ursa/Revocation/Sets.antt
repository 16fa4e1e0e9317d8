-- ===== src/Ursa/Revocation/Sets.antt =====
-- The operations of `HashSet<u32>` that the source uses, on the lists of what the iterators give.
use smartchaindb_driver.Prelude.{
  ℕ, zero, suc, ◌≡◌, refl, ap, ◌∙◌, true, false, ◌||◌, ◌&&◌, not, List, [], ◌∷◌, ◌==◌, ==_iff,
  if◌then◌else◌, arith, Bool-cases, inl, inr,
}
use smartchaindb_driver.Zmix.Selection.{contains}

-- `set.remove(&i)`
abbrev pub remove : ℕ → List ℕ → List ℕ
remove i [] = []
remove i (j ∷ js) = if i == j then remove i js else j ∷ remove i js

-- `a.difference(&b)`
abbrev pub difference : List ℕ → List ℕ → List ℕ
difference [] ks = []
difference (j ∷ js) ks = if contains ks j then difference js ks else j ∷ difference js ks

-- `set.insert(i)`
abbrev pub insert : ℕ → List ℕ → List ℕ
insert i js = if contains js i then js else i ∷ js

-- `set.extend(iter)`
abbrev pub extend : List ℕ → List ℕ → List ℕ
extend js [] = js
extend js (k ∷ ks) = extend (insert k js) ks

-- `for i in iter {set.remove(i) }`
abbrev pub remove_all : List ℕ → List ℕ → List ℕ
remove_all [] js = js
remove_all (i ∷ is) js = remove_all is (remove i js)

-- `(from..from + count)`
abbrev pub range : ℕ → ℕ → List ℕ
range from zero = []
range from (suc count) = from ∷ range (suc from) count

pub contains-remove :
    (i k : ℕ) (js : List ℕ) → contains (remove i js) k ≡ (contains js k && not (k == i))
contains-remove i k [] = refl
contains-remove i k (j ∷ js) = ground (arith, contains-remove i k js)

pub contains-difference :
    (k : ℕ) (js ks : List ℕ)
    → contains (difference js ks) k ≡ (contains js k && not (contains ks k))
contains-difference k [] ks = refl
contains-difference k (j ∷ js) ks = elim (Bool-cases (k == j)) [
  | inl t ↦
      let same : k ≡ j = (==_iff k j).0 t in
      elim (Bool-cases (contains ks j)) [
        | inl m ↦
            let hit : contains ks k ≡ true = ap (contains ks) same ∙ m in
            rw (m, contains-difference k js ks, hit, t) (ground arith)
        | inr m ↦ let miss : contains ks k ≡ false = ap (contains ks) same ∙ m in rw (m, t, miss)
      ]
  | inr f ↦ elim (Bool-cases (contains ks j)) [
    | inl m ↦ rw (m, f) (contains-difference k js ks)
    | inr m ↦ rw (m, f) (contains-difference k js ks)
  ]
]

contains-insert : (i k : ℕ) (js : List ℕ) → contains (insert i js) k ≡ (k == i || contains js k)
contains-insert i k js = elim (Bool-cases (k == i)) [
  | inl t ↦
      let same : k ≡ i = (==_iff k i).0 t in
      elim (Bool-cases (contains js i)) [
        | inl m ↦ let hit : contains js k ≡ true = ap (contains js) same ∙ m in rw (m, hit, t)
        | inr m ↦ rw (m, t)
      ]
  | inr f ↦ elim (Bool-cases (contains js i)) [ inl m ↦ rw (m, f) | inr m ↦ rw (m, f) ]
]

pub contains-extend :
    (k : ℕ) (js ks : List ℕ) → contains (extend js ks) k ≡ (contains js k || contains ks k)
contains-extend k js [] = ground arith
contains-extend k js (i ∷ ks) =
    contains-extend k (insert i js) ks ∙ rw (contains-insert i k js) (ground arith)

pub contains-remove_all :
    (k : ℕ) (is js : List ℕ)
    → contains (remove_all is js) k ≡ (contains js k && not (contains is k))
contains-remove_all k [] js = ground arith
contains-remove_all k (i ∷ is) js =
    contains-remove_all k is (remove i js) ∙ rw (contains-remove i k js) (ground arith)
