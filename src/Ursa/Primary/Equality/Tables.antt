-- ===== src/Ursa/Primary/Equality/Tables.antt =====
-- Maps that give a number for each of a list of names.
use smartchaindb_driver.Prelude.{
  ℕ, suc, ◌≡◌, refl, sym, ap, ◌∙◌, Bool, true, ◌||◌, some, List, [], ◌∷◌, arith, ==_refl, ◌==◌,
}
use smartchaindb_driver.Zmix.Selection.{contains}
use smartchaindb_driver.Ursa.BigNumber.{BigNumbers}
use smartchaindb_driver.Ursa.Names.{
  Name, Map, lookup, contains_key, keys, insert, contains_key-insert, at_or, lookup-at_or,
}
use smartchaindb_driver.Ursa.Primary.Equality.{get_mtilde}

module _ {A : Type 0} where
  -- The map has `f` at each of the names.
  abbrev pub Gives : Map A → (Name → A) → List Name → Type 0
  Gives entries f [] = Unit {0}
  Gives entries f (k ∷ ks) = (lookup k entries ≡ some (f k)) × Gives entries f ks

  abbrev pub table : (Name → A) → List Name → Map A
  table f [] = []
  table f (k ∷ ks) = (k, f k) ∷ table f ks

  pub lookup-Gives :
      (entries : Map A) (f : Name → A) (ks : List Name)
      → ((k : Name) → contains ks k ≡ true → lookup k entries ≡ some (f k))
      → Gives entries f ks
  lookup-Gives entries f [] h = tt
  lookup-Gives entries f (k ∷ ks) h =
      (h k (ground (arith, ==_refl k)), lookup-Gives entries f ks λ j there. h j (ground arith))

  lookup-table :
      (f : Name → A) (ks : List Name) (k : Name)
      → contains ks k ≡ true
      → lookup k (table f ks) ≡ some (f k)
  lookup-table f [] k h = absurd cc
  lookup-table f (j ∷ ks) k h =
      let later = lookup-table f ks k in let same : j ≡ k → f j ≡ f k = λ e. ap f e in ground arith

  pub table-Gives : (f : Name → A) (ks : List Name) → Gives (table f ks) f ks
  table-Gives f ks = lookup-Gives (table f ks) f ks (lookup-table f ks)

  pub contains-keys :
      (k : Name) (entries : Map A) → contains (keys entries) k ≡ contains_key k entries
  contains-keys k [] = refl
  contains-keys k ((j, x) ∷ entries) = let later = contains-keys k entries in ground arith

  -- a list of names that are all keys
  pub at_or-Gives :
      (other : A) (entries : Map A) (ks : List Name)
      → ((k : Name) → contains ks k ≡ true → contains (keys entries) k ≡ true)
      → Gives entries (at_or other entries) ks
  at_or-Gives other entries ks h =
      lookup-Gives entries (at_or other entries) ks
        λ k there. lookup-at_or other k entries (sym (contains-keys k entries) ∙ h k there)

  pub at_or-lookup :
      (other : A) (k : Name) (entries : Map A) (x : A)
      → lookup k entries ≡ some x
      → at_or other entries k ≡ x
  at_or-lookup other k [] x h = absurd cc
  at_or-lookup other k ((j, y) ∷ entries) x h =
      let later = at_or-lookup other k entries x in ground arith

module _ (B : BigNumbers) where
  open B use {Z, bn_zero}

  contains_key-get_mtilde :
      (random : ℕ → Z) (i : ℕ) (ks : List Name) (mtilde : Map Z) (k : Name)
      → contains_key k mtilde ≡ true
      → contains_key k (get_mtilde B random i ks mtilde) ≡ true
  contains_key-get_mtilde random i [] mtilde k h = h
  contains_key-get_mtilde random i (attr ∷ ks) mtilde k h =
      let kept = contains_key-get_mtilde random i ks mtilde k h in
      let added =
        contains_key-get_mtilde random (suc i) ks (insert attr (random i) mtilde) k
          (contains_key-insert k attr (random i) mtilde ∙ rw h (||-true (attr == k))) in
      ground arith
    where
      ||-true : (b : Bool) → (b || true) ≡ true
      ||-true b = ground arith

  get_mtilde-keys :
      (random : ℕ → Z) (i : ℕ) (ks : List Name) (mtilde : Map Z) (k : Name)
      → contains ks k ≡ true
      → contains_key k (get_mtilde B random i ks mtilde) ≡ true
  get_mtilde-keys random i [] mtilde k h = absurd cc
  get_mtilde-keys random i (attr ∷ ks) mtilde k h =
      let fresh : k ≡ attr → contains_key k (insert attr (random i) mtilde) ≡ true =
        λ e. contains_key-insert k attr (random i) mtilde ∙ ground (arith, e) in
      let there : k ≡ attr → contains_key attr mtilde ≡ contains_key k mtilde =
        λ e. ap (λ j. contains_key j mtilde) (sym e) in
      let kept = contains_key-get_mtilde random i ks mtilde k in
      let added = contains_key-get_mtilde random (suc i) ks (insert attr (random i) mtilde) k in
      let later = get_mtilde-keys random i ks mtilde k in
      let later_added = get_mtilde-keys random (suc i) ks (insert attr (random i) mtilde) k in
      ground arith

  -- after the draws every unrevealed attribute has a number
  pub get_mtilde-Gives :
      (random : ℕ → Z) (i : ℕ) (ks : List Name) (mtilde : Map Z)
      → (let drawn = get_mtilde B random i ks mtilde in Gives drawn (at_or bn_zero drawn) ks)
  get_mtilde-Gives random i ks mtilde = lookup-Gives _ _ ks λ k there.
      lookup-at_or bn_zero k (get_mtilde B random i ks mtilde)
        (get_mtilde-keys random i ks mtilde k there)
