-- ===== src/Ursa/NameSets.antt =====
-- The `BTreeSet<String>` of attribute names, as the sorted list of what its iterator gives.
use smartchaindb_driver.Prelude.{
  ◌<◌, ◌≡◌, refl, sym, ap, ap₂, ◌∙◌, Bool, true, false, ◌||◌, ◌&&◌, List, [], ◌∷◌, ◌==◌, ==_refl,
  ltb, if◌then◌else◌, arith,
}
use smartchaindb_driver.Zmix.Selection.{contains}
use smartchaindb_driver.Ursa.Names.{Name}

-- `set.insert(name)`
abbrev pub add_name : Name → List Name → List Name
add_name x [] = x ∷ []
add_name x (y ∷ ys) =
    let rest = add_name x ys in if ltb x y then x ∷ y ∷ ys else if x == y then y ∷ ys else y ∷ rest

-- `a.union(&b).collect()`
abbrev pub union : List Name → List Name → List Name
union [] b = b
union (x ∷ a) b = add_name x (union a b)

-- what is in both
abbrev pub both : List Name → List Name → List Name
both [] ks = []
both (j ∷ js) ks = let rest = both js ks in if contains ks j then j ∷ rest else rest

abbrev pub equal_names : List Name → List Name → Bool
equal_names [] [] = true
equal_names (x ∷ xs) (y ∷ ys) = x == y && equal_names xs ys
equal_names _ _ = false

pub equal_names-eq : (xs ys : List Name) → equal_names xs ys ≡ true → xs ≡ ys
equal_names-eq [] [] h = refl
equal_names-eq [] (y ∷ ys) h = absurd cc
equal_names-eq (x ∷ xs) [] h = absurd cc
equal_names-eq (x ∷ xs) (y ∷ ys) h =
    ap₂ (λ z zs. z ∷ zs) (ground arith) (equal_names-eq xs ys (ground arith))

-- Every name is above the first.
abbrev pub IsAbove : Name → List Name → Type 0
IsAbove x [] = Unit {0}
IsAbove x (y ∷ ys) = (x < y) × IsAbove x ys

abbrev pub IsSorted : List Name → Type 0
IsSorted [] = Unit {0}
IsSorted (x ∷ xs) = IsAbove x xs × IsSorted xs

weaken-IsAbove : (x y : Name) (ys : List Name) → x < y → IsAbove y ys → IsAbove x ys
weaken-IsAbove x y [] l h = tt
weaken-IsAbove x y (z ∷ ys) l (h, hs) = (omega arith, weaken-IsAbove x y ys l hs)

add_name-IsAbove : (z x : Name) (ys : List Name) → z < x → IsAbove z ys → IsAbove z (add_name x ys)
add_name-IsAbove z x [] l h = (l, tt)
add_name-IsAbove z x (y ∷ ys) l (h, hs) = let later = add_name-IsAbove z x ys l hs in ground arith

pub add_name-IsSorted : (x : Name) (ys : List Name) → IsSorted ys → IsSorted (add_name x ys)
add_name-IsSorted x [] h = (tt, tt)
add_name-IsSorted x (y ∷ ys) (h, hs) =
    let later = add_name-IsSorted x ys hs in
    let lower : x < y → IsAbove x ys = λ l. weaken-IsAbove x y ys l h in
    let upper : y < x → IsAbove y (add_name x ys) = λ l. add_name-IsAbove y x ys l h in ground arith

pub union-IsSorted : (a b : List Name) → IsSorted b → IsSorted (union a b)
union-IsSorted [] b h = h
union-IsSorted (x ∷ a) b h = add_name-IsSorted x (union a b) (union-IsSorted a b h)

pub contains-add_name :
    (k x : Name) (ys : List Name) → contains (add_name x ys) k ≡ (k == x || contains ys k)
contains-add_name k x [] = refl
contains-add_name k x (y ∷ ys) = let later = contains-add_name k x ys in ground arith

pub contains-union :
    (k : Name) (a b : List Name) → contains (union a b) k ≡ (contains a k || contains b k)
contains-union k [] b = refl
contains-union k (x ∷ a) b =
    let later = contains-union k a b in contains-add_name k x (union a b) ∙ ground arith

pub contains-IsAbove : (x : Name) (ys : List Name) → IsAbove x ys → contains ys x ≡ false
contains-IsAbove x [] h = refl
contains-IsAbove x (y ∷ ys) (h, hs) = let later = contains-IsAbove x ys hs in ground arith

-- Two sorted lists with the same names are the same.
pub sorted_unique :
    (xs ys : List Name)
    → IsSorted xs
    → IsSorted ys
    → ((k : Name) → contains xs k ≡ contains ys k)
    → xs ≡ ys
sorted_unique [] [] p q h = refl
sorted_unique [] (y ∷ ys) p q h = let at = h y in ground (arith, ==_refl y)
sorted_unique (x ∷ xs) [] p q h = let at = h x in ground (arith, ==_refl x)
sorted_unique (x ∷ xs) (y ∷ ys) (p, ps) (q, qs) h =
    ap₂ (λ z zs. z ∷ zs) first (sorted_unique xs ys ps qs rest)
  where
    first : x ≡ y
    first =
        let at_x = h x in
        let at_y = h y in
        let below : x < y → contains ys x ≡ false =
          λ l. contains-IsAbove x ys (weaken-IsAbove x y ys l q) in
        let above : y < x → contains xs y ≡ false =
          λ l. contains-IsAbove y xs (weaken-IsAbove y x xs l p) in
        ground (arith, ==_refl x, ==_refl y)

    rest : (k : Name) → contains xs k ≡ contains ys k
    rest k =
        let at = h k in
        let out_x : k ≡ x → contains xs k ≡ false =
          λ e. ap (contains xs) e ∙ contains-IsAbove x xs p in
        let out_y : k ≡ y → contains ys k ≡ false =
          λ e. ap (contains ys) e ∙ contains-IsAbove y ys q in
        ground (arith, first)

||_comm : (a b : Bool) → (a || b) ≡ (b || a)
||_comm a b = ground arith

pub union_comm : (a b : List Name) → IsSorted a → IsSorted b → union a b ≡ union b a
union_comm a b p q =
    sorted_unique (union a b) (union b a) (union-IsSorted a b q) (union-IsSorted b a p)
      λ k. contains-union k a b ∙ ||_comm (contains a k) (contains b k) ∙ sym (contains-union k b a)

contains-both :
    (k : Name) (js ks : List Name) → contains (both js ks) k ≡ (contains js k && contains ks k)
contains-both k [] ks = refl
contains-both k (j ∷ js) ks =
    let later = contains-both k js ks in
    let same : k ≡ j → contains ks k ≡ contains ks j = λ e. ap (contains ks) e in ground arith

both-IsAbove : (x : Name) (js ks : List Name) → IsAbove x js → IsAbove x (both js ks)
both-IsAbove x [] ks h = tt
both-IsAbove x (j ∷ js) ks (h, hs) = let later = both-IsAbove x js ks hs in ground arith

both-IsSorted : (js ks : List Name) → IsSorted js → IsSorted (both js ks)
both-IsSorted [] ks h = tt
both-IsSorted (j ∷ js) ks (h, hs) =
    let later = both-IsSorted js ks hs in let above = both-IsAbove j js ks h in ground arith

-- What a sorted list shares with a list that has all its names is that list.
pub both-subset :
    (js ks : List Name)
    → IsSorted js
    → IsSorted ks
    → ((k : Name) → contains ks k ≡ true → contains js k ≡ true)
    → both js ks ≡ ks
both-subset js ks p q h =
    sorted_unique (both js ks) ks (both-IsSorted js ks p) q
      λ k. contains-both k js ks ∙ (let at = h k in ground arith)
