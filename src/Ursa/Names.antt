-- ===== src/Ursa/Names.antt =====
-- Maps by attribute name, for the `HashMap` and the `BTreeMap` of cl: association lists, in the order of
-- their iteration. A name stands for a string.
use smartchaindb_driver.Prelude.{
  ℕ, ◌≡◌, refl, Bool, true, false, Option, some, none, List, [], ◌∷◌, ◌==◌, ==_refl, if◌then◌else◌,
  arith, ◌||◌,
}

abbrev pub Name : Type 0
Name = ℕ

-- the string "master_secret"
abbrev pub master_secret : Name
master_secret = 0

abbrev pub Map {ℓ} : Type ℓ → Type ℓ
Map A = List (Name × A)

module _ {ℓ} {A : Type ℓ} where
  abbrev pub lookup : Name → Map A → Option A
  lookup name [] = none
  lookup name ((key, value) ∷ entries) =
      let rest = lookup name entries in if key == name then some value else rest

  abbrev pub contains_key : Name → Map A → Bool
  contains_key name [] = false
  contains_key name ((key, value) ∷ entries) = (key == name) || contains_key name entries

  abbrev pub keys : Map A → List Name
  keys [] = []
  keys ((key, value) ∷ entries) = key ∷ keys entries

  -- A key that is there gets the new value in its place.
  abbrev pub insert : Name → A → Map A → Map A
  insert name new [] = (name, new) ∷ []
  insert name new ((key, value) ∷ entries) =
      let rest = insert name new entries in
      if key == name then (key, new) ∷ entries else (key, value) ∷ rest

  -- Every key is there once.
  abbrev pub HasDistinctKeys : Map A → Type 0
  HasDistinctKeys [] = Unit {0}
  HasDistinctKeys ((key, value) ∷ entries) =
      (contains_key key entries ≡ false) × HasDistinctKeys entries

  -- The map has every entry of the list.
  abbrev pub HasEntries : Map A → Map A → Type ℓ
  HasEntries entries [] = Unit
  HasEntries entries ((key, value) ∷ part) =
      (lookup key entries ≡ some value) × HasEntries entries part

  pub HasEntries-cons :
      (key : Name) (value : A) (entries part : Map A)
      → contains_key key part ≡ false
      → HasEntries entries part
      → HasEntries ((key, value) ∷ entries) part
  HasEntries-cons key value entries [] out h = tt
  HasEntries-cons key value entries ((k, v) ∷ part) out (h, hs) =
      (ground arith, HasEntries-cons key value entries part (ground arith) hs)

  pub distinct-HasEntries : (entries : Map A) → HasDistinctKeys entries → HasEntries entries entries
  distinct-HasEntries [] d = tt
  distinct-HasEntries ((key, value) ∷ entries) (out, d) = (
    rw (==_refl key),
    HasEntries-cons key value entries entries out (distinct-HasEntries entries d),
  )

  pub contains_key-lookup :
      (name : Name) (entries : Map A) (value : A)
      → lookup name entries ≡ some value
      → contains_key name entries ≡ true
  contains_key-lookup name [] value h = absurd cc
  contains_key-lookup name ((key, v) ∷ entries) value h =
      let later = contains_key-lookup name entries value in ground arith

  pub contains_key-insert :
      (name key : Name) (new : A) (entries : Map A)
      → contains_key name (insert key new entries) ≡ ((key == name) || contains_key name entries)
  contains_key-insert name key new [] = refl
  contains_key-insert name key new ((k, v) ∷ entries) =
      let later = contains_key-insert name key new entries in ground arith

  pub insert-HasDistinctKeys :
      (key : Name) (new : A) (entries : Map A)
      → HasDistinctKeys entries
      → HasDistinctKeys (insert key new entries)
  insert-HasDistinctKeys key new [] d = (refl, tt)
  insert-HasDistinctKeys key new ((k, v) ∷ entries) (out, d) =
      let later = insert-HasDistinctKeys key new entries d in
      let at = contains_key-insert k key new entries in ground arith

  -- Every name is a key.
  abbrev pub HasKeys : Map A → List Name → Type 0
  HasKeys entries [] = Unit {0}
  HasKeys entries (name ∷ names) = (contains_key name entries ≡ true) × HasKeys entries names

  pub entries-HasKeys :
      (entries part : Map A) → HasEntries entries part → HasKeys entries (keys part)
  entries-HasKeys entries [] h = tt
  entries-HasKeys entries ((key, value) ∷ part) (h, hs) =
      (contains_key-lookup key entries value h, entries-HasKeys entries part hs)

  -- the value at a key, or another
  abbrev pub at_or : A → Map A → Name → A
  at_or other [] name = other
  at_or other ((key, value) ∷ entries) name =
      let rest = at_or other entries name in if key == name then value else rest

  pub lookup-at_or :
      (other : A) (name : Name) (entries : Map A)
      → contains_key name entries ≡ true
      → lookup name entries ≡ some (at_or other entries name)
  lookup-at_or other name [] h = absurd cc
  lookup-at_or other name ((key, value) ∷ entries) h =
      let later = lookup-at_or other name entries in ground arith
