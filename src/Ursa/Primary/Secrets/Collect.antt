-- ===== src/Ursa/Primary/Secrets/Collect.antt =====
-- The maps that the proof of the blinded secrets makes from the values of a credential, in one form.
use smartchaindb_driver.Prelude.{ℕ, suc, ◌≡◌, refl, false, ◌==◌, Option, some, none, [], ◌∷◌, arith}
use smartchaindb_driver.Ursa.Names.{Name, Map, contains_key, HasDistinctKeys}
use smartchaindb_driver.Ursa.Primary.{CredentialValue, known, hidden, commitment}

module _ {Z : Type 0} where
  -- the draws that a value takes
  abbrev pub next : CredentialValue Z → ℕ → ℕ
  next (known value) i = i
  next (hidden value) i = suc i
  next (commitment value blinding_factor) i = suc (suc i)

  abbrev pub cons_if : Name → Option Z → Map Z → Map Z
  cons_if attr (some x) entries = (attr, x) ∷ entries
  cons_if attr none entries = entries

  -- An entry for each attribute where `f` has a number for its value and the next draw.
  abbrev pub collect : (CredentialValue Z → ℕ → Option Z) → ℕ → Map (CredentialValue Z) → Map Z
  collect f i [] = []
  collect f i ((attr, value) ∷ rest) = cons_if attr (f value i) (collect f (next value i) rest)

  contains_key-cons_if :
      (name attr : Name) (x : Option Z) (entries : Map Z)
      → (attr == name) ≡ false
      → contains_key name entries ≡ false
      → contains_key name (cons_if attr x entries) ≡ false
  contains_key-cons_if name attr none entries e h = h
  contains_key-cons_if name attr (some x) entries e h = rw (e, h)

  pub contains_key-collect :
      (f : CredentialValue Z → ℕ → Option Z) (name : Name) (i : ℕ)
      (values : Map (CredentialValue Z))
      → contains_key name values ≡ false
      → contains_key name (collect f i values) ≡ false
  contains_key-collect f name i [] h = refl
  contains_key-collect f name i ((attr, value) ∷ rest) h =
      contains_key-cons_if name attr (f value i) _ (ground arith)
        (contains_key-collect f name (next value i) rest (ground arith))

  cons_if-HasDistinctKeys :
      (attr : Name) (x : Option Z) (entries : Map Z)
      → contains_key attr entries ≡ false
      → HasDistinctKeys entries
      → HasDistinctKeys (cons_if attr x entries)
  cons_if-HasDistinctKeys attr none entries e h = h
  cons_if-HasDistinctKeys attr (some x) entries e h = (e, h)

  pub collect-HasDistinctKeys :
      (f : CredentialValue Z → ℕ → Option Z) (i : ℕ) (values : Map (CredentialValue Z))
      → HasDistinctKeys values
      → HasDistinctKeys (collect f i values)
  collect-HasDistinctKeys f i [] d = tt
  collect-HasDistinctKeys f i ((attr, value) ∷ rest) (out, d) =
      cons_if-HasDistinctKeys attr (f value i) _
        (contains_key-collect f attr (next value i) rest out)
        (collect-HasDistinctKeys f (next value i) rest d)
