-- ===== src/Ursa/Builders/Built.antt =====
-- What the builders of schemas and of values give.
use smartchaindb_driver.Prelude.{
  ◌≡◌, refl, ◌∙◌, Bool, ◌||◌, List, [], ◌∷◌, ◌==◌, Outcome, ok, ok-injective, arith, subst,
}
use smartchaindb_driver.Zmix.Selection.{contains}
use smartchaindb_driver.Ursa.Errors.{UrsaCryptoError}
use smartchaindb_driver.Ursa.Names.{Name, Map, lookup, keys}
use smartchaindb_driver.Ursa.NameSets.{add_name, IsSorted, add_name-IsSorted, contains-add_name}
use smartchaindb_driver.Ursa.Primary.{CredentialValue, known, hidden, commitment}
use smartchaindb_driver.Ursa.Builders.{
  CredentialSchemaBuilder, add_attr, finalize_schema, insert_sorted, CredentialValuesBuilder,
  new_values_builder, finalize_values, add_value_known, add_value_hidden, add_value_commitment,
  add_dec_known, add_dec_hidden, add_dec_commitment,
}

module _ {ℓ} {A : Type ℓ} where
  keys-insert_sorted :
      (x : Name) (a : A) (entries : Map A)
      → keys (insert_sorted x a entries) ≡ add_name x (keys entries)
  keys-insert_sorted x a [] = refl
  keys-insert_sorted x a ((key, value) ∷ entries) =
      let later = keys-insert_sorted x a entries in ground arith

  lookup-insert_sorted :
      (k x : Name) (a : A) (entries : Map A)
      → lookup k (insert_sorted x a entries) ≡ lookup k ((x, a) ∷ entries)
  lookup-insert_sorted k x a [] = refl
  lookup-insert_sorted k x a ((key, value) ∷ entries) =
      let later = lookup-insert_sorted k x a entries in ground arith

  -- The map is sorted and has what was last given for each name.
  abbrev pub HasLast : Map A → Map A → Type ℓ
  HasLast history entries =
      IsSorted (keys entries) × ((name : Name) → lookup name entries ≡ lookup name history)

  insert_sorted-HasLast :
      (x : Name) (a : A) (history entries : Map A)
      → HasLast history entries
      → HasLast ((x, a) ∷ history) (insert_sorted x a entries)
  insert_sorted-HasLast x a history entries (sorted, same) = (
    rw (keys-insert_sorted x a entries) (add_name-IsSorted x (keys entries) sorted),
    λ name. lookup-insert_sorted name x a entries ∙ (rw (same name)),
  )

-- The builders that the additions reach, each with what was added, the last first.
module _ {Z Text : Type 0} (from_dec : Text → Outcome UrsaCryptoError Z) where
  pub data Reaches : Map (CredentialValue Z) → CredentialValuesBuilder Z → Type 0 where
    started : Reaches [] (new_values_builder Z)
    value_known :
        (history : Map (CredentialValue Z)) (b : CredentialValuesBuilder Z) (attr : Name)
        (value : Z)
        → Reaches history b
        → Reaches ((attr, known value) ∷ history) (add_value_known b attr value)
    value_hidden :
        (history : Map (CredentialValue Z)) (b : CredentialValuesBuilder Z) (attr : Name)
        (value : Z)
        → Reaches history b
        → Reaches ((attr, hidden value) ∷ history) (add_value_hidden b attr value)
    value_commitment :
        (history : Map (CredentialValue Z)) (b : CredentialValuesBuilder Z) (attr : Name)
        (value blinding_factor : Z)
        → Reaches history b
        → Reaches
            ((attr, commitment value blinding_factor) ∷ history)
            (add_value_commitment b attr value blinding_factor)
    dec_known :
        (history : Map (CredentialValue Z)) (b c : CredentialValuesBuilder Z) (attr : Name)
        (text : Text) (value : Z)
        → Reaches history b
        → from_dec text ≡ ok value
        → add_dec_known from_dec b attr text ≡ ok c
        → Reaches ((attr, known value) ∷ history) c
    dec_hidden :
        (history : Map (CredentialValue Z)) (b c : CredentialValuesBuilder Z) (attr : Name)
        (text : Text) (value : Z)
        → Reaches history b
        → from_dec text ≡ ok value
        → add_dec_hidden from_dec b attr text ≡ ok c
        → Reaches ((attr, hidden value) ∷ history) c
    dec_commitment :
        (history : Map (CredentialValue Z)) (b c : CredentialValuesBuilder Z) (attr : Name)
        (text blinding_text : Text) (value blinding_factor : Z)
        → Reaches history b
        → from_dec text ≡ ok value
        → from_dec blinding_text ≡ ok blinding_factor
        → add_dec_commitment from_dec b attr text blinding_text ≡ ok c
        → Reaches ((attr, commitment value blinding_factor) ∷ history) c

  -- The values of a builder that additions of values and of decimals reach are sorted by name, and have for each
  -- name the value that was last added for it, if any.
  pub Reaches-HasLast :
      (history : Map (CredentialValue Z)) (b : CredentialValuesBuilder Z)
      → Reaches history b
      → HasLast history (finalize_values Z b).attrs_values
  unfolding finalize_values add_value_known add_value_hidden add_value_commitment add_dec_known
      add_dec_hidden add_dec_commitment
  Reaches-HasLast _ _ started = (tt, λ name. refl)
  Reaches-HasLast _ _ (value_known history b attr value r) =
      insert_sorted-HasLast attr (known value) history b.attrs_values (Reaches-HasLast history b r)
  Reaches-HasLast _ _ (value_hidden history b attr value r) =
      insert_sorted-HasLast attr (hidden value) history b.attrs_values (Reaches-HasLast history b r)
  Reaches-HasLast _ _ (value_commitment history b attr value blinding_factor r) =
      insert_sorted-HasLast attr (commitment value blinding_factor) history b.attrs_values
        (Reaches-HasLast history b r)
  Reaches-HasLast _ _ (dec_known history b c attr text value r read e) =
      subst (λ d. HasLast ((attr, known value) ∷ history) d.attrs_values)
        (ok-injective (rw read at e))
        (insert_sorted-HasLast attr (known value) history b.attrs_values
          (Reaches-HasLast history b r))
  Reaches-HasLast _ _ (dec_hidden history b c attr text value r read e) =
      subst (λ d. HasLast ((attr, hidden value) ∷ history) d.attrs_values)
        (ok-injective (rw read at e))
        (insert_sorted-HasLast attr (hidden value) history b.attrs_values
          (Reaches-HasLast history b r))
  Reaches-HasLast _ _
        (dec_commitment history b c attr text blinding_text value blinding_factor r read read' e) =
      subst (λ d. HasLast ((attr, commitment value blinding_factor) ∷ history) d.attrs_values)
        (ok-injective (rw (read, read') at e))
        (insert_sorted-HasLast attr (commitment value blinding_factor) history b.attrs_values
          (Reaches-HasLast history b r))

-- the calls of a client
abbrev add_attrs : CredentialSchemaBuilder → List Name → CredentialSchemaBuilder
add_attrs self [] = self
add_attrs self (attr ∷ attrs) = add_attrs (add_attr self attr) attrs

-- The schema is sorted and has the attributes that the builder had and those that are added.
add_attrs-IsSorted :
    (self : CredentialSchemaBuilder) (added : List Name)
    → IsSorted self.attrs
    → IsSorted (finalize_schema (add_attrs self added)).attrs
      × ((name : Name)
          → contains (finalize_schema (add_attrs self added)).attrs name
            ≡ (contains added name || contains self.attrs name))
unfolding finalize_schema add_attr
add_attrs-IsSorted self [] h = (h, λ name. refl)
add_attrs-IsSorted self (attr ∷ added) h =
    let (sorted, has) =
      add_attrs-IsSorted (add_attr self attr) added (add_name-IsSorted attr self.attrs h) in
    (
      sorted,
      λ name.
          has name
          ∙ (rw (contains-add_name name attr self.attrs)
              (swap (contains added name) (name == attr) (contains self.attrs name))),
    )
  where
    swap : (a b c : Bool) → (a || (b || c)) ≡ ((b || a) || c)
    swap a b c = ground arith
