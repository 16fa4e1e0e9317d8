-- ===== src/Ursa/Builders.antt =====
-- The builders of credential schemas and of credential values: ursa_Master/libursa/src/cl/mod.rs.
pub mod Built
mod Tests
use smartchaindb_driver.Prelude.{Bool, List, [], ◌∷◌, ◌==◌, ltb, if◌then◌else◌, Outcome, ok, ◌>>=◌}
use smartchaindb_driver.Ursa.Errors.{UrsaCryptoError}
use smartchaindb_driver.Ursa.Names.{Name, Map}
use smartchaindb_driver.Ursa.NameSets.{add_name}
use smartchaindb_driver.Ursa.Primary.{CredentialValue, known, hidden, commitment}

pub record CredentialSchema : Type 0 where
  pub attrs : List Name

pub record CredentialSchemaBuilder : Type 0 where
  pub attrs : List Name

abbrev pub new_schema_builder : CredentialSchemaBuilder
new_schema_builder = record { attrs = [] }

unfoldable pub add_attr : CredentialSchemaBuilder → Name → CredentialSchemaBuilder
add_attr self attr = record { attrs = add_name attr self.attrs }

unfoldable pub finalize_schema : CredentialSchemaBuilder → CredentialSchema
finalize_schema self = record { attrs = self.attrs }

pub record NonCredentialSchema : Type 0 where
  pub attrs : List Name

pub record NonCredentialSchemaBuilder : Type 0 where
  pub attrs : List Name

abbrev pub new_non_schema_builder : NonCredentialSchemaBuilder
new_non_schema_builder = record { attrs = [] }

unfoldable pub add_non_schema_attr : NonCredentialSchemaBuilder → Name → NonCredentialSchemaBuilder
add_non_schema_attr self attr = record { attrs = add_name attr self.attrs }

unfoldable pub finalize_non_schema : NonCredentialSchemaBuilder → NonCredentialSchema
finalize_non_schema self = record { attrs = self.attrs }

-- `map.insert(name, value)` of a `BTreeMap`, in the order of its iteration
abbrev pub insert_sorted {ℓ} : {A : Type ℓ} → Name → A → Map A → Map A
insert_sorted name new [] = (name, new) ∷ []
insert_sorted name new ((key, value) ∷ entries) =
    let rest = insert_sorted name new entries in
    if ltb name key
    then (name, new) ∷ (key, value) ∷ entries
    else if name == key
    then (key, new) ∷ entries
    else (key, value) ∷ rest

module _ (Z : Type 0) where
  pub record CredentialValues : Type 0 where
    pub attrs_values : Map (CredentialValue Z)

  pub record CredentialValuesBuilder : Type 0 where
    pub attrs_values : Map (CredentialValue Z)

  abbrev pub new_values_builder : CredentialValuesBuilder
  new_values_builder = record { attrs_values = [] }

  unfoldable pub finalize_values : CredentialValuesBuilder → CredentialValues
  finalize_values self = record { attrs_values = self.attrs_values }

module _ {Z : Type 0} where
  unfoldable pub add_value_known : CredentialValuesBuilder Z → Name → Z → CredentialValuesBuilder Z
  add_value_known self attr value = record {
    attrs_values = insert_sorted attr (known value) self.attrs_values;
  }

  unfoldable pub add_value_hidden : CredentialValuesBuilder Z → Name → Z → CredentialValuesBuilder Z
  add_value_hidden self attr value = record {
    attrs_values = insert_sorted attr (hidden value) self.attrs_values;
  }

  unfoldable pub add_value_commitment :
      CredentialValuesBuilder Z → Name → Z → Z → CredentialValuesBuilder Z
  add_value_commitment self attr value blinding_factor = record {
    attrs_values = insert_sorted attr (commitment value blinding_factor) self.attrs_values;
  }

-- `from_dec` reads the decimals of a text.
module _ {Z Text : Type 0} (from_dec : Text → Outcome UrsaCryptoError Z) where
  unfoldable pub add_dec_known :
      CredentialValuesBuilder Z → Name → Text → Outcome UrsaCryptoError (CredentialValuesBuilder Z)
  add_dec_known self attr text = do
    value ← from_dec text
    ok (record { attrs_values = insert_sorted attr (known value) self.attrs_values })

  unfoldable pub add_dec_hidden :
      CredentialValuesBuilder Z → Name → Text → Outcome UrsaCryptoError (CredentialValuesBuilder Z)
  add_dec_hidden self attr text = do
    value ← from_dec text
    ok (record { attrs_values = insert_sorted attr (hidden value) self.attrs_values })

  unfoldable pub add_dec_commitment :
      CredentialValuesBuilder Z
      → Name
      → Text
      → Text
      → Outcome UrsaCryptoError (CredentialValuesBuilder Z)
  add_dec_commitment self attr text blinding_text = do
    value ← from_dec text
    blinding_factor ← from_dec blinding_text
    ok (record {
      attrs_values = insert_sorted attr (commitment value blinding_factor) self.attrs_values;
    })
