-- ===== src/Ursa/Builders/Tests.antt =====
-- Values and a schema that are built in some order.
use smartchaindb_driver.Prelude.{ℕ, ◌≡◌, refl, [], ◌∷◌, Outcome, ok}
use smartchaindb_driver.Ursa.Errors.{UrsaCryptoError}
use smartchaindb_driver.Ursa.Names.{Map}
use smartchaindb_driver.Ursa.Primary.{CredentialValue, known, hidden}
use smartchaindb_driver.Ursa.Builders.{
  CredentialValuesBuilder, new_values_builder, finalize_values, add_value_hidden, add_dec_known,
  new_schema_builder, add_attr, finalize_schema, new_non_schema_builder, add_non_schema_attr,
  finalize_non_schema,
}
use smartchaindb_driver.Ursa.Builders.Built.{
  Reaches, started, value_hidden, dec_known, HasLast, Reaches-HasLast,
}

abbrev from_dec : ℕ → Outcome UrsaCryptoError ℕ
from_dec text = ok text

abbrev first : CredentialValuesBuilder ℕ
first = record { attrs_values = (3, hidden 7) ∷ [] }

abbrev second : CredentialValuesBuilder ℕ
second = record { attrs_values = (1, known 5) ∷ (3, hidden 7) ∷ [] }

abbrev third : CredentialValuesBuilder ℕ
third = record { attrs_values = (1, known 5) ∷ (3, known 9) ∷ [] }

first_added : add_value_hidden (new_values_builder ℕ) 3 7 ≡ first
unfolding add_value_hidden
first_added = refl

second_added : add_dec_known from_dec first 1 5 ≡ ok second
unfolding add_dec_known
second_added = refl

third_added : add_dec_known from_dec second 3 9 ≡ ok third
unfolding add_dec_known
third_added = refl

abbrev history : Map (CredentialValue ℕ)
history = (3, known 9) ∷ (1, known 5) ∷ (3, hidden 7) ∷ []

abbrev reached : Reaches from_dec history third
unfolding add_value_hidden
reached =
    dec_known _ second third 3 9 9
      (dec_known _ first second 1 5 5 (value_hidden _ _ 3 7 started) refl second_added) refl
      third_added

Reaches-HasLast_example : HasLast history (finalize_values ℕ third).attrs_values
Reaches-HasLast_example = Reaches-HasLast from_dec history third reached

schema_built :
    finalize_schema (add_attr (add_attr (add_attr new_schema_builder 4) 2) 4)
    ≡ record { attrs = 2 ∷ 4 ∷ [] }
unfolding add_attr finalize_schema
schema_built = refl

non_schema_built :
    finalize_non_schema (add_non_schema_attr new_non_schema_builder 0) ≡ record { attrs = 0 ∷ [] }
unfolding add_non_schema_attr finalize_non_schema
non_schema_built = refl
