-- ===== src/Ursa/Primary/Equality/Consistent.antt =====
-- What the consistency check of a request establishes, and maps with sorted keys.
use smartchaindb_driver.Prelude.{◌≡◌, refl, sym, ◌∙◌, true, false, List, [], ◌∷◌, ok, arith}
use smartchaindb_driver.Zmix.Selection.{contains}
use smartchaindb_driver.Ursa.Names.{Name, Map, keys, HasDistinctKeys}
use smartchaindb_driver.Ursa.NameSets.{union, equal_names-eq, IsSorted, contains-IsAbove}
use smartchaindb_driver.Ursa.Revocation.Sets.{difference, contains-difference}
use smartchaindb_driver.Ursa.Primary.{CredentialValue}
use smartchaindb_driver.Ursa.Primary.Equality.{
  has_any, check_add_sub_proof_request_params_consistency,
}
use smartchaindb_driver.Ursa.Primary.Equality.Tables.{contains-keys}

-- What the consistency check of a request has established.
pub record IsConsistent (ks schema non_schema revealed : List Name) : Type 0 where
  pub schema_eq : union non_schema schema ≡ ks
  pub within : (k : Name) → contains revealed k ≡ true → contains ks k ≡ true

has_any-contains : (names : List Name) (k : Name) → has_any names ≡ false → contains names k ≡ false
has_any-contains [] k h = refl
has_any-contains (name ∷ names) k h = absurd cc

has_any-difference :
    (names others : List Name)
    → has_any (difference names others) ≡ false
    → (k : Name) → contains names k ≡ true
    → contains others k ≡ true
has_any-difference names others h k there =
    let at = contains-difference k names others in
    let none = has_any-contains (difference names others) k h in ground arith

pub check-IsConsistent :
    {Z : Type 0} (values : Map (CredentialValue Z))
    (schema non_schema revealed predicates : List Name)
    → check_add_sub_proof_request_params_consistency values revealed predicates schema non_schema
      ≡ ok tt
    → IsConsistent (keys values) schema non_schema revealed
unfolding check_add_sub_proof_request_params_consistency
check-IsConsistent values schema non_schema revealed predicates h = record {
  schema_eq = equal_names-eq _ _ (ground arith);
  within = has_any-difference revealed (keys values) (ground arith);
}

pub sorted-HasDistinctKeys :
    {A : Type 0} (entries : Map A) → IsSorted (keys entries) → HasDistinctKeys entries
sorted-HasDistinctKeys [] h = tt
sorted-HasDistinctKeys ((k, x) ∷ entries) (h, hs) = (
  sym (contains-keys k entries) ∙ contains-IsAbove k (keys entries) h,
  sorted-HasDistinctKeys entries hs,
)
