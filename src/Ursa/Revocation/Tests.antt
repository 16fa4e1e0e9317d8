-- ===== src/Ursa/Revocation/Tests.antt =====
-- A registry of two credentials over the integers modulo 3, and the theorems at concrete inputs.
use smartchaindb_driver.Prelude.{
  ℕ, zero, suc, ◌≡◌, ◌≢◌, refl, ◌⊎◌, true, false, some, none, List, [], ◌∷◌, ok, err, ◌>>=◌, arith,
}
use smartchaindb_driver.Amcl.Mod3.{Residue, r0, r1, r2, field3, group3}
use smartchaindb_driver.Zmix.Selection.{contains}
use smartchaindb_driver.Ursa.Errors.{incorrect_data, deltas_can_not_be_merged}
use smartchaindb_driver.Ursa.Pair.{transform_u32_to_array_of_u8, bytes_below, element_from_bytes}
use smartchaindb_driver.Ursa.Pair.Mod3.{curve3}
use smartchaindb_driver.Ursa.Revocation.{
  CredentialRevocationPublicKey, CredentialRevocationPrivateKey, RevocationRegistry,
  RevocationRegistryDelta, Witness,
}
use smartchaindb_driver.Ursa.Revocation.Delta.{merge, applied, Fits, merge_lem}
use smartchaindb_driver.Ursa.Revocation.Tails.{
  new_generator, index_power, new_tail, collect_tails, access_tail,
}
use smartchaindb_driver.Ursa.Revocation.Tails.Laws.{IsTails, collect_tails_lem}
use smartchaindb_driver.Ursa.Revocation.Sums.{IsCredentials}
use smartchaindb_driver.Ursa.Revocation.Issuer.{
  get_index, new_revocation_registry_keys, add_all_tails, new_revocation_registry,
  revoke_credential, sign_index,
}
use smartchaindb_driver.Ursa.Revocation.Registry.{
  IsBalance, Reaches, created, revoked, Reaches-IsBalance,
}
use smartchaindb_driver.Ursa.Revocation.Holder.{IsWitness, Same, new-IsWitness, update-IsWitness}
use smartchaindb_driver.Ursa.Revocation.Witnesses
use smartchaindb_driver.Ursa.Revocation.Witnesses.{update}
use smartchaindb_driver.Ursa.Revocation.Prover.{process_non_revocation_credential, blinded_secrets}
use smartchaindb_driver.Ursa.Revocation.Sound.Checks.{AreKeys, key_of}
use smartchaindb_driver.Ursa.Revocation.Sound.{
  signature_of, signed_credential_accepted, revoked_credential_refused,
}

abbrev public : CredentialRevocationPublicKey group3 group3
public = record {
  g = r1;
  g_dash = r1;
  h = r1;
  h0 = r1;
  h1 = r2;
  h2 = r1;
  htilde = r1;
  h_cap = r1;
  u = r1;
  pk = r2;
  y = r1;
}

abbrev private : CredentialRevocationPrivateKey field3
private = record { x = r1; sk = r2 }

keys : AreKeys public private
keys = record { pk-eq = refl; y-eq = refl }

-- the tails of gamma = 2
abbrev tails : List Residue
tails = r1 ∷ r2 ∷ r1 ∷ r2 ∷ r1 ∷ []

tails-IsTails : IsTails group3 r1 r2 tails 2
tails-IsTails zero h = refl
tails-IsTails (suc zero) h = refl
tails-IsTails (suc (suc zero)) h = refl
tails-IsTails (suc (suc (suc zero))) h = refl
tails-IsTails (suc (suc (suc (suc zero)))) h = refl
tails-IsTails (suc (suc (suc (suc (suc k))))) h = absurd (omega arith)

collect_tails_example :
    (found : List Residue) × (collect_tails curve3 6 (new_generator 2 r2 r1) ≡ ok (some found))
    × IsTails group3 r1 r2 found 2
collect_tails_example = collect_tails_lem curve3 2 6 r1 r2 (omega arith) (omega arith)

-- both credentials are valid, then the second one is revoked
abbrev both : RevocationRegistry group3
both = record { accum = r0 }

abbrev first_only : RevocationRegistry group3
first_only = record { accum = r1 }

both_created : new_revocation_registry curve3 public (record { gamma = r2 }) 2 true ≡ ok both
unfolding new_revocation_registry add_all_tails new_tail index_power get_index
    transform_u32_to_array_of_u8 bytes_below element_from_bytes
both_created = refl

abbrev revocation : RevocationRegistryDelta group3
revocation = record { prev_accum = some r0; accum = r1; issued = []; revoked = 2 ∷ [] }

second_revoked : revoke_credential curve3 both 2 2 tails ≡ ok (revocation, first_only)
unfolding revoke_credential get_index access_tail
second_revoked = refl

abbrev reached : Reaches curve3 public r2 2 tails first_only (1 ∷ 2 ∷ []) (2 ∷ [])
reached =
    revoked both first_only (1 ∷ 2 ∷ []) [] 2 revocation (created true both both_created)
      second_revoked

-- the same credential once more
abbrev again : RevocationRegistryDelta group3
again = record { prev_accum = some r1; accum = r2; issued = []; revoked = 2 ∷ [] }

abbrev twice : RevocationRegistry group3
twice = record { accum = r2 }

revoked_twice : revoke_credential curve3 first_only 2 2 tails ≡ ok (again, twice)
unfolding revoke_credential get_index access_tail
revoked_twice = refl

Reaches-IsBalance_example : IsBalance curve3 public r2 2 twice (1 ∷ 2 ∷ []) (2 ∷ 2 ∷ [])
Reaches-IsBalance_example =
    Reaches-IsBalance curve3 public r2 2 tails refl tails-IsTails twice (1 ∷ 2 ∷ []) (2 ∷ 2 ∷ [])
      (revoked first_only twice (1 ∷ 2 ∷ []) (2 ∷ []) 2 again reached revoked_twice)

pair_set : IsCredentials (1 ∷ 2 ∷ []) 2
pair_set = (refl, omega arith, omega arith, (refl, omega arith, omega arith, tt))

one_set : IsCredentials (1 ∷ []) 2
one_set = (refl, omega arith, omega arith, tt)

two_set : IsCredentials (2 ∷ []) 2
two_set = (refl, omega arith, omega arith, tt)

abbrev start : RevocationRegistryDelta group3
start = record { prev_accum = none; accum = r0; issued = []; revoked = [] }

same : Same (1 ∷ 2 ∷ []) (2 ∷ 1 ∷ [])
same k = ground arith

swapped_set : IsCredentials (2 ∷ 1 ∷ []) 2
swapped_set = (refl, omega arith, omega arith, (refl, omega arith, omega arith, tt))

new-IsWitness_example :
    (witness : Witness group3) × (Witnesses.new group3 1 2 true start tails ≡ ok witness)
    × IsWitness group3 r1 r2 2 1 witness (2 ∷ 1 ∷ [])
new-IsWitness_example =
    new-IsWitness group3 r1 r2 2 tails (omega arith) tails-IsTails 1 (omega arith) true start
      (2 ∷ 1 ∷ []) pair_set swapped_set same

abbrev witness : Witness group3
witness = record { omega = r1 }

is_witness : IsWitness group3 r1 r2 2 1 witness (1 ∷ 2 ∷ [])
is_witness = refl

revoked_lives : (k : ℕ) → contains (2 ∷ []) k ≡ true → contains (1 ∷ 2 ∷ []) k ≡ true
revoked_lives k e = ground arith

issued_none : (k : ℕ) → contains [] k ≡ true → contains (1 ∷ 2 ∷ []) k ≡ false
issued_none k e = cc

revocation-Fits : Fits revocation (contains (1 ∷ 2 ∷ []))
revocation-Fits = record { issued_new = issued_none; revoked_live = revoked_lives }

one_after : (k : ℕ) → contains (1 ∷ []) k ≡ applied revocation (contains (1 ∷ 2 ∷ [])) k
one_after k = ground arith

update-IsWitness_example :
    (witness' : Witness group3) × (update group3 witness 1 2 revocation tails ≡ ok witness')
    × IsWitness group3 r1 r2 2 1 witness' (1 ∷ [])
update-IsWitness_example =
    update-IsWitness group3 r1 r2 2 tails (omega arith) tails-IsTails 1 (omega arith) witness
      revocation (1 ∷ 2 ∷ []) (1 ∷ []) is_witness pair_set tt two_set one_set revocation-Fits
      one_after

r1-ne-r0 : r1 ≢ r0
r1-ne-r0 e = cc

r2-ne-r0 : r2 ≢ r0
r2-ne-r0 e = cc

signed_credential_accepted_example :
    (do
      keys ← new_revocation_registry_keys curve3 public 2 r2
      let blinded = blinded_secrets public r2
      signature ← sign_index curve3 blinded.0 public private keys.1.gamma 1 (7 ∷ 9 ∷ []) r1 r1
      processed ←
          process_non_revocation_credential curve3 signature blinded.1 public keys.0 both witness
      ok processed.vr_prime_prime)
    ≡ ok r0
signed_credential_accepted_example =
    signed_credential_accepted curve3 public private r2 2 1 (7 ∷ 9 ∷ []) r2 r1 r1 both witness
      (1 ∷ 2 ∷ []) keys (omega arith) (omega arith) (omega arith) r2-ne-r0 r1-ne-r0 pair_set refl
      refl is_witness

-- the second holder's sum for the first credential alone
abbrev stale : Witness group3
stale = record { omega = r1 }

revoked_credential_refused_example :
    process_non_revocation_credential curve3
      (signature_of curve3 public private r2 2 2 r1 r1 r1 r1)
      r1
      public
      (key_of curve3 public private r2 2 2)
      first_only
      stale
    ≡ err incorrect_data
revoked_credential_refused_example =
    revoked_credential_refused curve3 public private r2 2 2
      (signature_of curve3 public private r2 2 2 r1 r1 r1 r1) r1 first_only stale (1 ∷ []) refl
      r2-ne-r0 refl refl refl

-- the second credential is revoked, then issued again
abbrev recovery : RevocationRegistryDelta group3
recovery = record { prev_accum = some r1; accum = r0; issued = 2 ∷ []; revoked = [] }

recovery_new :
    (k : ℕ) → contains (2 ∷ []) k ≡ true → applied revocation (contains (1 ∷ 2 ∷ [])) k ≡ false
recovery_new k e = ground arith

recovery_none : (k : ℕ) → contains [] k ≡ true → applied revocation (contains (1 ∷ 2 ∷ [])) k ≡ true
recovery_none k e = cc

recovery-Fits : Fits recovery (applied revocation (contains (1 ∷ 2 ∷ [])))
recovery-Fits = record { issued_new = recovery_new; revoked_live = recovery_none }

merge_example :
    (recovery.prev_accum ≢ some revocation.accum)
      × (merge curve3 revocation recovery ≡ err deltas_can_not_be_merged)
    ⊎ (recovery.prev_accum ≡ some revocation.accum)
      × (merged : RevocationRegistryDelta group3) × (merge curve3 revocation recovery ≡ ok merged)
      × (merged.accum ≡ r0)
      × (merged.prev_accum ≡ some r0)
      × Fits merged (contains (1 ∷ 2 ∷ []))
      × ((k : ℕ)
          → applied merged (contains (1 ∷ 2 ∷ [])) k
            ≡ applied recovery (applied revocation (contains (1 ∷ 2 ∷ []))) k)
merge_example =
    merge_lem curve3 revocation recovery (contains (1 ∷ 2 ∷ [])) revocation-Fits recovery-Fits
