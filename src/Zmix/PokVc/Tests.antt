-- ===== src/Zmix/PokVc/Tests.antt =====
-- Runs of the protocol over the integers modulo 3, and the theorems at concrete inputs.
use smartchaindb_driver.Prelude.{◌≡◌, ◌≢◌, refl, true, some, none, [], ◌∷◌, ok, err, ◌>>=◌, arith}
use smartchaindb_driver.Amcl.Sums.{sum_of}
use smartchaindb_driver.Amcl.Mod3.{r0, r1, r2, group3}
use smartchaindb_driver.Zmix.PokVc.{
  ProverCommitting, Proof, new, commit, finish, gen_proof, verify, get_index,
  unequal_no_of_bases_exponents,
}
use smartchaindb_driver.Zmix.PokVc.Verify.{proof_complete, verify_unequal, get_index-commit}
use smartchaindb_driver.Zmix.PokVc.Extract.{special_soundness, extract}

abbrev two_gens : ProverCommitting group3
two_gens = record { gens = r1 ∷ r2 ∷ []; blindings = r2 ∷ r2 ∷ [] }

two_gens_built : (commit (commit new r1 (some r2) r0).0 r2 none r2).0 ≡ two_gens
unfolding commit new
two_gens_built = refl

proof_complete_example :
    (do
      committed ← finish two_gens
      proof ← gen_proof committed r2 (r1 ∷ r2 ∷ [])
      verify proof (r1 ∷ r2 ∷ []) (sum_of group3 (r1 ∷ r2 ∷ []) (r1 ∷ r2 ∷ [])) r2)
    ≡ ok true
proof_complete_example = proof_complete group3 two_gens r2 (r1 ∷ r2 ∷ []) refl refl

abbrev proof_1 : Proof group3
proof_1 = record { commitment = r0; responses = r1 ∷ r0 ∷ [] }

abbrev proof_2 : Proof group3
proof_2 = record { commitment = r0; responses = r2 ∷ r0 ∷ [] }

accepted_1 : verify proof_1 (r1 ∷ r2 ∷ []) r2 r1 ≡ ok true
unfolding verify
accepted_1 = refl

accepted_2 : verify proof_2 (r1 ∷ r2 ∷ []) r2 r2 ≡ ok true
unfolding verify
accepted_2 = refl

special_soundness_example :
    sum_of group3 (r1 ∷ r2 ∷ []) (extract group3 (r1 ∷ r0 ∷ []) (r2 ∷ r0 ∷ []) r1 r2) ≡ r2
special_soundness_example =
    special_soundness group3 proof_1 proof_2 (r1 ∷ r2 ∷ []) r2 r1 r2 refl refl refl r1-ne-r2
      accepted_1 accepted_2
  where
    r1-ne-r2 : r1 ≢ r2
    r1-ne-r2 e = cc

verify_unequal_example : verify proof_1 (r1 ∷ []) r2 r1 ≡ err (unequal_no_of_bases_exponents 1 2)
verify_unequal_example = verify_unequal group3 proof_1 (r1 ∷ []) r2 r1 (omega arith)

get_index-commit_example :
    let (c', idx) = commit two_gens r1 none r1 in get_index c' idx ≡ ok (r1, r1)
get_index-commit_example = get_index-commit group3 two_gens r1 none r1 refl
