-- ===== src/Zmix/Ps/PokSig/Tests.antt =====
-- A proof over the integers modulo 3, and the theorem at a concrete input.
use smartchaindb_driver.Prelude.{
  ℕ, zero, suc, ◌≡◌, refl, true, none, some, List, [], ◌∷◌, length, get_elem?, if◌then◌else◌, ok,
  panic, ◌>>=◌, arith,
}
use smartchaindb_driver.Amcl.Mod3.{Residue, r0, r1, r2, group3, pairing3}
use smartchaindb_driver.Zmix.Selection.{Reveals, contains, get}
use smartchaindb_driver.Zmix.Ps.Signature.{Signature}
use smartchaindb_driver.Zmix.Ps.Signature
use smartchaindb_driver.Zmix.Ps.Signature.Tests.{key, sigkey, pair, signature, r1-ne-r0, r2-ne-r0}
use smartchaindb_driver.Zmix.Ps.PokSig.{PoKOfSignatureProof, init, gen_proof, verify, hidden_bases}
use smartchaindb_driver.Zmix.PokVc
use smartchaindb_driver.Zmix.Ps.Keys.{validate}
use smartchaindb_driver.Zmix.Ps.PokSig.Beyond.{verify_beyond}
use smartchaindb_driver.Zmix.Ps.PokSig.Complete.{pok_of_ps_signature_complete}

-- the second message is revealed
agrees :
    (i : ℕ)
    → get ((1, r1) ∷ []) i ≡ (if contains (1 ∷ []) i then get_elem? (r1 ∷ r1 ∷ []) i else none)
agrees zero = refl
agrees (suc zero) = refl
agrees (suc (suc i)) = ground arith

reveals : Reveals ((1, r1) ∷ []) (1 ∷ []) (r1 ∷ r1 ∷ [])
reveals = record { agrees = agrees }

fitting : (b : List Residue) → (some (r2 ∷ [])) ≡ some b → length b ≡ 1
fitting b e = cc

accepted : Signature.verify pairing3 signature (r1 ∷ r1 ∷ []) key ≡ ok true
unfolding Signature.verify
accepted = refl

pok_of_ps_signature_complete_example :
    (do
      pok ← init signature key (r1 ∷ r1 ∷ []) (some (r2 ∷ [])) (1 ∷ []) (λ i. r1)
      proof ← gen_proof pok r2
      verify pairing3 proof key ((1, r1) ∷ []) r2)
    ≡ ok true
pok_of_ps_signature_complete_example =
    pok_of_ps_signature_complete pairing3 signature key sigkey r1 (r1 ∷ r2 ∷ []) (r1 ∷ r1 ∷ [])
      (some (r2 ∷ [])) (1 ∷ []) (λ i. r1) ((1, r1) ∷ []) r2 pair r1-ne-r0 refl accepted
      (refl, omega arith, tt) fitting r1-ne-r0 r2-ne-r0 (refl, tt) (omega arith, tt) reveals

abbrev forged : PoKOfSignatureProof group3 group3
forged = record {
  sig = record { sigma_1 = r1; sigma_2 = r1 };
  j = r0;
  proof_vc = record { commitment = r0; responses = r0 ∷ r0 ∷ r0 ∷ [] };
}

key_valid : validate key ≡ ok tt
unfolding validate
key_valid = refl

all_hidden : hidden_bases 2 0 (r1 ∷ r2 ∷ []) ((5, r1) ∷ []) ≡ ok (r1 ∷ r2 ∷ [])
unfolding hidden_bases
all_hidden = refl

committed_accepted : PokVc.verify forged.proof_vc (r1 ∷ r1 ∷ r2 ∷ []) r0 r1 ≡ ok true
unfolding PokVc.verify
committed_accepted = refl

verify_beyond_example : verify pairing3 forged key ((5, r1) ∷ []) r1 ≡ panic
verify_beyond_example =
    verify_beyond pairing3 forged key ((5, r1) ∷ []) r1 r1 5 (r1 ∷ r2 ∷ []) key_valid refl
      all_hidden committed_accepted (omega arith) refl
