-- ===== src/Zmix/Bbs/PokSig/Tests.antt =====
-- A proof over the integers modulo 3, and the theorem at a concrete input.
use smartchaindb_driver.Prelude.{
  ℕ, zero, suc, ◌≡◌, ◌≢◌, refl, true, none, some, List, [], ◌∷◌, length, get_elem?, if◌then◌else◌,
  ok, ◌>>=◌, arith,
}
use smartchaindb_driver.Amcl.Mod3.{Residue, r0, r1, r2, group3, pairing3}
use smartchaindb_driver.Zmix.Selection.{Reveals, contains, get}
use smartchaindb_driver.Zmix.Bbs.Keys.{message_count, validate}
use smartchaindb_driver.Zmix.Bbs.Signature.{Signature, new}
use smartchaindb_driver.Zmix.Bbs.Signature
use smartchaindb_driver.Zmix.Bbs.Signature.Tests.{key, pair}
use smartchaindb_driver.Zmix.Bbs.PokSig.{init, gen_proof, verify}
use smartchaindb_driver.Zmix.Bbs.PokSig.Complete.{pok_of_signature_complete}

agrees :
    (i : ℕ)
    → get ((1, r2) ∷ []) i ≡ (if contains (1 ∷ []) i then get_elem? (r1 ∷ r2 ∷ []) i else none)
agrees zero = refl
agrees (suc zero) = refl
agrees (suc (suc i)) = ground arith

-- the second message is revealed
reveals : Reveals ((1, r2) ∷ []) (1 ∷ []) (r1 ∷ r2 ∷ [])
reveals = record { agrees = agrees }

fitting : (b : List Residue) → (some (r2 ∷ [])) ≡ some b → length b ≡ 1
fitting b e = cc

abbrev signed : Signature group3
signed = record { a = r1; e = r2; s = r2 }

accepted : Signature.verify pairing3 signed (r1 ∷ r2 ∷ []) key ≡ ok true
unfolding Signature.verify
accepted = refl

valid : validate key ≡ ok tt
unfolding validate
valid = refl

r1-ne-r0 : r1 ≢ r0
r1-ne-r0 e = cc

pok_of_signature_complete_example :
    (do
      pok ← init signed key (r1 ∷ r2 ∷ []) (some (r2 ∷ [])) (1 ∷ []) (λ i. r1)
      proof ← gen_proof pok r2
      verify pairing3 proof key ((1, r2) ∷ []) r2)
    ≡ ok true
unfolding message_count
pok_of_signature_complete_example =
    pok_of_signature_complete pairing3 signed key r2 (r1 ∷ r2 ∷ []) (some (r2 ∷ [])) (1 ∷ [])
      (λ i. r1) ((1, r2) ∷ []) r2 pair valid refl accepted r1-ne-r0 (refl, omega arith, tt) fitting
      r1-ne-r0 reveals
