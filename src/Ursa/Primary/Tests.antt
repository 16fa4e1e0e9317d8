-- ===== src/Ursa/Primary/Tests.antt =====
-- Keys, secrets and signatures over the integers modulo 6, with 3 as the modulus, and the theorems at
-- concrete inputs.
use smartchaindb_driver.Prelude.{ℕ, zero, suc, ◌≡◌, refl, Bool, true, false, [], ◌∷◌, ok, ◌>>=◌}
use smartchaindb_driver.Amcl.Mod3.{r1, r2}
use smartchaindb_driver.Ursa.BigNumber.{mod_div, get_pedersen_commitment}
use smartchaindb_driver.Ursa.BigNumber.Mod6.{Six, numbers6, residues3, order2, three, two}
use smartchaindb_driver.Ursa.Names.{Name, Map, at_or}
use smartchaindb_driver.Ursa.Primary.{
  CredentialPrimaryPrivateKey, CredentialValue, known, hidden, commitment, is_known, is_hidden,
  value_of, PrimaryCredentialSignature, SignatureCorrectnessProof,
}
use smartchaindb_driver.Ursa.Primary.Keys.{
  new_credential_primary_keys, new_credential_key_correctness_proof,
  check_credential_key_correctness_proof,
}
use smartchaindb_driver.Ursa.Primary.Keys.Accepted.{check_credential_key_correctness_proof-new}
use smartchaindb_driver.Ursa.Primary.Secrets.{
  generate_blinded_primary_credential_secrets_factors,
  new_blinded_credential_secrets_correctness_proof,
  check_blinded_credential_secrets_correctness_proof,
}
use smartchaindb_driver.Ursa.Primary.Secrets.Products.{pub_key_of}
use smartchaindb_driver.Ursa.Primary.Secrets.Accepted.{
  check_blinded_credential_secrets_correctness_proof-new,
}
use smartchaindb_driver.Ursa.Primary.Issue.{
  new_primary_credential, new_signature_correctness_proof, process_primary_credential,
  check_signature_correctness_proof,
}
use smartchaindb_driver.Ursa.Primary.Issue.Products.{pub_key}
use smartchaindb_driver.Ursa.Primary.Issue.Accepted.{check_signature_correctness_proof-new}
use smartchaindb_driver.Ursa.Primary.Issue.Equation.{
  Solves, check_signature_correctness_proof-Solves,
}

abbrev pub one : Six
one = (true, r1)

abbrev pub five : Six
five = (true, r2)

abbrev pub draws : ℕ → Six
draws zero = five
draws (suc zero) = three
draws (suc (suc i)) = one

check_credential_key_correctness_proof-new_example :
    (do
      made ← new_credential_primary_keys numbers6 three one two five draws (4 ∷ 7 ∷ []) (0 ∷ 4 ∷ [])
      proof ← new_credential_key_correctness_proof numbers6 draws made.0 made.2
      check_credential_key_correctness_proof numbers6 made.0 proof)
    ≡ ok tt
check_credential_key_correctness_proof-new_example =
    check_credential_key_correctness_proof-new numbers6 three one residues3 true five draws draws
      (4 ∷ 7 ∷ []) (0 ∷ 4 ∷ []) refl

abbrev pub values : Map (CredentialValue Six)
values = (0, hidden five) ∷ (4, known three) ∷ (7, commitment one five) ∷ (8, hidden one) ∷ []

abbrev pub bases : Map Six
bases = (0, two) ∷ (4, one) ∷ (7, two) ∷ (8, one) ∷ []

abbrev pub base : Name → Bool
base name = at_or false ((0, true) ∷ (7, true) ∷ []) name

check_blinded_credential_secrets_correctness_proof-new_example :
    (let key = pub_key_of residues3 true true base bases two in
      do
        blinded ← generate_blinded_primary_credential_secrets_factors numbers6 key values five
        proof ←
            new_blinded_credential_secrets_correctness_proof numbers6 key blinded one values draws
        check_blinded_credential_secrets_correctness_proof numbers6 blinded.u
            blinded.hidden_attributes blinded.committed_attributes proof one key)
    ≡ ok tt
check_blinded_credential_secrets_correctness_proof-new_example =
    check_blinded_credential_secrets_correctness_proof-new residues3 true true base bases two values
      five one draws (refl, (refl, (refl, (refl, tt)))) (refl, (refl, (refl, tt)))

abbrev pub private : CredentialPrimaryPrivateKey Six
private = record { p = two; q = one }

check_signature_correctness_proof-new_example :
    (let key = pub_key residues3 true true true base bases in
      do
        blinded ← generate_blinded_primary_credential_secrets_factors numbers6 key values five
        signed ←
            new_primary_credential numbers6 key private one
              ((4, known three) ∷ [])
              three
              blinded.u
              five
        proof ← new_signature_correctness_proof numbers6 key private signed.0 signed.1 one three
        check_signature_correctness_proof numbers6
            (process_primary_credential numbers6 signed.0 five)
            values
            proof
            key
            one)
    ≡ ok tt
check_signature_correctness_proof-new_example =
    check_signature_correctness_proof-new residues3 true true true base bases private
      ((4, known three) ∷ []) values one five three five one one three order2
      (refl, (refl, (refl, (refl, tt)))) (refl, (refl, (refl, (refl, tt)))) refl refl refl

abbrev signature : PrimaryCredentialSignature Six
signature = record { m_2 = one; a = one; e = five; v = three }

abbrev correctness : SignatureCorrectnessProof Six
correctness = record { se = one; c = one }

accepted :
    check_signature_correctness_proof numbers6 signature values correctness
      (pub_key residues3 true true true base bases)
      one
    ≡ ok tt
unfolding check_signature_correctness_proof mod_div get_pedersen_commitment is_known is_hidden
    value_of
accepted = refl

check_signature_correctness_proof-Solves_example :
    Solves residues3 true true true base bases false signature values
check_signature_correctness_proof-Solves_example =
    check_signature_correctness_proof-Solves residues3 true true true base bases false signature
      values correctness one refl (refl, (refl, (refl, (refl, tt)))) accepted
