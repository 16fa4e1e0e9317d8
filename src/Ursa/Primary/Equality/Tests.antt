-- ===== src/Ursa/Primary/Equality/Tests.antt =====
-- A proof of a credential over the integers modulo 6, and the theorem at a concrete input.
use smartchaindb_driver.Prelude.{◌≡◌, refl, true, none, List, [], ◌∷◌, ok, ◌>>=◌, arith}
use smartchaindb_driver.Ursa.BigNumber.Mod6.{Six, numbers6, residues3, three, two}
use smartchaindb_driver.Ursa.Names.{Name, Map}
use smartchaindb_driver.Ursa.Primary.{
  CredentialValue, known, hidden, is_commitment, PrimaryCredentialSignature,
}
use smartchaindb_driver.Ursa.Primary.Tests.{one, five, draws, bases, base}
use smartchaindb_driver.Ursa.Primary.Issue.Products.{pub_key}
use smartchaindb_driver.Ursa.Primary.Equality.{
  check_add_sub_proof_request_params_consistency, init_eq_proof, finalize_eq_proof, verify_equality,
}
use smartchaindb_driver.Ursa.Primary.Equality.Products.{AreSigned}
use smartchaindb_driver.Ursa.Primary.Equality.Complete.{verify_equality-t}

abbrev credential_values : Map (CredentialValue Six)
credential_values = (0, hidden five) ∷ (4, known three) ∷ (7, known one) ∷ (8, hidden one) ∷ []

abbrev schema : List Name
schema = 4 ∷ 7 ∷ 8 ∷ []

-- the key has the generators 2, 2 and 2 for s, z and rctxt
abbrev signature : PrimaryCredentialSignature Six
signature = record { m_2 = one; a = two; e = five; v = three }

are_signed : AreSigned residues3 credential_values
unfolding is_commitment
are_signed = (refl, (refl, (refl, (refl, tt))))

consistent :
    check_add_sub_proof_request_params_consistency credential_values
      (4 ∷ 7 ∷ [])
      (8 ∷ [])
      schema
      (0 ∷ [])
    ≡ ok tt
unfolding check_add_sub_proof_request_params_consistency
consistent = refl

verify_equality-t_example :
    (let key = pub_key residues3 true true true base bases in
      let started =
        init_eq_proof numbers6 three [] key signature schema (0 ∷ []) (4 ∷ 7 ∷ []) none draws in
      (t : Six) × ((do init_proof ← started; ok init_proof.t) ≡ ok t)
      × ((do
        init_proof ← started
        proof ←
            finalize_eq_proof numbers6 init_proof five schema
              (0 ∷ [])
              credential_values
              (4 ∷ 7 ∷ [])
        verify_equality numbers6 three key proof five schema (0 ∷ []) (4 ∷ 7 ∷ []))
          ≡ ok t))
verify_equality-t_example =
    verify_equality-t residues3 true true true base bases true signature credential_values
      (4 ∷ 7 ∷ []) [] none draws three five schema (0 ∷ []) (8 ∷ []) refl refl
      (refl, (refl, (refl, (refl, tt)))) are_signed
      (((omega arith), ((omega arith), tt)), (((omega arith), tt), (tt, tt))) (tt, tt)
      (((omega arith), tt), (tt, tt)) consistent
