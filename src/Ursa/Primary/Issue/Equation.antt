-- ===== src/Ursa/Primary/Issue/Equation.antt =====
-- What a signature that the prover accepts satisfies.
use smartchaindb_driver.Prelude.{
  ◌≡◌, sym, ap, ◌∙◌, true, false, Outcome, ok, err, Bool-cases, inl, inr,
}
use smartchaindb_driver.Ursa.Errors.{UrsaCryptoError, unequal_q, invalid_signature_proof}
use smartchaindb_driver.Ursa.BigNumber.{BigNumbers, Residues}
use smartchaindb_driver.Ursa.BigNumber.Laws.{get_pedersen_commitment-eq, ⊙_left_comm, mod_div-eq}
use smartchaindb_driver.Ursa.Names.{Name, Map}
use smartchaindb_driver.Ursa.Primary.{
  CredentialValue, PrimaryCredentialSignature, SignatureCorrectnessProof,
}
use smartchaindb_driver.Ursa.Primary.Secrets.Products.{hidden_product}
use smartchaindb_driver.Ursa.Primary.Issue.{check_signature_correctness_proof}
use smartchaindb_driver.Ursa.Primary.Issue.Products.{
  HasAllBases, pub_key, known_product, check_attributes-ok, multiply_signed-product,
}

module _ {B : BigNumbers} {n : B.Z} (R : Residues B n) where
  open B use {
    Z, bn_zero, ◌⊞◌, ◌⊟◌, ◌⊠◌, eq, mod_exp, mod_mul, mod_sub, inverse, is_prime, to_bytes,
    get_hash_as_int,
  }
  open R use {Q, unit, ◌⊙◌, ◌↑◌, inv, val, ⊙_assoc, ⊙_comm, mod_exp-eq, mod_mul-eq, inverse-eq}

  module _ (σ ζ κ : Q) (base : Name → Q) (r : Map Z) where
    -- The equation of a signature: s^v, rctxt^m2 and the bases to the known and hidden values, times a^e, make z.
    abbrev pub Solves : Q → PrimaryCredentialSignature Z → Map (CredentialValue Z) → Type 0
    Solves α sig values =
        ((σ ↑ sig.v ⊙ κ ↑ sig.m_2)
            ⊙ ((known_product R σ ζ κ base r) values ⊙ hidden_product R σ ζ base r (val κ) values))
          ⊙ α
          ↑ sig.e
        ≡ ζ

    -- For a key of members of the group with a base for every attribute: whatever signature, with an a in the group,
    -- proof and nonce the check of the prover accepts, the signature solves the equation.
    pub check_signature_correctness_proof-Solves :
        (α : Q) (sig : PrimaryCredentialSignature Z) (values : Map (CredentialValue Z))
        (proof : SignatureCorrectnessProof Z) (nonce : Z)
        → sig.a ≡ val α
        → HasAllBases R r base values
        → check_signature_correctness_proof B sig values proof (pub_key R σ ζ κ base r) nonce
          ≡ ok tt
        → Solves α sig values
    unfolding check_signature_correctness_proof
    check_signature_correctness_proof-Solves α sig values proof nonce ea g accepted =
        elim (Bool-cases (eq (val quotient) (mod_exp sig.a sig.e n))) [
          | inl equal ↦
              ap (λ y. rx ⊙ y)
                (sym (
                  R.val-injective quotient (α ↑ sig.e)
                    ((B.eq_iff _ _).0 equal ∙ ap (λ y. mod_exp y sig.e n) ea ∙ mod_exp-eq α sig.e)))
              ∙ ⊙_left_comm R rx ζ (inv rx)
              ∙ ap (λ y. ζ ⊙ y) (R.⊙-inv rx)
              ∙ R.⊙-unit ζ
          | inr differs ↦ elim (Bool-cases (is_prime sig.e)) [
            | inl prime ↦ absurd (err-ne (sym (refused_q prime differs) ∙ accepted))
            | inr composite ↦ absurd (err-ne (sym (refused_e composite) ∙ accepted))
          ]
        ]
      where
        rx : Q
        rx =
            (σ ↑ sig.v ⊙ κ ↑ sig.m_2)
            ⊙ ((known_product R σ ζ κ base r) values ⊙ hidden_product R σ ζ base r (val κ) values)

        quotient : Q
        quotient = ζ ⊙ inv rx

        err-ne :
            {e : UrsaCryptoError} → ◌≡◌ {A = Outcome UrsaCryptoError (Unit {0})} (err e) (ok tt) → ⊥
        err-ne same = cc

        refused_q :
            is_prime sig.e ≡ true
            → eq (val quotient) (mod_exp sig.a sig.e n) ≡ false
            → check_signature_correctness_proof B sig values proof (pub_key R σ ζ κ base r) nonce
              ≡ err unequal_q
        refused_q prime differs = rw (
          prime,
          (check_attributes-ok R σ ζ κ base r) values g,
          get_pedersen_commitment-eq R σ κ sig.v sig.m_2,
          (multiply_signed-product R σ ζ κ base r) (σ ↑ sig.v ⊙ κ ↑ sig.m_2) values g,
          mod_div-eq R ζ rx,
          differs,
        )

        refused_e :
            is_prime sig.e ≡ false
            → check_signature_correctness_proof B sig values proof (pub_key R σ ζ κ base r) nonce
              ≡ err invalid_signature_proof
        refused_e composite = rw (composite)
