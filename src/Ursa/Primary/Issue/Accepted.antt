-- ===== src/Ursa/Primary/Issue/Accepted.antt =====
-- The signature that an issuer makes on blinded secrets is accepted by the prover, once it has put its blinding
-- back.
use smartchaindb_driver.Prelude.{◌≡◌, sym, ap, ◌∙◌, true, false, ok, ◌>>=◌, Bool-cases, inl, inr}
use smartchaindb_driver.Ursa.BigNumber.{BigNumbers, Residues, IsOrder}
use smartchaindb_driver.Ursa.BigNumber.Laws.{
  eq_refl, get_pedersen_commitment-eq, ⊙_left_comm, mod_div-eq, ↑-neg,
}
use smartchaindb_driver.Ursa.Names.{Name, Map, HasDistinctKeys, distinct-HasEntries}
use smartchaindb_driver.Ursa.Primary.{CredentialPrimaryPrivateKey, CredentialValue}
use smartchaindb_driver.Ursa.Primary.Secrets.{generate_blinded_primary_credential_secrets_factors}
use smartchaindb_driver.Ursa.Primary.Secrets.Products.{hidden_product, fold_hidden-product}
use smartchaindb_driver.Ursa.Primary.Issue.{
  sign_primary_credential, new_primary_credential, new_signature_correctness_proof,
  process_primary_credential, check_signature_correctness_proof,
}
use smartchaindb_driver.Ursa.Primary.Issue.Products.{
  HasAllBases, all_bases-HasBases, only_known, multiply_known-only_known, pub_key, known_product,
  multiply_known-product, check_attributes-ok, multiply_signed-product,
}

module _ {B : BigNumbers} {n : B.Z} (R : Residues B n) where
  open B use {
    Z, bn_zero, ◌⊞◌, ◌⊟◌, ◌⊠◌, eq, mod_exp, mod_mul, mod_sub, inverse, is_prime, to_bytes,
    get_hash_as_int,
  }
  open R use {Q, unit, ◌⊙◌, ◌↑◌, inv, val, ⊙_assoc, ⊙_comm, mod_exp-eq, mod_mul-eq, inverse-eq}

  module _ (σ ζ κ : Q) (base : Name → Q) (r : Map Z) where
    module _ (values : Map (CredentialValue Z)) (context v_prime v : Z) where
      abbrev hidden_of : Q
      hidden_of = hidden_product R σ ζ base r (val κ) values

      abbrev u_of : Q
      u_of = σ ↑ v_prime ⊙ hidden_of

      -- what the issuer divides z by
      abbrev rx_of : Q
      rx_of = ((σ ↑ v ⊙ u_of) ⊙ κ ↑ context) ⊙ (known_product R σ ζ κ base r) values

      abbrev q_of : Q
      q_of = ζ ⊙ inv rx_of

      -- the prover multiplies the same numbers in another order
      rx_of-eq :
          (σ ↑ (v_prime ⊞ v) ⊙ κ ↑ context) ⊙ ((known_product R σ ζ κ base r) values ⊙ hidden_of)
          ≡ rx_of
      rx_of-eq =
          ap (λ y. (y ⊙ κ ↑ context) ⊙ ((known_product R σ ζ κ base r) values ⊙ hidden_of))
            (R.↑-⊞ σ v_prime v)
          ∙ reorder (σ ↑ v_prime) (σ ↑ v) (κ ↑ context) ((known_product R σ ζ κ base r) values)
              hidden_of
        where
          reorder : (a b k p h : Q) → ((a ⊙ b) ⊙ k) ⊙ (p ⊙ h) ≡ ((b ⊙ (a ⊙ h)) ⊙ k) ⊙ p
          reorder a b k p h = simp (⊙_assoc, ⊙_comm, ⊙_left_comm R)

      eq-unit : (a : Q) → eq (val a) bn_zero ≡ false
      eq-unit a = elim (Bool-cases (eq (val a) bn_zero)) [
        | inl same ↦ absurd (R.val-ne a ((B.eq_iff _ _).0 same))
        | inr other ↦ other
      ]

      sign_primary_credential-eq :
          (p_priv_key : CredentialPrimaryPrivateKey Z) (known_values : Map (CredentialValue Z))
          (e i : Z)
          → HasAllBases R r base values
          → only_known R known_values ≡ only_known R values
          → inverse e (p_priv_key.p ⊠ p_priv_key.q) ≡ ok i
          → sign_primary_credential B
              (pub_key R σ ζ κ base r)
              p_priv_key
              context
              known_values
              v
              (val u_of)
              e
            ≡ ok (val (q_of ↑ i), val q_of)
      unfolding sign_primary_credential
      sign_primary_credential-eq p_priv_key known_values e i g same inverted = rw (
        eq-unit u_of,
        mod_exp-eq σ v,
        mod_mul-eq (σ ↑ v) u_of,
        mod_exp-eq κ context,
        mod_mul-eq (σ ↑ v ⊙ u_of) (κ ↑ context),
        ← multiply_known-only_known R (pub_key R σ ζ κ base r) (val ((σ ↑ v ⊙ u_of) ⊙ κ ↑ context))
            known_values,
        same,
        multiply_known-only_known R (pub_key R σ ζ κ base r) (val ((σ ↑ v ⊙ u_of) ⊙ κ ↑ context))
            values,
        (multiply_known-product R σ ζ κ base r) ((σ ↑ v ⊙ u_of) ⊙ κ ↑ context) values g,
        mod_div-eq R ζ rx_of,
        inverted,
        mod_exp-eq q_of i,
      )

      -- the root, raised again
      root-power : {m : Z} → IsOrder R m → (e i : Z) → inverse e m ≡ ok i → (q_of ↑ i) ↑ e ≡ q_of
      root-power order e i inverted =
          sym (R.↑-⊠ q_of i e)
          ∙ ap (λ y. q_of ↑ y) (B.⊠_comm i e)
          ∙ order.↑-inverse q_of e i inverted

      degree-power :
          {m : Z}
          → IsOrder R m
          → (c draw e i : Z) → inverse e m ≡ ok i
          → (q_of ↑ i) ↑ (c ⊞ (mod_sub draw (mod_mul c i m) m ⊠ e)) ≡ q_of ↑ draw
      degree-power {m} order c draw e i inverted =
          R.↑-⊞ (q_of ↑ i) c _
          ∙ ap (λ y. (q_of ↑ i) ↑ c ⊙ y)
              (ap (λ y. (q_of ↑ i) ↑ y) (B.⊠_comm _ e)
                ∙ R.↑-⊠ (q_of ↑ i) e _
                ∙ ap (λ y. y ↑ mod_sub draw (mod_mul c i m) m) (root-power order e i inverted)
                ∙ order.↑-mod_sub q_of draw _
                ∙ ap (λ y. q_of ↑ y) (B.⊟-eq draw _)
                ∙ R.↑-⊞ q_of draw _
                ∙ ap (λ y. q_of ↑ draw ⊙ y)
                    (↑-neg R q_of _
                      ∙ ap inv (
                          order.↑-mod_mul q_of c i
                          ∙ ap (λ y. q_of ↑ y) (B.⊠_comm c i)
                          ∙ R.↑-⊠ q_of i c)))
          ∙ ⊙_left_comm R _ _ _
          ∙ ap (λ y. q_of ↑ draw ⊙ y) (R.⊙-inv _)
          ∙ R.⊙-unit _

    -- For a key of members of the group with a base for every attribute of values with distinct names, a private key
    -- whose product is a multiple of the order, a prime e with an inverse modulo that product, an issuer
    -- that has the known values, and any context, nonce and draws: the signature on the blinded secrets,
    -- after the prover has added its blinding, passes the prover's check with the issuer's proof.
    pub check_signature_correctness_proof-new :
        (p_priv_key : CredentialPrimaryPrivateKey Z) (known_values values : Map (CredentialValue Z))
        (context v_prime v e i nonce draw : Z)
        → IsOrder R (p_priv_key.p ⊠ p_priv_key.q)
        → HasDistinctKeys values
        → HasAllBases R r base values
        → only_known R known_values ≡ only_known R values
        → inverse e (p_priv_key.p ⊠ p_priv_key.q) ≡ ok i
        → is_prime e ≡ true
        → (do
          blinded ←
              generate_blinded_primary_credential_secrets_factors B
                (pub_key R σ ζ κ base r)
                values
                v_prime
          signed ←
              new_primary_credential B
                (pub_key R σ ζ κ base r)
                p_priv_key
                context
                known_values
                v
                blinded.u
                e
          proof ←
              new_signature_correctness_proof B
                (pub_key R σ ζ κ base r)
                p_priv_key
                signed.0
                signed.1
                nonce
                draw
          check_signature_correctness_proof B
              (process_primary_credential B signed.0 v_prime)
              values
              proof
              (pub_key R σ ζ κ base r)
              nonce)
          ≡ ok tt
    unfolding generate_blinded_primary_credential_secrets_factors new_primary_credential
        new_signature_correctness_proof check_signature_correctness_proof process_primary_credential
    check_signature_correctness_proof-new p_priv_key known_values values context v_prime v e i nonce
          draw order d g same inverted prime =
        rw (
          mod_exp-eq σ v_prime,
          fold_hidden-product R σ ζ base r (val κ) values (σ ↑ v_prime) values
              (distinct-HasEntries values d) (all_bases-HasBases R r base values g),
          sign_primary_credential-eq values context v_prime v p_priv_key known_values e i g same
              inverted,
          inverted,
          prime,
          (check_attributes-ok R σ ζ κ base r) values g,
          get_pedersen_commitment-eq R σ κ (v_prime ⊞ v) context,
          (multiply_signed-product R σ ζ κ base r) (σ ↑ (v_prime ⊞ v) ⊙ κ ↑ context) values g,
          rx_of-eq values context v_prime v,
          mod_div-eq R ζ (rx_of values context v_prime v),
          mod_exp-eq (q_of values context v_prime v ↑ i) e,
          root-power values context v_prime v order e i inverted,
          eq_refl B (val (q_of values context v_prime v)),
          mod_exp-eq (q_of values context v_prime v ↑ i) _,
          degree-power values context v_prime v order _ draw e i inverted,
          mod_exp-eq (q_of values context v_prime v) draw,
          eq_refl B,
        )
