-- ===== src/Ursa/Primary/Secrets/Accepted.antt =====
-- The proof that a prover makes for its blinded secrets is accepted by the issuer's check.
use smartchaindb_driver.Prelude.{
  ℕ, suc, ◌≡◌, refl, sym, ap, ap₂, ◌∙◌, Option, some, none, [], ◌∷◌, ◌++◌, ok, ◌>>=◌,
}
use smartchaindb_driver.Zmix.Bytes.{Bytes}
use smartchaindb_driver.Ursa.BigNumber.{BigNumbers, Residues}
use smartchaindb_driver.Ursa.BigNumber.Laws.{
  eq_refl, unit-↑, interchange, get_pedersen_commitment-eq, inv-↑, inv_cancel,
}
use smartchaindb_driver.Ursa.Names.{Name, Map, HasDistinctKeys, HasEntries, distinct-HasEntries}
use smartchaindb_driver.Ursa.Primary.{CredentialValue, known, hidden, commitment}
use smartchaindb_driver.Ursa.Primary.Secrets.{
  hidden_names, generate_blinded_primary_credential_secrets_factors, draw_tildes, make_caps,
  new_blinded_credential_secrets_correctness_proof, fold_caps, check_commitments,
  check_blinded_credential_secrets_correctness_proof,
}
use smartchaindb_driver.Ursa.Primary.Secrets.Collect.{collect, collect-HasDistinctKeys}
use smartchaindb_driver.Ursa.Primary.Secrets.Products.{
  HasBases, pub_key_of, hidden_product, fold_step, fold_hidden-product, committed_of,
  commit_all-collect,
}

module _ {B : BigNumbers} {n : B.Z} (R : Residues B n) where
  open B use {Z, ◌⊞◌, ◌⊠◌, eq, mod_exp, mod_mul, inverse, to_bytes, get_hash_as_int}
  open R use {Q, unit, ◌⊙◌, ◌↑◌, inv, val, ⊙_assoc, mod_exp-eq, mod_mul-eq, inverse-eq}

  module _ (σ ζ : Q) (base : Name → Q) (r : Map Z) (rctxt : Z) where
    module _ (random : ℕ → Z) where
      abbrev m_tilde_of : CredentialValue Z → ℕ → Option Z
      m_tilde_of (known value) i = none
      m_tilde_of (hidden value) i = some (random i)
      m_tilde_of (commitment value blinding_factor) i = some (random i)

      abbrev r_tilde_of : CredentialValue Z → ℕ → Option Z
      r_tilde_of (known value) i = none
      r_tilde_of (hidden value) i = none
      r_tilde_of (commitment value blinding_factor) i = some (random (suc i))

      abbrev tilde_product : ℕ → Map (CredentialValue Z) → Q
      tilde_product i [] = unit
      tilde_product i ((attr, known value) ∷ rest) = tilde_product i rest
      tilde_product i ((attr, hidden value) ∷ rest) =
          base attr ↑ random i ⊙ tilde_product (suc i) rest
      tilde_product i ((attr, commitment value blinding_factor) ∷ rest) =
          tilde_product (suc (suc i)) rest

      abbrev tilde_bytes : ℕ → Map (CredentialValue Z) → Bytes
      tilde_bytes i [] = []
      tilde_bytes i ((attr, known value) ∷ rest) = tilde_bytes i rest
      tilde_bytes i ((attr, hidden value) ∷ rest) = tilde_bytes (suc i) rest
      tilde_bytes i ((attr, commitment value blinding_factor) ∷ rest) =
          to_bytes (val (ζ ↑ random i ⊙ σ ↑ random (suc i)))
          ++ (to_bytes (val (σ ↑ blinding_factor ⊙ ζ ↑ value)) ++ tilde_bytes (suc (suc i)) rest)

      draw_tildes-eq :
          (committed : Map Z) (i : ℕ) (a : Q) (part : Map (CredentialValue Z))
          → HasEntries committed (collect (committed_of R σ ζ base r rctxt) i part)
          → HasBases R r base part
          → draw_tildes B (pub_key_of R σ ζ base r rctxt) committed random i (val a) part
            ≡ ok (record {
              m_tildes = collect m_tilde_of i part;
              r_tildes = collect r_tilde_of i part;
              bytes = tilde_bytes i part;
              u_tilde = val (a ⊙ tilde_product i part);
            })
      draw_tildes-eq committed i a [] h g = rw (R.⊙-unit a)
      draw_tildes-eq committed i a ((attr, known value) ∷ part) h g =
          draw_tildes-eq committed i a part h g
      draw_tildes-eq committed i a ((attr, hidden value) ∷ part) h (g, gs) = rw (
        g,
        (fold_step R σ ζ base r rctxt) a attr (random i),
        draw_tildes-eq committed (suc i) (a ⊙ base attr ↑ random i) part h gs,
        ⊙_assoc a (base attr ↑ random i) (tilde_product (suc i) part),
      )
      draw_tildes-eq committed i a ((attr, commitment value b) ∷ part) (h, hs) (g, gs) = rw (
        g,
        h,
        get_pedersen_commitment-eq R ζ σ (random i) (random (suc i)),
        draw_tildes-eq committed (suc (suc i)) a part hs gs,
      )

      module _ (c : Z) where
        abbrev m_cap_of : CredentialValue Z → ℕ → Option Z
        m_cap_of (known value) i = none
        m_cap_of (hidden value) i = some (random i ⊞ (c ⊠ value))
        m_cap_of (commitment value blinding_factor) i = some (random i ⊞ (c ⊠ value))

        abbrev r_cap_of : CredentialValue Z → ℕ → Option Z
        r_cap_of (known value) i = none
        r_cap_of (hidden value) i = none
        r_cap_of (commitment value blinding_factor) i =
            some (random (suc i) ⊞ (c ⊠ blinding_factor))

        make_caps-eq :
            (values : Map (CredentialValue Z)) (r_tildes : Map Z) (i : ℕ)
            (part : Map (CredentialValue Z))
            → HasEntries values part
            → HasEntries r_tildes (collect r_tilde_of i part)
            → make_caps B c values r_tildes (collect m_tilde_of i part)
              ≡ ok (collect m_cap_of i part, collect r_cap_of i part)
        make_caps-eq values r_tildes i [] h t = refl
        make_caps-eq values r_tildes i ((attr, known value) ∷ part) (h, hs) t =
            make_caps-eq values r_tildes i part hs t
        make_caps-eq values r_tildes i ((attr, hidden value) ∷ part) (h, hs) t =
            rw (h, make_caps-eq values r_tildes (suc i) part hs t)
        make_caps-eq values r_tildes i ((attr, commitment value b) ∷ part) (h, hs) (t, ts) =
            rw (h, t, make_caps-eq values r_tildes (suc (suc i)) part hs ts)

        abbrev cap_product : ℕ → Map (CredentialValue Z) → Q
        cap_product i [] = unit
        cap_product i ((attr, known value) ∷ rest) = cap_product i rest
        cap_product i ((attr, hidden value) ∷ rest) =
            base attr ↑ (random i ⊞ (c ⊠ value)) ⊙ cap_product (suc i) rest
        cap_product i ((attr, commitment value blinding_factor) ∷ rest) =
            cap_product (suc (suc i)) rest

        fold_caps-product :
            (m_caps : Map Z) (i : ℕ) (a : Q) (part : Map (CredentialValue Z))
            → HasEntries m_caps (collect m_cap_of i part)
            → HasBases R r base part
            → fold_caps B (pub_key_of R σ ζ base r rctxt) m_caps (val a) (hidden_names B part)
              ≡ ok (val (a ⊙ cap_product i part))
        fold_caps-product m_caps i a [] h g = rw (R.⊙-unit a)
        fold_caps-product m_caps i a ((attr, known value) ∷ part) h g =
            fold_caps-product m_caps i a part h g
        fold_caps-product m_caps i a ((attr, hidden value) ∷ part) (h, hs) (g, gs) =
            rw (g, h, (fold_step R σ ζ base r rctxt) a attr (random i ⊞ (c ⊠ value)))
              (fold_caps-product m_caps (suc i) (a ⊙ base attr ↑ (random i ⊞ (c ⊠ value))) part hs
                  gs
                ∙ ap (λ y. ok (val y)) (⊙_assoc _ _ _))
        fold_caps-product m_caps i a ((attr, commitment value b) ∷ part) (h, hs) (g, gs) =
            fold_caps-product m_caps (suc (suc i)) a part hs gs

        power_cap : (a : Q) (x t : Z) → a ↑ (t ⊞ (c ⊠ x)) ≡ (a ↑ x) ↑ c ⊙ a ↑ t
        power_cap a x t =
            R.↑-⊞ a t (c ⊠ x)
            ∙ R.⊙_comm _ _
            ∙ ap (λ y. y ⊙ a ↑ t) (ap (λ y. a ↑ y) (B.⊠_comm c x) ∙ R.↑-⊠ a x c)

        cap_product-eq :
            (i : ℕ) (part : Map (CredentialValue Z))
            → cap_product i part
              ≡ (hidden_product R σ ζ base r rctxt) part ↑ c ⊙ tilde_product i part
        cap_product-eq i [] = sym (ap (λ y. y ⊙ unit) (unit-↑ R c) ∙ R.⊙-unit unit)
        cap_product-eq i ((attr, known value) ∷ part) = cap_product-eq i part
        cap_product-eq i ((attr, hidden value) ∷ part) =
            ap₂ (λ x y. x ⊙ y) (power_cap (base attr) value (random i))
              (cap_product-eq (suc i) part)
            ∙ interchange R _ _ _ _
            ∙ ap (λ y. y ⊙ (base attr ↑ random i ⊙ tilde_product (suc i) part)) (sym (R.⊙-↑ _ _ c))
        cap_product-eq i ((attr, commitment value b) ∷ part) = cap_product-eq (suc (suc i)) part

        open_commitment :
            (b v r_tilde m_tilde : Z)
            → inv (σ ↑ b ⊙ ζ ↑ v) ↑ c ⊙ (ζ ↑ (m_tilde ⊞ (c ⊠ v)) ⊙ σ ↑ (r_tilde ⊞ (c ⊠ b)))
              ≡ ζ ↑ m_tilde ⊙ σ ↑ r_tilde
        open_commitment b v r_tilde m_tilde =
            ap₂ (λ x y. x ⊙ y) (inv-↑ R _ c)
              (ap₂ (λ x y. x ⊙ y) (power_cap ζ v m_tilde) (power_cap σ b r_tilde)
                ∙ interchange R _ _ _ _
                ∙ ap (λ y. y ⊙ (ζ ↑ m_tilde ⊙ σ ↑ r_tilde))
                    (sym (R.⊙-↑ _ _ c) ∙ ap (λ y. y ↑ c) (R.⊙_comm _ _)))
            ∙ inv_cancel R _ _

        check_commitments-eq :
            (v_dash_cap : Z) (m_caps r_caps : Map Z) (i : ℕ) (part : Map (CredentialValue Z))
            → HasEntries m_caps (collect m_cap_of i part)
            → HasEntries r_caps (collect r_cap_of i part)
            → check_commitments B
                (pub_key_of R σ ζ base r rctxt)
                (record { c = c; v_dash_cap = v_dash_cap; m_caps = m_caps; r_caps = r_caps })
                (collect (committed_of R σ ζ base r rctxt) i part)
              ≡ ok (tilde_bytes i part)
        check_commitments-eq v m_caps r_caps i [] h t = refl
        check_commitments-eq v m_caps r_caps i ((attr, known value) ∷ part) h t =
            check_commitments-eq v m_caps r_caps i part h t
        check_commitments-eq v m_caps r_caps i ((attr, hidden value) ∷ part) (h, hs) t =
            check_commitments-eq v m_caps r_caps (suc i) part hs t
        check_commitments-eq v m_caps r_caps i ((attr, commitment value b) ∷ part) (h, hs) (t, ts) =
            rw (
              h,
              inverse-eq (σ ↑ b ⊙ ζ ↑ value),
              t,
              mod_exp-eq (inv (σ ↑ b ⊙ ζ ↑ value)) c,
              get_pedersen_commitment-eq R ζ σ (random i ⊞ (c ⊠ value)) (random (suc i) ⊞ (c ⊠ b)),
              mod_mul-eq (inv (σ ↑ b ⊙ ζ ↑ value) ↑ c)
                  (ζ ↑ (random i ⊞ (c ⊠ value)) ⊙ σ ↑ (random (suc i) ⊞ (c ⊠ b))),
              open_commitment b value (random (suc i)) (random i),
              check_commitments-eq v m_caps r_caps (suc (suc i)) part hs ts,
            )

        open_u :
            (v_prime v_tilde : Z) (i : ℕ) (values : Map (CredentialValue Z))
            → (inv (σ ↑ v_prime ⊙ (hidden_product R σ ζ base r rctxt) values)
                  ↑ c
                  ⊙ σ
                  ↑ ((c ⊠ v_prime) ⊞ v_tilde))
                ⊙ cap_product i values
              ≡ σ ↑ v_tilde ⊙ tilde_product i values
        open_u v_prime v_tilde i values =
            ap₂
              (λ x y. (inv (σ ↑ v_prime ⊙ (hidden_product R σ ζ base r rctxt) values) ↑ c ⊙ x) ⊙ y)
              (ap (λ y. σ ↑ y) (B.⊞_comm _ _) ∙ power_cap σ v_prime v_tilde)
              (cap_product-eq i values)
            ∙ ⊙_assoc _ _ _
            ∙ ap₂ (λ x y. x ⊙ y) (inv-↑ R _ c)
                (interchange R _ _ _ _
                  ∙ ap (λ y. y ⊙ (σ ↑ v_tilde ⊙ tilde_product i values)) (sym (R.⊙-↑ _ _ c)))
            ∙ inv_cancel R _ _

    -- For values with distinct names and a key whose n, s, z and bases of the hidden and committed attributes are
    -- members of the group, with any nonce and draws: the prover blinds its secrets and makes a proof,
    -- and the check of the issuer accepts it.
    pub check_blinded_credential_secrets_correctness_proof-new :
        (values : Map (CredentialValue Z)) (v_prime nonce : Z) (random : ℕ → Z)
        → HasDistinctKeys values
        → HasBases R r base values
        → (do
          blinded ←
              generate_blinded_primary_credential_secrets_factors B
                (pub_key_of R σ ζ base r rctxt)
                values
                v_prime
          proof ←
              new_blinded_credential_secrets_correctness_proof B
                (pub_key_of R σ ζ base r rctxt)
                blinded
                nonce
                values
                random
          check_blinded_credential_secrets_correctness_proof B blinded.u blinded.hidden_attributes
              blinded.committed_attributes proof nonce
              (pub_key_of R σ ζ base r rctxt))
          ≡ ok tt
    unfolding generate_blinded_primary_credential_secrets_factors
        new_blinded_credential_secrets_correctness_proof
        check_blinded_credential_secrets_correctness_proof
    check_blinded_credential_secrets_correctness_proof-new values v_prime nonce random d g = rw (
      mod_exp-eq σ v_prime,
      mod_exp-eq σ (random 0),
      (fold_hidden-product R σ ζ base r rctxt) values (σ ↑ v_prime) values whole g,
      (commit_all-collect R σ ζ base r rctxt) 1 values,
      draw_tildes-eq random (collect (committed_of R σ ζ base r rctxt) 1 values) 1 (σ ↑ random 0)
          values (all_of (committed_of R σ ζ base r rctxt)) g,
      make_caps-eq random _ values _ 1 values whole (all_of (r_tilde_of random)),
      inverse-eq (σ ↑ v_prime ⊙ (hidden_product R σ ζ base r rctxt) values),
      mod_exp-eq (inv (σ ↑ v_prime ⊙ (hidden_product R σ ζ base r rctxt) values)) _,
      mod_exp-eq σ _,
      mod_mul-eq (inv (σ ↑ v_prime ⊙ (hidden_product R σ ζ base r rctxt) values) ↑ _) _,
      fold_caps-product random _ _ 1 _ values (all_of (m_cap_of random _)) g,
      check_commitments-eq random _ _ _ _ 1 values (all_of (m_cap_of random _))
          (all_of (r_cap_of random _)),
      open_u random _ v_prime (random 0) 1 values,
      eq_refl B,
    )
      where
        whole : HasEntries values values
        whole = distinct-HasEntries values d

        all_of :
            (f : CredentialValue Z → ℕ → Option Z)
            → HasEntries (collect f 1 values) (collect f 1 values)
        all_of f = distinct-HasEntries (collect f 1 values) (collect-HasDistinctKeys f 1 values d)
