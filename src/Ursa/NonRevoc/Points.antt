-- ===== src/Ursa/NonRevoc/Points.antt =====
-- The points that the verifier recomputes from an honest proof are those of the prover.
use smartchaindb_driver.Prelude.{ℕ, ◌≡◌, sym, ap, ap₂, ◌∙◌, ok, ◌>>=◌}
use smartchaindb_driver.Amcl.{Field, Group, Pairing}
use smartchaindb_driver.Amcl.Algebra.{
  ⊞_left_cancel, ⊠-zero, identity-⊕, identity-•, ⊕_left_comm, •-neg, negate-⊕, •-•_comm,
}
use smartchaindb_driver.Ursa.Pair.{Curve}
use smartchaindb_driver.Ursa.Revocation.{
  CredentialRevocationPublicKey, RevocationRegistry, RevocationKeyPublic,
  NonRevocationCredentialSignature, Witness,
}
use smartchaindb_driver.Ursa.NonRevoc.{NonRevocProofXList, NonRevocProofTauList, as_list, from_list}
use smartchaindb_driver.Ursa.NonRevoc.Steps.{
  responses, create_tau_list_expected_values, create_tau_list_values, gen_c_list_params,
  create_c_list_values, init_non_revocation_proof, finalize_non_revocation_proof,
  verify_non_revocation_proof,
}

module _ (K : Field) where
  open K use {F, ◌⊞◌, ◌⊠◌, neg}

  ⊠-neg : (a b : F) → a ⊠ neg b ≡ neg (a ⊠ b)
  ⊠-neg a b =
      ⊞_left_cancel K (a ⊠ b) _ _
        (sym (K.⊠-⊞ a b (neg b)) ∙ ap (λ x. a ⊠ x) (K.⊞-neg b) ∙ ⊠-zero K a ∙ sym (K.⊞-neg (a ⊠ b)))

  -- the change of a response that is a product
  neg_product : (ch a c : F) → neg (ch ⊠ (a ⊠ c)) ≡ a ⊠ neg (ch ⊠ c)
  neg_product ch a c =
      ap neg (sym (K.⊠_assoc ch a c) ∙ ap (λ x. x ⊠ c) (K.⊠_comm ch a) ∙ K.⊠_assoc a ch c)
      ∙ sym (⊠-neg a (ch ⊠ c))

module _ {K : Field} (M : Group K) where
  open K use {F, ◌⊞◌, ◌⊠◌, neg}
  open M use {G, identity, ◌⊕◌, ◌•◌, negate, ⊕_assoc, ⊕_comm}

  respond : (p : G) (s b c : F) → ((p • s) • c) ⊕ (p • (b ⊞ neg (c ⊠ s))) ≡ p • b
  respond p s b c =
      ap₂ (λ x y. x ⊕ y) (•-•_comm M p s c ∙ sym (M.•-⊠ p c s)) (M.•-⊞ p b (neg (c ⊠ s)))
      ∙ ⊕_left_comm M _ _ _
      ∙ ap (λ x. (p • b) ⊕ x) (ap (λ x. (p • (c ⊠ s)) ⊕ x) (•-neg M p (c ⊠ s)) ∙ M.⊕-negate _)
      ∙ M.⊕-identity _

  interchange : (a b c d : G) → (a ⊕ b) ⊕ (c ⊕ d) ≡ (a ⊕ c) ⊕ (b ⊕ d)
  interchange a b c d = simp (⊕_assoc, ⊕_left_comm M)

  -- a commitment in two bases and the responses for it
  respond_pair :
      (p q : G) (s s' b b' c : F)
      → (((p • s) ⊕ (q • s')) • c) ⊕ ((p • (b ⊞ neg (c ⊠ s))) ⊕ (q • (b' ⊞ neg (c ⊠ s'))))
        ≡ (p • b) ⊕ (q • b')
  respond_pair p q s s' b b' c =
      ap (λ x. x ⊕ ((p • (b ⊞ neg (c ⊠ s))) ⊕ (q • (b' ⊞ neg (c ⊠ s'))))) (M.⊕-• (p • s) (q • s') c)
      ∙ interchange _ _ _ _
      ∙ ap₂ (λ x y. x ⊕ y) (respond p s b c) (respond q s' b' c)

  •-neg_⊞ : (p : G) (a b : F) → p • neg (a ⊞ b) ≡ (p • neg a) ⊕ (p • neg b)
  •-neg_⊞ p a b =
      •-neg M p (a ⊞ b)
      ∙ ap negate (M.•-⊞ p a b)
      ∙ negate-⊕ M _ _
      ∙ sym (ap₂ (λ x y. x ⊕ y) (•-neg M p a) (•-neg M p b))

  -- a commitment, opened
  opened :
      (p q : G) (a b k : F)
      → ((((p • a) ⊕ (q • b)) • k) ⊕ (p • neg (a ⊠ k))) ⊕ (q • neg (b ⊠ k)) ≡ identity
  opened p q a b k =
      ap₂ (λ x y. x ⊕ y)
        (ap₂ (λ x y. x ⊕ y)
          (M.⊕-• _ _ k ∙ ap₂ (λ x y. x ⊕ y) (sym (M.•-⊠ p a k)) (sym (M.•-⊠ q b k)))
          (•-neg M p (a ⊠ k)))
        (•-neg M q (b ⊠ k))
      ∙ ⊕_assoc _ _ _
      ∙ interchange _ _ _ _
      ∙ ap₂ (λ x y. x ⊕ y) (M.⊕-negate _) (M.⊕-negate _)
      ∙ M.⊕-identity identity

  regroup :
      (a a' b b' d d' : G) → ((a ⊕ a') ⊕ (b ⊕ b')) ⊕ (d ⊕ d') ≡ ((a ⊕ b) ⊕ d) ⊕ ((a' ⊕ b') ⊕ d')
  regroup a a' b b' d d' = simp (⊕_assoc, ⊕_left_comm M)

  -- the responses for the relation between a commitment and its multiple
  respond_multiple :
      (p q : G) (a b c x y z ch : F)
      → (((((p • a) ⊕ (q • b)) • (x ⊞ neg (ch ⊠ c))) ⊕ (p • neg (y ⊞ neg (ch ⊠ (a ⊠ c)))))
          ⊕ (q • neg (z ⊞ neg (ch ⊠ (b ⊠ c)))))
        ≡ ((((p • a) ⊕ (q • b)) • x) ⊕ (p • neg y)) ⊕ (q • neg z)
  respond_multiple p q a b c x y z ch =
      rw (neg_product K ch a c, neg_product K ch b c, M.•-⊞, •-neg_⊞, •-neg_⊞)
        (regroup _ _ _ _ _ _
          ∙ ap (λ w. (((((p • a) ⊕ (q • b)) • x) ⊕ (p • neg y)) ⊕ (q • neg z)) ⊕ w)
              (opened p q a b (neg (ch ⊠ c)))
          ∙ M.⊕-identity _)

module _ {K : Field} {M N : Group K} {P : Pairing M N} (C : Curve P) where
  open K use {F}

  -- the four points of a tau list
  abbrev pub points_of : NonRevocProofTauList P → M.G × M.G × M.G × M.G
  points_of tau = (tau.t1, tau.t2, tau.t5, tau.t6)

  -- For every credential, key, registry, witness, draws and challenge: `finalize` returns a proof from which the verifier
  -- recomputes the points t1, t2, t5 and t6 of the prover's tau list.
  pub verify_points :
      (r_cred : NonRevocationCredentialSignature M N) (rev_reg : RevocationRegistry N)
      (r_pub_key : CredentialRevocationPublicKey M N) (rev_key_pub : RevocationKeyPublic P)
      (witness : Witness N) (random : ℕ → F) (tau_list_params : NonRevocProofXList F) (ch_num_z : F)
      → (let init_proof =
            init_non_revocation_proof C r_cred rev_reg r_pub_key witness random tau_list_params in
          do
            proof ← finalize_non_revocation_proof C init_proof ch_num_z
            ok (
                points_of
                  (verify_non_revocation_proof C r_pub_key rev_reg rev_key_pub ch_num_z proof)))
        ≡ ok (
            points_of
              (init_non_revocation_proof C r_cred rev_reg r_pub_key witness random
                tau_list_params).tau_list)
  unfolding finalize_non_revocation_proof verify_non_revocation_proof init_non_revocation_proof
      create_tau_list_values create_tau_list_expected_values gen_c_list_params create_c_list_values
      responses as_list from_list
  verify_points r_cred rev_reg r_pub_key rev_key_pub witness random tau ch = rw (
    identity-• M ch,
    identity-⊕ M,
    identity-⊕ M,
    respond_pair M r_pub_key.h r_pub_key.htilde (random 0) (random 5) tau.rho tau.o ch,
    respond_pair M r_pub_key.g r_pub_key.htilde (random 1) (random 6) tau.r tau.o_prime ch,
    respond_multiple M r_pub_key.h r_pub_key.htilde (random 0) (random 5) r_cred.c tau.c tau.m tau.t
        ch,
    respond_multiple M r_pub_key.g r_pub_key.htilde (random 1) (random 6) (random 3)
        tau.r_prime_prime tau.m_prime tau.t_prime ch,
  )
