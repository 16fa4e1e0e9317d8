-- ===== src/Ursa/NonRevoc/Steps.antt =====
-- The values of ursa_Master/libursa/src/cl/helpers.rs, the prover's steps of prover.rs and the verifier's of
-- verifier.rs in a proof of non-revocation.
use smartchaindb_driver.Prelude.{ℕ, List, [], ◌∷◌, if◌then◌else◌, Outcome, ok, ◌>>=◌}
use smartchaindb_driver.Amcl.{Field, Group, Pairing}
use smartchaindb_driver.Ursa.Errors.{UrsaCryptoError}
use smartchaindb_driver.Ursa.Pair.{Curve}
use smartchaindb_driver.Ursa.Revocation.{
  CredentialRevocationPublicKey, RevocationRegistry, RevocationKeyPublic,
  NonRevocationCredentialSignature, Witness,
}
use smartchaindb_driver.Ursa.NonRevoc.{
  NonRevocProofXList, as_list, from_list, NonRevocProofCList, NonRevocProofTauList, NonRevocProof,
  NonRevocInitProof,
}

-- the responses, for as long as both lists last
unfoldable pub responses : (K : Field) → K.F → List K.F → List K.F → List K.F
responses K challenge [] ys = []
responses K challenge (x ∷ xs) [] = []
responses K challenge (x ∷ xs) (y ∷ ys) =
    K.◌⊞◌ x (K.neg (K.◌⊠◌ challenge y)) ∷ responses K challenge xs ys

module _ {K : Field} {M N : Group K} {P : Pairing M N} (C : Curve P) where
  open K use {F, ◌⊞◌, ◌⊠◌, neg}
  open M use {◌⊕◌, ◌•◌, negate, identity, is_identity}
  open P use {GT, ate_pairing, ◌⊗◌}
  open C use {pair_pow, pair_inverse}

  unfoldable pub create_tau_list_expected_values :
      CredentialRevocationPublicKey M N
      → RevocationRegistry N
      → RevocationKeyPublic P
      → NonRevocProofCList M N
      → NonRevocProofTauList P
  create_tau_list_expected_values r_pub_key rev_reg rev_acc_pub_key proof_c = record {
    t1 = proof_c.e;
    t2 = identity;
    t3 =
        ate_pairing (r_pub_key.h0 ⊕ proof_c.g) r_pub_key.h_cap
        ⊗ pair_inverse (ate_pairing proof_c.a r_pub_key.y);
    t4 =
        ate_pairing proof_c.g rev_reg.accum
        ⊗ pair_inverse (ate_pairing r_pub_key.g proof_c.w ⊗ rev_acc_pub_key.z);
    t5 = proof_c.d;
    t6 = identity;
    t7 =
        ate_pairing (r_pub_key.pk ⊕ proof_c.g) proof_c.s
        ⊗ pair_inverse (ate_pairing r_pub_key.g r_pub_key.g_dash);
    t8 = ate_pairing proof_c.g r_pub_key.u ⊗ pair_inverse (ate_pairing r_pub_key.g proof_c.u);
  }

  -- `if p.is_inf()? {p = PointG1::new_inf()? }`
  abbrev normal : M.G → M.G
  normal p = if is_identity p then identity else p

  unfoldable pub create_tau_list_values :
      CredentialRevocationPublicKey M N
      → RevocationRegistry N
      → NonRevocProofXList F
      → NonRevocProofCList M N
      → NonRevocProofTauList P
  create_tau_list_values r_pub_key rev_reg params proof_c = record {
    t1 = (r_pub_key.h • params.rho) ⊕ (r_pub_key.htilde • params.o);
    t2 = normal (
        ((proof_c.e • params.c) ⊕ (r_pub_key.h • neg params.m))
        ⊕ (r_pub_key.htilde • neg params.t));
    t3 =
        (pair_pow (ate_pairing proof_c.a r_pub_key.h_cap) params.c
          ⊗ pair_pow (ate_pairing r_pub_key.htilde r_pub_key.h_cap) params.r)
        ⊗ pair_inverse (
            ((pair_pow (ate_pairing r_pub_key.htilde r_pub_key.y) params.rho
                ⊗ pair_pow (ate_pairing r_pub_key.htilde r_pub_key.h_cap) params.m)
              ⊗ pair_pow (ate_pairing r_pub_key.h1 r_pub_key.h_cap) params.m2)
            ⊗ pair_pow (ate_pairing r_pub_key.h2 r_pub_key.h_cap) params.s);
    t4 =
        pair_pow (ate_pairing r_pub_key.htilde rev_reg.accum) params.r
        ⊗ pair_pow (ate_pairing (negate r_pub_key.g) r_pub_key.h_cap) params.r_prime;
    t5 = (r_pub_key.g • params.r) ⊕ (r_pub_key.htilde • params.o_prime);
    t6 = normal (
        ((proof_c.d • params.r_prime_prime) ⊕ (r_pub_key.g • neg params.m_prime))
        ⊕ (r_pub_key.htilde • neg params.t_prime));
    t7 =
        (pair_pow (ate_pairing (r_pub_key.pk ⊕ proof_c.g) r_pub_key.h_cap) params.r_prime_prime
          ⊗ pair_pow (ate_pairing r_pub_key.htilde r_pub_key.h_cap) (neg params.m_prime))
        ⊗ pair_pow (ate_pairing r_pub_key.htilde proof_c.s) params.r;
    t8 =
        pair_pow (ate_pairing r_pub_key.htilde r_pub_key.u) params.r
        ⊗ pair_pow (ate_pairing (negate r_pub_key.g) r_pub_key.h_cap) params.r_prime_prime_prime;
  }

  -- `_gen_c_list_params`, of which `random i` is the i-th draw
  unfoldable pub gen_c_list_params :
      NonRevocationCredentialSignature M N → (ℕ → F) → NonRevocProofXList F
  gen_c_list_params r_cred random = record {
    rho = random 0;
    r = random 1;
    r_prime = random 2;
    r_prime_prime = random 3;
    r_prime_prime_prime = random 4;
    o = random 5;
    o_prime = random 6;
    m = random 0 ⊠ r_cred.c;
    m_prime = random 1 ⊠ random 3;
    t = random 5 ⊠ r_cred.c;
    t_prime = random 6 ⊠ random 3;
    m2 = C.reread r_cred.m2;
    s = r_cred.vr_prime_prime;
    c = r_cred.c;
  }

  -- `_create_c_list_values`
  unfoldable pub create_c_list_values :
      NonRevocationCredentialSignature M N
      → NonRevocProofXList F
      → CredentialRevocationPublicKey M N
      → Witness N
      → NonRevocProofCList M N
  create_c_list_values r_cred params r_pub_key witness = record {
    e = (r_pub_key.h • params.rho) ⊕ (r_pub_key.htilde • params.o);
    d = (r_pub_key.g • params.r) ⊕ (r_pub_key.htilde • params.o_prime);
    a = r_cred.sigma ⊕ (r_pub_key.htilde • params.rho);
    g = r_cred.g_i ⊕ (r_pub_key.htilde • params.r);
    w = N.◌⊕◌ witness.omega (N.◌•◌ r_pub_key.h_cap params.r_prime);
    s = N.◌⊕◌ r_cred.witness_signature.sigma_i (N.◌•◌ r_pub_key.h_cap params.r_prime_prime);
    u = N.◌⊕◌ r_cred.witness_signature.u_i (N.◌•◌ r_pub_key.h_cap params.r_prime_prime_prime);
  }

  -- `_init_non_revocation_proof`, with the draws of `_gen_tau_list_params`
  unfoldable pub init_non_revocation_proof :
      NonRevocationCredentialSignature M N
      → RevocationRegistry N
      → CredentialRevocationPublicKey M N
      → Witness N
      → (ℕ → F)
      → NonRevocProofXList F
      → NonRevocInitProof P
  init_non_revocation_proof r_cred rev_reg cred_rev_pub_key witness random tau_list_params =
      let c_list_params = gen_c_list_params r_cred random in
      let c_list = create_c_list_values r_cred c_list_params cred_rev_pub_key witness in
      record {
        c_list_params = c_list_params;
        tau_list_params = tau_list_params;
        c_list = c_list;
        tau_list = create_tau_list_values cred_rev_pub_key rev_reg tau_list_params c_list;
      }

  -- `_finalize_non_revocation_proof`, for the element of the challenge
  unfoldable pub finalize_non_revocation_proof :
      NonRevocInitProof P → F → Outcome UrsaCryptoError (NonRevocProof M N)
  finalize_non_revocation_proof init_proof ch_num_z = do
    x_list ← from_list (
        responses K ch_num_z (as_list init_proof.tau_list_params)
          (as_list init_proof.c_list_params))
    ok (record { x_list = x_list; c_list = init_proof.c_list })

  -- `_verify_non_revocation_proof`, for the element of the challenge
  unfoldable pub verify_non_revocation_proof :
      CredentialRevocationPublicKey M N
      → RevocationRegistry N
      → RevocationKeyPublic P
      → F
      → NonRevocProof M N
      → NonRevocProofTauList P
  verify_non_revocation_proof r_pub_key rev_reg rev_key_pub ch_num_z proof =
      let expected = create_tau_list_expected_values r_pub_key rev_reg rev_key_pub proof.c_list in
      let calc = create_tau_list_values r_pub_key rev_reg proof.x_list proof.c_list in
      record {
        t1 = (expected.t1 • ch_num_z) ⊕ calc.t1;
        t2 = (expected.t2 • ch_num_z) ⊕ calc.t2;
        t3 = pair_pow expected.t3 ch_num_z ⊗ calc.t3;
        t4 = pair_pow expected.t4 ch_num_z ⊗ calc.t4;
        t5 = (expected.t5 • ch_num_z) ⊕ calc.t5;
        t6 = (expected.t6 • ch_num_z) ⊕ calc.t6;
        t7 = pair_pow expected.t7 ch_num_z ⊗ calc.t7;
        t8 = pair_pow expected.t8 ch_num_z ⊗ calc.t8;
      }
