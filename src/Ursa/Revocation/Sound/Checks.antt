-- ===== src/Ursa/Revocation/Sound/Checks.antt =====
-- The three equations that the prover checks, for an issued credential and for a revoked one.
use smartchaindb_driver.Prelude.{
  ℕ, ◌+◌, ◌*◌, ◌^◌, ◌≤◌, ◌<◌, ◌≡◌, ◌≢◌, sym, ap, ap₂, ◌∙◌, true, false, List, ok, arith,
}
use smartchaindb_driver.Amcl.{Field, Group, Pairing}
use smartchaindb_driver.Amcl.Algebra.{•-inverse, •-inverse_right, identity-⊕}
use smartchaindb_driver.Zmix.Selection.{contains}
use smartchaindb_driver.Ursa.Pair.{Curve, power, add_u32}
use smartchaindb_driver.Ursa.Revocation.{
  CredentialRevocationPublicKey, CredentialRevocationPrivateKey, RevocationRegistry,
  RevocationKeyPublic, Witness,
}
use smartchaindb_driver.Ursa.Revocation.Sets.{remove}
use smartchaindb_driver.Ursa.Revocation.Tails.Laws.{index_power-eq}
use smartchaindb_driver.Ursa.Revocation.Sums.{
  IsCredentials, weight, weight-remove, weight-shift, exponent, remove_absent,
}
use smartchaindb_driver.Ursa.Revocation.Registry.{Accumulates, place}
use smartchaindb_driver.Ursa.Revocation.Holder.{IsWitness}
use smartchaindb_driver.Ursa.Revocation.Issuer.{new_revocation_registry_keys}

-- The keys of an issuer belong together.
pub record AreKeys {K : Field} {M N : Group K} (r_pub : CredentialRevocationPublicKey M N)
    (r_priv : CredentialRevocationPrivateKey K) : Type 0 where
  pub pk-eq : r_pub.pk ≡ M.◌•◌ r_pub.g r_priv.sk
  pub y-eq : r_pub.y ≡ N.◌•◌ r_pub.h_cap r_priv.x

module _ {K : Field} {M N : Group K} {P : Pairing M N} (C : Curve P)
    (r_pub : CredentialRevocationPublicKey M N) (r_priv : CredentialRevocationPrivateKey K)
    (gamma : K.F) (max_cred_num i : ℕ) where
  open K use {F, fe_zero, ◌⊞◌, ◌⊠◌, inverse}
  open M use {G, identity, ◌⊕◌, ◌•◌, ⊕_assoc, ⊕_comm}
  open P use {ate_pairing, ◌⊗◌, pairing-•}

  -- the accumulator's key
  abbrev pub key_of : RevocationKeyPublic P
  key_of = record {
    z = C.pair_pow (ate_pairing r_pub.g r_pub.g_dash) (power K gamma (max_cred_num + 1));
  }

  pub new_revocation_registry_keys-eq :
      2 * max_cred_num + 1 < 2 ^ 32
      → new_revocation_registry_keys C r_pub max_cred_num gamma
        ≡ ok (key_of, record { gamma = gamma })
  unfolding new_revocation_registry_keys
  new_revocation_registry_keys-eq s =
      let at : add_u32 max_cred_num 1 ≡ max_cred_num + 1 = omega arith in
      rw (at, index_power-eq C (max_cred_num + 1) gamma (omega arith))

  -- the pairing of the index's point with the accumulator, on the side of the first group
  left_side :
      (rev_reg : RevocationRegistry N) (live : List ℕ)
      → Accumulates C r_pub gamma max_cred_num rev_reg live
      → ate_pairing (r_pub.g • power K gamma i) rev_reg.accum
        ≡ ate_pairing (r_pub.g • weight K gamma (exponent max_cred_num i) live) r_pub.g_dash
  left_side rev_reg live a =
      ap (ate_pairing (r_pub.g • power K gamma i)) a
      ∙ pairing-• _ _ _
      ∙ ap (λ p. ate_pairing p r_pub.g_dash)
          (sym (M.•-⊠ r_pub.g _ _)
            ∙ ap (λ s. r_pub.g • s) (weight-shift K gamma (place max_cred_num) i live))

  right_side :
      (witness : Witness N) (live : List ℕ)
      → IsWitness N r_pub.g_dash gamma max_cred_num i witness live
      → ate_pairing r_pub.g witness.omega
        ≡ ate_pairing
            (r_pub.g • weight K gamma (exponent max_cred_num i) (remove i live))
            r_pub.g_dash
  right_side witness live w = ap (ate_pairing r_pub.g) w ∙ pairing-• _ _ _

  pub z_calc_valid :
      (rev_reg : RevocationRegistry N) (witness : Witness N) (live : List ℕ)
      → i ≤ max_cred_num
      → IsCredentials live max_cred_num
      → contains live i ≡ true
      → Accumulates C r_pub gamma max_cred_num rev_reg live
      → IsWitness N r_pub.g_dash gamma max_cred_num i witness live
      → ate_pairing (r_pub.g • power K gamma i) rev_reg.accum
          ⊗ C.pair_inverse (ate_pairing r_pub.g witness.omega)
        ≡ key_of.z
  z_calc_valid rev_reg witness live within c m a w =
      let top : exponent max_cred_num i i ≡ max_cred_num + 1 = omega arith in
      ap₂ (λ l r. l ⊗ C.pair_inverse r)
        (left_side rev_reg live a
          ∙ ap (λ s. ate_pairing (r_pub.g • s) r_pub.g_dash)
              (weight-remove K gamma (exponent max_cred_num i) i max_cred_num live c m
                ∙ ap
                    (λ e.
                      power K gamma e ⊞ weight K gamma (exponent max_cred_num i) (remove i live))
                    top)
          ∙ ap (λ p. ate_pairing p r_pub.g_dash) (M.•-⊞ r_pub.g _ _)
          ∙ P.pairing-⊕ _ _ _)
        (right_side witness live w)
      ∙ C.⊗-inverse _ _
      ∙ sym (C.pair_pow-eq _ _ _)

  pub z_calc_revoked :
      (rev_reg : RevocationRegistry N) (witness : Witness N) (live : List ℕ)
      → contains live i ≡ false
      → Accumulates C r_pub gamma max_cred_num rev_reg live
      → IsWitness N r_pub.g_dash gamma max_cred_num i witness live
      → ate_pairing (r_pub.g • power K gamma i) rev_reg.accum
          ⊗ C.pair_inverse (ate_pairing r_pub.g witness.omega)
        ≡ P.gt_one
  z_calc_revoked rev_reg witness live absent a w =
      let whole = r_pub.g • weight K gamma (exponent max_cred_num i) live in
      ap₂ (λ l r. l ⊗ C.pair_inverse r)
        (left_side rev_reg live a
          ∙ ap (λ p. ate_pairing p r_pub.g_dash) (sym (identity-⊕ M whole))
          ∙ P.pairing-⊕ _ _ _)
        (right_side witness live w
          ∙ ap
              (λ l. ate_pairing (r_pub.g • weight K gamma (exponent max_cred_num i) l) r_pub.g_dash)
              (remove_absent i live absent))
      ∙ C.⊗-inverse _ _
      ∙ P.pairing-identity r_pub.g_dash

  pub second_check :
      AreKeys r_pub r_priv
      → r_priv.sk ⊞ power K gamma i ≢ fe_zero
      → ate_pairing
          (r_pub.pk ⊕ (r_pub.g • power K gamma i))
          (N.◌•◌ r_pub.g_dash (inverse (r_priv.sk ⊞ power K gamma i)))
        ≡ ate_pairing r_pub.g r_pub.g_dash
  second_check k n =
      pairing-• _ _ _
      ∙ ap (λ p. ate_pairing (p • inverse (r_priv.sk ⊞ power K gamma i)) r_pub.g_dash)
          (ap (λ z. z ⊕ (r_pub.g • power K gamma i)) k.pk-eq ∙ sym (M.•-⊞ r_pub.g _ _))
      ∙ ap (λ p. ate_pairing p r_pub.g_dash) (•-inverse_right M r_pub.g _ n)

  regroup : (a b c d : G) → ((a ⊕ b) ⊕ c) ⊕ d ≡ (a ⊕ (b ⊕ d)) ⊕ c
  regroup a b c d = simp (⊕_assoc, ⊕_comm)

  pub third_check :
      (m2 vr_prime vr_prime_prime c : F)
      → AreKeys r_pub r_priv
      → r_priv.x ⊞ c ≢ fe_zero
      → ate_pairing
          (((((r_pub.h0 ⊕ (r_pub.h1 • m2)) ⊕ (r_pub.h2 • vr_prime)) ⊕ (r_pub.g • power K gamma i))
              ⊕ (r_pub.h2 • vr_prime_prime))
            • inverse (r_priv.x ⊞ c))
          (N.◌⊕◌ r_pub.y (N.◌•◌ r_pub.h_cap c))
        ≡ ate_pairing
            (((r_pub.h0 ⊕ (r_pub.h1 • m2)) ⊕ (r_pub.h2 • (vr_prime ⊞ vr_prime_prime)))
              ⊕ (r_pub.g • power K gamma i))
            r_pub.h_cap
  third_check m2 vr_prime vr_prime_prime c k n =
      ap (ate_pairing _)
        (ap (λ q. N.◌⊕◌ q (N.◌•◌ r_pub.h_cap c)) k.y-eq ∙ sym (N.•-⊞ r_pub.h_cap _ _))
      ∙ pairing-• _ _ _
      ∙ ap (λ p. ate_pairing p r_pub.h_cap)
          (•-inverse M _ _ n
            ∙ regroup (r_pub.h0 ⊕ (r_pub.h1 • m2)) (r_pub.h2 • vr_prime) (r_pub.g • power K gamma i)
                (r_pub.h2 • vr_prime_prime)
            ∙ ap (λ z. ((r_pub.h0 ⊕ (r_pub.h1 • m2)) ⊕ z) ⊕ (r_pub.g • power K gamma i))
                (sym (M.•-⊞ r_pub.h2 _ _)))
