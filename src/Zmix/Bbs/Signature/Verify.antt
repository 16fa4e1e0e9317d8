-- ===== src/Zmix/Bbs/Signature/Verify.antt =====
-- What `verify` decides, and that what the signer returns passes it.
use smartchaindb_driver.Prelude.{
  ◌≡◌, ◌≢◌, ◌↔◌, ap, ◌∙◌, true, List, length, ok, err, ok-injective, arith, ==_refl,
}
use smartchaindb_driver.Amcl.{Field, Group, Pairing}
use smartchaindb_driver.Amcl.Algebra.{identity-⊕, eq_of_⊖, ⊖_self}
use smartchaindb_driver.Zmix.Bbs.Errors.{signing_error_message_count_mismatch}
use smartchaindb_driver.Zmix.Bbs.Keys.{PublicKey, message_count}
use smartchaindb_driver.Zmix.Bbs.Signature.{Signature, verify}
use smartchaindb_driver.Zmix.Bbs.Signature.Base.{base_of, compute_b_var_time-eq}

module _ {K : Field} {G1 G2 : Group K} (P : Pairing G1 G2) where
  open K use {F, fe_zero, fe_one, ◌⊞◌, inverse, ⊞_comm}
  open G1 use {
    G, identity, ◌⊕◌, ◌⊖◌, ◌•◌, negate, ⊕_assoc, ⊕_comm, ⊖-eq, •-one, •-⊞, is_identity_iff,
  }
  open P use {
    ate_pairing, ate_2_pairing, is_one, is_one_iff, ate_2-eq, pairing-⊕, pairing-•,
    pairing-identity, eq_identity_of_pairing,
  }

  -- the key pairs that `generate` returns
  abbrev pub IsKeyPair : PublicKey G1 G2 → F → Type 0
  IsKeyPair vk x = (vk.w ≡ G2.◌•◌ G2.generator x) × (G2.generator ≢ G2.identity)

  -- the pairing test e(a, g2^e w) e(-b, g2) = 1 for w = g2^x
  pairing_test :
      (a b : G) (e x : F) (w : G2.G)
      → w ≡ G2.◌•◌ G2.generator x
      → ate_2_pairing a (G2.◌⊕◌ (G2.◌•◌ G2.generator e) w) (negate b) G2.generator
        ≡ ate_pairing ((a • (e ⊞ x)) ⊖ b) G2.generator
  pairing_test a b e x w k = rw (k, ← G2.•-⊞, ate_2-eq, pairing-•, ⊖-eq, pairing-⊕)

  pub verify-eq :
      (sig : Signature G1) (messages : List F) (vk : PublicKey G1 G2) (x : F)
      → IsKeyPair vk x
      → length messages ≡ message_count vk
      → verify P sig messages vk
        ≡ ok (
            is_one (ate_pairing ((sig.a • (sig.e ⊞ x)) ⊖ base_of vk messages sig.s 0) G2.generator))
  unfolding verify
  verify-eq sig messages vk x k h = rw (
    h,
    ==_refl,
    compute_b_var_time-eq identity vk messages sig.s 0 (omega arith),
    identity-⊕ G1 (base_of vk messages sig.s 0),
    pairing_test sig.a (base_of vk messages sig.s 0) sig.e x vk.w k.0,
  )

  -- For a key pair and as many messages as generators, `verify` accepts exactly the signatures with
  -- a^(e + x) = g1 h0^s h1^m1 h2^m2 ...
  pub verify_iff :
      (sig : Signature G1) (messages : List F) (vk : PublicKey G1 G2) (x : F)
      → IsKeyPair vk x
      → length messages ≡ message_count vk
      → (verify P sig messages vk ≡ ok true) ↔ (sig.a • (sig.e ⊞ x) ≡ base_of vk messages sig.s 0)
  verify_iff sig messages vk x k h = rw (verify-eq sig messages vk x k h) (
    (λ t. eq_of_⊖ G1 _ _ (eq_identity_of_pairing _ _ k.1 ((is_one_iff _).0 (ok-injective t)))),
    (λ t. ap ok (
        (is_one_iff _).1 (
          ap (λ z. ate_pairing z G2.generator) (⊖_self G1 _ _ t) ∙ pairing-identity G2.generator))),
  )

  -- Any other number of messages is refused, with the number expected and the number given.
  pub verify_mismatch :
      (sig : Signature G1) (messages : List F) (vk : PublicKey G1 G2)
      → length messages ≢ message_count vk
      → verify P sig messages vk
        ≡ err (signing_error_message_count_mismatch (message_count vk) (length messages))
  unfolding verify
  verify_mismatch sig messages vk n = ground arith
