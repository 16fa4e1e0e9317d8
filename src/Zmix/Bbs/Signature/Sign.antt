-- ===== src/Zmix/Bbs/Signature/Sign.antt =====
-- What the signer returns passes `verify`, blinded or not.
use smartchaindb_driver.Prelude.{
  ℕ, ◌+◌, ◌-◌, ◌<◌, ◌≡◌, ◌≢◌, refl, sym, ap, ◌∙◌, true, false, ◌==◌, List, ◌∷◌, ◌++◌, length, take,
  drop, length-append, length-take, take-append-drop, ok, arith, ◌>>=◌, le→ltb,
}
use smartchaindb_driver.Amcl.{Field, Group, Pairing}
use smartchaindb_driver.Amcl.Algebra.{identity-⊕, •-inverse, ⊕_left_comm}
use smartchaindb_driver.Amcl.Sums.{sum_of, sum_of-append}
use smartchaindb_driver.Zmix.Bbs.Keys.{PublicKey, message_count}
use smartchaindb_driver.Zmix.Bbs.Signature.{
  Signature, new, new_with_committed_messages, verify, get_unblinded_signature,
}
use smartchaindb_driver.Zmix.Bbs.Signature.Base.{base_of, compute_b_const_time-eq}
use smartchaindb_driver.Zmix.Bbs.Signature.Verify.{IsKeyPair, verify_iff}

module _ {K : Field} {G1 G2 : Group K} (P : Pairing G1 G2) where
  open K use {F, fe_zero, fe_one, ◌⊞◌, inverse, ⊞_comm}
  open G1 use {G, identity, ◌⊕◌, ◌•◌, ⊕_assoc, ⊕_comm, •-one, •-⊞}

  -- the signature that is made of the point `b`
  abbrev signature_of : F → F → F → G → Signature G1
  signature_of e s x b = record { a = b • inverse (x ⊞ e); e = e; s = s }

  signed :
      (e s x : F) (commitment : G) (messages : List F) (vk : PublicKey G1 G2) (offset : ℕ)
      → offset + length messages ≡ message_count vk
      → new_with_committed_messages e s commitment messages x vk
        ≡ ok (signature_of e s x (commitment ⊕ base_of vk messages s offset))
  unfolding new_with_committed_messages
  signed e s x commitment messages vk offset h =
      let at : length vk.h - length messages ≡ offset = omega arith in
      rw (
        le→ltb (length vk.h) (length messages) (omega arith),
        at,
        compute_b_const_time-eq commitment vk messages s offset h,
      )

  -- A signature made of the point that a verifier recomputes is accepted.
  accepted :
      (e s t x : F) (b : G) (messages : List F) (vk : PublicKey G1 G2)
      → IsKeyPair P vk x
      → length messages ≡ message_count vk
      → x ⊞ e ≢ fe_zero
      → b ≡ base_of vk messages t 0
      → verify P (record { a = b • inverse (x ⊞ e); e = e; s = t }) messages vk ≡ ok true
  accepted e s t x b messages vk k h n same =
      (verify_iff P (record { a = b • inverse (x ⊞ e); e = e; s = t }) messages vk x k h).1
        (ap (λ y. (b • inverse (x ⊞ e)) • y) (⊞_comm e x) ∙ •-inverse G1 b (x ⊞ e) n ∙ same)

  -- Signing and then verifying the same messages succeeds: for a key pair of the secret `x`, one or more
  -- messages, as many as the key has generators, and draws with x + e different from 0.
  pub verify-new :
      (e s x : F) (messages : List F) (vk : PublicKey G1 G2)
      → IsKeyPair P vk x
      → 0 < length messages
      → length messages ≡ message_count vk
      → x ⊞ e ≢ fe_zero
      → (do sig ← new e s messages x vk; verify P sig messages vk) ≡ ok true
  unfolding new
  verify-new e s x messages vk k some_message h n = rw (
    test,
    signed e s x identity messages vk 0 (omega (arith, h)),
    identity-⊕ G1 (base_of vk messages s 0),
    accepted e s s x (base_of vk messages s 0) messages vk k h n refl,
  )
    where
      test : (length messages == 0) ≡ false
      test = ground arith

  -- what the user commits to: the blinding and the hidden messages, the first ones
  abbrev pub commitment_of : PublicKey G1 G2 → F → List F → G
  commitment_of vk blinding hidden =
      sum_of G1 (vk.h0 ∷ take (length hidden) vk.h) (blinding ∷ hidden)

  blind_base :
      (vk : PublicKey G1 G2) (s blinding : F) (hidden known : List F)
      → length hidden + length known ≡ message_count vk
      → commitment_of vk blinding hidden ⊕ base_of vk known s (length hidden)
        ≡ base_of vk (hidden ++ known) (s ⊞ blinding) 0
  unfolding message_count
  blind_base vk s blinding hidden known h = rw (split, •-⊞) (simp (⊕_assoc, ⊕_comm, ⊕_left_comm G1))
    where
      split :
          sum_of G1 vk.h (hidden ++ known)
          ≡ sum_of G1 (take (length hidden) vk.h) hidden
            ⊕ sum_of G1 (drop (length hidden) vk.h) known
      split =
          ap (λ l. sum_of G1 l (hidden ++ known)) (sym (take-append-drop (length hidden) vk.h))
          ∙ sum_of-append G1 (take (length hidden) vk.h) (drop (length hidden) vk.h) hidden known
              (length-take (length hidden) vk.h (omega arith))

  -- A blind signature on the commitment to the first messages and on the others, once unblinded with the
  -- blinding of the commitment, verifies for all the messages.
  pub verify-blind :
      (e s x blinding : F) (hidden known : List F) (vk : PublicKey G1 G2)
      → IsKeyPair P vk x
      → length hidden + length known ≡ message_count vk
      → x ⊞ e ≢ fe_zero
      → (do
        sig ← new_with_committed_messages e s (commitment_of vk blinding hidden) known x vk
        verify P (get_unblinded_signature sig blinding) (hidden ++ known) vk)
        ≡ ok true
  unfolding get_unblinded_signature
  verify-blind e s x blinding hidden known vk k h n = rw (
    signed e s x (commitment_of vk blinding hidden) known vk (length hidden) h,
    accepted e s (s ⊞ blinding) x
        (commitment_of vk blinding hidden ⊕ base_of vk known s (length hidden)) (hidden ++ known) vk
        k (length-append hidden known ∙ h) n (blind_base vk s blinding hidden known h),
  )
