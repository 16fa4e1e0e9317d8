-- ===== src/Zmix/Ps/Signature/Sign.antt =====
-- What the signer returns passes `verify`, blinded or not.
use smartchaindb_driver.Prelude.{
  ◌+◌, ◌-◌, ◌<◌, ◌≡◌, ◌≢◌, sym, ap, ap₂, ◌∙◌, true, List, ◌∷◌, ◌++◌, length, take, drop,
  length-append, length-take, length-drop, take-append-drop, ok, arith, ◌>>=◌, ==_refl, lt→leb,
}
use smartchaindb_driver.Amcl.{Field, Group, Pairing}
use smartchaindb_driver.Amcl.Algebra.{•-inverse_right, identity-•, •-•_comm, eq_⊖}
use smartchaindb_driver.Amcl.Sums.{sum_of, sum_of-append}
use smartchaindb_driver.Zmix.Ps.Keys.{Sigkey, Verkey}
use smartchaindb_driver.Zmix.Ps.Keys.Laws.{IsKeyPair, length-y, validate-IsKeyPair}
use smartchaindb_driver.Zmix.Ps.Signature.{
  Signature, new, new_with_committed_messages, verify, get_unblinded_signature,
}
use smartchaindb_driver.Zmix.Ps.Signature.Verify.{
  message_points-eq, dot, sum_of-multiples, exponent, verify_exactly,
}

module _ {K : Field} {S O : Group K} (P : Pairing S O) where
  open K use {F, fe_zero, ◌⊞◌}
  open S use {G, identity, ◌⊕◌, ◌⊖◌, ◌•◌, ⊕_assoc, ⊕_comm, ⊕-•, •-⊞}

  pub proper_multiple : (p : G) (a : F) → p ≢ identity → a ≢ fe_zero → p • a ≢ identity
  proper_multiple p a n m e =
      n (sym (•-inverse_right S p a m) ∙ ap (λ y. y • K.inverse a) e ∙ identity-• S (K.inverse a))

  -- the signature of the exponent `k`
  abbrev signature_of : G → F → F → Signature S
  signature_of g k u = record { sigma_1 = g • u; sigma_2 = (g • k) • u }

  accepted :
      (vk : Verkey S O) (sk : Sigkey S) (x u : F) (ys messages : List F)
      → IsKeyPair vk sk x ys
      → vk.g ≢ identity
      → vk.g_tilde ≢ O.identity
      → length messages ≡ length ys
      → u ≢ fe_zero
      → exponent P x ys messages ≢ fe_zero
      → verify P (signature_of vk.g (exponent P x ys messages) u) messages vk ≡ ok true
  accepted vk sk x u ys messages k n n' h nu nk =
      (verify_exactly P (signature_of vk.g (exponent P x ys messages) u) messages vk sk x ys k n'
          h).1
        (
          proper_multiple vk.g u n nu,
          proper_multiple (vk.g • exponent P x ys messages) u (proper_multiple vk.g _ n nk) nu,
          •-•_comm S vk.g u (exponent P x ys messages),
        )

  signed :
      (vk : Verkey S O) (sk : Sigkey S) (x u : F) (ys messages : List F)
      → IsKeyPair vk sk x ys
      → length messages ≡ length ys
      → new vk sk messages u ≡ ok (signature_of vk.g (exponent P x ys messages) u)
  unfolding new
  signed vk sk x u ys messages k h =
      let same : length messages ≡ length vk.y = h ∙ sym (length-y vk sk x ys k) in
      let at : length vk.y - length messages ≡ 0 = omega arith in
      let point : sk.x ⊕ sum_of S vk.y messages ≡ vk.g • exponent P x ys messages =
        ap₂ (λ a l. a ⊕ sum_of S l messages) k.signing k.signing_y
        ∙ ap (λ b. (vk.g • x) ⊕ b) (sum_of-multiples S vk.g ys messages)
        ∙ sym (•-⊞ vk.g x (dot K ys messages)) in
      rw (
        validate-IsKeyPair vk sk x ys k,
        at,
        message_points-eq vk.y 0 messages (omega arith),
        S.const_time-eq vk.y messages (sym same),
        point,
        same,
        ==_refl,
      )

  -- Signing and then verifying the same messages succeeds: for a key pair over generators other than the
  -- identity, as many messages as secrets y, a draw u other than 0, and an exponent x + y1 m1 + ... other than 0.
  pub verify-new_ps :
      (vk : Verkey S O) (sk : Sigkey S) (x u : F) (ys messages : List F)
      → IsKeyPair vk sk x ys
      → vk.g ≢ identity
      → vk.g_tilde ≢ O.identity
      → length messages ≡ length ys
      → u ≢ fe_zero
      → exponent P x ys messages ≢ fe_zero
      → (do sig ← new vk sk messages u; verify P sig messages vk) ≡ ok true
  verify-new_ps vk sk x u ys messages k n n' h nu nk =
      rw (signed vk sk x u ys messages k h, accepted vk sk x u ys messages k n n' h nu nk)

  -- what the user commits to: the hidden messages, the first ones, with a blinding
  abbrev pub commitment_of : Verkey S O → F → List F → G
  commitment_of vk blinding hidden = sum_of S (vk.g ∷ take (length hidden) vk.y) (blinding ∷ hidden)

  blind_point :
      (vk : Verkey S O) (sk : Sigkey S) (x blinding : F) (ys hidden known : List F)
      → IsKeyPair vk sk x ys
      → length hidden + length known ≡ length ys
      → (sk.x ⊕ sum_of S (drop (length hidden) vk.y) known) ⊕ commitment_of vk blinding hidden
        ≡ (vk.g • exponent P x ys (hidden ++ known)) ⊕ (vk.g • blinding)
  blind_point vk sk x blinding ys hidden known k h =
      regroup sk.x (sum_of S (drop (length hidden) vk.y) known) (vk.g • blinding)
        (sum_of S (take (length hidden) vk.y) hidden)
      ∙ ap (λ z. (sk.x ⊕ z) ⊕ (vk.g • blinding))
          (sym (
              sum_of-append S (take (length hidden) vk.y) (drop (length hidden) vk.y) hidden known
                (length-take (length hidden) vk.y (omega (arith, length-y vk sk x ys k))))
            ∙ ap (λ l. sum_of S l (hidden ++ known)) (take-append-drop (length hidden) vk.y))
      ∙ ap (λ z. z ⊕ (vk.g • blinding))
          (ap₂ (λ a l. a ⊕ sum_of S l (hidden ++ known)) k.signing k.signing_y
            ∙ ap (λ b. (vk.g • x) ⊕ b) (sum_of-multiples S vk.g ys (hidden ++ known))
            ∙ sym (•-⊞ vk.g x (dot K ys (hidden ++ known))))
    where
      regroup : (a b c d : G) → (a ⊕ b) ⊕ (c ⊕ d) ≡ (a ⊕ (d ⊕ b)) ⊕ c
      regroup a b c d = simp (⊕_assoc, ⊕_comm)

  unblinded : (g z : G) (u t : F) → ((z ⊕ (g • t)) • u) ⊖ ((g • u) • t) ≡ z • u
  unblinded g z u t =
      sym (eq_⊖ S _ _ (z • u) (ap (λ y. (z • u) ⊕ y) (•-•_comm S g u t) ∙ sym (⊕-• z (g • t) u)))

  blind_signed :
      (vk : Verkey S O) (sk : Sigkey S) (x u blinding : F) (ys hidden known : List F)
      → IsKeyPair vk sk x ys
      → length hidden + length known ≡ length ys
      → 0 < length hidden
      → new_with_committed_messages vk sk (commitment_of vk blinding hidden) known u
        ≡ ok (record {
          sigma_1 = vk.g • u;
          sigma_2 = ((vk.g • exponent P x ys (hidden ++ known)) ⊕ (vk.g • blinding)) • u;
        })
  unfolding new_with_committed_messages
  blind_signed vk sk x u blinding ys hidden known k h some_hidden =
      let count = length-y vk sk x ys k in
      let at : length vk.y - length known ≡ length hidden = omega arith in
      rw (
        validate-IsKeyPair vk sk x ys k,
        lt→leb (length vk.y) (length known) (omega arith),
        at,
        message_points-eq vk.y (length hidden) known (omega arith),
        S.const_time-eq (drop (length hidden) vk.y) known
            (omega (arith, length-drop {0} (length hidden) vk.y)),
        blind_point vk sk x blinding ys hidden known k h,
      )

  -- A blind signature on the commitment to one or more messages, the first ones, and on the others, once
  -- unblinded with the blinding of the commitment, verifies for all the messages, for a key pair, generators,
  -- draw and exponent as above.
  pub verify-blind_ps :
      (vk : Verkey S O) (sk : Sigkey S) (x u blinding : F) (ys hidden known : List F)
      → IsKeyPair vk sk x ys
      → vk.g ≢ identity
      → vk.g_tilde ≢ O.identity
      → length hidden + length known ≡ length ys
      → 0 < length hidden
      → u ≢ fe_zero
      → exponent P x ys (hidden ++ known) ≢ fe_zero
      → (do
        sig ← new_with_committed_messages vk sk (commitment_of vk blinding hidden) known u
        verify P (get_unblinded_signature sig blinding) (hidden ++ known) vk)
        ≡ ok true
  unfolding get_unblinded_signature
  verify-blind_ps vk sk x u blinding ys hidden known k n n' h some_hidden nu nk = rw (
    blind_signed vk sk x u blinding ys hidden known k h some_hidden,
    unblinded vk.g (vk.g • exponent P x ys (hidden ++ known)) u blinding,
    accepted vk sk x u ys (hidden ++ known) k n n' (length-append hidden known ∙ h) nu nk,
  )
