-- ===== src/Zmix/Ps/Signature/Verify.antt =====
-- What `verify` decides.
use smartchaindb_driver.Prelude.{
  ℕ, suc, ◌+◌, ◌≡◌, ◌≢◌, ◌↔◌, sym, ap, ap₂, ◌∙◌, true, false, ◌||◌, List, [], ◌∷◌, length, map,
  drop, drop-cons, drop_all, ok, ok-injective, arith, ==_refl, Bool-cases, inl, inr,
}
use smartchaindb_driver.Amcl.{Field, Group, Pairing}
use smartchaindb_driver.Amcl.Algebra.{eq_of_⊖, ⊖_self, •-zero}
use smartchaindb_driver.Amcl.Sums.{sum_of}
use smartchaindb_driver.Zmix.Ps.Keys.{Sigkey, Verkey}
use smartchaindb_driver.Zmix.Ps.Keys.Laws.{IsKeyPair, length-y, length-y_tilde, validate-IsKeyPair}
use smartchaindb_driver.Zmix.Ps.Signature.{
  Signature, message_points, check_verkey_and_messages_compat, verify,
}

pub message_points-eq :
    {P F : Type 0} (ps : List P) (index : ℕ) (ms : List F)
    → index + length ms ≡ length ps
    → message_points ps index ms ≡ ok (drop index ps)
unfolding message_points
message_points-eq ps index [] e = ap ok (sym (drop_all ps index (omega arith)))
message_points-eq ps index (m ∷ ms) e =
    let (p, found, split) = drop-cons ps index (omega arith) in
    rw (found, message_points-eq ps (suc index) ms (omega arith), split)

-- the sum of the products of two lists, place by place
abbrev pub dot : (K : Field) → List K.F → List K.F → K.F
dot K [] ms = K.fe_zero
dot K (y ∷ ys) [] = K.fe_zero
dot K (y ∷ ys) (m ∷ ms) = K.◌⊞◌ (K.◌⊠◌ y m) (dot K ys ms)

-- multiples of one point sum to one multiple
pub sum_of-multiples :
    {K : Field} (M : Group K) (p : M.G) (ys ms : List K.F)
    → sum_of M (map (λ y. M.◌•◌ p y) ys) ms ≡ M.◌•◌ p (dot K ys ms)
sum_of-multiples M p [] ms = sym (•-zero M p)
sum_of-multiples M p (y ∷ ys) [] = sym (•-zero M p)
sum_of-multiples M p (y ∷ ys) (m ∷ ms) =
    ap₂ (λ a b. M.◌⊕◌ a b) (sym (M.•-⊠ p y m)) (sum_of-multiples M p ys ms) ∙ sym (M.•-⊞ p _ _)

module _ {K : Field} {S O : Group K} (P : Pairing S O) where
  open K use {F, fe_one, ◌⊞◌}
  open S use {G, identity, ◌⊕◌, ◌⊖◌, ◌•◌, negate, is_identity, is_identity_iff}

  -- the secret exponent that signs the messages
  abbrev pub exponent : F → List F → List F → F
  exponent x ys messages = x ⊞ dot K ys messages

  verification_point :
      (vk : Verkey S O) (sk : Sigkey S) (x : F) (ys messages : List F)
      → IsKeyPair vk sk x ys
      → sum_of O (vk.x_tilde ∷ vk.y_tilde) (fe_one ∷ messages)
        ≡ O.◌•◌ vk.g_tilde (exponent x ys messages)
  verification_point vk sk x ys messages k =
      ap₂ (λ a l. O.◌⊕◌ (O.◌•◌ a fe_one) (sum_of O l messages)) k.verifying k.verifying_y
      ∙ ap₂ (λ a b. O.◌⊕◌ a b) (O.•-one _) (sum_of-multiples O vk.g_tilde ys messages)
      ∙ sym (O.•-⊞ vk.g_tilde x _)

  pub pairing_test :
      (s1 s2 : G) (q : O.G) (k : F)
      → P.ate_2_pairing s1 (O.◌•◌ q k) (negate s2) q ≡ P.ate_pairing ((s1 • k) ⊖ s2) q
  pairing_test s1 s2 q k = rw (P.ate_2-eq, P.pairing-•, S.⊖-eq, P.pairing-⊕)

  -- the pairing test as an equation
  pub pairing_test_iff :
      (s1 s2 : G) (q : O.G) (k : F)
      → q ≢ O.identity
      → (P.is_one (P.ate_2_pairing s1 (O.◌•◌ q k) (negate s2) q) ≡ true) ↔ (s1 • k ≡ s2)
  pairing_test_iff s1 s2 q k n = rw (pairing_test s1 s2 q k) (
    (λ t. eq_of_⊖ S _ _ (P.eq_identity_of_pairing _ q n ((P.is_one_iff _).0 t))),
    (λ e. (P.is_one_iff _).1 (ap (λ z. P.ate_pairing z q) (⊖_self S _ _ e) ∙ P.pairing-identity q)),
  )

  verify-eq :
      (sig : Signature S) (messages : List F) (vk : Verkey S O) (sk : Sigkey S) (x : F)
      (ys : List F)
      → IsKeyPair vk sk x ys
      → length messages ≡ length ys
      → is_identity sig.sigma_1 ≡ false
      → is_identity sig.sigma_2 ≡ false
      → verify P sig messages vk
        ≡ ok (
            P.is_one (
              P.ate_2_pairing sig.sigma_1
                (O.◌•◌ vk.g_tilde (exponent x ys messages))
                (negate sig.sigma_2)
                vk.g_tilde))
  unfolding verify
  verify-eq sig messages vk sk x ys k h p q = rw (
    p,
    q,
    validate-IsKeyPair vk sk x ys k,
    h ∙ sym (length-y vk sk x ys k),
    ==_refl,
    message_points-eq vk.y_tilde 0 messages (omega (arith, h, length-y_tilde vk sk x ys k)),
    O.var_time-eq (vk.x_tilde ∷ vk.y_tilde) (fe_one ∷ messages)
        (ap suc (length-y_tilde vk sk x ys k ∙ sym h)),
    verification_point vk sk x ys messages k,
  )

  pub proper_iff : (p : G) → (is_identity p ≡ false) ↔ (p ≢ identity)
  proper_iff p = ground (arith, is_identity_iff p)

  -- A signature with the identity among its points is rejected, whatever the messages and the key are.
  pub verify_identity :
      (sig : Signature S) (messages : List F) (vk : Verkey S O)
      → (is_identity sig.sigma_1 || is_identity sig.sigma_2) ≡ true
      → verify P sig messages vk ≡ ok false
  unfolding verify
  verify_identity sig messages vk bad = rw bad

  -- For a key pair of the secrets x and y1, y2, ... and as many messages, `verify` accepts exactly the
  -- signatures of points other than the identity with sigma_2 = sigma_1^(x + y1 m1 + y2 m2 + ...).
  pub verify_exactly :
      (sig : Signature S) (messages : List F) (vk : Verkey S O) (sk : Sigkey S) (x : F)
      (ys : List F)
      → IsKeyPair vk sk x ys
      → vk.g_tilde ≢ O.identity
      → length messages ≡ length ys
      → (verify P sig messages vk ≡ ok true) ↔ (
          (sig.sigma_1 ≢ identity)
          × (sig.sigma_2 ≢ identity)
          × (sig.sigma_1 • exponent x ys messages ≡ sig.sigma_2))
  verify_exactly sig messages vk sk x ys k n h =
      elim (Bool-cases (is_identity sig.sigma_1 || is_identity sig.sigma_2)) [
        | inl bad ↦ ((λ v. absurd (refused bad v)), (λ t. absurd (improper bad t.0 t.1)))
        | inr good ↦
            let (p, q) = proper good in
            rw (verify-eq sig messages vk sk x ys k h p q) (
              (λ v. (
                (proper_iff sig.sigma_1).0 p,
                (proper_iff sig.sigma_2).0 q,
                (pairing_test_iff sig.sigma_1 sig.sigma_2 vk.g_tilde (exponent x ys messages) n).0
                    (ok-injective v),
              )),
              (λ t. ap ok (
                  (pairing_test_iff sig.sigma_1 sig.sigma_2 vk.g_tilde (exponent x ys messages) n).1
                    t.2)),
            )
      ]
    where
      refused :
          (is_identity sig.sigma_1 || is_identity sig.sigma_2) ≡ true
          → verify P sig messages vk ≡ ok true
          → ⊥
      refused bad v = cc (verify_identity sig messages vk bad)

      improper :
          (is_identity sig.sigma_1 || is_identity sig.sigma_2) ≡ true
          → sig.sigma_1 ≢ identity
          → sig.sigma_2 ≢ identity
          → ⊥
      improper bad a b = ground (arith, is_identity_iff sig.sigma_1, is_identity_iff sig.sigma_2)

      proper :
          (is_identity sig.sigma_1 || is_identity sig.sigma_2) ≡ false
          → (is_identity sig.sigma_1 ≡ false) × (is_identity sig.sigma_2 ≡ false)
      proper good = ground arith

  pub compat-ok :
      (messages : List F) (vk : Verkey S O) (sk : Sigkey S) (x : F) (ys : List F)
      → IsKeyPair vk sk x ys
      → length messages ≡ length ys
      → check_verkey_and_messages_compat vk messages ≡ ok tt
  unfolding check_verkey_and_messages_compat
  compat-ok messages vk sk x ys k h =
      rw (validate-IsKeyPair vk sk x ys k, h ∙ sym (length-y vk sk x ys k), ==_refl)
