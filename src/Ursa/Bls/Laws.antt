-- ===== src/Ursa/Bls/Laws.antt =====
-- What the two pairings of a BLS check amount to, and the sums of points of a multi-signature.
use smartchaindb_driver.Prelude.{◌≡◌, ◌≢◌, ◌↔◌, sym, ap, ap₂, ◌∙◌, true}
use smartchaindb_driver.Amcl.{Field, Group, Pairing}
use smartchaindb_driver.Amcl.Algebra.{•-neg, negate-negate, eq_negate}

module _ {K : Field} {M N : Group K} (P : Pairing M N) where
  open K use {F, fe_one, neg}

  -- the sign moves from one side to the other
  pub pairing-negate :
      (p : M.G) (q : N.G) → P.ate_pairing p (N.negate q) ≡ P.ate_pairing (M.negate p) q
  pairing-negate p q =
      ap (λ x. P.ate_pairing p x) (sym (•-neg N q fe_one ∙ ap N.negate (N.•-one q)))
      ∙ P.pairing-• p q (neg fe_one)
      ∙ ap (λ x. P.ate_pairing x q) (•-neg M p fe_one ∙ ap M.negate (M.•-one p))

  -- e(s, -g) · e(h, g · x) is the pairing of one point with g
  pub pairing_check :
      (s h : M.G) (g : N.G) (x : F)
      → P.ate_2_pairing s (N.negate g) h (N.◌•◌ g x)
        ≡ P.ate_pairing (M.◌⊕◌ (M.negate s) (M.◌•◌ h x)) g
  pairing_check s h g x =
      P.ate_2-eq s (N.negate g) h (N.◌•◌ g x)
      ∙ ap₂ (λ y z. P.◌⊗◌ y z) (pairing-negate s g) (P.pairing-• h g x)
      ∙ sym (P.pairing-⊕ (M.negate s) (M.◌•◌ h x) g)

  pub check_accepts :
      (h : M.G) (g : N.G) (x : F)
      → P.is_one (P.ate_2_pairing (M.◌•◌ h x) (N.negate g) h (N.◌•◌ g x)) ≡ true
  check_accepts h g x = (P.is_one_iff _).1 (
      pairing_check (M.◌•◌ h x) h g x
      ∙ ap (λ y. P.ate_pairing y g) (M.⊕_comm _ _ ∙ M.⊕-negate (M.◌•◌ h x))
      ∙ P.pairing-identity g)

  pub check_iff :
      (s h : M.G) (g : N.G) (x : F)
      → g ≢ N.identity
      → (P.is_one (P.ate_2_pairing s (N.negate g) h (N.◌•◌ g x)) ≡ true) ↔ (s ≡ M.◌•◌ h x)
  check_iff s h g x n = (
    λ accepted.
        sym (negate-negate M s)
        ∙ sym (
            eq_negate M (M.negate s) (M.◌•◌ h x) (
              P.eq_identity_of_pairing _ g n
                (sym (pairing_check s h g x) ∙ (P.is_one_iff _).0 accepted))),
    λ same. rw same (check_accepts h g x),
  )
