-- ===== src/Zmix/Bbs/PokSig/Relations.antt =====
-- The relations between the points of a proof of knowledge that an honest prover satisfies.
use smartchaindb_driver.Prelude.{◌≡◌, ◌≢◌, sym, ap, ap₂, ◌∙◌}
use smartchaindb_driver.Amcl.{Field, Group}
use smartchaindb_driver.Amcl.Algebra.{
  ⊕_left_comm, ⊖_cancel, eq_⊖, •-neg, •-⊟, negate-•, negate-⊕, negate-negate, •-•_comm,
  ⊕_cancel_pair, negate-⊕_cancel, •-inverse_right,
}

module _ {K : Field} (M : Group K) where
  open K use {F, fe_zero, ◌⊞◌, ◌⊟◌, ◌⊠◌, neg, inverse, ⊞_comm}
  open M use {G, identity, ◌⊕◌, ◌⊖◌, ◌•◌, negate, ⊕_assoc, ⊕_comm, ⊕-identity, ⊖-eq, •-⊠, •-⊞, ⊕-•}

  -- a_prime^x = a_bar, for a signature with a^(e + x) = b
  pub randomized :
      (a b : G) (e x r1 : F) → a • (e ⊞ x) ≡ b → (a • r1) • x ≡ (b • r1) ⊖ ((a • r1) • e)
  randomized a b e x r1 h = eq_⊖ M (b • r1) ((a • r1) • e) ((a • r1) • x) (
      sym (•-⊞ (a • r1) x e)
      ∙ ap (λ y. (a • r1) • y) (⊞_comm x e)
      ∙ •-•_comm M a r1 (e ⊞ x)
      ∙ ap (λ y. y • r1) h)

  -- a_bar / d = a_prime^-e h0^r2
  pub first_relation :
      (b h0 a' : G) (e r1 r2 : F)
      → (a' • neg e) ⊕ ((h0 • r2) ⊕ identity) ≡ ((b • r1) ⊖ (a' • e)) ⊖ ((b • r1) ⊕ (h0 • neg r2))
  first_relation b h0 a' e r1 r2 = eq_⊖ M _ _ _ (
      ap₂ (λ x y. x ⊕ y) (ap₂ (λ x y. x ⊕ y) (•-neg M a' e) (⊕-identity (h0 • r2)))
        (ap (λ y. (b • r1) ⊕ y) (•-neg M h0 r2))
      ∙ ⊕_cancel_pair M (negate (a' • e)) (h0 • r2) (b • r1)
      ∙ sym (⊖-eq (b • r1) (a' • e)))

  d-inverse :
      (b h0 : G) (r1 r2 : F)
      → r1 ≢ fe_zero
      → ((b • r1) ⊕ (h0 • neg r2)) • inverse r1 ≡ b ⊕ negate (h0 • (r2 ⊠ inverse r1))
  d-inverse b h0 r1 r2 n =
      ⊕-• (b • r1) (h0 • neg r2) (inverse r1)
      ∙ ap₂ (λ x y. x ⊕ y) (•-inverse_right M b r1 n)
          (ap (λ y. y • inverse r1) (•-neg M h0 r2)
            ∙ negate-• M (h0 • r2) (inverse r1)
            ∙ ap negate (sym (•-⊠ h0 r2 (inverse r1))))

  -- d^-r3 h0^s_prime and the hidden part make the inverse of g1 and the revealed part
  pub second_relation :
      (b g h0 hidden revealed : G) (s r1 r2 : F)
      → r1 ≢ fe_zero
      → b ≡ g ⊕ ((h0 • s) ⊕ (revealed ⊕ hidden))
      → (((b • r1) ⊕ (h0 • neg r2)) • neg (inverse r1)) ⊕ ((h0 • (s ⊟ (r2 ⊠ inverse r1))) ⊕ hidden)
        ≡ negate (g ⊕ revealed)
  second_relation b g h0 hidden revealed s r1 r2 n h =
      ap₂ (λ x y. x ⊕ (y ⊕ hidden)) without_d (•-⊟ M h0 s (r2 ⊠ inverse r1))
      ∙ ⊕_assoc (negate b) t (((h0 • s) ⊖ t) ⊕ hidden)
      ∙ ap (λ y. negate b ⊕ y)
          (sym (⊕_assoc t ((h0 • s) ⊖ t) hidden)
            ∙ ap (λ y. y ⊕ hidden) (⊕_comm t ((h0 • s) ⊖ t) ∙ ⊖_cancel M (h0 • s) t))
      ∙ ap (λ y. negate y ⊕ ((h0 • s) ⊕ hidden)) (h ∙ regroup)
      ∙ negate-⊕_cancel M (g ⊕ revealed) ((h0 • s) ⊕ hidden)
    where
      t : G
      t = h0 • (r2 ⊠ inverse r1)

      without_d : ((b • r1) ⊕ (h0 • neg r2)) • neg (inverse r1) ≡ negate b ⊕ t
      without_d =
          •-neg M ((b • r1) ⊕ (h0 • neg r2)) (inverse r1)
          ∙ ap negate (d-inverse b h0 r1 r2 n)
          ∙ negate-⊕ M b (negate t)
          ∙ ap (λ y. negate b ⊕ y) (negate-negate M t)

      regroup : g ⊕ ((h0 • s) ⊕ (revealed ⊕ hidden)) ≡ (g ⊕ revealed) ⊕ ((h0 • s) ⊕ hidden)
      regroup = simp (⊕_assoc, ⊕_comm, ⊕_left_comm M)
