-- ===== src/Ursa/Primary/Equality/Algebra.antt =====
-- Why the verifier recomputes the commitment of the prover, in the group.
use smartchaindb_driver.Prelude.{◌≡◌, sym, ap, ap₂, ◌∙◌}
use smartchaindb_driver.Ursa.BigNumber.{BigNumbers, Residues}
use smartchaindb_driver.Ursa.BigNumber.Laws.{interchange, ⊙_left_comm, inv-↑, inv_cancel, ↑-neg}

module _ {B : BigNumbers} {n : B.Z} (R : Residues B n) where
  open B use {Z, ◌⊞◌, ◌⊟◌, ◌⊠◌, neg}
  open R use {Q, unit, ◌⊙◌, ◌↑◌, inv, ⊙_assoc, ⊙_comm, ↑-⊞, ↑-⊠, ⊙-↑}

  ⊟_cancel : (x y : Z) → (x ⊟ y) ⊞ y ≡ x
  ⊟_cancel x y =
      ap (λ z. z ⊞ y) (B.⊟-eq x y)
      ∙ B.⊞_assoc x (neg y) y
      ∙ ap (λ z. x ⊞ z) (B.⊞_comm (neg y) y ∙ B.⊞-neg y)
      ∙ B.⊞-zero x

  power_response : (a : Q) (c x t : Z) → a ↑ ((c ⊠ x) ⊞ t) ≡ (a ↑ x) ↑ c ⊙ a ↑ t
  power_response a c x t =
      ↑-⊞ a (c ⊠ x) t ∙ ap (λ y. y ⊙ a ↑ t) (ap (λ y. a ↑ y) (B.⊠_comm c x) ∙ ↑-⊠ a x c)

  -- four responses at once
  pub all_responses :
      (k s a : Q) (c m2 m2' v v' e e' : Z) (p p' : Q)
      → k ↑ ((c ⊠ m2) ⊞ m2') ⊙ (s ↑ ((c ⊠ v) ⊞ v') ⊙ (a ↑ ((c ⊠ e) ⊞ e') ⊙ (p ↑ c ⊙ p')))
        ≡ (k ↑ m2 ⊙ (s ↑ v ⊙ (a ↑ e ⊙ p))) ↑ c ⊙ (k ↑ m2' ⊙ (s ↑ v' ⊙ (a ↑ e' ⊙ p')))
  all_responses k s a c m2 m2' v v' e e' p p' =
      ap₂ (λ x y. x ⊙ y) (power_response k c m2 m2')
        (ap₂ (λ x y. x ⊙ y) (power_response s c v v')
            (ap (λ x. x ⊙ (p ↑ c ⊙ p')) (power_response a c e e') ∙ join (a ↑ e) p (a ↑ e') p')
          ∙ join (s ↑ v) (a ↑ e ⊙ p) (s ↑ v') (a ↑ e' ⊙ p'))
      ∙ join (k ↑ m2) (s ↑ v ⊙ (a ↑ e ⊙ p)) (k ↑ m2') (s ↑ v' ⊙ (a ↑ e' ⊙ p'))
    where
      join : (x y x' y' : Q) → (x ↑ c ⊙ x') ⊙ (y ↑ c ⊙ y') ≡ (x ⊙ y) ↑ c ⊙ (x' ⊙ y')
      join x y x' y' = interchange R _ _ _ _ ∙ ap (λ z. z ⊙ (x' ⊙ y')) (sym (⊙-↑ x y c))

  -- the challenged part goes away
  pub remove_challenged : (x y t : Q) (c : Z) → x ≡ y → (x ↑ c ⊙ t) ⊙ inv y ↑ c ≡ t
  remove_challenged x y t c h =
      ap (λ z. (x ↑ c ⊙ t) ⊙ z) (inv-↑ R y c ∙ ap (λ z. inv (z ↑ c)) (sym h))
      ∙ ⊙_comm _ _
      ∙ inv_cancel R (x ↑ c) t

  -- the randomised a, to the power e, with v' in place of v
  randomised : (s α : Q) (e v d : Z) → s ↑ (v ⊟ (e ⊠ d)) ⊙ (s ↑ d ⊙ α) ↑ e ≡ s ↑ v ⊙ α ↑ e
  randomised s α e v d =
      ap₂ (λ x y. x ⊙ y)
        (ap (λ y. s ↑ y) (B.⊟-eq v (e ⊠ d))
          ∙ ↑-⊞ s v (neg (e ⊠ d))
          ∙ ⊙_comm _ _
          ∙ ap (λ y. y ⊙ s ↑ v) (↑-neg R s (e ⊠ d)))
        (⊙-↑ (s ↑ d) α e ∙ ap (λ y. y ⊙ α ↑ e) (sym (↑-⊠ s d e) ∙ ap (λ y. s ↑ y) (B.⊠_comm d e)))
      ∙ ⊙_assoc _ _ _
      ∙ ap (λ y. inv (s ↑ (e ⊠ d)) ⊙ y) (⊙_left_comm R _ _ _)
      ∙ inv_cancel R _ _

  -- A signature that solves its equation, randomised: what the prover shows is z over what it reveals.
  pub shown_eq :
      (s α k z u w : Q) (e v d m2 start : Z)
      → ((s ↑ v ⊙ k ↑ m2) ⊙ (u ⊙ w)) ⊙ α ↑ e ≡ z
      → k ↑ m2 ⊙ (s ↑ (v ⊟ (e ⊠ d)) ⊙ ((s ↑ d ⊙ α) ↑ (e ⊟ start) ⊙ u))
        ≡ z ⊙ inv ((s ↑ d ⊙ α) ↑ start ⊙ w)
  shown_eq s α k z u w e v d m2 start solves = quotient _ _ z (
      gather (k ↑ m2) (s ↑ (v ⊟ (e ⊠ d))) ((s ↑ d ⊙ α) ↑ (e ⊟ start)) u ((s ↑ d ⊙ α) ↑ start) w
      ∙ ap (λ y. y ⊙ (k ↑ m2 ⊙ (u ⊙ w)))
          (ap (λ y. s ↑ (v ⊟ (e ⊠ d)) ⊙ y)
              (sym (↑-⊞ (s ↑ d ⊙ α) (e ⊟ start) start)
                ∙ ap (λ y. (s ↑ d ⊙ α) ↑ y) (⊟_cancel e start))
            ∙ randomised s α e v d)
      ∙ spread (s ↑ v) (α ↑ e) (k ↑ m2) (u ⊙ w)
      ∙ solves)
    where
      quotient : (x y z : Q) → x ⊙ y ≡ z → x ≡ z ⊙ inv y
      quotient x y z h =
          sym (R.⊙-unit x)
          ∙ ap (λ t. x ⊙ t) (sym (R.⊙-inv y))
          ∙ sym (⊙_assoc x y (inv y))
          ∙ ap (λ t. t ⊙ inv y) h

      gather :
          (k' s' a1 u a2 w : Q)
          → (k' ⊙ (s' ⊙ (a1 ⊙ u))) ⊙ (a2 ⊙ w) ≡ (s' ⊙ (a1 ⊙ a2)) ⊙ (k' ⊙ (u ⊙ w))
      gather k' s' a1 u a2 w = simp (⊙_assoc, ⊙_left_comm R)

      spread : (sv a k' p : Q) → (sv ⊙ a) ⊙ (k' ⊙ p) ≡ ((sv ⊙ k') ⊙ p) ⊙ a
      spread sv a k' p = simp (⊙_assoc, ⊙_comm, ⊙_left_comm R)
