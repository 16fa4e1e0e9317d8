-- ===== src/Ursa/BigNumber/Laws.antt =====
-- Laws of big numbers and of residues that follow from those of the records.
use smartchaindb_driver.Prelude.{◌≡◌, refl, sym, ap, ap₂, ◌∙◌, true, ok}
use smartchaindb_driver.Ursa.BigNumber.{BigNumbers, Residues, mod_div, get_pedersen_commitment}

module _ (B : BigNumbers) where
  open B use {Z, eq, eq_iff}

  pub eq_refl : (a : Z) → eq a a ≡ true
  eq_refl a = (eq_iff a a).1 refl

module _ {B : BigNumbers} {n : B.Z} (R : Residues B n) where
  open B use {Z, bn_zero, bn_one, ◌⊞◌, ◌⊟◌, ◌⊠◌, neg}
  open R use {
    Q, unit, ◌⊙◌, ◌↑◌, inv, val, ⊙_assoc, ⊙_comm, ⊙-unit, ⊙-inv, ↑-one, ↑-⊞, ↑-⊠, ⊙-↑, mod_mul-eq,
    mod_exp-eq, inverse-eq,
  }

  pub unit-⊙ : (a : Q) → unit ⊙ a ≡ a
  unit-⊙ a = ⊙_comm unit a ∙ ⊙-unit a

  pub ⊙_left_comm : (a b c : Q) → a ⊙ (b ⊙ c) ≡ b ⊙ (a ⊙ c)
  ⊙_left_comm a b c = sym (⊙_assoc a b c) ∙ ap (λ x. x ⊙ c) (⊙_comm a b) ∙ ⊙_assoc b a c

  pub inv_cancel : (a b : Q) → inv a ⊙ (a ⊙ b) ≡ b
  inv_cancel a b = rw (← ⊙_assoc, ⊙_comm (inv a) a, ⊙-inv, ⊙_comm, ⊙-unit)

  pub ⊙_left_cancel : (a b c : Q) → a ⊙ b ≡ a ⊙ c → b ≡ c
  ⊙_left_cancel a b c h = sym (inv_cancel a b) ∙ ap (λ x. inv a ⊙ x) h ∙ inv_cancel a c

  pub eq_inv : (a b : Q) → a ⊙ b ≡ unit → b ≡ inv a
  eq_inv a b h = ⊙_left_cancel a b (inv a) (h ∙ sym (⊙-inv a))

  pub ↑-zero : (a : Q) → a ↑ bn_zero ≡ unit
  ↑-zero a =
      ⊙_left_cancel (a ↑ bn_zero) (a ↑ bn_zero) unit
        (sym (↑-⊞ a bn_zero bn_zero) ∙ ap (λ x. a ↑ x) (B.⊞-zero bn_zero) ∙ sym (⊙-unit _))

  pub unit-↑ : (x : Z) → unit ↑ x ≡ unit
  unit-↑ x =
      ⊙_left_cancel (unit ↑ x) (unit ↑ x) unit
        (sym (⊙-↑ unit unit x) ∙ ap (λ y. y ↑ x) (⊙-unit unit) ∙ sym (⊙-unit _))

  pub inv-↑ : (a : Q) (x : Z) → inv a ↑ x ≡ inv (a ↑ x)
  inv-↑ a x =
      eq_inv (a ↑ x) (inv a ↑ x) (sym (⊙-↑ a (inv a) x) ∙ ap (λ y. y ↑ x) (⊙-inv a) ∙ unit-↑ x)

  pub ↑-neg : (a : Q) (x : Z) → a ↑ neg x ≡ inv (a ↑ x)
  ↑-neg a x =
      eq_inv (a ↑ x) (a ↑ neg x) (sym (↑-⊞ a x (neg x)) ∙ ap (λ y. a ↑ y) (B.⊞-neg x) ∙ ↑-zero a)

  pub inv-inv : (a : Q) → inv (inv a) ≡ a
  inv-inv a = sym (eq_inv (inv a) a (⊙_comm (inv a) a ∙ ⊙-inv a))

  pub inv-⊙ : (a b : Q) → inv (a ⊙ b) ≡ inv a ⊙ inv b
  inv-⊙ a b = sym (
      eq_inv (a ⊙ b) (inv a ⊙ inv b) (
        ⊙_assoc a b (inv a ⊙ inv b)
        ∙ ap (λ x. a ⊙ x)
            (⊙_left_comm b (inv a) (inv b) ∙ ap (λ x. inv a ⊙ x) (⊙-inv b) ∙ ⊙-unit (inv a))
        ∙ ⊙-inv a))

  pub interchange : (a b c d : Q) → (a ⊙ b) ⊙ (c ⊙ d) ≡ (a ⊙ c) ⊙ (b ⊙ d)
  interchange a b c d = simp (⊙_assoc, ⊙_left_comm)

  pub ↑-↑_comm : (a : Q) (x y : Z) → (a ↑ x) ↑ y ≡ (a ↑ y) ↑ x
  ↑-↑_comm a x y = sym (↑-⊠ a x y) ∙ ap (λ z. a ↑ z) (B.⊠_comm x y) ∙ ↑-⊠ a y x

  -- a response c x + t in place of its t
  pub respond : (a : Q) (c x t : Z) → inv (a ↑ x) ↑ c ⊙ a ↑ ((c ⊠ x) ⊞ t) ≡ a ↑ t
  respond a c x t =
      ap₂ (λ y z. y ⊙ z) (inv-↑ (a ↑ x) c ∙ ap inv (↑-↑_comm a x c ∙ sym (↑-⊠ a c x)))
        (↑-⊞ a (c ⊠ x) t)
      ∙ inv_cancel (a ↑ (c ⊠ x)) (a ↑ t)

  pub mod_div-eq : (a b : Q) → mod_div B (val a) (val b) n ≡ ok (val (a ⊙ inv b))
  unfolding mod_div
  mod_div-eq a b = rw (inverse-eq b, mod_mul-eq)

  pub get_pedersen_commitment-eq :
      (a b : Q) (x y : Z) → get_pedersen_commitment B (val a) x (val b) y n ≡ val (a ↑ x ⊙ b ↑ y)
  unfolding get_pedersen_commitment
  get_pedersen_commitment-eq a b x y =
      ap₂ (λ p q. B.mod_mul p q n) (mod_exp-eq a x) (mod_exp-eq b y) ∙ mod_mul-eq _ _
