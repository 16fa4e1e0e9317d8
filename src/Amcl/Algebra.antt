-- ===== src/Amcl/Algebra.antt =====
-- Laws of a field and of a group over it that follow from those of the records.
use smartchaindb_driver.Prelude.{◌≡◌, ◌≢◌, sym, ap, ◌∙◌}
use smartchaindb_driver.Amcl.{Field, Group}

module _ (K : Field) where
  open K use {
    F, fe_zero, fe_one, ◌⊞◌, ◌⊟◌, ◌⊠◌, neg, inverse, ⊞_assoc, ⊞_comm, ⊞-zero, ⊞-neg, ⊟-eq, ⊠_assoc,
    ⊠_comm, ⊠-one, ⊠-⊞, ⊠-inverse,
  }

  pub ⊞_left_comm : (a b c : F) → a ⊞ (b ⊞ c) ≡ b ⊞ (a ⊞ c)
  ⊞_left_comm a b c = sym (⊞_assoc a b c) ∙ ap (λ x. x ⊞ c) (⊞_comm a b) ∙ ⊞_assoc b a c

  pub neg_cancel : (a b : F) → neg a ⊞ (a ⊞ b) ≡ b
  neg_cancel a b = rw (← ⊞_assoc, ⊞_comm (neg a) a, ⊞-neg, ⊞_comm, ⊞-zero)

  pub ⊞_left_cancel : (a b c : F) → a ⊞ b ≡ a ⊞ c → b ≡ c
  ⊞_left_cancel a b c h = sym (neg_cancel a b) ∙ ap (λ x. neg a ⊞ x) h ∙ neg_cancel a c

  pub ⊟_cancel : (a b : F) → (a ⊟ b) ⊞ b ≡ a
  ⊟_cancel a b = rw (⊟-eq, ⊞_assoc, ⊞_comm (neg b) b, ⊞-neg, ⊞-zero)

  pub ⊠-zero : (a : F) → a ⊠ fe_zero ≡ fe_zero
  ⊠-zero a = ⊞_left_cancel (a ⊠ fe_zero) (a ⊠ fe_zero) fe_zero (rw (← ⊠-⊞, ⊞-zero, ⊞-zero))

  pub ⊟-ne : (a b : F) → a ≢ b → a ⊟ b ≢ fe_zero
  ⊟-ne a b n e = n (sym (⊟_cancel a b) ∙ ap (λ x. x ⊞ b) e ∙ ⊞_comm fe_zero b ∙ ⊞-zero b)

  pub ⊠-cancel_inverse : (a b : F) → b ≢ fe_zero → (a ⊠ b) ⊠ inverse b ≡ a
  ⊠-cancel_inverse a b n = ⊠_assoc a b (inverse b) ∙ ap (λ x. a ⊠ x) (⊠-inverse b n) ∙ ⊠-one a

module _ {K : Field} (M : Group K) where
  open K use {
    F, fe_zero, fe_one, ◌⊞◌, ◌⊟◌, ◌⊠◌, neg, inverse, ⊞-zero, ⊞-neg, ⊟-eq, ⊠_comm, ⊠-one, ⊠-inverse,
  }
  open M use {
    G, identity, ◌⊕◌, ◌⊖◌, ◌•◌, negate, ⊕_assoc, ⊕_comm, ⊕-identity, ⊕-negate, ⊖-eq, •-one, •-⊠,
    •-⊞, ⊕-•,
  }

  pub identity-⊕ : (a : G) → identity ⊕ a ≡ a
  identity-⊕ a = ⊕_comm identity a ∙ ⊕-identity a

  pub ⊕_left_comm : (a b c : G) → a ⊕ (b ⊕ c) ≡ b ⊕ (a ⊕ c)
  ⊕_left_comm a b c = sym (⊕_assoc a b c) ∙ ap (λ x. x ⊕ c) (⊕_comm a b) ∙ ⊕_assoc b a c

  pub negate_cancel : (a b : G) → negate a ⊕ (a ⊕ b) ≡ b
  negate_cancel a b = rw (← ⊕_assoc, ⊕_comm (negate a) a, ⊕-negate, ⊕_comm, ⊕-identity)

  pub ⊕_left_cancel : (a b c : G) → a ⊕ b ≡ a ⊕ c → b ≡ c
  ⊕_left_cancel a b c h = sym (negate_cancel a b) ∙ ap (λ x. negate a ⊕ x) h ∙ negate_cancel a c

  pub ⊕_right_cancel : (a b c : G) → b ⊕ a ≡ c ⊕ a → b ≡ c
  ⊕_right_cancel a b c h = ⊕_left_cancel a b c (⊕_comm a b ∙ h ∙ ⊕_comm c a)

  pub eq_negate : (a b : G) → a ⊕ b ≡ identity → b ≡ negate a
  eq_negate a b h = ⊕_left_cancel a b (negate a) (h ∙ sym (⊕-negate a))

  -- `a - b` is what added to `b` gives `a`
  pub ⊖_cancel : (a b : G) → (a ⊖ b) ⊕ b ≡ a
  ⊖_cancel a b = rw (⊖-eq, ⊕_assoc, ⊕_comm (negate b) b, ⊕-negate, ⊕-identity)

  pub eq_of_⊖ : (a b : G) → a ⊖ b ≡ identity → a ≡ b
  eq_of_⊖ a b h = sym (⊖_cancel a b) ∙ ap (λ x. x ⊕ b) h ∙ identity-⊕ b

  pub ⊖_self : (a b : G) → a ≡ b → a ⊖ b ≡ identity
  ⊖_self a b h = rw (h, ⊖-eq, ⊕-negate)

  pub eq_⊖ : (a b c : G) → c ⊕ b ≡ a → c ≡ a ⊖ b
  eq_⊖ a b c h = ⊕_right_cancel b c (a ⊖ b) (h ∙ sym (⊖_cancel a b))

  pub •-zero : (p : G) → p • fe_zero ≡ identity
  •-zero p = ⊕_left_cancel (p • fe_zero) (p • fe_zero) identity (rw (← •-⊞, ⊞-zero, ⊕-identity))

  pub identity-• : (a : F) → identity • a ≡ identity
  identity-• a =
      ⊕_left_cancel (identity • a) (identity • a) identity (rw (← ⊕-•, ⊕-identity, ⊕-identity))

  pub •-neg : (p : G) (a : F) → p • neg a ≡ negate (p • a)
  •-neg p a = eq_negate (p • a) (p • neg a) (rw (← •-⊞, ⊞-neg, •-zero))

  pub •-⊟ : (p : G) (a b : F) → p • (a ⊟ b) ≡ (p • a) ⊖ (p • b)
  •-⊟ p a b = rw (⊟-eq, •-⊞, •-neg, ⊖-eq)

  pub negate-• : (p : G) (a : F) → negate p • a ≡ negate (p • a)
  negate-• p a = eq_negate (p • a) (negate p • a) (rw (← ⊕-•, ⊕-negate, identity-•))

  pub ⊖-• : (p q : G) (a : F) → (p ⊖ q) • a ≡ (p • a) ⊖ (q • a)
  ⊖-• p q a = rw (⊖-eq, ⊕-•, negate-•, ⊖-eq)

  pub negate-⊕ : (a b : G) → negate (a ⊕ b) ≡ negate a ⊕ negate b
  negate-⊕ a b = sym (
      eq_negate (a ⊕ b) (negate a ⊕ negate b) (
        ⊕_assoc a b (negate a ⊕ negate b)
        ∙ ap (λ x. a ⊕ x)
            (⊕_left_comm b (negate a) (negate b)
              ∙ ap (λ x. negate a ⊕ x) (⊕-negate b)
              ∙ ⊕-identity (negate a))
        ∙ ⊕-negate a))

  pub negate-negate : (a : G) → negate (negate a) ≡ a
  negate-negate a = sym (eq_negate (negate a) a (⊕_comm (negate a) a ∙ ⊕-negate a))

  pub •-•_comm : (p : G) (a b : F) → (p • a) • b ≡ (p • b) • a
  •-•_comm p a b = sym (•-⊠ p a b) ∙ ap (λ x. p • x) (⊠_comm a b) ∙ •-⊠ p b a

  -- a scalar other than 0 can be undone
  pub •-inverse : (p : G) (a : F) → a ≢ fe_zero → (p • inverse a) • a ≡ p
  •-inverse p a n =
      •-•_comm p (inverse a) a
      ∙ sym (•-⊠ p a (inverse a))
      ∙ ap (λ x. p • x) (⊠-inverse a n)
      ∙ •-one p

  pub •-cancel : (p q : G) (a : F) → a ≢ fe_zero → p • a ≡ q • a → p ≡ q
  •-cancel p q a n h =
      sym (•-inverse p a n)
      ∙ •-•_comm p (inverse a) a
      ∙ ap (λ x. x • inverse a) h
      ∙ •-•_comm q a (inverse a)
      ∙ •-inverse q a n

  -- what is added on the right goes away with its negation
  pub ⊕_cancel_pair : (a h b : G) → (a ⊕ h) ⊕ (b ⊕ negate h) ≡ b ⊕ a
  ⊕_cancel_pair a h b =
      ap (λ x. x ⊕ (b ⊕ negate h)) (⊕_comm a h)
      ∙ ⊕_assoc h a (b ⊕ negate h)
      ∙ ap (λ x. h ⊕ x) (sym (⊕_assoc a b (negate h)) ∙ ⊕_comm (a ⊕ b) (negate h))
      ∙ ⊕_left_comm h (negate h) (a ⊕ b)
      ∙ negate_cancel h (a ⊕ b)
      ∙ ⊕_comm a b

  pub negate-⊕_cancel : (a b : G) → negate (a ⊕ b) ⊕ b ≡ negate a
  negate-⊕_cancel a b =
      ap (λ x. x ⊕ b) (negate-⊕ a b)
      ∙ ⊕_assoc (negate a) (negate b) b
      ∙ ap (λ x. negate a ⊕ x) (⊕_comm (negate b) b ∙ ⊕-negate b)
      ∙ ⊕-identity (negate a)

  pub •-inverse_right : (p : G) (a : F) → a ≢ fe_zero → (p • a) • inverse a ≡ p
  •-inverse_right p a n = •-•_comm p a (inverse a) ∙ •-inverse p a n
