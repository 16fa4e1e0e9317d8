-- ===== src/Amcl/Sums.antt =====
-- The result of a multi-scalar multiplication as a sum, and its laws.
use smartchaindb_driver.Prelude.{
  suc, ◌≡◌, refl, sym, ap, ap₂, ◌∙◌, List, [], ◌∷◌, ◌++◌, map, length, arith,
}
use smartchaindb_driver.Amcl.{Field, Group, sum_with}
use smartchaindb_driver.Amcl.Algebra.{identity-⊕, ⊕_left_comm, identity-•, ⊟_cancel, •-•_comm}

module _ {K : Field} (M : Group K) where
  open K use {F, ◌⊞◌, ◌⊟◌, ◌⊠◌}
  open M use {G, identity, ◌⊕◌, ◌⊖◌, ◌•◌, ⊕_assoc, ⊕_comm, ⊕-identity, •-⊠, •-⊞, ⊕-•}

  -- the sum of `p • s` over the pairs of a point and a scalar
  abbrev pub sum_of : List G → List F → G
  sum_of ps ss = sum_with identity ◌⊕◌ ◌•◌ ps ss

  -- `a[i] - c * b[i]` for each place
  abbrev pub sub_scaled : F → List F → List F → List F
  sub_scaled c [] ss = []
  sub_scaled c (b ∷ bs) [] = []
  sub_scaled c (b ∷ bs) (s ∷ ss) = (b ⊟ (c ⊠ s)) ∷ sub_scaled c bs ss

  abbrev pub differences : List F → List F → List F
  differences [] ss = []
  differences (b ∷ bs) [] = []
  differences (b ∷ bs) (s ∷ ss) = (b ⊟ s) ∷ differences bs ss

  pub sum_of-append :
      (ps qs : List G) (ss ts : List F)
      → length ps ≡ length ss
      → sum_of (ps ++ qs) (ss ++ ts) ≡ sum_of ps ss ⊕ sum_of qs ts
  sum_of-append [] qs [] ts h = sym (identity-⊕ M _)
  sum_of-append [] qs (s ∷ ss) ts h = absurd (omega arith)
  sum_of-append (p ∷ ps) qs [] ts h = absurd (omega arith)
  sum_of-append (p ∷ ps) qs (s ∷ ss) ts h =
      ap (λ x. (p • s) ⊕ x) (sum_of-append ps qs ss ts (omega arith)) ∙ sym (⊕_assoc _ _ _)

  -- two sums added place by place
  ⊕_interchange : (a b c d : G) → (a ⊕ b) ⊕ (c ⊕ d) ≡ (a ⊕ c) ⊕ (b ⊕ d)
  ⊕_interchange a b c d =
      ⊕_assoc a b (c ⊕ d) ∙ ap (λ x. a ⊕ x) (⊕_left_comm M b c d) ∙ sym (⊕_assoc a c (b ⊕ d))

  •-⊟-⊕ : (p : G) (b c s : F) → (p • (b ⊟ (c ⊠ s))) ⊕ ((p • s) • c) ≡ p • b
  •-⊟-⊕ p b c s =
      ap (λ x. (p • (b ⊟ (c ⊠ s))) ⊕ x) (•-•_comm M p s c ∙ sym (•-⊠ p c s))
      ∙ sym (•-⊞ p _ _)
      ∙ ap (λ x. p • x) (⊟_cancel K b (c ⊠ s))

  -- responses `b - c s` and the committed sum times `c` give back the sum of the blindings
  pub sum_of-sub_scaled :
      (ps : List G) (bs ss : List F) (c : F)
      → length ps ≡ length bs
      → length ps ≡ length ss
      → sum_of ps (sub_scaled c bs ss) ⊕ (sum_of ps ss • c) ≡ sum_of ps bs
  sum_of-sub_scaled [] bs ss c h k = identity-⊕ M _ ∙ identity-• M c
  sum_of-sub_scaled (p ∷ ps) [] ss c h k = absurd (omega arith)
  sum_of-sub_scaled (p ∷ ps) (b ∷ bs) [] c h k = absurd (omega arith)
  sum_of-sub_scaled (p ∷ ps) (b ∷ bs) (s ∷ ss) c h k =
      ap (λ x. ((p • (b ⊟ (c ⊠ s))) ⊕ sum_of ps (sub_scaled c bs ss)) ⊕ x)
        (⊕-• (p • s) (sum_of ps ss) c)
      ∙ ⊕_interchange _ _ _ _
      ∙ ap₂ (λ x y. x ⊕ y) (•-⊟-⊕ p b c s)
          (sum_of-sub_scaled ps bs ss c (omega arith) (omega arith))

  pub sum_of-map :
      (ps : List G) (ss : List F) (a : F) → sum_of ps (map (λ s. s ⊠ a) ss) ≡ sum_of ps ss • a
  sum_of-map [] ss a = sym (identity-• M a)
  sum_of-map (p ∷ ps) [] a = sym (identity-• M a)
  sum_of-map (p ∷ ps) (s ∷ ss) a =
      ap₂ (λ x y. x ⊕ y) (•-⊠ p s a) (sum_of-map ps ss a) ∙ sym (⊕-• _ _ a)

  pub sum_of-differences :
      (ps : List G) (rs ts : List F)
      → length ps ≡ length rs
      → length ps ≡ length ts
      → sum_of ps (differences rs ts) ⊕ sum_of ps ts ≡ sum_of ps rs
  sum_of-differences [] rs ts h k = identity-⊕ M _
  sum_of-differences (p ∷ ps) [] ts h k = absurd (omega arith)
  sum_of-differences (p ∷ ps) (r ∷ rs) [] h k = absurd (omega arith)
  sum_of-differences (p ∷ ps) (r ∷ rs) (t ∷ ts) h k =
      ⊕_interchange _ _ _ _
      ∙ ap₂ (λ x y. x ⊕ y) (sym (•-⊞ p _ _) ∙ ap (λ x. p • x) (⊟_cancel K r t))
          (sum_of-differences ps rs ts (omega arith) (omega arith))

  pub length-sub_scaled :
      (c : F) (bs ss : List F) → length bs ≡ length ss → length (sub_scaled c bs ss) ≡ length bs
  length-sub_scaled c [] ss h = refl
  length-sub_scaled c (b ∷ bs) [] h = absurd (omega arith)
  length-sub_scaled c (b ∷ bs) (s ∷ ss) h = ap suc (length-sub_scaled c bs ss (omega arith))
