-- ===== src/Zmix/PokVc/Extract.antt =====
-- Two accepted proofs with one first message and different challenges reveal an opening.
use smartchaindb_driver.Prelude.{◌≡◌, ◌≢◌, sym, ap, ◌∙◌, true, List, map, length, ok}
use smartchaindb_driver.Amcl.{Field, Group}
use smartchaindb_driver.Amcl.Algebra.{
  ⊟_cancel, ⊕_right_cancel, ⊕_left_cancel, ⊕_left_comm, ⊟-ne, •-inverse, •-•_comm,
}
use smartchaindb_driver.Amcl.Sums.{sum_of, differences, sum_of-differences, sum_of-map}
use smartchaindb_driver.Zmix.PokVc.{Proof, verify}
use smartchaindb_driver.Zmix.PokVc.Verify.{verify_iff}

module _ {K : Field} (M : Group K) where
  open K use {F, fe_zero, ◌⊟◌, ◌⊠◌, inverse}
  open M use {G, ◌⊕◌, ◌⊖◌, ◌•◌, ⊕_assoc, ⊕_comm, •-⊞}

  -- the secrets that two transcripts give
  abbrev pub extract : List F → List F → F → F → List F
  extract rs ts c d = map (λ s. s ⊠ inverse (d ⊟ c)) (differences M rs ts)

  -- from X + C c = Y + C d, with X = D + Y
  difference_eq : (X Y D C : G) (c d : F) → D ⊕ Y ≡ X → X ⊕ (C • c) ≡ Y ⊕ (C • d) → D ≡ C • (d ⊟ c)
  difference_eq X Y D C c d e h =
      ⊕_right_cancel M (C • c) D (C • (d ⊟ c)) (⊕_left_cancel M Y _ _ equal)
    where
      equal : Y ⊕ (D ⊕ (C • c)) ≡ Y ⊕ ((C • (d ⊟ c)) ⊕ (C • c))
      equal =
          ⊕_left_comm M Y D (C • c)
          ∙ sym (⊕_assoc D Y (C • c))
          ∙ ap (λ x. x ⊕ (C • c)) e
          ∙ h
          ∙ ap (λ x. Y ⊕ (C • x)) (sym (⊟_cancel K d c))
          ∙ ap (λ x. Y ⊕ x) (•-⊞ C (d ⊟ c) c)

  -- Special soundness: from two proofs that `verify` accepts for one commitment, with the same first
  -- message and different challenges, `extract` computes exponents that open the commitment.
  pub special_soundness :
      (p q : Proof M) (bases : List G) (commitment : G) (c d : F)
      → length bases ≡ length p.responses
      → length bases ≡ length q.responses
      → p.commitment ≡ q.commitment
      → c ≢ d
      → verify p bases commitment c ≡ ok true
      → verify q bases commitment d ≡ ok true
      → sum_of M bases (extract p.responses q.responses c d) ≡ commitment
  special_soundness p q bases commitment c d hp hq same n vp vq =
      sum_of-map M bases (differences M p.responses q.responses) (inverse (d ⊟ c))
      ∙ ap (λ x. x • inverse (d ⊟ c)) opened
      ∙ •-•_comm M commitment (d ⊟ c) (inverse (d ⊟ c))
      ∙ •-inverse M commitment (d ⊟ c) (⊟-ne K d c (λ e. n (sym e)))
    where
      opened : sum_of M bases (differences M p.responses q.responses) ≡ commitment • (d ⊟ c)
      opened =
          difference_eq (sum_of M bases p.responses) (sum_of M bases q.responses) _ commitment c d
            (sum_of-differences M bases p.responses q.responses hp hq)
            ((verify_iff M p bases commitment c hp).0 vp
              ∙ same
              ∙ sym ((verify_iff M q bases commitment d hq).0 vq))
