-- ===== src/Zmix/PokVc/Commit.antt =====
-- A committing prover to which a loop commits: the blindings that it uses, and what it adds.
use mathlib.Core.Option.{get_or}
use mathlib.Core.List.{append_assoc}
use smartchaindb_driver.Prelude.{
  ℕ, suc, ◌≡◌, refl, ap, Option, none, some, List, [], ◌∷◌, ◌++◌, length,
}
use smartchaindb_driver.Amcl.{Field, Group}
use smartchaindb_driver.Zmix.PokVc.{ProverCommitting, commit}

-- the blindings that are used: those given, and draws from the number `draw` on for the others
abbrev pub resolve : {F : Type 0} → List (Option F) → (ℕ → F) → ℕ → List F
resolve [] random draw = []
resolve (b ∷ bs) random draw = get_or b (random draw) ∷ resolve bs random (suc draw)

pub length-resolve :
    {F : Type 0} (bs : List (Option F)) (random : ℕ → F) (draw : ℕ)
    → length (resolve bs random draw) ≡ length bs
length-resolve [] random draw = refl
length-resolve (b ∷ bs) random draw = ap suc (length-resolve bs random (suc draw))

module _ {K : Field} {M : Group K} where
  -- what the loop of `init` adds to the committing prover
  abbrev pub with_hidden : ProverCommitting M → List M.G → List K.F → ProverCommitting M
  with_hidden c gens blindings = record {
    gens = c.gens ++ gens;
    blindings = c.blindings ++ blindings;
  }

  pub with_hidden-commit :
      (c : ProverCommitting M) (g : M.G) (b : Option K.F) (r : K.F) (gs : List M.G) (bs : List K.F)
      → with_hidden (commit c g b r).0 gs bs ≡ with_hidden c (g ∷ gs) (get_or b r ∷ bs)
  unfolding commit
  with_hidden-commit c g none r gs bs = rw (append_assoc, append_assoc)
  with_hidden-commit c g (some b) r gs bs = rw (append_assoc, append_assoc)
