-- ===== src/Zmix/PokVc.antt =====
-- ursa_Master/libzmix/src/commitments/pok_vc.rs: the macro `impl_PoK_VC`, for any group. A random
-- field element that the code draws is an argument.
pub mod Commit
pub mod Verify
pub mod Extract
mod Tests
use smartchaindb_driver.Prelude.{
  ℕ, zero, suc, Bool, true, false, Option, none, some, List, [], ◌∷◌, ◌++◌, length, get_elem?, leb,
  not, ◌==◌, if◌then◌else◌, Outcome, ok, err, panic, ◌>>=◌, ◌>>◌, fail_if, unwrap,
}
use smartchaindb_driver.Amcl.{Field, Group}

-- `msg` of `GeneralError`: the arguments of its format string.
pub data PokVcErrorKind : Type 0 where
  unequal_no_of_bases_exponents : (bases exponents : ℕ) → PokVcErrorKind
  general_error : (index size : ℕ) → PokVcErrorKind

pub record ProverCommitting {K : Field} (M : Group K) : Type 0 where
  pub gens : List M.G
  pub blindings : List K.F

pub record ProverCommitted {K : Field} (M : Group K) : Type 0 where
  pub gens : List M.G
  pub blindings : List K.F
  pub commitment : M.G

pub record Proof {K : Field} (M : Group K) : Type 0 where
  pub commitment : M.G
  pub responses : List K.F

-- The loop of `gen_proof`, over as many places as there are generators.
unfoldable pub responses_of :
    (K : Field) → ℕ → List K.F → List K.F → K.F → Outcome PokVcErrorKind (List K.F)
responses_of K zero bs ss challenge = ok []
responses_of K (suc n) [] ss challenge = panic
responses_of K (suc n) (b ∷ bs) [] challenge = panic
responses_of K (suc n) (b ∷ bs) (s ∷ ss) challenge = do
  rest ← responses_of K n bs ss challenge
  ok (K.◌⊟◌ b (K.◌⊠◌ challenge s) ∷ rest)

module _ {K : Field} {M : Group K} where
  open K use {F}
  open M use {G, ◌⊖◌, is_identity, multi_scalar_mul_const_time, multi_scalar_mul_var_time}

  -- `ProverCommitting::new`
  unfoldable pub new : ProverCommitting M
  new = record { gens = []; blindings = [] }

  -- `random` is the element that `FieldElement::random()` returns where no blinding is given
  unfoldable pub commit : ProverCommitting M → G → Option F → F → ProverCommitting M × ℕ
  commit self gen blinding random =
      let b : F = elim blinding [ some b ↦ b | none ↦ random ] in
      let idx = length self.gens in
      (record { gens = self.gens ++ gen ∷ []; blindings = self.blindings ++ b ∷ [] }, idx)

  unfoldable pub finish : ProverCommitting M → Outcome PokVcErrorKind (ProverCommitted M)
  finish self = do
    commitment ← unwrap (multi_scalar_mul_const_time self.gens self.blindings)
    ok (record { gens = self.gens; blindings = self.blindings; commitment = commitment })

  unfoldable pub get_index : ProverCommitting M → ℕ → Outcome PokVcErrorKind (G × F)
  get_index self idx = do
    fail_if (leb (length self.gens) idx) (general_error idx (length self.gens))
    g ← unwrap (get_elem? self.gens idx)
    b ← unwrap (get_elem? self.blindings idx)
    ok (g, b)

  unfoldable pub gen_proof : ProverCommitted M → F → List F → Outcome PokVcErrorKind (Proof M)
  unfolding responses_of
  gen_proof self challenge secrets = do
    fail_if (not (length secrets == length self.gens))
        (unequal_no_of_bases_exponents (length self.gens) (length secrets))
    responses ← responses_of K (length self.gens) self.blindings secrets challenge
    ok (record { commitment = self.commitment; responses = responses })

  -- `Proof::verify`
  unfoldable pub verify : Proof M → List G → G → F → Outcome PokVcErrorKind Bool
  verify self bases commitment challenge = do
    fail_if (not (length bases == length self.responses))
        (unequal_no_of_bases_exponents (length bases) (length self.responses))
    let points = bases ++ commitment ∷ []
    let scalars = self.responses ++ challenge ∷ []
    sum ← unwrap (multi_scalar_mul_var_time points scalars)
    let pr = sum ⊖ self.commitment
    ok (is_identity pr)
