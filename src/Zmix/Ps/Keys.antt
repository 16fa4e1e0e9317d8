-- ===== src/Zmix/Ps/Keys.antt =====
-- ursa_Master/libzmix/src/signatures/ps/keys.rs. The points that are hashed from the label are
-- arguments, and so are the random field elements.
pub mod Laws
mod Tests
use smartchaindb_driver.Prelude.{
  ℕ, zero, suc, ◌≡◌, ◌≢◌, refl, ap, ap₂, ◌∙◌, List, [], ◌∷◌, length, map, length-map, not, ◌==◌,
  ==_refl, if◌then◌else◌, Outcome, ok, err, arith,
}
use smartchaindb_driver.Amcl.{Field, Group}
use smartchaindb_driver.Zmix.Ps.Errors.{PsErrorKind, invalid_verkey}

pub record Sigkey {K : Field} (S : Group K) : Type 0 where
  pub x : S.G

pub record Verkey {K : Field} (S O : Group K) : Type 0 where
  pub g : S.G
  pub g_tilde : O.G
  pub x_tilde : O.G
  pub y : List S.G
  pub y_tilde : List O.G

pub record Gmsk (K : Field) : Type 0 where
  pub x : K.F
  pub y : K.F

pub record Gpk {K : Field} (S O : Group K) : Type 0 where
  pub g : S.G
  pub g_tilde : O.G
  pub x_tilde : O.G
  pub y_tilde : O.G

-- the loop of `keygen`: `n` rounds, each with a draw
unfoldable pub generators :
    {K : Field} (S O : Group K) → S.G → O.G → ℕ → ℕ → (ℕ → K.F) → List S.G × List O.G
generators S O g g_tilde zero i random = ([], [])
generators S O g g_tilde (suc n) i random =
    let y = random i in
    let rest = generators S O g g_tilde n (suc i) random in
    (S.◌•◌ g y ∷ rest.0, O.◌•◌ g_tilde y ∷ rest.1)

-- `g` and `g_tilde` are the points that `from_msg_hash` returns for the label.
unfoldable pub keygen :
    {K : Field} (S O : Group K) → ℕ → S.G → O.G → (ℕ → K.F) → Verkey S O × Sigkey S
unfolding generators
keygen S O count_messages g g_tilde random =
    let x = random 0 in
    let (y, y_tilde) = generators S O g g_tilde count_messages 1 random in
    (
      record { g = g; g_tilde = g_tilde; x_tilde = O.◌•◌ g_tilde x; y = y; y_tilde = y_tilde },
      record { x = S.◌•◌ g x },
    )

-- `For_GSetup`
unfoldable pub for_gsetup : {K : Field} (S O : Group K) → S.G → O.G → K.F → K.F → Gpk S O × Gmsk K
for_gsetup S O g g_tilde x y = (
  record { g = g; g_tilde = g_tilde; x_tilde = O.◌•◌ g_tilde x; y_tilde = O.◌•◌ g_tilde y },
  record { x = x; y = y },
)

module _ {K : Field} {S O : Group K} where
  unfoldable pub validate : Verkey S O → Outcome PsErrorKind (Unit {0})
  validate self =
      if not (length self.y == length self.y_tilde)
      then err (invalid_verkey (length self.y) (length self.y_tilde))
      else ok tt
