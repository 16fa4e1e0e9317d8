-- ===== src/Zmix/Ps/Keys/Laws.antt =====
-- Key pairs: what they are, and that `keygen` returns one.
use smartchaindb_driver.Prelude.{
  ℕ, zero, suc, ◌≡◌, refl, List, [], ◌∷◌, length, map, length-map, ==_refl, ok,
}
use smartchaindb_driver.Amcl.{Field, Group}
use smartchaindb_driver.Zmix.Ps.Keys.{Sigkey, Verkey, generators, keygen, validate}

-- `n` draws of `FieldElement::random()`, of which `random i` is the i-th
abbrev pub draws : {F : Type 0} → ℕ → ℕ → (ℕ → F) → List F
draws zero i random = []
draws (suc n) i random = random i ∷ draws n (suc i) random

generators-eq :
    {K : Field} (S O : Group K) (g : S.G) (g_tilde : O.G) (n i : ℕ) (random : ℕ → K.F)
    → generators S O g g_tilde n i random
      ≡ (map (λ y. S.◌•◌ g y) (draws n i random), map (λ y. O.◌•◌ g_tilde y) (draws n i random))
unfolding generators
generators-eq S O g g_tilde zero i random = refl
generators-eq S O g g_tilde (suc n) i random = rw (generators-eq S O g g_tilde n (suc i) random)

module _ {K : Field} {S O : Group K} where
  -- A key pair of the secrets `x` and `ys`: both lists of generators have the same discrete logarithms.
  pub record IsKeyPair (vk : Verkey S O) (sk : Sigkey S) (x : K.F) (ys : List K.F) : Type 0 where
    pub signing : sk.x ≡ S.◌•◌ vk.g x
    pub verifying : vk.x_tilde ≡ O.◌•◌ vk.g_tilde x
    pub signing_y : vk.y ≡ map (λ y. S.◌•◌ vk.g y) ys
    pub verifying_y : vk.y_tilde ≡ map (λ y. O.◌•◌ vk.g_tilde y) ys

  -- `keygen` returns a key pair of its first draw and of one more draw for each message, over the points of
  -- the label, and `validate` accepts its public key.
  pub keygen-IsKeyPair :
      (count : ℕ) (g : S.G) (g_tilde : O.G) (random : ℕ → K.F)
      → let (vk, sk) = keygen S O count g g_tilde random in
        IsKeyPair vk sk (random 0) (draws count 1 random)
        × (vk.g ≡ g)
        × (vk.g_tilde ≡ g_tilde)
        × (validate vk ≡ ok tt)
  unfolding keygen validate
  keygen-IsKeyPair count g g_tilde random = rw (generators-eq S O g g_tilde count 1 random) (
    record { signing = refl; verifying = refl; signing_y = refl; verifying_y = refl },
    refl,
    refl,
    rw (length-map {0, 0}, length-map {0, 0}, ==_refl),
  )

  pub length-y :
      (vk : Verkey S O) (sk : Sigkey S) (x : K.F) (ys : List K.F)
      → IsKeyPair vk sk x ys
      → length vk.y ≡ length ys
  length-y vk sk x ys k = rw (k.signing_y) (length-map ys _)

  pub length-y_tilde :
      (vk : Verkey S O) (sk : Sigkey S) (x : K.F) (ys : List K.F)
      → IsKeyPair vk sk x ys
      → length vk.y_tilde ≡ length ys
  length-y_tilde vk sk x ys k = rw (k.verifying_y) (length-map ys _)

  pub validate-IsKeyPair :
      (vk : Verkey S O) (sk : Sigkey S) (x : K.F) (ys : List K.F)
      → IsKeyPair vk sk x ys
      → validate vk ≡ ok tt
  unfolding validate
  validate-IsKeyPair vk sk x ys k = rw (length-y vk sk x ys k, length-y_tilde vk sk x ys k, ==_refl)
