-- ===== src/Ursa/Revocation/Registry/Live.antt =====
-- The registry of an issuer that keeps to the credentials of the registry.
use smartchaindb_driver.Prelude.{
  ℕ, ◌+◌, ◌*◌, ◌^◌, ◌<◌, ◌≡◌, refl, sym, ap, ap₂, ◌∙◌, List, [], ◌∷◌, ◌++◌, length, ◌==◌, ==_iff,
  ==_refl, if◌then◌else◌, arith, Bool-cases, inl, inr,
}
use smartchaindb_driver.Amcl.{Field, Group, Pairing}
use smartchaindb_driver.Amcl.Algebra.{⊞_left_comm, eq_⊖}
use smartchaindb_driver.Ursa.Pair.{Curve, power}
use smartchaindb_driver.Ursa.Revocation.{CredentialRevocationPublicKey, RevocationRegistry}
use smartchaindb_driver.Ursa.Revocation.Tails.Laws.{IsTails}
use smartchaindb_driver.Ursa.Revocation.Sums.{IsCredentials, weight, weight-append}
use smartchaindb_driver.Ursa.Revocation.Issuer.{get_index}
use smartchaindb_driver.Ursa.Revocation.Registry.{
  place, get_index-eq, Accumulates, Reaches, Reaches-IsBalance,
}

-- how often a number is in a list
abbrev pub count : ℕ → List ℕ → ℕ
count k [] = 0
count k (j ∷ js) = (if k == j then 1 else 0) + count k js

-- the list without the first place of a number
abbrev erase : ℕ → List ℕ → List ℕ
erase k [] = []
erase k (j ∷ js) = let rest = erase k js in if k == j then js else j ∷ rest

count-erase :
    (k i : ℕ) (js : List ℕ)
    → 0 < count i js
    → count k (erase i js) + (if k == i then 1 else 0) ≡ count k js
count-erase k i [] h = absurd (omega arith)
count-erase k i (j ∷ js) h = let later = count-erase k i js in ground arith

weight-erase :
    (K : Field) (gamma : K.F) (f : ℕ → ℕ) (i : ℕ) (js : List ℕ)
    → 0 < count i js
    → K.◌⊞◌ (power K gamma (f i)) (weight K gamma f (erase i js)) ≡ weight K gamma f js
weight-erase K gamma f i [] h = absurd (omega arith)
weight-erase K gamma f i (j ∷ js) h = elim (Bool-cases (i == j)) [
  | inl t ↦ rw t (ap (λ k. K.◌⊞◌ (power K gamma (f k)) (weight K gamma f js)) ((==_iff i j).0 t))
  | inr e ↦
      let within : 0 < count i js = ground arith in
      rw e (
        ⊞_left_comm K _ _ _
        ∙ ap (λ w. K.◌⊞◌ (power K gamma (f j)) w) (weight-erase K gamma f i js within))
]

-- a list in which no number is, is empty
none-count : (js : List ℕ) → ((k : ℕ) → 0 ≡ count k js) → js ≡ []
none-count [] h = refl
none-count (j ∷ js) h = let at = h j in absurd (ground (arith, ==_refl j))

-- the weight only depends on how often each number is in the list
weight-count :
    (K : Field) (gamma : K.F) (f : ℕ → ℕ) (js ks : List ℕ)
    → ((k : ℕ) → count k js ≡ count k ks)
    → weight K gamma f js ≡ weight K gamma f ks
weight-count K gamma f [] ks h = ap (weight K gamma f) (sym (none-count ks h))
weight-count K gamma f (j ∷ js) ks h =
    ap (λ w. K.◌⊞◌ (power K gamma (f j)) w) (weight-count K gamma f js (erase j ks) rest)
    ∙ weight-erase K gamma f j ks within
  where
    within : 0 < count j ks
    within = let at = h j in ground (arith, ==_refl j)

    rest : (k : ℕ) → count k js ≡ count k (erase j ks)
    rest k = let at = h k in let less = count-erase k j ks within in omega arith

count-append : (k : ℕ) (js ks : List ℕ) → count k (js ++ ks) ≡ count k js + count k ks
count-append k [] ks = omega arith
count-append k (j ∷ js) ks = let later = count-append k js ks in omega arith

weight-place :
    (K : Field) (gamma : K.F) (max_cred_num : ℕ) (live : List ℕ)
    → 2 * max_cred_num + 1 < 2 ^ 32
    → IsCredentials live max_cred_num
    → weight K gamma (get_index max_cred_num) live ≡ weight K gamma (place max_cred_num) live
weight-place K gamma max_cred_num [] s c = refl
weight-place K gamma max_cred_num (j ∷ live) s c =
    ap₂ (λ k w. K.◌⊞◌ (power K gamma k) w) (get_index-eq max_cred_num j s c.1 c.2)
      (weight-place K gamma max_cred_num live s c.3)

-- Where every credential was added as often as it was taken away, and once more if it is in a set of credentials in
-- range, the accumulator is the sum of the tails of that set, for fewer than 2^31 credentials and an accessor
-- of their tails.
Reaches-Accumulates :
    {K : Field} {M N : Group K} {P : Pairing M N} (C : Curve P)
    (key : CredentialRevocationPublicKey M N) (gamma : K.F) (max_cred_num : ℕ) (tails : List N.G)
    → length tails ≡ 2 * max_cred_num + 1
    → IsTails N key.g_dash gamma tails max_cred_num
    → 2 * max_cred_num + 1 < 2 ^ 32
    → (rev_reg : RevocationRegistry N) (added removed live : List ℕ)
    → Reaches C key gamma max_cred_num tails rev_reg added removed
    → IsCredentials live max_cred_num
    → ((k : ℕ) → count k added ≡ count k removed + count k live)
    → Accumulates C key gamma max_cred_num rev_reg live
Reaches-Accumulates {K} {M} {N} C key gamma max_cred_num tails count are s rev_reg added removed
      live r c p =
    Reaches-IsBalance C key gamma max_cred_num tails count are rev_reg added removed r
    ∙ sym (
        eq_⊖ N _ _ _ (
          sym (N.•-⊞ key.g_dash _ _)
          ∙ ap (λ w. N.◌•◌ key.g_dash w)
              (ap (λ w. K.◌⊞◌ w (weight K gamma (get_index max_cred_num) removed))
                  (sym (weight-place K gamma max_cred_num live s c))
                ∙ K.⊞_comm _ _
                ∙ sym (weight-append K gamma (get_index max_cred_num) removed live)
                ∙ weight-count K gamma (get_index max_cred_num) (removed ++ live) added
                    (λ k. count-append k removed live ∙ sym (p k)))))
