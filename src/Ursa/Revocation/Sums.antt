-- ===== src/Ursa/Revocation/Sums.antt =====
-- The sums of tails over a set of credentials, as multiples of g_dash.
use smartchaindb_driver.Prelude.{
  ℕ, ◌+◌, ◌-◌, ◌*◌, ◌^◌, ◌≤◌, ◌<◌, ◌≡◌, refl, sym, ap, ap₂, ◌∙◌, true, false, List, [], ◌∷◌, ◌++◌,
  ◌==◌, ==_iff, ok, arith, Bool-cases, inl, inr,
}
use smartchaindb_driver.Amcl.{Field, Group}
use smartchaindb_driver.Amcl.Algebra.{⊞_left_comm, •-zero, ⊠-zero}
use smartchaindb_driver.Zmix.Selection.{contains}
use smartchaindb_driver.Ursa.Pair.{power}
use smartchaindb_driver.Ursa.Pair.Laws.{power-add}
use smartchaindb_driver.Ursa.Revocation.Sets.{remove}
use smartchaindb_driver.Ursa.Revocation.Tails.{access_tail}
use smartchaindb_driver.Ursa.Revocation.Tails.Laws.{IsTails}
use smartchaindb_driver.Ursa.Revocation.Witnesses.{witness_index, add_tails, add_other_tails}

-- distinct credentials among those from 1 to `max_cred_num`
abbrev pub IsCredentials : List ℕ → ℕ → Type 0
IsCredentials [] max_cred_num = Unit {0}
IsCredentials (j ∷ js) max_cred_num =
    (contains js j ≡ false) × (0 < j) × (j ≤ max_cred_num) × IsCredentials js max_cred_num

-- the sum of the powers of gamma of the exponents of the credentials
abbrev pub weight : (K : Field) → K.F → (ℕ → ℕ) → List ℕ → K.F
weight K gamma f [] = K.fe_zero
weight K gamma f (j ∷ js) = K.◌⊞◌ (power K gamma (f j)) (weight K gamma f js)

pub remove_absent : (i : ℕ) (js : List ℕ) → contains js i ≡ false → remove i js ≡ js
remove_absent i [] h = refl
remove_absent i (j ∷ js) h =
    let apart : (i == j) ≡ false = ground arith in
    let rest : contains js i ≡ false = ground arith in rw (apart, remove_absent i js rest)

pub remove-IsCredentials :
    (i max_cred_num : ℕ) (js : List ℕ)
    → IsCredentials js max_cred_num
    → IsCredentials (remove i js) max_cred_num
remove-IsCredentials i max_cred_num [] h = tt
remove-IsCredentials i max_cred_num (j ∷ js) h = elim (Bool-cases (i == j)) [
  | inl t ↦ rw t (remove-IsCredentials i max_cred_num js h.3)
  | inr f ↦ rw f (still i j js h.0, h.1, h.2, remove-IsCredentials i max_cred_num js h.3)
]
  where
    still : (i j : ℕ) (js : List ℕ) → contains js j ≡ false → contains (remove i js) j ≡ false
    still i j [] h = refl
    still i j (k ∷ ks) h = ground (arith, still i j ks)

pub remove-absent : (i : ℕ) (js : List ℕ) → contains (remove i js) i ≡ false
remove-absent i [] = refl
remove-absent i (j ∷ js) = ground (arith, remove-absent i js)

-- the weight of a set with the credential `i` is its power and the weight of the others
pub weight-remove :
    (K : Field) (gamma : K.F) (f : ℕ → ℕ) (i max_cred_num : ℕ) (js : List ℕ)
    → IsCredentials js max_cred_num
    → contains js i ≡ true
    → weight K gamma f js ≡ K.◌⊞◌ (power K gamma (f i)) (weight K gamma f (remove i js))
weight-remove K gamma f i max_cred_num [] h m = cc
weight-remove K gamma f i max_cred_num (j ∷ js) h m = elim (Bool-cases (i == j)) [
  | inl t ↦
      let same : i ≡ j = (==_iff i j).0 t in
      let absent : contains js i ≡ false = ap (contains js) same ∙ h.0 in
      rw (t, remove_absent i js absent)
        (ap (λ k. K.◌⊞◌ (power K gamma (f k)) (weight K gamma f js)) (sym same))
  | inr e ↦
      let within : contains js i ≡ true = ground arith in
      rw e (
        ap (λ x. K.◌⊞◌ (power K gamma (f j)) x)
          (weight-remove K gamma f i max_cred_num js h.3 within)
        ∙ ⊞_left_comm K _ _ _)
]

pub weight-append :
    (K : Field) (gamma : K.F) (f : ℕ → ℕ) (js ks : List ℕ)
    → weight K gamma f (js ++ ks) ≡ K.◌⊞◌ (weight K gamma f js) (weight K gamma f ks)
weight-append K gamma f [] ks = sym (K.⊞_comm _ _ ∙ K.⊞-zero _)
weight-append K gamma f (j ∷ js) ks =
    ap (λ x. K.◌⊞◌ (power K gamma (f j)) x) (weight-append K gamma f js ks) ∙ sym (K.⊞_assoc _ _ _)

-- a power moves every exponent
pub weight-shift :
    (K : Field) (gamma : K.F) (f : ℕ → ℕ) (i : ℕ) (js : List ℕ)
    → K.◌⊠◌ (power K gamma i) (weight K gamma f js) ≡ weight K gamma (λ j. f j + i) js
weight-shift K gamma f i [] = ⊠-zero K (power K gamma i)
weight-shift K gamma f i (j ∷ js) =
    K.⊠-⊞ _ _ _
    ∙ ap₂ (λ a b. K.◌⊞◌ a b)
        (K.⊠_comm (power K gamma i) (power K gamma (f j)) ∙ sym (power-add K gamma (f j) i))
        (weight-shift K gamma f i js)

-- the exponent of the tail of credential `j` in the witness of credential `i`
abbrev pub exponent : ℕ → ℕ → ℕ → ℕ
exponent max_cred_num i j = max_cred_num + 1 - j + i

pub witness_index-eq :
    (max_cred_num i j : ℕ)
    → 2 * max_cred_num + 1 < 2 ^ 32
    → i ≤ max_cred_num
    → 0 < j
    → j ≤ max_cred_num
    → witness_index max_cred_num i j ≡ exponent max_cred_num i j
witness_index-eq max_cred_num i j h a b c = omega arith

module _ {K : Field} (N : Group K) (g_dash : N.G) (gamma : K.F) (max_cred_num : ℕ)
    (tails : List N.G) (small : 2 * max_cred_num + 1 < 2 ^ 32)
    (are : IsTails N g_dash gamma tails max_cred_num) where
  open N use {G, identity, ◌⊕◌, ◌•◌}

  pub access_tail-eq :
      (k : ℕ) → k < 2 * max_cred_num + 1 → access_tail tails k ≡ ok (g_dash • power K gamma k)
  unfolding access_tail
  access_tail-eq k h = rw (are k h)

  pub add_tails-eq :
      (i : ℕ) (js : List ℕ) (sum : G)
      → i ≤ max_cred_num
      → IsCredentials js max_cred_num
      → add_tails N max_cred_num i tails js sum
        ≡ ok (sum ⊕ (g_dash • weight K gamma (exponent max_cred_num i) js))
  unfolding add_tails
  add_tails-eq i [] sum a h = ap ok (sym (ap (λ z. sum ⊕ z) (•-zero N g_dash) ∙ N.⊕-identity sum))
  add_tails-eq i (j ∷ js) sum a h =
      rw
        (
          witness_index-eq max_cred_num i j small a h.1 h.2,
          access_tail-eq (exponent max_cred_num i j) (omega (arith, h.1, h.2)),
          add_tails-eq i js (sum ⊕ (g_dash • power K gamma (exponent max_cred_num i j))) a h.3,
        )
        (ap ok (N.⊕_assoc _ _ _ ∙ ap (λ z. sum ⊕ z) (sym (N.•-⊞ g_dash _ _))))

  pub add_other_tails-eq :
      (i : ℕ) (js : List ℕ) (sum : G)
      → i ≤ max_cred_num
      → IsCredentials js max_cred_num
      → add_other_tails N max_cred_num i tails js sum
        ≡ ok (sum ⊕ (g_dash • weight K gamma (exponent max_cred_num i) (remove i js)))
  unfolding add_other_tails
  add_other_tails-eq i [] sum a h =
      ap ok (sym (ap (λ z. sum ⊕ z) (•-zero N g_dash) ∙ N.⊕-identity sum))
  add_other_tails-eq i (j ∷ js) sum a h = elim (Bool-cases (i == j)) [
    | inl t ↦ rw (add_other_tails, t) (add_other_tails-eq i js sum a h.3)
    | inr f ↦
        rw
          (
            add_other_tails,
            f,
            witness_index-eq max_cred_num i j small a h.1 h.2,
            access_tail-eq (exponent max_cred_num i j) (omega (arith, h.1, h.2)),
            add_other_tails-eq i js (sum ⊕ (g_dash • power K gamma (exponent max_cred_num i j))) a
                h.3,
          )
          (ap ok (N.⊕_assoc _ _ _ ∙ ap (λ z. sum ⊕ z) (sym (N.•-⊞ g_dash _ _))))
  ]
