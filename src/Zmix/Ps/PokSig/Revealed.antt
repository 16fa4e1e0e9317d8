-- ===== src/Zmix/Ps/PokSig/Revealed.antt =====
-- The sum over the entries of a map of revealed messages is the sum over the revealed places, whatever
-- the order of the map's iterator.
use smartchaindb_driver.Prelude.{
  map, length-map, ◌≤◌, ℕ, zero, suc, ◌+◌, ◌<◌, ◌≡◌, refl, sym, ap, ◌∙◌, true, false, Option, none,
  some, List, [], ◌∷◌, length, drop, drop_head, get_elem?, get_elem?-of_lt, ok, arith, Bool-cases,
  inl, inr, ◌==◌,
}
use smartchaindb_driver.Amcl.{Field, Group}
use smartchaindb_driver.Amcl.Algebra.{⊕_left_comm}
use smartchaindb_driver.Amcl.Sums.{sum_of}
use smartchaindb_driver.Zmix.Selection.{
  contains, get, pick, Reveals, IsIndexSet, length-pick-contains, length-pick-not,
}
use smartchaindb_driver.Zmix.Ps.PokSig.{revealed_bases}

-- The keys of a map are distinct.
abbrev pub IsMap : {F : Type 0} → List (ℕ × F) → Type 0
IsMap [] = Unit {0}
IsMap ((i, m) ∷ entries) = (get entries i ≡ none) × IsMap entries

-- All keys are below a bound.
abbrev pub KeysBelow : {F : Type 0} → List (ℕ × F) → ℕ → Type 0
KeysBelow [] n = Unit {0}
KeysBelow ((i, m) ∷ entries) n = (i < n) × KeysBelow entries n

get-contains :
    {F : Type 0} (entries : List (ℕ × F)) (j : ℕ)
    → get entries j ≡ none
    → contains (map (λ entry. entry.0) entries) j ≡ false
get-contains [] j h = refl
get-contains ((i, m) ∷ entries) j h = elim (Bool-cases (j == i)) [
  | inl t ↦ absurd (taken (rw t at h))
  | inr f ↦ rw f (get-contains entries j (rw f at h))
]
  where
    taken : some m ≡ none → ⊥
    taken e = cc

keys-IsIndexSet :
    {F : Type 0} (entries : List (ℕ × F)) (n : ℕ)
    → IsMap entries
    → KeysBelow entries n
    → IsIndexSet (map (λ entry. entry.0) entries) n
keys-IsIndexSet [] n d h = tt
keys-IsIndexSet ((i, m) ∷ entries) n d h =
    (get-contains entries i d.0, h.0, keys-IsIndexSet entries n d.1 h.1)

-- a map has at most as many entries as there are keys
pub entries_bound :
    {P F : Type 0} (entries : List (ℕ × F)) (ps : List P)
    → IsMap entries
    → KeysBelow entries (length ps)
    → length entries ≤ length ps
entries_bound entries ps d h =
    let keys = map (λ entry. entry.0) entries in
    omega (
      arith,
      length-map {0, 0} entries (λ entry. entry.0),
      length-pick-contains keys ps (keys-IsIndexSet entries (length ps) d h),
      length-pick-not (contains keys) 0 ps,
    )

module _ {K : Field} (M : Group K) where
  open M use {G, identity, ◌⊕◌, ◌•◌, ⊕_assoc}

  -- the term of a point in the sum, if the map has an entry for it
  abbrev pub with_entry : Option K.F → G → G → G
  with_entry none p rest = rest
  with_entry (some m) p rest = (p • m) ⊕ rest

  -- what the map gives for the points, the first of them at place `i`
  abbrev pub masked : List (ℕ × K.F) → ℕ → List G → G
  masked entries i [] = identity
  masked entries i (p ∷ ps) = with_entry (get entries i) p (masked entries (suc i) ps)

  pub masked-nil : (i : ℕ) (ps : List G) → masked [] i ps ≡ identity
  masked-nil i [] = refl
  masked-nil i (p ∷ ps) = masked-nil (suc i) ps

  with_entry_comm :
      (o : Option K.F) (q a rest : G) → with_entry o q (a ⊕ rest) ≡ a ⊕ with_entry o q rest
  with_entry_comm none q a rest = refl
  with_entry_comm (some m) q a rest = ⊕_left_comm M (q • m) a rest

  masked_beyond :
      (entries : List (ℕ × K.F)) (j i : ℕ) (m : K.F) (ps : List G)
      → j < i
      → masked ((j, m) ∷ entries) i ps ≡ masked entries i ps
  masked_beyond entries j i m [] h = refl
  masked_beyond entries j i m (p ∷ ps) h =
      let apart : (i == j) ≡ false = ground arith in
      rw (apart, masked_beyond entries j (suc i) m ps (omega arith))

  masked-cons :
      (entries : List (ℕ × K.F)) (j i k : ℕ) (m : K.F) (ps : List G) (p : G)
      → get entries j ≡ none
      → j ≡ i + k
      → get_elem? ps k ≡ some p
      → masked ((j, m) ∷ entries) i ps ≡ (p • m) ⊕ masked entries i ps
  masked-cons entries j i k m [] p e h at = cc
  masked-cons entries j i zero m (q ∷ ps) p e h at =
      let here : j ≡ i = omega arith in
      let same : (i == j) ≡ true = ground arith in
      let absent : get entries i ≡ none = rw here at e in
      let point : q ≡ p = cc in
      rw (same, absent, masked_beyond entries j (suc i) m ps (omega arith), point)
  masked-cons entries j i (suc k) m (q ∷ ps) p e h at =
      let apart : (i == j) ≡ false = ground arith in
      rw (apart, masked-cons entries j (suc i) k m ps p e (omega arith) at)
        (with_entry_comm (get entries i) q (p • m) (masked entries (suc i) ps))

  -- The loop over the entries of a map finds every generator, and its sum does not depend on their order.
  pub revealed_bases-eq :
      (entries : List (ℕ × K.F)) (ps : List G)
      → IsMap entries
      → KeysBelow entries (length ps)
      → (bases : List G) × (scalars : List K.F) × (revealed_bases ps entries ≡ ok (bases, scalars))
        × (length bases ≡ length scalars)
        × (sum_of M bases scalars ≡ masked entries 0 ps)
  unfolding revealed_bases
  revealed_bases-eq [] ps d h = ([], [], refl, refl, sym (masked-nil 0 ps))
  revealed_bases-eq ((j, m) ∷ entries) ps d h =
      let (bases, scalars, found, same, sum) = revealed_bases-eq entries ps d.1 h.1 in
      let (p, at) = get_elem?-of_lt ps j h.0 in
      (
        p ∷ bases,
        m ∷ scalars,
        rw (at, found),
        ap suc same,
        ap (λ z. (p • m) ⊕ z) sum ∙ sym (masked-cons entries j 0 j m ps p d.0 (omega arith) at),
      )

  -- A map of the revealed messages gives the sum over the revealed places.
  pub masked-eq-sum_of :
      (entries : List (ℕ × K.F)) (revealed : List ℕ) (messages ms : List K.F) (i : ℕ) (ps : List G)
      → Reveals entries revealed messages
      → drop i messages ≡ ms
      → length ps ≡ length ms
      → masked entries i ps
        ≡ sum_of M (pick (contains revealed) i ps) (pick (contains revealed) i ms)
  masked-eq-sum_of entries revealed messages [] i [] r d h = refl
  masked-eq-sum_of entries revealed messages (s ∷ ms) i [] r d h = absurd (omega arith)
  masked-eq-sum_of entries revealed messages [] i (p ∷ ps) r d h = absurd (omega arith)
  masked-eq-sum_of entries revealed messages (s ∷ ms) i (p ∷ ps) r d h =
      let rest =
        masked-eq-sum_of entries revealed messages ms (suc i) ps r (drop_head messages i s ms d).1
          (omega arith) in
      elim (Bool-cases (contains revealed i)) [
        | inl t ↦
            let found : get entries i ≡ some s =
              rw (r.agrees i, t, (drop_head messages i s ms d).0) in
            rw (found, t) (ap (λ z. (p • s) ⊕ z) rest)
        | inr f ↦ let missing : get entries i ≡ none = rw (r.agrees i, f) in rw (missing, f) rest
      ]
