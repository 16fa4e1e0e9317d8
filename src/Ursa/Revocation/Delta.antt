-- ===== src/Ursa/Revocation/Delta.antt =====
-- `RevocationRegistryDelta` in ursa_Master/libursa/src/cl/mod.rs.
use smartchaindb_driver.Prelude.{
  ℕ, ◌≡◌, ◌≢◌, refl, sym, ap, ◌∙◌, ◌⊎◌, inl, inr, Option-cases, Bool-cases, Bool, true, false, ◌||◌,
  ◌&&◌, not, Option, none, some, List, Outcome, ok, err, if◌then◌else◌, arith,
}
use mathlib.Core.Option
use smartchaindb_driver.Amcl.{Field, Group, Pairing}
use smartchaindb_driver.Zmix.Selection.{contains}
use smartchaindb_driver.Ursa.Errors.{UrsaCryptoError, deltas_can_not_be_merged}
use smartchaindb_driver.Ursa.Pair.{Curve}
use smartchaindb_driver.Ursa.Revocation.{RevocationRegistry, RevocationRegistryDelta}
use smartchaindb_driver.Ursa.Revocation.Sets.{
  difference, extend, remove_all, contains-difference, contains-extend, contains-remove_all,
}

unfoldable pub from_parts :
    {K : Field} {N : Group K}
    → Option (RevocationRegistry N)
    → RevocationRegistry N
    → List ℕ
    → List ℕ
    → RevocationRegistryDelta N
from_parts rev_reg_from rev_reg_to issued revoked = record {
  prev_accum = Option.map (λ rev_reg. rev_reg.accum) rev_reg_from;
  accum = rev_reg_to.accum;
  issued = issued;
  revoked = revoked;
}

-- `RevocationRegistry::from(delta)`
unfoldable pub registry_from :
    {K : Field} {N : Group K} → RevocationRegistryDelta N → RevocationRegistry N
registry_from rev_reg_delta = record { accum = rev_reg_delta.accum }

merged_bits :
    (l i1 r1 i2 r2 : Bool)
    → (i1 ≡ true → l ≡ false)
    → (r1 ≡ true → l ≡ true)
    → (i2 ≡ true → ((l || i1) && not r1) ≡ false)
    → (r2 ≡ true → ((l || i1) && not r1) ≡ true)
    → ((l || ((i1 || (i2 && not r1)) && not r2))
        && not ((r1 || (r2 && not (i1 || (i2 && not r1)))) && not i2))
      ≡ ((((l || i1) && not r1) || i2) && not r2)
merged_bits l i1 r1 i2 r2 a b c d = ground arith

merged_issued_bits :
    (l i1 r1 i2 r2 : Bool)
    → (i1 ≡ true → l ≡ false)
    → (r1 ≡ true → l ≡ true)
    → (i2 ≡ true → ((l || i1) && not r1) ≡ false)
    → (r2 ≡ true → ((l || i1) && not r1) ≡ true)
    → ((i1 || (i2 && not r1)) && not r2) ≡ true
    → l ≡ false
merged_issued_bits l i1 r1 i2 r2 a b c d e = ground arith

merged_revoked_bits :
    (l i1 r1 i2 r2 : Bool)
    → (i1 ≡ true → l ≡ false)
    → (r1 ≡ true → l ≡ true)
    → (i2 ≡ true → ((l || i1) && not r1) ≡ false)
    → (r2 ≡ true → ((l || i1) && not r1) ≡ true)
    → ((r1 || (r2 && not (i1 || (i2 && not r1)))) && not i2) ≡ true
    → l ≡ true
merged_revoked_bits l i1 r1 i2 r2 a b c d e = ground arith

module _ {K : Field} {N : Group K} where
  -- the assignments of `merge` after its guard
  unfoldable pub merge_sets :
      RevocationRegistryDelta N → RevocationRegistryDelta N → RevocationRegistryDelta N
  merge_sets self other =
      let issued_1 = extend self.issued (difference other.issued self.revoked) in
      let revoked_1 = extend self.revoked (difference other.revoked issued_1) in
      record {
        prev_accum = self.prev_accum;
        accum = other.accum;
        issued = remove_all other.revoked issued_1;
        revoked = remove_all other.issued revoked_1;
      }

  -- whether a credential counts as valid after a delta, given whether it did before
  abbrev pub applied : RevocationRegistryDelta N → (ℕ → Bool) → ℕ → Bool
  applied delta live i = (live i || contains delta.issued i) && not (contains delta.revoked i)

  -- A delta issues only what is not valid and revokes only what is.
  pub record Fits (delta : RevocationRegistryDelta N) (live : ℕ → Bool) : Type 0 where
    pub issued_new : (i : ℕ) → contains delta.issued i ≡ true → live i ≡ false
    pub revoked_live : (i : ℕ) → contains delta.revoked i ≡ true → live i ≡ true

  contains_issued :
      (self other : RevocationRegistryDelta N) (i : ℕ)
      → contains (merge_sets self other).issued i ≡ (
          (contains self.issued i || (contains other.issued i && not (contains self.revoked i)))
          && not (contains other.revoked i))
  unfolding merge_sets
  contains_issued self other i = rw (
    contains-remove_all i other.revoked (extend self.issued (difference other.issued self.revoked)),
    contains-extend i self.issued (difference other.issued self.revoked),
    contains-difference i other.issued self.revoked,
  )

  contains_revoked :
      (self other : RevocationRegistryDelta N) (i : ℕ)
      → contains (merge_sets self other).revoked i ≡ (
          (contains self.revoked i
            || (contains other.revoked i
                && not (
                    contains self.issued i
                    || (contains other.issued i && not (contains self.revoked i)))))
          && not (contains other.issued i))
  unfolding merge_sets
  contains_revoked self other i =
      let issued_1 = extend self.issued (difference other.issued self.revoked) in
      rw (
        contains-remove_all i other.issued
            (extend self.revoked (difference other.revoked issued_1)),
        contains-extend i self.revoked (difference other.revoked issued_1),
        contains-difference i other.revoked issued_1,
        contains-extend i self.issued (difference other.issued self.revoked),
        contains-difference i other.issued self.revoked,
      )

module _ {K : Field} {M N : Group K} {P : Pairing M N} (C : Curve P) where
  unfoldable pub merge :
      RevocationRegistryDelta N
      → RevocationRegistryDelta N
      → Outcome UrsaCryptoError (RevocationRegistryDelta N)
  unfolding merge_sets
  merge self other = elim other.prev_accum [
    | none ↦ err deltas_can_not_be_merged
    | some prev ↦
        if not (C.point_eq self.accum prev)
        then err deltas_can_not_be_merged
        else ok (merge_sets self other)
  ]

  -- the merge of a delta that starts where this one ends
  merge-joined :
      (self other : RevocationRegistryDelta N) (live : ℕ → Bool)
      → other.prev_accum ≡ some self.accum
      → Fits self live
      → Fits other (applied self live)
      → (merged : RevocationRegistryDelta N) × (merge self other ≡ ok merged)
        × (merged.accum ≡ other.accum)
        × (merged.prev_accum ≡ self.prev_accum)
        × Fits merged live
        × ((i : ℕ) → applied merged live i ≡ applied other (applied self live) i)
  unfolding merge
  merge-joined self other live starts fits fits' = (
    merge_sets self other,
    rw (starts, (C.point_eq_iff self.accum self.accum).1 refl),
    refl,
    refl,
    record {
      issued_new = λ i e.
          merged_issued_bits (live i) (contains self.issued i) (contains self.revoked i)
            (contains other.issued i) (contains other.revoked i) (fits.issued_new i)
            (fits.revoked_live i) (fits'.issued_new i) (fits'.revoked_live i)
            (rw (contains_issued self other i) at e);
      revoked_live = λ i e.
          merged_revoked_bits (live i) (contains self.issued i) (contains self.revoked i)
            (contains other.issued i) (contains other.revoked i) (fits.issued_new i)
            (fits.revoked_live i) (fits'.issued_new i) (fits'.revoked_live i)
            (rw (contains_revoked self other i) at e);
    },
    (λ i.
        rw (contains_issued self other i, contains_revoked self other i)
          (merged_bits (live i) (contains self.issued i) (contains self.revoked i)
            (contains other.issued i) (contains other.revoked i) (fits.issued_new i)
            (fits.revoked_live i) (fits'.issued_new i) (fits'.revoked_live i))),
  )

  -- a start that is another accumulator, or none, is refused
  merge-apart :
      (self other : RevocationRegistryDelta N)
      → (other.prev_accum ≢ some self.accum) × (merge self other ≡ err deltas_can_not_be_merged)
        ⊎ (other.prev_accum ≡ some self.accum)
  unfolding merge
  merge-apart self other = elim (Option-cases other.prev_accum) [
    | inl none_e ↦ inl ((λ e. absurd cc), rw none_e)
    | inr (prev, e) ↦ elim (Bool-cases (C.point_eq self.accum prev)) [
      | inl t ↦ inr (e ∙ ap some (sym ((C.point_eq_iff self.accum prev).0 t)))
      | inr f ↦ inl ((λ h. apart prev f (some-injective (sym e ∙ h))), rw (e, f))
    ]
  ]
    where
      some-injective : {a b : N.G} → ◌≡◌ {A = Option N.G} (some a) (some b) → a ≡ b
      some-injective h = cc

      apart : (prev : N.G) → C.point_eq self.accum prev ≡ false → prev ≡ self.accum → ⊥
      apart prev f h = let t = (C.point_eq_iff self.accum prev).1 (sym h) in absurd cc

  -- Where this delta fits the credentials that are valid before it, and the other those that are valid between the
  -- two: if the other delta does not start at the accumulator at which this one ends, merging is refused. If
  -- it does, the merged delta ends at the other's accumulator and starts where this one does, fits the
  -- credentials before both, and has the effect of both, one after the other.
  pub merge_lem :
      (self other : RevocationRegistryDelta N) (live : ℕ → Bool)
      → Fits self live
      → Fits other (applied self live)
      → (other.prev_accum ≢ some self.accum) × (merge self other ≡ err deltas_can_not_be_merged)
        ⊎ (other.prev_accum ≡ some self.accum)
          × (merged : RevocationRegistryDelta N) × (merge self other ≡ ok merged)
          × (merged.accum ≡ other.accum)
          × (merged.prev_accum ≡ self.prev_accum)
          × Fits merged live
          × ((i : ℕ) → applied merged live i ≡ applied other (applied self live) i)
  merge_lem self other live fits fits' = elim (merge-apart self other) [
    | inl refused ↦ inl refused
    | inr starts ↦
        let (merged, done, accum, prev, fit, effect) =
          merge-joined self other live starts fits fits' in
        inr (starts, merged, done, accum, prev, fit, effect)
  ]
