-- ===== src/Ursa/Revocation/Holder.antt =====
-- What a holder's witness is worth: `Witness::new` gives the sum for the valid credentials, and `update`
-- keeps it up to date.
use smartchaindb_driver.Prelude.{
  ℕ, ◌+◌, ◌*◌, ◌^◌, ◌≤◌, ◌<◌, ◌≡◌, refl, sym, ap, ◌∙◌, Bool, true, false, ◌||◌, ◌&&◌, not, List, [],
  ◌∷◌, ◌++◌, ◌==◌, ==_iff, ==_refl, if◌then◌else◌, ok, arith, Bool-cases, inl, inr,
}
use smartchaindb_driver.Amcl.{Field, Group}
use smartchaindb_driver.Amcl.Algebra.{identity-⊕, eq_⊖}
use smartchaindb_driver.Zmix.Selection.{contains}
use smartchaindb_driver.Ursa.Pair.{power}
use smartchaindb_driver.Ursa.Revocation.{RevocationRegistryDelta, Witness}
use smartchaindb_driver.Ursa.Revocation.Sets.{remove, difference, range, contains-remove}
use smartchaindb_driver.Ursa.Revocation.Delta.{applied, Fits}
use smartchaindb_driver.Ursa.Revocation.Tails.Laws.{IsTails}
use smartchaindb_driver.Ursa.Revocation.Sums.{
  IsCredentials, weight, weight-remove, remove-IsCredentials, exponent, weight-append, add_tails-eq,
  add_other_tails-eq,
}
use smartchaindb_driver.Ursa.Revocation.Witnesses
use smartchaindb_driver.Ursa.Revocation.Witnesses.{update}

-- the same credentials
abbrev pub Same : List ℕ → List ℕ → Type 0
Same js ks = (k : ℕ) → contains js k ≡ contains ks k

nothing : (ks : List ℕ) → ((k : ℕ) → contains ks k ≡ false) → ks ≡ []
nothing [] h = refl
nothing (k ∷ ks) h = absurd (clash (h k))
  where
    clash : (k == k || contains ks k) ≡ false → ⊥
    clash e = ground (arith, ==_refl k)

Same-rest :
    (j : ℕ) (js ks : List ℕ) → contains js j ≡ false → Same (j ∷ js) ks → Same js (remove j ks)
Same-rest j js ks absent s k = elim (Bool-cases (k == j)) [
  | inl t ↦
      let at : k ≡ j = (==_iff k j).0 t in
      let out : contains js k ≡ false = ap (contains js) at ∙ absent in
      rw (contains-remove j k ks, t, out) (ground arith)
  | inr f ↦
      let e : contains js k ≡ contains ks k = rw f at (s k) in
      rw (contains-remove j k ks, f, e) (ground arith)
]

-- the weight depends on the set only
pub weight-Same :
    (K : Field) (gamma : K.F) (f : ℕ → ℕ) (max_cred_num : ℕ) (js ks : List ℕ)
    → IsCredentials js max_cred_num
    → IsCredentials ks max_cred_num
    → Same js ks
    → weight K gamma f js ≡ weight K gamma f ks
weight-Same K gamma f max_cred_num [] ks a b s =
    ap (weight K gamma f) (sym (nothing ks (λ k. sym (s k))))
weight-Same K gamma f max_cred_num (j ∷ js) ks a b s =
    ap (λ x. K.◌⊞◌ (power K gamma (f j)) x)
      (weight-Same K gamma f max_cred_num js (remove j ks) a.3
        (remove-IsCredentials j max_cred_num ks b) (Same-rest j js ks a.0 s))
    ∙ sym (weight-remove K gamma f j max_cred_num ks b (sym (s j) ∙ rw (==_refl j)))

contains-append :
    (k : ℕ) (js ks : List ℕ) → contains (js ++ ks) k ≡ (contains js k || contains ks k)
contains-append k [] ks = refl
contains-append k (j ∷ js) ks = ground (arith, contains-append k js ks)

append-IsCredentials :
    (max_cred_num : ℕ) (js ks : List ℕ)
    → IsCredentials js max_cred_num
    → IsCredentials ks max_cred_num
    → ((k : ℕ) → contains js k ≡ true → contains ks k ≡ false)
    → IsCredentials (js ++ ks) max_cred_num
append-IsCredentials max_cred_num [] ks a b d = b
append-IsCredentials max_cred_num (j ∷ js) ks a b d =
    let out : contains ks j ≡ false = d j (rw (==_refl j)) in
    (
      rw (contains-append j js ks, a.0, out),
      a.1,
      a.2,
      append-IsCredentials max_cred_num js ks a.3 b (λ k e. d k (rw e (ground arith))),
    )

-- the weights of two sets of credentials before and after a change
balance :
    (K : Field) (gamma : K.F) (f : ℕ → ℕ) (max_cred_num : ℕ) (live new old after : List ℕ)
    → IsCredentials live max_cred_num
    → IsCredentials new max_cred_num
    → IsCredentials old max_cred_num
    → IsCredentials after max_cred_num
    → ((k : ℕ) → contains new k ≡ true → contains live k ≡ false)
    → ((k : ℕ) → contains old k ≡ true → contains live k ≡ true)
    → ((k : ℕ) → contains after k ≡ ((contains live k || contains new k) && not (contains old k)))
    → K.◌⊞◌ (weight K gamma f old) (weight K gamma f after)
      ≡ K.◌⊞◌ (weight K gamma f new) (weight K gamma f live)
balance K gamma f max_cred_num live new old after a b c d is_new is_live changed =
    sym (weight-append K gamma f old after)
    ∙ weight-Same K gamma f max_cred_num (old ++ after) (new ++ live)
        (append-IsCredentials max_cred_num old after c d (λ k e. rw (changed k, e) (ground arith)))
        (append-IsCredentials max_cred_num new live b a is_new)
        (λ k.
          rw (contains-append k old after, contains-append k new live, changed k)
            (bits (contains live k) (contains new k) (contains old k) (is_live k)))
    ∙ weight-append K gamma f new live
  where
    bits : (l n o : Bool) → (o ≡ true → l ≡ true) → (o || ((l || n) && not o)) ≡ (n || l)
    bits l n o h = ground arith

-- a witness of credential `i` where the credentials of a set are valid
abbrev pub IsWitness :
    {K : Field} (N : Group K) → N.G → K.F → (max_cred_num i : ℕ) → Witness N → List ℕ → Type 0
IsWitness {K = K} N g_dash gamma max_cred_num i witness live =
    witness.omega ≡ N.◌•◌ g_dash (weight K gamma (exponent max_cred_num i) (remove i live))

module _ {K : Field} (N : Group K) (g_dash : N.G) (gamma : K.F) (max_cred_num : ℕ)
    (tails : List N.G) (small : 2 * max_cred_num + 1 < 2 ^ 32)
    (are : IsTails N g_dash gamma tails max_cred_num) (i : ℕ) (within : i ≤ max_cred_num) where
  open N use {G, identity, ◌⊕◌, ◌⊖◌, ◌•◌}

  Same-others : (js ks : List ℕ) → Same js ks → Same (remove i js) (remove i ks)
  Same-others js ks s k = rw (contains-remove i k js, contains-remove i k ks, s k)

  -- the credentials that `Witness::new` takes as valid
  abbrev pub taken_as_valid : Bool → RevocationRegistryDelta N → List ℕ
  taken_as_valid issuance_by_default delta =
      if issuance_by_default then difference (range 1 max_cred_num) delta.revoked else delta.issued

  -- From a delta whose sets leave exactly the valid credentials, all distinct and in range, `Witness::new` makes a witness
  -- of credential i, for fewer than 2^31 credentials, an accessor of their tails, and an i that is at most their number.
  pub new-IsWitness :
      (issuance_by_default : Bool) (delta : RevocationRegistryDelta N) (live : List ℕ)
      → IsCredentials (taken_as_valid issuance_by_default delta) max_cred_num
      → IsCredentials live max_cred_num
      → Same (taken_as_valid issuance_by_default delta) live
      → (witness : Witness N) × (Witnesses.new N i max_cred_num issuance_by_default delta tails
          ≡ ok witness)
        × IsWitness N g_dash gamma max_cred_num i witness live
  unfolding Witnesses.new
  new-IsWitness issuance_by_default delta live a b s =
      let taken = taken_as_valid issuance_by_default delta in
      let others = remove-IsCredentials i max_cred_num taken a in
      (
        record {
          omega = identity ⊕ (g_dash • weight K gamma (exponent max_cred_num i) (remove i taken));
        },
        rw (
            add_tails-eq N g_dash gamma max_cred_num tails small are i (remove i taken) identity
              within others),
        identity-⊕ N _
            ∙ ap (λ w. g_dash • w)
                (weight-Same K gamma (exponent max_cred_num i) max_cred_num (remove i taken)
                  (remove i live) others (remove-IsCredentials i max_cred_num live b)
                  (Same-others taken live s)),
      )

  -- The update of a witness by a delta that issues and revokes distinct credentials in range, that issues only what
  -- is not valid and revokes only what is, is a witness where exactly the credentials after the delta are valid; for
  -- fewer than 2^31 credentials, an accessor of their tails, and an index that is at most their number.
  pub update-IsWitness :
      (witness : Witness N) (delta : RevocationRegistryDelta N) (live after : List ℕ)
      → IsWitness N g_dash gamma max_cred_num i witness live
      → IsCredentials live max_cred_num
      → IsCredentials delta.issued max_cred_num
      → IsCredentials delta.revoked max_cred_num
      → IsCredentials after max_cred_num
      → Fits delta (contains live)
      → ((k : ℕ) → contains after k ≡ applied delta (contains live) k)
      → (witness' : Witness N) × (update N witness i max_cred_num delta tails ≡ ok witness')
        × IsWitness N g_dash gamma max_cred_num i witness' after
  unfolding update
  update-IsWitness witness delta live after w a b c d fits changed =
      let f = exponent max_cred_num i in
      let new = g_dash • weight K gamma f (remove i delta.issued) in
      let old = g_dash • weight K gamma f (remove i delta.revoked) in
      (
        record { omega = witness.omega ⊕ ((identity ⊕ new) ⊖ (identity ⊕ old)) },
        rw (
          add_other_tails-eq N g_dash gamma max_cred_num tails small are i delta.revoked identity
              within c,
          add_other_tails-eq N g_dash gamma max_cred_num tails small are i delta.issued identity
              within b,
        ),
        rw (identity-⊕ N new, identity-⊕ N old, w, N.⊖-eq, ← N.⊕_assoc, ← N.⊖-eq)
            (sym (
              eq_⊖ N _ _ _ (
                sym (N.•-⊞ g_dash _ _)
                ∙ ap (λ z. g_dash • z) (K.⊞_comm _ _ ∙ others_balance ∙ K.⊞_comm _ _)
                ∙ N.•-⊞ g_dash _ _))),
      )
    where
      others_balance :
          K.◌⊞◌
            (weight K gamma (exponent max_cred_num i) (remove i delta.revoked))
            (weight K gamma (exponent max_cred_num i) (remove i after))
          ≡ K.◌⊞◌
              (weight K gamma (exponent max_cred_num i) (remove i delta.issued))
              (weight K gamma (exponent max_cred_num i) (remove i live))
      others_balance =
          balance K gamma (exponent max_cred_num i) max_cred_num (remove i live)
            (remove i delta.issued) (remove i delta.revoked) (remove i after)
            (remove-IsCredentials i max_cred_num live a)
            (remove-IsCredentials i max_cred_num delta.issued b)
            (remove-IsCredentials i max_cred_num delta.revoked c)
            (remove-IsCredentials i max_cred_num after d)
            (λ k e.
              rw (contains-remove i k live) (out k (rw (contains-remove i k delta.issued) at e)))
            (λ k e.
              rw (contains-remove i k live) (in_ k (rw (contains-remove i k delta.revoked) at e)))
            (λ k.
              rw
                (
                  contains-remove i k after,
                  contains-remove i k live,
                  contains-remove i k delta.issued,
                  contains-remove i k delta.revoked,
                  changed k,
                )
                (bits (contains live k) (contains delta.issued k) (contains delta.revoked k)
                  (k == i)))
        where
          out :
              (k : ℕ)
              → (contains delta.issued k && not (k == i)) ≡ true
              → (contains live k && not (k == i)) ≡ false
          out k e = ground (arith, fits.issued_new k)

          in_ :
              (k : ℕ)
              → (contains delta.revoked k && not (k == i)) ≡ true
              → (contains live k && not (k == i)) ≡ true
          in_ k e = ground (arith, fits.revoked_live k)

          bits :
              (l n o s : Bool)
              → (((l || n) && not o) && not s)
                ≡ (((l && not s) || (n && not s)) && not (o && not s))
          bits l n o s = ground arith
