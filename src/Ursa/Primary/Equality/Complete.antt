-- ===== src/Ursa/Primary/Equality/Complete.antt =====
-- The verifier recomputes the commitment of an honest prover.
use smartchaindb_driver.Prelude.{
  ℕ, ◌≡◌, sym, ap, subst, ◌∙◌, true, Option, some, List, [], ◌∷◌, ok, ◌>>=◌, arith,
}
use smartchaindb_driver.Zmix.Selection.{contains}
use smartchaindb_driver.Ursa.BigNumber.{BigNumbers, Residues}
use smartchaindb_driver.Ursa.BigNumber.Laws.{mod_div-eq}
use smartchaindb_driver.Ursa.Names.{Name, Map, lookup, keys, at_or, distinct-HasEntries}
use smartchaindb_driver.Ursa.NameSets.{IsSorted, union-IsSorted, union_comm, both-subset}
use smartchaindb_driver.Ursa.Revocation.Sets.{difference, contains-difference}
use smartchaindb_driver.Ursa.Primary.{
  CredentialPrimaryPublicKey, CredentialValue, known, PrimaryCredentialSignature,
}
use smartchaindb_driver.Ursa.Primary.Issue.Products.{HasAllBases, pub_key}
use smartchaindb_driver.Ursa.Primary.Issue.Equation.{Solves}
use smartchaindb_driver.Ursa.Primary.Equality.{
  check_add_sub_proof_request_params_consistency, get_mtilde, calc_teq, or_drawn, init_eq_proof,
  finalize_eq_proof, verify_equality,
}
use smartchaindb_driver.Ursa.Primary.Equality.Products.{
  product, HasBasesAt, calc_teq-product, multiply_revealed-product, product-split, product-respond,
  value_at, respond_all-table, reveal_all-table, AreSigned, signed_product,
}
use smartchaindb_driver.Ursa.Primary.Equality.Tables.{
  lookup-Gives, table, table-Gives, at_or-Gives, get_mtilde-Gives,
}
use smartchaindb_driver.Ursa.Primary.Equality.Algebra.{all_responses, remove_challenged, shown_eq}
use smartchaindb_driver.Ursa.Primary.Equality.Consistent.{
  IsConsistent, check-IsConsistent, sorted-HasDistinctKeys,
}

module _ {B : BigNumbers} {n : B.Z} (R : Residues B n) where
  open B use {Z, bn_zero, ◌⊞◌, ◌⊟◌, ◌⊠◌, mod_exp, mod_mul, inverse}
  open R use {Q, ◌⊙◌, ◌↑◌, inv, val, mod_exp-eq, mod_mul-eq, inverse-eq}

  module _ (σ ζ κ : Q) (base : Name → Q) (r : Map Z) where
    abbrev key : CredentialPrimaryPublicKey Z
    key = pub_key R σ ζ κ base r

    lookup-base :
        (values : Map (CredentialValue Z))
        → HasAllBases R r base values
        → (k : Name) → contains (keys values) k ≡ true
        → lookup k r ≡ some (val (base k))
    lookup-base [] h k there = absurd cc
    lookup-base ((j, x) ∷ values) (h, hs) k there =
        let later = lookup-base values hs k in
        let same : k ≡ j → lookup k r ≡ some (val (base k)) =
          λ e. subst (λ i. lookup i r ≡ some (val (base i))) (sym e) h in
        ground arith

    subset-HasBasesAt :
        (values : Map (CredentialValue Z)) (ks : List Name)
        → HasAllBases R r base values
        → ((k : Name) → contains ks k ≡ true → contains (keys values) k ≡ true)
        → HasBasesAt R σ ζ κ base r ks
    subset-HasBasesAt values ks g within =
        lookup-Gives r (λ k. val (base k)) ks λ k there. lookup-base values g k (within k there)

    module _ (α : Q) (sig : PrimaryCredentialSignature Z) (values : Map (CredentialValue Z))
        (revealed : List Name) (common : Map Z) (m2_t : Option Z) (random : ℕ → Z)
        (large_e_start challenge : Z) where
      abbrev unrevealed : List Name
      unrevealed = difference (keys values) revealed

      abbrev drawn : Map Z
      drawn = get_mtilde B random 4 unrevealed common

      abbrev tilde : Name → Z
      tilde = at_or bn_zero drawn

      abbrev m2_tilde : Z
      m2_tilde = or_drawn B m2_t (random 0)

      abbrev response : Name → Z
      response k = (challenge ⊠ value_at R values k) ⊞ tilde k

      abbrev product_of : (Name → Z) → List Name → Q
      product_of = product R σ ζ κ base r

      abbrev a_prime : Q
      a_prime = σ ↑ random 1 ⊙ α

      -- what the verifier divides z by
      abbrev rar : Q
      rar = a_prime ↑ large_e_start ⊙ product_of (value_at R values) revealed

      -- the commitment of the prover
      abbrev point : Q
      point = κ ↑ m2_tilde ⊙ (σ ↑ random 3 ⊙ (a_prime ↑ random 2 ⊙ product_of tilde unrevealed))

      solved :
          AreSigned R values
          → IsSorted (keys values)
          → IsSorted revealed
          → ((k : Name) → contains revealed k ≡ true → contains (keys values) k ≡ true)
          → Solves R σ ζ κ base r α sig values
          → ((σ ↑ sig.v ⊙ κ ↑ sig.m_2)
                ⊙ (product_of (value_at R values) unrevealed
                    ⊙ product_of (value_at R values) revealed))
              ⊙ α
              ↑ sig.e
            ≡ ζ
      solved signed sorted pr within solves =
          ap (λ y. ((σ ↑ sig.v ⊙ κ ↑ sig.m_2) ⊙ y) ⊙ α ↑ sig.e)
            (ap
                (λ ks.
                  product_of (value_at R values) unrevealed ⊙ product_of (value_at R values) ks)
                (sym (both-subset (keys values) revealed sorted pr within))
              ∙ sym (product-split R σ ζ κ base r (value_at R values) (keys values) revealed)
              ∙ sym (
                  signed_product R σ ζ κ base r values values signed
                    (distinct-HasEntries values (sorted-HasDistinctKeys values sorted))))
          ∙ solves

      recomputed :
          ((σ ↑ sig.v ⊙ κ ↑ sig.m_2)
                ⊙ (product_of (value_at R values) unrevealed
                    ⊙ product_of (value_at R values) revealed))
              ⊙ α
              ↑ sig.e
            ≡ ζ
          → (κ
                ↑ ((challenge ⊠ sig.m_2) ⊞ m2_tilde)
                ⊙ (σ
                    ↑ ((challenge ⊠ (sig.v ⊟ (sig.e ⊠ random 1))) ⊞ random 3)
                    ⊙ (a_prime
                        ↑ ((challenge ⊠ (sig.e ⊟ large_e_start)) ⊞ random 2)
                        ⊙ product_of response unrevealed)))
              ⊙ inv (ζ ⊙ inv rar)
              ↑ challenge
            ≡ point
      recomputed h =
          ap
            (λ y.
              (κ
                ↑ ((challenge ⊠ sig.m_2) ⊞ m2_tilde)
                ⊙ (σ
                    ↑ ((challenge ⊠ (sig.v ⊟ (sig.e ⊠ random 1))) ⊞ random 3)
                    ⊙ (a_prime ↑ ((challenge ⊠ (sig.e ⊟ large_e_start)) ⊞ random 2) ⊙ y)))
              ⊙ inv (ζ ⊙ inv rar)
              ↑ challenge)
            (product-respond R σ ζ κ base r (value_at R values) tilde challenge unrevealed)
          ∙ ap (λ y. y ⊙ inv (ζ ⊙ inv rar) ↑ challenge)
              (all_responses R κ σ a_prime challenge sig.m_2 m2_tilde (sig.v ⊟ (sig.e ⊠ random 1))
                (random 3) (sig.e ⊟ large_e_start) (random 2)
                (product_of (value_at R values) unrevealed) (product_of tilde unrevealed))
          ∙ remove_challenged R _ (ζ ⊙ inv rar) point challenge (
              shown_eq R σ α κ ζ (product_of (value_at R values) unrevealed)
                (product_of (value_at R values) revealed) sig.e sig.v (random 1) sig.m_2
                large_e_start h)

      committed :
          HasBasesAt R σ ζ κ base r unrevealed
          → calc_teq B key (val a_prime) (random 2) (random 3) drawn m2_tilde unrevealed
            ≡ ok (val point)
      committed bases =
          calc_teq-product R σ ζ κ base r drawn tilde a_prime (random 2) (random 3) m2_tilde
            unrevealed bases (get_mtilde-Gives B random 4 unrevealed common)

      -- For a key of members of the group with a base for every attribute, sorted sets of names and a request that
      -- the consistency check accepts, and a signature that solves its equation for values none of which
      -- is only committed to: with any common attributes, draws and challenge, the prover makes a
      -- commitment and a proof, from which the verifier recomputes that commitment.
      pub verify_equality-t :
          (schema non_schema predicates : List Name)
          → sig.a ≡ val α
          → Solves R σ ζ κ base r α sig values
          → HasAllBases R r base values
          → AreSigned R values
          → IsSorted schema
          → IsSorted non_schema
          → IsSorted revealed
          → check_add_sub_proof_request_params_consistency values revealed predicates schema
              non_schema
            ≡ ok tt
          → (let started =
                init_eq_proof B large_e_start common key sig schema non_schema revealed m2_t
                  random in
              (t : Z) × ((do init_proof ← started; ok init_proof.t) ≡ ok t)
              × ((do
                init_proof ← started
                proof ← finalize_eq_proof B init_proof challenge schema non_schema values revealed
                verify_equality B large_e_start key proof challenge schema non_schema revealed)
                  ≡ ok t))
      unfolding init_eq_proof finalize_eq_proof verify_equality
      verify_equality-t schema non_schema predicates ea solves g signed ps pn pr consistent = (
        val point,
        rw (
          facts.schema_eq,
          ea,
          mod_exp-eq σ (random 1),
          mod_mul-eq (σ ↑ random 1) α,
          committed bases,
        ),
        rw
            (
              facts.schema_eq,
              union_comm schema non_schema ps pn ∙ facts.schema_eq,
              ea,
              mod_exp-eq σ (random 1),
              mod_mul-eq (σ ↑ random 1) α,
              committed bases,
              respond_all-table R drawn values tilde challenge unrevealed
                  (get_mtilde-Gives B random 4 unrevealed common)
                  (at_or-Gives (known bn_zero) values unrevealed within),
              reveal_all-table R values revealed
                  (at_or-Gives (known bn_zero) values revealed facts.within),
              calc_teq-product R σ ζ κ base r (table response unrevealed) response a_prime _ _ _
                  unrevealed bases (table-Gives response unrevealed),
              mod_exp-eq a_prime large_e_start,
              multiply_revealed-product R σ ζ κ base r (value_at R values) (a_prime ↑ large_e_start)
                  revealed (subset-HasBasesAt values revealed g facts.within),
              mod_div-eq R ζ rar,
              inverse-eq (ζ ⊙ inv rar),
              mod_exp-eq (inv (ζ ⊙ inv rar)) challenge,
              mod_mul-eq _ (inv (ζ ⊙ inv rar) ↑ challenge),
            )
            (ap (λ y. ok (val y)) (recomputed (solved signed sorted pr facts.within solves))),
      )
        where
          facts : IsConsistent (keys values) schema non_schema revealed
          facts = check-IsConsistent values schema non_schema revealed predicates consistent

          sorted : IsSorted (keys values)
          sorted = subst IsSorted facts.schema_eq (union-IsSorted non_schema schema ps)

          within : (k : Name) → contains unrevealed k ≡ true → contains (keys values) k ≡ true
          within k there = let at = contains-difference k (keys values) revealed in ground arith

          bases : HasBasesAt R σ ζ κ base r unrevealed
          bases = subset-HasBasesAt values unrevealed g within
