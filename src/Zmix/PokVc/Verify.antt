-- ===== src/Zmix/PokVc/Verify.antt =====
-- What `verify` decides, and that an honest proof passes it.
use smartchaindb_driver.Prelude.{
  ℕ, suc, ◌+◌, ◌≡◌, ◌≢◌, ◌↔◌, refl, sym, ap, ◌∙◌, true, Option, none, some, List, [], ◌∷◌, ◌++◌,
  length, length-append, get_elem?-append, ==_refl, ok, err, arith, ◌>>=◌, ok-injective, lt→leb,
  le→leb, zero, ◌≤◌,
}
use mathlib.Core.Option.{get_or}
use smartchaindb_driver.Amcl.{Field, Group}
use smartchaindb_driver.Amcl.Algebra.{eq_of_⊖, ⊖_self}
use smartchaindb_driver.Amcl.Sums.{
  sum_of, sum_of-append, sub_scaled, sum_of-sub_scaled, length-sub_scaled,
}
use smartchaindb_driver.Zmix.PokVc.{
  unequal_no_of_bases_exponents, general_error, ProverCommitting, ProverCommitted, Proof, new,
  commit, finish, get_index, responses_of, gen_proof, verify,
}

module _ {K : Field} (M : Group K) where
  open K use {F}
  open M use {
    G, identity, ◌⊕◌, ◌⊖◌, ◌•◌, ⊕-identity, is_identity, is_identity_iff, var_time-eq,
    const_time-eq,
  }

  -- the group element that `verify` tests
  sum_of-snoc :
      (ps : List G) (ss : List F) (p : G) (s : F)
      → length ps ≡ length ss
      → sum_of M (ps ++ p ∷ []) (ss ++ s ∷ []) ≡ sum_of M ps ss ⊕ (p • s)
  sum_of-snoc ps ss p s h =
      sum_of-append M ps (p ∷ []) ss (s ∷ []) h ∙ ap (λ x. sum_of M ps ss ⊕ x) (⊕-identity (p • s))

  -- On as many bases as responses, `verify` returns the test of its equation.
  pub verify-eq :
      (proof : Proof M) (bases : List G) (commitment : G) (challenge : F)
      → length bases ≡ length proof.responses
      → verify proof bases commitment challenge
        ≡ ok (
            is_identity
              ((sum_of M bases proof.responses ⊕ (commitment • challenge)) ⊖ proof.commitment))
  unfolding verify
  verify-eq proof bases commitment challenge h = rw (
    h,
    ==_refl,
    var_time-eq (bases ++ commitment ∷ []) (proof.responses ++ challenge ∷ []) same,
    sum_of-snoc bases proof.responses commitment challenge h,
  )
    where
      same : length (bases ++ commitment ∷ []) ≡ length (proof.responses ++ challenge ∷ [])
      same = length-append _ _ ∙ ap (λ n. n + 1) h ∙ sym (length-append _ _)

  -- On as many bases as responses, `verify` accepts exactly where
  -- bases · responses + challenge · commitment is the commitment of the first round.
  pub verify_iff :
      (proof : Proof M) (bases : List G) (commitment : G) (challenge : F)
      → length bases ≡ length proof.responses
      → (verify proof bases commitment challenge ≡ ok true)
        ↔ (sum_of M bases proof.responses ⊕ (commitment • challenge) ≡ proof.commitment)
  verify_iff proof bases commitment challenge h =
      rw (verify-eq proof bases commitment challenge h) (
        (λ e. eq_of_⊖ M _ _ ((is_identity_iff _).0 (ok-injective e))),
        (λ e. ap ok ((is_identity_iff _).1 (⊖_self M _ _ e))),
      )

  -- On another number of bases it returns the error that names both numbers.
  pub verify_unequal :
      (proof : Proof M) (bases : List G) (commitment : G) (challenge : F)
      → length bases ≢ length proof.responses
      → verify proof bases commitment challenge
        ≡ err (unequal_no_of_bases_exponents (length bases) (length proof.responses))
  unfolding verify
  verify_unequal proof bases commitment challenge n = ground arith

  -- a committing prover holds a blinding for each generator
  abbrev pub IsPaired : ProverCommitting M → Type 0
  IsPaired c = length c.gens ≡ length c.blindings

  pub new-IsPaired : IsPaired new
  unfolding new
  new-IsPaired = refl

  pub commit-IsPaired :
      (c : ProverCommitting M) (g : G) (b : Option F) (r : F)
      → IsPaired c
      → IsPaired (commit c g b r).0
  unfolding commit
  commit-IsPaired c g b r h = length-append _ _ ∙ ap (λ n. n + 1) h ∙ sym (length-append _ _)

  get_index_end :
      (gens : List G) (blindings : List F) (g : G) (b : F)
      → length gens ≡ length blindings
      → get_index {M = M}
          (record { gens = gens ++ g ∷ []; blindings = blindings ++ b ∷ [] })
          (length gens)
        ≡ ok (g, b)
  unfolding get_index
  get_index_end gens blindings g b h = rw (
    lt→leb (length (gens ++ g ∷ [])) (length gens) (omega (arith, length-append {0} gens (g ∷ []))),
    get_elem?-append,
    h,
    get_elem?-append,
  )

  -- `commit` pushes at the end: where every generator has its blinding, `get_index` at the index that it
  -- returns finds the generator with the blinding given, or with the drawn one where none was.
  pub get_index-commit :
      (c : ProverCommitting M) (g : G) (b : Option F) (r : F)
      → IsPaired c
      → let (c', idx) = commit c g b r in get_index c' idx ≡ ok (g, get_or b r)
  unfolding commit
  get_index-commit c g none r h = get_index_end c.gens c.blindings g r h
  get_index-commit c g (some b) r h = get_index_end c.gens c.blindings g b h

  -- An index from the number of generators on is refused.
  pub get_index_beyond :
      (c : ProverCommitting M) (idx : ℕ)
      → length c.gens ≤ idx
      → get_index c idx ≡ err (general_error idx (length c.gens))
  unfolding get_index
  get_index_beyond c idx h = rw (le→leb _ _ h)

  -- `finish` keeps the lists, and commits to the sum.
  pub finish-eq :
      (c : ProverCommitting M)
      → IsPaired c
      → finish c
        ≡ ok (record {
          gens = c.gens;
          blindings = c.blindings;
          commitment = sum_of M c.gens c.blindings;
        })
  unfolding finish
  finish-eq c h = rw (const_time-eq c.gens c.blindings h)

  pub responses_of-eq :
      (n : ℕ) (bs ss : List F) (c : F)
      → length bs ≡ n
      → length ss ≡ n
      → responses_of K n bs ss c ≡ ok (sub_scaled M c bs ss)
  unfolding responses_of
  responses_of-eq zero [] ss c h k = refl
  responses_of-eq zero (b ∷ bs) ss c h k = absurd (omega arith)
  responses_of-eq (suc n) [] ss c h k = absurd (omega arith)
  responses_of-eq (suc n) (b ∷ bs) [] c h k = absurd (omega arith)
  responses_of-eq (suc n) (b ∷ bs) (s ∷ ss) c h k =
      rw (responses_of-eq n bs ss c (omega arith) (omega arith))

  -- the proof of an honest prover
  abbrev pub honest_proof : ProverCommitting M → F → List F → Proof M
  honest_proof c challenge secrets = record {
    commitment = sum_of M c.gens c.blindings;
    responses = sub_scaled M challenge c.blindings secrets;
  }

  abbrev pub committed_of : ProverCommitting M → ProverCommitted M
  committed_of c = record {
    gens = c.gens;
    blindings = c.blindings;
    commitment = sum_of M c.gens c.blindings;
  }

  pub gen_proof-eq :
      (c : ProverCommitting M) (challenge : F) (secrets : List F)
      → IsPaired c
      → length secrets ≡ length c.gens
      → gen_proof (committed_of c) challenge secrets ≡ ok (honest_proof c challenge secrets)
  unfolding gen_proof
  gen_proof-eq c challenge secrets h k =
      rw (k, ==_refl, responses_of-eq (length c.gens) c.blindings secrets challenge (sym h) k)

  -- Secrets of another number than the generators are refused, with both numbers.
  pub gen_proof_unequal :
      (c : ProverCommitted M) (challenge : F) (secrets : List F)
      → length secrets ≢ length c.gens
      → gen_proof c challenge secrets
        ≡ err (unequal_no_of_bases_exponents (length c.gens) (length secrets))
  unfolding gen_proof
  gen_proof_unequal c challenge secrets n = ground arith

  pub verify-honest_proof :
      (c : ProverCommitting M) (challenge : F) (secrets : List F)
      → IsPaired c
      → length secrets ≡ length c.gens
      → verify (honest_proof c challenge secrets) c.gens (sum_of M c.gens secrets) challenge
        ≡ ok true
  verify-honest_proof c challenge secrets h k =
      (verify_iff (honest_proof c challenge secrets) c.gens (sum_of M c.gens secrets) challenge
          (h ∙ sym (length-sub_scaled M challenge c.blindings secrets (sym h ∙ sym k)))).1
        (sum_of-sub_scaled M c.gens c.blindings secrets challenge h (sym k))

  -- Completeness: where every generator has its blinding and a secret, `finish` and `gen_proof` return a
  -- proof, and `verify` accepts it against the commitment to the secrets, for every challenge.
  pub proof_complete :
      (c : ProverCommitting M) (challenge : F) (secrets : List F)
      → IsPaired c
      → length secrets ≡ length c.gens
      → (do
        committed ← finish c
        proof ← gen_proof committed challenge secrets
        verify proof c.gens (sum_of M c.gens secrets) challenge)
        ≡ ok true
  proof_complete c challenge secrets h k = rw (
    finish-eq c h,
    gen_proof-eq c challenge secrets h k,
    verify-honest_proof c challenge secrets h k,
  )
