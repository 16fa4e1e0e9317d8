-- ===== src/Zmix/Bbs/PokSig/Honest.antt =====
-- What `init` and `gen_proof` return for an honest prover, and that its two relations hold.
use smartchaindb_driver.Prelude.{
  ℕ, suc, ◌-◌, ◌≡◌, ◌≢◌, refl, sym, ap, ◌∙◌, true, Option, some, List, [], ◌∷◌, length, ok, arith,
  ==_refl,
}
use smartchaindb_driver.Amcl.{Field, Group}
use smartchaindb_driver.Amcl.Algebra.{identity-⊕}
use smartchaindb_driver.Amcl.Sums.{sum_of}
use smartchaindb_driver.Zmix.PokVc
use smartchaindb_driver.Zmix.PokVc.{ProverCommitting, Proof, commit, finish}
use smartchaindb_driver.Zmix.PokVc.Verify.{
  committed_of, honest_proof, finish-eq, gen_proof-eq, verify-honest_proof,
}
use smartchaindb_driver.Zmix.PokVc.Commit.{resolve, length-resolve}
use smartchaindb_driver.Zmix.Selection.{
  contains, pick, hides, IsIndexSet, length-pick_hidden, length-pick_same, sum_of-pick,
}
use smartchaindb_driver.Zmix.Bbs.Keys.{PublicKey, message_count}
use smartchaindb_driver.Zmix.Bbs.Signature.{Signature}
use smartchaindb_driver.Zmix.Bbs.Signature.Base.{base_of, compute_b_const_time-eq}
use smartchaindb_driver.Zmix.Bbs.PokSig.{PoKOfSignature, PoKOfSignatureProof, init, gen_proof}
use smartchaindb_driver.Zmix.Bbs.PokSig.Loops.{check_indices-ok, commit_hidden-eq, blinding_list-eq}
use smartchaindb_driver.Zmix.Bbs.PokSig.Relations.{first_relation, second_relation}

module _ {K : Field} {G1 G2 : Group K} (sig : Signature G1) (vk : PublicKey G1 G2)
    (messages : List K.F) (revealed : List ℕ) (random : ℕ → K.F) where
  open K use {F, fe_zero, fe_one, ◌⊞◌, ◌⊟◌, ◌⊠◌, neg, inverse}
  open G1 use {G, identity, generator, ◌⊕◌, ◌⊖◌, ◌•◌, negate, •-one, ⊕-identity}

  abbrev pub b_of : G
  b_of = base_of vk messages sig.s 0

  abbrev pub a_prime_of : G
  a_prime_of = sig.a • random 0

  abbrev pub a_bar_of : G
  a_bar_of = (b_of • random 0) ⊖ (a_prime_of • sig.e)

  abbrev pub d_of : G
  d_of = (b_of • random 0) ⊕ (vk.h0 • neg (random 1))

  abbrev pub secrets_1_of : List F
  secrets_1_of = neg sig.e ∷ random 1 ∷ []

  abbrev pub secrets_2_of : List F
  secrets_2_of =
      neg (inverse (random 0))
      ∷ (sig.s ⊟ (random 1 ⊠ inverse (random 0)))
      ∷ pick (hides revealed) 0 messages

  abbrev pub committing_1_of : ProverCommitting G1
  committing_1_of = record { gens = a_prime_of ∷ vk.h0 ∷ []; blindings = random 2 ∷ random 3 ∷ [] }

  abbrev pub committing_2_of : List F → ProverCommitting G1
  committing_2_of blindings = record {
    gens = d_of ∷ vk.h0 ∷ pick (hides revealed) 0 vk.h;
    blindings = random 4 ∷ random 5 ∷ blindings;
  }

  abbrev pub pok_of : List F → PoKOfSignature G1
  pok_of blindings = record {
    a_prime = a_prime_of;
    a_bar = a_bar_of;
    d = d_of;
    pok_vc_1 = committed_of G1 committing_1_of;
    secrets_1 = secrets_1_of;
    pok_vc_2 = committed_of G1 (committing_2_of blindings);
    secrets_2 = secrets_2_of;
  }

  abbrev pub proof_of : List F → F → PoKOfSignatureProof G1
  proof_of blindings challenge = record {
    a_prime = a_prime_of;
    a_bar = a_bar_of;
    d = d_of;
    proof_vc_1 = honest_proof G1 committing_1_of challenge secrets_1_of;
    proof_vc_2 = honest_proof G1 (committing_2_of blindings) challenge secrets_2_of;
  }

  pub init-eq :
      (blindings : Option (List F))
      → length messages ≡ message_count vk
      → IsIndexSet revealed (length messages)
      → ((b : List F) → blindings ≡ some b → length b ≡ length messages - length revealed)
      → (bs : List F) × (length bs ≡ length (pick (hides revealed) 0 vk.h))
        × (init sig vk messages blindings revealed random ≡ ok (pok_of bs))
  unfolding init
  init-eq blindings h set fit =
      let (bs, listed, count) =
        blinding_list-eq blindings (length messages - length revealed) fit in
      let hidden : length bs ≡ length (pick (hides revealed) 0 vk.h) =
        count
        ∙ sym (length-pick_hidden revealed messages set)
        ∙ length-pick_same (hides revealed) 0 messages vk.h h in
      let hidden_loop =
        commit_hidden-eq {M = G1}
          (record { gens = d_of ∷ vk.h0 ∷ []; blindings = random 4 ∷ random 5 ∷ [] })
          (neg (inverse (random 0)) ∷ (sig.s ⊟ (random 1 ⊠ inverse (random 0))) ∷ [])
          (length messages) 0 revealed vk.h vk.h messages messages bs random 6 refl refl (sym h)
          refl hidden in
      (
        resolve bs random 6,
        length-resolve bs random 6 ∙ hidden,
        rw (
          h,
          ==_refl,
          ← h,
          check_indices-ok revealed (length messages) set,
          listed,
          compute_b_const_time-eq identity vk messages sig.s 0 (omega arith),
          identity-⊕ G1 b_of,
          G1.binary-eq,
          finish-eq G1 committing_1_of refl,
          hidden_loop,
          finish-eq G1 (committing_2_of (resolve bs random 6))
              (ap (λ n. suc (suc n)) (sym (length-resolve bs random 6 ∙ hidden))),
        ),
      )

  pub gen_proof-pok_of :
      (blindings : List F) (challenge : F)
      → length messages ≡ length vk.h
      → length blindings ≡ length (pick (hides revealed) 0 vk.h)
      → gen_proof (pok_of blindings) challenge ≡ ok (proof_of blindings challenge)
  unfolding gen_proof
  gen_proof-pok_of blindings challenge h k = rw (
    gen_proof-eq G1 committing_1_of challenge secrets_1_of refl refl,
    gen_proof-eq G1 (committing_2_of blindings) challenge secrets_2_of
        (ap (λ n. suc (suc n)) (sym k))
        (ap (λ n. suc (suc n)) (length-pick_same (hides revealed) 0 messages vk.h h)),
  )

  -- the point that the second relation proves an opening of
  abbrev pub public_of : G
  public_of = negate (
      sum_of G1 (generator ∷ pick (contains revealed) 0 vk.h)
        (fe_one ∷ pick (contains revealed) 0 messages))

  pub first_accepted :
      (blindings : List F) (challenge : F)
      → PokVc.verify
          (proof_of blindings challenge).proof_vc_1
          (a_prime_of ∷ vk.h0 ∷ [])
          (a_bar_of ⊖ d_of)
          challenge
        ≡ ok true
  first_accepted blindings challenge =
      ap
        (λ c.
          PokVc.verify (honest_proof G1 committing_1_of challenge secrets_1_of)
            (a_prime_of ∷ vk.h0 ∷ []) c challenge)
        (sym (first_relation G1 b_of vk.h0 a_prime_of sig.e (random 0) (random 1)))
      ∙ verify-honest_proof G1 committing_1_of challenge secrets_1_of refl refl

  opened :
      random 0 ≢ fe_zero
      → length messages ≡ length vk.h
      → sum_of G1 (d_of ∷ vk.h0 ∷ pick (hides revealed) 0 vk.h) secrets_2_of ≡ public_of
  opened n h =
      second_relation G1 b_of (generator • fe_one) vk.h0
        (sum_of G1 (pick (hides revealed) 0 vk.h) (pick (hides revealed) 0 messages))
        (sum_of G1 (pick (contains revealed) 0 vk.h) (pick (contains revealed) 0 messages)) sig.s
        (random 0) (random 1) n
        (ap (λ y. (generator • fe_one) ⊕ ((vk.h0 • sig.s) ⊕ y))
          (sym (sum_of-pick G1 (contains revealed) 0 vk.h messages (sym h))))

  pub second_accepted :
      (blindings : List F) (challenge : F)
      → random 0 ≢ fe_zero
      → length messages ≡ length vk.h
      → length blindings ≡ length (pick (hides revealed) 0 vk.h)
      → PokVc.verify
          (proof_of blindings challenge).proof_vc_2
          (d_of ∷ vk.h0 ∷ pick (hides revealed) 0 vk.h)
          public_of
          challenge
        ≡ ok true
  second_accepted blindings challenge n h k =
      ap
        (λ c.
          PokVc.verify (honest_proof G1 (committing_2_of blindings) challenge secrets_2_of)
            (committing_2_of blindings).gens c challenge)
        (sym (opened n h))
      ∙ verify-honest_proof G1 (committing_2_of blindings) challenge secrets_2_of
          (ap (λ n. suc (suc n)) (sym k))
          (ap (λ n. suc (suc n)) (length-pick_same (hides revealed) 0 messages vk.h h))
