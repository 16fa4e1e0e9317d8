-- ===== src/Zmix/Bbs/PokSig.antt =====
-- ursa_Master/libzmix/src/signatures/bbs/pok_sig.rs: proof of knowledge of a BBS+ signature with some
-- of the messages revealed. `random i` is the i-th element that `FieldElement::random()` returns.
pub mod Relations
pub mod Loops
pub mod Honest
pub mod Complete
mod Tests
use smartchaindb_driver.Prelude.{
  ℕ, zero, suc, ◌+◌, ◌-◌, Bool, true, false, not, Option, none, some, List, [], ◌∷◌, ◌++◌, length,
  map, replicate, get_elem?, leb, ◌==◌, if◌then◌else◌, Outcome, ok, panic, ◌>>=◌, ◌>>◌, fail_if,
  unwrap, map_err,
}
use smartchaindb_driver.Amcl.{Field, Group, Pairing}
use smartchaindb_driver.Zmix.PokVc
use smartchaindb_driver.Zmix.PokVc.{ProverCommitting, ProverCommitted, Proof, commit, finish}
use smartchaindb_driver.Zmix.Selection.{contains, get}
use smartchaindb_driver.Zmix.Bbs.Errors.{
  BbsErrorKind, general_error, pokvc_error, index_should_be_less, blindings_ne_hidden,
  signing_error_message_count_mismatch,
}
use smartchaindb_driver.Zmix.Bbs.Keys.{PublicKey, message_count, validate}
use smartchaindb_driver.Zmix.Bbs.Signature.{Signature, compute_b_const_time}

pub record PoKOfSignature {K : Field} (G1 : Group K) : Type 0 where
  pub a_prime : G1.G
  pub a_bar : G1.G
  pub d : G1.G
  pub pok_vc_1 : ProverCommitted G1
  pub secrets_1 : List K.F
  pub pok_vc_2 : ProverCommitted G1
  pub secrets_2 : List K.F

pub record PoKOfSignatureProof {K : Field} (G1 : Group K) : Type 0 where
  pub a_prime : G1.G
  pub a_bar : G1.G
  pub d : G1.G
  pub proof_vc_1 : Proof G1
  pub proof_vc_2 : Proof G1

-- the loops that refuse an index from `count` on
unfoldable pub check_indices : List ℕ → ℕ → Outcome BbsErrorKind (Unit {0})
check_indices [] count = ok tt
check_indices (idx ∷ rest) count = do
  fail_if (leb count idx) (general_error (index_should_be_less idx count))
  check_indices rest count

-- the list of blindings, one for each hidden message
unfoldable pub blinding_list :
    {F : Type 0} → Option (List F) → ℕ → Outcome BbsErrorKind (List (Option F))
blinding_list none hidden = ok (replicate hidden none)
blinding_list (some b) hidden = do
  fail_if (not (hidden == length b)) (general_error (blindings_ne_hidden (length b) hidden))
  ok (map some b)

module _ {K : Field} {G1 : Group K} where
  -- The loop over the generators of the key: `todo` rounds from place `i` on, with the blindings that
  -- are left and the number of the next draw.
  unfoldable pub commit_hidden :
      ProverCommitting G1
      → List K.F
      → (todo i : ℕ) → List ℕ
      → List G1.G
      → List K.F
      → List (Option K.F)
      → (ℕ → K.F)
      → ℕ
      → Outcome BbsErrorKind (ProverCommitting G1 × List K.F)
  unfolding commit
  commit_hidden committing secrets zero i revealed h messages blindings random draw =
      ok (committing, secrets)
  commit_hidden committing secrets (suc todo) i revealed h messages [] random draw =
      elim (contains revealed i) [
        | true ↦ commit_hidden committing secrets todo (suc i) revealed h messages [] random draw
        | false ↦ panic
      ]
  commit_hidden committing secrets (suc todo) i revealed h messages (b ∷ bs) random draw =
      elim (contains revealed i) [
        | true ↦
            commit_hidden committing secrets todo (suc i) revealed h messages (b ∷ bs) random draw
        | false ↦ do
          g ← unwrap (get_elem? h i)
          m ← unwrap (get_elem? messages i)
          commit_hidden (commit committing g b (random draw)).0 (secrets ++ m ∷ []) todo (suc i)
              revealed h messages bs random (suc draw)
      ]

module _ {K : Field} {G1 G2 : Group K} where
  open K use {F, ◌⊟◌, ◌⊠◌, neg, inverse}
  open G1 use {G, identity, ◌⊖◌, ◌•◌, negate, binary_scalar_mul, is_identity}

  unfoldable pub init :
      Signature G1
      → PublicKey G1 G2
      → List F
      → Option (List F)
      → List ℕ
      → (ℕ → F)
      → Outcome BbsErrorKind (PoKOfSignature G1)
  unfolding check_indices blinding_list commit_hidden commit PokVc.new message_count
  init signature vk messages blindings revealed random = do
    fail_if (not (length messages == message_count vk))
        (signing_error_message_count_mismatch (message_count vk) (length messages))
    check_indices revealed (length messages)
    blindings' ← blinding_list blindings (length messages - length revealed)
    let r1 = random 0
    let r2 = random 1
    b ← compute_b_const_time identity vk messages signature.s 0
    let a_prime = signature.a • r1
    let a_bar = (b • r1) ⊖ (a_prime • signature.e)
    let d = binary_scalar_mul b vk.h0 r1 (neg r2)
    let r3 = inverse r1
    let s_prime = signature.s ⊟ (r2 ⊠ r3)
    let committing_1 =
        (commit (commit (PokVc.new {M = G1}) a_prime none (random 2)).0 vk.h0 none (random 3)).0
    let secrets_1 = neg signature.e ∷ r2 ∷ []
    pok_vc_1 ← map_err pokvc_error (finish committing_1)
    let committing_2 =
        (commit (commit (PokVc.new {M = G1}) d none (random 4)).0 vk.h0 none (random 5)).0
    hidden ←
        commit_hidden committing_2 (neg r3 ∷ s_prime ∷ []) (message_count vk) 0 revealed vk.h
          messages blindings' random 6
    pok_vc_2 ← map_err pokvc_error (finish hidden.0)
    ok (record {
      a_prime = a_prime;
      a_bar = a_bar;
      d = d;
      pok_vc_1 = pok_vc_1;
      secrets_1 = secrets_1;
      pok_vc_2 = pok_vc_2;
      secrets_2 = hidden.1;
    })

module _ {K : Field} {G1 : Group K} where
  unfoldable pub gen_proof : PoKOfSignature G1 → K.F → Outcome BbsErrorKind (PoKOfSignatureProof G1)
  gen_proof self challenge_hash = do
    proof_vc_1 ← map_err pokvc_error (PokVc.gen_proof self.pok_vc_1 challenge_hash self.secrets_1)
    proof_vc_2 ← map_err pokvc_error (PokVc.gen_proof self.pok_vc_2 challenge_hash self.secrets_2)
    ok (record {
      a_prime = self.a_prime;
      a_bar = self.a_bar;
      d = self.d;
      proof_vc_1 = proof_vc_1;
      proof_vc_2 = proof_vc_2;
    })

-- The loop of `verify` over `todo` generators from place `i` on: the generators of the hidden messages,
-- those of the revealed ones, and the revealed messages.
unfoldable pub split_bases :
    {P F : Type 0}
    → (todo i : ℕ) → List P
    → List (ℕ × F)
    → Outcome BbsErrorKind (List P × List P × List F)
split_bases zero i h revealed = ok ([], [], [])
split_bases (suc todo) i h revealed = do
  p ← unwrap (get_elem? h i)
  rest ← split_bases todo (suc i) h revealed
  elim (get revealed i) [
    | some m ↦ ok (rest.0, p ∷ rest.1, m ∷ rest.2)
    | none ↦ ok (p ∷ rest.0, rest.1, rest.2)
  ]

module _ {K : Field} {G1 G2 : Group K} (P : Pairing G1 G2) where
  open K use {F, fe_one}
  open G1 use {G, generator, ◌⊖◌, negate, is_identity, multi_scalar_mul_var_time}
  open P use {ate_2_pairing, is_one}

  -- the second relation, over the hidden messages
  unfoldable pub verify_hidden :
      PoKOfSignatureProof G1 → PublicKey G1 G2 → List (ℕ × F) → F → Outcome BbsErrorKind Bool
  unfolding split_bases message_count
  verify_hidden self vk revealed_msgs challenge = do
    split ← split_bases (message_count vk) 0 vk.h revealed_msgs
    sum ← unwrap (multi_scalar_mul_var_time (generator ∷ split.1) (fe_one ∷ split.2))
    let pr = negate sum
    map_err pokvc_error (PokVc.verify self.proof_vc_2 (self.d ∷ vk.h0 ∷ split.0) pr challenge)

  -- both relations
  unfoldable pub verify_relations :
      PoKOfSignatureProof G1 → PublicKey G1 G2 → List (ℕ × F) → F → Outcome BbsErrorKind Bool
  unfolding verify_hidden
  verify_relations self vk revealed_msgs challenge = do
    let bases = self.a_prime ∷ vk.h0 ∷ []
    let a_bar_d = self.a_bar ⊖ self.d
    first ← map_err pokvc_error (PokVc.verify self.proof_vc_1 bases a_bar_d challenge)
    if first then verify_hidden self vk revealed_msgs challenge else ok false

  unfoldable pub verify :
      PoKOfSignatureProof G1 → PublicKey G1 G2 → List (ℕ × F) → F → Outcome BbsErrorKind Bool
  unfolding verify_relations check_indices message_count
  verify self vk revealed_msgs challenge = do
    validate vk
    check_indices (map (λ entry. entry.0) revealed_msgs) (message_count vk)
    if is_identity self.a_prime
        then ok false
        else if is_one (ate_2_pairing self.a_prime vk.w (negate self.a_bar) G2.generator)
        then verify_relations self vk revealed_msgs challenge
        else ok false
