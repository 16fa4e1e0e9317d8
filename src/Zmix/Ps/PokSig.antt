-- ===== src/Zmix/Ps/PokSig.antt =====
-- ursa_Master/libzmix/src/signatures/ps/pok_sig.rs: proof of knowledge of a PS signature with some of the
-- messages revealed. `random i` is the i-th element that `FieldElement::random()` returns.
pub mod Loops
pub mod Revealed
pub mod Complete
pub mod Beyond
mod Tests
use smartchaindb_driver.Prelude.{
  ℕ, zero, suc, ◌+◌, ◌-◌, Bool, true, false, ◌||◌, not, Option, none, some, List, [], ◌∷◌, ◌++◌,
  length, map, replicate, get_elem?, leb, ltb, ◌==◌, if◌then◌else◌, Outcome, ok, err, panic, ◌>>=◌,
  ◌>>◌, fail_if, unwrap, map_err,
}
use smartchaindb_driver.Amcl.{Field, Group, Pairing}
use smartchaindb_driver.Zmix.PokVc
use smartchaindb_driver.Zmix.PokVc.{ProverCommitting, ProverCommitted, Proof, commit, finish}
use smartchaindb_driver.Zmix.Selection.{contains, get}
use smartchaindb_driver.Zmix.Ps.Errors.{
  PsErrorKind, general_error, pokvc_error, index_should_be_less, blindings_ne_hidden,
}
use smartchaindb_driver.Zmix.Ps.Keys.{Verkey, validate}
use smartchaindb_driver.Zmix.Ps.Signature.{Signature, check_verkey_and_messages_compat}

-- `O` is the group of the commitment `J`, which the source writes in capitals.
pub record PoKOfSignature {K : Field} (S O : Group K) : Type 0 where
  pub secrets : List K.F
  pub sig : Signature S
  pub j : O.G
  pub pok_vc : ProverCommitted O

pub record PoKOfSignatureProof {K : Field} (S O : Group K) : Type 0 where
  pub sig : Signature S
  pub j : O.G
  pub proof_vc : Proof O

unfoldable pub check_indices : List ℕ → ℕ → Outcome PsErrorKind (Unit {0})
check_indices [] count = ok tt
check_indices (idx ∷ rest) count = do
  fail_if (leb count idx) (general_error (index_should_be_less idx count))
  check_indices rest count

-- the list of blindings, one for each hidden message
unfoldable pub blinding_list :
    {F : Type 0} → Option (List F) → ℕ → Outcome PsErrorKind (List (Option F))
blinding_list none hidden = ok (replicate hidden none)
blinding_list (some b) hidden = do
  fail_if (not (hidden == length b)) (general_error (blindings_ne_hidden (length b) hidden))
  ok (map some b)

-- the loop of `init` over `todo` generators from place `i` on: the hidden generators and messages
unfoldable pub hidden_places :
    {P F : Type 0} → (todo i : ℕ) → List ℕ → List P → List F → Outcome PsErrorKind (List P × List F)
hidden_places zero i revealed y_tilde messages = ok ([], [])
hidden_places (suc todo) i revealed y_tilde messages = do
  rest ← hidden_places todo (suc i) revealed y_tilde messages
  if contains revealed i then ok rest else (do
    p ← unwrap (get_elem? y_tilde i)
    m ← unwrap (get_elem? messages i)
    ok (p ∷ rest.0, m ∷ rest.1))

-- `for b in bases { committing.commit(b, blindings.remove(0)) }`
unfoldable pub commit_all :
    {K : Field} {O : Group K}
    → ProverCommitting O
    → List O.G
    → List (Option K.F)
    → (ℕ → K.F)
    → ℕ
    → Outcome PsErrorKind (ProverCommitting O)
unfolding commit
commit_all committing [] blindings random draw = ok committing
commit_all committing (b ∷ bases) [] random draw = panic
commit_all committing (b ∷ bases) (blinding ∷ blindings) random draw =
    commit_all (commit committing b blinding (random draw)).0 bases blindings random (suc draw)

module _ {K : Field} {S O : Group K} where
  open K use {F}
  open S use {◌⊕◌, ◌•◌}

  unfoldable pub init :
      Signature S
      → Verkey S O
      → List F
      → Option (List F)
      → List ℕ
      → (ℕ → F)
      → Outcome PsErrorKind (PoKOfSignature S O)
  unfolding check_indices check_verkey_and_messages_compat blinding_list hidden_places commit_all
      PokVc.new
  init sig vk messages blindings revealed random = do
    check_indices revealed (length messages)
    check_verkey_and_messages_compat vk messages
    blindings' ← blinding_list blindings (length messages - length revealed)
    let r = random 0
    let t = random 1
    let sigma_prime_1 = sig.sigma_1 • r
    let sigma_prime_2 = (sig.sigma_2 ⊕ (sig.sigma_1 • t)) • r
    hidden ← hidden_places (length vk.y_tilde) 0 revealed vk.y_tilde messages
    let bases = vk.g_tilde ∷ hidden.0
    let exponents = t ∷ hidden.1
    j ← unwrap (O.multi_scalar_mul_const_time bases exponents)
    committing ← commit_all (PokVc.new {M = O}) bases (none ∷ blindings') random 2
    committed ← map_err pokvc_error (finish committing)
    ok (record {
      secrets = exponents;
      sig = record { sigma_1 = sigma_prime_1; sigma_2 = sigma_prime_2 };
      j = j;
      pok_vc = committed;
    })

  unfoldable pub gen_proof : PoKOfSignature S O → F → Outcome PsErrorKind (PoKOfSignatureProof S O)
  gen_proof self challenge = do
    proof_vc ← map_err pokvc_error (PokVc.gen_proof self.pok_vc challenge self.secrets)
    ok (record { sig = self.sig; j = self.j; proof_vc = proof_vc })

-- The capacity of the bases, the number of generators less that of the revealed messages plus 1, wraps where
-- this is negative, and is then too large to be allocated.
unfoldable pub reserve : (count revealed : ℕ) → Outcome PsErrorKind (Unit {0})
reserve count revealed = if ltb (count + 1) revealed then panic else ok tt

-- the loop of `verify` over `todo` generators from place `i` on: those of the hidden messages
unfoldable pub hidden_bases :
    {P F : Type 0} → (todo i : ℕ) → List P → List (ℕ × F) → Outcome PsErrorKind (List P)
hidden_bases zero i y_tilde revealed_msgs = ok []
hidden_bases (suc todo) i y_tilde revealed_msgs = do
  rest ← hidden_bases todo (suc i) y_tilde revealed_msgs
  elim (get revealed_msgs i) [
    | some m ↦ ok rest
    | none ↦ do p ← unwrap (get_elem? y_tilde i); ok (p ∷ rest)
  ]

-- the loop over the entries of the map, whose keys are indices of generators
unfoldable pub revealed_bases :
    {P F : Type 0} → List P → List (ℕ × F) → Outcome PsErrorKind (List P × List F)
revealed_bases y_tilde [] = ok ([], [])
revealed_bases y_tilde ((i, m) ∷ entries) = do
  p ← unwrap (get_elem? y_tilde i)
  rest ← revealed_bases y_tilde entries
  ok (p ∷ rest.0, m ∷ rest.1)

module _ {K : Field} {S O : Group K} (P : Pairing S O) where
  open K use {F}
  open S use {is_identity, negate}

  -- `J` with the revealed messages
  unfoldable pub add_revealed : Verkey S O → O.G → List (ℕ × F) → Outcome PsErrorKind O.G
  unfolding revealed_bases
  add_revealed vk j [] = ok j
  add_revealed vk j (entry ∷ entries) = do
    bases ← revealed_bases vk.y_tilde (entry ∷ entries)
    sum ← unwrap (O.multi_scalar_mul_var_time bases.0 bases.1)
    ok (O.◌⊕◌ j sum)

  unfoldable pub verify :
      PoKOfSignatureProof S O → Verkey S O → List (ℕ × F) → F → Outcome PsErrorKind Bool
  unfolding reserve hidden_bases add_revealed
  verify self vk revealed_msgs challenge = do
    validate vk
    if is_identity self.sig.sigma_1 || is_identity self.sig.sigma_2 then ok false else (do
      reserve (length vk.y_tilde) (length revealed_msgs)
      hidden ← hidden_bases (length vk.y_tilde) 0 vk.y_tilde revealed_msgs
      known ←
          map_err pokvc_error (PokVc.verify self.proof_vc (vk.g_tilde ∷ hidden) self.j challenge)
      if known
          then (do
            j ← add_revealed vk self.j revealed_msgs
            ok (
                P.is_one (
                  P.ate_2_pairing self.sig.sigma_1 (O.◌⊕◌ j vk.x_tilde) (negate self.sig.sigma_2)
                    vk.g_tilde)))
          else ok false)
