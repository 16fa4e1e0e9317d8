-- ===== src/Zmix/Ps/PokSig/Complete.antt =====
-- An honest proof of knowledge of a signature is accepted.
use smartchaindb_driver.Prelude.{
  ◌≤◌, ◌+◌, le→ltb, arith, ℕ, ◌-◌, ◌≡◌, ◌≢◌, refl, sym, ap, ap₂, ◌∙◌, true, false, ◌||◌, Option,
  some, none, List, [], ◌∷◌, length, suc, ok, ◌>>=◌,
}
use smartchaindb_driver.Amcl.{Field, Group, Pairing}
use smartchaindb_driver.Amcl.Algebra.{•-•_comm, ⊕_left_comm}
use smartchaindb_driver.Amcl.Sums.{sum_of}
use smartchaindb_driver.Zmix.PokVc.{ProverCommitting}
use smartchaindb_driver.Zmix.PokVc.Verify.{
  committed_of, honest_proof, finish-eq, gen_proof-eq, verify-honest_proof,
}
use smartchaindb_driver.Zmix.PokVc.Commit.{resolve, length-resolve}
use smartchaindb_driver.Zmix.Selection.{
  contains, pick, hides, IsIndexSet, Reveals, length-pick_hidden, length-pick_same, sum_of-pick,
}
use smartchaindb_driver.Zmix.Ps.Keys.{Sigkey, Verkey}
use smartchaindb_driver.Zmix.Ps.Keys.Laws.{IsKeyPair, validate-IsKeyPair, length-y_tilde}
use smartchaindb_driver.Zmix.Ps.Signature
use smartchaindb_driver.Zmix.Ps.Signature.{Signature, check_verkey_and_messages_compat}
use smartchaindb_driver.Zmix.Ps.Signature.Verify.{
  exponent, dot, sum_of-multiples, pairing_test_iff, proper_iff, verify_exactly, compat-ok,
}
use smartchaindb_driver.Zmix.Ps.Signature.Sign.{proper_multiple}
use smartchaindb_driver.Zmix.Ps.PokSig.{
  reserve, PoKOfSignature, PoKOfSignatureProof, init, gen_proof, verify, add_revealed,
}
use smartchaindb_driver.Zmix.Ps.PokSig.Loops.{
  check_indices-ok, blinding_list-eq, hidden_places-eq, hidden_bases-eq, commit_all-eq,
}
use smartchaindb_driver.Zmix.Ps.PokSig.Revealed.{
  entries_bound, IsMap, KeysBelow, masked-nil, revealed_bases-eq, masked-eq-sum_of,
}

module _ {K : Field} {S O : Group K} (P : Pairing S O) (sig : Signature S) (vk : Verkey S O)
    (messages : List K.F) (revealed : List ℕ) (random : ℕ → K.F) where
  open K use {F, fe_zero, ◌⊞◌}
  open S use {◌⊕◌, ◌•◌, is_identity}

  abbrev sig_of : Signature S
  sig_of = record {
    sigma_1 = sig.sigma_1 • random 0;
    sigma_2 = (sig.sigma_2 ⊕ (sig.sigma_1 • random 1)) • random 0;
  }

  abbrev bases_of : List O.G
  bases_of = vk.g_tilde ∷ pick (hides revealed) 0 vk.y_tilde

  abbrev secrets_of : List F
  secrets_of = random 1 ∷ pick (hides revealed) 0 messages

  abbrev committing_of : List F → ProverCommitting O
  committing_of blindings = record { gens = bases_of; blindings = blindings }

  abbrev pok_of : List F → PoKOfSignature S O
  pok_of blindings = record {
    secrets = secrets_of;
    sig = sig_of;
    j = sum_of O bases_of secrets_of;
    pok_vc = committed_of O (committing_of blindings);
  }

  abbrev proof_of : List F → F → PoKOfSignatureProof S O
  proof_of blindings challenge = record {
    sig = sig_of;
    j = sum_of O bases_of secrets_of;
    proof_vc = honest_proof O (committing_of blindings) challenge secrets_of;
  }

  -- as many secrets as bases
  paired : length messages ≡ length vk.y_tilde → length secrets_of ≡ length bases_of
  paired h = ap suc (length-pick_same (hides revealed) 0 messages vk.y_tilde h)

  init-eq :
      (blindings : Option (List F))
      → check_verkey_and_messages_compat vk messages ≡ ok tt
      → length messages ≡ length vk.y_tilde
      → IsIndexSet revealed (length messages)
      → ((b : List F) → blindings ≡ some b → length b ≡ length messages - length revealed)
      → (bs : List F) × (length bases_of ≡ length bs)
        × (init sig vk messages blindings revealed random ≡ ok (pok_of bs))
  unfolding init
  init-eq blindings compat h set fit =
      let (bs, listed, count) =
        blinding_list-eq blindings (length messages - length revealed) fit in
      let hidden : length bs ≡ length (pick (hides revealed) 0 vk.y_tilde) =
        count
        ∙ sym (length-pick_hidden revealed messages set)
        ∙ length-pick_same (hides revealed) 0 messages vk.y_tilde h in
      let used = random 2 ∷ resolve bs random 3 in
      let fits : length bases_of ≡ length used =
        ap suc (sym (length-resolve bs random 3 ∙ hidden)) in
      (
        used,
        fits,
        rw (
          check_indices-ok revealed (length messages) set,
          compat,
          listed,
          hidden_places-eq (length vk.y_tilde) 0 revealed vk.y_tilde vk.y_tilde messages messages
              refl refl refl h,
          O.const_time-eq bases_of secrets_of (sym (paired h)),
          commit_all-eq {O = O} (record { gens = []; blindings = [] }) bases_of (none ∷ bs) random 2
              (ap suc hidden),
          finish-eq O (committing_of used) fits,
        ),
      )

  gen_proof-pok_of :
      (blindings : List F) (challenge : F)
      → length messages ≡ length vk.y_tilde
      → length bases_of ≡ length blindings
      → gen_proof (pok_of blindings) challenge ≡ ok (proof_of blindings challenge)
  unfolding gen_proof
  gen_proof-pok_of blindings challenge h k =
      rw (gen_proof-eq O (committing_of blindings) challenge secrets_of k (paired h))

  abbrev revealed_sum : O.G
  revealed_sum =
      sum_of O (pick (contains revealed) 0 vk.y_tilde) (pick (contains revealed) 0 messages)

  add_revealed-eq :
      (entries : List (ℕ × F)) (j : O.G)
      → IsMap entries
      → KeysBelow entries (length vk.y_tilde)
      → Reveals entries revealed messages
      → length vk.y_tilde ≡ length messages
      → add_revealed P vk j entries ≡ ok (O.◌⊕◌ j revealed_sum)
  unfolding add_revealed
  add_revealed-eq [] j d b r h = ap ok (
      sym (O.⊕-identity j)
      ∙ ap (λ z. O.◌⊕◌ j z)
          (sym (masked-nil O 0 vk.y_tilde)
            ∙ masked-eq-sum_of O [] revealed messages messages 0 vk.y_tilde r refl h))
  add_revealed-eq (entry ∷ entries) j d b r h =
      let (bases, scalars, found, same, sum) =
        revealed_bases-eq O (entry ∷ entries) vk.y_tilde d b in
      rw (
        found,
        O.var_time-eq bases scalars same,
        sum,
        masked-eq-sum_of O (entry ∷ entries) revealed messages messages 0 vk.y_tilde r refl h,
      )

  regroup : (a b c d : O.G) → O.◌⊕◌ (O.◌⊕◌ (O.◌⊕◌ a b) c) d ≡ O.◌⊕◌ (O.◌⊕◌ d (O.◌⊕◌ c b)) a
  regroup a b c d = simp (O.⊕_assoc, O.⊕_comm, ⊕_left_comm O)

  -- `J` with the revealed messages and `X_tilde` is a multiple of `g_tilde`
  total :
      (sk : Sigkey S) (x : F) (ys : List F)
      → IsKeyPair vk sk x ys
      → length vk.y_tilde ≡ length messages
      → O.◌⊕◌ (O.◌⊕◌ (sum_of O bases_of secrets_of) revealed_sum) vk.x_tilde
        ≡ O.◌•◌ vk.g_tilde (exponent P x ys messages ⊞ random 1)
  total sk x ys k h =
      regroup (O.◌•◌ vk.g_tilde (random 1))
        (sum_of O (pick (hides revealed) 0 vk.y_tilde) (pick (hides revealed) 0 messages))
        revealed_sum vk.x_tilde
      ∙ ap (λ z. O.◌⊕◌ z (O.◌•◌ vk.g_tilde (random 1)))
          (ap₂ (λ a b. O.◌⊕◌ a b) k.verifying
              (sum_of-pick O (contains revealed) 0 vk.y_tilde messages h
                ∙ ap (λ l. sum_of O l messages) k.verifying_y
                ∙ sum_of-multiples O vk.g_tilde ys messages)
            ∙ sym (O.•-⊞ vk.g_tilde x (dot K ys messages)))
      ∙ sym (O.•-⊞ vk.g_tilde (exponent P x ys messages) (random 1))

  randomized :
      (e : F) → sig.sigma_1 • e ≡ sig.sigma_2 → sig_of.sigma_1 • (e ⊞ random 1) ≡ sig_of.sigma_2
  randomized e signed =
      •-•_comm S sig.sigma_1 (random 0) (e ⊞ random 1)
      ∙ ap (λ z. z • random 0)
          (S.•-⊞ sig.sigma_1 e (random 1) ∙ ap (λ z. z ⊕ (sig.sigma_1 • random 1)) signed)

  proper :
      (e : F)
      → sig.sigma_1 • e ≡ sig.sigma_2
      → sig.sigma_1 ≢ S.identity
      → random 0 ≢ fe_zero
      → e ⊞ random 1 ≢ fe_zero
      → (is_identity sig_of.sigma_1 || is_identity sig_of.sigma_2) ≡ false
  proper e signed n m l =
      let first = proper_multiple P sig.sigma_1 (random 0) n m in
      let second = proper_multiple P sig_of.sigma_1 (e ⊞ random 1) first l in
      rw (
        (proper_iff P sig_of.sigma_1).1 first,
        (proper_iff P sig_of.sigma_2).1 (λ q. second (randomized e signed ∙ q)),
      )

  reserve-ok : (n revealed_count : ℕ) → revealed_count ≤ n → reserve n revealed_count ≡ ok tt
  unfolding reserve
  reserve-ok n revealed_count h = rw (le→ltb (n + 1) revealed_count (omega arith))

  proof_accepted :
      (sk : Sigkey S) (x : F) (ys blindings : List F) (entries : List (ℕ × F)) (challenge : F)
      → IsKeyPair vk sk x ys
      → vk.g_tilde ≢ O.identity
      → length vk.y_tilde ≡ length messages
      → sig.sigma_1 • exponent P x ys messages ≡ sig.sigma_2
      → (is_identity sig_of.sigma_1 || is_identity sig_of.sigma_2) ≡ false
      → IsMap entries
      → KeysBelow entries (length vk.y_tilde)
      → Reveals entries revealed messages
      → length bases_of ≡ length blindings
      → verify P (proof_of blindings challenge) vk entries challenge ≡ ok true
  unfolding verify
  proof_accepted sk x ys blindings entries challenge k n h signed good d b r fits = rw (
    validate-IsKeyPair vk sk x ys k,
    good,
    reserve-ok (length vk.y_tilde) (length entries) (entries_bound entries vk.y_tilde d b),
    hidden_bases-eq (length vk.y_tilde) 0 entries revealed vk.y_tilde vk.y_tilde messages messages r
        refl refl refl (sym h),
    verify-honest_proof O (committing_of blindings) challenge secrets_of fits (paired (sym h)),
    add_revealed-eq entries (sum_of O bases_of secrets_of) d b r h,
    total sk x ys k h,
    (pairing_test_iff P sig_of.sigma_1 sig_of.sigma_2 vk.g_tilde
          (exponent P x ys messages ⊞ random 1) n).1
        (randomized (exponent P x ys messages) signed),
  )

-- Completeness: for a key pair of the secrets x and ys whose g_tilde is not the identity, as many messages as
-- ys, a signature that `verify` accepts for them, a set of indices of messages to reveal, blindings that are
-- either not given or one for each hidden message, a first draw r other than 0 and a second draw t with
-- x + y1 m1 + ... + t other than 0, the proof that `init` and `gen_proof` return is accepted by `verify` for
-- every challenge, given the messages at the revealed indices and nothing else as a map of distinct keys.
pub pok_of_ps_signature_complete :
    {K : Field} {S O : Group K} (P : Pairing S O) (sig : Signature S) (vk : Verkey S O)
    (sk : Sigkey S) (x : K.F) (ys messages : List K.F) (blindings : Option (List K.F))
    (revealed : List ℕ) (random : ℕ → K.F) (entries : List (ℕ × K.F)) (challenge : K.F)
    → IsKeyPair vk sk x ys
    → vk.g_tilde ≢ O.identity
    → length messages ≡ length ys
    → Signature.verify P sig messages vk ≡ ok true
    → IsIndexSet revealed (length messages)
    → ((b : List K.F) → blindings ≡ some b → length b ≡ length messages - length revealed)
    → random 0 ≢ K.fe_zero
    → K.◌⊞◌ (exponent P x ys messages) (random 1) ≢ K.fe_zero
    → IsMap entries
    → KeysBelow entries (length vk.y_tilde)
    → Reveals entries revealed messages
    → (do
      pok ← init sig vk messages blindings revealed random
      proof ← gen_proof pok challenge
      verify P proof vk entries challenge)
      ≡ ok true
pok_of_ps_signature_complete P sig vk sk x ys messages blindings revealed random entries challenge k
      n h signed set fit m l d b r =
    let same = length-y_tilde vk sk x ys k ∙ sym h in
    let (proper_1, proper_2, equation) =
      (verify_exactly P sig messages vk sk x ys k n h).0 signed in
    let (bs, count, made) =
      init-eq P sig vk messages revealed random blindings (compat-ok P messages vk sk x ys k h)
        (sym same) set fit in
    rw (
      made,
      gen_proof-pok_of P sig vk messages revealed random bs challenge (sym same) count,
      proof_accepted P sig vk messages revealed random sk x ys bs entries challenge k n same
          equation
          (proper P sig vk messages revealed random (exponent P x ys messages) equation proper_1 m
            l)
          d b r count,
    )
