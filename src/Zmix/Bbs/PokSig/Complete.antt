-- ===== src/Zmix/Bbs/PokSig/Complete.antt =====
-- An honest proof of knowledge of a signature is accepted.
use smartchaindb_driver.Prelude.{
  ℕ, ◌-◌, ◌≡◌, ◌≢◌, refl, sym, ap, ◌∙◌, true, false, Option, some, List, ◌∷◌, length, suc, ok,
  ◌>>=◌, Bool-cases, inl, inr,
}
use smartchaindb_driver.Amcl.{Field, Group, Pairing}
use smartchaindb_driver.Amcl.Algebra.{⊖_self, identity-•, •-inverse_right}
use smartchaindb_driver.Zmix.Selection.{
  contains, pick, hides, IsIndexSet, Reveals, get_beyond, length-pick_same,
}
use smartchaindb_driver.Zmix.Bbs.Keys.{PublicKey, message_count, validate}
use smartchaindb_driver.Zmix.Bbs.Signature
use smartchaindb_driver.Zmix.Bbs.Signature.{Signature}
use smartchaindb_driver.Zmix.Bbs.Signature.Verify.{IsKeyPair, verify_iff}
use smartchaindb_driver.Zmix.Bbs.PokSig.{init, gen_proof, verify}
use smartchaindb_driver.Zmix.Bbs.PokSig.Loops.{check_keys-ok, split_bases-eq}
use smartchaindb_driver.Zmix.Bbs.PokSig.Relations.{randomized}
use smartchaindb_driver.Zmix.Bbs.PokSig.Honest.{
  b_of, proof_of, init-eq, gen_proof-pok_of, first_accepted, second_accepted,
}

module _ {K : Field} {G1 G2 : Group K} (P : Pairing G1 G2) where
  open K use {F, fe_zero, ◌⊞◌}
  open G1 use {identity, ◌•◌, ◌⊖◌, is_identity, negate, is_identity_iff}

  -- the pairing of a proof shows that its signature is one of the key
  pairing_holds :
      (a_prime a_bar : G1.G) (x : F) (w : G2.G)
      → w ≡ G2.◌•◌ G2.generator x
      → a_prime • x ≡ a_bar
      → P.is_one (P.ate_2_pairing a_prime w (negate a_bar) G2.generator) ≡ true
  pairing_holds a_prime a_bar x w k h = (P.is_one_iff _).1 (
      rw (
        k,
        P.ate_2-eq,
        P.pairing-•,
        ← P.pairing-⊕,
        ← G1.⊖-eq,
        ⊖_self G1 (a_prime • x) a_bar h,
        P.pairing-identity,
      ))

  proof_accepted :
      (sig : Signature G1) (vk : PublicKey G1 G2) (x : F) (messages blindings : List F)
      (revealed : List ℕ) (random : ℕ → F) (entries : List (ℕ × F)) (challenge : F)
      → IsKeyPair P vk x
      → validate vk ≡ ok tt
      → length messages ≡ length vk.h
      → IsIndexSet revealed (length messages)
      → Reveals entries revealed messages
      → sig.a • (sig.e ⊞ x) ≡ b_of sig vk messages revealed random
      → random 0 ≢ fe_zero
      → is_identity (sig.a • random 0) ≡ false
      → length blindings ≡ length (pick (hides revealed) 0 vk.h)
      → verify P (proof_of sig vk messages revealed random blindings challenge) vk entries challenge
        ≡ ok true
  unfolding verify
  proof_accepted sig vk x messages blindings revealed random entries challenge key valid h set r
        signed n proper k =
      rw (
        valid,
        check_keys-ok entries (length vk.h)
            (λ j q. get_beyond entries revealed messages (length vk.h) j r (rw (← h) set) q),
        proper,
        pairing_holds _ _ x vk.w key.0
            (randomized G1 sig.a (b_of sig vk messages revealed random) sig.e x (random 0) signed),
        first_accepted sig vk messages revealed random blindings challenge,
        split_bases-eq (length vk.h) 0 entries revealed vk.h vk.h messages messages r refl refl refl
            h,
        G1.var_time-eq (G1.generator ∷ pick (contains revealed) 0 vk.h)
            (K.fe_one ∷ pick (contains revealed) 0 messages)
            (ap suc (length-pick_same (contains revealed) 0 vk.h messages (sym h))),
        second_accepted sig vk messages revealed random blindings challenge n h k,
      )

  randomized_proper :
      (a : G1.G) (r1 : F) → a ≢ identity → r1 ≢ fe_zero → is_identity (a • r1) ≡ false
  randomized_proper a r1 p n = elim (Bool-cases (is_identity (a • r1))) [
    | inl t ↦ absurd (
        p (
          sym (•-inverse_right G1 a r1 n)
          ∙ ap (λ y. y • K.inverse r1) ((is_identity_iff _).0 t)
          ∙ identity-• G1 (K.inverse r1)))
    | inr f ↦ f
  ]

  -- Completeness: for a key pair whose public key `validate` accepts, a signature that `verify` accepts for
  -- the messages and whose point is not the identity, a set of indices of messages to reveal, blindings that
  -- are either not given or one for each hidden message, and a first draw other than 0, the proof that `init`
  -- and `gen_proof` return is accepted by `verify` for every challenge, given any map that holds the messages
  -- at the revealed indices and nothing else.
  pub pok_of_signature_complete :
      (sig : Signature G1) (vk : PublicKey G1 G2) (x : F) (messages : List F)
      (blindings : Option (List F)) (revealed : List ℕ) (random : ℕ → F) (entries : List (ℕ × F))
      (challenge : F)
      → IsKeyPair P vk x
      → validate vk ≡ ok tt
      → length messages ≡ message_count vk
      → Signature.verify P sig messages vk ≡ ok true
      → sig.a ≢ identity
      → IsIndexSet revealed (length messages)
      → ((b : List F) → blindings ≡ some b → length b ≡ length messages - length revealed)
      → random 0 ≢ fe_zero
      → Reveals entries revealed messages
      → (do
        pok ← init sig vk messages blindings revealed random
        proof ← gen_proof pok challenge
        verify P proof vk entries challenge)
        ≡ ok true
  unfolding message_count
  pok_of_signature_complete sig vk x messages blindings revealed random entries challenge key valid
        h signed p set fit n r =
      let (bs, count, made) = init-eq sig vk messages revealed random blindings h set fit in
      let same : length messages ≡ length vk.h = h in
      rw (
        made,
        gen_proof-pok_of sig vk messages revealed random bs challenge same count,
        proof_accepted sig vk x messages bs revealed random entries challenge key valid same set r
            ((verify_iff P sig messages vk x key h).0 signed) n
            (randomized_proper sig.a (random 0) p n) count,
      )
