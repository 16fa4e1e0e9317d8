-- ===== src/Ursa/Bls/Verify.antt =====
-- What the checks of BLS signatures, of multi-signatures and of proofs of possession decide.
use smartchaindb_driver.Prelude.{
  ℕ, ◌≡◌, ◌≢◌, ◌↔◌, refl, sym, ap, ◌∙◌, true, List, [], ◌∷◌, map, Outcome, ok, ◌>>=◌, ok-injective,
}
use smartchaindb_driver.Amcl.{Field, Group, Pairing}
use smartchaindb_driver.Amcl.Algebra.{•-zero}
use smartchaindb_driver.Zmix.Bytes.{Bytes}
use smartchaindb_driver.Ursa.Errors.{UrsaCryptoError}
use smartchaindb_driver.Ursa.Pair.{Curve}
use smartchaindb_driver.Ursa.Pair.Points.{g1_to_bytes, PointBytes}
use smartchaindb_driver.Ursa.Bls.{
  Generator, SignKey, Signature, MultiSignature, new_ver_key, add_signatures, new_multi_signature,
  add_ver_keys, hash, gen_signature, verify_signature, new_proof_of_possession, sign, verify,
  verify_proof_of_posession, verify_multi_sig,
}
use smartchaindb_driver.Ursa.Bls.Laws.{check_accepts, check_iff}

module _ {K : Field} {M N : Group K} {P : Pairing M N} {C : Curve P} (B : PointBytes C) where
  open K use {F, ◌⊞◌, fe_zero}

  -- the sum of the keys, as the loops add it up
  abbrev pub total_from : F → List (SignKey K) → F
  total_from acc [] = acc
  total_from acc (key ∷ keys) = total_from (acc ⊞ key.group_order_element) keys

  -- the signature of a message with the point h
  abbrev pub signature_at : M.G → SignKey K → Signature M
  signature_at h key =
      let point = M.◌•◌ h key.group_order_element in
      record { point = point; bytes = g1_to_bytes B point }

  add_signatures-total :
      (h : M.G) (acc : F) (keys : List (SignKey K))
      → add_signatures B (M.◌•◌ h acc) (map (signature_at h) keys) ≡ M.◌•◌ h (total_from acc keys)
  add_signatures-total h acc [] = refl
  add_signatures-total h acc (key ∷ keys) =
      ap (λ p. add_signatures B p (map (signature_at h) keys)) (sym (M.•-⊞ h _ _))
      ∙ add_signatures-total h (acc ⊞ key.group_order_element) keys

  add_ver_keys-total :
      (gen : Generator N) (acc : F) (keys : List (SignKey K))
      → add_ver_keys B (N.◌•◌ gen.point acc) (map (new_ver_key B gen) keys)
        ≡ N.◌•◌ gen.point (total_from acc keys)
  unfolding new_ver_key
  add_ver_keys-total gen acc [] = refl
  add_ver_keys-total gen acc (key ∷ keys) =
      ap (λ p. add_ver_keys B p (map (new_ver_key B gen) keys)) (sym (N.•-⊞ gen.point _ _))
      ∙ add_ver_keys-total gen (acc ⊞ key.group_order_element) keys

  new_multi_signature-total :
      (h : M.G) (keys : List (SignKey K))
      → (new_multi_signature B (map (signature_at h) keys)).point
        ≡ M.◌•◌ h (total_from fe_zero keys)
  unfolding new_multi_signature
  new_multi_signature-total h keys =
      ap (λ p. add_signatures B p (map (signature_at h) keys)) (sym (•-zero M h))
      ∙ add_signatures-total h fe_zero keys

  aggregated_verkey-total :
      (gen : Generator N) (keys : List (SignKey K))
      → add_ver_keys B N.identity (map (new_ver_key B gen) keys)
        ≡ N.◌•◌ gen.point (total_from fe_zero keys)
  aggregated_verkey-total gen keys =
      ap (λ p. add_ver_keys B p (map (new_ver_key B gen) keys)) (sym (•-zero N gen.point))
      ∙ add_ver_keys-total gen fe_zero keys

  module _ (fuel : ℕ) (sha256 keccak256 : Bytes → Bytes) where
    -- Where the message has a point, a signature by any sign key verifies against the ver key that is
    -- made from it with the same generator.
    pub verify-sign :
        (gen : Generator N) (sign_key : SignKey K) (message : Bytes) (h : M.G)
        → hash B fuel message sha256 ≡ ok h
        → (do
          signature ← sign B fuel sha256 keccak256 message sign_key
          verify B fuel sha256 keccak256 signature message (new_ver_key B gen sign_key) gen)
          ≡ ok true
    unfolding sign verify gen_signature verify_signature new_ver_key
    verify-sign gen sign_key message h found =
        rw (found, check_accepts P h gen.point sign_key.group_order_element)

    -- Where the ver key has a point under the second hash, the proof of possession of its sign key is
    -- accepted.
    pub verify_proof_of_posession-new :
        (gen : Generator N) (sign_key : SignKey K) (h : M.G)
        → hash B fuel (new_ver_key B gen sign_key).bytes keccak256 ≡ ok h
        → (let ver_key = new_ver_key B gen sign_key in
            do
              pop ← new_proof_of_possession B fuel sha256 keccak256 ver_key sign_key
              verify_proof_of_posession B fuel sha256 keccak256 pop ver_key gen)
          ≡ ok true
    unfolding new_proof_of_possession verify_proof_of_posession gen_signature verify_signature
        new_ver_key
    verify_proof_of_posession-new gen sign_key h found =
        rw (found, check_accepts P h gen.point sign_key.group_order_element)

    -- Where the generator is not infinity and the message has the point h, the only signature point that
    -- verifies against the ver key of a sign key is h times that key.
    pub verify_iff :
        (gen : Generator N) (sign_key : SignKey K) (signature : Signature M) (message : Bytes)
        (h : M.G)
        → gen.point ≢ N.identity
        → hash B fuel message sha256 ≡ ok h
        → (verify B fuel sha256 keccak256 signature message (new_ver_key B gen sign_key) gen
            ≡ ok true)
          ↔ (signature.point ≡ M.◌•◌ h sign_key.group_order_element)
    unfolding verify verify_signature new_ver_key
    verify_iff gen sign_key signature message h n found = rw found (
        let d = check_iff P signature.point h gen.point sign_key.group_order_element n in
        (λ accepted. d.0 (ok-injective accepted), λ same. ap ok (d.1 same)))

    -- Every signer's signature in turn.
    abbrev pub sign_all : Bytes → List (SignKey K) → Outcome UrsaCryptoError (List (Signature M))
    sign_all message [] = ok []
    sign_all message (key ∷ keys) = do
      signature ← sign B fuel sha256 keccak256 message key
      signatures ← sign_all message keys
      ok (signature ∷ signatures)

    sign_all-map :
        (message : Bytes) (h : M.G) (keys : List (SignKey K))
        → hash B fuel message sha256 ≡ ok h
        → sign_all message keys ≡ ok (map (signature_at h) keys)
    unfolding sign gen_signature
    sign_all-map message h [] found = refl
    sign_all-map message h (key ∷ keys) found = rw (found, sign_all-map message h keys found)

    -- Where the message has a point, the multi-signature of the signatures of any list of signers verifies
    -- against the list of their ver keys.
    pub verify_multi_sig-new :
        (gen : Generator N) (keys : List (SignKey K)) (message : Bytes) (h : M.G)
        → hash B fuel message sha256 ≡ ok h
        → (do
          signatures ← sign_all message keys
          verify_multi_sig B fuel sha256 keccak256
              (new_multi_signature B signatures)
              message
              (map (new_ver_key B gen) keys)
              gen)
          ≡ ok true
    unfolding verify_multi_sig verify_signature
    verify_multi_sig-new gen keys message h found = rw (
      sign_all-map message h keys found,
      found,
      new_multi_signature-total h keys,
      aggregated_verkey-total gen keys,
      check_accepts P h gen.point (total_from fe_zero keys),
    )

    -- Where the generator is not infinity and the message has the point h, a multi-signature is accepted for
    -- the ver keys of a list of signers exactly where it is h times the sum of all their sign keys.
    pub verify_multi_sig_iff :
        (gen : Generator N) (keys : List (SignKey K)) (multi_sig : MultiSignature M)
        (message : Bytes) (h : M.G)
        → gen.point ≢ N.identity
        → hash B fuel message sha256 ≡ ok h
        → (verify_multi_sig B fuel sha256 keccak256 multi_sig message
              (map (new_ver_key B gen) keys)
              gen
            ≡ ok true)
          ↔ (multi_sig.point ≡ M.◌•◌ h (total_from fe_zero keys))
    unfolding verify_multi_sig verify_signature
    verify_multi_sig_iff gen keys multi_sig message h n found =
        rw (found, aggregated_verkey-total gen keys)
          (let d = check_iff P multi_sig.point h gen.point (total_from fe_zero keys) n in
            (λ accepted. d.0 (ok-injective accepted), λ same. ap ok (d.1 same)))
