-- ===== src/Ursa/Bls/Codec.antt =====
-- The values of BLS signatures survive their bytes.
use smartchaindb_driver.Prelude.{
  ℕ, refl, ◌≡◌, ◌≢◌, ◌⊎◌, ◌∙◌, inl, inr, length, replicate, length-replicate, arith, ◌==◌, ==_iff,
  Bool-cases, Outcome, err, Option, ok, List, >>=_reread, ◌>>=◌,
}
use smartchaindb_driver.Amcl.{Field, Group, Pairing}
use smartchaindb_driver.Zmix.Bytes.{Bytes}
use smartchaindb_driver.Ursa.Pair.{Curve, number_from, element_from_bytes}
use smartchaindb_driver.Ursa.Pair.Points.{
  PointBytes, g1_to_bytes, g2_to_bytes, element_to_bytes, g1_from_bytes, g2_from_bytes,
}
use smartchaindb_driver.Ursa.Errors.{UrsaCryptoError, invalid_g1_len}
use smartchaindb_driver.Ursa.Bls.{
  SignKey, VerKey, Signature, ProofOfPossession, MultiSignature, new_generator,
  generator_from_bytes, new_sign_key, sign_key_from_bytes, new_ver_key, ver_key_from_bytes,
  pop_from_bytes, signature_from_bytes, new_multi_signature, multi_signature_from_bytes,
  new_proof_of_possession, sign, seeded,
}

module _ {K : Field} {M N : Group K} {P : Pairing M N} {C : Curve P} (B : PointBytes C) where
  length-g1_to_bytes : (p : M.G) → length (g1_to_bytes B p) ≡ 128
  unfolding g1_to_bytes
  length-g1_to_bytes p = B.length-ecp_tobytes p (replicate 128 0) ∙ length-replicate {A = ℕ} 128 0

  ecp_frombytes-g1 : (p : M.G) → B.ecp_frombytes (g1_to_bytes B p) ≡ p
  unfolding g1_to_bytes
  ecp_frombytes-g1 p =
      B.ecp_frombytes-ecp_tobytes p (replicate 128 0)
        (omega (arith, length-replicate {A = ℕ} 128 0))

  g1_from_bytes-to_bytes : (p : M.G) → g1_from_bytes B (g1_to_bytes B p) ≡ ok p
  unfolding g1_from_bytes
  g1_from_bytes-to_bytes p = rw (length-g1_to_bytes p, ecp_frombytes-g1 p)

  length-g2_to_bytes : (p : N.G) → length (g2_to_bytes B p) ≡ 128
  unfolding g2_to_bytes
  length-g2_to_bytes p = B.length-ecp2_tobytes p (replicate 128 0) ∙ length-replicate {A = ℕ} 128 0

  ecp2_frombytes-g2 : (p : N.G) → B.ecp2_frombytes (g2_to_bytes B p) ≡ p
  unfolding g2_to_bytes
  ecp2_frombytes-g2 p =
      B.ecp2_frombytes-ecp2_tobytes p (replicate 128 0)
        (omega (arith, length-replicate {A = ℕ} 128 0))

  g2_from_bytes-to_bytes : (p : N.G) → g2_from_bytes B (g2_to_bytes B p) ≡ ok p
  unfolding g2_from_bytes
  g2_from_bytes-to_bytes p = rw (length-g2_to_bytes p, ecp2_frombytes-g2 p)

  length-element_to_bytes : (a : K.F) → length (element_to_bytes B a) ≡ 32
  unfolding element_to_bytes
  length-element_to_bytes a =
      B.length-big_tobytes a (replicate 32 0) ∙ length-replicate {A = ℕ} 32 0

  element-element_to_bytes : (a : K.F) → C.element (number_from 0 (element_to_bytes B a)) ≡ a
  unfolding element_to_bytes
  element-element_to_bytes a =
      B.element-big_tobytes a (replicate 32 0) (length-replicate {A = ℕ} 32 0)

  -- A generator and a ver key are read back from their bytes.
  pub ver_key_from_bytes-bytes :
      (point : N.G) (sign_key : SignKey K)
      → (let gen = new_generator B point in
          let ver_key = new_ver_key B gen sign_key in
          (generator_from_bytes B gen.bytes ≡ ok gen)
          × (ver_key_from_bytes B ver_key.bytes ≡ ok ver_key))
  unfolding new_generator generator_from_bytes new_ver_key ver_key_from_bytes
  ver_key_from_bytes-bytes point sign_key =
      (rw (g2_from_bytes-to_bytes _), rw (g2_from_bytes-to_bytes _))

  -- What `new` makes of a seed or of a draw, where it makes a sign key, is read back from its bytes.
  pub sign_key_from_bytes-bytes :
      (drawn : K.F) (seed : Option Bytes)
      → (do sign_key ← new_sign_key B drawn seed; sign_key_from_bytes B sign_key.bytes)
        ≡ new_sign_key B drawn seed
  unfolding new_sign_key sign_key_from_bytes element_from_bytes
  sign_key_from_bytes-bytes drawn seed =
      >>=_reread (seeded B drawn seed) _ _
        λ a. rw (length-element_to_bytes a, element-element_to_bytes a)

  -- The bytes are read where there are 128 of them, to a value with these bytes, and refused otherwise.
  abbrev pub IsDecoded : {A : Type 0} → (A → Bytes) → Bytes → Outcome UrsaCryptoError A → Type 0
  IsDecoded {A} bytes_of bytes decoded =
      (length bytes ≢ 128) × (decoded ≡ err invalid_g1_len)
      ⊎ (length bytes ≡ 128) × (a : A) × (decoded ≡ ok a) × (bytes_of a ≡ bytes)

  make-IsDecoded :
      {A : Type 0} (make : M.G → Bytes → A) (bytes_of : A → Bytes) (bytes : Bytes)
      → ((point : M.G) → bytes_of (make point bytes) ≡ bytes)
      → IsDecoded bytes_of bytes (g1_from_bytes B bytes >>= λ point. ok (make point bytes))
  unfolding g1_from_bytes
  make-IsDecoded make bytes_of bytes kept = elim (Bool-cases (length bytes == 128)) [
    | inl t ↦ inr (
      (==_iff (length bytes) 128).0 t,
      make (B.ecp_frombytes bytes) bytes,
      rw t,
      kept (B.ecp_frombytes bytes),
    )
    | inr f ↦ inl ((λ e. let hit = (==_iff (length bytes) 128).1 e in absurd cc), rw f)
  ]

  -- Every signature, proof of possession and multi-signature that is made is read back from its bytes;
  -- where none is made, the outcome is the same. Other bytes are read to a value that keeps them, where there are 128, and
  -- refused for their length otherwise.
  pub signature_from_bytes-bytes :
      (fuel : ℕ) (sha256 keccak256 : Bytes → Bytes) (message bytes : Bytes) (sign_key : SignKey K)
      (ver_key : VerKey N) (signatures : List (Signature M))
      → (let signed = sign B fuel sha256 keccak256 message sign_key in
          let proved = new_proof_of_possession B fuel sha256 keccak256 ver_key sign_key in
          let multi_signature = new_multi_signature B signatures in
          (signed >>= (λ signature. signature_from_bytes B signature.bytes) ≡ signed)
          × (proved >>= (λ pop. pop_from_bytes B pop.bytes) ≡ proved)
          × (multi_signature_from_bytes B multi_signature.bytes ≡ ok multi_signature)
          × IsDecoded {A = Signature M} (λ s. s.bytes) bytes (signature_from_bytes B bytes)
          × IsDecoded {A = ProofOfPossession M} (λ s. s.bytes) bytes (pop_from_bytes B bytes)
          × IsDecoded {A = MultiSignature M}
              (λ s. s.bytes)
              bytes
              (multi_signature_from_bytes B bytes))
  unfolding sign new_proof_of_possession new_multi_signature signature_from_bytes pop_from_bytes
      multi_signature_from_bytes
  signature_from_bytes-bytes fuel sha256 keccak256 message bytes sign_key ver_key signatures = (
    >>=_reread _ _ _ (λ p. rw (g1_from_bytes-to_bytes p)),
    >>=_reread _ _ _ (λ p. rw (g1_from_bytes-to_bytes p)),
    rw (g1_from_bytes-to_bytes _),
    make-IsDecoded {A = Signature M} (λ point b. record { point = point; bytes = b }) (λ s. s.bytes)
        bytes (λ point. refl),
    make-IsDecoded {A = ProofOfPossession M} (λ point b. record { point = point; bytes = b })
        (λ s. s.bytes) bytes (λ point. refl),
    make-IsDecoded {A = MultiSignature M} (λ point b. record { point = point; bytes = b })
        (λ s. s.bytes) bytes (λ point. refl),
  )
