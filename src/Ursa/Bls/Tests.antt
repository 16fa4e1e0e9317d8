-- ===== src/Ursa/Bls/Tests.antt =====
-- BLS signatures over the integers modulo 3, and the theorems at concrete inputs. The digests here are
-- the input itself and a byte that is always the same.
use smartchaindb_driver.Prelude.{
  ℕ, ◌≡◌, ◌≢◌, ◌↔◌, ◌≤◌, ◌+◌, arith, refl, true, List, [], ◌∷◌, map, ok, ◌>>=◌,
}
use smartchaindb_driver.Amcl.Mod3.{r0, r1, r2, group3, field3}
use smartchaindb_driver.Zmix.Bytes.{Bytes}
use smartchaindb_driver.Ursa.Pair.{element_from_bytes}
use smartchaindb_driver.Ursa.Pair.Points.{next_point, from_hash}
use smartchaindb_driver.Ursa.Pair.Mod3.Points.{bytes3}
use smartchaindb_driver.Ursa.Bls.{
  Generator, SignKey, Signature, ProofOfPossession, MultiSignature, new_ver_key, pop_from_bytes,
  signature_from_bytes, new_multi_signature, multi_signature_from_bytes, hash,
  new_proof_of_possession, sign, verify, verify_proof_of_posession, verify_multi_sig,
}
use smartchaindb_driver.Ursa.Bls.Hash.{IsFirst, from_hash-IsFirst}
use smartchaindb_driver.Ursa.Bls.Codec.{IsDecoded, signature_from_bytes-bytes}
use smartchaindb_driver.Ursa.Bls.Verify.{
  sign_all, verify-sign, verify_proof_of_posession-new, verify_multi_sig-new, verify_multi_sig_iff,
}

abbrev gen : Generator group3
gen = record { point = r2; bytes = 2 ∷ [] }

abbrev key_one : SignKey field3
key_one = record { group_order_element = r2; bytes = 2 ∷ [] }

abbrev key_two : SignKey field3
key_two = record { group_order_element = r2; bytes = 2 ∷ [] }

abbrev sha : Bytes → Bytes
sha bytes = bytes

abbrev keccak : Bytes → Bytes
keccak bytes = 5 ∷ []

-- 3 has no point, 4 has
abbrev message : Bytes
message = 3 ∷ []

message_point : hash bytes3 5 message sha ≡ ok r1
unfolding hash from_hash element_from_bytes next_point
message_point = refl

gen-ne : gen.point ≢ r0
gen-ne e = absurd cc

verify-sign_example :
    (do
      signature ← sign bytes3 5 sha keccak message key_one
      verify bytes3 5 sha keccak signature message (new_ver_key bytes3 gen key_one) gen)
    ≡ ok true
verify-sign_example = verify-sign bytes3 5 sha keccak gen key_one message r1 message_point

key_point : hash bytes3 5 (new_ver_key bytes3 gen key_one).bytes keccak ≡ ok r2
unfolding hash from_hash element_from_bytes next_point
key_point = refl

verify_proof_of_posession-new_example :
    (let ver_key = new_ver_key bytes3 gen key_one in
      do
        pop ← new_proof_of_possession bytes3 5 sha keccak ver_key key_one
        verify_proof_of_posession bytes3 5 sha keccak pop ver_key gen)
    ≡ ok true
verify_proof_of_posession-new_example =
    verify_proof_of_posession-new bytes3 5 sha keccak gen key_one r2 key_point

abbrev forged : Signature group3
forged = record { point = r1; bytes = [] }

abbrev keys : List (SignKey field3)
keys = key_one ∷ key_two ∷ key_one ∷ []

verify_multi_sig-new_example :
    (do
      signatures ← sign_all bytes3 5 sha keccak message keys
      verify_multi_sig bytes3 5 sha keccak
          (new_multi_signature bytes3 signatures)
          message
          (map (new_ver_key bytes3 gen) keys)
          gen)
    ≡ ok true
verify_multi_sig-new_example =
    verify_multi_sig-new bytes3 5 sha keccak gen keys message r1 message_point

abbrev multi : MultiSignature group3
multi = record { point = r0; bytes = [] }

verify_multi_sig_iff_example :
    (verify_multi_sig bytes3 5 sha keccak multi message (map (new_ver_key bytes3 gen) keys) gen
      ≡ ok true)
    ↔ (r0 ≡ r0)
verify_multi_sig_iff_example =
    verify_multi_sig_iff bytes3 5 sha keccak gen keys multi message r1 gen-ne message_point

from_hash-IsFirst_example :
    (j : ℕ) × (j ≤ 2)
    × (from_hash bytes3 5 message ≡ ok (bytes3.point_at (3 + j)))
    × IsFirst bytes3 3 j
from_hash-IsFirst_example = from_hash-IsFirst bytes3 5 message 2 (omega arith) (omega arith) refl

signature_from_bytes-bytes_example :
    (let signed = sign bytes3 5 sha keccak message key_one in
      let ver_key = new_ver_key bytes3 gen key_one in
      let proved = new_proof_of_possession bytes3 5 sha keccak ver_key key_one in
      let multi_signature = new_multi_signature bytes3 (forged ∷ []) in
      (signed >>= (λ signature. signature_from_bytes bytes3 signature.bytes) ≡ signed)
      × (proved >>= (λ pop. pop_from_bytes bytes3 pop.bytes) ≡ proved)
      × (multi_signature_from_bytes bytes3 multi_signature.bytes ≡ ok multi_signature)
      × IsDecoded bytes3 {A = Signature group3}
          (λ s. s.bytes)
          message
          (signature_from_bytes bytes3 message)
      × IsDecoded bytes3 {A = ProofOfPossession group3}
          (λ s. s.bytes)
          message
          (pop_from_bytes bytes3 message)
      × IsDecoded bytes3 {A = MultiSignature group3}
          (λ s. s.bytes)
          message
          (multi_signature_from_bytes bytes3 message))
signature_from_bytes-bytes_example =
    signature_from_bytes-bytes bytes3 5 sha keccak message message key_one
      (new_ver_key bytes3 gen key_one) (forged ∷ [])
