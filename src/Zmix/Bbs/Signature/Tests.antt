-- ===== src/Zmix/Bbs/Signature/Tests.antt =====
-- Signatures over the integers modulo 3, and the theorems at concrete inputs.
use smartchaindb_driver.Prelude.{◌≡◌, ◌≢◌, ◌↔◌, refl, true, [], ◌∷◌, ok, err, ◌>>=◌, arith}
use smartchaindb_driver.Amcl.Mod3.{r0, r1, r2, add, mul, group3, pairing3}
use smartchaindb_driver.Amcl.Mod3.Codec.{codec3}
use smartchaindb_driver.Zmix.Bbs.Errors.{signing_error_message_count_mismatch}
use smartchaindb_driver.Zmix.Bbs.Keys.{PublicKey, message_count}
use smartchaindb_driver.Zmix.Bbs.Signature.{
  Signature, new, new_with_committed_messages, verify, get_unblinded_signature, to_bytes,
  from_bytes,
}
use smartchaindb_driver.Zmix.Bbs.Signature.Base.{base_of}
use smartchaindb_driver.Zmix.Bbs.Signature.Encode.{from_bytes-to_bytes_signature}
use smartchaindb_driver.Zmix.Bbs.Signature.Verify.{IsKeyPair, verify_iff, verify_mismatch}
use smartchaindb_driver.Zmix.Bbs.Signature.Sign.{verify-new, verify-blind, commitment_of}

-- the key of the secret 2
abbrev pub key : PublicKey group3 group3
key = record { h0 = r2; h = r1 ∷ r2 ∷ []; w = r2 }

pub pair : IsKeyPair pairing3 key r2
pair = (refl, λ e. cc)

pub sum_ne : add r2 r2 ≢ r0
sum_ne e = cc

verify-new_example :
    (do sig ← new r2 r1 (r1 ∷ r2 ∷ []) r2 key; verify pairing3 sig (r1 ∷ r2 ∷ []) key) ≡ ok true
unfolding message_count
verify-new_example = verify-new pairing3 r2 r1 r2 (r1 ∷ r2 ∷ []) key pair (omega arith) refl sum_ne

verify-blind_example :
    (do
      sig ←
          new_with_committed_messages r2 r1
            (commitment_of pairing3 key r1 (r2 ∷ []))
            (r1 ∷ [])
            r2
            key
      verify pairing3 (get_unblinded_signature sig r1) (r2 ∷ r1 ∷ []) key)
    ≡ ok true
unfolding message_count
verify-blind_example = verify-blind pairing3 r2 r1 r2 r1 (r2 ∷ []) (r1 ∷ []) key pair refl sum_ne

abbrev pub signature : Signature group3
signature = record { a = r1; e = r2; s = r1 }

verify_iff_example :
    (verify pairing3 signature (r1 ∷ r2 ∷ []) key ≡ ok true)
    ↔ (mul r1 (add r2 r2) ≡ base_of key (r1 ∷ r2 ∷ []) r1 0)
unfolding message_count
verify_iff_example = verify_iff pairing3 signature (r1 ∷ r2 ∷ []) key r2 pair refl

verify_mismatch_example :
    verify pairing3 signature (r1 ∷ []) key ≡ err (signing_error_message_count_mismatch 2 1)
unfolding message_count
verify_mismatch_example = verify_mismatch pairing3 signature (r1 ∷ []) key (omega arith)

from_bytes-to_bytes_signature_example :
    from_bytes group3 codec3 codec3 (to_bytes group3 codec3 codec3 signature) ≡ ok signature
from_bytes-to_bytes_signature_example = from_bytes-to_bytes_signature group3 codec3 codec3 signature
