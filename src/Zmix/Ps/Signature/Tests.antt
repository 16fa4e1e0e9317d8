-- ===== src/Zmix/Ps/Signature/Tests.antt =====
-- Signatures over the integers modulo 3, and the theorems at concrete inputs.
use smartchaindb_driver.Prelude.{◌≡◌, ◌≢◌, ◌↔◌, refl, true, false, [], ◌∷◌, ok, ◌>>=◌, arith}
use smartchaindb_driver.Amcl.Mod3.{r0, r1, r2, mul, group3, pairing3}
use smartchaindb_driver.Zmix.Ps.Keys.{Sigkey, Verkey}
use smartchaindb_driver.Zmix.Ps.Keys.Laws.{IsKeyPair}
use smartchaindb_driver.Zmix.Ps.Signature.{
  Signature, new, new_with_committed_messages, verify, get_unblinded_signature,
}
use smartchaindb_driver.Zmix.Ps.Signature.Verify.{verify_exactly, verify_identity}
use smartchaindb_driver.Zmix.Ps.Signature.Sign.{verify-new_ps, verify-blind_ps, commitment_of}

-- the key of the secrets 1 and 1, 2
abbrev pub key : Verkey group3 group3
key = record { g = r1; g_tilde = r1; x_tilde = r1; y = r1 ∷ r2 ∷ []; y_tilde = r1 ∷ r2 ∷ [] }

abbrev pub sigkey : Sigkey group3
sigkey = record { x = r1 }

pub pair : IsKeyPair key sigkey r1 (r1 ∷ r2 ∷ [])
pair = record { signing = refl; verifying = refl; signing_y = refl; verifying_y = refl }

pub r1-ne-r0 : r1 ≢ r0
r1-ne-r0 e = cc

pub r2-ne-r0 : r2 ≢ r0
r2-ne-r0 e = cc

verify-new_ps_example :
    (do sig ← new key sigkey (r1 ∷ r1 ∷ []) r2; verify pairing3 sig (r1 ∷ r1 ∷ []) key) ≡ ok true
verify-new_ps_example =
    verify-new_ps pairing3 key sigkey r1 r2 (r1 ∷ r2 ∷ []) (r1 ∷ r1 ∷ []) pair r1-ne-r0 r1-ne-r0
      refl r2-ne-r0 r1-ne-r0

verify-blind_ps_example :
    (do
      sig ←
          new_with_committed_messages key sigkey
            (commitment_of pairing3 key r2 (r1 ∷ []))
            (r1 ∷ [])
            r2
      verify pairing3 (get_unblinded_signature sig r2) (r1 ∷ r1 ∷ []) key)
    ≡ ok true
verify-blind_ps_example =
    verify-blind_ps pairing3 key sigkey r1 r2 r2 (r1 ∷ r2 ∷ []) (r1 ∷ []) (r1 ∷ []) pair r1-ne-r0
      r1-ne-r0 refl (omega arith) r2-ne-r0 r1-ne-r0

abbrev pub signature : Signature group3
signature = record { sigma_1 = r2; sigma_2 = r2 }

verify_exactly_example :
    (verify pairing3 signature (r1 ∷ r1 ∷ []) key ≡ ok true)
    ↔ ((r2 ≢ r0) × (r2 ≢ r0) × (mul r2 r1 ≡ r2))
verify_exactly_example =
    verify_exactly pairing3 signature (r1 ∷ r1 ∷ []) key sigkey r1 (r1 ∷ r2 ∷ []) pair r1-ne-r0 refl

verify_identity_example :
    verify pairing3 (record { sigma_1 = r0; sigma_2 = r1 }) (r1 ∷ r1 ∷ []) key ≡ ok false
verify_identity_example =
    verify_identity pairing3 (record { sigma_1 = r0; sigma_2 = r1 }) (r1 ∷ r1 ∷ []) key refl
