-- ===== src/Zmix/Ps/Keys/Tests.antt =====
-- A key pair over the integers modulo 3.
use smartchaindb_driver.Prelude.{◌≡◌, [], ◌∷◌, ok}
use smartchaindb_driver.Amcl.Mod3.{r1, r2, group3}
use smartchaindb_driver.Zmix.Ps.Keys.{keygen, validate}
use smartchaindb_driver.Zmix.Ps.Keys.Laws.{IsKeyPair, keygen-IsKeyPair}

keygen-IsKeyPair_example :
    let (vk, sk) = keygen group3 group3 2 r1 r2 (λ i. r2) in
    IsKeyPair vk sk r2 (r2 ∷ r2 ∷ []) × (vk.g ≡ r1) × (vk.g_tilde ≡ r2) × (validate vk ≡ ok tt)
keygen-IsKeyPair_example = keygen-IsKeyPair 2 r1 r2 (λ i. r2)
