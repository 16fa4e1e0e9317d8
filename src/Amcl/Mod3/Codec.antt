-- ===== src/Amcl/Mod3/Codec.antt =====
-- One byte for an integer modulo 3.
use smartchaindb_driver.Prelude.{
  ◌≡◌, refl, Option, some, none, [], ◌∷◌, length, ◌==◌, if◌then◌else◌,
}
use smartchaindb_driver.Amcl.Mod3.{Residue, r0, r1, r2}
use smartchaindb_driver.Zmix.Bytes.{Bytes, Encoding}

abbrev pub write : Residue → Bytes
write r0 = 0 ∷ []
write r1 = 1 ∷ []
write r2 = 2 ∷ []

abbrev pub read : Bytes → Option Residue
read [] = none
read (b ∷ c ∷ bs) = none
read (b ∷ []) =
    if b == 0 then some r0 else if b == 1 then some r1 else if b == 2 then some r2 else none

pub length-write : (r : Residue) → length (write r) ≡ 1
length-write r0 = refl
length-write r1 = refl
length-write r2 = refl

pub read-write : (r : Residue) → read (write r) ≡ some r
read-write r0 = refl
read-write r1 = refl
read-write r2 = refl

abbrev pub codec3 : Encoding Residue
codec3 = record {
  size = 1;
  to_bytes = write;
  from_bytes = read;
  length-to_bytes = length-write;
  from_bytes-to_bytes = read-write;
}
