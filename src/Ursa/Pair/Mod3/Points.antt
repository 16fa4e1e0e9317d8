-- ===== src/Ursa/Pair/Mod3/Points.antt =====
-- The assumptions of Ursa/Pair/Points on the crate amcl can be met: over the integers modulo 3.
use smartchaindb_driver.Prelude.{ℕ, suc, ◌≤◌, ◌≡◌, refl, ap, arith, [], ◌∷◌, length}
use smartchaindb_driver.Amcl.Mod3.{Residue, r0, r1, r2}
use smartchaindb_driver.Zmix.Bytes.{Bytes}
use smartchaindb_driver.Ursa.Pair.{number_from}
use smartchaindb_driver.Ursa.Pair.Mod3.{curve3, residue_of}
use smartchaindb_driver.Ursa.Pair.Points.{PointBytes}

abbrev pub digit_of : Residue → ℕ
digit_of r0 = 0
digit_of r1 = 1
digit_of r2 = 2

-- a point is its digit in the first byte
abbrev pub write_first : Residue → Bytes → Bytes
write_first r [] = []
write_first r (byte ∷ vec) = digit_of r ∷ vec

abbrev pub read_first : Bytes → Residue
read_first [] = r0
read_first (byte ∷ vec) = residue_of byte

-- an element is its digit in the last byte, after bytes of 0
abbrev pub write_last : Residue → Bytes → Bytes
write_last r [] = []
write_last r (byte ∷ []) = digit_of r ∷ []
write_last r (byte ∷ next ∷ vec) = 0 ∷ write_last r (next ∷ vec)

abbrev pub read_back : Bytes → Residue
read_back bytes = residue_of (number_from 0 bytes)

residue_of-digit : (r : Residue) → residue_of (digit_of r) ≡ r
residue_of-digit r0 = refl
residue_of-digit r1 = refl
residue_of-digit r2 = refl

pub length-write_first : (r : Residue) (vec : Bytes) → length (write_first r vec) ≡ length vec
length-write_first r [] = refl
length-write_first r (byte ∷ vec) = refl

pub read_first-write_first :
    (r : Residue) (vec : Bytes) → 128 ≤ length vec → read_first (write_first r vec) ≡ r
read_first-write_first r [] h = absurd (omega arith)
read_first-write_first r (byte ∷ vec) h = residue_of-digit r

pub length-write_last : (r : Residue) (vec : Bytes) → length (write_last r vec) ≡ length vec
length-write_last r [] = refl
length-write_last r (byte ∷ []) = refl
length-write_last r (byte ∷ next ∷ vec) = ap suc (length-write_last r (next ∷ vec))

read_back-some : (r : Residue) (byte : ℕ) (vec : Bytes) → read_back (write_last r (byte ∷ vec)) ≡ r
read_back-some r0 byte [] = refl
read_back-some r1 byte [] = refl
read_back-some r2 byte [] = refl
read_back-some r byte (next ∷ vec) = read_back-some r next vec

pub read_back-write_last :
    (r : Residue) (vec : Bytes) → length vec ≡ 32 → read_back (write_last r vec) ≡ r
read_back-write_last r [] h = absurd (omega arith)
read_back-write_last r (byte ∷ vec) h = read_back-some r byte vec

abbrev pub bytes3 : PointBytes curve3
bytes3 = record {
  ecp_tobytes = write_first;
  ecp_frombytes = read_first;
  ecp2_tobytes = write_first;
  ecp2_frombytes = read_first;
  big_tobytes = write_last;
  point_at = residue_of;
  random_from = read_back;
  length-ecp_tobytes = length-write_first;
  ecp_frombytes-ecp_tobytes = read_first-write_first;
  length-ecp2_tobytes = length-write_first;
  ecp2_frombytes-ecp2_tobytes = read_first-write_first;
  length-big_tobytes = length-write_last;
  element-big_tobytes = read_back-write_last;
}
