-- ===== src/Zmix/Bytes.antt =====
-- Byte vectors as the signature types write and read them: slices, big-endian lengths, and the
-- encodings of amcl_wrapper, which are parameters.
use smartchaindb_driver.Prelude.{
  ℕ, suc, zero, ◌+◌, ◌-◌, ◌*◌, ◌/◌, ◌%◌, ◌^◌, ◌≤◌, ◌<◌, ◌≡◌, Option, some, List, [], ◌∷◌, ◌++◌,
  length, length-append, take, drop, take-append, drop-append, leb, le→leb, if◌then◌else◌, Outcome,
  ok, panic, arith, get_elem?,
}

abbrev pub Bytes : Type 0
Bytes = List ℕ

-- `to_bytes` and `from_bytes` of a type whose values all take `size` bytes
pub record Encoding (A : Type 0) : Type 0 where
  pub size : ℕ
  pub to_bytes : A → Bytes
  pub from_bytes : Bytes → Option A
  pub length-to_bytes : (a : A) → length (to_bytes a) ≡ size
  pub from_bytes-to_bytes : (a : A) → from_bytes (to_bytes a) ≡ some a

-- `&data[from..to]`, which panics out of range
unfoldable pub slice {ℓ} : {E : Type ℓ} → Bytes → ℕ → ℕ → Outcome E Bytes
slice bytes from to =
    if leb to (length bytes) then ok (take (to - from) (drop from bytes)) else panic

-- `(n as u32).to_be_bytes()`
unfoldable pub to_be_bytes : ℕ → Bytes
to_be_bytes n = n / 2 ^ 24 % 256 ∷ n / 2 ^ 16 % 256 ∷ n / 2 ^ 8 % 256 ∷ n % 256 ∷ []

-- `u32::from_be_bytes([a, b, c, d])`
unfoldable pub from_be_bytes : ℕ → ℕ → ℕ → ℕ → ℕ
from_be_bytes a b c d = a * 2 ^ 24 + b * 2 ^ 16 + c * 2 ^ 8 + d

pub from_be_bytes-to_be_bytes :
    (n : ℕ)
    → n < 2 ^ 32
    → from_be_bytes (n / 2 ^ 24 % 256) (n / 2 ^ 16 % 256) (n / 2 ^ 8 % 256) (n % 256) ≡ n
unfolding from_be_bytes
from_be_bytes-to_be_bytes n h = omega arith

-- the bytes in the middle
pub slice-append {ℓ} :
    {E : Type ℓ} (xs ys zs : Bytes) (from to : ℕ)
    → from ≡ length xs
    → to ≡ length xs + length ys
    → slice {E = E} (xs ++ (ys ++ zs)) from to ≡ ok ys
unfolding slice
slice-append xs ys zs from to p q =
    rw (p, q, le→leb _ _ enough, drop-append, difference, take-append)
  where
    enough : length xs + length ys ≤ length (xs ++ (ys ++ zs))
    enough = omega (arith, length-append {0} xs (ys ++ zs), length-append {0} ys zs)

    difference : length xs + length ys - length xs ≡ length ys
    difference = omega arith

pub get_elem?-append_right :
    (xs ys : Bytes) (i : ℕ) → get_elem? (xs ++ ys) (length xs + i) ≡ get_elem? ys i
get_elem?-append_right [] ys i = let e : zero + i ≡ i = omega arith in rw e
get_elem?-append_right (x ∷ xs) ys i =
    let e : suc (length xs) + i ≡ suc (length xs + i) = omega arith in
    rw e (get_elem?-append_right xs ys i)
