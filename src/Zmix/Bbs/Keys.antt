-- ===== src/Zmix/Bbs/Keys.antt =====
-- ursa_Master/libzmix/src/signatures/bbs/keys.rs
pub mod Laws
mod Tests
use smartchaindb_driver.Prelude.{
  ℕ, zero, suc, ◌+◌, Bool, true, false, ◌||◌, Option, none, some, List, [], ◌∷◌, ◌++◌, length,
  get_elem?, ◌==◌, if◌then◌else◌, Outcome, ok, err, panic, ◌>>=◌, ◌>>◌, fail_if, unwrap,
}
use smartchaindb_driver.Amcl.{Field, Group}
use smartchaindb_driver.Zmix.Bytes.{Bytes, Encoding, slice, to_be_bytes, from_be_bytes}
use smartchaindb_driver.Zmix.Bbs.Errors.{BbsErrorKind, key_gen_error, malformed_public_key}

pub record PublicKey {K : Field} (G1 G2 : Group K) : Type 0 where
  pub h0 : G1.G
  pub h : List G1.G
  pub w : G2.G

-- the error of amcl_wrapper's `from_bytes`, without its details
pub data SerzDeserzError : Type 0 where
  serz_deserz_error : SerzDeserzError

-- `from_bytes(..)?`
abbrev pub decode : {A : Type 0} → Encoding A → Bytes → Outcome SerzDeserzError A
decode enc bytes = elim (enc.from_bytes bytes) [ none ↦ err serz_deserz_error | some a ↦ ok a ]

-- `self.h.iter().any(|v| v.is_identity())`
unfoldable pub any_identity : {K : Field} (M : Group K) → List M.G → Bool
any_identity M [] = false
any_identity M (p ∷ ps) = M.is_identity p || any_identity M ps

-- `n` draws of a random point, of which `random i` is the i-th
unfoldable pub random_points : {A : Type 0} → ℕ → ℕ → (ℕ → A) → List A
random_points zero i random = []
random_points (suc n) i random = random i ∷ random_points n (i + 1) random

unfoldable pub points_to_bytes : {A : Type 0} → Encoding A → List A → Bytes
points_to_bytes enc [] = []
points_to_bytes enc (p ∷ ps) = enc.to_bytes p ++ points_to_bytes enc ps

-- the loop over `0..h_size`
unfoldable pub points_from_bytes :
    {A : Type 0} → Encoding A → ℕ → ℕ → Bytes → Outcome SerzDeserzError (List A)
points_from_bytes enc zero index bytes = ok []
points_from_bytes enc (suc n) index bytes = do
  part ← slice bytes index (index + enc.size)
  p ← decode enc part
  rest ← points_from_bytes enc n (index + enc.size) bytes
  ok (p ∷ rest)

module _ {K : Field} {G1 G2 : Group K} where
  unfoldable pub message_count : PublicKey G1 G2 → ℕ
  message_count self = length self.h

  unfoldable pub validate : PublicKey G1 G2 → Outcome BbsErrorKind (Unit {0})
  unfolding any_identity
  validate self =
      if G1.is_identity self.h0 || (G2.is_identity self.w || any_identity G1 self.h)
      then err malformed_public_key
      else ok tt

-- The draws are `secret`, the generators in their order, and last the base of the blinding.
unfoldable pub generate :
    {K : Field} (G1 G2 : Group K)
    → ℕ
    → K.F
    → (ℕ → G1.G)
    → Outcome BbsErrorKind (PublicKey G1 G2 × K.F)
unfolding random_points
generate G1 G2 count secret random = do
  fail_if (count == 0) key_gen_error
  let w = G2.◌•◌ G2.generator secret
  let h = random_points count 0 random
  ok (record { h0 = random count; h = h; w = w }, secret)

module _ {K : Field} (G1 G2 : Group K) (enc1 : Encoding G1.G) (enc2 : Encoding G2.G) where
  unfoldable pub to_bytes : PublicKey G1 G2 → Bytes
  unfolding points_to_bytes to_be_bytes
  to_bytes self =
      enc2.to_bytes self.w
      ++ (enc1.to_bytes self.h0 ++ (to_be_bytes (length self.h) ++ points_to_bytes enc1 self.h))

  unfoldable pub from_bytes : Bytes → Outcome SerzDeserzError (PublicKey G1 G2)
  unfolding slice points_from_bytes from_be_bytes
  from_bytes bytes = do
    w_bytes ← slice bytes 0 enc2.size
    w ← decode enc2 w_bytes
    let index = enc2.size
    h0_bytes ← slice bytes index (index + enc1.size)
    h0 ← decode enc1 h0_bytes
    let index' = index + enc1.size
    b0 ← unwrap (get_elem? bytes index')
    b1 ← unwrap (get_elem? bytes (index' + 1))
    b2 ← unwrap (get_elem? bytes (index' + 2))
    b3 ← unwrap (get_elem? bytes (index' + 3))
    let h_size = from_be_bytes b0 b1 b2 b3
    h ← points_from_bytes enc1 h_size (index' + 4) bytes
    ok (record { h0 = h0; h = h; w = w })
