-- ===== src/Ursa/Pair/Points.antt =====
-- ursa_Master/libursa/src/pair/amcl.rs: the points from bytes and from a hash, and the random values.
use smartchaindb_driver.Prelude.{
  ℕ, zero, suc, ◌≤◌, ◌≡◌, replicate, Option, none, some, length, not, ◌==◌, if◌then◌else◌, Outcome,
  ok, err, panic, ◌>>=◌,
}
use smartchaindb_driver.Amcl.{Field, Group, Pairing}
use smartchaindb_driver.Zmix.Bytes.{Bytes}
use smartchaindb_driver.Ursa.Errors.{
  UrsaCryptoError, invalid_g1_len, invalid_g2_len, invalid_seed_len,
}
use smartchaindb_driver.Ursa.Pair.{Curve, number_from, element_from_bytes}

-- What amcl gives for the bytes of points and of elements: a `tobytes` is what the call leaves in the
-- vector that it is given, and never changes its length.
pub record PointBytes {K : Field} {M N : Group K} {P : Pairing M N} (C : Curve P) : Type 0 where
  pub ecp_tobytes : M.G → Bytes → Bytes
  pub ecp_frombytes : Bytes → M.G
  pub ecp2_tobytes : N.G → Bytes → Bytes
  pub ecp2_frombytes : Bytes → N.G
  pub big_tobytes : K.F → Bytes → Bytes
  -- `ECP::new_big`: the point with this x, or infinity where the curve has none
  pub point_at : ℕ → M.G
  -- `BIG::randomnum` modulo the order, from a generator seeded with the bytes
  pub random_from : Bytes → K.F
  pub length-ecp_tobytes : (p : M.G) (vec : Bytes) → length (ecp_tobytes p vec) ≡ length vec
  pub ecp_frombytes-ecp_tobytes :
      (p : M.G) (vec : Bytes) → 128 ≤ length vec → ecp_frombytes (ecp_tobytes p vec) ≡ p
  pub length-ecp2_tobytes : (p : N.G) (vec : Bytes) → length (ecp2_tobytes p vec) ≡ length vec
  pub ecp2_frombytes-ecp2_tobytes :
      (p : N.G) (vec : Bytes) → 128 ≤ length vec → ecp2_frombytes (ecp2_tobytes p vec) ≡ p
  pub length-big_tobytes : (a : K.F) (vec : Bytes) → length (big_tobytes a vec) ≡ length vec
  pub element-big_tobytes :
      (a : K.F) (vec : Bytes) → length vec ≡ 32 → C.element (number_from 0 (big_tobytes a vec)) ≡ a

module _ {K : Field} {M N : Group K} {P : Pairing M N} {C : Curve P} (B : PointBytes C) where
  -- `PointG1::to_bytes`
  unfoldable pub g1_to_bytes : M.G → Bytes
  g1_to_bytes p = B.ecp_tobytes p (replicate 128 0)

  -- `PointG2::to_bytes`
  unfoldable pub g2_to_bytes : N.G → Bytes
  g2_to_bytes p = B.ecp2_tobytes p (replicate 128 0)

  -- `GroupOrderElement::to_bytes`
  unfoldable pub element_to_bytes : K.F → Bytes
  element_to_bytes a = B.big_tobytes a (replicate 32 0)

  -- `PointG1::from_bytes`
  unfoldable pub g1_from_bytes : Bytes → Outcome UrsaCryptoError M.G
  g1_from_bytes b = if not (length b == 128) then err invalid_g1_len else ok (B.ecp_frombytes b)

  -- `PointG2::from_bytes`
  unfoldable pub g2_from_bytes : Bytes → Outcome UrsaCryptoError N.G
  g2_from_bytes b = if not (length b == 128) then err invalid_g2_len else ok (B.ecp2_frombytes b)

  -- `GroupOrderElement::new_from_seed`
  unfoldable pub new_from_seed : Bytes → Outcome UrsaCryptoError K.F
  new_from_seed seed =
      if not (length seed == 32) then err invalid_seed_len else ok (B.random_from seed)

  -- the loop of `PointG1::from_hash`; the fuel bounds its rounds, and `none` says that they did not do
  unfoldable pub next_point : ℕ → ℕ → Option M.G
  next_point zero el = none
  next_point (suc fuel) el =
      let rest = next_point fuel (suc el) in
      if M.is_identity (B.point_at el) then rest else some (B.point_at el)

  -- a search that the fuel does not allow to end
  abbrev pub found : Option M.G → Outcome UrsaCryptoError M.G
  found (some point) = ok point
  found none = panic

  -- `PointG1::from_hash`
  unfoldable pub from_hash : ℕ → Bytes → Outcome UrsaCryptoError M.G
  from_hash fuel hash = do el ← element_from_bytes hash; found (next_point fuel el)
