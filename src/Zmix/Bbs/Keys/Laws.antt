-- ===== src/Zmix/Bbs/Keys/Laws.antt =====
-- The round trip of a public key through its bytes, and what key generation promises.
use smartchaindb_driver.Prelude.{
  ℕ, zero, suc, ◌+◌, ◌^◌, ◌<◌, ◌≡◌, ◌≢◌, ◌↔◌, ◌⊎◌, inl, inr, refl, sym, ap, false, List, [], ◌∷◌,
  ◌++◌, length, length-append, ok, err, get_elem?, arith,
}
use mathlib.Core.List.{append_assoc}
use smartchaindb_driver.Amcl.{Field, Group}
use smartchaindb_driver.Zmix.Bytes.{
  Bytes, Encoding, slice, slice-append, to_be_bytes, from_be_bytes-to_be_bytes,
  get_elem?-append_right,
}
use smartchaindb_driver.Zmix.Bbs.Errors.{key_gen_error}
use smartchaindb_driver.Zmix.Bbs.Keys.{
  PublicKey, SerzDeserzError, decode, points_to_bytes, points_from_bytes, to_bytes, from_bytes,
  validate, any_identity, generate, random_points, message_count,
}

pub decode-to_bytes : {A : Type 0} (enc : Encoding A) (a : A) → decode enc (enc.to_bytes a) ≡ ok a
decode-to_bytes enc a = rw (enc.from_bytes-to_bytes a, decode)

pub points_from_bytes-points_to_bytes :
    {A : Type 0} (enc : Encoding A) (before : Bytes) (ps : List A) (index : ℕ)
    → index ≡ length before
    → points_from_bytes enc (length ps) index (before ++ points_to_bytes enc ps) ≡ ok ps
unfolding points_from_bytes points_to_bytes
points_from_bytes-points_to_bytes enc before [] index e = refl
points_from_bytes-points_to_bytes enc before (p ∷ ps) index e = rw (
  slice-append before (enc.to_bytes p) (points_to_bytes enc ps) index (index + enc.size) e
      (omega (arith, enc.length-to_bytes p)),
  decode-to_bytes enc p,
  ← append_assoc before (enc.to_bytes p) (points_to_bytes enc ps),
  points_from_bytes-points_to_bytes enc (before ++ enc.to_bytes p) ps (index + enc.size)
      (omega (arith, length-append {0} before (enc.to_bytes p), enc.length-to_bytes p)),
)

module _ {K : Field} (G1 G2 : Group K) (enc1 : Encoding G1.G) (enc2 : Encoding G2.G) where
  abbrev key_bytes : PublicKey G1 G2 → Bytes
  key_bytes vk = to_bytes G1 G2 enc1 enc2 vk

  -- where the fields stand in the bytes of a key
  w_slice :
      (vk : PublicKey G1 G2)
      → slice {E = SerzDeserzError} (key_bytes vk) 0 enc2.size ≡ ok (enc2.to_bytes vk.w)
  unfolding to_bytes
  w_slice vk =
      slice-append [] (enc2.to_bytes vk.w) _ 0 enc2.size refl
        (omega (arith, enc2.length-to_bytes vk.w))

  h0_slice :
      (vk : PublicKey G1 G2)
      → slice {E = SerzDeserzError} (key_bytes vk) enc2.size (enc2.size + enc1.size)
        ≡ ok (enc1.to_bytes vk.h0)
  unfolding to_bytes
  h0_slice vk =
      slice-append (enc2.to_bytes vk.w) (enc1.to_bytes vk.h0) _ enc2.size _
        (sym (enc2.length-to_bytes vk.w))
        (omega (arith, enc1.length-to_bytes vk.h0, enc2.length-to_bytes vk.w))

  -- the bytes after the two points
  count_at :
      (vk : PublicKey G1 G2) (i j : ℕ)
      → j ≡ enc2.size + enc1.size + i
      → get_elem? (key_bytes vk) j
        ≡ get_elem? (to_be_bytes (length vk.h) ++ points_to_bytes enc1 vk.h) i
  unfolding to_bytes
  count_at vk i j e =
      rw
        (
          ← append_assoc (enc2.to_bytes vk.w) (enc1.to_bytes vk.h0)
              (to_be_bytes (length vk.h) ++ points_to_bytes enc1 vk.h),
          at,
        )
        (get_elem?-append_right (enc2.to_bytes vk.w ++ enc1.to_bytes vk.h0) _ i)
    where
      at : j ≡ length (enc2.to_bytes vk.w ++ enc1.to_bytes vk.h0) + i
      at = omega (
        arith,
        length-append {0} (enc2.to_bytes vk.w) (enc1.to_bytes vk.h0),
        enc1.length-to_bytes vk.h0,
        enc2.length-to_bytes vk.w,
      )

  points_at :
      (vk : PublicKey G1 G2)
      → points_from_bytes enc1 (length vk.h) (enc2.size + enc1.size + 4) (key_bytes vk) ≡ ok vk.h
  unfolding to_bytes to_be_bytes
  points_at vk = rw (
    ← append_assoc (enc2.to_bytes vk.w) (enc1.to_bytes vk.h0)
        (to_be_bytes (length vk.h) ++ points_to_bytes enc1 vk.h),
    ← append_assoc (enc2.to_bytes vk.w ++ enc1.to_bytes vk.h0) (to_be_bytes (length vk.h))
        (points_to_bytes enc1 vk.h),
    points_from_bytes-points_to_bytes enc1
        ((enc2.to_bytes vk.w ++ enc1.to_bytes vk.h0) ++ to_be_bytes (length vk.h)) vk.h
        (enc2.size + enc1.size + 4)
        (omega (
          arith,
          length-append {0} (enc2.to_bytes vk.w ++ enc1.to_bytes vk.h0) (to_be_bytes (length vk.h)),
          length-append {0} (enc2.to_bytes vk.w) (enc1.to_bytes vk.h0),
          enc1.length-to_bytes vk.h0,
          enc2.length-to_bytes vk.w,
        )),
  )

  -- A public key with fewer than 2^32 generators is read back from the bytes that `to_bytes` writes.
  pub from_bytes-to_bytes_key :
      (vk : PublicKey G1 G2)
      → length vk.h < 2 ^ 32
      → from_bytes G1 G2 enc1 enc2 (to_bytes G1 G2 enc1 enc2 vk) ≡ ok vk
  unfolding from_bytes to_be_bytes
  from_bytes-to_bytes_key vk h = rw (
    w_slice vk,
    decode-to_bytes enc2 vk.w,
    h0_slice vk,
    decode-to_bytes enc1 vk.h0,
    count_at vk 0 (enc2.size + enc1.size) (omega arith),
    count_at vk 1 (enc2.size + enc1.size + 1) refl,
    count_at vk 2 (enc2.size + enc1.size + 2) refl,
    count_at vk 3 (enc2.size + enc1.size + 3) refl,
    from_be_bytes-to_be_bytes (length vk.h) h,
    points_at vk,
  )

module _ {K : Field} (G1 G2 : Group K) where
  -- no generator of the list is the identity
  abbrev pub AllProper : List G1.G → Type 0
  AllProper [] = Unit {0}
  AllProper (p ∷ ps) = (p ≢ G1.identity) × AllProper ps

  any_identity_iff : (ps : List G1.G) → (any_identity G1 ps ≡ false) ↔ AllProper ps
  unfolding any_identity
  any_identity_iff [] = ((λ e. tt), (λ e. refl))
  any_identity_iff (p ∷ ps) = ground (arith, any_identity_iff ps, G1.is_identity_iff p)

  -- `validate` accepts a key exactly where none of its points is the identity.
  pub validate_iff :
      (vk : PublicKey G1 G2)
      → (validate vk ≡ ok tt) ↔ ((vk.h0 ≢ G1.identity) × (vk.w ≢ G2.identity) × AllProper vk.h)
  unfolding validate
  validate_iff vk =
      ground (arith, any_identity_iff vk.h, G1.is_identity_iff vk.h0, G2.is_identity_iff vk.w)

  length-random_points : (n i : ℕ) (random : ℕ → G1.G) → length (random_points n i random) ≡ n
  unfolding random_points
  length-random_points zero i random = refl
  length-random_points (suc n) i random = ap suc (length-random_points n (i + 1) random)

  -- Key generation refuses a count of 0; for any other count it returns a key with that many generators
  -- whose `w` is the generator of the second group times the secret, and that secret.
  pub generate_lem :
      (count : ℕ) (secret : K.F) (random : ℕ → G1.G)
      → (count ≡ 0) × (generate G1 G2 count secret random ≡ err key_gen_error)
        ⊎ (0 < count)
          × (vk : PublicKey G1 G2) × (generate G1 G2 count secret random ≡ ok (vk, secret))
          × (message_count vk ≡ count)
          × (vk.w ≡ G2.◌•◌ G2.generator secret)
  unfolding generate message_count
  generate_lem zero secret random = inl (refl, refl)
  generate_lem (suc n) secret random = inr (
    omega arith,
    record {
      h0 = random (suc n);
      h = random_points (suc n) 0 random;
      w = G2.◌•◌ G2.generator secret;
    },
    ground arith,
    length-random_points (suc n) 0 random,
    refl,
  )
