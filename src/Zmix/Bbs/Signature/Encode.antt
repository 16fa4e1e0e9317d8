-- ===== src/Zmix/Bbs/Signature/Encode.antt =====
-- The round trip of a signature through its bytes.
use smartchaindb_driver.Prelude.{
  ◌+◌, ◌*◌, ◌≡◌, ◌≢◌, refl, sym, ap, ◌∙◌, [], ◌++◌, length, length-append, ok, err, arith, ==_refl,
}
use mathlib.Core.List.{append_assoc, append-nil}
use smartchaindb_driver.Amcl.{Field, Group}
use smartchaindb_driver.Zmix.Bytes.{Bytes, Encoding, slice, slice-append}
use smartchaindb_driver.Zmix.Bbs.Errors.{BbsErrorKind, signature_incorrect_size}
use smartchaindb_driver.Zmix.Bbs.Signature.{Signature, to_bytes, from_bytes, decode}

decode-to_bytes : {A : Type 0} (enc : Encoding A) (a : A) → decode enc (enc.to_bytes a) ≡ ok a
decode-to_bytes enc a = rw (enc.from_bytes-to_bytes a, decode)

module _ {K : Field} (G1 : Group K) (point : Encoding G1.G) (scalar : Encoding K.F) where
  abbrev bytes_of : Signature G1 → Bytes
  bytes_of sig = to_bytes G1 point scalar sig

  length-to_bytes : (sig : Signature G1) → length (bytes_of sig) ≡ point.size + scalar.size * 2
  unfolding to_bytes
  length-to_bytes sig = omega (
    arith,
    length-append {0} (point.to_bytes sig.a) (scalar.to_bytes sig.e ++ scalar.to_bytes sig.s),
    length-append {0} (scalar.to_bytes sig.e) (scalar.to_bytes sig.s),
    point.length-to_bytes sig.a,
    scalar.length-to_bytes sig.e,
    scalar.length-to_bytes sig.s,
  )

  a_slice :
      (sig : Signature G1)
      → slice {E = BbsErrorKind} (bytes_of sig) 0 point.size ≡ ok (point.to_bytes sig.a)
  unfolding to_bytes
  a_slice sig =
      slice-append [] (point.to_bytes sig.a) _ 0 point.size refl
        (omega (arith, point.length-to_bytes sig.a))

  e_slice :
      (sig : Signature G1)
      → slice {E = BbsErrorKind} (bytes_of sig) point.size (point.size + scalar.size)
        ≡ ok (scalar.to_bytes sig.e)
  unfolding to_bytes
  e_slice sig =
      slice-append (point.to_bytes sig.a) (scalar.to_bytes sig.e) _ point.size
        (point.size + scalar.size) (sym (point.length-to_bytes sig.a))
        (omega (arith, point.length-to_bytes sig.a, scalar.length-to_bytes sig.e))

  s_slice :
      (sig : Signature G1)
      → slice {E = BbsErrorKind}
          (bytes_of sig)
          (point.size + scalar.size)
          (point.size + scalar.size + scalar.size)
        ≡ ok (scalar.to_bytes sig.s)
  unfolding to_bytes
  s_slice sig =
      ap (λ b. slice b (point.size + scalar.size) (point.size + scalar.size + scalar.size))
        (sym (append_assoc (point.to_bytes sig.a) (scalar.to_bytes sig.e) (scalar.to_bytes sig.s))
          ∙ ap (λ r. (point.to_bytes sig.a ++ scalar.to_bytes sig.e) ++ r)
              (sym (append-nil (scalar.to_bytes sig.s))))
      ∙ slice-append (point.to_bytes sig.a ++ scalar.to_bytes sig.e) (scalar.to_bytes sig.s) []
          (point.size + scalar.size) (point.size + scalar.size + scalar.size) (sym (both sig))
          (omega (arith, both sig, scalar.length-to_bytes sig.s))
    where
      both :
          (sig : Signature G1)
          → length (point.to_bytes sig.a ++ scalar.to_bytes sig.e) ≡ point.size + scalar.size
      both sig = omega (
        arith,
        length-append {0} (point.to_bytes sig.a) (scalar.to_bytes sig.e),
        point.length-to_bytes sig.a,
        scalar.length-to_bytes sig.e,
      )

  -- A signature is read back from the bytes that `to_bytes` writes.
  pub from_bytes-to_bytes_signature :
      (sig : Signature G1) → from_bytes G1 point scalar (to_bytes G1 point scalar sig) ≡ ok sig
  unfolding from_bytes
  from_bytes-to_bytes_signature sig = rw (
    a_slice sig,
    decode-to_bytes point sig.a,
    e_slice sig,
    decode-to_bytes scalar sig.e,
    s_slice sig,
    decode-to_bytes scalar sig.s,
    length-to_bytes sig,
    ==_refl (point.size + scalar.size * 2),
  )

  -- Bytes of any length but that of a point and two scalars are refused, with their length.
  pub from_bytes_size :
      (bytes : Bytes)
      → length bytes ≢ point.size + scalar.size * 2
      → from_bytes G1 point scalar bytes ≡ err (signature_incorrect_size (length bytes))
  unfolding from_bytes
  from_bytes_size bytes n = ground arith
