-- ===== src/Lib.antt =====
-- The anonymous credentials of the ursa repository: the signatures and zero-knowledge proofs of
-- libzmix (ursa_Master/libzmix/src), and the credentials of libursa (ursa_Master/libursa/src) with their
-- revocation, and its BLS signatures.
--
-- Parts and how they interact
--   * The proof of knowledge of committed values (macro impl_PoK_VC, ursa_Master/libzmix/src/commitments/pok_vc.rs) is a Schnorr
--     protocol of three rounds over one group: a committing prover (`commit`, `finish`), a committed
--     prover (`gen_proof`), and a proof (`verify`). It is Zmix/PokVc.
--   * BBS+ (ursa_Master/libzmix/src/signatures/bbs) signs a list of messages in a group with a pairing. Zmix/Bbs/Keys is
--     keys.rs, Zmix/Bbs/Signature is signature.rs, Zmix/Bbs/Errors the errors of errors.rs, and
--     Zmix/Bbs/PokSig is pok_sig.rs, which hides a signature and some of its messages behind two
--     proofs of knowledge.
--   * PS (ursa_Master/libzmix/src/signatures/ps) does the same with a Pointcheval-Sanders signature. Zmix/Ps has the same
--     modules; its proof of knowledge of a signature uses one proof of knowledge over the other group.
--   * Zmix/Selection has the sets of revealed indices and the maps of revealed messages, which the
--     source keeps in a HashSet and a HashMap: here the lists of what their iterators give, so a
--     theorem on any list is one on any order. Zmix/Bytes has byte strings and their slices.
--   * Revocation (ursa_Master/libursa/src/cl/mod.rs, issuer.rs, prover.rs): an issuer keeps an accumulator, the sum
--     of the tails of the valid credentials, and publishes a delta with every change; the calls do
--     not check that the credential they name is valid, or is one of the registry. A holder keeps a
--     witness, updates it by the deltas, and checks with it a credential against the accumulator.
--     Ursa/Revocation has the data, and below it Tails (the tails and their generator), Delta, Witnesses,
--     Issuer and Prover the operations, Registry, Holder and Sound what they give together; Registry follows any
--     calls, Registry/Live those of an issuer that keeps to the credentials of the registry. Sets has the
--     operations of HashSet, and Ursa/Pair what is used of ursa_Master/libursa/src/pair/amcl.rs.
--   * A proof of non-revocation (ursa_Master/libursa/src/cl: lists in mod.rs, values in helpers.rs, steps in prover.rs
--     and verifier.rs) hides such a credential and its witness. It is Ursa/NonRevoc.
--   * A primary credential (ursa_Master/libursa/src/cl/issuer.rs, prover.rs, verifier.rs, helpers.rs) is a
--     signature on attribute values with a root modulo n. Ursa/Primary has the data; Primary/Keys the
--     keys of the issuer with the proof that they are right, Primary/Secrets the blinded secrets of the
--     prover with theirs, Primary/Issue the signature of the issuer with its proof and what the prover makes
--     of it, Primary/Equality the proof of the prover that it has such a credential with the revealed
--     attributes, and its check by the verifier. Each has the maker and the checker beside each other, and
--     child modules with what the one promises the other.
--   * Ursa/BigNumber is what cl uses of ursa_Master/libursa/src/bn/openssl.rs, and get_pedersen_commitment
--     of utils/commitment.rs. Ursa/Names and Ursa/NameSets have the maps and sets by attribute name.
--   * The builders of schemas and of credential values (cl/mod.rs) are Ursa/Builders.
--   * Ursa/Predicates has the predicates of cl/mod.rs (get_delta, get_delta_prime, is_less) over the signed
--     integers of Ursa/Int, and Ursa/FourSquares the search of four_squares in cl/helpers.rs.
--   * BLS signatures (ursa_Master/libursa/src/bls/mod.rs) are Ursa/Bls: keys, proofs of possession,
--     signatures and multi-signatures with their bytes. Ursa/Pair/Points has the bytes and the hash to a point
--     of ursa_Master/libursa/src/pair/amcl.rs.
--
-- How the source is written down
--   * Field elements, groups and the pairing are those of the crate amcl_wrapper, which is not in the
--     repository. Amcl has them as records (Field, Group, Pairing) that the models take as parameters:
--     the laws are those of a prime field, of a group of that order and of a pairing that is not
--     degenerate, and the vector operations fail on lists of different lengths. Amcl/Mod3 shows with
--     the integers modulo 3 that the laws can hold together; the witnesses run there.
--   * The source's `&p * &s` is `p • s`, `+` and `-` of points are ⊕ and ⊖, of field elements ⊞ and ⊟.
--     Where the source writes the groups of PS as Signature and Other group, the records take S and O.
--   * A call of `FieldElement::random()` is an argument: one element, or a function of which `random i`
--     is the i-th draw. Points hashed from a label are arguments too.
--   * A function that returns Result is one into Outcome (Prelude/Results), with a third case `panic` for an
--     index out of range and for `unwrap` of an error. A text of an error is a constructor with the
--     numbers that the text shows.
--   * A method keeps its name, in this language's spelling; a loop is a function of its own, by recursion
--     on the number of rounds left or on the list that it reads.
--   * libursa's points and elements are those of the crate amcl; they take the same records, with a record
--     Curve (Ursa/Pair) for powers and for the target of the pairing. A u32 wraps, as in a release build.
--     A set is the list of its elements; a mutable argument is returned as the function leaves it.
--   * The loop of SimpleTailsAccessor::new runs on fuel; a generator for L credentials gives 2 L + 1 tails, so
--     2 L + 2 rounds are enough. So does the loop of PointG1::from_hash, which counts up to the first number
--     that has a point: more fuel than the distance to that number is enough, and less is a `panic`.
--   * The integers of OpenSSL are a record BigNumbers, and powers modulo n a record Residues: the invertible
--     residues with the laws of a group. Ursa/BigNumber/Mod6 shows with the integers modulo 6 that the
--     laws can hold together.
--   * A HashMap or BTreeMap by name is the association list that its iterator gives, a BTreeSet<String> the
--     sorted list. A name is a number, and the order of names that of the numbers. A number that is drawn at
--     random is an argument. An i32 wraps, as in a release build.
--   * An OpenSSL error for want of memory is left out. The square root of an i32 in f64, rounded down, is
--     the exact root, since every such number has an exact f64.
--
-- Not modelled: the bytes that feed a challenge hash and the hashes, which are third-party code: the
-- challenge is an argument, or a function of the record BigNumbers; the generation of safe primes and of
-- random numbers. In libzmix the Pedersen commitments (the file is in no module of the crate) and verifiable encryption. In
-- libursa/src/cl the proofs of inequality (calc_tne, _init_ne_proof, _finalize_ne_proof,
-- _verify_ne_predicate), the assembly of a whole proof by ProofBuilder and ProofVerifier, and the builder of
-- requests. The foreign and web interfaces (ffi, wasm), the signatures of signatures/ and the encodings only pass
-- values to the library and to third-party code.
pub mod Prelude
pub mod Amcl
pub mod Zmix
pub mod Ursa
