-- ===== src/Ursa/Primary/Keys/Accepted.antt =====
-- The proof that an issuer makes for new keys is accepted by the check of the prover.
use smartchaindb_driver.Prelude.{
  ℕ, suc, ◌≡◌, refl, sym, ap, ◌∙◌, true, false, ◌||◌, some, List, [], ◌∷◌, ◌++◌, ◌==◌, ==_refl, ok,
  ◌>>=◌, arith,
}
use smartchaindb_driver.Zmix.Bytes.{Bytes}
use smartchaindb_driver.Ursa.BigNumber.{BigNumbers, Residues, get_pedersen_commitment}
use smartchaindb_driver.Ursa.BigNumber.Laws.{eq_refl, respond, get_pedersen_commitment-eq}
use smartchaindb_driver.Ursa.Names.{
  Name, Map, lookup, contains_key, keys, insert, HasDistinctKeys, HasEntries, HasKeys,
  distinct-HasEntries, entries-HasKeys, contains_key-insert, insert-HasDistinctKeys,
  contains_key-lookup, at_or, lookup-at_or,
}
use smartchaindb_driver.Ursa.Primary.{CredentialPrimaryPublicKey}
use smartchaindb_driver.Ursa.Primary.Keys.{
  draw_all, powers, is_empty, new_credential_primary_keys, bytes_of, bytes_at, caps_at,
  new_credential_key_correctness_proof, check_names, check_caps, recompute,
  check_credential_key_correctness_proof,
}

module _ (B : BigNumbers) where
  open B use {Z, bn_zero, ◌⊞◌, ◌⊠◌, eq, mod_exp, inverse, to_bytes, get_hash_as_int}

  draw_all-HasDistinctKeys :
      (random : ℕ → Z) (i : ℕ) (names : List Name) (xr : Map Z)
      → HasDistinctKeys xr
      → HasDistinctKeys (draw_all B random i names xr)
  draw_all-HasDistinctKeys random i [] xr d = d
  draw_all-HasDistinctKeys random i (name ∷ names) xr d =
      draw_all-HasDistinctKeys random (suc i) names (insert name (random i) xr)
        (insert-HasDistinctKeys name (random i) xr d)

  contains_key-draw_all :
      (random : ℕ → Z) (i : ℕ) (names : List Name) (xr : Map Z) (name : Name)
      → contains_key name xr ≡ true
      → contains_key name (draw_all B random i names xr) ≡ true
  contains_key-draw_all random i [] xr name h = h
  contains_key-draw_all random i (key ∷ names) xr name h =
      contains_key-draw_all random (suc i) names (insert key (random i) xr) name
        (let at = contains_key-insert name key (random i) xr in ground arith)

  draw_all-HasKeys :
      (random : ℕ → Z) (i : ℕ) (names : List Name) (xr : Map Z)
      → HasKeys (draw_all B random i names xr) names
  draw_all-HasKeys random i [] xr = tt
  draw_all-HasKeys random i (name ∷ names) xr = (
    contains_key-draw_all random (suc i) names (insert name (random i) xr) name
        (let at = contains_key-insert name name (random i) xr in ground (arith, ==_refl name)),
    draw_all-HasKeys random (suc i) names (insert name (random i) xr),
  )

  keys-powers : (s n : Z) (xr : Map Z) → keys (powers B s n xr) ≡ keys xr
  keys-powers s n [] = refl
  keys-powers s n ((key, x) ∷ xr) = ap (λ names. key ∷ names) (keys-powers s n xr)

  lookup-powers :
      (s n : Z) (xr : Map Z) (name : Name) (x : Z)
      → lookup name xr ≡ some x
      → lookup name (powers B s n xr) ≡ some (mod_exp s x n)
  lookup-powers s n [] name x h = absurd cc
  lookup-powers s n ((key, y) ∷ xr) name x h =
      let later = lookup-powers s n xr name x in ground arith

  powers-HasKeys :
      (s n : Z) (xr part : Map Z) → HasEntries xr part → HasKeys (powers B s n xr) (keys part)
  powers-HasKeys s n xr [] h = tt
  powers-HasKeys s n xr ((key, x) ∷ part) (h, hs) =
      (contains_key-lookup key _ _ (lookup-powers s n xr key x h), powers-HasKeys s n xr part hs)

  -- the value drawn for a name
  abbrev tilda : Map Z → Name → Z
  tilda xr_tilda name = at_or bn_zero xr_tilda name

  module _ (xr_tilda : Map Z) (c : Z) where
    abbrev answer : Map Z → Map Z
    answer [] = []
    answer ((key, x) ∷ part) = (key, (c ⊠ x) ⊞ tilda xr_tilda key) ∷ answer part

    caps_at-answer :
        (xr part : Map Z)
        → HasEntries xr part
        → HasKeys xr_tilda (keys part)
        → caps_at B c xr xr_tilda (keys part) ≡ ok (answer part)
    caps_at-answer xr [] h k = refl
    caps_at-answer xr ((key, x) ∷ part) (h, hs) (k, ks) =
        rw (lookup-at_or bn_zero key xr_tilda k, h, caps_at-answer xr part hs ks)

    contains_key-answer :
        (name : Name) (part : Map Z) → contains_key name (answer part) ≡ contains_key name part
    contains_key-answer name [] = refl
    contains_key-answer name ((key, x) ∷ part) =
        ap (λ b. (key == name) || b) (contains_key-answer name part)

    check_names-answer :
        (xr : Map Z) (names : List Name)
        → HasKeys xr names
        → check_names B (answer xr) names ≡ ok tt
    check_names-answer xr [] h = refl
    check_names-answer xr (name ∷ names) (h, hs) =
        rw (contains_key-answer name xr, h, check_names-answer xr names hs)

    check_caps-answer :
        (r : Map Z) (part : Map Z) → HasKeys r (keys part) → check_caps B r (answer part) ≡ ok tt
    check_caps-answer r [] h = refl
    check_caps-answer r ((key, x) ∷ part) (h, hs) = rw (h, check_caps-answer r part hs)

module _ {B : BigNumbers} {n : B.Z} (R : Residues B n) where
  open B use {Z, bn_zero, ◌⊞◌, ◌⊠◌, eq, mod_exp, inverse, to_bytes, get_hash_as_int}
  open R use {Q, ◌⊙◌, ◌↑◌, inv, val, mod_exp-eq, inverse-eq}

  -- what the prover recomputes from a response is the commitment to its draw
  response :
      (σ : Q) (c x t : Z)
      → get_pedersen_commitment B (val (inv (σ ↑ x))) c (val σ) ((c ⊠ x) ⊞ t) n
        ≡ mod_exp (val σ) t n
  response σ c x t =
      get_pedersen_commitment-eq R (inv (σ ↑ x)) σ c ((c ⊠ x) ⊞ t)
      ∙ ap val (respond R σ c x t)
      ∙ sym (mod_exp-eq σ t)

  inverse-power : (σ : Q) (x : Z) → inverse (mod_exp (val σ) x n) n ≡ ok (val (inv (σ ↑ x)))
  inverse-power σ x = ap (λ a. inverse a n) (mod_exp-eq σ x) ∙ inverse-eq (σ ↑ x)

  module _ (σ : Q) (xr_tilda : Map Z) where
    abbrev shown : Map Z → Bytes
    shown [] = []
    shown ((key, x) ∷ part) = to_bytes (mod_exp (val σ) (tilda B xr_tilda key) n) ++ shown part

    bytes_at-shown :
        (part : Map Z)
        → HasKeys xr_tilda (keys part)
        → bytes_at B (powers B (val σ) n xr_tilda) (keys part) ≡ ok (shown part)
    bytes_at-shown [] k = refl
    bytes_at-shown ((key, x) ∷ part) (k, ks) = rw (
      lookup-powers B (val σ) n xr_tilda key _ (lookup-at_or bn_zero key xr_tilda k),
      bytes_at-shown part ks,
    )

    recompute-answer :
        (rctxt z c : Z) (xr part : Map Z)
        → HasEntries xr part
        → recompute B
            (record { n = n; s = val σ; r = powers B (val σ) n xr; rctxt = rctxt; z = z })
            c
            (answer B xr_tilda c part)
          ≡ ok (bytes_of B (powers B (val σ) n part), shown part)
    recompute-answer rctxt z c xr [] h = refl
    recompute-answer rctxt z c xr ((key, x) ∷ part) (h, hs) = rw (
      lookup-powers B (val σ) n xr key x h,
      inverse-power σ x,
      response σ c x (tilda B xr_tilda key),
      recompute-answer rctxt z c xr part hs,
    )

  proof_accepted :
      (σ : Q) (xz x_rctxt : Z) (xr : Map Z) (random : ℕ → Z)
      → HasDistinctKeys xr
      → (let pr_pub_key : CredentialPrimaryPublicKey Z = record {
        n = n;
        s = val σ;
        r = powers B (val σ) n xr;
        rctxt = mod_exp (val σ) x_rctxt n;
        z = mod_exp (val σ) xz n;
      } in
          do
            proof ←
                new_credential_key_correctness_proof B random pr_pub_key
                  (record { xz = xz; xr = xr })
            check_credential_key_correctness_proof B pr_pub_key proof)
        ≡ ok tt
  unfolding new_credential_key_correctness_proof check_credential_key_correctness_proof
  proof_accepted σ xz x_rctxt xr random d = rw (
    keys-powers B (val σ) n xr,
    bytes_at-shown σ xr_tilda xr drawn,
    caps_at-answer B xr_tilda _ xr xr whole drawn,
    check_names-answer B xr_tilda _ xr (keys xr) (entries-HasKeys xr xr whole),
    check_caps-answer B xr_tilda _ (powers B (val σ) n xr) xr
        (powers-HasKeys B (val σ) n xr xr whole),
    inverse-power σ xz,
    recompute-answer σ xr_tilda (mod_exp (val σ) x_rctxt n) (mod_exp (val σ) xz n) _ xr xr whole,
    response σ _ xz (random 0),
    eq_refl B,
  )
    where
      xr_tilda : Map Z
      xr_tilda = draw_all B random 1 (keys xr) []

      whole : HasEntries xr xr
      whole = distinct-HasEntries xr d

      drawn : HasKeys xr_tilda (keys xr)
      drawn = draw_all-HasKeys B random 1 (keys xr) []

-- For every choice of the primes, of a generator s of the residues modulo their product and of the draws, and for
-- every schema with an attribute: the proof made for the new keys passes the check of the prover.
pub check_credential_key_correctness_proof-new :
    (B : BigNumbers) (p_safe q_safe : B.Z) (R : Residues B (B.◌⊠◌ p_safe q_safe)) (σ : R.Q)
    (x_rctxt : B.Z) (random random_tilda : ℕ → B.Z) (schema_attrs non_schema_attrs : List Name)
    → is_empty B schema_attrs ≡ false
    → (do
      made ←
          new_credential_primary_keys B p_safe q_safe
            (R.val σ)
            x_rctxt
            random
            schema_attrs
            non_schema_attrs
      proof ← new_credential_key_correctness_proof B random_tilda made.0 made.2
      check_credential_key_correctness_proof B made.0 proof)
      ≡ ok tt
unfolding new_credential_primary_keys
check_credential_key_correctness_proof-new B p_safe q_safe R σ x_rctxt random random_tilda
      schema_attrs non_schema_attrs h =
    rw h (
      proof_accepted R σ (random 0) x_rctxt
        (draw_all B random 1 (non_schema_attrs ++ schema_attrs) []) random_tilda
        (draw_all-HasDistinctKeys B random 1 (non_schema_attrs ++ schema_attrs) [] tt))
