-- ===== src/Zmix/Ps/PokSig/Beyond.antt =====
-- What `verify` does with a revealed message whose index is not one of the key: no check refuses it.
use smartchaindb_driver.Prelude.{
  ◌+◌, ltb, ℕ, ◌≤◌, ◌≡◌, sym, ap, ◌∙◌, true, false, ◌||◌, none, some, List, [], ◌∷◌, length,
  get_elem?, get_elem?-beyond, ◌==◌, ==_iff, ok, panic, Bool-cases, Option-cases, inl, inr,
}
use smartchaindb_driver.Amcl.{Field, Group, Pairing}
use smartchaindb_driver.Zmix.PokVc
use smartchaindb_driver.Zmix.Selection.{get}
use smartchaindb_driver.Zmix.Ps.Keys.{Verkey, validate}
use smartchaindb_driver.Zmix.Ps.PokSig.{
  PoKOfSignatureProof, reserve, hidden_bases, revealed_bases, add_revealed, verify,
}

revealed_bases_beyond :
    {P F : Type 0} (ps : List P) (entries : List (ℕ × F)) (j : ℕ) (m : F)
    → length ps ≤ j
    → get entries j ≡ some m
    → revealed_bases ps entries ≡ panic
unfolding revealed_bases
revealed_bases_beyond ps [] j m h e = cc
revealed_bases_beyond ps ((i, a) ∷ entries) j m h e = elim (Bool-cases (j == i)) [
  | inl t ↦
      let same : i ≡ j = sym ((==_iff j i).0 t) in
      let missing : get_elem? ps i ≡ none = ap (get_elem? ps) same ∙ get_elem?-beyond ps j h in
      rw missing
  | inr f ↦
      let rest = revealed_bases_beyond ps entries j m h (rw f at e) in
      elim (Option-cases (get_elem? ps i)) [ inl n ↦ rw n | inr (p, s) ↦ rw (s, rest) ]
]

add_revealed_beyond :
    {K : Field} {S O : Group K} (P : Pairing S O) (vk : Verkey S O) (sum : O.G)
    (entries : List (ℕ × K.F)) (j : ℕ) (m : K.F)
    → length vk.y_tilde ≤ j
    → get entries j ≡ some m
    → add_revealed P vk sum entries ≡ panic
unfolding add_revealed
add_revealed_beyond P vk sum [] j m h e = cc
add_revealed_beyond P vk sum ((i, a) ∷ entries) j m h e =
    rw (revealed_bases_beyond vk.y_tilde ((i, a) ∷ entries) j m h e)

-- A revealed message at an index from the number of generators on makes `verify` panic, whenever the key is valid, no
-- point of the signature is the identity and the proof of the committed values is accepted for the hidden generators.
pub verify_beyond :
    {K : Field} {S O : Group K} (P : Pairing S O) (proof : PoKOfSignatureProof S O)
    (vk : Verkey S O) (entries : List (ℕ × K.F)) (challenge m : K.F) (j : ℕ) (hidden : List O.G)
    → validate vk ≡ ok tt
    → (S.is_identity proof.sig.sigma_1 || S.is_identity proof.sig.sigma_2) ≡ false
    → hidden_bases (length vk.y_tilde) 0 vk.y_tilde entries ≡ ok hidden
    → PokVc.verify proof.proof_vc (vk.g_tilde ∷ hidden) proof.j challenge ≡ ok true
    → length vk.y_tilde ≤ j
    → get entries j ≡ some m
    → verify P proof vk entries challenge ≡ panic
unfolding verify reserve
verify_beyond P proof vk entries challenge m j hidden valid proper found accepted h e =
    elim (Bool-cases (ltb (length vk.y_tilde + 1) (length entries))) [
      | inl t ↦ rw (valid, proper, t)
      | inr f ↦
          rw (valid, proper, f, found, accepted, add_revealed_beyond P vk proof.j entries j m h e)
    ]
