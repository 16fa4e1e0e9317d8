-- ===== src/Zmix/Ps/PokSig/Loops.antt =====
-- The loops of `init` and `verify` select the hidden places, and commit to them.
use mathlib.Core.List.{append-nil}
use smartchaindb_driver.Prelude.{
  ℕ, zero, suc, ◌≡◌, refl, ap, ◌∙◌, Option, none, some, List, [], ◌∷◌, length, map, drop, drop_head,
  lt→leb, ok, arith, Bool-cases, inl, inr, ==_refl, replicate, length-replicate, length-map,
}
use smartchaindb_driver.Amcl.{Field, Group}
use smartchaindb_driver.Zmix.PokVc.{ProverCommitting, commit}
use smartchaindb_driver.Zmix.PokVc.Commit.{resolve, with_hidden, with_hidden-commit}
use smartchaindb_driver.Zmix.Selection.{contains, get, pick, hides, IsIndexSet, Reveals}
use smartchaindb_driver.Zmix.Ps.PokSig.{
  check_indices, blinding_list, hidden_places, hidden_bases, commit_all,
}

pub check_indices-ok : (js : List ℕ) (n : ℕ) → IsIndexSet js n → check_indices js n ≡ ok tt
unfolding check_indices
check_indices-ok [] n h = refl
check_indices-ok (j ∷ js) n h = rw (lt→leb n j h.1) (check_indices-ok js n h.2)

pub blinding_list-eq :
    {F : Type 0} (blindings : Option (List F)) (hidden : ℕ)
    → ((b : List F) → blindings ≡ some b → length b ≡ hidden)
    → (bs : List (Option F)) × (blinding_list blindings hidden ≡ ok bs) × (length bs ≡ hidden)
unfolding blinding_list
blinding_list-eq none hidden h = (replicate hidden none, refl, length-replicate hidden none)
blinding_list-eq (some b) hidden h =
    (map some b, rw (h b refl, ==_refl), length-map b some ∙ h b refl)

-- The loop of `init` takes the hidden generators and messages, in order.
pub hidden_places-eq :
    {P F : Type 0} (todo i : ℕ) (revealed : List ℕ) (h hs : List P) (messages ms : List F)
    → drop i h ≡ hs
    → drop i messages ≡ ms
    → length hs ≡ todo
    → length ms ≡ todo
    → hidden_places todo i revealed h messages
      ≡ ok (pick (hides revealed) i hs, pick (hides revealed) i ms)
unfolding hidden_places
hidden_places-eq zero i revealed h [] messages [] p q k l = refl
hidden_places-eq zero i revealed h [] messages (s ∷ ms) p q k l = absurd (omega arith)
hidden_places-eq zero i revealed h (g ∷ hs) messages ms p q k l = absurd (omega arith)
hidden_places-eq (suc todo) i revealed h [] messages ms p q k l = absurd (omega arith)
hidden_places-eq (suc todo) i revealed h (g ∷ hs) messages [] p q k l = absurd (omega arith)
hidden_places-eq (suc todo) i revealed h (g ∷ hs) messages (s ∷ ms) p q k l =
    let rest =
      hidden_places-eq todo (suc i) revealed h hs messages ms (drop_head h i g hs p).1
        (drop_head messages i s ms q).1 (omega arith) (omega arith) in
    elim (Bool-cases (contains revealed i)) [
      | inl t ↦ rw (rest, t)
      | inr f ↦ rw (rest, f, (drop_head h i g hs p).0, (drop_head messages i s ms q).0)
    ]

-- The loop of `verify` takes the hidden generators, in order.
pub hidden_bases-eq :
    {P F : Type 0} (todo i : ℕ) (entries : List (ℕ × F)) (revealed : List ℕ) (h hs : List P)
    (messages ms : List F)
    → Reveals entries revealed messages
    → drop i h ≡ hs
    → drop i messages ≡ ms
    → length hs ≡ todo
    → length ms ≡ todo
    → hidden_bases todo i h entries ≡ ok (pick (hides revealed) i hs)
unfolding hidden_bases
hidden_bases-eq zero i entries revealed h [] messages [] r p q k l = refl
hidden_bases-eq zero i entries revealed h [] messages (s ∷ ms) r p q k l = absurd (omega arith)
hidden_bases-eq zero i entries revealed h (g ∷ hs) messages ms r p q k l = absurd (omega arith)
hidden_bases-eq (suc todo) i entries revealed h [] messages ms r p q k l = absurd (omega arith)
hidden_bases-eq (suc todo) i entries revealed h (g ∷ hs) messages [] r p q k l =
    absurd (omega arith)
hidden_bases-eq (suc todo) i entries revealed h (g ∷ hs) messages (s ∷ ms) r p q k l =
    let rest =
      hidden_bases-eq todo (suc i) entries revealed h hs messages ms r (drop_head h i g hs p).1
        (drop_head messages i s ms q).1 (omega arith) (omega arith) in
    elim (Bool-cases (contains revealed i)) [
      | inl t ↦
          let found : get entries i ≡ some s =
            rw (r.agrees i, t, (drop_head messages i s ms q).0) in
          rw (rest, found, t)
      | inr f ↦
          let missing : get entries i ≡ none = rw (r.agrees i, f) in
          rw (rest, missing, f, (drop_head h i g hs p).0)
    ]

module _ {K : Field} {O : Group K} where
  -- With a blinding or a request for one at each base, the loop commits to all the bases.
  pub commit_all-eq :
      (c : ProverCommitting O) (bases : List O.G) (blindings : List (Option K.F)) (random : ℕ → K.F)
      (draw : ℕ)
      → length blindings ≡ length bases
      → commit_all c bases blindings random draw
        ≡ ok (with_hidden c bases (resolve blindings random draw))
  unfolding commit_all
  commit_all-eq c [] [] random draw h = rw (append-nil, append-nil)
  commit_all-eq c [] (b ∷ bs) random draw h = absurd (omega arith)
  commit_all-eq c (g ∷ gs) [] random draw h = absurd (omega arith)
  commit_all-eq c (g ∷ gs) (b ∷ bs) random draw h =
      commit_all-eq (commit c g b (random draw)).0 gs bs random (suc draw) (omega arith)
      ∙ ap ok (with_hidden-commit c g b (random draw) gs (resolve bs random (suc draw)))
