-- ===== src/Zmix/Bbs/PokSig/Loops.antt =====
-- The loops of `init` and `verify` select the hidden and the revealed places.
use mathlib.Core.List.{append_assoc, append-nil}
use smartchaindb_driver.Prelude.{
  ℕ, zero, suc, ◌≤◌, ◌≡◌, refl, ap₂, ◌∙◌, Option, none, some, List, [], ◌∷◌, ◌++◌, length, map,
  drop, drop_head, leb, lt→leb, ok, arith, Bool-cases, inl, inr, ==_refl, ◌==◌, if◌then◌else◌,
  replicate, length-replicate, length-map,
}
use smartchaindb_driver.Amcl.{Field, Group}
use smartchaindb_driver.Zmix.PokVc.{ProverCommitting, commit}
use smartchaindb_driver.Zmix.PokVc.Commit.{resolve, with_hidden, with_hidden-commit}
use smartchaindb_driver.Zmix.Selection.{contains, get, pick, hides, IsIndexSet, Reveals}
use smartchaindb_driver.Zmix.Bbs.PokSig.{check_indices, blinding_list, commit_hidden, split_bases}

pub check_indices-ok : (js : List ℕ) (n : ℕ) → IsIndexSet js n → check_indices js n ≡ ok tt
unfolding check_indices
check_indices-ok [] n h = refl
check_indices-ok (j ∷ js) n h = rw (lt→leb n j h.1) (check_indices-ok js n h.2)

pub check_keys-ok :
    {F : Type 0} (entries : List (ℕ × F)) (n : ℕ)
    → ((j : ℕ) → n ≤ j → get entries j ≡ none)
    → check_indices (map (λ entry. entry.0) entries) n ≡ ok tt
unfolding check_indices
check_keys-ok [] n h = refl
check_keys-ok ((j, a) ∷ rest) n h = elim (Bool-cases (leb n j)) [
  | inl beyond ↦ absurd (impossible (h j (ground arith)))
  | inr below ↦ rw below (check_keys-ok rest n (λ i k. inner i k (h i k)))
]
  where
    impossible : (if j == j then some a else get rest j) ≡ none → ⊥
    impossible e = ground arith

    inner : (i : ℕ) → n ≤ i → (if i == j then some a else get rest i) ≡ none → get rest i ≡ none
    inner i k e = ground arith

module _ {K : Field} {M : Group K} where
  -- The loop of `init` commits to the hidden generators and takes the hidden messages, in order.
  pub commit_hidden-eq :
      (c : ProverCommitting M) (secrets : List K.F) (todo i : ℕ) (revealed : List ℕ)
      (h hs : List M.G) (messages ms : List K.F) (blindings : List (Option K.F)) (random : ℕ → K.F)
      (draw : ℕ)
      → drop i h ≡ hs
      → drop i messages ≡ ms
      → length hs ≡ todo
      → length ms ≡ todo
      → length blindings ≡ length (pick (hides revealed) i hs)
      → commit_hidden c secrets todo i revealed h messages blindings random draw
        ≡ ok (
          with_hidden c (pick (hides revealed) i hs) (resolve blindings random draw),
          secrets ++ pick (hides revealed) i ms,
        )
  unfolding commit_hidden
  commit_hidden-eq c secrets zero i revealed h [] messages [] [] random draw p q k l m =
      rw (append-nil, append-nil, append-nil)
  commit_hidden-eq c secrets zero i revealed h [] messages [] (b ∷ bs) random draw p q k l m =
      absurd (omega arith)
  commit_hidden-eq c secrets zero i revealed h [] messages (s ∷ ms) bs random draw p q k l m =
      absurd (omega arith)
  commit_hidden-eq c secrets zero i revealed h (g ∷ hs) messages ms bs random draw p q k l m =
      absurd (omega arith)
  commit_hidden-eq c secrets (suc todo) i revealed h [] messages ms bs random draw p q k l m =
      absurd (omega arith)
  commit_hidden-eq c secrets (suc todo) i revealed h (g ∷ hs) messages [] bs random draw p q k l m =
      absurd (omega arith)
  commit_hidden-eq c secrets (suc todo) i revealed h (g ∷ hs) messages (s ∷ ms) [] random draw p q k
        l m =
      elim (Bool-cases (contains revealed i)) [
        | inl t ↦
            let same : 0 ≡ length (pick (hides revealed) (suc i) hs) = rw t at m in
            rw (t, commit_hidden)
              (commit_hidden-eq c secrets todo (suc i) revealed h hs messages ms [] random draw
                (drop_head h i g hs p).1 (drop_head messages i s ms q).1 (omega arith) (omega arith)
                same)
        | inr f ↦
            let none_left : 0 ≡ suc (length (pick (hides revealed) (suc i) hs)) = rw f at m in
            absurd (omega arith)
      ]
  commit_hidden-eq c secrets (suc todo) i revealed h (g ∷ hs) messages (s ∷ ms) (b ∷ bs) random draw
        p q k l m =
      elim (Bool-cases (contains revealed i)) [
        | inl t ↦
            let same : length (b ∷ bs) ≡ length (pick (hides revealed) (suc i) hs) = rw t at m in
            rw (t, commit_hidden)
              (commit_hidden-eq c secrets todo (suc i) revealed h hs messages ms (b ∷ bs) random
                draw (drop_head h i g hs p).1 (drop_head messages i s ms q).1 (omega arith)
                (omega arith) same)
        | inr f ↦
            let same : suc (length bs) ≡ suc (length (pick (hides revealed) (suc i) hs)) =
              rw f at m in
            rw (f, commit_hidden, (drop_head h i g hs p).0, (drop_head messages i s ms q).0)
              (commit_hidden-eq (commit c g b (random draw)).0 (secrets ++ s ∷ []) todo (suc i)
                  revealed h hs messages ms bs random (suc draw) (drop_head h i g hs p).1
                  (drop_head messages i s ms q).1 (omega arith) (omega arith) (omega arith)
                ∙ ap₂ (λ x y. ok (x, y)) (with_hidden-commit c g b (random draw) _ _)
                    (append_assoc secrets (s ∷ []) _))
      ]

-- The loop of `verify` sorts the generators into hidden and revealed ones, and takes the revealed messages.
pub split_bases-eq :
    {P F : Type 0} (todo i : ℕ) (entries : List (ℕ × F)) (revealed : List ℕ) (h hs : List P)
    (messages ms : List F)
    → Reveals entries revealed messages
    → drop i h ≡ hs
    → drop i messages ≡ ms
    → length hs ≡ todo
    → length ms ≡ todo
    → split_bases todo i h entries
      ≡ ok
          (pick (hides revealed) i hs, pick (contains revealed) i hs, pick (contains revealed) i ms)
unfolding split_bases
split_bases-eq zero i entries revealed h [] messages [] r p q k l = refl
split_bases-eq zero i entries revealed h [] messages (s ∷ ms) r p q k l = absurd (omega arith)
split_bases-eq zero i entries revealed h (g ∷ hs) messages ms r p q k l = absurd (omega arith)
split_bases-eq (suc todo) i entries revealed h [] messages ms r p q k l = absurd (omega arith)
split_bases-eq (suc todo) i entries revealed h (g ∷ hs) messages [] r p q k l = absurd (omega arith)
split_bases-eq (suc todo) i entries revealed h (g ∷ hs) messages (s ∷ ms) r p q k l =
    let rest =
      split_bases-eq todo (suc i) entries revealed h hs messages ms r (drop_head h i g hs p).1
        (drop_head messages i s ms q).1 (omega arith) (omega arith) in
    elim (Bool-cases (contains revealed i)) [
      | inl t ↦
          let found : get entries i ≡ some s =
            rw (r.agrees i, t, (drop_head messages i s ms q).0) in
          rw ((drop_head h i g hs p).0, rest, found, t)
      | inr f ↦
          let missing : get entries i ≡ none = rw (r.agrees i, f) in
          rw ((drop_head h i g hs p).0, rest, missing, f)
    ]

-- the list of blindings is as long as there are hidden messages
pub blinding_list-eq :
    {F : Type 0} (blindings : Option (List F)) (hidden : ℕ)
    → ((b : List F) → blindings ≡ some b → length b ≡ hidden)
    → (bs : List (Option F)) × (blinding_list blindings hidden ≡ ok bs) × (length bs ≡ hidden)
unfolding blinding_list
blinding_list-eq none hidden h = (replicate hidden none, refl, length-replicate hidden none)
blinding_list-eq (some b) hidden h =
    (map some b, rw (h b refl, ==_refl), length-map b some ∙ h b refl)
