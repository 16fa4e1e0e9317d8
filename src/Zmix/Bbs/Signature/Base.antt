-- ===== src/Zmix/Bbs/Signature/Base.antt =====
-- The point that a signature signs: the sum that `prep_vec_for_b` prepares.
use smartchaindb_driver.Prelude.{
  ℕ, suc, ◌+◌, ◌≡◌, sym, ap, List, [], ◌∷◌, length, drop, drop-cons, drop_all, length-drop, ok,
  arith,
}
use smartchaindb_driver.Amcl.{Field, Group}
use smartchaindb_driver.Amcl.Sums.{sum_of}
use smartchaindb_driver.Zmix.Bbs.Keys.{PublicKey}
use smartchaindb_driver.Zmix.Bbs.Signature.{
  message_points, compute_b_const_time, compute_b_var_time,
}

message_points-eq :
    {P F : Type 0} (h : List P) (index : ℕ) (ms : List F)
    → index + length ms ≡ length h
    → message_points h index ms ≡ ok (drop index h, ms)
unfolding message_points
message_points-eq h index [] e = ap (λ l. ok (l, [])) (sym (drop_all h index (omega arith)))
message_points-eq h index (m ∷ ms) e =
    let (p, found, split) = drop-cons h index (omega arith) in
    let next : index + 1 ≡ suc index = omega arith in
    rw (found, message_points-eq h (index + 1) ms (omega arith), split, next)

module _ {K : Field} {G1 G2 : Group K} where
  -- g1 * h0^s * h_i^m_i * ... over the generators from `offset` on
  abbrev pub base_of : PublicKey G1 G2 → List K.F → K.F → ℕ → G1.G
  base_of vk messages s offset =
      sum_of G1 (G1.generator ∷ vk.h0 ∷ drop offset vk.h) (K.fe_one ∷ s ∷ messages)

  drop_same :
      (vk : PublicKey G1 G2) (messages : List K.F) (offset : ℕ)
      → offset + length messages ≡ length vk.h
      → length (drop offset vk.h) ≡ length messages
  drop_same vk messages offset e = omega (arith, length-drop {0} offset vk.h)

  pub compute_b_const_time-eq :
      (start : G1.G) (vk : PublicKey G1 G2) (messages : List K.F) (s : K.F) (offset : ℕ)
      → offset + length messages ≡ length vk.h
      → compute_b_const_time start vk messages s offset
        ≡ ok (G1.◌⊕◌ start (base_of vk messages s offset))
  unfolding compute_b_const_time
  compute_b_const_time-eq start vk messages s offset e = rw (
    message_points-eq vk.h offset messages e,
    G1.const_time-eq (G1.generator ∷ vk.h0 ∷ drop offset vk.h) (K.fe_one ∷ s ∷ messages)
        (ap (λ n. suc (suc n)) (drop_same vk messages offset e)),
  )

  pub compute_b_var_time-eq :
      (start : G1.G) (vk : PublicKey G1 G2) (messages : List K.F) (s : K.F) (offset : ℕ)
      → offset + length messages ≡ length vk.h
      → compute_b_var_time start vk messages s offset
        ≡ ok (G1.◌⊕◌ start (base_of vk messages s offset))
  unfolding compute_b_var_time
  compute_b_var_time-eq start vk messages s offset e = rw (
    message_points-eq vk.h offset messages e,
    G1.var_time-eq (G1.generator ∷ vk.h0 ∷ drop offset vk.h) (K.fe_one ∷ s ∷ messages)
        (ap (λ n. suc (suc n)) (drop_same vk messages offset e)),
  )
