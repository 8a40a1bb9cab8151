-- ===== src/Merkle/Depth.antt =====
-- How many steps `merkleProof` returns.
use native.Mathlib.Nat.{pow-suc}
use scalable_blockchain_voti.Prelude.{
  ℕ, zero, suc, ◌+◌, ◌*◌, ◌/◌, ◌^◌, ◌<◌, ◌≤◌, ◌≡◌, refl, ap, ◌⊎◌, inl, inr, List, [], ◌∷◌, map,
  length, length-map, arith, ltb→lt, and_right,
}
use scalable_blockchain_voti.Outcome.{ok, ok_inj, >>=-eq-ok, >>-eq-ok}
use scalable_blockchain_voti.Js.Texts.{Text, lower}
use scalable_blockchain_voti.Js.Numbers.{Number, to_natural, at_least}
use scalable_blockchain_voti.Viem.{Viem}
use scalable_blockchain_voti.Merkle.{
  MerkleProofStep, hash_merkle_pair, next_level, proof_loop, merkle_proof, present,
}

-- `steps` is the base-2 logarithm of `leaves`, rounded up.
abbrev pub Depth : ℕ → ℕ → Type 0
Depth steps leaves =
    (leaves ≤ 2 ^ steps) × (((leaves ≡ 1) × (steps ≡ 0)) ⊎ (2 ^ steps + 2 ≤ 2 * leaves))

module _ (v : Viem) where
  length-next_level :
      (level next : List Text) → next_level v level ≡ ok next → length next ≡ (length level + 1) / 2
  unfolding next_level
  length-next_level [] next h = omega (arith, ap length (ok_inj h))
  length-next_level (l ∷ []) next h =
      let (parent, e, r) = >>=-eq-ok (hash_merkle_pair v l l) _ h in
      omega (arith, ap length (ok_inj r))
  length-next_level (l ∷ r ∷ level) next h =
      let (parent, e, more) = >>=-eq-ok (hash_merkle_pair v l r) _ h in
      let (rest, f, made) = >>=-eq-ok (next_level v level) _ more in
      omega (arith, ap length (ok_inj made), length-next_level level rest f)

  deepen :
      (steps leaves : ℕ) → 2 ≤ leaves → Depth steps ((leaves + 1) / 2) → Depth (suc steps) leaves
  deepen steps leaves two (wide, inl (one, none)) =
      (omega (arith, pow-suc 2 steps), inr (rw none (omega arith)))
  deepen steps leaves two (wide, inr more) =
      (omega (arith, pow-suc 2 steps), inr (omega (arith, pow-suc 2 steps)))

  loop-Depth :
      (fuel index : ℕ) (level : List Text) (proof : List MerkleProofStep)
      → 0 < length level
      → proof_loop v fuel index level ≡ ok proof
      → Depth (length proof) (length level)
  unfolding proof_loop
  loop-Depth fuel index [] proof i h = elim i [ ]
  loop-Depth fuel index (root ∷ []) proof i h =
      let none : length proof ≡ 0 = omega (arith, ap length (ok_inj h)) in
      rw none (omega arith, inl (refl, refl))
  loop-Depth zero index (l ∷ r ∷ level) proof i h = cc
  loop-Depth (suc fuel) index (l ∷ r ∷ level) proof i h =
      let (sibling, _, a) = >>=-eq-ok (present _) _ h in
      let (next, e, b) = >>=-eq-ok (next_level v (l ∷ r ∷ level)) _ a in
      let (rest, f, made) = >>=-eq-ok (proof_loop v fuel (index / 2) next) _ b in
      let half = length-next_level (l ∷ r ∷ level) next e in
      let one_more : suc (length rest) ≡ length proof = ap length (ok_inj made) in
      rw (← one_more) (
        deepen (length rest) (length (l ∷ r ∷ level)) (omega arith)
          (rw half at (loop-Depth fuel (index / 2) next rest (rw half (omega arith)) f)))

  -- A returned proof has the base-2 logarithm of the number of leaves, rounded up, for its length.
  pub merkle_proof-Depth :
      (leaves : List Text) (leaf_index : Number) (proof : List MerkleProofStep)
      → merkle_proof v leaves leaf_index ≡ ok proof
      → Depth (length proof) (length leaves)
  unfolding merkle_proof
  merkle_proof-Depth leaves leaf_index proof h =
      let (_, a) = >>-eq-ok _ _ _ h in
      let (in_range, b) = >>-eq-ok _ _ _ a in
      let some_leaf : 0 < length leaves =
        omega (arith, ltb→lt _ _ (and_right (at_least 0 leaf_index) _ in_range)) in
      rw (length-map lower leaves) at (
        loop-Depth (length leaves) (to_natural leaf_index) (map lower leaves) proof
          (rw length-map some_leaf) b)
