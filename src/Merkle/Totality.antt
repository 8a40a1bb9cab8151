-- ===== src/Merkle/Totality.antt =====
-- Exactly which leaves `merkleRoot` accepts, and what it throws for the others.
use scalable_blockchain_voti.Prelude.{
  ℕ, ◌+◌, ◌≡◌, refl, true, false, ◌↔◌, List, [], ◌∷◌, ◌++◌, length, arith, All,
}
use scalable_blockchain_voti.Outcome.{ok, err, labelled, at, >>=-eq-ok, guard}
use scalable_blockchain_voti.Js.Texts.{Text}
use scalable_blockchain_voti.Viem.{Viem, is_bytes32, assert_bytes32}
use scalable_blockchain_voti.Viem.Laws.{Laws, assert_bytes32-eq-ok}
use scalable_blockchain_voti.Merkle.{normalize_leaves, merkle_root}
use scalable_blockchain_voti.Merkle.Completeness.{merkle_proof_verifies}

module _ (v : Viem) where
  normalize_leaves-eq-ok :
      (index : ℕ) (leaves level : List Text)
      → normalize_leaves v index leaves ≡ ok level
      → All (λ leaf. is_bytes32 v leaf ≡ true) leaves
  unfolding normalize_leaves
  normalize_leaves-eq-ok index [] level h = tt
  normalize_leaves-eq-ok index (leaf ∷ leaves) level h =
      let (valid, more) = assert_bytes32-eq-ok v leaf (at "leaf" index) _ h in
      let (rest, e, _) = >>=-eq-ok (normalize_leaves v (index + 1) leaves) _ more in
      (valid, normalize_leaves-eq-ok (index + 1) leaves rest e)

  -- `merkleRoot` returns exactly if every leaf is a 32-byte hex string.
  pub merkle_root_iff :
      Laws v
      → (leaves : List Text)
      → ((root : Text) × (merkle_root v leaves ≡ ok root))
        ↔ All (λ leaf. is_bytes32 v leaf ≡ true) leaves
  unfolding merkle_root
  merkle_root_iff laws [] = (λ _. tt, λ _. (_, refl))
  merkle_root_iff laws (leaf ∷ leaves) = (
    λ returned.
        let (level, e, _) = >>=-eq-ok (normalize_leaves v 0 (leaf ∷ leaves)) _ returned.1 in
        normalize_leaves-eq-ok 0 (leaf ∷ leaves) level e,
    λ valid.
        let found = merkle_proof_verifies v laws (leaf ∷ leaves) 0 valid refl in (found.0, found.2),
  )

  normalize_leaves_bad :
      (index : ℕ) (good : List Text) (bad : Text) (rest : List Text)
      → All (λ leaf. is_bytes32 v leaf ≡ true) good
      → is_bytes32 v bad ≡ false
      → normalize_leaves v index (good ++ bad ∷ rest)
        ≡ err (labelled (at "leaf" (index + length good)) "must be a 32-byte hex string")
  unfolding normalize_leaves assert_bytes32 guard
  normalize_leaves_bad index [] bad rest h e = rw e (ground arith)
  normalize_leaves_bad index (leaf ∷ good) bad rest h e =
      rw (h.0, normalize_leaves_bad (index + 1) good bad rest h.1 e) (ground arith)

  -- The first leaf that is no 32-byte hex string is the one that the error names.
  pub merkle_root_bad :
      (good : List Text) (bad : Text) (rest : List Text)
      → All (λ leaf. is_bytes32 v leaf ≡ true) good
      → is_bytes32 v bad ≡ false
      → merkle_root v (good ++ bad ∷ rest)
        ≡ err (labelled (at "leaf" (length good)) "must be a 32-byte hex string")
  unfolding merkle_root
  merkle_root_bad [] bad rest h e = rw (normalize_leaves_bad 0 [] bad rest h e) refl
  merkle_root_bad (leaf ∷ good) bad rest h e =
      let from_zero : 0 + length (leaf ∷ good) ≡ length (leaf ∷ good) = omega arith in
      rw (normalize_leaves_bad 0 (leaf ∷ good) bad rest h e, from_zero) refl
