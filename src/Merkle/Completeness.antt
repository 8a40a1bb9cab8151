-- ===== src/Merkle/Completeness.antt =====
-- The proof that `merkleProof` returns for a leaf verifies against the root that `merkleRoot` returns.
use scalable_blockchain_voti.Prelude.{
  ℕ, zero, suc, ◌+◌, ◌/◌, ◌<◌, ◌≤◌, ◌≡◌, refl, sym, ◌∙◌, true, some, some_inj, List, [], ◌∷◌, map,
  length, get_elem?, get_elem?-map, lt-length_of_get_elem?, length-map, arith, All, ltb, leb, ◌&&◌,
}
use scalable_blockchain_voti.Outcome.{ok, guard}
use scalable_blockchain_voti.Js.Texts.{Text, lower, text_eq_refl}
use scalable_blockchain_voti.Js.Numbers.{natural, is_integer, at_least, to_natural}
use scalable_blockchain_voti.Viem.{Viem, is_bytes32, assert_bytes32}
use scalable_blockchain_voti.Viem.Laws.{Laws, IsDigest, lower-IsDigest}
use scalable_blockchain_voti.Merkle.{
  MerkleProofStep, normalize_leaves, root_loop, merkle_root, proof_loop, merkle_proof, verify_loop,
  verify_merkle_proof, direction_of, present,
}
use scalable_blockchain_voti.Merkle.Levels.{halve}
use scalable_blockchain_voti.Merkle.Steps.{step}

module _ (v : Viem) (laws : Laws v) where
  -- What the two loops return on one level, with the climb from the node up to the root.
  pub record Authenticated (fuel index : ℕ) (level : List Text) : Type 0 where
    pub node : Text
    pub root : Text
    pub proof : List MerkleProofStep
    pub node_at : get_elem? level index ≡ some node
    pub root_digest : IsDigest v root
    pub root_returned : root_loop v fuel level ≡ ok root
    pub proof_returned : proof_loop v fuel index level ≡ ok proof
    pub verified : verify_loop v node proof ≡ ok root

  pub authenticate :
      (fuel index : ℕ) (level : List Text)
      → All (IsDigest v) level
      → index < length level
      → length level ≤ suc fuel
      → Authenticated fuel index level
  unfolding root_loop proof_loop verify_loop assert_bytes32 guard present
  authenticate fuel index [] h i f = elim i [ ]
  authenticate fuel zero (root ∷ []) h i f = record {
    node = root;
    root = root;
    proof = [];
    node_at = refl;
    root_digest = h.0;
    root_returned = refl;
    proof_returned = refl;
    verified = refl;
  }
  authenticate fuel (suc index) (root ∷ []) h i f = absurd (omega arith)
  authenticate zero index (l ∷ r ∷ level) h i f = absurd (omega arith)
  authenticate (suc fuel) index (l ∷ r ∷ level) h i f =
      let up = halve v laws (l ∷ r ∷ level) h in
      let s = step v laws (l ∷ r ∷ level) h index i in
      let a =
        authenticate fuel (index / 2) up.next up.digests (omega (arith, up.halved))
          (omega (arith, up.halved)) in
      let same : s.parent ≡ a.node = some_inj (sym s.parent_at ∙ a.node_at) in
      record {
        node = s.node;
        root = a.root;
        proof = record { sibling = s.sibling; direction = direction_of index } ∷ a.proof;
        node_at = s.node_at;
        root_digest = a.root_digest;
        root_returned = rw up.returned a.root_returned;
        proof_returned = rw (s.sibling_at, up.returned, a.proof_returned);
        verified = rw (s.sibling_digest.well_formed, s.climbs, same) a.verified;
      }

  lowered_digests :
      (leaves : List Text)
      → All (λ leaf. is_bytes32 v leaf ≡ true) leaves
      → All (IsDigest v) (map lower leaves)
  lowered_digests [] h = tt
  lowered_digests (leaf ∷ leaves) h = (lower-IsDigest v laws leaf h.0, lowered_digests leaves h.1)

  normalize_leaves_total :
      (index : ℕ) (leaves : List Text)
      → All (λ leaf. is_bytes32 v leaf ≡ true) leaves
      → normalize_leaves v index leaves ≡ ok (map lower leaves)
  unfolding normalize_leaves assert_bytes32 guard
  normalize_leaves_total index [] h = refl
  normalize_leaves_total index (leaf ∷ leaves) h =
      rw (h.0, normalize_leaves_total (index + 1) leaves h.1)

  root_of :
      (leaves : List Text)
      → All (λ leaf. is_bytes32 v leaf ≡ true) leaves
      → 0 < length leaves
      → merkle_root v leaves ≡ root_loop v (length leaves) (map lower leaves)
  unfolding merkle_root
  root_of [] h i = elim i [ ]
  root_of (leaf ∷ leaves) h i =
      rw (normalize_leaves_total 0 (leaf ∷ leaves) h, length-map lower leaves)

  proof_of :
      (leaves : List Text) (index : ℕ)
      → index < length leaves
      → merkle_proof v leaves (natural index)
        ≡ proof_loop v (length leaves) index (map lower leaves)
  unfolding merkle_proof guard is_integer at_least to_natural
  proof_of leaves index i =
      let tested : (leb 0 index && ltb index (length leaves)) ≡ true = ground arith in rw tested

  verify_of :
      (leaf : Text) (proof : List MerkleProofStep) (root : Text)
      → verify_loop v (lower leaf) proof ≡ ok root
      → IsDigest v root
      → verify_merkle_proof v leaf proof root ≡ ok true
  unfolding verify_merkle_proof
  verify_of leaf proof root e d = rw (e, d.lowered, text_eq_refl)

  -- For 32-byte leaves and the index of one of them, both loops end without an error, the root is a
  -- 32-byte lower-case digest, and the leaf's proof verifies against it.
  pub merkle_proof_verifies :
      (leaves : List Text) (index : ℕ) {leaf : Text}
      → All (λ l. is_bytes32 v l ≡ true) leaves
      → get_elem? leaves index ≡ some leaf
      → (root : Text) × (proof : List MerkleProofStep) × (merkle_root v leaves ≡ ok root)
        × IsDigest v root
        × (merkle_proof v leaves (natural index) ≡ ok proof)
        × (verify_merkle_proof v leaf proof root ≡ ok true)
  merkle_proof_verifies leaves index {leaf} h e =
      let i : index < length leaves = lt-length_of_get_elem? leaves index e in
      let a =
        authenticate (length leaves) index (map lower leaves) (lowered_digests leaves h)
          (rw length-map i) (rw length-map (omega arith)) in
      let same : lower leaf ≡ a.node =
        some_inj (sym (get_elem?-map lower leaves index e) ∙ a.node_at) in
      (
        a.root,
        a.proof,
        root_of leaves h (omega arith) ∙ a.root_returned,
        a.root_digest,
        proof_of leaves index i ∙ a.proof_returned,
        verify_of leaf a.proof a.root (rw same a.verified) a.root_digest,
      )
