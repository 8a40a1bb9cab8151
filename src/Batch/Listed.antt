-- ===== src/Batch/Listed.antt =====
-- A digest that a manifest lists leads to a leaf whose proof verifies; for any kind of entry.
use scalable_blockchain_voti.Prelude.{
  ℕ, zero, suc, ◌≡◌, refl, sym, ◌∙◌, true, some, List, [], ◌∷◌, map, get_elem?, All,
}
use scalable_blockchain_voti.Outcome.{Result, ok, map_result, ok_inj}
use scalable_blockchain_voti.Outcome.Mapping.{map_result_at, All-map_result}
use scalable_blockchain_voti.Js.Texts.{Text}
use scalable_blockchain_voti.Js.Numbers.{natural}
use scalable_blockchain_voti.Js.Sets.{member}
use scalable_blockchain_voti.Viem.{Viem, is_bytes32}
use scalable_blockchain_voti.Viem.Laws.{Laws, IsDigest}
use scalable_blockchain_voti.Merkle.{
  MerkleProofStep, merkle_root, merkle_proof, verify_merkle_proof,
}
use scalable_blockchain_voti.Merkle.Completeness.{merkle_proof_verifies}
use scalable_blockchain_voti.Batch.{index_of}
use scalable_blockchain_voti.Batch.Receipts.{index_of-member}

-- An entry of a list that is mapped to its digests stands where its digest does.
pub get_elem?-of_map :
    {E : Type 0} (f : E → Text) (es : List E) (i : ℕ) (d : Text)
    → get_elem? (map f es) i ≡ some d
    → (e : E) × (get_elem? es i ≡ some e)
get_elem?-of_map f [] i d h = cc
get_elem?-of_map f (e ∷ es) zero d h = (e, refl)
get_elem?-of_map f (e ∷ es) (suc i) d h = get_elem?-of_map f es i d h

module _ (v : Viem) (laws : Laws v) {E : Type 0} (digest : E → Text) (leaf : E → Result Text) where
  -- What a receipt of the entries needs.
  pub record IsListed (entries : List E) (leaves : List Text) (cid_root d : Text) : Type 0 where
    pub index : ℕ
    pub found : index_of d (map digest entries) ≡ some index
    pub entry : E
    pub there : get_elem? entries index ≡ some entry
    pub leaf_hash : Text
    pub leaf_there : get_elem? leaves index ≡ some leaf_hash
    pub leaf_made : leaf entry ≡ ok leaf_hash
    pub proof : List MerkleProofStep
    pub proof_made : merkle_proof v leaves (natural index) ≡ ok proof
    pub verified : verify_merkle_proof v leaf_hash proof cid_root ≡ ok true

  pub member-IsListed :
      ((e : E) (l : Text) → leaf e ≡ ok l → IsDigest v l)
      → (entries : List E) (leaves : List Text) (cid_root d : Text)
      → map_result leaf entries ≡ ok leaves
      → merkle_root v leaves ≡ ok cid_root
      → member d (map digest entries) ≡ true
      → IsListed entries leaves cid_root d
  member-IsListed digests entries leaves cid_root d made rooted listed =
      let (i, found, at) = index_of-member d (map digest entries) listed in
      let (e, e_at) = get_elem?-of_map digest entries i d at in
      let (l, l_at, l_made) = map_result_at leaf entries leaves i made e_at in
      let (root, proof, root_made, _, proof_made, verified) =
        merkle_proof_verifies v laws leaves i
          (All-map_result leaf (λ _. Unit {0}) (λ l. is_bytes32 v l ≡ true)
            (λ e l _ h. (digests e l h).well_formed) entries leaves (anything entries) made)
          l_at in
      let same : root ≡ cid_root = ok_inj (sym root_made ∙ rooted) in
      record {
        index = i;
        found = found;
        entry = e;
        there = e_at;
        leaf_hash = l;
        leaf_there = l_at;
        leaf_made = l_made;
        proof = proof;
        proof_made = proof_made;
        verified = rw same at verified;
      }
    where
      anything : (l : List E) → All (λ _. Unit {0}) l
      anything [] = tt
      anything (s ∷ l) = (tt, anything l)
