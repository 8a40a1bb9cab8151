-- ===== src/Nullifiers/Root.antt =====
-- The root of a valid accumulator is always there.
use scalable_blockchain_voti.Prelude.{◌≡◌, refl, ◌∙◌, true, List, [], ◌∷◌, map, All, All-imp, ap}
use scalable_blockchain_voti.Outcome.{ok, map_result}
use scalable_blockchain_voti.Js.Texts.{Text, lower}
use scalable_blockchain_voti.Js.Sets.{member, All-subset}
use scalable_blockchain_voti.Viem.{Viem, is_bytes32, bytes32, domain_hash}
use scalable_blockchain_voti.Viem.Laws.{Laws, IsDigest, domain_hash-IsDigest, hash_abi-IsDigest}
use scalable_blockchain_voti.Merkle.Totality.{merkle_root_iff}
use scalable_blockchain_voti.Nullifiers.{
  NullifierAccumulator, nullifier_leaf, nullifier_set_root, root, unique_sorted,
}
use scalable_blockchain_voti.Nullifiers.Order.{member-unique_sorted}
use scalable_blockchain_voti.Nullifiers.Adding.{IsValid}

module _ (v : Viem) (laws : Laws v) where
  leaves_total :
      (nullifiers : List Text)
      → All (λ n. is_bytes32 v n ≡ true) nullifiers
      → (leaves : List Text) × (map_result (nullifier_leaf v) nullifiers ≡ ok leaves)
        × All (λ leaf. is_bytes32 v leaf ≡ true) leaves
  unfolding map_result nullifier_leaf
  leaves_total [] h = ([], refl, tt)
  leaves_total (n ∷ nullifiers) h =
      let (leaf, e, d) =
        hash_abi-IsDigest v laws (bytes32 (domain_hash v "SVB_NULLIFIER_LEAF_V1") ∷ bytes32 n ∷ [])
          ((domain_hash-IsDigest v laws "SVB_NULLIFIER_LEAF_V1").well_formed, (h.0, tt)) in
      let (leaves, f, ds) = leaves_total nullifiers h.1 in
      (leaf ∷ leaves, rw (e, f) refl, (d.well_formed, ds))

  lowered : (seen : List Text) → All (IsDigest v) seen → map lower seen ≡ seen
  lowered [] h = refl
  lowered (n ∷ seen) h = cc (h.0.lowered, lowered seen h.1)

  -- The root of a valid accumulator is computed without an error.
  pub root_total :
      (accumulator : NullifierAccumulator)
      → IsValid v accumulator
      → (r : Text) × (root v accumulator ≡ ok r)
  unfolding root nullifier_set_root
  root_total accumulator valid =
      let same : (a : Text)
          → member a (unique_sorted accumulator.seen) ≡ member a accumulator.seen =
        λ a.
          member-unique_sorted a accumulator.seen
          ∙ ap (member a) (lowered accumulator.seen valid.digests) in
      let digests =
        All-subset (IsDigest v) accumulator.seen (unique_sorted accumulator.seen) valid.digests
          same in
      let (leaves, e, well) =
        leaves_total (unique_sorted accumulator.seen)
          (All-imp (unique_sorted accumulator.seen) (λ n d. d.well_formed) digests) in
      let (r, f) = (merkle_root_iff v laws leaves).1 well in (r, rw e f)
