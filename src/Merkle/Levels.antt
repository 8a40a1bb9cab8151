-- ===== src/Merkle/Levels.antt =====
-- One round of the Merkle loops, on nodes that are digests.
use scalable_blockchain_voti.Prelude.{◌+◌, ◌/◌, ◌≡◌, refl, true, List, [], ◌∷◌, length, arith, All}
use scalable_blockchain_voti.Outcome.{ok, guard}
use scalable_blockchain_voti.Js.Texts.{Text}
use scalable_blockchain_voti.Viem.{Viem, is_bytes32, assert_bytes32}
use scalable_blockchain_voti.Viem.Laws.{
  Laws, IsDigest, lower-IsDigest, domain_hash-IsDigest, hash_abi-IsDigest,
}
use scalable_blockchain_voti.Merkle.{hash_merkle_pair, next_level}

module _ (v : Viem) (laws : Laws v) where
  pub hash_merkle_pair_total :
      (l r : Text)
      → is_bytes32 v l ≡ true
      → is_bytes32 v r ≡ true
      → (parent : Text) × (hash_merkle_pair v l r ≡ ok parent) × IsDigest v parent
  unfolding hash_merkle_pair assert_bytes32 guard
  hash_merkle_pair_total l r hl hr =
      rw (hl, hr)
        (hash_abi-IsDigest v laws _ (
          (domain_hash-IsDigest v laws "SVB_MERKLE_PAIR_V1").well_formed,
          (
            (lower-IsDigest v laws l hl).well_formed,
            ((lower-IsDigest v laws r hr).well_formed, tt),
          ),
        ))

  -- A round of digests returns digests, and half as many, rounded up.
  pub record Halved (level : List Text) : Type 0 where
    pub next : List Text
    pub returned : next_level v level ≡ ok next
    pub digests : All (IsDigest v) next
    pub halved : length next ≡ (length level + 1) / 2

  unfoldable pub halve : (level : List Text) → All (IsDigest v) level → Halved level
  unfolding next_level
  halve [] h = record { next = []; returned = refl; digests = tt; halved = omega arith }
  halve (l ∷ []) h =
      let (parent, e, d) = hash_merkle_pair_total l l h.0.well_formed h.0.well_formed in
      record { next = parent ∷ []; returned = rw e; digests = (d, tt); halved = omega arith }
  halve (l ∷ r ∷ level) h =
      let (parent, e, d) = hash_merkle_pair_total l r h.0.well_formed h.1.0.well_formed in
      let rest = halve level h.1.1 in
      record {
        next = parent ∷ rest.next;
        returned = rw (e, rest.returned);
        digests = (d, rest.digests);
        halved = omega (arith, rest.halved);
      }
