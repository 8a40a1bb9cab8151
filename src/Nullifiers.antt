-- ===== src/Nullifiers.antt =====
-- `nullifierSetRoot` and the class `NullifierAccumulator` of packages/crypto/src/index.ts.
pub mod Order
pub mod Adding
pub mod Root
pub mod Batched
use scalable_blockchain_voti.Prelude.{Bool, not, List, [], ◌∷◌, ◌++◌, map}
use scalable_blockchain_voti.Outcome.{
  plain, assertion, Result, ok, err, guard, map_result, ◌>>=◌, ◌>>◌,
}
use scalable_blockchain_voti.Outcome.Stateful.{Stateful, and_then}
use scalable_blockchain_voti.Js.Texts.{Text, lower}
use scalable_blockchain_voti.Js.Sets.{member, set_of}
use scalable_blockchain_voti.Js.Sorting.{sort_texts}
use scalable_blockchain_voti.Viem.{Viem, bytes32, assert_bytes32, domain_hash, hash_abi}
use scalable_blockchain_voti.Merkle.{merkle_root}

-- `#seen`, in the order of insertion
pub record NullifierAccumulator : Type 0 where
  pub seen : List Text

-- What other callers of an accumulator do to it while a builder awaits: from the check of its root
-- until its packages are validated, or it throws, and from its `addMany` until their ciphertexts are
-- summed.
pub record Others : Type 0 where
  pub validating : NullifierAccumulator → NullifierAccumulator
  pub summing : NullifierAccumulator → NullifierAccumulator

abbrev pub empty_accumulator : NullifierAccumulator
empty_accumulator = record { seen = [] }

unfoldable pub unique_sorted : List Text → List Text
unique_sorted nullifiers = sort_texts (set_of (map lower nullifiers))

-- this.#seen.has(normalizeBytes32(nullifier))
unfoldable pub has : NullifierAccumulator → Text → Bool
has accumulator nullifier = member (lower nullifier) accumulator.seen

module _ (v : Viem) where
  unfoldable pub nullifier_leaf : Text → Result Text
  nullifier_leaf nullifier =
      hash_abi v (bytes32 (domain_hash v "SVB_NULLIFIER_LEAF_V1") ∷ bytes32 nullifier ∷ [])

  unfoldable pub nullifier_set_root : List Text → Result Text
  nullifier_set_root nullifiers = do
    leaves ← map_result nullifier_leaf (unique_sorted nullifiers)
    merkle_root v leaves

  -- get root()
  unfoldable pub root : NullifierAccumulator → Result Text
  root accumulator = nullifier_set_root accumulator.seen

  -- the two assertions of `add`
  unfoldable pub check_new : NullifierAccumulator → Text → Result (Unit {0})
  check_new accumulator nullifier = do
    assert_bytes32 v nullifier (plain "ballotNullifier")
    guard (not (has accumulator nullifier)) (assertion "duplicate ballot nullifier")

  unfoldable pub add : Text → Stateful NullifierAccumulator (Unit {0})
  add nullifier accumulator =
      and_then (check_new accumulator nullifier, accumulator)
        λ _ before. (ok tt, record { seen = before.seen ++ lower nullifier ∷ [] })

  -- a throw in the middle leaves what was added before it
  unfoldable pub add_many : List Text → Stateful NullifierAccumulator (Unit {0})
  add_many [] accumulator = (ok tt, accumulator)
  add_many (nullifier ∷ nullifiers) accumulator =
      and_then (add nullifier accumulator) λ _ next. add_many nullifiers next

  -- the constructor: no object if it throws
  unfoldable pub new_accumulator : List Text → Result NullifierAccumulator
  new_accumulator initial =
      let (done, accumulator) = add_many initial empty_accumulator in do done; ok accumulator
