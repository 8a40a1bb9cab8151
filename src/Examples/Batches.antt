-- ===== src/Examples/Batches.antt =====
-- Batches of two packages on a new accumulator, one that is built and one that is refused.
use scalable_blockchain_voti.Prelude.{
  arith, if◌then◌else◌, ◌≡◌, ◌↔◌, refl, true, false, ◌&&◌, not, List, [], ◌∷◌, ◌++◌, map, All,
}
use scalable_blockchain_voti.Outcome.{Result, ok, err, assertion}
use scalable_blockchain_voti.Js.Texts.{Text, text, lower, lower_idem}
use scalable_blockchain_voti.Js.Sets.{member, IsUnique}
use scalable_blockchain_voti.Viem.{is_bytes32}
use scalable_blockchain_voti.Merkle.{zero_hash}
use scalable_blockchain_voti.Nullifiers.{
  NullifierAccumulator, empty_accumulator, unique_sorted, has, nullifier_leaf, nullifier_set_root,
  root, check_new, add, add_many,
}
use scalable_blockchain_voti.Nullifiers.Order.{nullifier_set_root_order}
use scalable_blockchain_voti.Nullifiers.Adding.{IsValid, add_error, added, add_lem, add_many_iff}
use scalable_blockchain_voti.Nullifiers.Root.{root_total}
use scalable_blockchain_voti.Package.Digest.{StoredVotePackage, digest_vote_package}
use scalable_blockchain_voti.Batch.{
  BatchManifest, PackageInclusionReceipt, index_of, normalize_all, compute_batch_public_inputs_hash,
  normalize_stored, check_elections, with_digest, sort_by_digest, prepare_batch, seal_batch,
  build_batch_manifest, found_at, build_inclusion_receipt,
}
use scalable_blockchain_voti.Batch.Built.{nullifiers_of}
use scalable_blockchain_voti.Batch.Receipts.{IsReceipt, build_inclusion_receipt-IsReceipt}
use scalable_blockchain_voti.Batch.Chain.{
  Batches, none_yet, one_more, all_nullifiers, IsLinked, no_nullifier_twice, batches-IsLinked,
  batch_nullifiers_new,
}
use scalable_blockchain_voti.Batch.Failure.{refused_batch_keeps}
use scalable_blockchain_voti.Examples.Toy.{toy, toy_laws}
use scalable_blockchain_voti.Examples.Trees.{leaf_a, leaf_b}
use scalable_blockchain_voti.Examples.Ballots.{
  package_suite, vote_one, vote_two, normal_one, nullifier_one, nullifier_two,
}

unfoldable pub batch_suite : Unit {0}
unfolding package_suite unique_sorted has nullifier_leaf nullifier_set_root root check_new add
    add_many index_of normalize_all compute_batch_public_inputs_hash normalize_stored
    check_elections with_digest sort_by_digest prepare_batch seal_batch build_batch_manifest
    found_at build_inclusion_receipt
batch_suite = tt

abbrev stored_one : StoredVotePackage
stored_one = record { content_id = text " cid-1"; vote_package = vote_one }

abbrev stored_two : StoredVotePackage
stored_two = record { content_id = text "cid-2"; vote_package = vote_two }

abbrev both : List StoredVotePackage
both = stored_one ∷ stored_two ∷ []

abbrev run : Result BatchManifest × NullifierAccumulator
run = build_batch_manifest toy leaf_a zero_hash both empty_accumulator

nothing_built : BatchManifest
nothing_built = record {
  version = 0;
  election_id = [];
  previous_nullifier_root = [];
  nullifier_root = [];
  cid_merkle_root = [];
  manifest_digest = [];
  batch_public_inputs_hash = [];
  batch_size = 0;
  package_digests = [];
  package_leaf_hashes = [];
  ballot_nullifiers = [];
}

returned {ℓ} : {A : Type ℓ} → A → Result A → A
returned d (ok a) = a
returned d (err e) = d

abbrev manifest : BatchManifest
manifest = returned nothing_built run.0

abbrev after_batch : NullifierAccumulator
after_batch = record { seen = lower nullifier_one ∷ lower nullifier_two ∷ [] }

run_returns : run ≡ (ok manifest, after_batch)
unfolding batch_suite returned
run_returns = refl

empty-IsValid : IsValid toy empty_accumulator
empty-IsValid = record { unique = tt; digests = tt }

abbrev both_built : Batches toy empty_accumulator (manifest ∷ []) after_batch
both_built = one_more none_yet leaf_a zero_hash both manifest after_batch run_returns

digest_one : (d : Text) × (digest_vote_package toy vote_one ≡ ok d)
unfolding batch_suite returned
digest_one = (returned [] (digest_vote_package toy vote_one), refl)

build_inclusion_receipt-IsReceipt_example :
    (r : PackageInclusionReceipt) × (build_inclusion_receipt toy manifest digest_one.0 ≡ ok r)
    × IsReceipt toy toy_laws manifest digest_one.0 r
build_inclusion_receipt-IsReceipt_example =
    build_inclusion_receipt-IsReceipt toy toy_laws leaf_a zero_hash both empty_accumulator manifest
      after_batch 0 stored_one digest_one.0 run_returns refl digest_one.1

no_nullifier_twice_example :
    (after_batch.seen ≡ [] ++ all_nullifiers (manifest ∷ []))
    × IsUnique ([] ++ all_nullifiers (manifest ∷ []))
    × IsValid toy after_batch
no_nullifier_twice_example = no_nullifier_twice toy toy_laws empty-IsValid both_built

batches-IsLinked_example : IsLinked (manifest ∷ [])
batches-IsLinked_example = batches-IsLinked toy toy_laws both_built

batch_nullifiers_new_example :
    (has empty_accumulator nullifier_two ≡ false) × (has after_batch nullifier_two ≡ true)
batch_nullifiers_new_example =
    batch_nullifiers_new toy toy_laws leaf_a zero_hash both empty_accumulator manifest after_batch 1
      stored_two empty-IsValid run_returns refl

-- The first package twice: the second copy is refused, and the first one's nullifier stays.
abbrev normal_stored : StoredVotePackage
normal_stored = record { content_id = text "cid-1"; vote_package = normal_one }

twice_prepared :
    prepare_batch toy leaf_a zero_hash (stored_one ∷ stored_one ∷ []) empty_accumulator
    ≡ ok ((normal_stored ∷ []) ++ normal_stored ∷ [])
unfolding batch_suite
twice_prepared = refl

one_taken : (add_many toy (nullifiers_of (normal_stored ∷ [])) empty_accumulator).0 ≡ ok tt
unfolding batch_suite
one_taken = refl

second_refused :
    (is_bytes32 toy normal_one.ballot_nullifier
      && not (
          member
            (lower normal_one.ballot_nullifier)
            ([] ++ map lower (nullifiers_of (normal_stored ∷ [])))))
    ≡ false
unfolding batch_suite
second_refused = refl

refused_batch_keeps_example :
    build_batch_manifest toy leaf_a zero_hash (stored_one ∷ stored_one ∷ []) empty_accumulator ≡ (
      err (add_error toy normal_one.ballot_nullifier),
      record { seen = [] ++ map lower (nullifiers_of (normal_stored ∷ [])) },
    )
refused_batch_keeps_example =
    refused_batch_keeps toy leaf_a zero_hash (stored_one ∷ stored_one ∷ []) empty_accumulator
      (normal_stored ∷ []) normal_stored [] twice_prepared one_taken second_refused

-- With the refused batch behind it the accumulator no longer continues the root that it had.
retry_refused :
    (build_batch_manifest toy leaf_a zero_hash
      (stored_one ∷ [])
      (record { seen = lower nullifier_one ∷ [] })).0
    ≡ err (assertion "previousNullifierRoot does not match accumulator state")
unfolding batch_suite
retry_refused = refl

add_lem_example : add toy nullifier_one empty_accumulator ≡ (
    if is_bytes32 toy nullifier_one && not (has empty_accumulator nullifier_one)
    then (ok tt, added nullifier_one empty_accumulator)
    else (err (add_error toy nullifier_one), empty_accumulator))
add_lem_example = add_lem toy nullifier_one empty_accumulator

add_many_iff_example :
    ((add_many toy (nullifier_one ∷ nullifier_two ∷ []) empty_accumulator).0 ≡ ok tt) ↔ (
      All (λ n. is_bytes32 toy n ≡ true) (nullifier_one ∷ nullifier_two ∷ [])
      × IsUnique ([] ++ map lower (nullifier_one ∷ nullifier_two ∷ [])))
add_many_iff_example =
    add_many_iff toy toy_laws (nullifier_one ∷ nullifier_two ∷ []) empty_accumulator empty-IsValid

root_total_example : (r : Text) × (root toy after_batch ≡ ok r)
root_total_example = root_total toy toy_laws after_batch no_nullifier_twice_example.2

same_members :
    (a : Text)
    → member a (map lower (leaf_a ∷ leaf_b ∷ leaf_a ∷ []))
      ≡ member a (map lower (leaf_b ∷ lower leaf_a ∷ []))
unfolding member
same_members a = rw lower_idem (ground arith)

nullifier_set_root_order_example :
    nullifier_set_root toy (leaf_a ∷ leaf_b ∷ leaf_a ∷ [])
    ≡ nullifier_set_root toy (leaf_b ∷ lower leaf_a ∷ [])
nullifier_set_root_order_example =
    nullifier_set_root_order toy (leaf_a ∷ leaf_b ∷ leaf_a ∷ []) (leaf_b ∷ lower leaf_a ∷ [])
      same_members
