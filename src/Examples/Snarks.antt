-- ===== src/Examples/Snarks.antt =====
-- Packages of the proof-compatible and of the eligible pipeline, with toy libraries.
use scalable_blockchain_voti.Prelude.{ℕ, ◌+◌, ◌≡◌, refl, true, List, [], ◌∷◌, ◌++◌, map}
use scalable_blockchain_voti.Outcome.{Result, ok, err, map_result}
use scalable_blockchain_voti.Js.Texts.{Text, text, lower}
use scalable_blockchain_voti.Js.Digits.{digits_before, show_radix, pad_start, is_decimal, decimal}
use scalable_blockchain_voti.Js.Json.{canonicalize, stringify}
use scalable_blockchain_voti.Merkle.{zero_hash, verify_merkle_proof}
use scalable_blockchain_voti.Nullifiers.Batched.{IsCalling, called, untouched}
use scalable_blockchain_voti.Nullifiers.{
  NullifierAccumulator, Others, empty_accumulator, root, add_many,
}
use scalable_blockchain_voti.Nullifiers.Adding.{IsValid}
use scalable_blockchain_voti.Batch.{PackageInclusionReceipt}
use scalable_blockchain_voti.Dkg.Coordinator.{required}
use scalable_blockchain_voti.Tally.Shares.{hex_digits}
use scalable_blockchain_voti.Elgamal.{range}
use scalable_blockchain_voti.Eligibility.Commitments.{
  flat, padded, bytes32_to_snark_field, hash_eligible_ballot_public_signals, chunk_hash,
  chunks_hash, compute_eligible_package_commitment, compute_proof_compatible_package_commitment,
}
use scalable_blockchain_voti.Jub.{
  BabyJub, DecimalPoint, CiphertextJson, proof_compatible_ballot_scheme, ciphertext_json_keys,
  only_keys, decimal_to_natural, normalize_point, normalize_points, point_to_naturals,
  commitment_to_bytes32, naturals_eq, assert_hex32, hash_proof_compatible_election_public_key,
  validate_ciphertext_json, digest_proof_compatible_ciphertext, check_ciphertexts, add_points,
  sum_at_place, aggregate_proof_compatible_ciphertexts,
}
use scalable_blockchain_voti.Compatible.{
  BallotProofJson, proof_json_keys, Snark, ProofCompatibleVotePackage, compatible_package_keys,
  proof_compatible_ballot_proof_system, point_json, points_json, ciphertext_json, proof_json,
  compatible_package_json, check_proof_json, hash_proof_compatible_ballot_public_signals,
  check_subgroup, check_subgroups, check_compatible_statement,
  validate_proof_compatible_vote_package, serialize_proof_compatible_vote_package,
  digest_proof_compatible_vote_package,
}
use scalable_blockchain_voti.Compatible.Batches.{
  StoredProofCompatibleVotePackage, ProofCompatibleBatchManifest, check_compatible_elections,
  compatible_leaf, compute_proof_compatible_batch_public_inputs_hash, compatible_entry,
  prepare_compatible_batch, seal_compatible_batch, build_proof_compatible_batch_manifest,
  build_proof_compatible_inclusion_receipt,
}
use scalable_blockchain_voti.Compatible.Reduced.{with_nullifier, proof_compatible_ballot_twice}
use scalable_blockchain_voti.Compatible.Accumulated.{
  build_proof_compatible_batch_manifest-IsValid, build_proof_compatible_inclusion_receipt-verifies,
}
use scalable_blockchain_voti.Examples.Toy.{toy, toy_laws}
use scalable_blockchain_voti.Examples.Ballots.{package_suite}
use scalable_blockchain_voti.Examples.Batches.{batch_suite}

unfoldable pub snark_suite : Unit {0}
unfolding package_suite batch_suite digits_before show_radix pad_start is_decimal decimal
    canonicalize stringify required hex_digits range flat padded bytes32_to_snark_field
    hash_eligible_ballot_public_signals chunk_hash chunks_hash compute_eligible_package_commitment
    compute_proof_compatible_package_commitment only_keys decimal_to_natural normalize_point
    normalize_points point_to_naturals commitment_to_bytes32 naturals_eq assert_hex32
    hash_proof_compatible_election_public_key validate_ciphertext_json
    digest_proof_compatible_ciphertext check_ciphertexts add_points sum_at_place
    aggregate_proof_compatible_ciphertexts point_json points_json ciphertext_json proof_json
    compatible_package_json check_proof_json hash_proof_compatible_ballot_public_signals
    check_subgroup check_subgroups check_compatible_statement validate_proof_compatible_vote_package
    serialize_proof_compatible_vote_package digest_proof_compatible_vote_package
    check_compatible_elections compatible_leaf compute_proof_compatible_batch_public_inputs_hash
    compatible_entry prepare_compatible_batch seal_compatible_batch
    build_proof_compatible_batch_manifest build_proof_compatible_inclusion_receipt map_result
snark_suite = tt

-- numbers for field elements, and coordinates added apart
abbrev pub plain_jub : BabyJub ℕ
plain_jub = record {
  e = λ n. n;
  to_object = λ n. n;
  neg = λ n. n;
  eq = λ m n. true;
  base8 = (1, 2);
  add_point = λ p q. (p.0 + q.0, p.1 + q.1);
  mul_point_escalar = λ p n. p;
  in_subgroup = λ p. true;
}

abbrev pub four_points : List DecimalPoint
four_points =
    (text "1", text "2") ∷ (text "3", text "4") ∷ (text "5", text "6") ∷ (text "7", text "80") ∷ []

abbrev pub numbers : List ℕ
numbers = 1 ∷ 2 ∷ 3 ∷ 4 ∷ 5 ∷ 6 ∷ 7 ∷ 80 ∷ []

abbrev pub digest_or_blank : Result Text → Text
digest_or_blank (ok t) = t
digest_or_blank (err e) = []

abbrev pub shared_ciphertext : CiphertextJson
shared_ciphertext = record {
  keys = ciphertext_json_keys;
  scheme = proof_compatible_ballot_scheme;
  election_public_key_hash =
      digest_or_blank (hash_proof_compatible_election_public_key toy (9, 10));
  election_public_key = (text "9", text "10");
  c1 = four_points;
  c2 = four_points;
}

abbrev pub five_bytes : Text
five_bytes = text "0x0000000000000000000000000000000000000000000000000000000000000005"

-- five and the scalar field
abbrev pub five_beyond : Text
five_beyond = text "0x30644E72E131A029B85045B68181585D2833E84879B9709143E1F593F0000006"

abbrev pub seven_bytes : Text
seven_bytes = text "0x0000000000000000000000000000000000000000000000000000000000000007"

abbrev compatible_signals : List ℕ
compatible_signals = 7 ∷ 7 ∷ 5 ∷ 7 ∷ 9 ∷ 10 ∷ (numbers ++ numbers)

abbrev compatible_snark : Snark
compatible_snark = record {
  poseidon = λ l. 7;
  decode_proof = λ n s. ok (record {
    p_a = (1, 2);
    p_b = ((1, 2), (3, 4));
    p_c = (1, 2);
    public_signals = compatible_signals;
  });
  groth16_verify = λ k e. ok true;
}

abbrev pub proof_of : Text → Text → BallotProofJson
proof_of system hash = record {
  keys = proof_json_keys;
  system = system;
  proof = text "0xAB";
  public_inputs_hash = hash;
}

abbrev compatible_package : ProofCompatibleVotePackage
compatible_package = record {
  keys = compatible_package_keys;
  version = 2;
  election_id = seven_bytes;
  candidate_list_hash = seven_bytes;
  ballot_nullifier = five_bytes;
  package_commitment = seven_bytes;
  ciphertext = shared_ciphertext;
  ballot_validity_proof =
      proof_of proof_compatible_ballot_proof_system
        (digest_or_blank (hash_proof_compatible_ballot_public_signals toy compatible_signals));
}

abbrev or_package :
    ProofCompatibleVotePackage → Result ProofCompatibleVotePackage → ProofCompatibleVotePackage
or_package p (ok q) = q
or_package p (err e) = p

abbrev accepted : ProofCompatibleVotePackage
accepted =
    or_package compatible_package
      (validate_proof_compatible_vote_package plain_jub toy compatible_snark compatible_package)

accepted_is :
    validate_proof_compatible_vote_package plain_jub toy compatible_snark compatible_package
    ≡ ok accepted
unfolding snark_suite
accepted_is = refl

pub empty_accumulator-IsValid : IsValid toy empty_accumulator
empty_accumulator-IsValid = record { unique = tt; digests = tt }

proof_compatible_ballot_twice_example :
    (validate_proof_compatible_vote_package plain_jub toy compatible_snark
        (with_nullifier compatible_package five_beyond)
      ≡ ok (with_nullifier accepted (lower five_beyond)))
    × ((add_many toy (accepted.ballot_nullifier ∷ lower five_beyond ∷ []) empty_accumulator).0
        ≡ ok tt)
unfolding snark_suite
proof_compatible_ballot_twice_example =
    proof_compatible_ballot_twice toy compatible_snark plain_jub toy_laws compatible_package
      accepted five_beyond empty_accumulator empty_accumulator-IsValid accepted_is refl refl
      (refl, (refl, tt))

abbrev compatible_stored : List StoredProofCompatibleVotePackage
compatible_stored =
    record { content_id = text "cid"; vote_package = compatible_package }
    ∷ record {
      content_id = text "cid";
      vote_package = with_nullifier compatible_package five_beyond;
    }
    ∷ []

-- two other callers, which add a nullifier each
abbrev pub callers : Others
callers = record {
  validating = λ a. (add_many toy (seven_bytes ∷ []) a).1;
  summing = λ a. (add_many toy (zero_hash ∷ []) a).1;
}

pub callers-IsCalling : IsCalling toy callers
callers-IsCalling = record {
  validating_grows = λ a. called (seven_bytes ∷ []) untouched;
  summing_grows = λ a. called (zero_hash ∷ []) untouched;
}

abbrev compatible_run : Result ProofCompatibleBatchManifest × NullifierAccumulator
compatible_run =
    build_proof_compatible_batch_manifest toy compatible_snark plain_jub callers seven_bytes
      zero_hash compatible_stored empty_accumulator

no_manifest : ProofCompatibleBatchManifest
no_manifest = record {
  version = 0;
  election_id = [];
  previous_nullifier_root = [];
  nullifier_root = [];
  cid_merkle_root = [];
  manifest_digest = [];
  batch_public_inputs_hash = [];
  batch_size = 0;
  aggregate_ciphertext = shared_ciphertext;
  aggregate_ciphertext_digest = [];
  package_digests = [];
  package_leaf_hashes = [];
  ballot_nullifiers = [];
}

abbrev or_none : Result ProofCompatibleBatchManifest → ProofCompatibleBatchManifest
or_none (ok m) = m
or_none (err e) = no_manifest

abbrev compatible_manifest : ProofCompatibleBatchManifest
compatible_manifest = or_none compatible_run.0

-- one ballot, in the batch under two nullifiers
compatible_built : compatible_run ≡ (ok compatible_manifest, compatible_run.1)
unfolding snark_suite
compatible_built = refl

abbrev quiet : Others
quiet = record { validating = λ a. a; summing = λ a. a }

abbrev one_batch : Others → Text → Result ProofCompatibleBatchManifest × NullifierAccumulator
one_batch others nullifier =
    build_proof_compatible_batch_manifest toy compatible_snark plain_jub others seven_bytes
      zero_hash
      (record {
        content_id = text "cid";
        vote_package = with_nullifier compatible_package nullifier;
      }
        ∷ [])
      empty_accumulator

-- the whole of another build, while the packages of this one are validated
abbrev overlapping : Others
overlapping = record { validating = λ a. (one_batch quiet five_bytes).1; summing = λ a. a }

-- Both return, and both go on from the root of the empty accumulator.
overlapping_builds :
    ((one_batch quiet five_bytes).0 ≡ ok (or_none (one_batch quiet five_bytes).0))
    × ((one_batch overlapping five_beyond).0 ≡ ok (or_none (one_batch overlapping five_beyond).0))
    × ((or_none (one_batch quiet five_bytes).0).previous_nullifier_root
        ≡ (or_none (one_batch overlapping five_beyond).0).previous_nullifier_root)
unfolding snark_suite
overlapping_builds = (refl, refl, refl)

build_proof_compatible_batch_manifest-IsValid_example :
    (root toy empty_accumulator ≡ ok compatible_manifest.previous_nullifier_root)
    × (root toy compatible_run.1 ≡ ok compatible_manifest.nullifier_root)
    × (added : NullifierAccumulator) × (added.seen
        ≡ seven_bytes ∷ map lower compatible_manifest.ballot_nullifiers)
    × (callers.summing added ≡ compatible_run.1)
    × IsValid toy compatible_run.1
unfolding snark_suite
build_proof_compatible_batch_manifest-IsValid_example =
    build_proof_compatible_batch_manifest-IsValid toy toy_laws compatible_snark plain_jub callers
      seven_bytes zero_hash compatible_stored empty_accumulator compatible_manifest compatible_run.1
      callers-IsCalling empty_accumulator-IsValid compatible_built

build_proof_compatible_inclusion_receipt-verifies_example :
    (r : PackageInclusionReceipt) × (build_proof_compatible_inclusion_receipt toy compatible_snark
        plain_jub compatible_manifest compatible_package
      ≡ ok r)
    × (digest_proof_compatible_vote_package plain_jub toy compatible_snark compatible_package
        ≡ ok r.package_digest)
    × (r.batch_manifest_digest ≡ compatible_manifest.manifest_digest)
    × (verify_merkle_proof toy r.leaf_hash r.proof compatible_manifest.cid_merkle_root ≡ ok true)
build_proof_compatible_inclusion_receipt-verifies_example =
    build_proof_compatible_inclusion_receipt-verifies toy toy_laws compatible_snark plain_jub
      callers seven_bytes zero_hash compatible_stored empty_accumulator compatible_manifest
      compatible_run.1 0 (record { content_id = text "cid"; vote_package = compatible_package })
      compatible_built refl
