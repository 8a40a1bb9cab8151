-- ===== src/Examples/Eligibles.antt =====
-- A package and a batch of the eligible pipeline, with toy libraries.
use scalable_blockchain_voti.Prelude.{
  ℕ, ◌≡◌, refl, true, List, [], ◌∷◌, ◌++◌, map, length, take, drop, All, arith,
}
use scalable_blockchain_voti.Outcome.{Result, ok, err, labelled, plain}
use scalable_blockchain_voti.Js.Texts.{Text, text, lower}
use scalable_blockchain_voti.Merkle.{zero_hash, verify_merkle_proof}
use scalable_blockchain_voti.Nullifiers.{NullifierAccumulator, empty_accumulator, root}
use scalable_blockchain_voti.Nullifiers.Adding.{IsValid}
use scalable_blockchain_voti.Batch.{PackageInclusionReceipt}
use scalable_blockchain_voti.Eligibility.Commitments.{hash_eligible_ballot_public_signals}
use scalable_blockchain_voti.Compatible.{Snark, ProofEnvelope}
use scalable_blockchain_voti.Eligible.{
  EligibleVotePackage, eligible_package_keys, eligible_ballot_proof_system, eligible_package_json,
  assert_canonical_field, check_eligible_statement, validate_eligible_vote_package,
  serialize_eligible_vote_package, digest_eligible_vote_package, verify_eligible_vote_package_proof,
}
use scalable_blockchain_voti.Eligible.Batches.{
  StoredEligibleVotePackage, EligibleBatchManifest, eligible_leaf,
  compute_eligible_batch_public_inputs_hash, eligible_entry, check_eligible_entries, sort_eligible,
  prepare_eligible_batch, seal_eligible_batch, build_eligible_batch_manifest,
  build_eligible_inclusion_receipt,
}
use scalable_blockchain_voti.Eligible.Bound.{
  is_hex_unit, IsStrict, validate_eligible_vote_package_binds,
}
use scalable_blockchain_voti.Eligible.Accumulated.{
  build_eligible_batch_manifest-IsValid, build_eligible_inclusion_receipt-verifies,
  build_eligible_batch_manifest-verified,
}
use scalable_blockchain_voti.Examples.Toy.{toy, toy_laws, strict_hex, are_digits, is_digit}
use scalable_blockchain_voti.Examples.Snarks.{
  snark_suite, plain_jub, numbers, digest_or_blank, shared_ciphertext, five_bytes, five_beyond,
  seven_bytes, proof_of, empty_accumulator-IsValid, callers, callers-IsCalling,
}

digits_strict : (s : Text) → are_digits s ≡ true → All (λ c. is_hex_unit c ≡ true) s
unfolding are_digits is_digit
digits_strict [] h = tt
digits_strict (c ∷ s) h = (ground (arith, h), digits_strict s (ground (arith, h)))

toy_prefix : (s : Text) → strict_hex s ≡ true → take 2 s ≡ text "0x"
unfolding strict_hex text
toy_prefix [] h = cc
toy_prefix (c ∷ []) h = cc
toy_prefix (c ∷ d ∷ s) h = ground (arith, h)

toy_digits : (s : Text) → strict_hex s ≡ true → All (λ c. is_hex_unit c ≡ true) (drop 2 s)
unfolding strict_hex
toy_digits [] h = cc
toy_digits (c ∷ []) h = cc
toy_digits (c ∷ d ∷ s) h = digits_strict s (ground (arith, h))

toy-IsStrict : IsStrict toy
toy-IsStrict = record { strict_prefix = toy_prefix; strict_digits = toy_digits }

unfoldable eligible_suite : Unit {0}
unfolding snark_suite eligible_package_json assert_canonical_field check_eligible_statement
    validate_eligible_vote_package serialize_eligible_vote_package digest_eligible_vote_package
    verify_eligible_vote_package_proof eligible_leaf compute_eligible_batch_public_inputs_hash
    eligible_entry check_eligible_entries sort_eligible prepare_eligible_batch seal_eligible_batch
    build_eligible_batch_manifest build_eligible_inclusion_receipt
eligible_suite = tt

abbrev eligible_signals : List ℕ
eligible_signals = 7 ∷ 7 ∷ 7 ∷ 5 ∷ 7 ∷ 9 ∷ 10 ∷ (numbers ++ numbers)

abbrev eligible_proof : Text → ProofEnvelope
eligible_proof s = record {
  p_a = (length s, 2);
  p_b = ((1, 2), (3, 4));
  p_c = (1, 2);
  public_signals = eligible_signals;
}

abbrev eligible_snark : Snark
eligible_snark = record {
  poseidon = λ l. 7;
  decode_proof = λ n s. ok (eligible_proof s);
  groth16_verify = λ k e. ok true;
}

abbrev eligible_package : Text → EligibleVotePackage
eligible_package nullifier = record {
  keys = eligible_package_keys;
  version = 3;
  election_id = seven_bytes;
  candidate_list_hash = seven_bytes;
  eligibility_root = seven_bytes;
  ballot_nullifier = nullifier;
  package_commitment = seven_bytes;
  ciphertext = shared_ciphertext;
  ballot_validity_proof =
      proof_of eligible_ballot_proof_system
        (digest_or_blank (hash_eligible_ballot_public_signals toy eligible_signals));
}

abbrev or_package : EligibleVotePackage → Result EligibleVotePackage → EligibleVotePackage
or_package p (ok q) = q
or_package p (err e) = p

abbrev accepted : EligibleVotePackage
accepted =
    or_package (eligible_package five_bytes)
      (validate_eligible_vote_package plain_jub toy eligible_snark (eligible_package five_bytes))

accepted_is :
    validate_eligible_vote_package plain_jub toy eligible_snark (eligible_package five_bytes)
    ≡ ok accepted
unfolding eligible_suite
accepted_is = refl

beyond_refused :
    validate_eligible_vote_package plain_jub toy eligible_snark (eligible_package five_beyond)
    ≡ err (labelled (plain "ballotNullifier") "is not canonical")
unfolding eligible_suite
beyond_refused = refl

-- the same ballot with another proof of the same statement
abbrev proved_again : EligibleVotePackage
proved_again = record (eligible_package five_bytes) {
  ballot_validity_proof = record (eligible_package five_bytes).ballot_validity_proof {
    proof = text "0xABCDEF";
  };
}

abbrev accepted_again : EligibleVotePackage
accepted_again =
    or_package proved_again
      (validate_eligible_vote_package plain_jub toy eligible_snark proved_again)

accepted_again_is :
    validate_eligible_vote_package plain_jub toy eligible_snark proved_again ≡ ok accepted_again
unfolding eligible_suite
accepted_again_is = refl

validate_eligible_vote_package_binds_example :
    (accepted.ballot_nullifier ≡ accepted_again.ballot_nullifier)
    × (accepted.eligibility_root ≡ accepted_again.eligibility_root)
validate_eligible_vote_package_binds_example =
    validate_eligible_vote_package_binds plain_jub toy eligible_snark toy-IsStrict
      (eligible_package five_bytes) proved_again accepted accepted_again accepted_is
      accepted_again_is (eligible_proof (text "0xAB")) (eligible_proof (text "0xABCDEF")) refl refl
      refl

abbrev stored : StoredEligibleVotePackage
stored = record { content_id = text " cid"; vote_package = eligible_package five_bytes }

abbrev run : Result EligibleBatchManifest × NullifierAccumulator
run =
    build_eligible_batch_manifest toy eligible_snark plain_jub callers seven_bytes seven_bytes
      zero_hash (text "key") (stored ∷ []) empty_accumulator

no_manifest : EligibleBatchManifest
no_manifest = record {
  version = 0;
  verification_mode = [];
  election_id = [];
  candidate_list_hash = [];
  eligibility_root = [];
  election_public_key_hash = [];
  previous_nullifier_root = [];
  nullifier_root = [];
  cid_merkle_root = [];
  manifest_digest = [];
  batch_public_inputs_hash = [];
  batch_size = 0;
  aggregate_ciphertext = shared_ciphertext;
  aggregate_ciphertext_digest = [];
  package_digests = [];
  package_leaf_hashes = [];
  ballot_nullifiers = [];
  ballot_proof_public_inputs_hashes = [];
}

abbrev or_none : Result EligibleBatchManifest → EligibleBatchManifest
or_none (ok m) = m
or_none (err e) = no_manifest

abbrev manifest : EligibleBatchManifest
manifest = or_none run.0

built : run ≡ (ok manifest, run.1)
unfolding eligible_suite
built = refl

build_eligible_batch_manifest-IsValid_example :
    (root toy empty_accumulator ≡ ok manifest.previous_nullifier_root)
    × (root toy run.1 ≡ ok manifest.nullifier_root)
    × (added : NullifierAccumulator) × (added.seen
        ≡ seven_bytes ∷ map lower manifest.ballot_nullifiers)
    × (callers.summing added ≡ run.1)
    × IsValid toy run.1
unfolding eligible_suite
build_eligible_batch_manifest-IsValid_example =
    build_eligible_batch_manifest-IsValid toy toy_laws eligible_snark plain_jub callers seven_bytes
      seven_bytes zero_hash (text "key") (stored ∷ []) empty_accumulator manifest run.1
      callers-IsCalling empty_accumulator-IsValid built

build_eligible_inclusion_receipt-verifies_example :
    (r : PackageInclusionReceipt) × (build_eligible_inclusion_receipt toy eligible_snark plain_jub
        manifest stored.vote_package
      ≡ ok r)
    × (digest_eligible_vote_package plain_jub toy eligible_snark stored.vote_package
        ≡ ok r.package_digest)
    × (r.batch_manifest_digest ≡ manifest.manifest_digest)
    × (verify_merkle_proof toy r.leaf_hash r.proof manifest.cid_merkle_root ≡ ok true)
build_eligible_inclusion_receipt-verifies_example =
    build_eligible_inclusion_receipt-verifies toy toy_laws eligible_snark plain_jub callers
      seven_bytes seven_bytes zero_hash (text "key") (stored ∷ []) empty_accumulator manifest run.1
      0 stored built refl

build_eligible_batch_manifest-verified_example :
    (q : EligibleVotePackage) × (validate_eligible_vote_package plain_jub toy eligible_snark
        stored.vote_package
      ≡ ok q)
    × (q.election_id ≡ lower seven_bytes)
    × (q.eligibility_root ≡ lower seven_bytes)
    × (verify_eligible_vote_package_proof plain_jub toy eligible_snark q (text "key") ≡ ok true)
build_eligible_batch_manifest-verified_example =
    build_eligible_batch_manifest-verified toy toy_laws eligible_snark plain_jub callers seven_bytes
      seven_bytes zero_hash (text "key") (stored ∷ []) empty_accumulator manifest run.1 0 stored
      built refl
