-- ===== src/Examples/Tallies.antt =====
-- A tally of two candidates, with its election in upper and in lower case.
use scalable_blockchain_voti.Prelude.{◌≡◌, refl, ◌⊎◌, [], ◌∷◌, map}
use scalable_blockchain_voti.Outcome.{Result, ok, err, labelled, at}
use scalable_blockchain_voti.Js.Texts.{Text, lower}
use scalable_blockchain_voti.Js.Numbers.{natural, negative, to_natural}
use scalable_blockchain_voti.Viem.{assert_address}
use scalable_blockchain_voti.Viem.Laws.{Collision}
use scalable_blockchain_voti.Batch.{normalize_all}
use scalable_blockchain_voti.Tally.{
  TallyResult, TallyProofInputs, check_counts, compute_tally_result_hash,
  compute_tally_proof_public_inputs_hash, compute_registration_public_inputs_hash,
  hash_election_public_key, compute_encrypted_tally_public_inputs_hash,
}
use scalable_blockchain_voti.Tally.Binding.{compute_tally_result_hash_binds, tally_proof_of_result}
use scalable_blockchain_voti.Examples.Toy.{toy, toy_laws, toy-IsInjective}
use scalable_blockchain_voti.Examples.Trees.{leaf_a, leaf_b, leaf_c}
use scalable_blockchain_voti.Examples.Ballots.{package_suite, ballot}

unfoldable tally_suite : Unit {0}
unfolding package_suite assert_address normalize_all check_counts hash_election_public_key
    compute_registration_public_inputs_hash compute_tally_result_hash
    compute_tally_proof_public_inputs_hash compute_encrypted_tally_public_inputs_hash
tally_suite = tt

abbrev tally : Text → TallyResult
tally election = record {
  election_id = election;
  candidate_list_hash = leaf_b;
  election_public_key_hash = leaf_c;
  aggregate_ciphertext = ballot;
  tally_counts = natural 3 ∷ natural 5 ∷ [];
  decryption_share_digests = leaf_a ∷ [];
}

abbrev or_blank : Result Text → Text
or_blank (ok t) = t
or_blank (err e) = []

abbrev result : Text
result = or_blank (compute_tally_result_hash toy (tally leaf_a))

hashed_upper : compute_tally_result_hash toy (tally leaf_a) ≡ ok result
unfolding tally_suite
hashed_upper = refl

hashed_lower : compute_tally_result_hash toy (tally (lower leaf_a)) ≡ ok result
unfolding tally_suite
hashed_lower = refl

negative_refused :
    check_counts 0 (natural 3 ∷ negative 0 ∷ [])
    ≡ err (labelled (at "tallyCounts" 1) "cannot be negative")
unfolding tally_suite
negative_refused = refl

abbrev inputs : TallyProofInputs
inputs = record {
  tally = tally leaf_a;
  accepted_batch_manifest_digests = leaf_b ∷ [];
  accepted_batch_public_inputs_hashes = leaf_c ∷ [];
  result_hash = result;
}

abbrev proof_hash : Text
proof_hash = or_blank (compute_tally_proof_public_inputs_hash toy inputs)

proof_hashed : compute_tally_proof_public_inputs_hash toy inputs ≡ ok proof_hash
unfolding tally_suite
proof_hashed = refl

compute_tally_result_hash_binds_example :
    ((map to_natural (tally leaf_a).tally_counts
        ≡ map to_natural (tally (lower leaf_a)).tally_counts)
      × (lower leaf_a ≡ lower (lower leaf_a))
      × (lower leaf_b ≡ lower leaf_b))
    ⊎ Collision toy
compute_tally_result_hash_binds_example =
    compute_tally_result_hash_binds toy toy_laws toy-IsInjective (tally leaf_a)
      (tally (lower leaf_a)) result hashed_upper hashed_lower

tally_proof_of_result_example : compute_tally_result_hash toy (tally leaf_a) ≡ ok (lower result)
tally_proof_of_result_example = tally_proof_of_result toy inputs proof_hash proof_hashed
