-- ===== src/Examples/Artifact.antt =====
-- A tally artifact of four candidates.
use scalable_blockchain_voti.Prelude.{◌≡◌, ◌≤◌, ◌^◌, refl, [], ◌∷◌, length, map, ◌-◌, All, arith}
use scalable_blockchain_voti.Outcome.{ok, err, assertion}
use scalable_blockchain_voti.Js.Texts.{text}
use scalable_blockchain_voti.Js.Numbers.{natural, at_least, to_natural}
use scalable_blockchain_voti.Js.Doubles.{nearest, rounded, add_doubles}
use scalable_blockchain_voti.Merkle.{zero_hash}
use scalable_blockchain_voti.Artifacts.{
  ArtifactHeader, TallyArtifact, is_safe, is_number, check_parents, validate_header, sum_counts,
  validate_tally_artifact,
}
use scalable_blockchain_voti.Artifacts.Counted.{total_of, IsCount, validate_tally_artifact_sums}
use scalable_blockchain_voti.Examples.Toy.{toy}
use scalable_blockchain_voti.Examples.Ceremony.{dkg_suite}

unfoldable artifact_suite : Unit {0}
unfolding dkg_suite is_safe is_number at_least to_natural nearest rounded add_doubles check_parents
    validate_header sum_counts validate_tally_artifact
artifact_suite = tt

abbrev header : ArtifactHeader
header = record {
  schema_version = natural 4;
  national_election_id = zero_hash;
  constituency_id = zero_hash;
  verifier_version = natural 1;
  canonical_digest = zero_hash;
  parent_artifact_hashes = zero_hash ∷ [];
}

abbrev tally : TallyArtifact
tally = record {
  header = header;
  finalized_batch_accumulator = zero_hash;
  trustee_keyset_hash = zero_hash;
  dkg_transcript_hash = zero_hash;
  accepted_ballot_count = natural 10;
  candidate_counts = natural 1 ∷ natural 2 ∷ natural 3 ∷ natural 4 ∷ [];
  decryption_share_digests = zero_hash ∷ zero_hash ∷ zero_hash ∷ zero_hash ∷ zero_hash ∷ [];
  tally_proof = text "0xAB";
  tally_public_inputs_hash = zero_hash;
}

abbrev too_many : TallyArtifact
too_many = record tally {
  accepted_ballot_count = natural (2 ^ 54);
  candidate_counts = natural (2 ^ 53 - 1) ∷ natural (2 ^ 53 - 1) ∷ natural 1 ∷ natural 0 ∷ [];
}

accepted : validate_tally_artifact toy tally ≡ ok tally
unfolding artifact_suite
accepted = refl

-- One ballot more than was counted.
miscounted :
    validate_tally_artifact toy (record tally { accepted_ballot_count = natural 11 })
    ≡ err (assertion "candidate totals must equal accepted ballot count")
unfolding artifact_suite
miscounted = refl

-- The counts add up to one ballot less than is accepted: the sum of doubles is rounded up to even.
rounded_up : validate_tally_artifact toy too_many ≡ ok too_many
unfolding artifact_suite
rounded_up = refl

validate_tally_artifact_sums_example :
    (tally ≡ tally)
    × (natural 10 ≡ natural (total_of (map to_natural tally.candidate_counts)))
    × All IsCount tally.candidate_counts
    × (5 ≤ length tally.decryption_share_digests)
unfolding to_natural
validate_tally_artifact_sums_example =
    validate_tally_artifact_sums toy tally tally accepted (omega arith)
