-- ===== src/Artifacts.antt =====
-- The tally artifact of packages/crypto/src/v4.ts: `validateHeader` and `validateTallyArtifactV4`.
-- The sum of the counts is that of JavaScript's doubles.
pub mod Counted
use scalable_blockchain_voti.Prelude.{
  ℕ, ◌+◌, ◌^◌, Bool, true, false, ◌&&◌, ◌||◌, List, [], ◌∷◌, length, take, ltb, leb, ◌==◌,
}
use scalable_blockchain_voti.Outcome.{
  plain, at, assertion, unlabelled, Result, ok, guard, ◌>>=◌, ◌>>◌,
}
use scalable_blockchain_voti.Js.Texts.{Text, text, lower, text_eq}
use scalable_blockchain_voti.Js.Numbers.{Number, natural, negative, fraction, at_least, to_natural}
use scalable_blockchain_voti.Js.Doubles.{add_doubles}
use scalable_blockchain_voti.Viem.{Viem}
use scalable_blockchain_voti.Dkg.{require_bytes32}

abbrev pub tally_artifact_schema : ℕ
tally_artifact_schema = 4

-- Number.isSafeInteger
unfoldable pub is_safe : Number → Bool
is_safe (natural n) = ltb n (2 ^ 53)
is_safe (negative n) = ltb (n + 1) (2 ^ 53)
is_safe fraction = false

-- `===` with a natural number
unfoldable pub is_number : ℕ → Number → Bool
is_number m (natural n) = m == n
is_number m (negative n) = false
is_number m fraction = false

pub record ArtifactHeader : Type 0 where
  pub schema_version : Number
  pub national_election_id : Text
  pub constituency_id : Text
  pub verifier_version : Number
  pub canonical_digest : Text
  pub parent_artifact_hashes : List Text

pub record TallyArtifact : Type 0 where
  pub header : ArtifactHeader
  pub finalized_batch_accumulator : Text
  pub trustee_keyset_hash : Text
  pub dkg_transcript_hash : Text
  pub accepted_ballot_count : Number
  pub candidate_counts : List Number
  pub decryption_share_digests : List Text
  pub tally_proof : Text
  pub tally_public_inputs_hash : Text

module _ (v : Viem) where
  unfoldable pub check_parents : ℕ → List Text → Result (Unit {0})
  check_parents index [] = ok tt
  check_parents index (hash ∷ hashes) = do
    require_bytes32 v hash (at "parentArtifactHashes" index)
    check_parents (index + 1) hashes

  unfoldable pub validate_header : ArtifactHeader → Result (Unit {0})
  validate_header h = do
    guard (is_safe h.schema_version && at_least 1 h.schema_version)
        (assertion "schemaVersion must be positive")
    guard (is_safe h.verifier_version && at_least 1 h.verifier_version)
        (assertion "verifierVersion must be positive")
    require_bytes32 v h.national_election_id (plain "nationalElectionId")
    require_bytes32 v h.constituency_id (plain "constituencyId")
    require_bytes32 v h.canonical_digest (plain "canonicalDigest")
    check_parents 0 h.parent_artifact_hashes

-- the `reduce`
unfoldable pub sum_counts : (sum : ℕ) → List Number → Result ℕ
sum_counts sum [] = ok sum
sum_counts sum (count ∷ counts) = do
  guard (is_safe count && at_least 0 count) unlabelled
  sum_counts (add_doubles sum (to_natural count)) counts

module _ (v : Viem) where
  unfoldable pub validate_tally_artifact : TallyArtifact → Result TallyArtifact
  validate_tally_artifact a = do
    validate_header v a.header
    guard (is_number tally_artifact_schema a.header.schema_version)
        (assertion "unsupported tally artifact schema")
    guard (length a.candidate_counts == 4 || length a.candidate_counts == 16)
        (assertion "candidate count profile must be 4 or 16")
    total ← sum_counts 0 a.candidate_counts
    guard (is_number total a.accepted_ballot_count)
        (assertion "candidate totals must equal accepted ballot count")
    guard (leb 5 (length a.decryption_share_digests))
        (assertion "at least five trustee shares are required")
    ok a
