-- ===== src/Eligibility/Commitments.antt =====
-- The nullifier and the package commitments of packages/crypto/src/eligibleBallot.ts and
-- packages/crypto/src/proofCompatibleBallot.ts.
use scalable_blockchain_voti.Prelude.{
  ℕ, zero, suc, ◌*◌, ◌%◌, ◌&&◌, not, List, [], ◌∷◌, ◌++◌, length, take, drop, ◌==◌,
}
use scalable_blockchain_voti.Outcome.{assertion, unlabelled, Result, ok, guard, ◌>>=◌, ◌>>◌}
use scalable_blockchain_voti.Js.Texts.{Text, lower}
use scalable_blockchain_voti.Viem.{Viem, uint_array, bytes32, domain_hash, hash_abi}
use scalable_blockchain_voti.Tally.Shares.{hex_digits}

abbrev pub snark_scalar_field : ℕ
snark_scalar_field = 21888242871839275222246405745257275088548364400416034343698204186575808495617

abbrev pub proof_compatible_candidate_count : ℕ
proof_compatible_candidate_count = 4

abbrev pub eligible_ballot_nullifier_domain : ℕ
eligible_ballot_nullifier_domain = 2026071301

abbrev pub BabyJubPoint : Type 0
BabyJubPoint = ℕ × ℕ

-- 23 field elements
abbrev pub EligibleBallotPublicSignals : Type 0
EligibleBallotPublicSignals = List ℕ

-- points.flat()
unfoldable pub flat : List BabyJubPoint → List ℕ
flat [] = []
flat ((x, y) ∷ points) = x ∷ y ∷ flat points

-- `while (chunk.length < n) chunk.push(0n)`, of a chunk no longer than n
unfoldable pub padded : ℕ → List ℕ → List ℕ
padded zero chunk = chunk
padded (suc n) [] = 0 ∷ padded n []
padded (suc n) (x ∷ chunk) = x ∷ padded n chunk

module _ (v : Viem) where
  unfoldable pub bytes32_to_snark_field : Text → Result ℕ
  bytes32_to_snark_field value = do
    guard (v.is_hex value && length value == 66) (assertion "value must be a bytes32 hex string")
    ok (hex_digits 0 (drop 2 (lower value)) % snark_scalar_field)

  unfoldable pub hash_eligible_ballot_public_signals : EligibleBallotPublicSignals → Result Text
  hash_eligible_ballot_public_signals public_signals = hash_abi v (
      bytes32 (domain_hash v "SVB_ELIGIBLE_BALLOT_PUBLIC_INPUTS_V1")
      ∷ uint_array 256 23 public_signals
      ∷ [])

module _ (poseidon : List ℕ → ℕ) where
  unfoldable pub compute_eligible_ballot_nullifier : Viem → Text → ℕ → Result ℕ
  compute_eligible_ballot_nullifier v election_id credential_secret = do
    guard (not (credential_secret == 0)) unlabelled
    election ← bytes32_to_snark_field v election_id
    ok (poseidon (eligible_ballot_nullifier_domain ∷ election ∷ credential_secret ∷ []))

  -- the hash of one chunk of six
  unfoldable pub chunk_hash : List ℕ → ℕ → ℕ
  chunk_hash statement leaf_index = poseidon (padded 6 (take 6 (drop (leaf_index * 6) statement)))

  unfoldable pub chunks_hash : List ℕ → ℕ
  chunks_hash statement = poseidon (
      chunk_hash statement 0
      ∷ chunk_hash statement 1
      ∷ chunk_hash statement 2
      ∷ chunk_hash statement 3
      ∷ [])

  unfoldable pub compute_eligible_package_commitment :
      (election_id candidate_list_hash eligibility_root ballot_nullifier : ℕ)
      → BabyJubPoint
      → (c1 c2 : List BabyJubPoint) → Result ℕ
  compute_eligible_package_commitment election_id candidate_list_hash eligibility_root
        ballot_nullifier (key_x, key_y) c1 c2 =
      do
        guard (length c1 == proof_compatible_candidate_count) unlabelled
        guard (length c2 == proof_compatible_candidate_count) unlabelled
        let statement =
            election_id
            ∷ candidate_list_hash
            ∷ eligibility_root
            ∷ ballot_nullifier
            ∷ key_x
            ∷ key_y
            ∷ (flat c1 ++ flat c2)
        guard (length statement == 22) unlabelled
        ok (chunks_hash statement)

  unfoldable pub compute_proof_compatible_package_commitment :
      (election_id candidate_list_hash ballot_nullifier : ℕ)
      → BabyJubPoint
      → (c1 c2 : List BabyJubPoint) → Result ℕ
  compute_proof_compatible_package_commitment election_id candidate_list_hash ballot_nullifier
        (key_x, key_y) c1 c2 =
      do
        guard (length c1 == proof_compatible_candidate_count) unlabelled
        guard (length c2 == proof_compatible_candidate_count) unlabelled
        let statement =
            election_id
            ∷ candidate_list_hash
            ∷ ballot_nullifier
            ∷ key_x
            ∷ key_y
            ∷ (flat c1 ++ flat c2)
        guard (length statement == 21) unlabelled
        ok (chunks_hash statement)
