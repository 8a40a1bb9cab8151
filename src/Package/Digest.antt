-- ===== src/Package/Digest.antt =====
-- `digestVotePackage`, `digestContentId` and `hashPackageLeaf` of packages/crypto/src/index.ts.
use scalable_blockchain_voti.Prelude.{[], ◌∷◌, length, ltb}
use scalable_blockchain_voti.Outcome.{Result, ok, guard, assertion, ◌>>=◌, ◌>>◌}
use scalable_blockchain_voti.Js.Texts.{Text, trim}
use scalable_blockchain_voti.Viem.{Viem, bytes32, bytes, uint, bytes_list, domain_hash, hash_abi}
use scalable_blockchain_voti.Package.Validation.{VotePackage, validate_vote_package}

pub record StoredVotePackage : Type 0 where
  pub content_id : Text
  pub vote_package : VotePackage

module _ (v : Viem) where
  unfoldable pub digest_vote_package : VotePackage → Result Text
  digest_vote_package input = do
    vote_package ← validate_vote_package v input
    hash_abi v (
        bytes32 (domain_hash v "SVB_VOTE_PACKAGE_V1")
        ∷ uint 8 vote_package.version
        ∷ bytes32 vote_package.election_id
        ∷ bytes32 vote_package.candidate_list_hash
        ∷ bytes32 vote_package.ballot_nullifier
        ∷ bytes32 (v.keccak256 (v.string_to_hex vote_package.ciphertext.scheme))
        ∷ bytes32 vote_package.ciphertext.election_public_key_hash
        ∷ bytes_list vote_package.ciphertext.points
        ∷ bytes32 (v.keccak256 (v.string_to_hex vote_package.ballot_validity_proof.system))
        ∷ bytes vote_package.ballot_validity_proof.proof
        ∷ bytes32 vote_package.ballot_validity_proof.public_inputs_hash
        ∷ [])

  unfoldable pub digest_content_id : Text → Result Text
  digest_content_id content_id = do
    guard (ltb 0 (length (trim content_id))) (assertion "contentId cannot be empty")
    ok (v.keccak256 (v.string_to_hex (trim content_id)))

  unfoldable pub hash_package_leaf : StoredVotePackage → Result Text
  hash_package_leaf stored_package = do
    normalized ← validate_vote_package v stored_package.vote_package
    content_digest ← digest_content_id stored_package.content_id
    package_digest ← digest_vote_package normalized
    hash_abi v (
        bytes32 (domain_hash v "SVB_PACKAGE_LEAF_V1")
        ∷ bytes32 content_digest
        ∷ bytes32 package_digest
        ∷ bytes32 normalized.ballot_nullifier
        ∷ [])
