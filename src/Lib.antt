-- ===== src/Lib.antt =====
-- Verification library of the voting pipeline: packages/crypto/src.
--
-- The pipeline takes encrypted ballots as vote packages, collects them in batches whose Merkle root
-- and nullifier root go to the contracts, gives every voter a receipt that the package is in its
-- batch, and binds the tally to the accepted batches by hashes. The trustees' key comes from a
-- ceremony whose signed contributions a coordinator collects. The right to vote is membership in a
-- tree of credential commitments.
--
-- Where each part is modelled, with the functions of packages/crypto/src/index.ts unless another
-- file is named:
--   Merkle       hashMerklePair, merkleRoot, merkleProof, verifyMerkleProof
--   Nullifiers   the class NullifierAccumulator, nullifierSetRoot
--   Package      exactKeys, validateCiphertext, validateVotePackage, digestVotePackage,
--                hashPackageLeaf and their checks (children Points, Ciphertext, Validation, Digest)
--   Batch        buildBatchManifest, buildInclusionReceipt, computeBatchPublicInputsHash
--   Tally        computeTallyResultHash, computeTallyProofPublicInputsHash and the other hashes of
--                a tally and a registration; its child Shares has the checks, the digest and
--                the proof challenge of a decryption share
--   Curve        the points that index.ts takes from @noble/curves; its child Laws states what is
--                taken for granted of them
--   Elgamal      encryptBallotSelection, aggregateBallotCiphertexts, decryptBallotSelection,
--                decryptAggregatedTally and the election key pair (child Decryption)
--   Threshold    createThresholdElectionKeyShares, modInverse, lagrangeCoefficientAtZero; its child
--                Shares has the decryption shares and decryptAggregatedTallyWithShares
--   Dkg          packages/crypto/src/dkg.ts: contributions and their signatures; its child
--                Coordinator is the class DkgTranscriptCoordinatorV1
--   Eligibility  packages/crypto/src/eligibleBallot.ts: buildEligibilityMembership; its child
--                Commitments has the nullifier and the package commitments, those of
--                packages/crypto/src/proofCompatibleBallot.ts too
--   Jub          packages/crypto/src/proofCompatiblePipeline.ts: ciphertexts over Baby Jubjub, which
--                both pipelines below use, and their decryption; its children Keys, Shares and
--                Decryption are packages/crypto/src/proofCompatibleThreshold.ts
--   Compatible   the same file: vote packages; its child Batches has manifests and receipts
--   Eligible     packages/crypto/src/eligiblePipeline.ts, in the same way
--   Artifacts    packages/crypto/src/v4.ts: validateHeader, validateTallyArtifactV4
--   Sponsorship  packages/crypto/src/sponsoredUserOperation.ts
-- The children of these modules prove; Examples runs the definitions on concrete values. Prelude,
-- Outcome and Js carry what the components share: lists and numbers, thrown errors as values, and
-- JavaScript's strings, sets, sorting and JSON.
--
-- Names are the source's in snake_case, its types without the suffix V1. A function that may throw
-- returns a `Result`; a method that changes an object is `Stateful`: the state comes back beside
-- the error too, so what was written before a throw stays written. A `Set` or a `Map` is a list in
-- the order of insertion. Strings are lists of code units, of which `toLowerCase` changes the ASCII
-- letters, as it does for hex.
--
-- The builders of the two later pipelines are asynchronous. What others do to the accumulator while
-- such a builder awaits, once before its `addMany` and once after, is its argument `Others`: two
-- functions, of which the theorems on the accumulator suppose calls of `addMany` only. The state
-- beside an error is then that of the accumulator when the promise is settled. Packages are
-- validated at once, since this neither reads nor changes the accumulator. The builder of version 1
-- and the class DkgTranscriptCoordinatorV1 are synchronous.
--
-- The `while` loops of `merkleRoot` and `merkleProof` take the number of leaves for fuel; a level
-- has at most half as many nodes, rounded up, so one round per leaf is enough, which the theorems
-- that they return show. The `while` loop of `modInverse` takes `low` for fuel, which falls in each
-- round. The other loops are recursions on a list or on the depth.
--
-- Parameters, since their code is not part of the repository: keccak256, the ABI encoding, `isHex`,
-- `isAddress` and `localeCompare` (the record `Viem`; `Viem.Laws` names what is taken for granted),
-- secp256k1 signatures (`Signatures`) and points (`Curve`), Baby Jubjub (`BabyJub`), and Poseidon
-- with the proof decoder and verifier (`Snark`). Random private keys are a function of the place.
-- Binding theorems give either equality or a collision of keccak256, never that there is none.
--
-- Trustee indexes, rounds, tree indexes and field elements are natural numbers, as the types of the
-- source intend; fractions are told apart only where the source tests for them. So are the threshold
-- and the largest count of decryptProofCompatibleTallyWithShares, which the source does not check: a
-- negative threshold would slice from the end. The sum of a tally artifact is that of doubles
-- (`Js.Doubles`), rounded as JavaScript rounds; its 971 rounds of doubling reach the largest double.
--
-- Not modelled: parsing of JSON text (parseVotePackageJson and its like), the encryption and the
-- witnesses of proofCompatibleBallot.ts and eligibleBallot.ts, the canonical JSON of version 4,
-- scripts/ and ignition/ (files, network and deployment), the contracts, the circuits, the recursive
-- prover and the demo page. `BigInt` reads decimal digits only.
pub mod Prelude
pub mod Js
pub mod Outcome
pub mod Viem
pub mod Merkle
pub mod Nullifiers
pub mod Package
pub mod Batch
pub mod Dkg
pub mod Eligibility
pub mod Tally
pub mod Artifacts
pub mod Sponsorship
pub mod Curve
pub mod Elgamal
pub mod Threshold
pub mod Jub
pub mod Compatible
pub mod Eligible
pub mod Examples
