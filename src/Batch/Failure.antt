-- ===== src/Batch/Failure.antt =====
-- What a batch that is refused leaves behind.
use mathlib.Core.List.{map-append}
use scalable_blockchain_voti.Prelude.{◌≡◌, refl, false, ◌&&◌, not, List, ◌∷◌, ◌++◌, map}
use scalable_blockchain_voti.Outcome.{Error, ok, err}
use scalable_blockchain_voti.Js.Texts.{Text, lower}
use scalable_blockchain_voti.Js.Sets.{member}
use scalable_blockchain_voti.Viem.{Viem, is_bytes32}
use scalable_blockchain_voti.Nullifiers.{NullifierAccumulator, add_many}
use scalable_blockchain_voti.Nullifiers.Adding.{add_error, add_many_partial}
use scalable_blockchain_voti.Package.Digest.{StoredVotePackage}
use scalable_blockchain_voti.Batch.{prepare_batch, build_batch_manifest}
use scalable_blockchain_voti.Batch.Built.{nullifiers_of}

module _ (v : Viem) (election_id previous : Text) (stored : List StoredVotePackage)
    (before : NullifierAccumulator) where
  -- A batch that is refused before its nullifiers are added leaves the accumulator as it was.
  refused_early :
      (e : Error)
      → prepare_batch v election_id previous stored before ≡ err e
      → build_batch_manifest v election_id previous stored before ≡ (err e, before)
  unfolding build_batch_manifest
  refused_early e h = rw h refl

  -- When the sorted packages hold one whose nullifier is refused, after others whose nullifiers are
  -- taken, then `buildBatchManifest` throws, and the accumulator keeps the nullifiers of those others:
  -- it is not the accumulator that the batch was to go on from.
  pub refused_batch_keeps :
      (good : List StoredVotePackage) (bad : StoredVotePackage) (rest : List StoredVotePackage)
      → prepare_batch v election_id previous stored before ≡ ok (good ++ bad ∷ rest)
      → (add_many v (nullifiers_of good) before).0 ≡ ok tt
      → (is_bytes32 v bad.vote_package.ballot_nullifier
          && not (
              member
                (lower bad.vote_package.ballot_nullifier)
                (before.seen ++ map lower (nullifiers_of good))))
        ≡ false
      → build_batch_manifest v election_id previous stored before ≡ (
        err (add_error v bad.vote_package.ballot_nullifier),
        record { seen = before.seen ++ map lower (nullifiers_of good) },
      )
  unfolding build_batch_manifest
  refused_batch_keeps good bad rest h taken refused =
      let split : nullifiers_of (good ++ bad ∷ rest)
          ≡ nullifiers_of good ++ (bad.vote_package.ballot_nullifier ∷ nullifiers_of rest) =
        map-append _ good (bad ∷ rest) in
      rw
        (
          h,
          split,
          add_many_partial v (nullifiers_of good) bad.vote_package.ballot_nullifier
              (nullifiers_of rest) before taken refused,
        )
        refl
