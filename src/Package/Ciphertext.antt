-- ===== src/Package/Ciphertext.antt =====
-- `BallotCiphertextV1`, `validateCiphertext` and `digestBallotCiphertext` of
-- packages/crypto/src/index.ts.
use scalable_blockchain_voti.Prelude.{◌%◌, ◌&&◌, List, [], ◌∷◌, map, length, ◌==◌, leb}
use scalable_blockchain_voti.Outcome.{plain, Result, ok, guard, assertion, ◌>>=◌, ◌>>◌}
use scalable_blockchain_voti.Js.Texts.{Text, text, lower, text_eq}
use scalable_blockchain_voti.Viem.{Viem, bytes32, bytes_list, assert_bytes32, domain_hash, hash_abi}
use scalable_blockchain_voti.Package.Points.{exact_keys, assert_points}

unfoldable pub ballot_ciphertext_scheme : Text
ballot_ciphertext_scheme = text "ec-elgamal-secp256k1-compressed-points-v1"

unfoldable pub ciphertext_keys : List Text
ciphertext_keys = text "scheme" ∷ text "electionPublicKeyHash" ∷ text "points" ∷ []

pub record BallotCiphertext : Type 0 where
  pub keys : List Text
  pub scheme : Text
  pub election_public_key_hash : Text
  pub points : List Text

module _ (v : Viem) where
  unfoldable pub validate_ciphertext : BallotCiphertext → Result BallotCiphertext
  validate_ciphertext input = do
    exact_keys input.keys ciphertext_keys (plain "ciphertext")
    guard (text_eq input.scheme ballot_ciphertext_scheme)
        (assertion "unsupported ciphertext scheme")
    assert_bytes32 v input.election_public_key_hash (plain "electionPublicKeyHash")
    guard (leb 4 (length input.points) && length input.points % 2 == 0)
        (assertion "ciphertext.points must contain c1/c2 pairs for at least two candidates")
    assert_points v "ciphertext.points" 0 input.points
    ok (record {
      keys = ciphertext_keys;
      scheme = ballot_ciphertext_scheme;
      election_public_key_hash = lower input.election_public_key_hash;
      points = map lower input.points;
    })

  unfoldable pub digest_ballot_ciphertext : BallotCiphertext → Result Text
  digest_ballot_ciphertext input = do
    ciphertext ← validate_ciphertext input
    hash_abi v (
        bytes32 (domain_hash v "SVB_BALLOT_CIPHERTEXT_V1")
        ∷ bytes32 (v.keccak256 (v.string_to_hex ciphertext.scheme))
        ∷ bytes32 ciphertext.election_public_key_hash
        ∷ bytes_list ciphertext.points
        ∷ [])
