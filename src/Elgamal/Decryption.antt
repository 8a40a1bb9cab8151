-- ===== src/Elgamal/Decryption.antt =====
-- The decryption of packages/crypto/src/index.ts: `buildTallyLookup`, `decryptCiphertextCounts`,
-- `decryptBallotSelection` and `decryptAggregatedTally`.
use scalable_blockchain_voti.Prelude.{
  ℕ, ◌+◌, ◌*◌, ◌/◌, Option, none, some, List, [], ◌∷◌, length, if◌then◌else◌,
}
use scalable_blockchain_voti.Outcome.{
  plain, at, assertion, Result, ok, guard, ◌>>=◌, ◌>>◌, map_result,
}
use scalable_blockchain_voti.Js.Texts.{Text, text, lower, text_eq}
use scalable_blockchain_voti.Js.Numbers.{Number, is_integer, at_least, to_natural}
use scalable_blockchain_voti.Viem.{Viem}
use scalable_blockchain_voti.Package.Ciphertext.{BallotCiphertext, validate_ciphertext}
use scalable_blockchain_voti.Dkg.Coordinator.{required}
use scalable_blockchain_voti.Tally.{hash_election_public_key}
use scalable_blockchain_voti.Tally.Shares.{scalar_from_private_key}
use scalable_blockchain_voti.Curve.{Curve, subtract, point_to_hex}
use scalable_blockchain_voti.Elgamal.{range, derive_election_public_key, point_at}

-- Map.get
unfoldable pub find_count : Text → List (Text × ℕ) → Option ℕ
find_count key [] = none
find_count key ((k, n) ∷ entries) = if text_eq k key then some n else find_count key entries

module _ {Point : Type 0} (v : Viem) (c : Curve Point) where
  -- the loop that fills the lookup; the entry set last is found first
  unfoldable pub fill_lookup : List ℕ → List (Text × ℕ) → Result (List (Text × ℕ))
  fill_lookup [] entries = ok entries
  fill_lookup (count ∷ counts) entries = do
    point ← c.multiply c.base count
    key ← point_to_hex c point
    fill_lookup counts ((key, count) ∷ entries)

  unfoldable pub build_tally_lookup : ℕ → Result (List (Text × ℕ))
  build_tally_lookup max_count = fill_lookup (range 1 max_count) ((text "zero", 0) ∷ [])

  -- the key of a message in the lookup
  unfoldable pub message_key : Point → Result Text
  message_key message =
      let digits = point_to_hex c message in
      if c.equals message c.group.identity then ok (text "zero") else digits

  -- one round of the loop over the pairs
  unfoldable pub count_at : ℕ → BallotCiphertext → List (Text × ℕ) → ℕ → Result ℕ
  count_at private_scalar ciphertext lookup i = do
    first ← point_at v c (at "ciphertext.points") ciphertext (i * 2)
    second ← point_at v c (at "ciphertext.points") ciphertext (i * 2 + 1)
    shared ← c.multiply first private_scalar
    key ← message_key (subtract c second shared)
    required (find_count key lookup)
        (assertion "ciphertext does not decrypt to an expected small tally value")

  -- `index` goes up by 2, so an odd last point would be a round of its own
  unfoldable pub decrypt_ciphertext_counts : ℕ → BallotCiphertext → ℕ → Result (List ℕ)
  decrypt_ciphertext_counts private_scalar ciphertext max_count = do
    lookup ← build_tally_lookup max_count
    map_result (count_at private_scalar ciphertext lookup)
        (range 0 ((length ciphertext.points + 1) / 2))

  -- what the two decryptions share
  unfoldable pub decrypt_for_key : Text → BallotCiphertext → ℕ → Result (List ℕ)
  decrypt_for_key private_key input max_count = do
    scalar ← scalar_from_private_key v c.order (lower private_key) (plain "privateKey")
    public_key ← derive_election_public_key v c private_key
    hash ← hash_election_public_key v public_key
    ciphertext ← validate_ciphertext v input
    guard (text_eq ciphertext.election_public_key_hash hash)
        (assertion "ciphertext was encrypted for a different public key")
    decrypt_ciphertext_counts scalar ciphertext max_count

  unfoldable pub decrypt_ballot_selection : Text → BallotCiphertext → Result (List ℕ)
  decrypt_ballot_selection private_key ciphertext = decrypt_for_key private_key ciphertext 1

  unfoldable pub decrypt_aggregated_tally : Text → BallotCiphertext → Number → Result (List ℕ)
  decrypt_aggregated_tally private_key ciphertext max_votes = do
    guard (is_integer max_votes) (assertion "maxVotes must be an integer")
    guard (at_least 0 max_votes) (assertion "maxVotes cannot be negative")
    decrypt_for_key private_key ciphertext (to_natural max_votes)
