-- ===== src/Elgamal.antt =====
-- The encryption of packages/crypto/src/index.ts: `encryptBallotSelection`,
-- `aggregateBallotCiphertexts`, `decryptBallotSelection` and `decryptAggregatedTally`. The keys and
-- scalars are those of `Tally.Shares`; `fresh` stands for the random private keys.
pub mod Decryption
pub mod Pairs
pub mod Encrypted
pub mod Aggregated
pub mod Lookup
pub mod Decrypted
pub mod Counted
use scalable_blockchain_voti.Prelude.{
  ℕ, String, zero, suc, ◌+◌, ◌*◌, ◌/◌, ◌&&◌, Option, none, some, List, [], ◌∷◌, ◌++◌, map, length,
  get_elem?, drop, ltb, ◌==◌, if◌then◌else◌,
}
use scalable_blockchain_voti.Outcome.{
  Label, plain, at, at_place, Error, assertion, type_error, Result, ok, err, guard, ◌>>=◌, ◌>>◌,
  map_result,
}
use scalable_blockchain_voti.Js.Texts.{Text, text, lower, text_eq}
use scalable_blockchain_voti.Js.Numbers.{Number, is_integer, at_least, to_natural}
use scalable_blockchain_voti.Viem.{Viem}
use scalable_blockchain_voti.Merkle.{present}
use scalable_blockchain_voti.Package.Ciphertext.{
  BallotCiphertext, ballot_ciphertext_scheme, ciphertext_keys, validate_ciphertext,
}
use scalable_blockchain_voti.Dkg.Coordinator.{required, flatten}
use scalable_blockchain_voti.Tally.{hash_election_public_key}
use scalable_blockchain_voti.Tally.Shares.{scalar_from_private_key, scalar_from_hex}
use scalable_blockchain_voti.Curve.{Group, Curve, subtract, point_to_hex, point_from_hex}

pub record ElectionKeyPair : Type 0 where
  pub private_key : Text
  pub public_key : Text
  pub public_key_hash : Text

-- the indexes of a `for` loop
unfoldable pub range : (from count : ℕ) → List ℕ
range from zero = []
range from (suc count) = from ∷ range (from + 1) count

-- `given?.[index]`
abbrev pub given_at : Option (List Text) → ℕ → Option Text
given_at none i = none
given_at (some given) i = get_elem? given i

module _ {Point : Type 0} (v : Viem) (c : Curve Point) where
  unfoldable pub derive_election_public_key : Text → Result Text
  derive_election_public_key private_key = do
    scalar ← scalar_from_private_key v c.order private_key (plain "privateKey")
    digits ← c.get_public_key (drop 2 private_key)
    ok (text "0x" ++ digits)

  abbrev pub or_fresh : Option Text → Text → Text
  or_fresh none fresh = fresh
  or_fresh (some key) fresh = lower key

  unfoldable pub create_election_key_pair : Text → Option Text → Result ElectionKeyPair
  create_election_key_pair fresh private_key = do
    let normalized = or_fresh private_key fresh
    public_key ← derive_election_public_key normalized
    hash ← hash_election_public_key v public_key
    ok (record { private_key = normalized; public_key = public_key; public_key_hash = hash })

  -- a scalar that is given, or else a fresh one; `one` and `many` are their names in a message
  unfoldable pub scalar_given : (one many : String) → Text → ℕ → Option Text → Result ℕ
  scalar_given one many fresh i none = scalar_from_private_key v c.order fresh (plain one)
  scalar_given one many fresh i (some key) =
      scalar_from_private_key v c.order (lower key) (at many i)

  -- the scalar of one candidate
  abbrev pub pick_scalar : (ℕ → Text) → Option (List Text) → ℕ → Result ℕ
  pick_scalar fresh randomness i =
      scalar_given "randomness" "randomness" (fresh i) i (given_at randomness i)

  -- one round of the loop over the candidates
  unfoldable pub encrypt_one :
      Point → (ℕ → Text) → Option (List Text) → ℕ → ℕ → Result (Text × Text)
  encrypt_one public_key fresh randomness selected i = do
    scalar ← pick_scalar fresh randomness i
    first ← c.multiply c.base scalar
    shared ← c.multiply public_key scalar
    let second = if i == selected then c.group.add shared c.base else shared
    a ← point_to_hex c first
    b ← point_to_hex c second
    ok (a, b)

  -- the assertion on the length of the randomness that is given
  abbrev pub check_randomness : Option (List Text) → ℕ → Result (Unit {0})
  check_randomness none count = ok tt
  check_randomness (some given) count =
      guard (length given == count) (assertion "randomness must include one scalar per candidate")

  unfoldable pub encrypt_ballot_selection :
      (ℕ → Text)
      → Text
      → (candidate_count selected_index : Number) → Option (List Text)
      → Result BallotCiphertext
  encrypt_ballot_selection fresh election_public_key candidate_count selected_index randomness = do
    let key = lower election_public_key
    public_key ← point_from_hex c v key (plain "electionPublicKey")
    guard (is_integer candidate_count) (assertion "candidateCount must be an integer")
    guard (at_least 2 candidate_count) (assertion "candidateCount must be greater than one")
    guard (is_integer selected_index) (assertion "selectedIndex must be an integer")
    guard
        (at_least 0 selected_index && ltb (to_natural selected_index) (to_natural candidate_count))
        (assertion "selectedIndex out of range")
    check_randomness randomness (to_natural candidate_count)
    pairs ←
        map_result (encrypt_one public_key fresh randomness (to_natural selected_index))
          (range 0 (to_natural candidate_count))
    hash ← hash_election_public_key v key
    ok (record {
      keys = ciphertext_keys;
      scheme = ballot_ciphertext_scheme;
      election_public_key_hash = hash;
      points = flatten pairs;
    })

  -- `pointFromHex(ciphertext.points[place]!, ...)`
  unfoldable pub point_at : (ℕ → Label) → BallotCiphertext → ℕ → Result Point
  point_at label ciphertext place = do
    value ← present (get_elem? ciphertext.points place)
    point_from_hex c v value (label place)

  -- the inner loop, over the ciphertexts after the first
  unfoldable pub add_ciphertexts :
      ℕ → ℕ → Point × Point → List BallotCiphertext → Result (Point × Point)
  add_ciphertexts i j sums [] = ok sums
  add_ciphertexts i j sums (ciphertext ∷ rest) = do
    first ← point_at (at_place "ciphertext" j "points") ciphertext (i * 2)
    second ← point_at (at_place "ciphertext" j "points") ciphertext (i * 2 + 1)
    add_ciphertexts i (j + 1) (c.group.add sums.0 first, c.group.add sums.1 second) rest

  -- one round of the outer loop
  unfoldable pub aggregate_pair :
      BallotCiphertext → List BallotCiphertext → ℕ → Result (Text × Text)
  aggregate_pair first rest i = do
    p ← point_at (at_place "ciphertext" 0 "points") first (i * 2)
    q ← point_at (at_place "ciphertext" 0 "points") first (i * 2 + 1)
    sums ← add_ciphertexts i 1 (p, q) rest
    a ← point_to_hex c sums.0
    b ← point_to_hex c sums.1
    ok (a, b)

  unfoldable pub check_alike : BallotCiphertext → List BallotCiphertext → Result (Unit {0})
  check_alike first [] = ok tt
  check_alike first (ciphertext ∷ rest) = do
    guard (text_eq ciphertext.election_public_key_hash first.election_public_key_hash)
        (assertion "all ciphertexts must use the same election public key")
    guard (length ciphertext.points == length first.points)
        (assertion "all ciphertexts must have the same candidate count")
    check_alike first rest

  -- what follows the normalisation of the ciphertexts
  unfoldable pub aggregate_normalized : List BallotCiphertext → Result BallotCiphertext
  aggregate_normalized [] = err type_error
  aggregate_normalized (first ∷ rest) = do
    check_alike first (first ∷ rest)
    pairs ← map_result (aggregate_pair first rest) (range 0 (length first.points / 2))
    ok (record {
      keys = ciphertext_keys;
      scheme = ballot_ciphertext_scheme;
      election_public_key_hash = first.election_public_key_hash;
      points = flatten pairs;
    })

  unfoldable pub aggregate_ballot_ciphertexts : List BallotCiphertext → Result BallotCiphertext
  aggregate_ballot_ciphertexts ciphertexts = do
    guard (ltb 0 (length ciphertexts)) (assertion "at least one ciphertext is required")
    normalized ← map_result (validate_ciphertext v) ciphertexts
    aggregate_normalized normalized
