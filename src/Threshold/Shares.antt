-- ===== src/Threshold/Shares.antt =====
-- The decryption shares of packages/crypto/src/index.ts: `createTallyDecryptionShare`,
-- `verifyTallyDecryptionShare` and `decryptAggregatedTallyWithShares`.
use scalable_blockchain_voti.Prelude.{
  ℕ, ◌+◌, ◌*◌, ◌/◌, Bool, true, false, not, Option, none, some, List, [], ◌∷◌, map, length,
  get_elem?, take, leb, ◌==◌, if◌then◌else◌,
}
use scalable_blockchain_voti.Outcome.{
  plain, at, at_field, type_error, assertion, Result, ok, err, guard, map_result, ◌>>=◌, ◌>>◌,
}
use scalable_blockchain_voti.Js.Texts.{Text, text_eq}
use scalable_blockchain_voti.Js.Numbers.{Number, is_integer, at_least, to_natural}
use scalable_blockchain_voti.Js.Sorting.{sort_by}
use scalable_blockchain_voti.Viem.{Viem}
use scalable_blockchain_voti.Merkle.{present}
use scalable_blockchain_voti.Package.Ciphertext.{BallotCiphertext, validate_ciphertext}
use scalable_blockchain_voti.Dkg.Coordinator.{required}
use scalable_blockchain_voti.Tally.{hash_election_public_key}
use scalable_blockchain_voti.Tally.Shares.{
  TallyDecryptionShare, TallyDecryptionShareProof, tally_decryption_share_scheme, share_keys,
  share_proof_keys, scalar_from_hex, decryption_share_challenge, validate_tally_decryption_share,
}
use scalable_blockchain_voti.Curve.{Curve, subtract, point_to_hex, point_from_hex}
use scalable_blockchain_voti.Elgamal.{range, given_at, scalar_given, point_at}
use scalable_blockchain_voti.Elgamal.Decryption.{find_count, build_tally_lookup, message_key}
use scalable_blockchain_voti.Threshold.{scalar_to_hex, lagrange_coefficient_at_zero}

-- What one round of the loop over the pairs pushes.
pub record SharePart : Type 0 where
  pub share_point : Text
  pub proof : TallyDecryptionShareProof

-- A share beside its Lagrange coefficient.
pub record WeightedShare : Type 0 where
  pub share : TallyDecryptionShare
  pub coefficient : ℕ

abbrev pub has_number : ℕ → List ℕ → Bool
has_number n [] = false
has_number n (m ∷ ms) = if m == n then true else has_number n ms

abbrev pub trustee : TallyDecryptionShare → ℕ
trustee share = to_natural share.trustee_index

module _ {Point : Type 0} (v : Viem) (c : Curve Point) where
  -- one round of the loop over the pairs
  unfoldable pub share_part :
      (fresh : ℕ → Text) (nonces : Option (List Text)) (trustee_index : Number) (private_share : ℕ)
      (public_share : Text) (ciphertext : BallotCiphertext) (pair_index : ℕ)
      → Result SharePart
  share_part fresh nonces trustee_index private_share public_share ciphertext pair_index = do
    c1 ← point_at v c (at "ciphertext.points") ciphertext (pair_index * 2)
    share_point ← c.multiply c1 private_share
    share_hex ← point_to_hex c share_point
    nonce ←
        scalar_given v c "proofNonce" "proofNonces" (fresh pair_index) pair_index
          (given_at nonces pair_index)
    to_generator ← c.multiply c.base nonce
    to_ciphertext ← c.multiply c1 nonce
    generator_hex ← point_to_hex c to_generator
    ciphertext_hex ← point_to_hex c to_ciphertext
    point ← present (get_elem? ciphertext.points (pair_index * 2))
    challenge ←
        decryption_share_challenge v c.order ciphertext.election_public_key_hash trustee_index
          public_share point share_hex generator_hex ciphertext_hex
    response ← scalar_to_hex c.order (nonce + challenge * private_share)
    ok (record {
      share_point = share_hex;
      proof = record {
        keys = share_proof_keys;
        commitment_to_generator = generator_hex;
        commitment_to_ciphertext = ciphertext_hex;
        response = response;
      };
    })

  abbrev pub check_nonces : ℕ → Option (List Text) → Result (Unit {0})
  check_nonces count none = ok tt
  check_nonces count (some nonces) =
      guard (length nonces == count) (assertion "proofNonces must include one scalar per candidate")

  unfoldable pub create_tally_decryption_share :
      (fresh : ℕ → Text) (trustee_index : Number) (private_share : Text)
      → BallotCiphertext
      → Option (List Text)
      → Result TallyDecryptionShare
  create_tally_decryption_share fresh trustee_index private_share ciphertext_given nonces = do
    guard (is_integer trustee_index) (assertion "trusteeIndex must be an integer")
    guard (at_least 1 trustee_index) (assertion "trusteeIndex must be positive")
    secret ← scalar_from_hex v c.order private_share (plain "privateShare")
    ciphertext ← validate_ciphertext v ciphertext_given
    check_nonces (length ciphertext.points / 2) nonces
    point ← c.multiply c.base secret
    public_share ← point_to_hex c point
    parts ←
        map_result (share_part fresh nonces trustee_index secret public_share ciphertext)
          (range 0 (length ciphertext.points / 2))
    ok (record {
      keys = share_keys;
      scheme = tally_decryption_share_scheme;
      trustee_index = trustee_index;
      trustee_public_share = public_share;
      election_public_key_hash = ciphertext.election_public_key_hash;
      decryption_share_points = map (λ part. part.share_point) parts;
      proofs = map (λ part. part.proof) parts;
    })

  -- the second comparison, where the first has not returned false
  abbrev pub second_test : Bool → Result Text → Text → Result Bool
  second_test false hex expected = ok false
  second_test true hex expected = do made ← hex; ok (text_eq made expected)

  -- one round of the loop over the pairs: whether both commitments are as expected
  unfoldable pub verify_pair : BallotCiphertext → TallyDecryptionShare → ℕ → Result Bool
  verify_pair ciphertext share pair_index = do
    c1 ← point_at v c (at "ciphertext.points") ciphertext (pair_index * 2)
    public_share ← point_from_hex c v share.trustee_public_share (plain "trusteePublicShare")
    share_hex ← present (get_elem? share.decryption_share_points pair_index)
    share_point ← point_from_hex c v share_hex (at "decryptionSharePoints" pair_index)
    proof ← required (get_elem? share.proofs pair_index) type_error
    response ← scalar_from_hex v c.order proof.response (at_field "proofs" pair_index "response")
    point ← present (get_elem? ciphertext.points (pair_index * 2))
    challenge ←
        decryption_share_challenge v c.order ciphertext.election_public_key_hash share.trustee_index
          share.trustee_public_share point share_hex proof.commitment_to_generator
          proof.commitment_to_ciphertext
    generator_response ← c.multiply c.base response
    generator_challenge ← c.multiply public_share challenge
    ciphertext_response ← c.multiply c1 response
    ciphertext_challenge ← c.multiply share_point challenge
    generator_hex ← point_to_hex c (subtract c generator_response generator_challenge)
    let ciphertext_hex = point_to_hex c (subtract c ciphertext_response ciphertext_challenge)
    second_test (text_eq generator_hex proof.commitment_to_generator) ciphertext_hex
        proof.commitment_to_ciphertext

  -- the loop, which ends at the first pair that fails
  unfoldable pub verify_pairs : BallotCiphertext → TallyDecryptionShare → List ℕ → Result Bool
  verify_pairs ciphertext share [] = ok true
  verify_pairs ciphertext share (pair_index ∷ rest) = do
    fine ← verify_pair ciphertext share pair_index
    let others = verify_pairs ciphertext share rest
    if fine then others else ok false

  -- the body of the `try`
  unfoldable pub verify_share : BallotCiphertext → TallyDecryptionShare → Result Bool
  verify_share ciphertext_given share_given = do
    ciphertext ← validate_ciphertext v ciphertext_given
    share ← validate_tally_decryption_share v c.order share_given ciphertext
    verify_pairs ciphertext share (range 0 (length ciphertext.points / 2))

  unfoldable pub caught : Result Bool → Bool
  caught (ok verified) = verified
  caught (err e) = false

  unfoldable pub verify_tally_decryption_share : BallotCiphertext → TallyDecryptionShare → Bool
  verify_tally_decryption_share ciphertext share = caught (verify_share ciphertext share)

  -- the loop over the shares, with the indexes seen so far
  unfoldable pub check_shares :
      BallotCiphertext → List ℕ → List TallyDecryptionShare → Result (Unit {0})
  check_shares ciphertext seen [] = ok tt
  check_shares ciphertext seen (share ∷ shares) = do
    guard (verify_tally_decryption_share ciphertext share)
        (assertion "invalid decryption share proof")
    guard (not (has_number (trustee share) seen)) (assertion "duplicate trustee index")
    check_shares ciphertext (trustee share ∷ seen) shares

  unfoldable pub weigh : List ℕ → TallyDecryptionShare → Result WeightedShare
  weigh indexes share = do
    coefficient ← lagrange_coefficient_at_zero c.order (trustee share) indexes
    ok (record { share = share; coefficient = coefficient })

  -- the sum of multiples; a coefficient of 0 makes `multiply` throw
  unfoldable pub combine :
      (WeightedShare → Result Point) → List WeightedShare → Point → Result Point
  combine point_of [] sum = ok sum
  combine point_of (entry ∷ entries) sum = do
    point ← point_of entry
    multiple ← c.multiply point entry.coefficient
    combine point_of entries (c.group.add sum multiple)

  abbrev pub public_share_of : WeightedShare → Result Point
  public_share_of entry =
      point_from_hex c v entry.share.trustee_public_share (plain "trusteePublicShare")

  unfoldable pub share_point_of : ℕ → WeightedShare → Result Point
  share_point_of pair_index entry = do
    hex ← present (get_elem? entry.share.decryption_share_points pair_index)
    point_from_hex c v hex (at "decryptionSharePoints" pair_index)

  -- up to the check of the election public key
  unfoldable pub select_shares :
      BallotCiphertext → List TallyDecryptionShare → ℕ → Result (List WeightedShare)
  select_shares ciphertext shares threshold = do
    valid ← map_result (λ share. validate_tally_decryption_share v c.order share ciphertext) shares
    let selected = take threshold (sort_by (λ left right. leb (trustee left) (trustee right)) valid)
    check_shares ciphertext [] selected
    weighted ← map_result (weigh (map trustee selected)) selected
    combined ← combine public_share_of weighted c.group.identity
    public_key ← point_to_hex c combined
    hash ← hash_election_public_key v public_key
    guard (text_eq hash ciphertext.election_public_key_hash)
        (assertion "decryption shares do not reconstruct the election public key")
    ok weighted

  -- one round of the loop over the pairs
  unfoldable pub count_with_shares :
      BallotCiphertext → List WeightedShare → List (Text × ℕ) → ℕ → Result ℕ
  count_with_shares ciphertext weighted lookup pair_index = do
    c2 ← point_at v c (at "ciphertext.points") ciphertext (pair_index * 2 + 1)
    shared ← combine (share_point_of pair_index) weighted c.group.identity
    key ← message_key v c (subtract c c2 shared)
    required (find_count key lookup)
        (assertion "ciphertext does not decrypt to an expected small tally value")

  unfoldable pub decrypt_aggregated_tally_with_shares :
      BallotCiphertext
      → List TallyDecryptionShare
      → (threshold max_votes : Number) → Result (List ℕ)
  decrypt_aggregated_tally_with_shares ciphertext_given shares threshold max_votes = do
    guard (is_integer threshold) (assertion "threshold must be an integer")
    guard (at_least 2 threshold) (assertion "threshold must be at least two")
    guard (is_integer max_votes) (assertion "maxVotes must be an integer")
    guard (at_least 0 max_votes) (assertion "maxVotes cannot be negative")
    guard (leb (to_natural threshold) (length shares)) (assertion "not enough decryption shares")
    ciphertext ← validate_ciphertext v ciphertext_given
    weighted ← select_shares ciphertext shares (to_natural threshold)
    lookup ← build_tally_lookup v c (to_natural max_votes)
    map_result (count_with_shares ciphertext weighted lookup)
        (range 0 (length ciphertext.points / 2))
