-- ===== src/Tally/Shares.antt =====
-- The decryption shares of packages/crypto/src/index.ts: `validateTallyDecryptionShare`,
-- `digestTallyDecryptionShare` and `decryptionShareChallenge`.
use scalable_blockchain_voti.Prelude.{
  ℕ, ◌+◌, ◌-◌, ◌*◌, ◌%◌, ◌&&◌, List, [], ◌∷◌, map, length, drop, ltb, leb, ◌==◌, if◌then◌else◌,
}
use scalable_blockchain_voti.Outcome.{
  Label, plain, at, at_field, assertion, labelled, Result, ok, guard, ◌>>=◌, ◌>>◌,
}
use scalable_blockchain_voti.Js.Texts.{Text, text, lower, text_eq}
use scalable_blockchain_voti.Js.Numbers.{Number, is_integer, at_least, to_natural}
use scalable_blockchain_voti.Viem.{
  Viem, bytes32, bytes, bytes_list, uint, assert_bytes32, domain_hash, hash_abi,
}
use scalable_blockchain_voti.Package.Points.{exact_keys, assert_compressed_point, assert_points}
use scalable_blockchain_voti.Package.Ciphertext.{
  BallotCiphertext, validate_ciphertext, digest_ballot_ciphertext,
}

abbrev pub tally_decryption_share_scheme : Text
tally_decryption_share_scheme = text "threshold-ec-elgamal-decryption-share-v1"

pub record TallyDecryptionShareProof : Type 0 where
  pub keys : List Text
  pub commitment_to_generator : Text
  pub commitment_to_ciphertext : Text
  pub response : Text

pub record TallyDecryptionShare : Type 0 where
  pub keys : List Text
  pub scheme : Text
  pub trustee_index : Number
  pub trustee_public_share : Text
  pub election_public_key_hash : Text
  pub decryption_share_points : List Text
  pub proofs : List TallyDecryptionShareProof

abbrev pub share_keys : List Text
share_keys =
    text "scheme"
    ∷ text "trusteeIndex"
    ∷ text "trusteePublicShare"
    ∷ text "electionPublicKeyHash"
    ∷ text "decryptionSharePoints"
    ∷ text "proofs"
    ∷ []

abbrev pub share_proof_keys : List Text
share_proof_keys =
    text "commitmentToGenerator" ∷ text "commitmentToCiphertext" ∷ text "response" ∷ []

abbrev pub normalized_proof : TallyDecryptionShareProof → TallyDecryptionShareProof
normalized_proof p = record {
  keys = share_proof_keys;
  commitment_to_generator = lower p.commitment_to_generator;
  commitment_to_ciphertext = lower p.commitment_to_ciphertext;
  response = lower p.response;
}

-- BigInt of lower-case hex
unfoldable pub hex_digits : ℕ → Text → ℕ
hex_digits value [] = value
hex_digits value (c ∷ s) = hex_digits (value * 16 + (if leb c 57 then c - 48 else c - 87)) s

-- `order` is the order of secp256k1.
module _ (v : Viem) (order : ℕ) where
  unfoldable pub scalar_from_private_key : Text → Label → Result ℕ
  scalar_from_private_key private_key label = do
    assert_bytes32 v private_key label
    let scalar = hex_digits 0 (lower (drop 2 private_key))
    guard (ltb 0 scalar && ltb scalar order) (labelled label "is not a valid scalar")
    ok scalar

  unfoldable pub scalar_from_hex : Text → Label → Result ℕ
  scalar_from_hex value label = scalar_from_private_key (lower value) label

  unfoldable pub check_proofs : ℕ → List TallyDecryptionShareProof → Result (Unit {0})
  check_proofs index [] = ok tt
  check_proofs index (p ∷ proofs) = do
    exact_keys p.keys share_proof_keys (at "proofs" index)
    assert_compressed_point v p.commitment_to_generator
        (at_field "proofs" index "commitmentToGenerator")
    assert_compressed_point v p.commitment_to_ciphertext
        (at_field "proofs" index "commitmentToCiphertext")
    scalar ← scalar_from_hex p.response (at_field "proofs" index "response")
    check_proofs (index + 1) proofs

  unfoldable pub validate_tally_decryption_share :
      TallyDecryptionShare → BallotCiphertext → Result TallyDecryptionShare
  validate_tally_decryption_share input ciphertext = do
    exact_keys input.keys share_keys (plain "tally decryption share")
    guard (text_eq input.scheme tally_decryption_share_scheme)
        (assertion "unsupported decryption share scheme")
    guard (is_integer input.trustee_index) (assertion "trusteeIndex must be an integer")
    guard (at_least 1 input.trustee_index) (assertion "trusteeIndex must be positive")
    assert_compressed_point v input.trustee_public_share (plain "trusteePublicShare")
    assert_bytes32 v input.election_public_key_hash (plain "electionPublicKeyHash")
    guard (text_eq (lower input.election_public_key_hash) ciphertext.election_public_key_hash)
        (assertion "decryption share is for a different election public key")
    guard (length input.decryption_share_points * 2 == length ciphertext.points)
        (assertion "wrong number of decryption share points")
    guard (length input.proofs * 2 == length ciphertext.points)
        (assertion "wrong number of decryption share proofs")
    assert_points v "decryptionSharePoints" 0 input.decryption_share_points
    check_proofs 0 input.proofs
    ok (record {
      keys = share_keys;
      scheme = tally_decryption_share_scheme;
      trustee_index = input.trustee_index;
      trustee_public_share = lower input.trustee_public_share;
      election_public_key_hash = lower input.election_public_key_hash;
      decryption_share_points = map lower input.decryption_share_points;
      proofs = map normalized_proof input.proofs;
    })

  unfoldable pub digest_tally_decryption_share :
      BallotCiphertext → TallyDecryptionShare → Result Text
  digest_tally_decryption_share ciphertext_given share_given = do
    ciphertext ← validate_ciphertext v ciphertext_given
    share ← validate_tally_decryption_share share_given ciphertext
    digest ← digest_ballot_ciphertext v ciphertext
    hash_abi v (
        bytes32 (domain_hash v "SVB_TALLY_DECRYPTION_SHARE_V1")
        ∷ bytes32 digest
        ∷ uint 32 (to_natural share.trustee_index)
        ∷ bytes share.trustee_public_share
        ∷ bytes32 share.election_public_key_hash
        ∷ bytes_list share.decryption_share_points
        ∷ [])

  -- the challenge of the share's proof of equal logarithms, modulo the order
  unfoldable pub decryption_share_challenge :
      (election_public_key_hash : Text) (trustee_index : Number)
      → (trustee_public_share ciphertext_point decryption_share_point : Text)
      → (commitment_to_generator commitment_to_ciphertext : Text) → Result ℕ
  decryption_share_challenge election_public_key_hash trustee_index trustee_public_share
        ciphertext_point decryption_share_point commitment_to_generator commitment_to_ciphertext =
      do
        assert_bytes32 v election_public_key_hash (plain "electionPublicKeyHash")
        guard (is_integer trustee_index) (assertion "trusteeIndex must be an integer")
        guard (at_least 1 trustee_index) (assertion "trusteeIndex must be positive")
        assert_compressed_point v trustee_public_share (plain "trusteePublicShare")
        assert_compressed_point v ciphertext_point (plain "ciphertextPoint")
        assert_compressed_point v decryption_share_point (plain "decryptionSharePoint")
        assert_compressed_point v commitment_to_generator (plain "commitmentToGenerator")
        assert_compressed_point v commitment_to_ciphertext (plain "commitmentToCiphertext")
        digest ← hash_abi v (
            bytes32 (domain_hash v "SVB_TALLY_DECRYPTION_SHARE_DLEQ_V1")
            ∷ bytes32 (lower election_public_key_hash)
            ∷ uint 32 (to_natural trustee_index)
            ∷ bytes (lower trustee_public_share)
            ∷ bytes (lower ciphertext_point)
            ∷ bytes (lower decryption_share_point)
            ∷ bytes (lower commitment_to_generator)
            ∷ bytes (lower commitment_to_ciphertext)
            ∷ [])
        ok (hex_digits 0 (drop 2 digest) % order)
