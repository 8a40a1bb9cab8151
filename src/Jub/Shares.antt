-- ===== src/Jub/Shares.antt =====
-- The decryption shares of packages/crypto/src/proofCompatibleThreshold.ts.
use scalable_blockchain_voti.Prelude.{
  ℕ, ◌+◌, ◌*◌, Option, none, some, List, [], ◌∷◌, ◌++◌, map, length, get_elem?, drop, ◌==◌,
}
use scalable_blockchain_voti.Outcome.{
  plain, at, type_error, unlabelled, Result, ok, guard, map_result, ◌>>=◌, ◌>>◌,
}
use scalable_blockchain_voti.Js.Texts.{Text, text}
use scalable_blockchain_voti.Js.Digits.{show_radix, all_decimal, decimal}
use scalable_blockchain_voti.Js.Integers.{pos, mod_order}
use scalable_blockchain_voti.Viem.{Viem, bytes32, uint, uint_list, domain_hash, hash_abi}
use scalable_blockchain_voti.Dkg.Coordinator.{required}
use scalable_blockchain_voti.Tally.Shares.{hex_digits}
use scalable_blockchain_voti.Eligibility.Commitments.{proof_compatible_candidate_count}
use scalable_blockchain_voti.Elgamal.{range}
use scalable_blockchain_voti.Jub.{
  BabyJub, DecimalPoint, CiphertextJson, babyjub_subgroup_order, to_field_point, from_field_point,
}
use scalable_blockchain_voti.Jub.Keys.{assert_scalar, given_or}

abbrev pub proof_compatible_threshold_share_scheme : Text
proof_compatible_threshold_share_scheme = text "threshold-babyjubjub-elgamal-share-v1"

pub record DleqProof : Type 0 where
  pub commitment_to_generator : DecimalPoint
  pub commitment_to_ciphertext : DecimalPoint
  pub response : Text

pub record JubDecryptionShare : Type 0 where
  pub scheme : Text
  pub trustee_index : ℕ
  pub trustee_public_share : DecimalPoint
  pub election_public_key_hash : Text
  pub decryption_share_points : List DecimalPoint
  pub proofs : List DleqProof

-- What one round of the loop over the candidates pushes.
pub record JubPart : Type 0 where
  pub share_point : DecimalPoint
  pub proof : DleqProof

abbrev pub number_at : Option (List ℕ) → ℕ → Option ℕ
number_at none i = none
number_at (some given) i = get_elem? given i

abbrev pub check_nonce_count : Option (List ℕ) → Result (Unit {0})
check_nonce_count none = ok tt
check_nonce_count (some nonces) =
    guard (length nonces == proof_compatible_candidate_count) unlabelled

-- `BigInt` of a string of decimal digits, the empty one included; of any other string it throws
-- here, though `BigInt` also reads white space, a sign and `0x`.
unfoldable pub big_int : Text → Result ℕ
big_int digits = do guard (all_decimal digits) type_error; ok (decimal 0 digits)

-- the strings of the points, as the spreads and `flat` lay them out
unfoldable pub coordinates_of : List DecimalPoint → List Text
coordinates_of [] = []
coordinates_of (p ∷ points) = p.0 ∷ p.1 ∷ coordinates_of points

-- the strings of the proofs, as `flatMap` lays them out
unfoldable pub proof_texts : List DleqProof → List Text
proof_texts [] = []
proof_texts (p ∷ proofs) =
    coordinates_of (p.commitment_to_generator ∷ p.commitment_to_ciphertext ∷ [])
    ++ p.response ∷ proof_texts proofs

module _ (v : Viem) where
  unfoldable pub jub_challenge :
      (election_public_key_hash : Text) (trustee_index : ℕ)
      (trustee_public_share ciphertext_point decryption_share_point : DecimalPoint)
      (commitment_to_generator commitment_to_ciphertext : DecimalPoint)
      → Result ℕ
  jub_challenge election_public_key_hash trustee_index trustee_public_share ciphertext_point
        decryption_share_point commitment_to_generator commitment_to_ciphertext =
      do
        coordinates ← map_result big_int (
            coordinates_of (
              trustee_public_share ∷ ciphertext_point ∷ decryption_share_point
              ∷ commitment_to_generator ∷ commitment_to_ciphertext ∷ []))
        digest ← hash_abi v (
            bytes32 (domain_hash v "SVB_BABYJUB_DLEQ_SHARE_V1")
            ∷ bytes32 election_public_key_hash
            ∷ uint 32 trustee_index
            ∷ uint_list 256 coordinates
            ∷ [])
        ok (mod_order babyjub_subgroup_order (pos (hex_digits 0 (drop 2 digest))))

  unfoldable pub digest_proof_compatible_decryption_share : JubDecryptionShare → Result Text
  digest_proof_compatible_decryption_share share = do
    coordinates ← map_result big_int (
        coordinates_of (share.trustee_public_share ∷ share.decryption_share_points)
        ++ proof_texts share.proofs)
    hash_abi v (
        bytes32 (domain_hash v "SVB_BABYJUB_DECRYPTION_SHARE_DIGEST_V1")
        ∷ uint 32 share.trustee_index
        ∷ bytes32 share.election_public_key_hash
        ∷ uint_list 256 coordinates
        ∷ [])

  module _ {F : Type 0} (jub : BabyJub F) where
    -- one round of the loop over the candidates
    unfoldable pub jub_part :
        (fresh : ℕ → ℕ) (nonces : Option (List ℕ)) (trustee_index private_share : ℕ)
        (public_share : DecimalPoint)
        → CiphertextJson
        → (index : ℕ) → Result JubPart
    jub_part fresh nonces trustee_index private_share public_share ciphertext index = do
      ciphertext_point ← required (get_elem? ciphertext.c1 index) type_error
      let c1 = to_field_point jub ciphertext_point
      let share_point = from_field_point jub (jub.mul_point_escalar c1 private_share)
      nonce ← assert_scalar (given_or (number_at nonces index) (fresh index)) (at "nonce" index)
      let to_generator = from_field_point jub (jub.mul_point_escalar jub.base8 nonce)
      let to_ciphertext = from_field_point jub (jub.mul_point_escalar c1 nonce)
      challenge ←
          jub_challenge ciphertext.election_public_key_hash trustee_index public_share
            ciphertext_point share_point to_generator to_ciphertext
      ok (record {
        share_point = share_point;
        proof = record {
          commitment_to_generator = to_generator;
          commitment_to_ciphertext = to_ciphertext;
          response =
              show_radix 10
                (mod_order babyjub_subgroup_order (pos (nonce + challenge * private_share)));
        };
      })

    unfoldable pub create_proof_compatible_decryption_share :
        (fresh : ℕ → ℕ) (trustee_index : ℕ) (private_share : Text)
        → CiphertextJson
        → Option (List ℕ)
        → Result JubDecryptionShare
    create_proof_compatible_decryption_share fresh trustee_index private_share ciphertext nonces =
        do
          key ← big_int private_share
          secret ← assert_scalar key (plain "privateShare")
          check_nonce_count nonces
          let public_share = from_field_point jub (jub.mul_point_escalar jub.base8 secret)
          parts ←
              map_result (jub_part fresh nonces trustee_index secret public_share ciphertext)
                (range 0 proof_compatible_candidate_count)
          ok (record {
            scheme = proof_compatible_threshold_share_scheme;
            trustee_index = trustee_index;
            trustee_public_share = public_share;
            election_public_key_hash = ciphertext.election_public_key_hash;
            decryption_share_points = map (λ part. part.share_point) parts;
            proofs = map (λ part. part.proof) parts;
          })
