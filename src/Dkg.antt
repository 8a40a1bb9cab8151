-- ===== src/Dkg.antt =====
-- The contributions of packages/crypto/src/dkg.ts: their hash, signature and verification. The
-- coordinator that collects them is `Dkg.Coordinator`.
pub mod Coordinator
pub mod Recorded
pub mod Reached
pub mod Final
pub mod Equivocated
pub mod Replayed
pub mod Rehashed
use scalable_blockchain_voti.Prelude.{
  ℕ, Bool, true, false, ◌&&◌, ◌||◌, [], ◌∷◌, ◌++◌, length, drop, leb, ◌==◌,
}
use scalable_blockchain_voti.Outcome.{
  Label, plain, assertion, labelled, Result, ok, err, guard, ◌>>=◌, ◌>>◌,
}
use scalable_blockchain_voti.Js.Texts.{Text, text, lower}
use scalable_blockchain_voti.Viem.{Viem, bytes32, uint, is_bytes32, domain_hash, hash_abi}

abbrev pub dkg_threshold : ℕ
dkg_threshold = 5

abbrev pub dkg_trustee_count : ℕ
dkg_trustee_count = 9

pub record DkgTrustee : Type 0 where
  pub trustee_index : ℕ
  pub signing_public_key : Text

pub record UnsignedDkgContribution : Type 0 where
  pub ceremony_id : Text
  pub national_election_id : Text
  pub constituency_id : Text
  pub trustee_index : ℕ
  pub round : ℕ
  pub pedersen_commitment_digest : Text
  pub encrypted_share_bundle_digest : Text
  pub previous_contribution_hash : Text

pub record DkgContribution : Type 0 where
  pub unsigned : UnsignedDkgContribution
  pub signature : Text

-- The secp256k1 signatures of `@noble/curves`, on hex digits without a prefix.
pub record Signatures : Type 0 where
  pub get_public_key : (private_key : Text) → Result Text
  pub sign : (message private_key : Text) → Result Text
  pub verify : (signature message public_key : Text) → Result Bool

-- try { return ...; } catch { return false; }
abbrev pub or_false : Result Bool → Bool
or_false (ok b) = b
or_false (err e) = false

module _ (v : Viem) where
  unfoldable pub require_bytes32 : Text → Label → Result (Unit {0})
  require_bytes32 value label = guard (is_bytes32 v value) (labelled label "must be bytes32")

  unfoldable pub hash_dkg_contribution : UnsignedDkgContribution → Result Text
  hash_dkg_contribution contribution = do
    require_bytes32 contribution.ceremony_id (plain "ceremonyId")
    require_bytes32 contribution.national_election_id (plain "nationalElectionId")
    require_bytes32 contribution.constituency_id (plain "constituencyId")
    require_bytes32 contribution.pedersen_commitment_digest (plain "pedersenCommitmentDigest")
    require_bytes32 contribution.encrypted_share_bundle_digest (plain "encryptedShareBundleDigest")
    require_bytes32 contribution.previous_contribution_hash (plain "previousContributionHash")
    guard (leb 1 contribution.trustee_index && leb contribution.trustee_index dkg_trustee_count)
        (assertion "trusteeIndex out of range")
    guard (contribution.round == 1 || contribution.round == 2) (assertion "unsupported DKG round")
    hash_abi v (
        bytes32 (domain_hash v "SVB_PEDERSEN_DKG_CONTRIBUTION_V1")
        ∷ bytes32 (lower contribution.ceremony_id)
        ∷ bytes32 (lower contribution.national_election_id)
        ∷ bytes32 (lower contribution.constituency_id)
        ∷ uint 8 contribution.trustee_index
        ∷ uint 8 contribution.round
        ∷ bytes32 (lower contribution.pedersen_commitment_digest)
        ∷ bytes32 (lower contribution.encrypted_share_bundle_digest)
        ∷ bytes32 (lower contribution.previous_contribution_hash)
        ∷ [])

module _ (v : Viem) (curve : Signatures) where
  unfoldable pub private_key_bytes : Text → Result Text
  private_key_bytes private_key = do
    require_bytes32 v private_key (plain "privateKey")
    ok (drop 2 private_key)

  unfoldable pub derive_dkg_signing_public_key : Text → Result Text
  derive_dkg_signing_public_key private_key = do
    key ← private_key_bytes private_key
    public_key ← curve.get_public_key key
    ok (text "0x" ++ public_key)

  unfoldable pub sign_dkg_contribution : UnsignedDkgContribution → Text → Result DkgContribution
  sign_dkg_contribution contribution signing_private_key = do
    digest ← hash_dkg_contribution v contribution
    key ← private_key_bytes signing_private_key
    signature ← curve.sign (drop 2 digest) key
    ok (record { unsigned = contribution; signature = text "0x" ++ signature })

  -- the body of the `try`
  unfoldable pub checked_signature : DkgContribution → Text → Result Bool
  checked_signature contribution signing_public_key = do
    guard (v.is_hex contribution.signature && length contribution.signature == 130)
        (assertion "signature must be 64 bytes")
    guard (v.is_hex signing_public_key && length signing_public_key == 68)
        (assertion "signingPublicKey must be compressed secp256k1")
    digest ← hash_dkg_contribution v contribution.unsigned
    curve.verify (drop 2 contribution.signature) (drop 2 digest) (drop 2 signing_public_key)

  unfoldable pub verify_dkg_contribution : DkgContribution → Text → Bool
  verify_dkg_contribution contribution signing_public_key =
      or_false (checked_signature contribution signing_public_key)
