-- ===== src/Dkg/Coordinator.antt =====
-- `DkgTranscriptCoordinatorV1` of packages/crypto/src/dkg.ts: its maps are association lists in the
-- order of insertion. A method that throws keeps what it wrote before.
use scalable_blockchain_voti.Prelude.{
  ℕ, Bool, true, false, ◌&&◌, not, Option, none, some, List, [], ◌∷◌, ◌++◌, map, length, ltb, leb,
  ◌==◌, if◌then◌else◌,
}
use scalable_blockchain_voti.Outcome.{
  Error, plain, assertion, unlabelled, type_error, Result, ok, err, guard, ◌>>=◌, ◌>>◌, map_result,
}
use scalable_blockchain_voti.Outcome.Stateful.{Stateful, and_then}
use scalable_blockchain_voti.Js.Texts.{Text, lower, text_eq}
use scalable_blockchain_voti.Js.Indexes.{has_index, add_index}
use scalable_blockchain_voti.Js.Sorting.{sort_by, sort_texts}
use scalable_blockchain_voti.Viem.{
  Viem, bytes32, bytes, uint, bytes32_list, uint_list, domain_hash, hash_abi,
}
use scalable_blockchain_voti.Merkle.{zero_hash}
use scalable_blockchain_voti.Dkg.{
  DkgTrustee, DkgContribution, Signatures, dkg_threshold, dkg_trustee_count, require_bytes32,
  hash_dkg_contribution, verify_dkg_contribution,
}

abbrev pub dkg_transcript_version : ℕ
dkg_transcript_version = 1

pub record DkgEquivocationEvidence : Type 0 where
  pub trustee_index : ℕ
  pub round : ℕ
  pub first_contribution_hash : Text
  pub second_contribution_hash : Text
  pub evidence_hash : Text

pub record SignedDkgTranscript : Type 0 where
  pub version : ℕ
  pub ceremony_id : Text
  pub national_election_id : Text
  pub constituency_id : Text
  pub threshold : ℕ
  pub trustee_count : ℕ
  pub qualified_trustee_indexes : List ℕ
  pub disqualified_trustee_indexes : List ℕ
  pub contribution_hashes : List Text
  pub equivocation_evidence_hashes : List Text
  pub election_public_key : Text
  pub trustee_keyset_hash : Text
  pub transcript_hash : Text

-- the key `${trusteeIndex}:${round}` and its contribution
pub record Slot : Type 0 where
  pub index : ℕ
  pub round : ℕ
  pub kept : DkgContribution

pub record Coordinator : Type 0 where
  pub ceremony_id : Text
  pub national_election_id : Text
  pub constituency_id : Text
  pub trustees : List DkgTrustee
  pub contributions : List Slot
  pub disqualified : List ℕ
  pub equivocations : List DkgEquivocationEvidence
  pub finalized : Bool

unfoldable pub find_trustee : ℕ → List DkgTrustee → Option Text
find_trustee index [] = none
find_trustee index (t ∷ ts) =
    if t.trustee_index == index then some t.signing_public_key else find_trustee index ts

unfoldable pub find_contribution : ℕ → ℕ → List Slot → Option DkgContribution
find_contribution index round [] = none
find_contribution index round (s ∷ ss) =
    if s.index == index && s.round == round then some s.kept else find_contribution index round ss

abbrev pub is_some {ℓ} : {A : Type ℓ} → Option A → Bool
is_some none = false
is_some (some a) = true

-- what an assertion requires to be there
unfoldable pub required {ℓ} : {A : Type ℓ} → Option A → Error → Result A
required none e = err e
required (some a) e = ok a

unfoldable pub filter_index : (ℕ → Bool) → List ℕ → List ℕ
filter_index test [] = []
filter_index test (i ∷ is) = let rest = filter_index test is in if test i then i ∷ rest else rest

unfoldable pub flatten : List (Text × Text) → List Text
flatten [] = []
flatten ((a, b) ∷ rest) = a ∷ b ∷ flatten rest

module _ (v : Viem) where
  -- the loop of the constructor
  unfoldable pub register : List DkgTrustee → List DkgTrustee → Result (List DkgTrustee)
  register known [] = ok known
  register known (t ∷ ts) = do
    guard (leb 1 t.trustee_index && leb t.trustee_index dkg_trustee_count) unlabelled
    guard (not (is_some (find_trustee t.trustee_index known))) unlabelled
    guard (v.is_hex t.signing_public_key && length t.signing_public_key == 68) unlabelled
    register
        (known
          ++ record {
            trustee_index = t.trustee_index;
            signing_public_key = lower t.signing_public_key;
          }
            ∷ [])
        ts

  unfoldable pub new_coordinator : Text → Text → Text → List DkgTrustee → Result Coordinator
  new_coordinator ceremony_id national_election_id constituency_id trustees = do
    require_bytes32 v ceremony_id (plain "ceremonyId")
    require_bytes32 v national_election_id (plain "nationalElectionId")
    require_bytes32 v constituency_id (plain "constituencyId")
    guard (length trustees == dkg_trustee_count) (assertion "exactly nine trustees are required")
    table ← register [] trustees
    ok (record {
      ceremony_id = lower ceremony_id;
      national_election_id = lower national_election_id;
      constituency_id = lower constituency_id;
      trustees = table;
      contributions = [];
      disqualified = [];
      equivocations = [];
      finalized = false;
    })

  unfoldable pub hash_equivocation : ℕ → ℕ → Text → Text → Result Text
  hash_equivocation index round first second = hash_abi v (
      bytes32 (domain_hash v "SVB_PEDERSEN_DKG_EQUIVOCATION_V1")
      ∷ uint 8 index
      ∷ uint 8 round
      ∷ bytes32 first
      ∷ bytes32 second
      ∷ [])

  -- the two assertions on the parent of a contribution that is new in its slot
  unfoldable pub check_parent : Coordinator → DkgContribution → Result (Unit {0})
  check_parent s k =
      if k.unsigned.round == 1
      then guard (text_eq (lower k.unsigned.previous_contribution_hash) zero_hash)
          (assertion "round one cannot have a parent contribution")
      else (do
        first ←
            required (find_contribution k.unsigned.trustee_index 1 s.contributions)
              (assertion "round two requires round one")
        parent ← hash_dkg_contribution v first.unsigned
        guard (text_eq (lower k.unsigned.previous_contribution_hash) parent)
            (assertion "round two parent does not match round one"))

  -- a second contribution for a slot; the trustee is disqualified before the evidence is hashed
  unfoldable pub record_equivocation : ℕ → ℕ → Text → Text → Stateful Coordinator (Unit {0})
  record_equivocation index round first second s =
      and_then
        (
          hash_equivocation index round first second,
          record s { disqualified = add_index s.disqualified index },
        )
        λ evidence_hash before. (
          ok tt,
          record before {
            equivocations =
                before.equivocations
                ++ record {
                  trustee_index = index;
                  round = round;
                  first_contribution_hash = first;
                  second_contribution_hash = second;
                  evidence_hash = evidence_hash;
                }
                  ∷ [];
          },
        )

  -- what follows the lookup of the slot
  unfoldable pub record_contribution :
      DkgContribution → Text → Option DkgContribution → Stateful Coordinator (Unit {0})
  record_contribution k hash (some existing) s =
      and_then (hash_dkg_contribution v existing.unsigned, s)
        λ existing_hash before.
          if text_eq existing_hash hash
          then (ok tt, before)
          else record_equivocation k.unsigned.trustee_index k.unsigned.round existing_hash hash
              before
  record_contribution k hash none s =
      and_then (check_parent s k, s)
        λ _ before. (
          ok tt,
          record before {
            contributions =
                before.contributions
                ++ record { index = k.unsigned.trustee_index; round = k.unsigned.round; kept = k }
                  ∷ [];
          },
        )

module _ (v : Viem) (curve : Signatures) where
  -- the assertions of `addContribution`, and the hash of what has passed them
  unfoldable pub check_contribution : Coordinator → DkgContribution → Result Text
  check_contribution s k = do
    guard (not s.finalized) (assertion "ceremony is already finalized")
    guard (text_eq (lower k.unsigned.ceremony_id) s.ceremony_id) (assertion "wrong ceremony")
    guard (text_eq (lower k.unsigned.national_election_id) s.national_election_id)
        (assertion "wrong national election")
    guard (text_eq (lower k.unsigned.constituency_id) s.constituency_id)
        (assertion "wrong constituency")
    public_key ←
        required (find_trustee k.unsigned.trustee_index s.trustees) (assertion "unknown trustee")
    guard (verify_dkg_contribution v curve k public_key) (assertion "invalid trustee signature")
    hash_dkg_contribution v k.unsigned

  unfoldable pub add_contribution : DkgContribution → Stateful Coordinator (Unit {0})
  add_contribution k s =
      and_then (check_contribution s k, s)
        λ hash before.
          record_contribution v k hash
            (find_contribution k.unsigned.trustee_index k.unsigned.round before.contributions)
            before

-- the `filter` of `finalize`
unfoldable pub is_qualified : Coordinator → ℕ → Bool
is_qualified s index =
    not (has_index index s.disqualified)
    && is_some (find_contribution index 1 s.contributions)
    && is_some (find_contribution index 2 s.contributions)

unfoldable pub qualified_indexes : Coordinator → List ℕ
qualified_indexes s =
    sort_by leb (filter_index (is_qualified s) (map (λ t. t.trustee_index) s.trustees))

module _ (v : Viem) where
  unfoldable pub slot_hash : Coordinator → ℕ → ℕ → Result Text
  slot_hash s index round = do
    k ← required (find_contribution index round s.contributions) type_error
    hash_dkg_contribution v k.unsigned

  unfoldable pub both_hashes : Coordinator → ℕ → Result (Text × Text)
  both_hashes s index = do
    first ← slot_hash s index 1
    second ← slot_hash s index 2
    ok (first, second)

  unfoldable pub make_transcript : Coordinator → Text → Text → Result SignedDkgTranscript
  make_transcript s election_public_key trustee_keyset_hash = do
    guard (not s.finalized) (assertion "ceremony is already finalized")
    guard (v.is_hex election_public_key && ltb 4 (length election_public_key))
        (assertion "invalid election public key")
    require_bytes32 v trustee_keyset_hash (plain "trusteeKeysetHash")
    let qualified = qualified_indexes s
    guard (leb dkg_threshold (length qualified))
        (assertion "fewer than five qualified trustees survived")
    let disqualified = sort_by leb s.disqualified
    hashes ← map_result (both_hashes s) qualified
    let evidence = sort_texts (map (λ e. e.evidence_hash) s.equivocations)
    transcript_hash ← hash_abi v (
        bytes32 (domain_hash v "SVB_PEDERSEN_DKG_TRANSCRIPT_V1")
        ∷ uint 8 dkg_transcript_version
        ∷ bytes32 s.ceremony_id
        ∷ bytes32 s.national_election_id
        ∷ bytes32 s.constituency_id
        ∷ uint 8 dkg_threshold
        ∷ uint 8 dkg_trustee_count
        ∷ uint_list 8 qualified
        ∷ uint_list 8 disqualified
        ∷ bytes32_list (flatten hashes)
        ∷ bytes32_list evidence
        ∷ bytes (lower election_public_key)
        ∷ bytes32 (lower trustee_keyset_hash)
        ∷ [])
    ok (record {
      version = dkg_transcript_version;
      ceremony_id = s.ceremony_id;
      national_election_id = s.national_election_id;
      constituency_id = s.constituency_id;
      threshold = dkg_threshold;
      trustee_count = dkg_trustee_count;
      qualified_trustee_indexes = qualified;
      disqualified_trustee_indexes = disqualified;
      contribution_hashes = flatten hashes;
      equivocation_evidence_hashes = evidence;
      election_public_key = lower election_public_key;
      trustee_keyset_hash = lower trustee_keyset_hash;
      transcript_hash = transcript_hash;
    })

  -- The state changes only once everything that may throw is done.
  unfoldable pub finalize : Text → Text → Stateful Coordinator SignedDkgTranscript
  finalize election_public_key trustee_keyset_hash s =
      and_then (make_transcript s election_public_key trustee_keyset_hash, s)
        λ transcript before. (ok transcript, record before { finalized = true })
