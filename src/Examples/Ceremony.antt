-- ===== src/Examples/Ceremony.antt =====
-- A ceremony of nine trustees: five finish both rounds, and the sixth sends two contributions.
use scalable_blockchain_voti.Prelude.{
  ◌≢◌, ◌⊎◌, ℕ, ◌≤◌, ◌≡◌, refl, Bool, true, false, none, some, List, [], ◌∷◌, ◌++◌, map, length, All,
}
use scalable_blockchain_voti.Outcome.{Result, ok, err, assertion, map_result}
use scalable_blockchain_voti.Js.Texts.{Text, text, text_eq}
use scalable_blockchain_voti.Js.Sorting.Increasing.{IsIncreasing}
use scalable_blockchain_voti.Merkle.{zero_hash}
use scalable_blockchain_voti.Dkg.{
  DkgTrustee, UnsignedDkgContribution, DkgContribution, Signatures, hash_dkg_contribution,
  sign_dkg_contribution, derive_dkg_signing_public_key, require_bytes32, private_key_bytes,
  checked_signature, verify_dkg_contribution,
}
use scalable_blockchain_voti.Js.Indexes.{has_index, add_index}
use scalable_blockchain_voti.Dkg.Coordinator.{
  Coordinator, SignedDkgTranscript, new_coordinator, add_contribution, finalize, find_contribution,
  hash_equivocation, check_contribution, find_trustee, required, filter_index, flatten, register,
  check_parent, record_equivocation, record_contribution, is_qualified, qualified_indexes,
  slot_hash, both_hashes, make_transcript,
}
use scalable_blockchain_voti.Examples.Ballots.{package_suite}
use scalable_blockchain_voti.Js.Sorting.{sort_by, sort_texts}
use scalable_blockchain_voti.Dkg.Reached.{IsSound, Reached, contributed, begun, Reached-IsSound}
use scalable_blockchain_voti.Dkg.Final.{IsQualified, transcript-IsQualified, finalize_once}
use scalable_blockchain_voti.Dkg.Equivocated.{IsConflict, now, equivocator_never_qualifies}
use scalable_blockchain_voti.Dkg.Replayed.{add_times, resubmitted_once_kept}
use scalable_blockchain_voti.Dkg.Rehashed.{replays_rehash}
use scalable_blockchain_voti.Viem.Laws.{Collision}
use scalable_blockchain_voti.Examples.Toy.{toy, toy-IsCounted}

unfoldable pub dkg_suite : Unit {0}
unfolding package_suite sort_by require_bytes32 hash_dkg_contribution private_key_bytes
    derive_dkg_signing_public_key sign_dkg_contribution checked_signature verify_dkg_contribution
    find_trustee find_contribution has_index add_index required filter_index flatten register
    new_coordinator hash_equivocation check_parent record_equivocation record_contribution
    check_contribution add_contribution is_qualified qualified_indexes slot_hash both_hashes
    make_transcript finalize map_result sort_texts
dkg_suite = tt

-- A signature is the message twice.
abbrev toy_curve : Signatures
toy_curve = record {
  get_public_key = λ key. ok (text "02" ++ key);
  sign = λ message key. ok (message ++ message);
  verify = λ signature message key. ok (text_eq signature (message ++ message));
}

abbrev some_key : Text
some_key = text "0x02" ++ text "aaaaaaaaaaaaaaaaaaaaaaaaaaaaaaaaaaaaaaaaaaaaaaaaaaaaaaaaaaaaaaaa"

abbrev trustees : List DkgTrustee
trustees =
    map (λ i. record { trustee_index = i; signing_public_key = some_key })
      (3 ∷ 1 ∷ 2 ∷ 4 ∷ 9 ∷ 8 ∷ 7 ∷ 6 ∷ 5 ∷ [])

abbrev other_digest : Text
other_digest = text "0x1111111111111111111111111111111111111111111111111111111111111111"

abbrev near_digest : Text
near_digest = text "0x0000000000000000000000000000000000000000000000000000000000000001"

abbrev unsigned : ℕ → ℕ → Text → Text → UnsignedDkgContribution
unsigned i r digest parent = record {
  ceremony_id = zero_hash;
  national_election_id = zero_hash;
  constituency_id = other_digest;
  trustee_index = i;
  round = r;
  pedersen_commitment_digest = digest;
  encrypted_share_bundle_digest = zero_hash;
  previous_contribution_hash = parent;
}

abbrev or_blank : Result Text → Text
or_blank (ok t) = t
or_blank (err e) = []

abbrev signature_of : Result DkgContribution → Text
signature_of (ok k) = k.signature
signature_of (err e) = []

abbrev signed : UnsignedDkgContribution → DkgContribution
signed u = record {
  unsigned = u;
  signature = signature_of (sign_dkg_contribution toy toy_curve u zero_hash);
}

abbrev first_of : ℕ → UnsignedDkgContribution
first_of i = unsigned i 1 zero_hash zero_hash

abbrev second_of : ℕ → UnsignedDkgContribution
second_of i = unsigned i 2 other_digest (or_blank (hash_dkg_contribution toy (first_of i)))

abbrev both : List ℕ → List DkgContribution
both [] = []
both (i ∷ is) = signed (first_of i) ∷ signed (second_of i) ∷ both is

abbrev run : List DkgContribution → Coordinator → Coordinator
run [] s = s
run (k ∷ ks) s = run ks (add_contribution toy toy_curve k s).1

abbrev nothing : Coordinator
nothing = record {
  ceremony_id = [];
  national_election_id = [];
  constituency_id = [];
  trustees = [];
  contributions = [];
  disqualified = [];
  equivocations = [];
  finalized = false;
}

abbrev start : Coordinator
start = elim (new_coordinator toy zero_hash zero_hash other_digest trustees) [
  | ok s ↦ s
  | err e ↦ nothing
]

abbrev all_sent : List DkgContribution
all_sent = both (5 ∷ 1 ∷ 4 ∷ 2 ∷ 7 ∷ []) ++ signed (first_of 6) ∷ []

abbrev ready : Coordinator
ready = run all_sent start

abbrev conflicting : DkgContribution
conflicting = signed (unsigned 6 1 near_digest zero_hash)

started : new_coordinator toy zero_hash zero_hash other_digest trustees ≡ ok start
unfolding dkg_suite
started = refl

six_kept : map (λ s. s.index) ready.contributions ≡ (5 ∷ 5 ∷ 1 ∷ 1 ∷ 4 ∷ 4 ∷ 2 ∷ 2 ∷ 7 ∷ 7 ∷ 6 ∷ [])
unfolding dkg_suite
six_kept = refl

run-Reached :
    (ks : List DkgContribution) (s : Coordinator)
    → Reached toy toy_curve s
    → Reached toy toy_curve (run ks s)
run-Reached [] s r = r
run-Reached (k ∷ ks) s r =
    run-Reached ks (add_contribution toy toy_curve k s).1 (contributed k r refl)

start-Reached : Reached toy toy_curve start
start-Reached = begun zero_hash zero_hash other_digest trustees started

ready-Reached : Reached toy toy_curve ready
ready-Reached = run-Reached all_sent start start-Reached

abbrev blank_transcript : SignedDkgTranscript
blank_transcript = record {
  version = 0;
  ceremony_id = [];
  national_election_id = [];
  constituency_id = [];
  threshold = 0;
  trustee_count = 0;
  qualified_trustee_indexes = [];
  disqualified_trustee_indexes = [];
  contribution_hashes = [];
  equivocation_evidence_hashes = [];
  election_public_key = [];
  trustee_keyset_hash = [];
  transcript_hash = [];
}

abbrev or_blank_transcript : Result SignedDkgTranscript → SignedDkgTranscript
or_blank_transcript (ok t) = t
or_blank_transcript (err e) = blank_transcript

abbrev disqualified_one : Coordinator
disqualified_one = (add_contribution toy toy_curve conflicting ready).1

abbrev transcript : SignedDkgTranscript
transcript = or_blank_transcript (finalize toy some_key other_digest disqualified_one).0

abbrev closed : Coordinator
closed = (finalize toy some_key other_digest disqualified_one).1

abbrev returns {ℓ} : {A : Type ℓ} → Result A → Bool
returns (ok a) = true
returns (err e) = false

returned :
    (r : Result SignedDkgTranscript × Coordinator)
    → returns r.0 ≡ true
    → r ≡ (ok (or_blank_transcript r.0), r.1)
returned (ok t, s) h = refl
returned (err e, s) h = cc

concludes_well : returns (finalize toy some_key other_digest disqualified_one).0 ≡ true
unfolding dkg_suite
concludes_well = refl

concludes : finalize toy some_key other_digest disqualified_one ≡ (ok transcript, closed)
concludes = returned (finalize toy some_key other_digest disqualified_one) concludes_well

five_qualify : transcript.qualified_trustee_indexes ≡ (1 ∷ 2 ∷ 4 ∷ 5 ∷ 7 ∷ [])
unfolding dkg_suite
five_qualify = refl

six_is_out : transcript.disqualified_trustee_indexes ≡ (6 ∷ [])
unfolding dkg_suite
six_is_out = refl

abbrev conflicting_hash : Text
conflicting_hash = or_blank (hash_dkg_contribution toy conflicting.unsigned)

abbrev kept_hash : Text
kept_hash = or_blank (hash_dkg_contribution toy (first_of 6))

accepted_again : check_contribution toy toy_curve ready conflicting ≡ ok conflicting_hash
unfolding dkg_suite
accepted_again = refl

kept_before : find_contribution 6 1 ready.contributions ≡ some (signed (first_of 6))
unfolding dkg_suite
kept_before = refl

hashed_before : hash_dkg_contribution toy (signed (first_of 6)).unsigned ≡ ok kept_hash
unfolding dkg_suite
hashed_before = refl

hashes_differ : text_eq kept_hash conflicting_hash ≡ false
unfolding dkg_suite
hashes_differ = refl

abbrev conflict : IsConflict toy toy_curve ready conflicting
conflict = record {
  hash = conflicting_hash;
  kept = signed (first_of 6);
  kept_hash = kept_hash;
  accepted = accepted_again;
  there_before = kept_before;
  hashed = hashed_before;
  differs = hashes_differ;
}

abbrev evidence : Text
evidence = or_blank (hash_equivocation toy 6 1 kept_hash conflicting_hash)

evidence_made : hash_equivocation toy 6 1 kept_hash conflicting_hash ≡ ok evidence
unfolding dkg_suite
evidence_made = refl

not_yet : find_contribution 5 1 start.contributions ≡ none
unfolding dkg_suite
not_yet = refl

abbrev five_first : Coordinator
five_first = (add_contribution toy toy_curve (signed (first_of 5)) start).1

taken : add_contribution toy toy_curve (signed (first_of 5)) start ≡ (ok tt, five_first)
unfolding dkg_suite
taken = refl

Reached-IsSound_example : IsSound toy toy_curve ready
Reached-IsSound_example = Reached-IsSound toy toy_curve ready-Reached

transcript-IsQualified_example :
    (5 ≤ length transcript.qualified_trustee_indexes)
    × IsIncreasing transcript.qualified_trustee_indexes
    × All (IsQualified toy toy_curve disqualified_one) transcript.qualified_trustee_indexes
    × (closed.finalized ≡ true)
transcript-IsQualified_example =
    transcript-IsQualified toy toy_curve disqualified_one closed some_key other_digest transcript
      (contributed conflicting ready-Reached refl) concludes

finalize_once_example :
    ((k : DkgContribution)
      → add_contribution toy toy_curve k closed
        ≡ (err (assertion "ceremony is already finalized"), closed))
    × ((key' keyset' : Text)
        → finalize toy key' keyset' closed
          ≡ (err (assertion "ceremony is already finalized"), closed))
finalize_once_example =
    finalize_once toy toy_curve disqualified_one closed some_key other_digest transcript concludes

equivocator_never_qualifies_example : has_index 6 transcript.qualified_trustee_indexes ≡ false
equivocator_never_qualifies_example =
    equivocator_never_qualifies toy toy_curve ready disqualified_one closed conflicting some_key
      other_digest transcript ready-Reached conflict now concludes

abbrev sent_twice : Result SignedDkgTranscript × Coordinator
sent_twice = finalize toy some_key other_digest (add_times toy toy_curve 2 conflicting ready)

twice_concludes : sent_twice ≡ (ok (or_blank_transcript sent_twice.0), sent_twice.1)
unfolding dkg_suite
twice_concludes = returned sent_twice refl

replays_rehash_example :
    (transcript.transcript_hash ≢ (or_blank_transcript sent_twice.0).transcript_hash)
    ⊎ Collision toy
replays_rehash_example =
    replays_rehash toy toy_curve toy-IsCounted 1 2 (λ e. cc e) ready conflicting conflict evidence
      evidence_made some_key other_digest transcript (or_blank_transcript sent_twice.0) closed
      sent_twice.1 concludes twice_concludes

resubmitted_once_kept_example :
    add_contribution toy toy_curve (signed (first_of 5)) five_first ≡ (ok tt, five_first)
resubmitted_once_kept_example =
    resubmitted_once_kept toy toy_curve start five_first (signed (first_of 5)) not_yet taken
