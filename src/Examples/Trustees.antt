-- ===== src/Examples/Trustees.antt =====
-- Two trustees of a threshold of two: their key shares, their decryption shares and the counts.
use scalable_blockchain_voti.Prelude.{
  ℕ, zero, suc, ◌+◌, ◌<◌, ◌≡◌, refl, true, false, none, some, List, [], ◌∷◌, map, get_elem?, arith,
  length, ◌≤◌,
}
use scalable_blockchain_voti.Outcome.{Result, ok, err, plain}
use scalable_blockchain_voti.Js.Texts.{Text, text, lower}
use scalable_blockchain_voti.Js.Numbers.{Number, natural}
use scalable_blockchain_voti.Js.Digits.{digits_before, show_radix, pad_start}
use scalable_blockchain_voti.Js.Integers.{mod_order}
use scalable_blockchain_voti.Package.Ciphertext.{BallotCiphertext}
use scalable_blockchain_voti.Tally.Shares.{
  TallyDecryptionShare, scalar_from_hex, check_proofs, validate_tally_decryption_share,
  decryption_share_challenge, scalar_from_private_key,
}
use scalable_blockchain_voti.Curve.{point_to_hex}
use scalable_blockchain_voti.Threshold.{
  ThresholdKeyShare, ThresholdElectionKeySet, inverse_loop, mod_inverse, lagrange_loop,
  lagrange_coefficient_at_zero, share_loop, scalar_to_hex, given_coefficients, pick_secret,
  pick_coefficients, key_share, create_threshold_election_key_shares,
}
use scalable_blockchain_voti.Threshold.Shares.{
  share_part, create_tally_decryption_share, verify_pair, verify_pairs, verify_share, caught,
  verify_tally_decryption_share, check_shares, weigh, combine, share_point_of, select_shares,
  count_with_shares, decrypt_aggregated_tally_with_shares,
}
use scalable_blockchain_voti.Threshold.Combined.{
  Held, weighted_of, AllHonest, decrypt_aggregated_tally_with_shares-refines,
}
use scalable_blockchain_voti.Elgamal.{range}
use scalable_blockchain_voti.Elgamal.Decryption.{decrypt_aggregated_tally}
use scalable_blockchain_voti.Elgamal.Encrypted.{
  Encrypts, IsEncryption, one_for, encrypt_ballot_selection-IsEncryption,
}
use scalable_blockchain_voti.Elgamal.Lookup.{multiple}
use scalable_blockchain_voti.Threshold.Polynomial.{
  IsShareOf, create_threshold_election_key_shares-evaluate,
}
use scalable_blockchain_voti.Threshold.Inverse.{lagrange_coefficient_at_zero_total}
use scalable_blockchain_voti.Curve.Multiples.{times}
use scalable_blockchain_voti.Tally.{hash_election_public_key}
use scalable_blockchain_voti.Examples.Toy.{toy, toy_laws}
use scalable_blockchain_voti.Examples.Ring.{ring, ring_laws, five}
use scalable_blockchain_voti.Examples.Election.{
  election_suite, one, public_key, cast, cast_first, derived,
}

unfoldable trustee_suite : Unit {0}
unfolding election_suite digits_before show_radix pad_start mod_order scalar_from_hex check_proofs
    validate_tally_decryption_share decryption_share_challenge inverse_loop mod_inverse
    lagrange_loop lagrange_coefficient_at_zero share_loop scalar_to_hex given_coefficients
    pick_secret pick_coefficients key_share create_threshold_election_key_shares share_part
    create_tally_decryption_share verify_pair verify_pairs verify_share caught
    verify_tally_decryption_share check_shares weigh combine share_point_of select_shares
    count_with_shares decrypt_aggregated_tally_with_shares
trustee_suite = tt

lagrange_first : lagrange_coefficient_at_zero 5 1 (1 ∷ 2 ∷ []) ≡ ok 2
unfolding trustee_suite
lagrange_first = refl

lagrange_second : lagrange_coefficient_at_zero 5 2 (1 ∷ 2 ∷ []) ≡ ok 4
unfolding trustee_suite
lagrange_second = refl

abbrev empty_set : ThresholdElectionKeySet
empty_set = record {
  threshold = 0;
  trustee_count = 0;
  public_key = [];
  public_key_hash = [];
  shares = [];
}

abbrev or_empty : Result ThresholdElectionKeySet → ThresholdElectionKeySet
or_empty (ok set) = set
or_empty (err e) = empty_set

abbrev run : Result ThresholdElectionKeySet
run =
    create_threshold_election_key_shares toy ring one (λ i. one) (some one) (natural 2) (natural 3)
      (some (one ∷ []))

abbrev key_set : ThresholdElectionKeySet
key_set = or_empty run

keys_made : run ≡ ok key_set
unfolding trustee_suite
keys_made = refl

abbrev two_bytes : Text
two_bytes = text "0x0000000000000000000000000000000000000000000000000000000000000002"

abbrev three_bytes : Text
three_bytes = text "0x0000000000000000000000000000000000000000000000000000000000000003"

abbrev four_bytes : Text
four_bytes = text "0x0000000000000000000000000000000000000000000000000000000000000004"

abbrev ciphertext : BallotCiphertext
ciphertext = (cast 0).ciphertext

abbrev created : Number → Text → Text → Result TallyDecryptionShare
created index key nonce =
    create_tally_decryption_share toy ring (λ i. nonce) index key ciphertext none

abbrev no_share : TallyDecryptionShare
no_share = record {
  keys = [];
  scheme = [];
  trustee_index = natural 0;
  trustee_public_share = [];
  election_public_key_hash = [];
  decryption_share_points = [];
  proofs = [];
}

abbrev or_no_share : Result TallyDecryptionShare → TallyDecryptionShare
or_no_share (ok share) = share
or_no_share (err e) = no_share

abbrev first_share : TallyDecryptionShare
first_share = or_no_share (created (natural 1) two_bytes two_bytes)

abbrev second_share : TallyDecryptionShare
second_share = or_no_share (created (natural 2) three_bytes one)

first_verified : verify_tally_decryption_share toy ring ciphertext first_share ≡ true
unfolding trustee_suite
first_verified = refl

second_verified : verify_tally_decryption_share toy ring ciphertext second_share ≡ true
unfolding trustee_suite
second_verified = refl

-- The first trustee's share is no share of the second.
renamed_refused :
    verify_tally_decryption_share toy ring ciphertext
      (record first_share { trustee_index = natural 2 })
    ≡ false
unfolding trustee_suite
renamed_refused = refl

abbrev held : List Held
held =
    (2, record { share = first_share; coefficient = 2 })
    ∷ (3, record { share = second_share; coefficient = 4 })
    ∷ []

selected :
    select_shares toy ring ciphertext (second_share ∷ first_share ∷ []) 2 ≡ ok (weighted_of held)
unfolding trustee_suite
selected = refl

pair_at :
    (i : ℕ) → i < 3 → Encrypts toy ring (multiple toy ring ring_laws 1) ciphertext i (one_for 0 i)
unfolding trustee_suite
pair_at zero h = record {
  scalar = 1;
  pair = record {
    first = public_key;
    second = text "0x020000000000000000000000000000000000000000000000000000000000000002";
    first_there = refl;
    second_there = refl;
    first_point = refl;
    second_point = refl;
    first_read = refl;
    second_read = refl;
  };
}
pair_at (suc zero) h = record {
  scalar = 1;
  pair = record {
    first = public_key;
    second = public_key;
    first_there = refl;
    second_there = refl;
    first_point = refl;
    second_point = refl;
    first_read = refl;
    second_read = refl;
  };
}
pair_at (suc (suc zero)) h = record {
  scalar = 1;
  pair = record {
    first = public_key;
    second = public_key;
    first_there = refl;
    second_there = refl;
    first_point = refl;
    second_point = refl;
    first_read = refl;
    second_read = refl;
  };
}
pair_at (suc (suc (suc i))) h = absurd (omega (arith, h))

encryption : IsEncryption toy ring (multiple toy ring ring_laws 1) 3 (one_for 0) ciphertext
unfolding trustee_suite
encryption =
    let (_, _, _, e) =
      encrypt_ballot_selection-IsEncryption toy ring toy_laws ring_laws (cast 0).fresh public_key
        (natural 3) (natural 0) (cast 0).randomness ciphertext cast_first in
    record {
      valid = e.valid;
      hash_lowered = refl;
      points_lowered = refl;
      keys_normal = refl;
      scheme_normal = refl;
      size = refl;
      encrypts = pair_at;
    }

honest :
    AllHonest toy ring ring_laws 3
      (multiple toy ring ring_laws 1)
      (one_for 0)
      ciphertext
      encryption
      held
unfolding trustee_suite encryption pair_at
honest zero h = ((refl, omega arith, omega arith), ((refl, omega arith, omega arith), tt))
honest (suc zero) h = ((refl, omega arith, omega arith), ((refl, omega arith, omega arith), tt))
honest (suc (suc zero)) h =
    ((refl, omega arith, omega arith), ((refl, omega arith, omega arith), tt))
honest (suc (suc (suc i))) h = absurd (omega (arith, h))

hashed : hash_election_public_key toy public_key ≡ ok ciphertext.election_public_key_hash
unfolding trustee_suite
hashed = refl

scalar : scalar_from_private_key toy 5 (lower one) (plain "privateKey") ≡ ok 1
unfolding trustee_suite
scalar = refl

decrypt_aggregated_tally_with_shares-refines_example :
    (decrypt_aggregated_tally_with_shares toy ring ciphertext
        (second_share ∷ first_share ∷ [])
        (natural 2)
        (natural 4)
      ≡ decrypt_aggregated_tally toy ring one ciphertext (natural 4))
    × (decrypt_aggregated_tally toy ring one ciphertext (natural 4)
        ≡ ok (map (one_for 0) (range 0 3)))
unfolding trustee_suite
decrypt_aggregated_tally_with_shares-refines_example =
    decrypt_aggregated_tally_with_shares-refines toy ring ring_laws one public_key 1 3 (natural 2)
      (natural 4) (one_for 0) ciphertext (second_share ∷ first_share ∷ []) held scalar derived
      hashed (omega arith) (omega arith) (refl, refl) (refl, refl) refl (omega arith)
      (λ i h. let small : one_for 0 i ≤ 1 = ground arith in omega (arith, small)) encryption
      selected refl honest

create_threshold_election_key_shares-evaluate_example :
    (secret : ℕ) × (scalars : List ℕ) × (secret < 5)
    × (length scalars ≡ 1)
    × (point_to_hex ring (times five secret ring.base) ≡ ok key_set.public_key)
    × ((i : ℕ)
        → i < 3
        → (share : ThresholdKeyShare) × (get_elem? key_set.shares i ≡ some share)
          × IsShareOf toy ring ring_laws secret scalars (1 + i) share)
unfolding trustee_suite
create_threshold_election_key_shares-evaluate_example =
    create_threshold_election_key_shares-evaluate toy ring ring_laws one (λ i. one) (some one)
      (natural 2) (natural 3) (some (one ∷ [])) key_set keys_made

lagrange_coefficient_at_zero_total_example :
    (r : ℕ) × (lagrange_coefficient_at_zero 5 2 (1 ∷ 2 ∷ []) ≡ ok r) × (r < 5)
lagrange_coefficient_at_zero_total_example =
    lagrange_coefficient_at_zero_total 5 2 (1 ∷ 2 ∷ []) (omega arith)
