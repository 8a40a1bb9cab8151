-- ===== src/Examples/Election.antt =====
-- An election of two voters and three candidates, from the key pair to the counts.
use scalable_blockchain_voti.Prelude.{ℕ, ◌≡◌, refl, none, some, List, [], ◌∷◌, map, arith}
use scalable_blockchain_voti.Outcome.{Result, ok, err, map_result, assertion}
use scalable_blockchain_voti.Js.Texts.{Text, text}
use scalable_blockchain_voti.Js.Numbers.{natural, negative}
use scalable_blockchain_voti.Merkle.{present}
use scalable_blockchain_voti.Package.Ciphertext.{BallotCiphertext}
use scalable_blockchain_voti.Dkg.Coordinator.{required, flatten}
use scalable_blockchain_voti.Tally.{hash_election_public_key}
use scalable_blockchain_voti.Tally.Shares.{scalar_from_private_key, hex_digits}
use scalable_blockchain_voti.Curve.{point_to_hex, point_from_hex}
use scalable_blockchain_voti.Elgamal.{
  range, derive_election_public_key, create_election_key_pair, encrypt_one,
  encrypt_ballot_selection, point_at, scalar_given, add_ciphertexts, aggregate_pair, check_alike,
  aggregate_normalized, aggregate_ballot_ciphertexts,
}
use scalable_blockchain_voti.Elgamal.Decryption.{
  find_count, fill_lookup, build_tally_lookup, message_key, count_at, decrypt_ciphertext_counts,
  decrypt_for_key, decrypt_ballot_selection, decrypt_aggregated_tally,
}
use scalable_blockchain_voti.Elgamal.Encrypted.{one_for}
use scalable_blockchain_voti.Elgamal.Counted.{
  Cast, votes_for, cast_ciphertexts, decrypt_aggregated_tally-counts,
  decrypt_ballot_selection-choice,
}
use scalable_blockchain_voti.Examples.Toy.{toy, toy_laws}
use scalable_blockchain_voti.Examples.Ring.{ring, ring_laws, write_point, read_point}
use scalable_blockchain_voti.Examples.Ballots.{package_suite, ballot}

unfoldable pub election_suite : Unit {0}
unfolding scalar_given package_suite hash_election_public_key scalar_from_private_key hex_digits
    point_to_hex point_from_hex required flatten present map_result write_point read_point range
    find_count derive_election_public_key create_election_key_pair encrypt_one
    encrypt_ballot_selection point_at add_ciphertexts aggregate_pair check_alike
    aggregate_normalized aggregate_ballot_ciphertexts fill_lookup build_tally_lookup message_key
    count_at decrypt_ciphertext_counts decrypt_for_key decrypt_ballot_selection
    decrypt_aggregated_tally
election_suite = tt

abbrev pub one : Text
one = text "0x0000000000000000000000000000000000000000000000000000000000000001"

abbrev pub public_key : Text
public_key = text "0x020000000000000000000000000000000000000000000000000000000000000001"

abbrev pub or_ballot : Result BallotCiphertext → BallotCiphertext
or_ballot (ok ciphertext) = ciphertext
or_ballot (err e) = ballot

pub derived : derive_election_public_key toy ring one ≡ ok public_key
unfolding election_suite
derived = refl

abbrev pub encrypted : ℕ → Result BallotCiphertext
encrypted selected =
    encrypt_ballot_selection toy ring (λ i. one) public_key (natural 3) (natural selected)
      (some (one ∷ one ∷ one ∷ []))

abbrev pub cast : ℕ → Cast
cast selected = record {
  fresh = λ i. one;
  selected = natural selected;
  randomness = some (one ∷ one ∷ one ∷ []);
  ciphertext = or_ballot (encrypted selected);
}

pub cast_first : encrypted 0 ≡ ok (cast 0).ciphertext
unfolding election_suite
cast_first = refl

cast_last : encrypted 2 ≡ ok (cast 2).ciphertext
unfolding election_suite
cast_last = refl

abbrev casts : List Cast
casts = cast 0 ∷ cast 2 ∷ []

abbrev total : BallotCiphertext
total = or_ballot (aggregate_ballot_ciphertexts toy ring (cast_ciphertexts casts))

summed : aggregate_ballot_ciphertexts toy ring (cast_ciphertexts casts) ≡ ok total
unfolding election_suite
summed = refl

counts_run : decrypt_aggregated_tally toy ring one total (natural 4) ≡ ok (1 ∷ 0 ∷ 1 ∷ [])
unfolding election_suite
counts_run = refl

selection_refused :
    encrypt_ballot_selection toy ring (λ i. one) public_key (natural 3) (natural 3) none
    ≡ err (assertion "selectedIndex out of range")
unfolding election_suite
selection_refused = refl

negative_refused :
    decrypt_aggregated_tally toy ring one total (negative 0)
    ≡ err (assertion "maxVotes cannot be negative")
unfolding election_suite
negative_refused = refl

none_refused :
    aggregate_ballot_ciphertexts toy ring [] ≡ err (assertion "at least one ciphertext is required")
unfolding election_suite
none_refused = refl

decrypt_aggregated_tally-counts_example :
    decrypt_aggregated_tally toy ring one total (natural 4) ≡ ok (map (votes_for casts) (range 0 3))
unfolding election_suite
decrypt_aggregated_tally-counts_example =
    decrypt_aggregated_tally-counts toy ring toy_laws ring_laws one public_key (natural 3)
      (natural 4) (cast 0) (cast 2 ∷ []) total derived (cast_first, (cast_last, tt)) summed refl
      refl (omega arith) (omega arith)

decrypt_ballot_selection-choice_example :
    decrypt_ballot_selection toy ring one (cast 2).ciphertext ≡ ok (map (one_for 2) (range 0 3))
unfolding election_suite
decrypt_ballot_selection-choice_example =
    decrypt_ballot_selection-choice toy ring toy_laws ring_laws one public_key (natural 3) (cast 2)
      derived cast_last (omega arith)
