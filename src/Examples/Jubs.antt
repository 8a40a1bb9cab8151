-- ===== src/Examples/Jubs.antt =====
-- The key sets over Baby Jubjub, with toy libraries.
use scalable_blockchain_voti.Prelude.{
  ℕ, ◌+◌, ◌-◌, ◌*◌, ◌%◌, ◌<◌, ◌≤◌, ◌≡◌, refl, ◌==◌, true, All, none, some, List, [], ◌∷◌, map,
  length, get_elem?,
}
use scalable_blockchain_voti.Outcome.{Result, ok, err}
use scalable_blockchain_voti.Js.Integers.{mod_order}
use scalable_blockchain_voti.Jub.{
  BabyJub, CiphertextJson, babyjub_subgroup_order, proof_compatible_ballot_scheme,
  ciphertext_json_keys, from_field_point, find_message,
}
use scalable_blockchain_voti.Threshold.{share_loop}
use scalable_blockchain_voti.Threshold.Shares.{has_number}
use scalable_blockchain_voti.Js.Texts.{Text, text}
use scalable_blockchain_voti.Js.Numbers.{natural}
use scalable_blockchain_voti.Examples.Toy.{toy}
use scalable_blockchain_voti.Examples.Snarks.{plain_jub, seven_bytes, snark_suite}
use scalable_blockchain_voti.Jub.Keys.{
  subgroup_loop, subgroup_inverse, subgroup_lagrange_loop, subgroup_lagrange, JubKeyShare,
  JubKeySet, assert_scalar, assert_scalars, subgroup_coefficients, jub_key_share,
  create_proof_compatible_threshold_key_set,
}
use scalable_blockchain_voti.Jub.Shares.{
  JubDecryptionShare, big_int, coordinates_of, jub_challenge, jub_part,
  create_proof_compatible_decryption_share,
}
use scalable_blockchain_voti.Jub.Decryption.{
  all_different, verify_jub_pair, verify_jub_pairs, verify_jub_share,
  verify_proof_compatible_decryption_share, check_jub_shares, combine_jub, count_jub,
  decrypt_proof_compatible_tally_with_shares,
}
use scalable_blockchain_voti.Jub.Opened.{
  IsOpened, decrypt_proof_compatible_tally_with_shares-verified,
}
use scalable_blockchain_voti.Jub.Dealt.{
  IsJubShareOf, create_proof_compatible_threshold_key_set-evaluate,
}

abbrev jub_made : Result JubKeySet
jub_made =
    create_proof_compatible_threshold_key_set toy plain_jub 7 (λ i. i) (natural 2) (natural 3)
      (some 5) (some (4 ∷ []))

no_set : JubKeySet
no_set = record {
  threshold = 0;
  trustee_count = 0;
  public_key = ([], []);
  public_key_hash = [];
  shares = [];
}

abbrev or_no_set : Result JubKeySet → JubKeySet
or_no_set (ok set) = set
or_no_set (err e) = no_set

abbrev jub_set : JubKeySet
jub_set = or_no_set jub_made

create_proof_compatible_threshold_key_set-evaluate_example :
    (secret : ℕ) × (scalars : List ℕ) × (secret < babyjub_subgroup_order)
    × (length scalars ≡ 1)
    × (jub_set.public_key
        ≡ from_field_point plain_jub (plain_jub.mul_point_escalar plain_jub.base8 secret))
    × ((i : ℕ)
        → i < 3
        → (share : JubKeyShare) × (get_elem? jub_set.shares i ≡ some share)
          × IsJubShareOf toy plain_jub secret scalars (1 + i) share)
unfolding snark_suite mod_order share_loop assert_scalar assert_scalars subgroup_coefficients
    jub_key_share create_proof_compatible_threshold_key_set
create_proof_compatible_threshold_key_set-evaluate_example =
    create_proof_compatible_threshold_key_set-evaluate toy plain_jub 7 (λ i. i) (natural 2)
      (natural 3) (some 5) (some (4 ∷ [])) jub_set refl

-- the points of a line, whose second coordinate is one: the first coordinates are added
abbrev line_jub : BabyJub ℕ
line_jub = record {
  e = λ n. n;
  to_object = λ n. n;
  neg = λ n. (babyjub_subgroup_order - n) % babyjub_subgroup_order;
  eq = λ m n. m == n;
  base8 = (1, 1);
  add_point = λ p q. ((p.0 + q.0) % babyjub_subgroup_order, 1);
  mul_point_escalar = λ p n. ((n * p.0) % babyjub_subgroup_order, 1);
  in_subgroup = λ p. true;
}

-- of the private key 5, the randomness 1, 2, 3 and 4, and the counts 1, 0, 2 and 0
abbrev line_ciphertext : CiphertextJson
line_ciphertext = record {
  keys = ciphertext_json_keys;
  scheme = proof_compatible_ballot_scheme;
  election_public_key_hash = seven_bytes;
  election_public_key = (text "5", text "1");
  c1 =
      (text "1", text "1")
      ∷ (text "2", text "1")
      ∷ (text "3", text "1")
      ∷ (text "4", text "1")
      ∷ [];
  c2 =
      (text "6", text "1")
      ∷ (text "10", text "1")
      ∷ (text "17", text "1")
      ∷ (text "20", text "1")
      ∷ [];
}

abbrev line_share : ℕ → Text → Result JubDecryptionShare
line_share index private =
    create_proof_compatible_decryption_share toy line_jub (λ i. 1 + i) index private line_ciphertext
      none

no_jub_share : JubDecryptionShare
no_jub_share = record {
  scheme = [];
  trustee_index = 0;
  trustee_public_share = ([], []);
  election_public_key_hash = [];
  decryption_share_points = [];
  proofs = [];
}

abbrev or_no_jub_share : Result JubDecryptionShare → JubDecryptionShare
or_no_jub_share (ok share) = share
or_no_jub_share (err e) = no_jub_share

abbrev line_shares : List JubDecryptionShare
line_shares =
    or_no_jub_share (line_share 1 (text "9")) ∷ or_no_jub_share (line_share 2 (text "13")) ∷ []

abbrev line_counts : List ℕ
line_counts = 1 ∷ 0 ∷ 2 ∷ 0 ∷ []

unfoldable jub_suite : Unit {0}
unfolding mod_order assert_scalar subgroup_loop subgroup_inverse subgroup_lagrange_loop
    subgroup_lagrange big_int coordinates_of all_different jub_challenge jub_part
    create_proof_compatible_decryption_share verify_jub_pair verify_jub_pairs verify_jub_share
    verify_proof_compatible_decryption_share check_jub_shares combine_jub count_jub has_number
    find_message decrypt_proof_compatible_tally_with_shares
jub_suite = tt

opened_counts :
    decrypt_proof_compatible_tally_with_shares toy line_jub line_ciphertext line_shares 2 3
    ≡ ok line_counts
unfolding snark_suite jub_suite
opened_counts = refl

-- the second share is of a private value that is not on the line of the first and the private key
abbrev forged_shares : List JubDecryptionShare
forged_shares =
    or_no_jub_share (line_share 1 (text "9")) ∷ or_no_jub_share (line_share 2 (text "14")) ∷ []

forged_counts :
    decrypt_proof_compatible_tally_with_shares toy line_jub line_ciphertext forged_shares 2 5
    ≡ ok (2 ∷ 2 ∷ 5 ∷ 4 ∷ [])
unfolding snark_suite jub_suite
forged_counts = refl

decrypt_proof_compatible_tally_with_shares-verified_example :
    (2 ≤ 2)
    × (all_different (map (λ share. share.trustee_index) line_shares) ≡ true)
    × All
        (λ share.
          verify_proof_compatible_decryption_share toy line_jub line_ciphertext share ≡ true)
        line_shares
    × ((i : ℕ)
        → i < 4
        → (count : ℕ) × (get_elem? line_counts i ≡ some count)
          × IsOpened toy line_jub line_ciphertext line_shares 3 i count)
decrypt_proof_compatible_tally_with_shares-verified_example =
    decrypt_proof_compatible_tally_with_shares-verified toy line_jub line_ciphertext line_shares 2 3
      line_counts opened_counts
