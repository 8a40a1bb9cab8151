-- ===== src/Jub.antt =====
-- The ciphertexts over Baby Jubjub of packages/crypto/src/proofCompatiblePipeline.ts: their checks,
-- digest, aggregation and decryption, which both pipelines use.
pub mod Keys
pub mod Shares
pub mod Decryption
pub mod Dealt
pub mod Opened
use scalable_blockchain_voti.Prelude.{
  ℕ, ◌+◌, String, Bool, true, false, ◌&&◌, Option, none, some, List, [], ◌∷◌, ◌++◌, map, length,
  get_elem?, ltb, ◌==◌, if◌then◌else◌,
}
use scalable_blockchain_voti.Outcome.{
  Label, plain, at_field, Result, ok, err, unlabelled, type_error, assertion, labelled, guard,
  map_result, ◌>>=◌, ◌>>◌,
}
use scalable_blockchain_voti.Js.Texts.{Text, text, lower, text_eq}
use scalable_blockchain_voti.Js.Numbers.{Number, is_integer, at_least, to_natural}
use scalable_blockchain_voti.Js.Digits.{show_radix, pad_start, is_decimal, decimal}
use scalable_blockchain_voti.Js.Sorting.{sort_texts}
use scalable_blockchain_voti.Viem.{
  Viem, is_bytes32, uint_array, uint_list, bytes32, domain_hash, hash_abi,
}
use scalable_blockchain_voti.Dkg.Coordinator.{required}
use scalable_blockchain_voti.Package.Points.{texts_eq}
use scalable_blockchain_voti.Eligibility.Commitments.{
  snark_scalar_field, proof_compatible_candidate_count, BabyJubPoint, flat,
}
use scalable_blockchain_voti.Elgamal.{range}

-- What `buildBabyjub` of `circomlibjs` returns: `e` and `to_object` are those of its field `F`.
pub record BabyJub (F : Type 0) : Type 0 where
  pub e : ℕ → F
  pub to_object : F → ℕ
  pub neg : F → F
  pub eq : F → F → Bool
  pub base8 : F × F
  pub add_point : F × F → F × F → F × F
  pub mul_point_escalar : F × F → ℕ → F × F
  pub in_subgroup : F × F → Bool

abbrev pub babyjub_subgroup_order : ℕ
babyjub_subgroup_order =
    2736030358979909402780800718157159386076813972158567259200215660948447373041

-- two coordinates in decimal; what follows the checks of a package reads them as such
abbrev pub DecimalPoint : Type 0
DecimalPoint = Text × Text

abbrev pub proof_compatible_ballot_scheme : Text
proof_compatible_ballot_scheme = text "ec-elgamal-babyjubjub-affine-v1"

pub record CiphertextJson : Type 0 where
  pub keys : List Text
  pub scheme : Text
  pub election_public_key_hash : Text
  pub election_public_key : DecimalPoint
  pub c1 : List DecimalPoint
  pub c2 : List DecimalPoint

abbrev pub ciphertext_json_keys : List Text
ciphertext_json_keys =
    text "scheme"
    ∷ text "electionPublicKeyHash"
    ∷ text "electionPublicKey"
    ∷ text "c1"
    ∷ text "c2"
    ∷ []

unfoldable pub only_keys : List Text → List Text → String → Result (Unit {0})
only_keys actual expected label =
    guard (texts_eq (sort_texts actual) (sort_texts expected))
      (labelled (plain label) "contains unsupported or missing fields")

unfoldable pub decimal_to_natural : Text → Label → Result ℕ
decimal_to_natural value label = do
  guard (is_decimal value) (labelled label "must be a decimal field element")
  guard (ltb (decimal 0 value) snark_scalar_field) (labelled label "exceeds the SNARK field")
  ok (decimal 0 value)

-- the length of a point is that of its type
unfoldable pub normalize_point : DecimalPoint → (x_label y_label : Label) → Result DecimalPoint
normalize_point point x_label y_label = do
  x ← decimal_to_natural point.0 x_label
  y ← decimal_to_natural point.1 y_label
  ok (show_radix 10 x, show_radix 10 y)

-- points.map((point, index) => normalizePoint(point, `${name}[${index}]`))
unfoldable pub normalize_points : String → ℕ → List DecimalPoint → Result (List DecimalPoint)
normalize_points name index [] = ok []
normalize_points name index (point ∷ points) = do
  normal ← normalize_point point (at_field name index "x") (at_field name index "y")
  rest ← normalize_points name (index + 1) points
  ok (normal ∷ rest)

unfoldable pub point_to_naturals : DecimalPoint → BabyJubPoint
point_to_naturals point = (decimal 0 point.0, decimal 0 point.1)

unfoldable pub commitment_to_bytes32 : ℕ → Result Text
commitment_to_bytes32 commitment = do
  guard (ltb commitment snark_scalar_field) unlabelled
  ok (text "0x" ++ pad_start 64 (show_radix 16 commitment))

-- deepEqual of two arrays of numbers
unfoldable pub naturals_eq : List ℕ → List ℕ → Bool
naturals_eq [] [] = true
naturals_eq [] (n ∷ ns) = false
naturals_eq (m ∷ ms) [] = false
naturals_eq (m ∷ ms) (n ∷ ns) = m == n && naturals_eq ms ns

module _ (v : Viem) where
  unfoldable pub assert_hex32 : Text → String → Result (Unit {0})
  assert_hex32 value label =
      guard (is_bytes32 v value) (labelled (plain label) "must be a bytes32 hex string")

  unfoldable pub hash_proof_compatible_election_public_key : BabyJubPoint → Result Text
  hash_proof_compatible_election_public_key (x, y) = hash_abi v (uint_array 256 2 (x ∷ y ∷ []) ∷ [])

  -- the checks of a package's ciphertext; `name` is its name in a message
  unfoldable pub validate_ciphertext_json : String → CiphertextJson → Result CiphertextJson
  validate_ciphertext_json name input = do
    only_keys input.keys ciphertext_json_keys name
    guard (text_eq input.scheme proof_compatible_ballot_scheme) unlabelled
    assert_hex32 input.election_public_key_hash "electionPublicKeyHash"
    guard (length input.c1 == proof_compatible_candidate_count) unlabelled
    guard (length input.c2 == proof_compatible_candidate_count) unlabelled
    key ←
        normalize_point input.election_public_key (plain "electionPublicKey.x")
          (plain "electionPublicKey.y")
    c1 ← normalize_points "c1" 0 input.c1
    c2 ← normalize_points "c2" 0 input.c2
    hash ← hash_proof_compatible_election_public_key (point_to_naturals key)
    guard (text_eq (lower input.election_public_key_hash) hash)
        (assertion "election public key hash mismatch")
    ok (record {
      keys = ciphertext_json_keys;
      scheme = proof_compatible_ballot_scheme;
      election_public_key_hash = lower input.election_public_key_hash;
      election_public_key = key;
      c1 = c1;
      c2 = c2;
    })

  unfoldable pub digest_proof_compatible_ciphertext : CiphertextJson → Result Text
  digest_proof_compatible_ciphertext ciphertext = hash_abi v (
      bytes32 (domain_hash v "SVB_BALLOT_CIPHERTEXT_V2")
      ∷ bytes32 (v.keccak256 (v.string_to_hex ciphertext.scheme))
      ∷ bytes32 ciphertext.election_public_key_hash
      ∷ uint_list 256 (
          flat (
            map point_to_naturals
              (ciphertext.election_public_key ∷ (ciphertext.c1 ++ ciphertext.c2))))
      ∷ [])

module _ {F : Type 0} (jub : BabyJub F) where
  abbrev pub to_field_point : DecimalPoint → F × F
  to_field_point point = (jub.e (decimal 0 point.0), jub.e (decimal 0 point.1))

  abbrev pub from_field_point : F × F → DecimalPoint
  from_field_point point =
      (show_radix 10 (jub.to_object point.0), show_radix 10 (jub.to_object point.1))

  abbrev pub same_point : F × F → F × F → Bool
  same_point p q = jub.eq p.0 q.0 && jub.eq p.1 q.1

  -- the loop that checks the ciphertexts against the first
  unfoldable pub check_ciphertexts : Text → DecimalPoint → List CiphertextJson → Result (Unit {0})
  check_ciphertexts key_hash public_key [] = ok tt
  check_ciphertexts key_hash public_key (ciphertext ∷ rest) = do
    guard (text_eq ciphertext.scheme proof_compatible_ballot_scheme) unlabelled
    guard (text_eq (lower ciphertext.election_public_key_hash) key_hash) unlabelled
    guard
        (text_eq ciphertext.election_public_key.0 public_key.0
          && text_eq ciphertext.election_public_key.1 public_key.1)
        unlabelled
    guard (length ciphertext.c1 == proof_compatible_candidate_count) unlabelled
    guard (length ciphertext.c2 == proof_compatible_candidate_count) unlabelled
    check_ciphertexts key_hash public_key rest

  -- the inner loop, over the points at one place of the other ciphertexts
  unfoldable pub add_points : F × F → List DecimalPoint → F × F
  add_points sum [] = sum
  add_points sum (point ∷ points) = add_points (jub.add_point sum (to_field_point point)) points

  -- the points at one place, summed
  unfoldable pub sum_at_place :
      (CiphertextJson → List DecimalPoint)
      → CiphertextJson
      → List CiphertextJson
      → ℕ
      → Result DecimalPoint
  sum_at_place points first rest index = do
    start ← required (get_elem? (points first) index) type_error
    others ←
        map_result (λ ciphertext. required (get_elem? (points ciphertext) index) type_error) rest
    ok (from_field_point (add_points (to_field_point start) others))

  unfoldable pub aggregate_proof_compatible_ciphertexts :
      List CiphertextJson → Result CiphertextJson
  aggregate_proof_compatible_ciphertexts [] = err (assertion "at least one ciphertext is required")
  aggregate_proof_compatible_ciphertexts (first ∷ rest) = do
    let key_hash = lower first.election_public_key_hash
    check_ciphertexts key_hash first.election_public_key (first ∷ rest)
    c1 ←
        map_result (sum_at_place (λ ciphertext. ciphertext.c1) first rest)
          (range 0 proof_compatible_candidate_count)
    c2 ←
        map_result (sum_at_place (λ ciphertext. ciphertext.c2) first rest)
          (range 0 proof_compatible_candidate_count)
    ok (record {
      keys = ciphertext_json_keys;
      scheme = proof_compatible_ballot_scheme;
      election_public_key_hash = key_hash;
      election_public_key = first.election_public_key;
      c1 = c1;
      c2 = c2;
    })

  -- the loop over the counts, for those that are left
  unfoldable pub find_message : F × F → List ℕ → Option ℕ
  find_message message [] = none
  find_message message (count ∷ counts) =
      let rest = find_message message counts in
      if same_point message (jub.mul_point_escalar jub.base8 count) then some count else rest

  abbrev pub count_found : Option ℕ → Result ℕ
  count_found none = err (assertion "tally exceeds maxVotes or is malformed")
  count_found (some count) = ok count

  -- one round of the `map` over the first points
  unfoldable pub decrypt_pair : ℕ → ℕ → CiphertextJson → DecimalPoint × ℕ → Result ℕ
  decrypt_pair private_key max_votes ciphertext (first_point, index) = do
    second ← required (get_elem? ciphertext.c2 index) type_error
    let shared = jub.mul_point_escalar (to_field_point first_point) private_key
    let message = jub.add_point (to_field_point second) (jub.neg shared.0, shared.1)
    count_found (find_message message (range 0 (max_votes + 1)))

  abbrev pub numbered : ℕ → List DecimalPoint → List (DecimalPoint × ℕ)
  numbered index [] = []
  numbered index (point ∷ points) = (point, index) ∷ numbered (index + 1) points

  unfoldable pub decrypt_proof_compatible_tally : ℕ → CiphertextJson → Number → Result (List ℕ)
  decrypt_proof_compatible_tally private_key ciphertext max_votes = do
    guard (ltb 0 private_key && ltb private_key babyjub_subgroup_order) unlabelled
    guard (is_integer max_votes && at_least 0 max_votes) unlabelled
    guard
        (same_point (jub.mul_point_escalar jub.base8 private_key)
          (to_field_point ciphertext.election_public_key))
        (assertion "wrong election private key")
    map_result (decrypt_pair private_key (to_natural max_votes) ciphertext)
        (numbered 0 ciphertext.c1)
