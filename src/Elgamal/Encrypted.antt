-- ===== src/Elgamal/Encrypted.antt =====
-- What `encryptBallotSelection` returns: for each candidate an encryption of 1 or 0.
use scalable_blockchain_voti.Prelude.{
  ℕ, ◌*◌, ◌<◌, ◌≤◌, ◌≡◌, refl, sym, ap, ◌∙◌, subst, true, ◌&&◌, some, Option, List, [], ◌∷◌, map,
  length, get_elem?, drop, All, All-get_elem?, arith, Bool-cases, inl, inr, ◌==◌, if◌then◌else◌,
}
use scalable_blockchain_voti.Outcome.{
  plain, ok, >>=-eq-ok, >>-eq-ok, then-eq-ok, ok_inj, map_result,
}
use scalable_blockchain_voti.Outcome.Mapping.{map_result_at, length-map_result, All-map_result}
use scalable_blockchain_voti.Js.Texts.{Text, lower, text_eq_refl}
use scalable_blockchain_voti.Js.Numbers.{Number, is_integer, at_least, to_natural, at_least-le}
use scalable_blockchain_voti.Js.Sorting.{sort_texts}
use scalable_blockchain_voti.Viem.{Viem}
use scalable_blockchain_voti.Viem.Laws.{Laws, IsDigest, IsDigest-of_hash_abi}
use scalable_blockchain_voti.Package.Points.{assert_compressed_point}
use scalable_blockchain_voti.Package.Accepted.{is_point, IsCiphertext, texts_eq_refl}
use scalable_blockchain_voti.Package.Ciphertext.{
  BallotCiphertext, ballot_ciphertext_scheme, ciphertext_keys,
}
use scalable_blockchain_voti.Dkg.Coordinator.{flatten}
use scalable_blockchain_voti.Tally.{hash_election_public_key}
use scalable_blockchain_voti.Curve.{Curve, point_from_hex, point_to_hex}
use scalable_blockchain_voti.Curve.Multiples.{times}
use scalable_blockchain_voti.Curve.Laws.{IsCurve}
use scalable_blockchain_voti.Elgamal.{
  range, encrypt_one, pick_scalar, check_randomness, encrypt_ballot_selection,
}
use scalable_blockchain_voti.Elgamal.Pairs.{
  length-flatten, get_elem?-flatten, All-flatten, length-range, get_elem?-range, IsPair,
  point_to_hex-eq-ok,
}

module _ {Point : Type 0} (v : Viem) (c : Curve Point) where
  -- The pair at a place is the encryption of a count under the key, with some scalar.
  pub record Encrypts (key : Point) (ciphertext : BallotCiphertext) (i m : ℕ) : Type 0 where
    pub scalar : ℕ
    pub pair :
        IsPair v c ciphertext i
          (times c.group scalar c.base)
          (c.group.add (times c.group scalar key) (times c.group m c.base))

  -- A valid normal ciphertext of n pairs, which encrypt the counts.
  pub record IsEncryption (key : Point) (n : ℕ) (counts : ℕ → ℕ) (ciphertext : BallotCiphertext)
      : Type 0 where
    pub valid : IsCiphertext v ciphertext
    pub hash_lowered :
        lower ciphertext.election_public_key_hash ≡ ciphertext.election_public_key_hash
    pub points_lowered : map lower ciphertext.points ≡ ciphertext.points
    pub keys_normal : ciphertext.keys ≡ ciphertext_keys
    pub scheme_normal : ciphertext.scheme ≡ ballot_ciphertext_scheme
    pub size : length ciphertext.points ≡ n * 2
    pub encrypts : (i : ℕ) → i < n → Encrypts key ciphertext i (counts i)

  -- Two texts that are points in normal hex.
  abbrev pub IsPointPair : Text × Text → Type 0
  IsPointPair ab =
      ((is_point v ab.0 ≡ true) × (lower ab.0 ≡ ab.0))
      × ((is_point v ab.1 ≡ true) × (lower ab.1 ≡ ab.1))

  All-points :
      (l : List Text)
      → All (λ s. (is_point v s ≡ true) × (lower s ≡ s)) l
      → All (λ s. is_point v s ≡ true) l × (map lower l ≡ l)
  All-points [] h = (tt, refl)
  All-points (s ∷ l) h = let (good, same) = All-points l h.1 in ((h.0.0, good), cc (h.0.1, same))

  -- A ciphertext put together from pairs of points.
  pub IsEncryption-of_pairs :
      (key : Point) (n : ℕ) (counts : ℕ → ℕ) (hash : Text) (pairs : List (Text × Text))
      → 2 ≤ n
      → length pairs ≡ n
      → IsDigest v hash
      → All IsPointPair pairs
      → ((i : ℕ)
          → i < n
          → (r : ℕ) × (ab : Text × Text) × (get_elem? pairs i ≡ some ab)
            × (c.from_hex (drop 2 ab.0) ≡ ok (times c.group r c.base))
            × (c.from_hex (drop 2 ab.1)
                ≡ ok (c.group.add (times c.group r key) (times c.group (counts i) c.base))))
      → IsEncryption key n counts (record {
        keys = ciphertext_keys;
        scheme = ballot_ciphertext_scheme;
        election_public_key_hash = hash;
        points = flatten pairs;
      })
  IsEncryption-of_pairs key n counts hash pairs two size digest points each =
      let (good, low) =
        All-points (flatten pairs)
          (All-flatten (λ s. (is_point v s ≡ true) × (lower s ≡ s)) pairs points) in
      let total : length (flatten pairs) ≡ n * 2 = length-flatten pairs ∙ ap (λ k. k * 2) size in
      record {
        valid = record {
          keys_fit = texts_eq_refl (sort_texts ciphertext_keys);
          scheme_fits = text_eq_refl ballot_ciphertext_scheme;
          hash_fits = digest.well_formed;
          pairs = rw total (ground arith);
          points_fit = good;
        };
        hash_lowered = digest.lowered;
        points_lowered = low;
        keys_normal = refl;
        scheme_normal = refl;
        size = total;
        encrypts = λ i h.
            let (r, ab, there, one, two) = each i h in
            let (first_there, second_there) = get_elem?-flatten pairs i there in
            let (a_good, b_good) = All-get_elem? IsPointPair pairs i points there in
            record {
              scalar = r;
              pair = record {
                first = ab.0;
                second = ab.1;
                first_there = first_there;
                second_there = second_there;
                first_point = a_good.0;
                second_point = b_good.0;
                first_read = one;
                second_read = two;
              };
            };
      }

abbrev pub one_for : ℕ → ℕ → ℕ
one_for selected i = if i == selected then 1 else 0

module _ {Point : Type 0} (v : Viem) (c : Curve Point) (laws : Laws v) (curve : IsCurve v c) where
  add_one :
      (shared : Point) (selected i : ℕ)
      → (if i == selected then c.group.add shared c.base else shared)
        ≡ c.group.add shared (times c.group (one_for selected i) c.base)
  add_one shared selected i = elim (Bool-cases (i == selected)) [
    | inl here ↦ rw here (ap (c.group.add shared) (sym (curve.group_laws.add-identity c.base)))
    | inr elsewhere ↦ rw elsewhere (sym (curve.group_laws.add-identity shared))
  ]

  encrypt_one-eq-ok :
      (key : Point) (fresh : ℕ → Text) (randomness : Option (List Text)) (selected i : ℕ)
      → (ab : Text × Text) → encrypt_one v c key fresh randomness selected i ≡ ok ab
      → IsPointPair v c ab
        × (r : ℕ) × (c.from_hex (drop 2 ab.0) ≡ ok (times c.group r c.base))
        × (c.from_hex (drop 2 ab.1)
            ≡ ok (c.group.add (times c.group r key) (times c.group (one_for selected i) c.base)))
  unfolding encrypt_one
  encrypt_one-eq-ok key fresh randomness selected i ab h =
      let (r, _, h1) = >>=-eq-ok (pick_scalar v c fresh randomness i) _ h in
      let (first, first_is, h2) = >>=-eq-ok (c.multiply c.base r) _ h1 in
      let (shared, shared_is, h3) = >>=-eq-ok (c.multiply key r) _ h2 in
      let (a, a_made, h4) = >>=-eq-ok (point_to_hex c first) _ h3 in
      let (b, b_made, h5) = >>=-eq-ok (point_to_hex c _) _ h4 in
      let (a_point, a_low, a_read) = point_to_hex-eq-ok v c curve first a a_made in
      let (b_point, b_low, b_read) = point_to_hex-eq-ok v c curve _ b b_made in
      subst
        (λ ab.
          IsPointPair v c ab
          × (r : ℕ) × (c.from_hex (drop 2 ab.0) ≡ ok (times c.group r c.base))
          × (c.from_hex (drop 2 ab.1)
              ≡ ok (c.group.add (times c.group r key) (times c.group (one_for selected i) c.base))))
        (ok_inj h5)
        (
          ((a_point, a_low), (b_point, b_low)),
          r,
          a_read ∙ ap ok (curve.multiply_is c.base first r first_is),
          b_read
              ∙ ap ok (
                  add_one shared selected i
                  ∙ ap (λ s. c.group.add s (times c.group (one_for selected i) c.base))
                      (curve.multiply_is key shared r shared_is)),
        )

  pub hash_election_public_key-IsDigest :
      (key hash : Text) → hash_election_public_key v key ≡ ok hash → IsDigest v hash
  unfolding hash_election_public_key
  hash_election_public_key-IsDigest key hash h =
      let (_, h1) = then-eq-ok (assert_compressed_point v key _) _ h in
      IsDigest-of_hash_abi v laws _ hash h1

  -- When `encryptBallotSelection` returns, the ciphertext is valid, names the hash of the key, and
  -- its pairs encrypt under the key 1 for the selected candidate and 0 for the others.
  pub encrypt_ballot_selection-IsEncryption :
      (fresh : ℕ → Text) (key : Text) (count selected : Number) (randomness : Option (List Text))
      → (ciphertext : BallotCiphertext)
      → encrypt_ballot_selection v c fresh key count selected randomness ≡ ok ciphertext
      → (point : Point) × (point_from_hex c v (lower key) (plain "electionPublicKey") ≡ ok point)
        × (hash_election_public_key v (lower key) ≡ ok ciphertext.election_public_key_hash)
        × IsEncryption v c point (to_natural count) (one_for (to_natural selected)) ciphertext
  unfolding encrypt_ballot_selection
  encrypt_ballot_selection-IsEncryption fresh key count selected randomness ciphertext h =
      let (point, read, h1) = >>=-eq-ok (point_from_hex c v (lower key) _) _ h in
      let (_, h2) = >>-eq-ok (is_integer count) _ _ h1 in
      let (two, h3) = >>-eq-ok (at_least 2 count) _ _ h2 in
      let (_, h4) = >>-eq-ok (is_integer selected) _ _ h3 in
      let (_, h5) = >>-eq-ok (at_least 0 selected && _) _ _ h4 in
      let (_, h6) = then-eq-ok (check_randomness v c randomness (to_natural count)) _ h5 in
      let one = encrypt_one v c point fresh randomness (to_natural selected) in
      let (pairs, made, h7) = >>=-eq-ok (map_result one (range 0 (to_natural count))) _ h6 in
      let (hash, hashed, h8) = >>=-eq-ok (hash_election_public_key v (lower key)) _ h7 in
      subst
        (λ ct.
          (point : Point) × (point_from_hex c v (lower key) (plain "electionPublicKey") ≡ ok point)
          × (hash_election_public_key v (lower key) ≡ ok ct.election_public_key_hash)
          × IsEncryption v c point (to_natural count) (one_for (to_natural selected)) ct)
        (ok_inj h8)
        (
          point,
          read,
          hashed,
          IsEncryption-of_pairs v c point (to_natural count) (one_for (to_natural selected)) hash
              pairs (at_least-le 2 count two)
              (length-map_result one _ pairs made ∙ length-range 0 (to_natural count))
              (hash_election_public_key-IsDigest (lower key) hash hashed)
              (All-map_result one (λ i. Unit) (IsPointPair v c)
                (λ i ab u e.
                  (encrypt_one-eq-ok point fresh randomness (to_natural selected) i ab e).0)
                (range 0 (to_natural count)) pairs (all_units (range 0 (to_natural count))) made)
              λ i below.
                let (ab, there, e) =
                  map_result_at one _ pairs i made (get_elem?-range 0 (to_natural count) i below) in
                let e' : one i ≡ ok ab = subst (λ k. one k ≡ ok ab) (omega arith) e in
                let (_, r, a_read, b_read) =
                  encrypt_one-eq-ok point fresh randomness (to_natural selected) i ab e' in
                (r, ab, there, a_read, b_read),
        )
    where
      all_units : (l : List ℕ) → All (λ i. Unit {0}) l
      all_units [] = tt
      all_units (i ∷ l) = (tt, all_units l)
