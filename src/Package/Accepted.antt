-- ===== src/Package/Accepted.antt =====
-- What validation accepts: `validateCiphertext` as a predicate, and its output as its own fixed point.
use scalable_blockchain_voti.Prelude.{
  ℕ, ◌+◌, ◌%◌, String, ◌≡◌, refl, ◌∙◌, Bool, true, ◌&&◌, List, [], ◌∷◌, map, length, length-map,
  take, drop, ◌==◌, leb, arith, All, ◌↔◌,
}
use scalable_blockchain_voti.Outcome.{Label, at, ok, guard, >>-eq-ok, then-eq-ok, ok_inj}
use scalable_blockchain_voti.Js.Texts.{
  Text, lower, lower_idem, length-lower, take-lower, drop-lower, text_eq, text_eq_refl,
}
use scalable_blockchain_voti.Js.Sorting.{sort_texts}
use scalable_blockchain_voti.Viem.{Viem, is_bytes32, assert_bytes32, assert_hex_bytes}
use scalable_blockchain_voti.Viem.Laws.{Laws, lower_bytes32, assert_bytes32-eq-ok}
use scalable_blockchain_voti.Package.Points.{
  texts_eq, exact_keys, has_point_prefix, assert_compressed_point, assert_points,
}
use scalable_blockchain_voti.Package.Ciphertext.{
  BallotCiphertext, ballot_ciphertext_scheme, ciphertext_keys, validate_ciphertext,
}

pub texts_eq_refl : (l : List Text) → texts_eq l l ≡ true
unfolding texts_eq
texts_eq_refl [] = refl
texts_eq_refl (s ∷ l) = ground (arith, text_eq_refl s, texts_eq_refl l)

lower-slice : (n m : ℕ) (s : Text) → lower (take n (drop m (lower s))) ≡ lower (take n (drop m s))
lower-slice n m s = rw (drop-lower, take-lower, lower_idem) refl

has_point_prefix-lower : (s : Text) → has_point_prefix (lower s) ≡ has_point_prefix s
unfolding has_point_prefix
has_point_prefix-lower s = rw (same s) refl
  where
    same : (s : Text) → lower (take 2 (drop 2 (lower s))) ≡ lower (take 2 (drop 2 s))
    same s = lower-slice 2 2 s

module _ (v : Viem) where
  -- A compressed secp256k1 point in hex.
  abbrev pub is_point : Text → Bool
  is_point s = (v.is_hex s && leb 4 (length s)) && ((length s == 68) && has_point_prefix s)

  pub lower-is_point : Laws v → (s : Text) → is_point s ≡ true → is_point (lower s) ≡ true
  lower-is_point laws s h =
      rw (length-lower, has_point_prefix-lower) (ground (arith, laws.lower_hex s))

  pub assert_compressed_point_iff :
      (s : Text) (label : Label) → (assert_compressed_point v s label ≡ ok tt) ↔ (is_point s ≡ true)
  unfolding assert_compressed_point assert_hex_bytes guard
  assert_compressed_point_iff s label = (λ h. ground arith, λ h. ground arith)

  pub assert_points-eq-ok :
      (name : String) (index : ℕ) (points : List Text)
      → assert_points v name index points ≡ ok tt
      → All (λ s. is_point s ≡ true) points
  unfolding assert_points
  assert_points-eq-ok name index [] h = tt
  assert_points-eq-ok name index (p ∷ points) h =
      let (here, later) = then-eq-ok (assert_compressed_point v p (at name index)) _ h in
      (
        (assert_compressed_point_iff p (at name index)).0 here,
        assert_points-eq-ok name (index + 1) points later,
      )

  pub assert_points_total :
      (name : String) (index : ℕ) (points : List Text)
      → All (λ s. is_point s ≡ true) points
      → assert_points v name index points ≡ ok tt
  unfolding assert_points
  assert_points_total name index [] h = refl
  assert_points_total name index (p ∷ points) h =
      rw ((assert_compressed_point_iff p (at name index)).1 h.0)
        (assert_points_total name (index + 1) points h.1)

  pub record IsCiphertext (c : BallotCiphertext) : Type 0 where
    pub keys_fit : texts_eq (sort_texts c.keys) (sort_texts ciphertext_keys) ≡ true
    pub scheme_fits : text_eq c.scheme ballot_ciphertext_scheme ≡ true
    pub hash_fits : is_bytes32 v c.election_public_key_hash ≡ true
    pub pairs : (leb 4 (length c.points) && length c.points % 2 == 0) ≡ true
    pub points_fit : All (λ s. is_point s ≡ true) c.points

  abbrev pub normalized_ciphertext : BallotCiphertext → BallotCiphertext
  normalized_ciphertext c = record {
    keys = ciphertext_keys;
    scheme = ballot_ciphertext_scheme;
    election_public_key_hash = lower c.election_public_key_hash;
    points = map lower c.points;
  }

  pub validate_ciphertext-eq-ok :
      (c : BallotCiphertext) {out : BallotCiphertext}
      → validate_ciphertext v c ≡ ok out
      → IsCiphertext c × (normalized_ciphertext c ≡ out)
  unfolding validate_ciphertext exact_keys
  validate_ciphertext-eq-ok c h =
      let (keys, h1) = >>-eq-ok _ _ _ h in
      let (scheme, h2) = >>-eq-ok _ _ _ h1 in
      let (hash, h3) = assert_bytes32-eq-ok v c.election_public_key_hash _ _ h2 in
      let (pairs, h4) = >>-eq-ok _ _ _ h3 in
      let (points, h5) = then-eq-ok (assert_points v "ciphertext.points" 0 c.points) _ h4 in
      (
        record {
          keys_fit = keys;
          scheme_fits = scheme;
          hash_fits = hash;
          pairs = pairs;
          points_fit = assert_points-eq-ok "ciphertext.points" 0 c.points points;
        },
        ok_inj h5,
      )

  pub validate_ciphertext_total :
      (c : BallotCiphertext)
      → IsCiphertext c
      → validate_ciphertext v c ≡ ok (normalized_ciphertext c)
  unfolding validate_ciphertext exact_keys assert_bytes32 guard
  validate_ciphertext_total c h =
      rw
        (
          h.keys_fit,
          h.scheme_fits,
          h.hash_fits,
          h.pairs,
          assert_points_total "ciphertext.points" 0 c.points h.points_fit,
        )
        refl

  lower-points :
      Laws v
      → (points : List Text) → All (λ s. is_point s ≡ true) points
      → All (λ s. is_point s ≡ true) (map lower points)
  lower-points laws [] h = tt
  lower-points laws (p ∷ points) h = (lower-is_point laws p h.0, lower-points laws points h.1)

  map-lower_idem : (points : List Text) → map lower (map lower points) ≡ map lower points
  map-lower_idem [] = refl
  map-lower_idem (p ∷ points) = cc (lower_idem p, map-lower_idem points)

  normalized-IsCiphertext :
      Laws v → (c : BallotCiphertext) → IsCiphertext c → IsCiphertext (normalized_ciphertext c)
  normalized-IsCiphertext laws c h = record {
    keys_fit = texts_eq_refl (sort_texts ciphertext_keys);
    scheme_fits = text_eq_refl ballot_ciphertext_scheme;
    hash_fits = lower_bytes32 v laws c.election_public_key_hash h.hash_fits;
    pairs = rw length-map h.pairs;
    points_fit = lower-points laws c.points h.points_fit;
  }

  -- What `validateCiphertext` returns it accepts again, and returns as it is.
  pub validate_ciphertext_idem :
      Laws v
      → (c out : BallotCiphertext) → validate_ciphertext v c ≡ ok out
      → validate_ciphertext v out ≡ ok out
  validate_ciphertext_idem laws c out h =
      let (valid, e) = validate_ciphertext-eq-ok c h in
      rw (← e) (
        validate_ciphertext_total (normalized_ciphertext c) (normalized-IsCiphertext laws c valid)
        ∙ rw (lower_idem, map-lower_idem) refl)
