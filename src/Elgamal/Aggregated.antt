-- ===== src/Elgamal/Aggregated.antt =====
-- The sum of ciphertexts encrypts the sums of what they encrypt.
use scalable_blockchain_voti.Prelude.{
  ℕ, ◌+◌, ◌/◌, ◌<◌, ◌≤◌, ◌≡◌, refl, ap, ◌∙◌, subst, some, List, [], ◌∷◌, map, length, get_elem?,
  drop, All, arith, ltb,
}
use scalable_blockchain_voti.Outcome.{ok, >>=-eq-ok, >>-eq-ok, then-eq-ok, ok_inj, map_result}
use scalable_blockchain_voti.Outcome.Mapping.{map_result_at, length-map_result, All-map_result}
use scalable_blockchain_voti.Js.Texts.{Text}
use scalable_blockchain_voti.Viem.{Viem}
use scalable_blockchain_voti.Viem.Laws.{IsDigest}
use scalable_blockchain_voti.Package.Accepted.{validate_ciphertext_total}
use scalable_blockchain_voti.Package.Ciphertext.{BallotCiphertext, validate_ciphertext}
use scalable_blockchain_voti.Curve.{Curve, point_to_hex}
use scalable_blockchain_voti.Curve.Multiples.{times, times-add, add_interchange}
use scalable_blockchain_voti.Curve.Laws.{IsCurve}
use scalable_blockchain_voti.Elgamal.{
  range, add_ciphertexts, aggregate_pair, check_alike, aggregate_normalized,
  aggregate_ballot_ciphertexts,
}
use scalable_blockchain_voti.Elgamal.Pairs.{
  length-range, get_elem?-range, range_below, point_to_hex-eq-ok, first_at, second_at,
}
use scalable_blockchain_voti.Elgamal.Encrypted.{IsEncryption, IsPointPair, IsEncryption-of_pairs}

-- A ciphertext beside the counts that it encrypts.
abbrev pub Entry : Type 0
Entry = (ℕ → ℕ) × BallotCiphertext

abbrev pub sum_at : ℕ → List Entry → ℕ
sum_at i [] = 0
sum_at i (e ∷ es) = e.0 i + sum_at i es

abbrev pub ciphertexts_of : List Entry → List BallotCiphertext
ciphertexts_of es = map (λ e. e.1) es

abbrev ciphertext_of : List Text → Text → Text → List Text → BallotCiphertext
ciphertext_of keys scheme hash points = record {
  keys = keys;
  scheme = scheme;
  election_public_key_hash = hash;
  points = points;
}

module _ {Point : Type 0} (v : Viem) (c : Curve Point) (curve : IsCurve v c) (key : Point) where
  -- A valid normal ciphertext is its own normal form.
  pub validate-IsEncryption :
      (n : ℕ) (counts : ℕ → ℕ) (ct : BallotCiphertext)
      → IsEncryption v c key n counts ct
      → validate_ciphertext v ct ≡ ok ct
  validate-IsEncryption n counts ct e =
      validate_ciphertext_total v ct e.valid
      ∙ ap ok (same e.keys_normal e.scheme_normal e.hash_lowered e.points_lowered)
    where
      same :
          {keys : List Text} {scheme hash : Text} {points : List Text}
          → ct.keys ≡ keys
          → ct.scheme ≡ scheme
          → hash ≡ ct.election_public_key_hash
          → points ≡ ct.points
          → ciphertext_of keys scheme hash points ≡ ct
      same a b d f = cc (a, b, d, f)

  abbrev enc : ℕ → ℕ → Point × Point
  enc r m = (times c.group r c.base, c.group.add (times c.group r key) (times c.group m c.base))

  enc-add :
      (r m s k : ℕ)
      → (c.group.add (enc r m).0 (enc s k).0, c.group.add (enc r m).1 (enc s k).1)
        ≡ enc (r + s) (m + k)
  enc-add r m s k =
      let laws = curve.group_laws in
      let one = times-add c.group laws r s c.base in
      let two = times-add c.group laws r s key in
      let three = times-add c.group laws m k c.base in
      let swap =
        add_interchange c.group laws (times c.group r key) (times c.group m c.base)
          (times c.group s key) (times c.group k c.base) in
      cc (one, two, three, swap)

  add_ciphertexts_sum :
      (n i j r m : ℕ) (es : List Entry)
      → i < n
      → All (λ e. IsEncryption v c key n e.0 e.1) es
      → (s : ℕ) × (add_ciphertexts v c i j (enc r m) (ciphertexts_of es)
          ≡ ok (enc s (m + sum_at i es)))
  unfolding add_ciphertexts
  add_ciphertexts_sum n i j r m [] below h = (r, ap (λ k. ok (enc r k)) (omega arith))
  add_ciphertexts_sum n i j r m (e ∷ es) below h =
      let here = h.0.encrypts i below in
      let (s, rest) = add_ciphertexts_sum n i (j + 1) (r + here.scalar) (m + e.0 i) es below h.1 in
      (
        s,
        rw (first_at v c _ e.1 i _ _ here.pair, second_at v c _ e.1 i _ _ here.pair)
            (ap (λ p. add_ciphertexts v c i (j + 1) p (ciphertexts_of es))
                (enc-add r m here.scalar (e.0 i))
              ∙ rest
              ∙ ap (λ k. ok (enc s k)) (omega arith)),
      )

  aggregate_pair-eq-ok :
      (n i : ℕ) (e : Entry) (es : List Entry) (ab : Text × Text)
      → i < n
      → IsEncryption v c key n e.0 e.1
      → All (λ e. IsEncryption v c key n e.0 e.1) es
      → aggregate_pair v c e.1 (ciphertexts_of es) i ≡ ok ab
      → IsPointPair v c ab
        × (r : ℕ) × (c.from_hex (drop 2 ab.0) ≡ ok (enc r (sum_at i (e ∷ es))).0)
        × (c.from_hex (drop 2 ab.1) ≡ ok (enc r (sum_at i (e ∷ es))).1)
  unfolding aggregate_pair
  aggregate_pair-eq-ok n i e es ab below one all h =
      let here = one.encrypts i below in
      let (s, total) = add_ciphertexts_sum n i 1 here.scalar (e.0 i) es below all in
      let h1 =
        rw (first_at v c _ e.1 i _ _ here.pair, second_at v c _ e.1 i _ _ here.pair, total) at h in
      let (a, a_made, h2) = >>=-eq-ok (point_to_hex c (enc s (e.0 i + sum_at i es)).0) _ h1 in
      let (b, b_made, h3) = >>=-eq-ok (point_to_hex c (enc s (e.0 i + sum_at i es)).1) _ h2 in
      let (a_point, a_low, a_read) = point_to_hex-eq-ok v c curve _ a a_made in
      let (b_point, b_low, b_read) = point_to_hex-eq-ok v c curve _ b b_made in
      subst
        (λ ab.
          IsPointPair v c ab
          × (r : ℕ) × (c.from_hex (drop 2 ab.0) ≡ ok (enc r (sum_at i (e ∷ es))).0)
          × (c.from_hex (drop 2 ab.1) ≡ ok (enc r (sum_at i (e ∷ es))).1))
        (ok_inj h3) (((a_point, a_low), (b_point, b_low)), s, a_read, b_read)

  map_validate :
      (n : ℕ) (es : List Entry)
      → All (λ e. IsEncryption v c key n e.0 e.1) es
      → map_result (validate_ciphertext v) (ciphertexts_of es) ≡ ok (ciphertexts_of es)
  unfolding map_result
  map_validate n [] h = refl
  map_validate n (e ∷ es) h = rw (validate-IsEncryption n e.0 e.1 h.0, map_validate n es h.1) refl

  -- When `aggregateBallotCiphertexts` returns for encryptions of n counts each under one key, it
  -- returns an encryption of their sums under that key, with the key hash of the first.
  pub aggregate-IsEncryption :
      (n : ℕ) (e : Entry) (es : List Entry) (total : BallotCiphertext)
      → 2 ≤ n
      → IsDigest v e.1.election_public_key_hash
      → All (λ e. IsEncryption v c key n e.0 e.1) (e ∷ es)
      → aggregate_ballot_ciphertexts v c (ciphertexts_of (e ∷ es)) ≡ ok total
      → IsEncryption v c key n (λ i. sum_at i (e ∷ es)) total
        × (total.election_public_key_hash ≡ e.1.election_public_key_hash)
  unfolding aggregate_ballot_ciphertexts aggregate_normalized
  aggregate-IsEncryption n e es total two digest all h =
      let (_, h1) = >>-eq-ok (ltb 0 _) _ _ h in
      let h2 = rw (map_validate n (e ∷ es) all) at h1 in
      let (_, h3) = then-eq-ok (check_alike v c e.1 (e.1 ∷ ciphertexts_of es)) _ h2 in
      let one = aggregate_pair v c e.1 (ciphertexts_of es) in
      let half : length e.1.points / 2 ≡ n = (let size = all.0.size in rw size (omega arith)) in
      let (pairs, made, h4) = >>=-eq-ok (map_result one (range 0 (length e.1.points / 2))) _ h3 in
      let made' : map_result one (range 0 n) ≡ ok pairs = rw half at made in
      let at_place : (i : ℕ)
          → i < n
          → (ab : Text × Text) × (get_elem? pairs i ≡ some ab) × (one i ≡ ok ab) =
        λ i below.
          let (ab, there, made_ab) =
            map_result_at one _ pairs i made' (get_elem?-range 0 n i below) in
          (ab, there, subst (λ k. one k ≡ ok ab) (omega arith) made_ab) in
      let encrypted =
        IsEncryption-of_pairs v c key n (λ i. sum_at i (e ∷ es)) e.1.election_public_key_hash pairs
          two (length-map_result one _ pairs made' ∙ length-range 0 n) digest
          (All-map_result one (λ i. i < n) (IsPointPair v c)
            (λ i ab below made_ab. (aggregate_pair-eq-ok n i e es ab below all.0 all.1 made_ab).0)
            (range 0 n) pairs (range_below 0 n n (omega arith)) made')
          (λ i below.
            let (ab, there, made_ab) = at_place i below in
            let (_, r, a_read, b_read) =
              aggregate_pair-eq-ok n i e es ab below all.0 all.1 made_ab in
            (r, ab, there, a_read, b_read)) in
      subst
        (λ t.
          IsEncryption v c key n (λ i. sum_at i (e ∷ es)) t
          × (t.election_public_key_hash ≡ e.1.election_public_key_hash))
        (ok_inj h4) (encrypted, refl)
