-- ===== src/Elgamal/Counted.antt =====
-- From the ballots of an election to its counts: encryption, aggregation and decryption together.
use scalable_blockchain_voti.Prelude.{
  ℕ, ◌+◌, ◌<◌, ◌≤◌, ◌≡◌, refl, sym, ap, ◌∙◌, subst, true, Option, List, [], ◌∷◌, map, length, drop,
  All, arith, ltb, leb, ltb→lt, leb→le, ◌&&◌, and_left, and_right,
}
use scalable_blockchain_voti.Outcome.{
  Label, plain, ok, ok_inj, guard, >>=-eq-ok, >>-eq-ok, then-eq-ok,
}
use scalable_blockchain_voti.Js.Texts.{Text, lower, lower_idem, drop-lower}
use scalable_blockchain_voti.Js.Numbers.{Number, is_integer, at_least, to_natural}
use scalable_blockchain_voti.Viem.{Viem, assert_bytes32}
use scalable_blockchain_voti.Viem.Laws.{Laws, lower_bytes32, assert_bytes32-eq-ok}
use scalable_blockchain_voti.Package.Ciphertext.{BallotCiphertext}
use scalable_blockchain_voti.Tally.{hash_election_public_key}
use scalable_blockchain_voti.Tally.Shares.{scalar_from_private_key, hex_digits}
use scalable_blockchain_voti.Curve.{Curve, point_from_hex, point_to_hex}
use scalable_blockchain_voti.Curve.Laws.{IsCurve}
use scalable_blockchain_voti.Elgamal.Pairs.{point_to_hex-eq-ok}
use scalable_blockchain_voti.Package.Points.{assert_compressed_point}
use scalable_blockchain_voti.Elgamal.{
  range, derive_election_public_key, encrypt_ballot_selection, aggregate_ballot_ciphertexts,
}
use scalable_blockchain_voti.Elgamal.Decryption.{decrypt_ballot_selection, decrypt_aggregated_tally}
use scalable_blockchain_voti.Elgamal.Encrypted.{
  IsEncryption, one_for, encrypt_ballot_selection-IsEncryption, hash_election_public_key-IsDigest,
}
use scalable_blockchain_voti.Elgamal.Aggregated.{
  Entry, sum_at, ciphertexts_of, aggregate-IsEncryption,
}
use scalable_blockchain_voti.Elgamal.Lookup.{multiple}
use scalable_blockchain_voti.Elgamal.Decrypted.{decrypt_for_key-IsEncryption}

-- A voter's choice and the ciphertext made for it.
pub record Cast : Type 0 where
  pub fresh : ℕ → Text
  pub selected : Number
  pub randomness : Option (List Text)
  pub ciphertext : BallotCiphertext

-- How many of the voters chose the candidate.
unfoldable pub votes_for : List Cast → ℕ → ℕ
votes_for [] i = 0
votes_for (cast ∷ casts) i = one_for (to_natural cast.selected) i + votes_for casts i

abbrev pub cast_ciphertexts : List Cast → List BallotCiphertext
cast_ciphertexts casts = map (λ cast. cast.ciphertext) casts

abbrev entry : Cast → Entry
entry cast = (one_for (to_natural cast.selected), cast.ciphertext)

sum_at-entries : (i : ℕ) (casts : List Cast) → sum_at i (map entry casts) ≡ votes_for casts i
unfolding votes_for
sum_at-entries i [] = refl
sum_at-entries i (cast ∷ casts) =
    ap (λ n. one_for (to_natural cast.selected) i + n) (sum_at-entries i casts)

ciphertexts_of-entries :
    (casts : List Cast) → ciphertexts_of (map entry casts) ≡ cast_ciphertexts casts
ciphertexts_of-entries [] = refl
ciphertexts_of-entries (cast ∷ casts) = ap (λ l. cast.ciphertext ∷ l) (ciphertexts_of-entries casts)

one_for_le : (selected i : ℕ) → one_for selected i ≤ 1
one_for_le selected i = ground arith

pub votes_for-length : (casts : List Cast) (i : ℕ) → votes_for casts i ≤ length casts
unfolding votes_for
votes_for-length [] i = omega arith
votes_for-length (cast ∷ casts) i =
    let rest = votes_for-length casts i in
    let one = one_for_le (to_natural cast.selected) i in omega (arith, rest, one)

-- The ciphertext is what `encryptBallotSelection` returned.
abbrev pub IsCast : {Point : Type 0} → Viem → Curve Point → Text → Number → Cast → Type 0
IsCast v c public_key candidates cast =
    encrypt_ballot_selection v c cast.fresh public_key candidates cast.selected cast.randomness
    ≡ ok cast.ciphertext

module _ {Point : Type 0} (v : Viem) (c : Curve Point) (laws : Laws v) (curve : IsCurve v c) where
  -- What a derived public key is: the hex of the scalar's multiple of the base.
  record IsKeyOf (private_key public_key : Text) (secret : ℕ) : Type 0 where
    pub scalar_is :
        scalar_from_private_key v c.order (lower private_key) (plain "privateKey") ≡ ok secret
    pub positive : 0 < secret
    pub bounded : secret < c.order
    pub lowered : lower public_key ≡ public_key
    pub read : c.from_hex (drop 2 public_key) ≡ ok (multiple v c curve secret)

  scalar_of_lower :
      (private_key : Text) (label : Label) (secret : ℕ)
      → scalar_from_private_key v c.order private_key label ≡ ok secret
      → (scalar_from_private_key v c.order (lower private_key) label ≡ ok secret)
        × (0 < secret)
        × (secret < c.order)
        × (hex_digits 0 (lower (drop 2 private_key)) ≡ secret)
  unfolding scalar_from_private_key
  scalar_of_lower private_key label secret h =
      let (good, h1) = assert_bytes32-eq-ok v private_key label _ h in
      let (inside, h2) = >>-eq-ok _ _ _ h1 in
      let low = ltb→lt 0 _ (and_left (ltb 0 _) _ inside) in
      let high = ltb→lt _ c.order (and_right (ltb 0 _) _ inside) in
      let value = ok_inj h2 in
      let same : hex_digits 0 (lower (drop 2 (lower private_key))) ≡ secret =
        ap (hex_digits 0) (ap lower (drop-lower 2 private_key) ∙ lower_idem (drop 2 private_key))
        ∙ value in
      let inside' : (ltb 0 secret && ltb secret c.order) ≡ true =
        subst (λ n. (ltb 0 n && ltb n c.order) ≡ true) value inside in
      (
        unfold assert_bytes32 guard in
            rw (lower_bytes32 v laws private_key good, same, inside') refl,
        subst (λ n. 0 < n) value low,
        subst (λ n. n < c.order) value high,
        value,
      )

  derive_election_public_key-IsKeyOf :
      (private_key public_key : Text)
      → derive_election_public_key v c private_key ≡ ok public_key
      → (secret : ℕ) × IsKeyOf private_key public_key secret
  unfolding derive_election_public_key
  derive_election_public_key-IsKeyOf private_key public_key h =
      let (secret, scalar, h1) =
        >>=-eq-ok (scalar_from_private_key v c.order private_key (plain "privateKey")) _ h in
      let (digits, got, h2) = >>=-eq-ok (c.get_public_key (drop 2 private_key)) _ h1 in
      let (low_scalar, low, high, value) =
        scalar_of_lower private_key (plain "privateKey") secret scalar in
      let written : c.to_hex (multiple v c curve secret) ≡ ok digits =
        subst (λ n. c.to_hex (multiple v c curve n) ≡ ok digits) value
          (sym (
              curve.public_key_is (drop 2 private_key) (subst (λ n. 0 < n) (sym value) low)
                (subst (λ n. n < c.order) (sym value) high))
            ∙ got) in
      let made : point_to_hex c (multiple v c curve secret) ≡ ok public_key =
        unfold point_to_hex in rw written h2 in
      let (_, lowered, read) = point_to_hex-eq-ok v c curve _ public_key made in
      (
        secret,
        record {
          scalar_is = low_scalar;
          positive = low;
          bounded = high;
          lowered = lowered;
          read = read;
        },
      )

  -- A ballot encrypted for the key encrypts its choice under the point of the key.
  IsCast-IsEncryption :
      (private_key public_key : Text) (secret : ℕ) (candidates : Number) (cast : Cast)
      → IsKeyOf private_key public_key secret
      → IsCast v c public_key candidates cast
      → IsEncryption v c
          (multiple v c curve secret)
          (to_natural candidates)
          (one_for (to_natural cast.selected))
          cast.ciphertext
        × (hash_election_public_key v public_key ≡ ok cast.ciphertext.election_public_key_hash)
  unfolding point_from_hex
  IsCast-IsEncryption private_key public_key secret candidates cast key h =
      let (point, read, hashed, encrypted) =
        encrypt_ballot_selection-IsEncryption v c laws curve cast.fresh public_key candidates
          cast.selected cast.randomness cast.ciphertext h in
      let (_, from) = then-eq-ok (assert_compressed_point v (lower public_key) _) _ read in
      let same : point ≡ multiple v c curve secret =
        ok_inj (sym from ∙ ap (λ s. c.from_hex (drop 2 s)) key.lowered ∙ key.read) in
      (
        subst
            (λ p.
              IsEncryption v c p (to_natural candidates) (one_for (to_natural cast.selected))
                cast.ciphertext)
            same encrypted,
        ap (hash_election_public_key v) (sym key.lowered) ∙ hashed,
      )

  -- Each ballot of an election encrypts its choice.
  All-encrypted :
      (private_key public_key : Text) (secret : ℕ) (candidates : Number) (casts : List Cast)
      → IsKeyOf private_key public_key secret
      → All (IsCast v c public_key candidates) casts
      → All
          (λ e. IsEncryption v c (multiple v c curve secret) (to_natural candidates) e.0 e.1)
          (map entry casts)
  All-encrypted private_key public_key secret candidates [] key h = tt
  All-encrypted private_key public_key secret candidates (cast ∷ casts) key h = (
    (IsCast-IsEncryption private_key public_key secret candidates cast key h.0).0,
    All-encrypted private_key public_key secret candidates casts key h.1,
  )

  two_candidates :
      (key : Point) (n : ℕ) (counts : ℕ → ℕ) (ct : BallotCiphertext)
      → IsEncryption v c key n counts ct
      → 2 ≤ n
  two_candidates key n counts ct e =
      let pairs = e.valid.pairs in
      let size = e.size in
      let four : 4 ≤ length ct.points = leb→le 4 _ (and_left (leb 4 (length ct.points)) _ pairs) in
      omega (arith, size, four)

  -- When each ballot is what `encryptBallotSelection` returned for the public key of a private key,
  -- and `aggregateBallotCiphertexts` returns for the ballots, `decryptAggregatedTally` with that
  -- private key, and a largest count from the number of ballots up to below the order, returns for
  -- each candidate the number of ballots that selected the candidate.
  pub decrypt_aggregated_tally-counts :
      (private_key public_key : Text) (candidates largest : Number)
      → (cast : Cast) (casts : List Cast) (total : BallotCiphertext)
      → derive_election_public_key v c private_key ≡ ok public_key
      → All (IsCast v c public_key candidates) (cast ∷ casts)
      → aggregate_ballot_ciphertexts v c (cast_ciphertexts (cast ∷ casts)) ≡ ok total
      → is_integer largest ≡ true
      → at_least 0 largest ≡ true
      → length (cast ∷ casts) ≤ to_natural largest
      → to_natural largest < c.order
      → decrypt_aggregated_tally v c private_key total largest
        ≡ ok (map (votes_for (cast ∷ casts)) (range 0 (to_natural candidates)))
  unfolding decrypt_aggregated_tally guard
  decrypt_aggregated_tally-counts private_key public_key candidates largest cast casts total derived
        all summed whole natural enough below =
      let (secret, key) = derive_election_public_key-IsKeyOf private_key public_key derived in
      let encrypted =
        All-encrypted private_key public_key secret candidates (cast ∷ casts) key all in
      let (_, hashed) =
        IsCast-IsEncryption private_key public_key secret candidates cast key all.0 in
      let (sum, same_hash) =
        aggregate-IsEncryption v c curve (multiple v c curve secret) (to_natural candidates)
          (entry cast) (map entry casts) total (two_candidates _ _ _ _ encrypted.0)
          (hash_election_public_key-IsDigest v c laws curve public_key _ hashed) encrypted
          (ap (aggregate_ballot_ciphertexts v c) (ciphertexts_of-entries (cast ∷ casts))
            ∙ summed) in
      let sums : (λ i. sum_at i (map entry (cast ∷ casts))) ≡ votes_for (cast ∷ casts) =
        λ k i. sum_at-entries i (cast ∷ casts) k in
      let counted =
        decrypt_for_key-IsEncryption v c curve private_key public_key secret (to_natural candidates)
          (to_natural largest) (votes_for (cast ∷ casts)) total key.scalar_is derived
          (hashed ∙ ap ok (sym same_hash)) key.positive key.bounded below
          (λ i inside.
            let small = votes_for-length (cast ∷ casts) i in omega (arith, small, enough))
          (subst
            (λ counts.
              IsEncryption v c (multiple v c curve secret) (to_natural candidates) counts total)
            sums sum) in
      rw (whole, natural) counted

  -- The decryption of one ballot, with the private key of its public key and an order above 1, is 1
  -- for the candidate it selected and 0 for the others.
  pub decrypt_ballot_selection-choice :
      (private_key public_key : Text) (candidates : Number) (cast : Cast)
      → derive_election_public_key v c private_key ≡ ok public_key
      → IsCast v c public_key candidates cast
      → 1 < c.order
      → decrypt_ballot_selection v c private_key cast.ciphertext
        ≡ ok (map (one_for (to_natural cast.selected)) (range 0 (to_natural candidates)))
  unfolding decrypt_ballot_selection
  decrypt_ballot_selection-choice private_key public_key candidates cast derived h order =
      let (secret, key) = derive_election_public_key-IsKeyOf private_key public_key derived in
      let (encrypted, hashed) =
        IsCast-IsEncryption private_key public_key secret candidates cast key h in
      decrypt_for_key-IsEncryption v c curve private_key public_key secret (to_natural candidates) 1
        (one_for (to_natural cast.selected)) cast.ciphertext key.scalar_is derived hashed
        key.positive key.bounded order (λ i inside. one_for_le (to_natural cast.selected) i)
        encrypted
