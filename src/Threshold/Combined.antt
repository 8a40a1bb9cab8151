-- ===== src/Threshold/Combined.antt =====
-- Shares that combine to the private key decrypt as the private key does.
use native.Mathlib.Nat.{mod-add-div}
use scalable_blockchain_voti.Prelude.{
  ℕ, zero, suc, ◌+◌, ◌*◌, ◌/◌, ◌%◌, ◌<◌, ◌≤◌, ◌≡◌, refl, sym, ap, ◌∙◌, true, some, List, [], ◌∷◌,
  map, length, All, arith, leb,
}
use scalable_blockchain_voti.Outcome.{plain, at, ok, ok_inj, guard, map_result}
use scalable_blockchain_voti.Js.Texts.{Text, lower}
use scalable_blockchain_voti.Js.Numbers.{Number, is_integer, at_least, to_natural}
use scalable_blockchain_voti.Viem.{Viem}
use scalable_blockchain_voti.Package.Ciphertext.{BallotCiphertext}
use scalable_blockchain_voti.Dkg.Coordinator.{required}
use scalable_blockchain_voti.Tally.{hash_election_public_key}
use scalable_blockchain_voti.Tally.Shares.{TallyDecryptionShare, scalar_from_private_key}
use scalable_blockchain_voti.Curve.{Curve, subtract}
use scalable_blockchain_voti.Curve.Multiples.{times, times-add, times-mul, times_comm, identity-add}
use scalable_blockchain_voti.Curve.Laws.{IsCurve}
use scalable_blockchain_voti.Elgamal.{range, derive_election_public_key}
use scalable_blockchain_voti.Elgamal.Decryption.{
  find_count, build_tally_lookup, message_key, decrypt_aggregated_tally,
}
use scalable_blockchain_voti.Elgamal.Pairs.{second_at}
use scalable_blockchain_voti.Elgamal.Encrypted.{Encrypts, IsEncryption}
use scalable_blockchain_voti.Elgamal.Aggregated.{validate-IsEncryption}
use scalable_blockchain_voti.Elgamal.Lookup.{multiple, message_left, build_tally_lookup_found}
use scalable_blockchain_voti.Elgamal.Decrypted.{decrypt_for_key-IsEncryption}
use scalable_blockchain_voti.Threshold.Shares.{
  WeightedShare, combine, share_point_of, select_shares, count_with_shares,
  decrypt_aggregated_tally_with_shares,
}

-- A weighted share beside the private share that it was made with.
abbrev pub Held : Type 0
Held = ℕ × WeightedShare

abbrev pub weighted_of : List Held → List WeightedShare
weighted_of hs = map (λ h. h.1) hs

-- The private shares, each times its coefficient.
abbrev pub weighted_sum : List Held → ℕ
weighted_sum [] = 0
weighted_sum (h ∷ hs) = h.1.coefficient * h.0 + weighted_sum hs

module _ {Point : Type 0} (v : Viem) (c : Curve Point) (curve : IsCurve v c) where
  times-identity : (n : ℕ) → times c.group n c.group.identity ≡ c.group.identity
  times-identity zero = refl
  times-identity (suc n) =
      identity-add c.group curve.group_laws (times c.group n c.group.identity) ∙ times-identity n

  -- A multiple of a multiple of the base is the one by the remainder.
  times_reduced :
      (n r : ℕ)
      → times c.group n (multiple v c curve r) ≡ times c.group (n % c.order) (multiple v c curve r)
  times_reduced n r =
      let p = multiple v c curve r in
      let laws = curve.group_laws in
      let round : times c.group (c.order * (n / c.order)) p ≡ c.group.identity =
        times-mul c.group laws c.order (n / c.order) p
        ∙ times_comm c.group laws c.order (n / c.order) p
        ∙ ap (times c.group (n / c.order)) (
            times_comm c.group laws c.order r c.base
            ∙ ap (times c.group r) curve.base_times_order
            ∙ times-identity r)
        ∙ times-identity (n / c.order) in
      ap (λ k. times c.group k p) (sym (mod-add-div n c.order))
      ∙ times-add c.group laws (n % c.order) (c.order * (n / c.order)) p
      ∙ ap (c.group.add (times c.group (n % c.order) p)) round
      ∙ laws.add-identity (times c.group (n % c.order) p)

  -- The share's point for a pair is the private share's multiple of the pair's first point, and its
  -- coefficient is a scalar.
  abbrev pub IsHonest : ℕ → Point → Held → Type 0
  IsHonest i p h =
      (share_point_of v c i h.1 ≡ ok (times c.group h.0 p))
      × (0 < h.1.coefficient)
      × (h.1.coefficient < c.order)

  combine_sum :
      (i : ℕ) (p sum : Point) (hs : List Held)
      → All (IsHonest i p) hs
      → combine v c (share_point_of v c i) (weighted_of hs) sum
        ≡ ok (c.group.add sum (times c.group (weighted_sum hs) p))
  unfolding combine
  combine_sum i p sum [] honest = ap ok (sym (curve.group_laws.add-identity sum))
  combine_sum i p sum (h ∷ hs) honest =
      let (there, low, high) = honest.0 in
      let laws = curve.group_laws in
      let one = times c.group h.1.coefficient (times c.group h.0 p) in
      rw (there, curve.multiply_total (times c.group h.0 p) h.1.coefficient low high)
        (combine_sum i p (c.group.add sum one) hs honest.1
          ∙ ap ok (
              laws.add_assoc sum one (times c.group (weighted_sum hs) p)
              ∙ ap (c.group.add sum) (
                  ap (λ x. c.group.add x (times c.group (weighted_sum hs) p))
                    (sym (times-mul c.group laws h.1.coefficient h.0 p))
                  ∙ sym (times-add c.group laws (h.1.coefficient * h.0) (weighted_sum hs) p))))

  combine_secret :
      (i r secret : ℕ) (hs : List Held)
      → weighted_sum hs % c.order ≡ secret
      → All (IsHonest i (multiple v c curve r)) hs
      → combine v c (share_point_of v c i) (weighted_of hs) c.group.identity
        ≡ ok (times c.group secret (multiple v c curve r))
  combine_secret i r secret hs total honest =
      combine_sum i (multiple v c curve r) c.group.identity hs honest
      ∙ ap ok (
          identity-add c.group curve.group_laws _
          ∙ times_reduced (weighted_sum hs) r
          ∙ ap (λ n. times c.group n (multiple v c curve r)) total)

  -- The shares are honest for every pair of the ciphertext.
  abbrev pub AllHonest :
      (n : ℕ) (key : Point) (counts : ℕ → ℕ) (ct : BallotCiphertext)
      → IsEncryption v c key n counts ct
      → List Held
      → Type 0
  AllHonest n key counts ct e hs =
      (i : ℕ) (below : i < n) → All (IsHonest i (multiple v c curve (e.encrypts i below).scalar)) hs

  count_with_shares-Encrypts :
      (secret i m largest : ℕ) (ct : BallotCiphertext) (lookup : List (Text × ℕ)) (hs : List Held)
      → largest < c.order
      → m ≤ largest
      → build_tally_lookup v c largest ≡ ok lookup
      → weighted_sum hs % c.order ≡ secret
      → (e : Encrypts v c (multiple v c curve secret) ct i m)
      → All (IsHonest i (multiple v c curve e.scalar)) hs
      → count_with_shares v c ct (weighted_of hs) lookup i ≡ ok m
  unfolding count_with_shares required
  count_with_shares-Encrypts secret i m largest ct lookup hs below small built total e honest =
      let (filled, key, f, keyed, found) =
        build_tally_lookup_found v c curve largest m below small in
      let same : filled ≡ lookup = ok_inj (sym f ∙ built) in
      let found' : find_count key lookup ≡ some m = ap (find_count key) (sym same) ∙ found in
      let keyed' : message_key v c (
            subtract c
              (c.group.add (times c.group e.scalar (multiple v c curve secret))
                (multiple v c curve m))
              (times c.group secret (multiple v c curve e.scalar)))
          ≡ ok key =
        ap (message_key v c) (message_left v c curve secret e.scalar m) ∙ keyed in
      rw
        (
          second_at v c (at "ciphertext.points") ct i _ _ e.pair,
          combine_secret i e.scalar secret hs total honest,
          keyed',
          found',
        )
        refl

  counts_with_shares :
      (secret n from count largest : ℕ) (counts : ℕ → ℕ) (ct : BallotCiphertext)
      (lookup : List (Text × ℕ)) (hs : List Held)
      → largest < c.order
      → from + count ≤ n
      → ((i : ℕ) → i < n → counts i ≤ largest)
      → build_tally_lookup v c largest ≡ ok lookup
      → weighted_sum hs % c.order ≡ secret
      → (e : IsEncryption v c (multiple v c curve secret) n counts ct)
      → AllHonest n (multiple v c curve secret) counts ct e hs
      → map_result (count_with_shares v c ct (weighted_of hs) lookup) (range from count)
        ≡ ok (map counts (range from count))
  unfolding map_result range
  counts_with_shares secret n from zero largest counts ct lookup hs below inside small built total e
        honest =
      refl
  counts_with_shares secret n from (suc count) largest counts ct lookup hs below inside small built
        total e honest =
      let here : from < n = omega (arith, inside) in
      rw
        (
          count_with_shares-Encrypts secret from (counts from) largest ct lookup hs below
              (small from here) built total (e.encrypts from here) (honest from here),
          counts_with_shares secret n (from + 1) count largest counts ct lookup hs below
              (omega (arith, inside)) small built total e honest,
        )
        refl

  -- Of a ciphertext that encrypts counts up to the largest, and below the order, under the public
  -- key of a private key: when the shares that are selected were made honestly from private shares
  -- that, times the Lagrange coefficients, add up to the private scalar modulo the order,
  -- `decryptAggregatedTallyWithShares` returns what `decryptAggregatedTally` returns with the
  -- private key, which is the counts.
  pub decrypt_aggregated_tally_with_shares-refines :
      (private_key public_key : Text) (secret n : ℕ) (threshold largest : Number) (counts : ℕ → ℕ)
      (ct : BallotCiphertext) (shares : List TallyDecryptionShare) (hs : List Held)
      → scalar_from_private_key v c.order (lower private_key) (plain "privateKey") ≡ ok secret
      → derive_election_public_key v c private_key ≡ ok public_key
      → hash_election_public_key v public_key ≡ ok ct.election_public_key_hash
      → 0 < secret
      → secret < c.order
      → (is_integer threshold ≡ true) × (at_least 2 threshold ≡ true)
      → (is_integer largest ≡ true) × (at_least 0 largest ≡ true)
      → leb (to_natural threshold) (length shares) ≡ true
      → to_natural largest < c.order
      → ((i : ℕ) → i < n → counts i ≤ to_natural largest)
      → (e : IsEncryption v c (multiple v c curve secret) n counts ct)
      → select_shares v c ct shares (to_natural threshold) ≡ ok (weighted_of hs)
      → weighted_sum hs % c.order ≡ secret
      → AllHonest n (multiple v c curve secret) counts ct e hs
      → (decrypt_aggregated_tally_with_shares v c ct shares threshold largest
          ≡ decrypt_aggregated_tally v c private_key ct largest)
        × (decrypt_aggregated_tally v c private_key ct largest ≡ ok (map counts (range 0 n)))
  unfolding decrypt_aggregated_tally_with_shares decrypt_aggregated_tally guard
  decrypt_aggregated_tally_with_shares-refines private_key public_key secret n threshold largest
        counts ct shares hs scalar derived hashed low high whole natural enough below small e
        selected total honest =
      let (filled, _, f, _, _) =
        build_tally_lookup_found v c curve (to_natural largest) 0 below (omega arith) in
      let half : length ct.points / 2 ≡ n = (let size = e.size in rw size (omega arith)) in
      let with_key : decrypt_aggregated_tally v c private_key ct largest
          ≡ ok (map counts (range 0 n)) =
        rw (natural.0, natural.1)
          (decrypt_for_key-IsEncryption v c curve private_key public_key secret n
            (to_natural largest) counts ct scalar derived hashed low high below small e) in
      let with_shares : decrypt_aggregated_tally_with_shares v c ct shares threshold largest
          ≡ ok (map counts (range 0 n)) =
        rw
          (
            whole.0,
            whole.1,
            natural.0,
            natural.1,
            enough,
            validate-IsEncryption v c curve _ n counts ct e,
            selected,
            f,
            half,
          )
          (counts_with_shares secret n 0 n (to_natural largest) counts ct filled hs below
            (omega arith) small f total e honest) in
      (with_shares ∙ sym with_key, with_key)
