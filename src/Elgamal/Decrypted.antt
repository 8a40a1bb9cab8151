-- ===== src/Elgamal/Decrypted.antt =====
-- The decryption of an encryption is the counts that were encrypted.
use scalable_blockchain_voti.Prelude.{
  ℕ, zero, suc, ◌+◌, ◌/◌, ◌<◌, ◌≤◌, ◌≡◌, refl, sym, ap, ◌∙◌, some, List, map, length, arith,
}
use scalable_blockchain_voti.Outcome.{plain, at, ok, ok_inj, map_result, guard}
use scalable_blockchain_voti.Js.Texts.{Text, lower, text_eq_refl}
use scalable_blockchain_voti.Viem.{Viem}
use scalable_blockchain_voti.Package.Ciphertext.{BallotCiphertext}
use scalable_blockchain_voti.Dkg.Coordinator.{required}
use scalable_blockchain_voti.Tally.{hash_election_public_key}
use scalable_blockchain_voti.Tally.Shares.{scalar_from_private_key}
use scalable_blockchain_voti.Curve.{Curve, subtract}
use scalable_blockchain_voti.Curve.Multiples.{times}
use scalable_blockchain_voti.Curve.Laws.{IsCurve}
use scalable_blockchain_voti.Elgamal.{range, derive_election_public_key}
use scalable_blockchain_voti.Elgamal.Decryption.{
  find_count, build_tally_lookup, message_key, count_at, decrypt_ciphertext_counts, decrypt_for_key,
}
use scalable_blockchain_voti.Elgamal.Pairs.{first_at, second_at}
use scalable_blockchain_voti.Elgamal.Encrypted.{Encrypts, IsEncryption}
use scalable_blockchain_voti.Elgamal.Aggregated.{validate-IsEncryption}
use scalable_blockchain_voti.Elgamal.Lookup.{multiple, message_left, build_tally_lookup_found}

module _ {Point : Type 0} (v : Viem) (c : Curve Point) (curve : IsCurve v c) where
  -- A pair that encrypts a small count under the key of the scalar decrypts to the count.
  count_at-Encrypts :
      (secret i m largest : ℕ) (ct : BallotCiphertext) (lookup : List (Text × ℕ))
      → 0 < secret
      → secret < c.order
      → largest < c.order
      → m ≤ largest
      → build_tally_lookup v c largest ≡ ok lookup
      → Encrypts v c (multiple v c curve secret) ct i m
      → count_at v c secret ct lookup i ≡ ok m
  unfolding count_at required
  count_at-Encrypts secret i m largest ct lookup low high below small built e =
      let (filled, key, f, keyed, found) =
        build_tally_lookup_found v c curve largest m below small in
      let same : filled ≡ lookup = ok_inj (sym f ∙ built) in
      let found' : find_count key lookup ≡ some m = ap (find_count key) (sym same) ∙ found in
      let keyed' : message_key v c (
            subtract c
              (c.group.add (times c.group e.scalar (multiple v c curve secret))
                (multiple v c curve m))
              (times c.group secret (multiple v c curve e.scalar)))
          ≡ ok key =
        ap (message_key v c) (message_left v c curve secret e.scalar m) ∙ keyed in
      rw
        (
          first_at v c (at "ciphertext.points") ct i _ _ e.pair,
          second_at v c (at "ciphertext.points") ct i _ _ e.pair,
          curve.multiply_total (multiple v c curve e.scalar) secret low high,
          keyed',
          found',
        )
        refl

  counts_at :
      (secret n from count largest : ℕ)
      → (counts : ℕ → ℕ) (ct : BallotCiphertext) (lookup : List (Text × ℕ)) → 0 < secret
      → secret < c.order
      → largest < c.order
      → from + count ≤ n
      → ((i : ℕ) → i < n → counts i ≤ largest)
      → build_tally_lookup v c largest ≡ ok lookup
      → IsEncryption v c (multiple v c curve secret) n counts ct
      → map_result (count_at v c secret ct lookup) (range from count)
        ≡ ok (map counts (range from count))
  unfolding map_result range
  counts_at secret n from zero largest counts ct lookup low high below inside small built e = refl
  counts_at secret n from (suc count) largest counts ct lookup low high below inside small built e =
      rw
        (
          count_at-Encrypts secret from (counts from) largest ct lookup low high below
              (small from (omega (arith, inside))) built (e.encrypts from (omega (arith, inside))),
          counts_at secret n (from + 1) count largest counts ct lookup low high below
              (omega (arith, inside)) small built e,
        )
        refl

  decrypt_ciphertext_counts-IsEncryption :
      (secret n largest : ℕ) (counts : ℕ → ℕ) (ct : BallotCiphertext)
      → 0 < secret
      → secret < c.order
      → largest < c.order
      → ((i : ℕ) → i < n → counts i ≤ largest)
      → IsEncryption v c (multiple v c curve secret) n counts ct
      → decrypt_ciphertext_counts v c secret ct largest ≡ ok (map counts (range 0 n))
  unfolding decrypt_ciphertext_counts
  decrypt_ciphertext_counts-IsEncryption secret n largest counts ct low high below small e =
      let (filled, _, f, _, _) = build_tally_lookup_found v c curve largest 0 below (omega arith) in
      let half : (length ct.points + 1) / 2 ≡ n = (let size = e.size in rw size (omega arith)) in
      rw (f, half)
        (counts_at secret n 0 n largest counts ct filled low high below (omega arith) small f e)

  -- With the private key whose public key the ciphertext names, the decryption returns the counts.
  pub decrypt_for_key-IsEncryption :
      (private_key public_key : Text) (secret n largest : ℕ)
      → (counts : ℕ → ℕ) (ct : BallotCiphertext)
      → scalar_from_private_key v c.order (lower private_key) (plain "privateKey") ≡ ok secret
      → derive_election_public_key v c private_key ≡ ok public_key
      → hash_election_public_key v public_key ≡ ok ct.election_public_key_hash
      → 0 < secret
      → secret < c.order
      → largest < c.order
      → ((i : ℕ) → i < n → counts i ≤ largest)
      → IsEncryption v c (multiple v c curve secret) n counts ct
      → decrypt_for_key v c private_key ct largest ≡ ok (map counts (range 0 n))
  unfolding decrypt_for_key guard
  decrypt_for_key-IsEncryption private_key public_key secret n largest counts ct scalar derived
        hashed low high below small e =
      rw
        (
          scalar,
          derived,
          hashed,
          validate-IsEncryption v c curve _ n counts ct e,
          text_eq_refl ct.election_public_key_hash,
        )
        (decrypt_ciphertext_counts-IsEncryption secret n largest counts ct low high below small e)
