-- ===== src/Elgamal/Lookup.antt =====
-- The lookup of `decryptCiphertextCounts`, from the hex of a small multiple of the base to the count.
use scalable_blockchain_voti.Prelude.{
  ℕ, zero, suc, ◌+◌, ◌<◌, ◌≤◌, ◌≡◌, ◌≢◌, refl, sym, ap, ◌∙◌, false, ◌++◌, some, List, [], ◌∷◌,
  length, drop, arith, ◌==◌, Bool-cases, inl, inr,
}
use scalable_blockchain_voti.Outcome.{ok, ok_inj}
use scalable_blockchain_voti.Js.Texts.{Text, text, text_eq, text_eq_iff, text_eq_refl}
use scalable_blockchain_voti.Viem.{Viem}
use scalable_blockchain_voti.Curve.{Curve, subtract, point_to_hex}
use scalable_blockchain_voti.Curve.Multiples.{times, times_comm, add-cancel}
use scalable_blockchain_voti.Curve.Laws.{IsCurve}
use scalable_blockchain_voti.Elgamal.{range}
use scalable_blockchain_voti.Elgamal.Decryption.{
  find_count, fill_lookup, build_tally_lookup, message_key,
}
use scalable_blockchain_voti.Elgamal.Pairs.{point_to_hex-eq-ok}

module _ {Point : Type 0} (v : Viem) (c : Curve Point) (curve : IsCurve v c) where
  abbrev pub multiple : ℕ → Point
  multiple n = times c.group n c.base

  -- Taking the shared point away leaves the message.
  pub message_left :
      (secret r m : ℕ)
      → subtract c
          (c.group.add (times c.group r (multiple secret)) (multiple m))
          (times c.group secret (multiple r))
        ≡ multiple m
  message_left secret r m =
      ap (λ p. subtract c (c.group.add p (multiple m)) (times c.group secret (multiple r)))
        (times_comm c.group curve.group_laws r secret c.base)
      ∙ add-cancel c.group curve.group_laws (times c.group secret (multiple r)) (multiple m)

  -- Different small multiples of the base have different keys.
  key_differs :
      (m n : ℕ) (s t : Text)
      → m < c.order
      → n < c.order
      → m ≢ n
      → point_to_hex c (multiple m) ≡ ok s
      → point_to_hex c (multiple n) ≡ ok t
      → text_eq s t ≡ false
  key_differs m n s t hm hn ne es et = elim (Bool-cases (text_eq s t)) [
    | inr other ↦ other
    | inl same ↦ absurd (
        let (_, _, one) = point_to_hex-eq-ok v c curve (multiple m) s es in
        let (_, _, two) = point_to_hex-eq-ok v c curve (multiple n) t et in
        let e = (text_eq_iff s t).0 same in
        ne
          (curve.base_order m n hm hn (ok_inj (sym one ∙ ap (λ x. c.from_hex (drop 2 x)) e ∙ two))))
  ]

  -- A small multiple of the base other than the identity has hex.
  pub not_identity : (n : ℕ) → 0 < n → n < c.order → c.equals (multiple n) c.group.identity ≡ false
  not_identity n low high = elim (Bool-cases (c.equals (multiple n) c.group.identity)) [
    | inr other ↦ other
    | inl same ↦ absurd (
        let e : n ≡ 0 =
          curve.base_order n 0 high (omega (arith, high)) ((curve.equals_iff _ _).0 same) in
        omega (arith, e, low))
  ]

  pub multiple_hex :
      (n : ℕ) → 0 < n → n < c.order → (s : Text) × (point_to_hex c (multiple n) ≡ ok s)
  unfolding point_to_hex
  multiple_hex n low high =
      let (digits, e) = curve.to_hex_total (multiple n) (not_identity n low high) in
      (text "0x" ++ digits, rw e refl)

  -- The key of the identity is no hex of a point.
  zero_differs : (p : Point) (s : Text) → point_to_hex c p ≡ ok s → text_eq s (text "zero") ≡ false
  unfolding text
  zero_differs p s made = elim (Bool-cases (text_eq s (text "zero"))) [
    | inr other ↦ other
    | inl same ↦ absurd (
        let (good, _, _) = point_to_hex-eq-ok v c curve p s made in
        let e = (text_eq_iff s (text "zero")).0 same in
        let short : length s ≡ 4 = ap length e in
        let long : length s ≡ 68 = ground (arith, good) in omega (arith, short, long))
  ]

  -- An entry under another key than those of the counts stays.
  fill_lookup_other :
      (from count : ℕ) (key : Text) (entries : List (Text × ℕ))
      → 0 < from
      → from + count ≤ c.order
      → ((n : ℕ) (s : Text)
          → from ≤ n
          → n < from + count
          → point_to_hex c (multiple n) ≡ ok s
          → text_eq s key ≡ false)
      → (filled : List (Text × ℕ)) × (fill_lookup v c (range from count) entries ≡ ok filled)
        × (find_count key filled ≡ find_count key entries)
  unfolding range fill_lookup find_count
  fill_lookup_other from zero key entries low high other = (entries, refl, refl)
  fill_lookup_other from (suc count) key entries low high other =
      let (s, made) = multiple_hex from low (omega arith) in
      let (filled, e, found) =
        fill_lookup_other (from + 1) count key ((s, from) ∷ entries) (omega arith) (omega arith)
          λ n t after before. other n t (omega (arith, after)) (omega (arith, before)) in
      (
        filled,
        rw (curve.multiply_total c.base from low (omega arith), made) e,
        found ∙ rw (other from s (omega arith) (omega arith) made) refl,
      )

  -- The entry of a count is found.
  fill_lookup_found :
      (from count m : ℕ) (key : Text) (entries : List (Text × ℕ))
      → 0 < from
      → from + count ≤ c.order
      → from ≤ m
      → m < from + count
      → point_to_hex c (multiple m) ≡ ok key
      → (filled : List (Text × ℕ)) × (fill_lookup v c (range from count) entries ≡ ok filled)
        × (find_count key filled ≡ some m)
  unfolding range fill_lookup find_count
  fill_lookup_found from zero m key entries low high after before made =
      absurd (omega (arith, after, before))
  fill_lookup_found from (suc count) m key entries low high after before made =
      let (s, e) = multiple_hex from low (omega arith) in
      let total = curve.multiply_total c.base from low (omega arith) in
      elim (Bool-cases (from == m)) [
        | inr other ↦
            let (filled, f, found) =
              fill_lookup_found (from + 1) count m key ((s, from) ∷ entries) (omega arith)
                (omega arith) (ground arith) (omega arith) made in
            (filled, rw (total, e) f, found)
        | inl same ↦
            let at : from ≡ m = ground arith in
            let key_is : s ≡ key =
              ok_inj (sym e ∙ ap (λ k. point_to_hex c (multiple k)) at ∙ made) in
            let (filled, f, found) =
              fill_lookup_other (from + 1) count key ((s, from) ∷ entries) (omega arith)
                (omega arith)
                (λ n t above below t_made.
                  key_differs n m t key (omega arith) (omega arith)
                    (λ eq. omega (arith, eq, at, above)) t_made made) in
            (filled, rw (total, e) f, found ∙ rw (key_is, text_eq_refl key) (ap some at))
      ]

  -- The lookup has the key of each count up to the largest.
  pub build_tally_lookup_found :
      (largest m : ℕ)
      → largest < c.order
      → m ≤ largest
      → (filled : List (Text × ℕ)) × (key : Text) × (build_tally_lookup v c largest ≡ ok filled)
        × (message_key v c (multiple m) ≡ ok key)
        × (find_count key filled ≡ some m)
  unfolding build_tally_lookup message_key find_count
  build_tally_lookup_found largest zero below small =
      let (filled, e, found) =
        fill_lookup_other 1 largest (text "zero") ((text "zero", 0) ∷ []) (omega arith)
          (omega (arith, below)) λ n s after before made. zero_differs (multiple n) s made in
      (
        filled,
        text "zero",
        e,
        rw ((curve.equals_iff c.group.identity c.group.identity).1 refl) refl,
        found ∙ zero_there,
      )
    where
      zero_there : find_count (text "zero") ((text "zero", 0) ∷ []) ≡ some 0
      zero_there = rw (text_eq_refl (text "zero")) refl
  build_tally_lookup_found largest (suc m) below small =
      let (key, made) = multiple_hex (suc m) (omega arith) (omega (arith, below, small)) in
      let (filled, e, found) =
        fill_lookup_found 1 largest (suc m) key ((text "zero", 0) ∷ []) (omega arith)
          (omega (arith, below)) (omega arith) (omega (arith, small)) made in
      (
        filled,
        key,
        e,
        rw (not_identity (suc m) (omega arith) (omega (arith, below, small))) made,
        found,
      )
