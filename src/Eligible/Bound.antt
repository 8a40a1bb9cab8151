-- ===== src/Eligible/Bound.antt =====
-- What the proof of an eligible ballot binds: `assertCanonicalField` leaves one text, up to case, for
-- each element of the scalar field.
use native.Mathlib.Nat.{mod-eq_of_lt}
use scalable_blockchain_voti.Prelude.{
  ℕ, zero, suc, String, ◌+◌, ◌*◌, ◌-◌, ◌%◌, ◌<◌, ◌≡◌, map, ltb, ltb→lt, refl, sym, ap, ◌∙◌, subst,
  Bool, true, ◌&&◌, ◌||◌, List, [], ◌∷◌, ◌++◌, length, take, drop, All, arith, leb, if◌then◌else◌,
  cons_head, cons_tail, and_left,
}
use scalable_blockchain_voti.Outcome.{ok, guard-eq-ok, >>=-eq-ok, >>-eq-ok, then-eq-ok, ok_inj}
use scalable_blockchain_voti.Js.Texts.{
  Text, text, lower, lower_unit, length-lower, take-lower, drop-lower,
}
use scalable_blockchain_voti.Viem.{Viem, is_bytes32}
use scalable_blockchain_voti.Tally.Shares.{hex_digits}
use scalable_blockchain_voti.Eligibility.Commitments.{
  snark_scalar_field, bytes32_to_snark_field, compute_eligible_package_commitment,
}
use scalable_blockchain_voti.Jub.{
  BabyJub, CiphertextJson, only_keys, commitment_to_bytes32, naturals_eq, assert_hex32,
  validate_ciphertext_json,
}
use scalable_blockchain_voti.Compatible.{ProofEnvelope, Snark, check_proof_json}
use scalable_blockchain_voti.Eligible.{
  EligibleVotePackage, assert_canonical_field, check_eligible_statement,
  validate_eligible_vote_package,
}

abbrev pub is_hex_unit : ℕ → Bool
is_hex_unit c = (leb 48 c && leb c 57) || ((leb 65 c && leb c 70) || (leb 97 c && leb c 102))

-- Strict hex is `0x` and hex digits.
pub record IsStrict (v : Viem) : Type 0 where
  pub strict_prefix : (s : Text) → v.is_hex s ≡ true → take 2 s ≡ text "0x"
  pub strict_digits : (s : Text) → v.is_hex s ≡ true → All (λ c. is_hex_unit c ≡ true) (drop 2 s)

abbrev IsLowDigit : ℕ → Type 0
IsLowDigit c = ((leb 48 c && leb c 57) || (leb 97 c && leb c 102)) ≡ true

lower-IsLowDigit : (s : Text) → All (λ c. is_hex_unit c ≡ true) s → All IsLowDigit (lower s)
unfolding lower lower_unit
lower-IsLowDigit [] h = tt
lower-IsLowDigit (c ∷ s) h = (ground (arith, h.0), lower-IsLowDigit s h.1)

digit_inj :
    (c d a b : ℕ)
    → IsLowDigit c
    → IsLowDigit d
    → a * 16 + (if leb c 57 then c - 48 else c - 87)
      ≡ b * 16 + (if leb d 57 then d - 48 else d - 87)
    → (a ≡ b) × (c ≡ d)
digit_inj c d a b hc hd e = (ground (arith, hc, hd, e), ground (arith, hc, hd, e))

hex_digits_inj :
    (s t : Text) (a b : ℕ)
    → length s ≡ length t
    → All IsLowDigit s
    → All IsLowDigit t
    → hex_digits a s ≡ hex_digits b t
    → (a ≡ b) × (s ≡ t)
unfolding hex_digits
hex_digits_inj [] [] a b n hs ht e = (e, refl)
hex_digits_inj [] (d ∷ t) a b n hs ht e = absurd (omega (arith, n))
hex_digits_inj (c ∷ s) [] a b n hs ht e = absurd (omega (arith, n))
hex_digits_inj (c ∷ s) (d ∷ t) a b n hs ht e =
    let (values, rest) = hex_digits_inj s t _ _ (omega (arith, n)) hs.1 ht.1 e in
    let (same, first) = digit_inj c d a b hs.0 ht.0 values in (same, cc (first, rest))

naturals_eq_sound : (ms ns : List ℕ) → naturals_eq ms ns ≡ true → ms ≡ ns
unfolding naturals_eq
naturals_eq_sound [] [] h = refl
naturals_eq_sound [] (n ∷ ns) h = cc
naturals_eq_sound (m ∷ ms) [] h = cc
naturals_eq_sound (m ∷ ms) (n ∷ ns) h = ground (arith, naturals_eq_sound ms ns)

take-drop : (n : ℕ) (s : Text) → take n s ++ drop n s ≡ s
take-drop zero s = refl
take-drop (suc n) [] = refl
take-drop (suc n) (c ∷ s) = ap (λ t. c ∷ t) (take-drop n s)

length-drop : (n : ℕ) (s : Text) → length (drop n s) ≡ length s - n
length-drop zero s = omega arith
length-drop (suc n) [] = omega arith
length-drop (suc n) (c ∷ s) = let rest = length-drop n s in omega (arith, rest)

-- A 32-byte value is determined, up to case, by its number.
bytes32_determined :
    (v : Viem)
    → IsStrict v
    → (s t : Text) → is_bytes32 v s ≡ true
    → is_bytes32 v t ≡ true
    → hex_digits 0 (drop 2 (lower s)) ≡ hex_digits 0 (drop 2 (lower t))
    → lower s ≡ lower t
unfolding is_bytes32
bytes32_determined v strict s t hs ht e =
    let hex_s = and_left (v.is_hex s) _ hs in
    let hex_t = and_left (v.is_hex t) _ ht in
    let size : length (drop 2 (lower s)) ≡ length (drop 2 (lower t)) =
      length-drop 2 (lower s)
      ∙ (let a = length-lower s in let b = length-lower t in ground (arith, a, b, hs, ht))
      ∙ sym (length-drop 2 (lower t)) in
    let digits : (u : Text) → v.is_hex u ≡ true → All IsLowDigit (drop 2 (lower u)) = λ u h.
      subst (All IsLowDigit) (sym (drop-lower 2 u))
        (lower-IsLowDigit (drop 2 u) (strict.strict_digits u h)) in
    let front : take 2 (lower s) ≡ take 2 (lower t) =
      take-lower 2 s
      ∙ ap lower (strict.strict_prefix s hex_s ∙ sym (strict.strict_prefix t hex_t))
      ∙ sym (take-lower 2 t) in
    let (_, back) =
      hex_digits_inj (drop 2 (lower s)) (drop 2 (lower t)) 0 0 size (digits s hex_s)
        (digits t hex_t) e in
    sym (take-drop 2 (lower s))
    ∙ ap (λ x. x ++ drop 2 (lower s)) front
    ∙ ap (λ x. take 2 (lower t) ++ x) back
    ∙ take-drop 2 (lower t)

abbrev value_of : Text → ℕ
value_of s = hex_digits 0 (drop 2 (lower s))

-- The field element that a number stands for.
abbrev pub element : ℕ → ℕ
element n = n % snark_scalar_field

element_inj :
    {m n : ℕ} → m < snark_scalar_field → n < snark_scalar_field → element m ≡ element n → m ≡ n
element_inj hm hn e = sym (mod-eq_of_lt hm) ∙ e ∙ mod-eq_of_lt hn

module _ {F : Type 0} (jub : BabyJub F) (v : Viem) (snark : Snark) where
  -- What is known of a package that was accepted.
  record IsBound (p out : EligibleVotePackage) : Type 0 where
    pub root_well : is_bytes32 v p.eligibility_root ≡ true
    pub nullifier_well : is_bytes32 v p.ballot_nullifier ≡ true
    pub root_small : value_of p.eligibility_root < snark_scalar_field
    pub nullifier_small : value_of p.ballot_nullifier < snark_scalar_field
    pub root_kept : out.eligibility_root ≡ lower p.eligibility_root
    pub nullifier_kept : out.ballot_nullifier ≡ lower p.ballot_nullifier
    pub envelope : ProofEnvelope
    pub decoded : snark.decode_proof 23 p.ballot_validity_proof.proof ≡ ok envelope
    pub election : ℕ
    pub candidates : ℕ
    pub others : List ℕ
    pub signals :
        envelope.public_signals
        ≡ election ∷ candidates ∷ value_of p.eligibility_root ∷ value_of p.ballot_nullifier ∷ others

  assert_canonical_field-eq-ok :
      (value : Text) (label : String) {n : ℕ}
      → assert_canonical_field value label ≡ ok n
      → (n ≡ value_of value) × (value_of value < snark_scalar_field)
  unfolding assert_canonical_field
  assert_canonical_field-eq-ok value label h =
      let (canonical, h1) = >>-eq-ok (ltb (value_of value) snark_scalar_field) _ _ h in
      (sym (ok_inj h1), ltb→lt (value_of value) snark_scalar_field canonical)

  assert_hex32-eq-ok :
      (value : Text) (label : String)
      → assert_hex32 v value label ≡ ok tt
      → is_bytes32 v value ≡ true
  unfolding assert_hex32
  assert_hex32-eq-ok value label h = guard-eq-ok (is_bytes32 v value) _ h

  statement_signals :
      (p : EligibleVotePackage) (root nullifier : ℕ) (ciphertext : CiphertextJson)
      → check_eligible_statement jub v snark p root nullifier ciphertext ≡ ok tt
      → (envelope : ProofEnvelope) × (snark.decode_proof 23 p.ballot_validity_proof.proof
          ≡ ok envelope)
        × (election : ℕ) × (candidates : ℕ) × (others : List ℕ) × (envelope.public_signals
            ≡ election ∷ candidates ∷ root ∷ nullifier ∷ others)
  unfolding check_eligible_statement
  statement_signals p root nullifier ciphertext h =
      let (election, _, h1) = >>=-eq-ok (bytes32_to_snark_field v p.election_id) _ h in
      let (candidates, _, h2) = >>=-eq-ok (bytes32_to_snark_field v p.candidate_list_hash) _ h1 in
      let (commitment, _, h3) =
        >>=-eq-ok (compute_eligible_package_commitment snark.poseidon _ _ _ _ _ _ _) _ h2 in
      let (expected, _, h4) = >>=-eq-ok (commitment_to_bytes32 commitment) _ h3 in
      let (_, h5) = >>-eq-ok _ _ _ h4 in
      let (envelope, decoded, h6) =
        >>=-eq-ok (snark.decode_proof 23 p.ballot_validity_proof.proof) _ h5 in
      let (same, _) = >>-eq-ok (naturals_eq envelope.public_signals _) _ _ h6 in
      (envelope, decoded, election, candidates, _, naturals_eq_sound envelope.public_signals _ same)

  validate_eligible_vote_package-IsBound :
      (p out : EligibleVotePackage)
      → validate_eligible_vote_package jub v snark p ≡ ok out
      → IsBound p out
  unfolding validate_eligible_vote_package
  validate_eligible_vote_package-IsBound p out h =
      let (_, h1) = then-eq-ok (only_keys p.keys _ _) _ h in
      let (_, h2) = >>-eq-ok _ _ _ h1 in
      let (_, h3) = then-eq-ok (assert_hex32 v p.election_id _) _ h2 in
      let (_, h4) = then-eq-ok (assert_hex32 v p.candidate_list_hash _) _ h3 in
      let (root_well, h5) = then-eq-ok (assert_hex32 v p.eligibility_root _) _ h4 in
      let (well, h6) = then-eq-ok (assert_hex32 v p.ballot_nullifier _) _ h5 in
      let (_, h7) = then-eq-ok (assert_hex32 v p.package_commitment _) _ h6 in
      let (root, root_is, h8) = >>=-eq-ok (assert_canonical_field p.eligibility_root _) _ h7 in
      let (n, n_is, h9) = >>=-eq-ok (assert_canonical_field p.ballot_nullifier _) _ h8 in
      let (_, _, h10) = >>=-eq-ok (assert_canonical_field p.package_commitment _) _ h9 in
      let (ciphertext, _, h11) = >>=-eq-ok (validate_ciphertext_json v _ p.ciphertext) _ h10 in
      let (_, h12) = then-eq-ok (check_proof_json v _ _ p.ballot_validity_proof) _ h11 in
      let (stated, h13) =
        then-eq-ok (check_eligible_statement jub v snark p root n ciphertext) _ h12 in
      let (envelope, decoded, election, candidates, others, signals) =
        statement_signals p root n ciphertext stated in
      let (r, root_small) = assert_canonical_field-eq-ok p.eligibility_root _ root_is in
      let (k, nullifier_small) = assert_canonical_field-eq-ok p.ballot_nullifier _ n_is in
      record {
        root_small = root_small;
        nullifier_small = nullifier_small;
        root_well = assert_hex32-eq-ok p.eligibility_root _ root_well;
        nullifier_well = assert_hex32-eq-ok p.ballot_nullifier _ well;
        root_kept = sym (ap (λ x. x.eligibility_root) (ok_inj h13));
        nullifier_kept = sym (ap (λ x. x.ballot_nullifier) (ok_inj h13));
        envelope = envelope;
        decoded = decoded;
        election = election;
        candidates = candidates;
        others = others;
        signals = signals ∙ cc (r, k);
      }

  -- Two accepted packages have one ballot nullifier and one eligibility root if the public signals
  -- that their proofs are decoded to are the same field elements, whatever else is in the proofs:
  -- what one proof states is good for one nullifier.
  pub validate_eligible_vote_package_binds :
      IsStrict v
      → (p q out_p out_q : EligibleVotePackage)
      → validate_eligible_vote_package jub v snark p ≡ ok out_p
      → validate_eligible_vote_package jub v snark q ≡ ok out_q
      → (e_p e_q : ProofEnvelope) → snark.decode_proof 23 p.ballot_validity_proof.proof ≡ ok e_p
      → snark.decode_proof 23 q.ballot_validity_proof.proof ≡ ok e_q
      → map element e_p.public_signals ≡ map element e_q.public_signals
      → (out_p.ballot_nullifier ≡ out_q.ballot_nullifier)
        × (out_p.eligibility_root ≡ out_q.eligibility_root)
  validate_eligible_vote_package_binds strict p q out_p out_q hp hq e_p e_q dp dq same =
      let a = validate_eligible_vote_package-IsBound p out_p hp in
      let b = validate_eligible_vote_package-IsBound q out_q hq in
      let ours : a.envelope ≡ e_p = ok_inj (sym a.decoded ∙ dp) in
      let theirs : b.envelope ≡ e_q = ok_inj (sym b.decoded ∙ dq) in
      let signals =
        ap (map element) (sym a.signals ∙ ap (λ x. x.public_signals) ours)
        ∙ same
        ∙ ap (map element) (ap (λ x. x.public_signals) (sym theirs) ∙ b.signals) in
      let later = cons_tail (cons_tail signals) in
      (
        a.nullifier_kept
            ∙ bytes32_determined v strict p.ballot_nullifier q.ballot_nullifier a.nullifier_well
                b.nullifier_well
                (element_inj a.nullifier_small b.nullifier_small (cons_head (cons_tail later)))
            ∙ sym b.nullifier_kept,
        a.root_kept
            ∙ bytes32_determined v strict p.eligibility_root q.eligibility_root a.root_well
                b.root_well (element_inj a.root_small b.root_small (cons_head later))
            ∙ sym b.root_kept,
      )
