-- ===== src/Artifacts/Counted.antt =====
-- What a tally artifact that is accepted satisfies.
use scalable_blockchain_voti.Prelude.{
  ℕ, ◌+◌, ◌^◌, ◌<◌, ◌≤◌, ◌≡◌, refl, sym, ap, ◌∙◌, true, List, [], ◌∷◌, map, length, All, leb,
  leb→le, ◌==◌, ==_iff, ◌&&◌, ◌||◌, arith,
}
use scalable_blockchain_voti.Outcome.{ok, >>=-eq-ok, >>-eq-ok, then-eq-ok, ok_inj}
use scalable_blockchain_voti.Js.Numbers.{Number, natural, negative, fraction, at_least, to_natural}
use scalable_blockchain_voti.Js.Doubles.{add_doubles, add_doubles-exact, add_doubles-small}
use scalable_blockchain_voti.Viem.{Viem}
use scalable_blockchain_voti.Artifacts.{
  TallyArtifact, is_safe, is_number, validate_header, sum_counts, validate_tally_artifact,
}

abbrev pub total_of : List ℕ → ℕ
total_of [] = 0
total_of (n ∷ ns) = n + total_of ns

-- A natural number that a double tells from its neighbours.
abbrev pub IsCount : Number → Type 0
IsCount c = (c ≡ natural (to_natural c)) × (to_natural c < 2 ^ 53)

is_safe-IsCount : (c : Number) → (is_safe c && at_least 0 c) ≡ true → IsCount c
unfolding is_safe at_least to_natural
is_safe-IsCount (natural n) h = (refl, ground (arith, h))
is_safe-IsCount (negative n) h = absurd (ground (arith, h))
is_safe-IsCount fraction h = cc

is_number-eq : (m : ℕ) (c : Number) → is_number m c ≡ true → c ≡ natural m
unfolding is_number
is_number-eq m (natural n) h = ap natural (sym ((==_iff m n).0 h))
is_number-eq m (negative n) h = cc
is_number-eq m fraction h = cc

-- A sum of doubles that comes out below 2 ^ 53 is exact.
sum_counts-eq-ok :
    (sum : ℕ) (counts : List Number) (total : ℕ)
    → sum_counts sum counts ≡ ok total
    → total < 2 ^ 53
    → (total ≡ sum + total_of (map to_natural counts)) × All IsCount counts
unfolding sum_counts
sum_counts-eq-ok sum [] total h small = (let e = ok_inj h in omega (arith, e), tt)
sum_counts-eq-ok sum (c ∷ counts) total h small =
    let (safe, h1) = >>-eq-ok (is_safe c && at_least 0 c) _ _ h in
    let next = add_doubles sum (to_natural c) in
    let (e, rest) = sum_counts-eq-ok next counts total h1 small in
    let below : next < 2 ^ 53 = omega (arith, e, small) in
    let exact = add_doubles-exact sum (to_natural c) (add_doubles-small sum (to_natural c) below) in
    (omega (arith, e, exact), (is_safe-IsCount c safe, rest))

-- When `validateTallyArtifactV4` returns an artifact whose number of accepted ballots is below
-- 2 ^ 53, it is the one given; each count is a natural number below 2 ^ 53, their exact sum is the
-- number of accepted ballots, and there are five shares or more.
pub validate_tally_artifact_sums :
    (v : Viem) (a b : TallyArtifact)
    → validate_tally_artifact v a ≡ ok b
    → to_natural a.accepted_ballot_count < 2 ^ 53
    → (a ≡ b)
      × (a.accepted_ballot_count ≡ natural (total_of (map to_natural a.candidate_counts)))
      × All IsCount a.candidate_counts
      × (5 ≤ length a.decryption_share_digests)
unfolding validate_tally_artifact to_natural
validate_tally_artifact_sums v a b h small =
    let (_, h1) = then-eq-ok (validate_header v a.header) _ h in
    let (_, h2) = >>-eq-ok (is_number 4 a.header.schema_version) _ _ h1 in
    let (_, h3) =
      >>-eq-ok (length a.candidate_counts == 4 || length a.candidate_counts == 16) _ _ h2 in
    let (total, summed, h4) = >>=-eq-ok (sum_counts 0 a.candidate_counts) _ h3 in
    let (same, h5) = >>-eq-ok (is_number total a.accepted_ballot_count) _ _ h4 in
    let (five, h6) = >>-eq-ok (leb 5 (length a.decryption_share_digests)) _ _ h5 in
    let counted = is_number-eq total a.accepted_ballot_count same in
    let fits : total < 2 ^ 53 = rw counted at small in
    let (e, counts) = sum_counts-eq-ok 0 a.candidate_counts total summed fits in
    let exact : total ≡ total_of (map to_natural a.candidate_counts) = omega (arith, e) in
    (ok_inj h6, counted ∙ ap natural exact, counts, leb→le 5 _ five)
