-- ===== src/Eligibility/Placed.antt =====
-- Each credential of a set with different indexes is at its own leaf.
use scalable_blockchain_voti.Prelude.{
  ℕ, ◌+◌, ◌^◌, ◌≤◌, ◌≡◌, refl, sym, ap, ◌∙◌, true, false, some, some_inj, List, [], ◌∷◌, map,
  length, length-append, Bool-cases, inl, inr, ltb, ◌==◌, ==_iff, if◌then◌else◌, arith,
}
use scalable_blockchain_voti.Outcome.{ok, ok_inj, >>-eq-ok}
use scalable_blockchain_voti.Js.Indexes.{
  has_index, add_index, add_indexes, add_index_there, add_index_keeps,
}
use scalable_blockchain_voti.Eligibility.{
  EligibilityCredential, Nodes, node_at, set_node, find_credential, place,
}

node_at-set_node :
    (t i x : ℕ) (nodes : Nodes)
    → node_at t (set_node i x nodes) ≡ (if i == t then some x else node_at t nodes)
unfolding node_at set_node
node_at-set_node t i x [] = refl
node_at-set_node t i x ((j, y) ∷ nodes) = elim (Bool-cases (j == i)) [
  | inl same ↦ rw same (
      let e = (==_iff j i).0 same in
      elim (Bool-cases (i == t)) [ inl at_t ↦ rw (e, at_t) refl | inr off ↦ rw (e, off) refl ])
  | inr other ↦ rw other (elim (Bool-cases (j == t)) [
    | inr off ↦ rw off (node_at-set_node t i x nodes)
    | inl at_t ↦
        let e = (==_iff j t).0 at_t in
        let i_off : (i == t) ≡ false = ground arith in rw (at_t, i_off) refl
  ])
]

length-add_index : (js : List ℕ) (i : ℕ) → length (add_index js i) ≤ length js + 1
unfolding add_index
length-add_index js i = elim (Bool-cases (has_index i js)) [
  | inl old ↦ rw old (omega arith)
  | inr new ↦ rw (new, length-append js (i ∷ [])) (omega arith)
]

length-add_indexes : (seen is : List ℕ) → length (add_indexes seen is) ≤ length seen + length is
unfolding add_indexes
length-add_indexes seen [] = omega arith
length-add_indexes seen (i ∷ is) =
    let rest = length-add_indexes (add_index seen i) is in
    let one = length-add_index seen i in omega (arith, rest, one)

-- Where nothing was dropped, the next index was new, and nothing is dropped after it.
next_is_new :
    (seen : List ℕ) (i : ℕ) (is : List ℕ)
    → length (add_indexes seen (i ∷ is)) ≡ length seen + length (i ∷ is)
    → (has_index i seen ≡ false)
      × (length (add_indexes (add_index seen i) is) ≡ length (add_index seen i) + length is)
unfolding add_indexes
next_is_new seen i is h =
    let rest = length-add_indexes (add_index seen i) is in
    let one = length-add_index seen i in
    (
      elim (Bool-cases (has_index i seen)) [
        | inr new ↦ new
        | inl old ↦
            let same : length (add_index seen i) ≡ length seen = unfold add_index in rw old refl in
            absurd (omega (arith, h, rest, same))
      ],
      omega (arith, h, rest, one),
    )

module _ (poseidon : List ℕ → ℕ) (depth : ℕ) where
  abbrev leaf_of : EligibilityCredential → ℕ
  leaf_of c = poseidon (c.secret ∷ c.nonce ∷ [])

  place_keeps :
      (t : ℕ) (seen : List ℕ) (nodes final : Nodes) (cs : List EligibilityCredential)
      → has_index t seen ≡ true
      → length (add_indexes seen (map (λ c. c.index) cs))
        ≡ length seen + length (map (λ c. c.index) cs)
      → place poseidon depth nodes cs ≡ ok final
      → node_at t final ≡ node_at t nodes
  unfolding place
  place_keeps t seen nodes final [] there all h = ap (node_at t) (sym (ok_inj h))
  place_keeps t seen nodes final (c ∷ cs) there all h =
      let (_, h1) = >>-eq-ok (ltb c.index (2 ^ depth)) _ _ h in
      let (new, rest) = next_is_new seen c.index (map (λ d. d.index) cs) all in
      let other : (c.index == t) ≡ false = elim (Bool-cases (c.index == t)) [
        | inr off ↦ off
        | inl same ↦ absurd (cc (rw ((==_iff c.index t).0 same) at new, there))
      ] in
      place_keeps t (add_index seen c.index) (set_node c.index (leaf_of c) nodes) final cs
        (add_index_keeps t seen c.index there) rest h1
      ∙ node_at-set_node t c.index (leaf_of c) nodes
      ∙ rw other refl

  -- The node at a credential's index is the hash of its secret and nonce.
  pub place_finds :
      (t : ℕ) (seen : List ℕ) (nodes final : Nodes) (cs : List EligibilityCredential)
      → (c : EligibilityCredential) → find_credential t cs ≡ some c
      → length (add_indexes seen (map (λ d. d.index) cs))
        ≡ length seen + length (map (λ d. d.index) cs)
      → place poseidon depth nodes cs ≡ ok final
      → node_at t final ≡ some (leaf_of c)
  unfolding place find_credential
  place_finds t seen nodes final [] c found all h = cc
  place_finds t seen nodes final (d ∷ cs) c found all h =
      let (_, h1) = >>-eq-ok (ltb d.index (2 ^ depth)) _ _ h in
      let (new, rest) = next_is_new seen d.index (map (λ e. e.index) cs) all in
      elim (Bool-cases (d.index == t)) [
        | inr off ↦
            place_finds t (add_index seen d.index) (set_node d.index (leaf_of d) nodes) final cs c
              (rw off at found) rest h1
        | inl same ↦
            let e = (==_iff d.index t).0 same in
            let is_c : d ≡ c = some_inj (rw same at found) in
            place_keeps t (add_index seen d.index) (set_node d.index (leaf_of d) nodes) final cs
              (rw e (add_index_there seen t)) rest h1
            ∙ node_at-set_node t d.index (leaf_of d) nodes
            ∙ rw (same, is_c) refl
      ]
