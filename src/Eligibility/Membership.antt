-- ===== src/Eligibility/Membership.antt =====
-- The path that `buildEligibilityMembership` returns leads from the credential to the root.
use scalable_blockchain_voti.Prelude.{
  ℕ, zero, suc, ◌+◌, ◌-◌, ◌*◌, ◌/◌, ◌%◌, ◌^◌, ◌<◌, ◌≡◌, refl, sym, ap, ◌∙◌, subst, true, false,
  ◌||◌, none, some, List, [], ◌∷◌, ◌++◌, map, length, length-map, some_inj, Bool-cases, inl, inr,
  ltb, leb, ltb→lt, ◌==◌, ==_iff, if◌then◌else◌, ◌&&◌, arith,
}
use scalable_blockchain_voti.Outcome.{ok, >>=-eq-ok, >>-eq-ok, ok_inj}
use scalable_blockchain_voti.Js.Indexes.{has_index, add_index, add_indexes}
use scalable_blockchain_voti.Merkle.{sibling_index}
use scalable_blockchain_voti.Dkg.Coordinator.{required}
use scalable_blockchain_voti.Dkg.Recorded.{required-eq-ok}
use scalable_blockchain_voti.Eligibility.Placed.{place_finds}
use scalable_blockchain_voti.Eligibility.{
  EligibilityCredential, EligibilityMembership, Nodes, node_at, value_at, or_zero, find_credential,
  path_loop, root_of, leaf_nodes, parent_nodes, build_levels, place, build_eligibility_membership,
}

has_index-concat :
    (i j : ℕ) (js : List ℕ) → has_index i (js ++ j ∷ []) ≡ (has_index i js || (j == i))
unfolding has_index
has_index-concat i j [] = ground arith
has_index-concat i j (k ∷ js) = ground (arith, has_index-concat i j js)

has_index-add_index :
    (i j : ℕ) (js : List ℕ) → has_index i (add_index js j) ≡ (has_index i js || (j == i))
unfolding add_index
has_index-add_index i j js = elim (Bool-cases (has_index j js)) [
  | inr new ↦ rw new (has_index-concat i j js)
  | inl old ↦ rw old (elim (Bool-cases (j == i)) [
    | inr other ↦ ground arith
    | inl same ↦ let there : has_index i js ≡ true = rw ((==_iff j i).0 same) at old in ground arith
  ])
]

has_index-add_indexes :
    (i : ℕ) (seen is : List ℕ)
    → has_index i (add_indexes seen is) ≡ (has_index i seen || has_index i is)
unfolding add_indexes has_index
has_index-add_indexes i seen [] = ground arith
has_index-add_indexes i seen (j ∷ is) =
    has_index-add_indexes i (add_index seen j) is ∙ rw (has_index-add_index i j seen) (ground arith)

node_at-map :
    (f : ℕ → ℕ) (p : ℕ) (qs : List ℕ)
    → node_at p (map (λ q. (q, f q)) qs) ≡ (if has_index p qs then some (f p) else none)
unfolding node_at has_index
node_at-map f p [] = refl
node_at-map f p (q ∷ qs) = elim (Bool-cases (q == p)) [
  | inl here ↦ rw here (ap (λ i. some (f i)) ((==_iff q p).0 here))
  | inr elsewhere ↦ rw elsewhere (node_at-map f p qs)
]

no_child :
    (i p : ℕ) (nodes : Nodes)
    → i / 2 ≡ p
    → has_index p (map (λ e. e.0 / 2) nodes) ≡ false
    → node_at i nodes ≡ none
unfolding node_at has_index
no_child i p [] half h = refl
no_child i p ((j, x) ∷ nodes) half h = elim (Bool-cases (j == i)) [
  | inr elsewhere ↦ rw elsewhere (no_child i p nodes half (ground arith))
  | inl here ↦ absurd (
      let same = (==_iff j i).0 here in
      let hit : ((j / 2) == p) ≡ true = (==_iff (j / 2) p).1 (rw same half) in cc (rw hit at h))
]

module _ (poseidon : List ℕ → ℕ) where
  -- A node above is the hash of the two below, present or not.
  value_at-parent_nodes :
      (z p : ℕ) (nodes : Nodes)
      → value_at (parent_nodes poseidon z nodes) (poseidon (z ∷ z ∷ [])) p
        ≡ poseidon (value_at nodes z (p * 2) ∷ value_at nodes z (p * 2 + 1) ∷ [])
  unfolding parent_nodes
  value_at-parent_nodes z p nodes =
      let halves = map (λ e. e.0 / 2) nodes in
      let f = λ (q : ℕ). poseidon (value_at nodes z (q * 2) ∷ value_at nodes z (q * 2 + 1) ∷ []) in
      elim (Bool-cases (has_index p halves)) [
        | inl there ↦
            rw (node_at-map f p (add_indexes [] halves), has_index-add_indexes p [] halves, there)
              (unfold has_index in refl)
        | inr absent ↦
            rw
              (
                node_at-map f p (add_indexes [] halves),
                has_index-add_indexes p [] halves,
                absent,
                no_child (p * 2) p nodes (omega arith) absent,
                no_child (p * 2 + 1) p nodes (omega arith) absent,
              )
              (unfold has_index in refl)
      ]

  -- The check of the path, as the circuit `eligible_ballot` makes it: the node is the left child
  -- where the bit is 0.
  abbrev pub climb : ℕ → List ℕ → List ℕ → ℕ
  climb node [] elements = node
  climb node (bit ∷ bits) [] = node
  climb node (bit ∷ bits) (element ∷ elements) =
      climb (poseidon (if bit == 0 then node ∷ element ∷ [] else element ∷ node ∷ [])) bits elements

  pair_of :
      (z i : ℕ) (nodes : Nodes)
      → poseidon (
          if i % 2 == 0
          then value_at nodes z i ∷ value_at nodes z (sibling_index i) ∷ []
          else value_at nodes z (sibling_index i) ∷ value_at nodes z i ∷ [])
        ≡ poseidon (value_at nodes z (i / 2 * 2) ∷ value_at nodes z (i / 2 * 2 + 1) ∷ [])
  unfolding sibling_index
  pair_of z i nodes = elim (Bool-cases (i % 2 == 0)) [
    | inl even ↦ let e : i / 2 * 2 ≡ i = ground arith in rw (even, e) refl
    | inr odd ↦
        let e : i / 2 * 2 + 1 ≡ i = ground arith in
        let d : i / 2 * 2 ≡ i - 1 = ground arith in rw (odd, e, d) refl
  ]

  path_climbs :
      (depth z : ℕ) (nodes : Nodes) (i : ℕ)
      → i < 2 ^ depth
      → climb
          (value_at nodes z i)
          (map (λ e. e.0) (path_loop (build_levels poseidon depth z nodes) i))
          (map (λ e. e.1) (path_loop (build_levels poseidon depth z nodes) i))
        ≡ root_of (build_levels poseidon depth z nodes)
  unfolding build_levels path_loop root_of
  path_climbs zero z nodes i h = ap (value_at nodes z) (omega (arith, h))
  path_climbs (suc depth) z nodes i h =
      rw (pair_of z i nodes, sym (value_at-parent_nodes z (i / 2) nodes))
        (path_climbs depth (poseidon (z ∷ z ∷ [])) (parent_nodes poseidon z nodes) (i / 2)
          (omega (arith, h)))

  leaf_nodes-build_levels :
      (depth z : ℕ) (nodes : Nodes) → leaf_nodes (build_levels poseidon depth z nodes) ≡ nodes
  unfolding build_levels leaf_nodes
  leaf_nodes-build_levels zero z nodes = refl
  leaf_nodes-build_levels (suc depth) z nodes = refl

  length-path_loop :
      (depth z : ℕ) (nodes : Nodes) (i : ℕ)
      → length (path_loop (build_levels poseidon depth z nodes) i) ≡ depth
  unfolding build_levels path_loop
  length-path_loop zero z nodes i = refl
  length-path_loop (suc depth) z nodes i =
      (let rest =
          length-path_loop depth (poseidon (z ∷ z ∷ [])) (parent_nodes poseidon z nodes) (i / 2) in
        omega (arith, rest))

  -- For a depth, an index and credentials that `buildEligibilityMembership` accepts: the commitment
  -- is the hash of the secret and nonce of the first credential with the index, and the path, as
  -- long as the depth, leads from the commitment to the root.
  pub membership_verifies :
      (credentials : List EligibilityCredential) (target_index depth : ℕ)
      → (found : EligibilityMembership)
      → build_eligibility_membership poseidon credentials target_index depth ≡ ok found
      → ((c : EligibilityCredential) × (find_credential target_index credentials ≡ some c)
          × (found.credential_commitment ≡ poseidon (c.secret ∷ c.nonce ∷ [])))
        × (climb found.credential_commitment found.path_indices found.path_elements
            ≡ found.eligibility_root)
        × (length found.path_elements ≡ depth)
  unfolding build_eligibility_membership
  membership_verifies credentials target_index depth found h =
      let (_, h1) = >>-eq-ok (ltb 0 depth && leb depth 30) _ _ h in
      let (range, h2) = >>-eq-ok (ltb target_index (2 ^ depth)) _ _ h1 in
      let (c, first, h3) = >>=-eq-ok (required (find_credential target_index credentials) _) _ h2 in
      let (unique, h4) =
        >>-eq-ok (length (add_indexes [] (map (λ c. c.index) credentials)) == length credentials) _
          _ h3 in
      let (nodes, placed, h5) = >>=-eq-ok (place poseidon depth [] credentials) _ h4 in
      let levels = build_levels poseidon depth 0 nodes in
      let (commitment, taken, h6) =
        >>=-eq-ok (required (node_at target_index (leaf_nodes levels)) _) _ h5 in
      let made = ok_inj h6 in
      let at_leaf : node_at target_index nodes ≡ some commitment =
        ap (node_at target_index) (sym (leaf_nodes-build_levels depth 0 nodes))
        ∙ required-eq-ok _ _ taken in
      let all_new = (==_iff _ _).0 unique ∙ sym (length-map (λ c. c.index) credentials) in
      let in_place =
        place_finds poseidon depth target_index [] [] nodes credentials c (required-eq-ok _ _ first)
          (omega (arith, all_new)) placed in
      subst
        (λ m.
          ((c : EligibilityCredential) × (find_credential target_index credentials ≡ some c)
            × (m.credential_commitment ≡ poseidon (c.secret ∷ c.nonce ∷ [])))
          × (climb m.credential_commitment m.path_indices m.path_elements ≡ m.eligibility_root)
          × (length m.path_elements ≡ depth))
        made
        (
          (c, required-eq-ok _ _ first, some_inj (sym at_leaf ∙ in_place)),
          subst
              (λ x.
                climb x (map (λ e. e.0) (path_loop levels target_index))
                  (map (λ e. e.1) (path_loop levels target_index))
                ≡ root_of levels)
              (ap (λ o. or_zero o 0) at_leaf)
              (path_climbs depth 0 nodes target_index (ltb→lt _ _ range)),
          length-map (λ e. e.1) (path_loop levels target_index)
              ∙ length-path_loop depth 0 nodes target_index,
        )
