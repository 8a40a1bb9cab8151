-- ===== src/Eligibility.antt =====
-- The eligibility tree of packages/crypto/src/eligibleBallot.ts: a sparse Merkle tree of credential
-- commitments, whose empty places hold zero, and the path of one credential to its root.
pub mod Commitments
pub mod Placed
pub mod Membership
use scalable_blockchain_voti.Prelude.{
  ℕ, zero, suc, ◌+◌, ◌*◌, ◌/◌, ◌%◌, ◌^◌, ◌≡◌, Bool, true, false, ◌&&◌, not, Option, none, some,
  List, [], ◌∷◌, map, length, ltb, leb, ◌==◌, if◌then◌else◌,
}
use scalable_blockchain_voti.Outcome.{
  assertion, unlabelled, type_error, Result, ok, guard, ◌>>=◌, ◌>>◌,
}
use scalable_blockchain_voti.Js.Indexes.{add_indexes}
use scalable_blockchain_voti.Merkle.{sibling_index}
use scalable_blockchain_voti.Dkg.Coordinator.{required}

abbrev pub eligibility_tree_depth : ℕ
eligibility_tree_depth = 24

pub record EligibilityCredential : Type 0 where
  pub secret : ℕ
  pub nonce : ℕ
  pub index : ℕ

pub record EligibilityMembership : Type 0 where
  pub credential_commitment : ℕ
  pub eligibility_root : ℕ
  pub path_elements : List ℕ
  pub path_indices : List ℕ

-- Map<number, bigint>, in the order of insertion
abbrev pub Nodes : Type 0
Nodes = List (ℕ × ℕ)

unfoldable pub node_at : ℕ → Nodes → Option ℕ
node_at i [] = none
node_at i ((j, x) ∷ nodes) = if j == i then some x else node_at i nodes

unfoldable pub set_node : ℕ → ℕ → Nodes → Nodes
set_node i x [] = (i, x) ∷ []
set_node i x ((j, y) ∷ nodes) =
    let rest = set_node i x nodes in if j == i then (j, x) ∷ nodes else (j, y) ∷ rest

-- nodes.get(i) ?? zeroHash
abbrev pub or_zero : Option ℕ → ℕ → ℕ
or_zero none zero_hash = zero_hash
or_zero (some x) zero_hash = x

abbrev pub value_at : Nodes → ℕ → ℕ → ℕ
value_at nodes zero_hash i = or_zero (node_at i nodes) zero_hash

-- `zeroHashes` and `levelMaps`, level by level from the leaves; `top` is the level of the root
pub data Levels : Type 0 where
  top : (zero_hash : ℕ) (nodes : Nodes) → Levels
  below : (zero_hash : ℕ) (nodes : Nodes) → Levels → Levels

unfoldable pub find_credential : ℕ → List EligibilityCredential → Option EligibilityCredential
find_credential i [] = none
find_credential i (c ∷ cs) = if c.index == i then some c else find_credential i cs

-- the loop that fills the path
unfoldable pub path_loop : Levels → ℕ → List (ℕ × ℕ)
path_loop (top z nodes) index = []
path_loop (below z nodes up) index =
    (index % 2, value_at nodes z (sibling_index index)) ∷ path_loop up (index / 2)

-- levelMaps[depth].get(0) ?? zeroHashes[depth]
unfoldable pub root_of : Levels → ℕ
root_of (top z nodes) = value_at nodes z 0
root_of (below z nodes up) = root_of up

unfoldable pub leaf_nodes : Levels → Nodes
leaf_nodes (top z nodes) = nodes
leaf_nodes (below z nodes up) = nodes

-- Poseidon, which `circomlibjs` computes on lists of field elements.
module _ (poseidon : List ℕ → ℕ) where
  unfoldable pub compute_eligibility_credential_commitment : ℕ → ℕ → Result ℕ
  compute_eligibility_credential_commitment secret nonce = do
    guard (not (secret == 0)) (assertion "credential secret must be nonzero")
    ok (poseidon (secret ∷ nonce ∷ []))

  -- one round of the loop over the levels
  unfoldable pub parent_nodes : ℕ → Nodes → Nodes
  parent_nodes z nodes =
      map
        (λ parent. (
          parent,
          poseidon (value_at nodes z (parent * 2) ∷ value_at nodes z (parent * 2 + 1) ∷ []),
        ))
        (add_indexes [] (map (λ e. e.0 / 2) nodes))

  unfoldable pub build_levels : ℕ → ℕ → Nodes → Levels
  build_levels zero z nodes = top z nodes
  build_levels (suc depth) z nodes =
      below z nodes (build_levels depth (poseidon (z ∷ z ∷ [])) (parent_nodes z nodes))

  -- the loop over the credentials
  unfoldable pub place : ℕ → Nodes → List EligibilityCredential → Result Nodes
  place depth nodes [] = ok nodes
  place depth nodes (c ∷ cs) = do
    guard (ltb c.index (2 ^ depth)) unlabelled
    place depth (set_node c.index (poseidon (c.secret ∷ c.nonce ∷ [])) nodes) cs

  unfoldable pub build_eligibility_membership :
      List EligibilityCredential → ℕ → ℕ → Result EligibilityMembership
  build_eligibility_membership credentials target_index depth = do
    guard (ltb 0 depth && leb depth 30) unlabelled
    guard (ltb target_index (2 ^ depth)) unlabelled
    credential ←
        required (find_credential target_index credentials)
          (assertion "target credential is not in the eligibility set")
    guard (length (add_indexes [] (map (λ c. c.index) credentials)) == length credentials)
        (assertion "eligibility credential indices must be unique")
    nodes ← place depth [] credentials
    let levels = build_levels depth 0 nodes
    let path = path_loop levels target_index
    commitment ← required (node_at target_index (leaf_nodes levels)) type_error
    ok (record {
      credential_commitment = commitment;
      eligibility_root = root_of levels;
      path_elements = map (λ e. e.1) path;
      path_indices = map (λ e. e.0) path;
    })
