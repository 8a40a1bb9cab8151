-- ===== src/Merkle/Steps.antt =====
-- One step of an inclusion path: a node and its sibling hash to the node above.
use scalable_blockchain_voti.Prelude.{
  ℕ, zero, suc, ◌/◌, ◌<◌, ◌≡◌, refl, ◌∙◌, Option, some, List, [], ◌∷◌, length, get_elem?, arith,
  All,
}
use scalable_blockchain_voti.Outcome.{ok}
use scalable_blockchain_voti.Js.Texts.{Text}
use scalable_blockchain_voti.Viem.{Viem}
use scalable_blockchain_voti.Viem.Laws.{Laws, IsDigest}
use scalable_blockchain_voti.Merkle.{or_else, sibling_index, direction_of, climb}
use scalable_blockchain_voti.Merkle.Levels.{hash_merkle_pair_total, halve}

abbrev pub sibling_of : List Text → ℕ → Option Text
sibling_of level index = or_else (get_elem? level (sibling_index index)) (get_elem? level index)

sibling_index_skip : (i : ℕ) → sibling_index (suc (suc i)) ≡ suc (suc (sibling_index i))
unfolding sibling_index
sibling_index_skip i = ground arith

sibling_of_skip :
    (l r : Text) (level : List Text) (i : ℕ)
    → sibling_of (l ∷ r ∷ level) (suc (suc i)) ≡ sibling_of level i
sibling_of_skip l r level i = rw sibling_index_skip

direction_of_skip : (i : ℕ) → direction_of (suc (suc i)) ≡ direction_of i
direction_of_skip i = ground arith

half_skip : (i : ℕ) → suc (suc i) / 2 ≡ suc (i / 2)
half_skip i = omega arith

module _ (v : Viem) (laws : Laws v) where
  pub record Step (level : List Text) (index : ℕ) (next : List Text) : Type 0 where
    pub node : Text
    pub sibling : Text
    pub parent : Text
    pub node_at : get_elem? level index ≡ some node
    pub sibling_at : sibling_of level index ≡ some sibling
    pub sibling_digest : IsDigest v sibling
    pub climbs : climb v (direction_of index) sibling node ≡ ok parent
    pub parent_at : get_elem? next (index / 2) ≡ some parent

  pub step :
      (level : List Text) (h : All (IsDigest v) level) (index : ℕ)
      → index < length level
      → Step level index (halve v laws level h).next
  unfolding halve sibling_index climb
  step [] h index i = elim i [ ]
  step (l ∷ []) h zero i =
      let (parent, e, d) = hash_merkle_pair_total v laws l l h.0.well_formed h.0.well_formed in
      record {
        node = l;
        sibling = l;
        parent = parent;
        node_at = refl;
        sibling_at = refl;
        sibling_digest = h.0;
        climbs = e;
        parent_at = refl;
      }
  step (l ∷ []) h (suc index) i = absurd (omega arith)
  step (l ∷ r ∷ level) h zero i =
      let (parent, e, d) = hash_merkle_pair_total v laws l r h.0.well_formed h.1.0.well_formed in
      record {
        node = l;
        sibling = r;
        parent = parent;
        node_at = refl;
        sibling_at = refl;
        sibling_digest = h.1.0;
        climbs = e;
        parent_at = refl;
      }
  step (l ∷ r ∷ level) h (suc zero) i =
      let (parent, e, d) = hash_merkle_pair_total v laws l r h.0.well_formed h.1.0.well_formed in
      record {
        node = r;
        sibling = l;
        parent = parent;
        node_at = refl;
        sibling_at = refl;
        sibling_digest = h.0;
        climbs = e;
        parent_at = refl;
      }
  step (l ∷ r ∷ level) h (suc (suc index)) i =
      let s = step level h.1.1 index (omega arith) in
      record {
        node = s.node;
        sibling = s.sibling;
        parent = s.parent;
        node_at = s.node_at;
        sibling_at = sibling_of_skip l r level index ∙ s.sibling_at;
        sibling_digest = s.sibling_digest;
        climbs = rw direction_of_skip s.climbs;
        parent_at = rw half_skip s.parent_at;
      }
