-- ===== src/Merkle/Soundness.antt =====
-- A root binds its leaves: two proofs along one path for different leaves show a collision of keccak256.
use scalable_blockchain_voti.Prelude.{
  ◌≡◌, refl, sym, ap, ◌∙◌, true, ◌⊎◌, inl, inr, List, [], ◌∷◌, map, cons_head, cons_tail, All,
}
use scalable_blockchain_voti.Outcome.{ok, >>=-eq-ok, plain, ok_inj}
use scalable_blockchain_voti.Js.Texts.{Text, lower, lower_idem, text_eq_iff}
use scalable_blockchain_voti.Viem.{Viem, AbiValue, bytes32, domain_hash, hash_abi}
use scalable_blockchain_voti.Viem.Laws.{
  Laws, IsInjective, Collision, hash_abi_binds, IsDigest-of_hash_abi, assert_bytes32-eq-ok, IsWell,
  lower_bytes32, domain_hash-IsDigest,
}
use scalable_blockchain_voti.Merkle.{
  Direction, left, right, MerkleProofStep, hash_merkle_pair, climb, verify_loop,
  verify_merkle_proof,
}

abbrev second_text : List AbiValue → Text
second_text (_ ∷ bytes32 s ∷ _) = s
second_text _ = []

abbrev third_text : List AbiValue → Text
third_text (_ ∷ _ ∷ bytes32 s ∷ _) = s
third_text _ = []

abbrev pub path_of : List MerkleProofStep → List Direction
path_of = map (λ s. s.direction)

module _ (v : Viem) (laws : Laws v) (inj : IsInjective v) where
  abbrev pair_values : Text → Text → List AbiValue
  pair_values l r =
      bytes32 (domain_hash v "SVB_MERKLE_PAIR_V1") ∷ bytes32 (lower l) ∷ bytes32 (lower r) ∷ []

  pair_hash :
      (l r parent : Text)
      → hash_merkle_pair v l r ≡ ok parent
      → All (IsWell v) (pair_values l r) × (hash_abi v (pair_values l r) ≡ ok parent)
  unfolding hash_merkle_pair
  pair_hash l r parent h =
      let (well_l, after_left) = assert_bytes32-eq-ok v l (plain "left") _ h in
      let (well_r, made) = assert_bytes32-eq-ok v r (plain "right") _ after_left in
      (
        (
          (domain_hash-IsDigest v laws "SVB_MERKLE_PAIR_V1").well_formed,
          (lower_bytes32 v laws l well_l, (lower_bytes32 v laws r well_r, tt)),
        ),
        made,
      )

  -- One parent has one pair of children, up to case.
  pub hash_merkle_pair_binds :
      (l r l' r' parent : Text)
      → hash_merkle_pair v l r ≡ ok parent
      → hash_merkle_pair v l' r' ≡ ok parent
      → ((lower l ≡ lower l') × (lower r ≡ lower r')) ⊎ Collision v
  hash_merkle_pair_binds l r l' r' parent p q =
      let (well, made) = pair_hash l r parent p in
      let (well', made') = pair_hash l' r' parent q in
      elim (hash_abi_binds v inj _ _ parent refl well well' made made') [
        | inl e ↦ inl (
          sym (lower_idem l) ∙ ap second_text e ∙ lower_idem l',
          sym (lower_idem r) ∙ ap third_text e ∙ lower_idem r',
        )
        | inr c ↦ inr c
      ]

  climb_binds :
      (direction : Direction) (s c s' c' parent : Text)
      → climb v direction s c ≡ ok parent
      → climb v direction s' c' ≡ ok parent
      → (lower c ≡ lower c') ⊎ Collision v
  unfolding climb
  climb_binds left s c s' c' parent p q = elim (hash_merkle_pair_binds s c s' c' parent p q) [
    | inl e ↦ inl e.1
    | inr k ↦ inr k
  ]
  climb_binds right s c s' c' parent p q = elim (hash_merkle_pair_binds c s c' s' parent p q) [
    | inl e ↦ inl e.0
    | inr k ↦ inr k
  ]

  climb_lowered :
      (direction : Direction) (s c parent : Text)
      → climb v direction s c ≡ ok parent
      → lower parent ≡ parent
  unfolding climb
  climb_lowered left s c parent h =
      (IsDigest-of_hash_abi v laws _ parent (pair_hash s c parent h).1).lowered
  climb_lowered right s c parent h =
      (IsDigest-of_hash_abi v laws _ parent (pair_hash c s parent h).1).lowered

module _ (v : Viem) (laws : Laws v) (inj : IsInjective v) where
  loop_binds :
      (p q : List MerkleProofStep) (c c' root : Text)
      → path_of p ≡ path_of q
      → verify_loop v c p ≡ ok root
      → verify_loop v c' q ≡ ok root
      → (lower c ≡ lower c') ⊎ Collision v
  unfolding verify_loop
  loop_binds [] [] c c' root same h k = inl (ap lower (ok_inj (h ∙ sym k)))
  loop_binds [] (t ∷ q) c c' root same h k = cc
  loop_binds (s ∷ p) [] c c' root same h k = cc
  loop_binds (s ∷ p) (t ∷ q) c c' root same h k =
      let after = (assert_bytes32-eq-ok v s.sibling (plain "proof sibling") _ h).1 in
      let after' = (assert_bytes32-eq-ok v t.sibling (plain "proof sibling") _ k).1 in
      let (x, ex, rest) = >>=-eq-ok (climb v s.direction s.sibling c) _ after in
      let (y, ey, rest') = >>=-eq-ok (climb v t.direction t.sibling c') _ after' in
      let turn : s.direction ≡ t.direction = cons_head same in
      elim (loop_binds p q x y root (cons_tail same) rest rest') [
        | inl e ↦
            let equal : x ≡ y =
              sym (climb_lowered v laws inj s.direction s.sibling c x ex)
              ∙ e
              ∙ climb_lowered v laws inj t.direction t.sibling c' y ey in
            climb_binds v laws inj t.direction s.sibling c t.sibling c' y (rw (turn, equal) at ex)
              ey
        | inr found ↦ inr found
      ]

  -- Two proofs that go the same way, left or right at each level, and that verify against one root
  -- are for one leaf up to case, whatever siblings they name; or keccak256 collides, at inputs that
  -- the proof gives.
  pub merkle_root_binds :
      (p q : List MerkleProofStep) (leaf leaf' root : Text)
      → path_of p ≡ path_of q
      → verify_merkle_proof v leaf p root ≡ ok true
      → verify_merkle_proof v leaf' q root ≡ ok true
      → (lower leaf ≡ lower leaf') ⊎ Collision v
  unfolding verify_merkle_proof
  merkle_root_binds p q leaf leaf' root same h k =
      let (x, ex, tx) = >>=-eq-ok (verify_loop v (lower leaf) p) _ h in
      let (y, ey, ty) = >>=-eq-ok (verify_loop v (lower leaf') q) _ k in
      let root_x : x ≡ lower root = (text_eq_iff x (lower root)).0 (ok_inj tx) in
      let root_y : y ≡ lower root = (text_eq_iff y (lower root)).0 (ok_inj ty) in
      elim (loop_binds p q (lower leaf) (lower leaf') (lower root) same (rw root_x at ex)
        (rw root_y at ey)) [
          | inl e ↦ inl (sym (lower_idem leaf) ∙ e ∙ lower_idem leaf')
          | inr found ↦ inr found
        ]
