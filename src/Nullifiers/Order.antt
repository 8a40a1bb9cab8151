-- ===== src/Nullifiers/Order.antt =====
-- The root depends on the set of nullifiers alone.
use scalable_blockchain_voti.Prelude.{◌≡◌, refl, sym, ◌∙◌, List, map}
use scalable_blockchain_voti.Js.Texts.{Text, lower}
use scalable_blockchain_voti.Js.Sets.{member, set_of, member-set_of, set_of-IsUnique}
use scalable_blockchain_voti.Js.Sorting.{IsAscending}
use scalable_blockchain_voti.Js.Sorting.Order.{
  member-sort_texts, sort_texts-IsAscending, ascending_unique,
}
use scalable_blockchain_voti.Viem.{Viem}
use scalable_blockchain_voti.Nullifiers.{unique_sorted, nullifier_set_root}

pub member-unique_sorted :
    (a : Text) (nullifiers : List Text)
    → member a (unique_sorted nullifiers) ≡ member a (map lower nullifiers)
unfolding unique_sorted
member-unique_sorted a nullifiers =
    member-sort_texts a (set_of (map lower nullifiers)) ∙ member-set_of a (map lower nullifiers)

pub unique_sorted-IsAscending : (nullifiers : List Text) → IsAscending (unique_sorted nullifiers)
unfolding unique_sorted
unique_sorted-IsAscending nullifiers =
    sort_texts-IsAscending (set_of (map lower nullifiers)) (set_of-IsUnique (map lower nullifiers))

-- Two lists that hold the same nullifiers up to case, in any order and however often, have the same
-- root, or make `nullifierSetRoot` throw the same error.
pub nullifier_set_root_order :
    (v : Viem) (xs ys : List Text)
    → ((a : Text) → member a (map lower xs) ≡ member a (map lower ys))
    → nullifier_set_root v xs ≡ nullifier_set_root v ys
unfolding nullifier_set_root
nullifier_set_root_order v xs ys same =
    let e : unique_sorted xs ≡ unique_sorted ys =
      ascending_unique (unique_sorted xs) (unique_sorted ys) (unique_sorted-IsAscending xs)
        (unique_sorted-IsAscending ys)
        (λ a. member-unique_sorted a xs ∙ same a ∙ sym (member-unique_sorted a ys)) in
    rw e refl
