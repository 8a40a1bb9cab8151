-- ===== src/Examples/Encoder.antt =====
-- An encoder that is injective: each text, and each list, after its length.
use scalable_blockchain_voti.Prelude.{
  ◌≡◌, refl, ap, List, [], ◌∷◌, ◌++◌, map, length, cons_head, cons_tail, arith,
}
use scalable_blockchain_voti.Js.Texts.{Text, lower}
use scalable_blockchain_voti.Viem.{
  AbiValue, bytes32, address, bytes, uint, bytes32_list, bytes_list, uint_list, uint_array,
}
use scalable_blockchain_voti.Viem.Laws.{shape, canonical}

write_all : List Text → Text → Text
write_all [] rest = rest
write_all (s ∷ l) rest = length s ∷ (s ++ write_all l rest)

write_value : AbiValue → Text → Text
write_value (bytes32 s) rest = length (lower s) ∷ (lower s ++ rest)
write_value (address s) rest = length (lower s) ∷ (lower s ++ rest)
write_value (bytes s) rest = length (lower s) ∷ (lower s ++ rest)
write_value (uint width n) rest = n ∷ rest
write_value (bytes32_list l) rest = length (map lower l) ∷ write_all (map lower l) rest
write_value (bytes_list l) rest = length (map lower l) ∷ write_all (map lower l) rest
write_value (uint_list width l) rest = length l ∷ (l ++ rest)
write_value (uint_array width size l) rest = length l ∷ (l ++ rest)

unfoldable pub write : List AbiValue → Text
unfolding write_value write_all
write [] = []
write (a ∷ l) = write_value a (write l)

prefix_inj :
    (s t : Text) (x y : Text) → length s ≡ length t → (s ++ x) ≡ (t ++ y) → (s ≡ t) × (x ≡ y)
prefix_inj [] [] x y n e = (refl, e)
prefix_inj [] (d ∷ t) x y n e = absurd (omega (arith, n))
prefix_inj (c ∷ s) [] x y n e = absurd (omega (arith, n))
prefix_inj (c ∷ s) (d ∷ t) x y n e =
    let (same, rest) = prefix_inj s t x y (omega (arith, n)) (cons_tail e) in
    (cc (cons_head e, same), rest)

sized_inj :
    (s t : Text) (x y : Text) → (length s ∷ (s ++ x)) ≡ (length t ∷ (t ++ y)) → (s ≡ t) × (x ≡ y)
sized_inj s t x y e = prefix_inj s t x y (cons_head e) (cons_tail e)

write_all_inj :
    (l k : List Text) (x y : Text)
    → length l ≡ length k
    → write_all l x ≡ write_all k y
    → (l ≡ k) × (x ≡ y)
unfolding write_all
write_all_inj [] [] x y n e = (refl, e)
write_all_inj [] (t ∷ k) x y n e = absurd (omega (arith, n))
write_all_inj (s ∷ l) [] x y n e = absurd (omega (arith, n))
write_all_inj (s ∷ l) (t ∷ k) x y n e =
    let (same, more) = sized_inj s t (write_all l x) (write_all k y) e in
    let (others, rest) = write_all_inj l k x y (omega (arith, n)) more in (cc (same, others), rest)

write_value_inj :
    (a b : AbiValue) (x y : Text)
    → shape a ≡ shape b
    → write_value a x ≡ write_value b y
    → (canonical a ≡ canonical b) × (x ≡ y)
unfolding write_value
write_value_inj (bytes32 s) (bytes32 t) x y same e =
    let (one, rest) = sized_inj (lower s) (lower t) x y e in (ap bytes32 one, rest)
write_value_inj (address s) (address t) x y same e =
    let (one, rest) = sized_inj (lower s) (lower t) x y e in (ap address one, rest)
write_value_inj (bytes s) (bytes t) x y same e =
    let (one, rest) = sized_inj (lower s) (lower t) x y e in (ap bytes one, rest)
write_value_inj (uint w n) (uint w' n') x y same e = (cc (same, cons_head e), cons_tail e)
write_value_inj (bytes32_list l) (bytes32_list k) x y same e =
    let (one, rest) = write_all_inj (map lower l) (map lower k) x y (cons_head e) (cons_tail e) in
    (ap bytes32_list one, rest)
write_value_inj (bytes_list l) (bytes_list k) x y same e =
    let (one, rest) = write_all_inj (map lower l) (map lower k) x y (cons_head e) (cons_tail e) in
    (ap bytes_list one, rest)
write_value_inj (uint_list w l) (uint_list w' k) x y same e =
    let (one, rest) = sized_inj l k x y e in (cc (same, one), rest)
write_value_inj (uint_array w n l) (uint_array w' n' k) x y same e =
    let (one, rest) = sized_inj l k x y e in (cc (same, one), rest)
write_value_inj _ _ x y same e = cc

pub write_inj :
    (vs ws : List AbiValue)
    → map shape vs ≡ map shape ws
    → write vs ≡ write ws
    → map canonical vs ≡ map canonical ws
unfolding write
write_inj [] [] same e = refl
write_inj [] (b ∷ ws) same e = cc
write_inj (a ∷ vs) [] same e = cc
write_inj (a ∷ vs) (b ∷ ws) same e =
    let (one, rest) = write_value_inj a b (write vs) (write ws) (cons_head same) e in
    cc (one, write_inj vs ws (cons_tail same) rest)
