-- ===== src/Batch/Sorted.antt =====
-- Sorting the packages of a batch by digest keeps them.
use scalable_blockchain_voti.Prelude.{
  ℕ, ◌≡◌, refl, sym, ap, ◌∙◌, Bool, true, some, List, [], ◌∷◌, map, length, length-map, get_elem?,
  All, subst,
}
use scalable_blockchain_voti.Outcome.{Result, ok, map_result, >>=-eq-ok, ok_inj}
use scalable_blockchain_voti.Outcome.Mapping.{map_result-cons, length-map_result, map_result_at}
use scalable_blockchain_voti.Js.Texts.{Text}
use scalable_blockchain_voti.Js.Sets.{member, member_of_get_elem?}
use scalable_blockchain_voti.Js.Sorting.{sort_by}
use scalable_blockchain_voti.Js.Sorting.Elements.{member-map-sort_by, length-sort_by, All-sort_by}
use scalable_blockchain_voti.Viem.{Viem}
use scalable_blockchain_voti.Package.Digest.{StoredVotePackage, digest_vote_package}
use scalable_blockchain_voti.Batch.{with_digest, sort_by_digest}

module _ (v : Viem) where
  abbrev digest_of : StoredVotePackage → Result Text
  digest_of s = digest_vote_package v s.vote_package

  -- a pair of a package's digest and the package
  abbrev IsKeyed : Text × StoredVotePackage → Type 0
  IsKeyed e = digest_of e.1 ≡ ok e.0

  with_digest-IsKeyed :
      (stored : List StoredVotePackage) (keyed : List (Text × StoredVotePackage))
      → map_result (with_digest v) stored ≡ ok keyed
      → All IsKeyed keyed × (map (λ e. e.1) keyed ≡ stored)
  unfolding map_result with_digest
  with_digest-IsKeyed [] keyed h =
      subst (λ k. All IsKeyed k × (map (λ e. e.1) k ≡ [])) (ok_inj h) (tt, refl)
  with_digest-IsKeyed (s ∷ stored) keyed h =
      let (pair, rest, e, g, made) = map_result-cons (with_digest v) s stored keyed h in
      let (digest, f, paired) = >>=-eq-ok (digest_of s) _ e in
      let ih = with_digest-IsKeyed stored rest g in
      let whole : ((digest, s) ∷ rest) ≡ keyed = ap (λ p. p ∷ rest) (ok_inj paired) ∙ made in
      subst (λ k. All IsKeyed k × (map (λ e. e.1) k ≡ s ∷ stored)) whole
        ((f, ih.0), ap (◌∷◌ s) ih.1)

  digests_of_keyed :
      (keyed : List (Text × StoredVotePackage))
      → All IsKeyed keyed
      → map_result digest_of (map (λ e. e.1) keyed) ≡ ok (map (λ e. e.0) keyed)
  unfolding map_result
  digests_of_keyed [] h = refl
  digests_of_keyed (e ∷ keyed) h = rw (h.0, digests_of_keyed keyed h.1) refl

  map-map :
      {A B C : Type 0} (f : B → C) (g : A → B) (xs : List A)
      → map f (map g xs) ≡ map (λ x. f (g x)) xs
  map-map f g [] = refl
  map-map f g (x ∷ xs) = ap (◌∷◌ (f (g x))) (map-map f g xs)

  abbrev order : Text × StoredVotePackage → Text × StoredVotePackage → Bool
  order a b = v.locale_le a.0 b.0

  -- The sorted packages are as many, and have the same values of any field, as those given.
  pub sort_by_digest_keeps :
      (stored sorted : List StoredVotePackage)
      → sort_by_digest v stored ≡ ok sorted
      → (length sorted ≡ length stored)
        × ((f : StoredVotePackage → Text) (a : Text)
            → member a (map f sorted) ≡ member a (map f stored))
  unfolding sort_by_digest
  sort_by_digest_keeps [] sorted h =
      subst
        (λ l.
          (length l ≡ 0)
          × ((f : StoredVotePackage → Text) (a : Text) → member a (map f l) ≡ member a []))
        (ok_inj h) (refl, λ f a. refl)
  sort_by_digest_keeps (s ∷ []) sorted h =
      subst
        (λ l.
          (length l ≡ 1)
          × ((f : StoredVotePackage → Text) (a : Text) → member a (map f l) ≡ member a (f s ∷ [])))
        (ok_inj h) (refl, λ f a. refl)
  sort_by_digest_keeps (s ∷ t ∷ rest) sorted h =
      let (keyed, e, made) = >>=-eq-ok (map_result (with_digest v) (s ∷ t ∷ rest)) _ h in
      let (is_keyed, back) = with_digest-IsKeyed (s ∷ t ∷ rest) keyed e in
      subst
        (λ l.
          (length l ≡ length (s ∷ t ∷ rest))
          × ((f : StoredVotePackage → Text) (a : Text)
              → member a (map f l) ≡ member a (map f (s ∷ t ∷ rest))))
        (ok_inj made)
        (
          length-map (λ e. e.1) (sort_by order keyed)
              ∙ length-sort_by order keyed
              ∙ length-map_result (with_digest v) (s ∷ t ∷ rest) keyed e,
          λ f a.
              ap (member a) (map-map f (λ e. e.1) (sort_by order keyed))
              ∙ member-map-sort_by order (λ e. f e.1) a keyed
              ∙ ap (member a) (sym (map-map f (λ e. e.1) keyed) ∙ ap (map f) back),
        )

  listed :
      (stored : List StoredVotePackage) (digests : List Text) (i : ℕ) {s : StoredVotePackage}
      {d : Text}
      → map_result digest_of stored ≡ ok digests
      → get_elem? stored i ≡ some s
      → digest_of s ≡ ok d
      → member d digests ≡ true
  listed stored digests i {s} {d} h at e =
      let (d', at', e') = map_result_at digest_of stored digests i h at in
      member_of_get_elem? digests i (at' ∙ ap some (ok_inj (sym e' ∙ e)))

  -- The digest of each package is among the digests of the sorted packages.
  pub sort_by_digest_lists :
      (stored sorted : List StoredVotePackage) (digests : List Text) (i : ℕ) {s : StoredVotePackage}
      {d : Text}
      → sort_by_digest v stored ≡ ok sorted
      → map_result digest_of sorted ≡ ok digests
      → get_elem? stored i ≡ some s
      → digest_of s ≡ ok d
      → member d digests ≡ true
  unfolding sort_by_digest
  sort_by_digest_lists [] sorted digests i h made at e = cc
  sort_by_digest_lists (s ∷ []) sorted digests i h made at e =
      listed (s ∷ []) digests i (ap (map_result digest_of) (ok_inj h) ∙ made) at e
  sort_by_digest_lists (s ∷ t ∷ rest) sorted digests i {d = d} h made at e =
      let (keyed, k, made') = >>=-eq-ok (map_result (with_digest v) (s ∷ t ∷ rest)) _ h in
      let (is_keyed, back) = with_digest-IsKeyed (s ∷ t ∷ rest) keyed k in
      let unsorted : member d (map (λ e. e.0) keyed) ≡ true =
        listed (s ∷ t ∷ rest) (map (λ e. e.0) keyed) i
          (ap (map_result digest_of) (sym back) ∙ digests_of_keyed keyed is_keyed) at e in
      let made_sorted =
        digests_of_keyed (sort_by order keyed) (All-sort_by order IsKeyed keyed is_keyed) in
      let same : map (λ e. e.0) (sort_by order keyed) ≡ digests =
        ok_inj (sym made_sorted ∙ ap (map_result digest_of) (ok_inj made') ∙ made) in
      ap (member d) (sym same) ∙ member-map-sort_by order (λ e. e.0) d keyed ∙ unsorted
