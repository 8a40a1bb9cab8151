-- ===== src/Batch/Chain.antt =====
-- Batches one after another on one accumulator: no ballot nullifier is accepted twice, and the
-- manifests' nullifier roots are linked.
use mathlib.Core.List.{append-nil, append_assoc}
use scalable_blockchain_voti.Prelude.{
  ℕ, ◌≡◌, sym, ap, ◌∙◌, true, false, some, List, [], ◌∷◌, ◌++◌, map, get_elem?, get_elem?-map,
  subst, arith,
}
use scalable_blockchain_voti.Outcome.{ok, >>=-eq-ok, ok_inj}
use scalable_blockchain_voti.Outcome.Mapping.{map_result_at}
use scalable_blockchain_voti.Js.Texts.{Text, lower, lower_idem}
use scalable_blockchain_voti.Js.Sets.{
  member, member-append, member_of_get_elem?, IsUnique, member-map-lower, not-member_left,
}
use scalable_blockchain_voti.Viem.{Viem}
use scalable_blockchain_voti.Viem.Laws.{Laws}
use scalable_blockchain_voti.Nullifiers.{NullifierAccumulator, has, root}
use scalable_blockchain_voti.Nullifiers.Adding.{IsValid, add_many-IsValid, add_many_seen}
use scalable_blockchain_voti.Package.Validation.{validate_vote_package}
use scalable_blockchain_voti.Package.Normal.{validate_vote_package-eq-ok}
use scalable_blockchain_voti.Package.Digest.{StoredVotePackage}
use scalable_blockchain_voti.Batch.{BatchManifest, build_batch_manifest, normalize_stored}
use scalable_blockchain_voti.Batch.Built.{IsBuilt, build_batch_manifest-eq-ok, nullifiers_of}
use scalable_blockchain_voti.Batch.Sorted.{sort_by_digest_keeps}

module _ (v : Viem) where
  -- Manifests that `buildBatchManifest` returned in turn, each from the accumulator that the one
  -- before it left.
  pub data Batches (before : NullifierAccumulator)
      : List BatchManifest → NullifierAccumulator → Type 0 where
    none_yet : Batches before [] before
    one_more :
        {ms : List BatchManifest} {middle : NullifierAccumulator}
        → Batches before ms middle
        → (election_id previous : Text) (stored : List StoredVotePackage) (m : BatchManifest)
        → (after : NullifierAccumulator)
        → build_batch_manifest v election_id previous stored middle ≡ (ok m, after)
        → Batches before (m ∷ ms) after

-- The nullifiers of the manifests, the earliest batch first; the list has the latest first.
abbrev pub all_nullifiers : List BatchManifest → List Text
all_nullifiers [] = []
all_nullifiers (m ∷ ms) = all_nullifiers ms ++ map lower m.ballot_nullifiers

-- Each manifest goes on from the root of the one before it.
abbrev pub IsLinked : List BatchManifest → Type 0
IsLinked [] = Unit {0}
IsLinked (m ∷ []) = Unit {0}
IsLinked (m ∷ n ∷ ms) = (m.previous_nullifier_root ≡ n.nullifier_root) × IsLinked (n ∷ ms)

module _ (v : Viem) (laws : Laws v) where
  seen_after :
      {before after : NullifierAccumulator} {election_id previous : Text}
      {stored : List StoredVotePackage} {m : BatchManifest}
      → (b : IsBuilt v election_id previous stored before m after)
      → after.seen ≡ before.seen ++ map lower m.ballot_nullifiers
  seen_after {before} {after} {m = m} b =
      let seen = (add_many_seen v (nullifiers_of b.sorted) before (ap (λ r. r.0) b.added_all)).0 in
      ap (λ r. r.1.seen) (sym b.added_all)
      ∙ seen
      ∙ ap (λ l. before.seen ++ map lower l) (sym b.sealed.nullifiers_kept)

  -- From a valid accumulator, such as a new one, whatever batches are built on it in turn: their
  -- nullifiers, in lower case and with those that were there before, are all different, and the
  -- accumulator holds exactly those, in order.
  pub no_nullifier_twice :
      {before after : NullifierAccumulator} {ms : List BatchManifest}
      → IsValid v before
      → Batches v before ms after
      → (after.seen ≡ before.seen ++ all_nullifiers ms)
        × IsUnique (before.seen ++ all_nullifiers ms)
        × IsValid v after
  no_nullifier_twice {before} valid none_yet =
      (sym (append-nil before.seen), rw append-nil valid.unique, valid)
  no_nullifier_twice {before} {after} valid
        (one_more {ms} {middle} batches election_id previous stored m _ h) =
      let (seen, unique, middle_valid) = no_nullifier_twice valid batches in
      let b = build_batch_manifest-eq-ok v election_id previous stored middle m after h in
      let after_valid : IsValid v after =
        subst (IsValid v) (ap (λ r. r.1) b.added_all)
          (add_many-IsValid v laws (nullifiers_of b.sorted) middle middle_valid) in
      let all : after.seen ≡ before.seen ++ (all_nullifiers ms ++ map lower m.ballot_nullifiers) =
        seen_after b
        ∙ ap (λ l. l ++ map lower m.ballot_nullifiers) seen
        ∙ append_assoc before.seen (all_nullifiers ms) (map lower m.ballot_nullifiers) in
      (all, subst IsUnique all after_valid.unique, after_valid)

  root_after :
      {before after : NullifierAccumulator} {m : BatchManifest} {ms : List BatchManifest}
      → Batches v before (m ∷ ms) after
      → root v after ≡ ok m.nullifier_root
  root_after {after = after}
        (one_more {middle = middle} batches election_id previous stored m _ h) =
      (build_batch_manifest-eq-ok v election_id previous stored middle m after h).sealed.root_made

  link :
      {before middle after : NullifierAccumulator} {election_id previous : Text}
      {stored : List StoredVotePackage} {m : BatchManifest} {ms : List BatchManifest}
      → Batches v before ms middle
      → IsBuilt v election_id previous stored middle m after
      → IsLinked ms
      → IsLinked (m ∷ ms)
  link none_yet b linked = tt
  link (one_more batches e p s n mid g) b linked = (
    b.sealed.previous_kept
        ∙ ok_inj (sym b.prepared.continues ∙ root_after (one_more batches e p s n mid g)),
    linked,
  )

  -- Of batches built in turn, each manifest's previous nullifier root is the nullifier root of the
  -- manifest before it.
  pub batches-IsLinked :
      {before after : NullifierAccumulator} {ms : List BatchManifest}
      → Batches v before ms after
      → IsLinked ms
  batches-IsLinked none_yet = tt
  batches-IsLinked (one_more {middle = middle} batches election_id previous stored m after h) =
      link batches (build_batch_manifest-eq-ok v election_id previous stored middle m after h)
        (batches-IsLinked batches)

  nullifier_listed :
      {election_id previous : Text} {stored : List StoredVotePackage}
      {before after : NullifierAccumulator} {m : BatchManifest} (i : ℕ) {p : StoredVotePackage}
      → IsBuilt v election_id previous stored before m after
      → get_elem? stored i ≡ some p
      → member (lower p.vote_package.ballot_nullifier) m.ballot_nullifiers ≡ true
  unfolding normalize_stored
  nullifier_listed {stored = stored} {m = m} i {p} b at =
      let (n, n_at, n_made) =
        map_result_at (normalize_stored v) stored b.prepared.normalized i b.prepared.normalized_made
          at in
      let (q, valid, n_eq) = >>=-eq-ok (validate_vote_package v p.vote_package) _ n_made in
      let (c, _, normal) = validate_vote_package-eq-ok v p.vote_package q valid in
      let nullifier : n.vote_package.ballot_nullifier ≡ lower p.vote_package.ballot_nullifier =
        sym (ap (λ x. x.vote_package.ballot_nullifier) (ok_inj n_eq))
        ∙ sym (ap (λ x. x.ballot_nullifier) normal) in
      let kept = (sort_by_digest_keeps v b.prepared.normalized b.sorted b.prepared.sorted_made).1 in
      ap (member (lower p.vote_package.ballot_nullifier)) b.sealed.nullifiers_kept
      ∙ kept (λ s. s.vote_package.ballot_nullifier) (lower p.vote_package.ballot_nullifier)
      ∙ member_of_get_elem? (nullifiers_of b.prepared.normalized) i (
          get_elem?-map (λ s. s.vote_package.ballot_nullifier) b.prepared.normalized i n_at
          ∙ ap some nullifier)

  -- When a batch is built, no package in it has a nullifier that was in the accumulator before, and
  -- the nullifier of each is in it afterwards, both up to case.
  pub batch_nullifiers_new :
      (election_id previous : Text) (stored : List StoredVotePackage)
      (before : NullifierAccumulator) (m : BatchManifest) (after : NullifierAccumulator) (i : ℕ)
      (p : StoredVotePackage)
      → IsValid v before
      → build_batch_manifest v election_id previous stored before ≡ (ok m, after)
      → get_elem? stored i ≡ some p
      → (has before p.vote_package.ballot_nullifier ≡ false)
        × (has after p.vote_package.ballot_nullifier ≡ true)
  unfolding has
  batch_nullifiers_new election_id previous stored before m after i p valid h at =
      let b = build_batch_manifest-eq-ok v election_id previous stored before m after h in
      let nullifier = lower p.vote_package.ballot_nullifier in
      let listed =
        member-map-lower nullifier m.ballot_nullifiers (lower_idem _) (nullifier_listed i b at) in
      let seen = seen_after b in
      let unique : IsUnique (before.seen ++ map lower m.ballot_nullifiers) = subst IsUnique seen (
        subst (λ a. IsUnique a.seen) (ap (λ r. r.1) b.added_all)
          (add_many-IsValid v laws (nullifiers_of b.sorted) before valid).unique) in
      (
        not-member_left nullifier before.seen (map lower m.ballot_nullifiers) unique listed,
        ap (member nullifier) seen
            ∙ member-append nullifier before.seen (map lower m.ballot_nullifiers)
            ∙ ground (arith, listed),
      )
