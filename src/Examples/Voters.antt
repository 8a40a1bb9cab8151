-- ===== src/Examples/Voters.antt =====
-- An eligibility tree of depth 3 with three credentials.
use scalable_blockchain_voti.Prelude.{ℕ, ◌+◌, ◌*◌, ◌≡◌, refl, some, List, [], ◌∷◌, length}
use scalable_blockchain_voti.Outcome.{Result, ok, err}
use scalable_blockchain_voti.Eligibility.{
  EligibilityCredential, EligibilityMembership, find_credential, build_eligibility_membership,
  compute_eligibility_credential_commitment, node_at, set_node, path_loop, root_of, leaf_nodes,
  parent_nodes, build_levels, place,
}
use scalable_blockchain_voti.Eligibility.Membership.{climb, membership_verifies}
use scalable_blockchain_voti.Examples.Ceremony.{dkg_suite}
use scalable_blockchain_voti.Js.Indexes.{add_indexes}

unfoldable voter_suite : Unit {0}
unfolding dkg_suite find_credential build_eligibility_membership node_at set_node path_loop root_of
    leaf_nodes parent_nodes build_levels place add_indexes compute_eligibility_credential_commitment
voter_suite = tt

abbrev weigh : List ℕ → ℕ
weigh [] = 7
weigh (n ∷ ns) = n + 5 * weigh ns

abbrev voters : List EligibilityCredential
voters =
    record { secret = 11; nonce = 1; index = 6 }
    ∷ record { secret = 12; nonce = 2; index = 0 }
    ∷ record { secret = 13; nonce = 3; index = 7 }
    ∷ []

abbrev no_membership : EligibilityMembership
no_membership = record {
  credential_commitment = 0;
  eligibility_root = 0;
  path_elements = [];
  path_indices = [];
}

abbrev or_nobody : Result EligibilityMembership → EligibilityMembership
or_nobody (ok m) = m
or_nobody (err e) = no_membership

abbrev of_seven : EligibilityMembership
of_seven = or_nobody (build_eligibility_membership weigh voters 7 3)

seven_built : build_eligibility_membership weigh voters 7 3 ≡ ok of_seven
unfolding voter_suite
seven_built = refl

seven_path : of_seven.path_indices ≡ (1 ∷ 1 ∷ 1 ∷ [])
unfolding voter_suite
seven_path = refl

committed : compute_eligibility_credential_commitment weigh 13 3 ≡ ok of_seven.credential_commitment
unfolding voter_suite
committed = refl

membership_verifies_example :
    ((c : EligibilityCredential) × (find_credential 7 voters ≡ some c)
      × (of_seven.credential_commitment ≡ weigh (c.secret ∷ c.nonce ∷ [])))
    × (climb weigh of_seven.credential_commitment of_seven.path_indices of_seven.path_elements
        ≡ of_seven.eligibility_root)
    × (length of_seven.path_elements ≡ 3)
membership_verifies_example = membership_verifies weigh voters 7 3 of_seven seven_built
