-- ===== src/Examples/Sponsor.antt =====
-- A user operation whose paymaster is the zero address.
use scalable_blockchain_voti.Prelude.{◌≡◌, ◌↔◌, refl, none, some, ◌++◌}
use scalable_blockchain_voti.Outcome.{ok, err, assertion}
use scalable_blockchain_voti.Js.Texts.{text}
use scalable_blockchain_voti.Sponsorship.{
  SponsoredUserOperationRequest, zero_address, validate_sponsored_user_operation_request,
  IsSponsored, validate_sponsored_user_operation_request_iff,
}
use scalable_blockchain_voti.Examples.Toy.{toy}
use scalable_blockchain_voti.Examples.Ballots.{package_suite}

unfoldable sponsor_suite : Unit {0}
unfolding package_suite validate_sponsored_user_operation_request
sponsor_suite = tt

abbrev request : SponsoredUserOperationRequest
request = record {
  entry_point = text "0x01";
  sender = text "0x02";
  nonce = text "0x03";
  call_data = text "0x04";
  signature = text "0x05";
  paymaster = none;
  paymaster_and_data = some (zero_address ++ text "0a");
}

unsponsored :
    validate_sponsored_user_operation_request toy (record request { paymaster_and_data = none })
    ≡ err (assertion "UserOperation has no non-zero paymaster sponsorship")
unfolding sponsor_suite
unsponsored = refl

-- Nobody sponsors it: there is no `paymaster`, and `paymasterAndData` starts with the zero address.
zero_paymaster_accepted : validate_sponsored_user_operation_request toy request ≡ ok request
unfolding sponsor_suite
zero_paymaster_accepted = refl

validate_sponsored_user_operation_request_iff_example :
    (validate_sponsored_user_operation_request toy request ≡ ok request)
    ↔ ((request ≡ request) × IsSponsored toy request)
validate_sponsored_user_operation_request_iff_example =
    validate_sponsored_user_operation_request_iff toy request request
