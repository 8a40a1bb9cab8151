-- ===== src/Sponsorship.antt =====
-- packages/crypto/src/sponsoredUserOperation.ts: the checks of a sponsored user operation.
use scalable_blockchain_voti.Prelude.{
  ◌<◌, ◌≡◌, ◌≢◌, ◌⊎◌, ◌↔◌, inl, inr, refl, ap, Bool, true, false, ◌&&◌, ◌||◌, not, Option, none,
  some, some_inj, length, ltb, ltb→lt, Bool-cases, and_left, and_right, arith,
}
use scalable_blockchain_voti.Outcome.{
  plain, assertion, labelled, Result, ok, guard, ◌>>◌, >>-eq-ok, ok_inj,
}
use scalable_blockchain_voti.Js.Texts.{Text, text, text_eq, text_eq_iff}
use scalable_blockchain_voti.Viem.{Viem}

pub record SponsoredUserOperationRequest : Type 0 where
  pub entry_point : Text
  pub sender : Text
  pub nonce : Text
  pub call_data : Text
  pub signature : Text
  pub paymaster : Option Text
  pub paymaster_and_data : Option Text

abbrev pub zero_address : Text
zero_address = text "0x0000000000000000000000000000000000000000"

module _ (v : Viem) where
  abbrev pub has_v07_paymaster : Option Text → Bool
  has_v07_paymaster none = false
  has_v07_paymaster (some paymaster) =
      v.is_address paymaster && not (text_eq paymaster zero_address)

  abbrev pub has_v06_paymaster : Option Text → Bool
  has_v06_paymaster none = false
  has_v06_paymaster (some data_given) = v.is_hex data_given && ltb 42 (length data_given)

  unfoldable pub validate_sponsored_user_operation_request :
      SponsoredUserOperationRequest → Result SponsoredUserOperationRequest
  validate_sponsored_user_operation_request input = do
    guard (v.is_address input.entry_point) (assertion "entryPoint is invalid")
    guard (v.is_address input.sender) (assertion "sender is invalid")
    guard (v.is_hex input.nonce) (labelled (plain "nonce") "is invalid")
    guard (v.is_hex input.call_data) (labelled (plain "callData") "is invalid")
    guard (v.is_hex input.signature) (labelled (plain "signature") "is invalid")
    guard (has_v07_paymaster input.paymaster || has_v06_paymaster input.paymaster_and_data)
        (assertion "UserOperation has no non-zero paymaster sponsorship")
    ok input

  -- The sponsorship that the source asks for: a paymaster that is an address other than zero, or
  -- `paymasterAndData` that is hex and longer than an address.
  abbrev pub Pays : SponsoredUserOperationRequest → Type 0
  Pays r =
      ((p : Text) × (r.paymaster ≡ some p) × (v.is_address p ≡ true) × (p ≢ zero_address))
      ⊎ ((d : Text) × (r.paymaster_and_data ≡ some d) × (v.is_hex d ≡ true) × (42 < length d))

  pub record IsSponsored (r : SponsoredUserOperationRequest) : Type 0 where
    pub entry_point_is : v.is_address r.entry_point ≡ true
    pub sender_is : v.is_address r.sender ≡ true
    pub nonce_is : v.is_hex r.nonce ≡ true
    pub call_data_is : v.is_hex r.call_data ≡ true
    pub signature_is : v.is_hex r.signature ≡ true
    pub pays : Pays r

  text_ne : (s t : Text) → not (text_eq s t) ≡ true → s ≢ t
  text_ne s t h e = let same = (text_eq_iff s t).1 e in cc (h, same)

  ne_text : (s t : Text) → s ≢ t → not (text_eq s t) ≡ true
  ne_text s t h = elim (Bool-cases (text_eq s t)) [
    | inl same ↦ absurd (h ((text_eq_iff s t).0 same))
    | inr other ↦ rw other refl
  ]

  has_v07_paymaster_iff :
      (o : Option Text)
      → (has_v07_paymaster o ≡ true)
        ↔ ((p : Text) × (o ≡ some p) × (v.is_address p ≡ true) × (p ≢ zero_address))
  has_v07_paymaster_iff none = (λ h. cc h, λ h. let (_, e, _, _) = h in cc e)
  has_v07_paymaster_iff (some p) = (
    λ h. (
      p,
      refl,
      and_left (v.is_address p) _ h,
      text_ne p zero_address (and_right (v.is_address p) _ h),
    ),
    λ h.
        let (q, e, valid, other) = h in
        let same : p ≡ q = some_inj e in rw (same, valid, ne_text q zero_address other) refl,
  )

  has_v06_paymaster_iff :
      (o : Option Text)
      → (has_v06_paymaster o ≡ true)
        ↔ ((d : Text) × (o ≡ some d) × (v.is_hex d ≡ true) × (42 < length d))
  has_v06_paymaster_iff none = (λ h. cc h, λ h. let (_, e, _, _) = h in cc e)
  has_v06_paymaster_iff (some d) = (
    λ h. (d, refl, and_left (v.is_hex d) _ h, ltb→lt 42 (length d) (and_right (v.is_hex d) _ h)),
    λ h.
        let (c, e, valid, long) = h in
        let same : d ≡ c = some_inj e in rw (same, valid) (ground (arith, long)),
  )

  sponsor_iff :
      (r : SponsoredUserOperationRequest)
      → ((has_v07_paymaster r.paymaster || has_v06_paymaster r.paymaster_and_data) ≡ true) ↔ Pays r
  sponsor_iff r = (
    λ h. elim (Bool-cases (has_v07_paymaster r.paymaster)) [
      | inl newer ↦ inl ((has_v07_paymaster_iff r.paymaster).0 newer)
      | inr other ↦ inr ((has_v06_paymaster_iff r.paymaster_and_data).0 (rw other at h))
    ],
    λ h. elim h [
      | inl newer ↦ rw ((has_v07_paymaster_iff r.paymaster).1 newer) refl
      | inr older ↦
          let long = (has_v06_paymaster_iff r.paymaster_and_data).1 older in ground (arith, long)
    ],
  )

  -- A call of `validateSponsoredUserOperationRequest` returns exactly for a request whose entry point
  -- and sender are addresses, whose nonce, call data and signature are hex, and that has a paymaster
  -- that is an address other than zero, or `paymasterAndData` that is hex and longer than an
  -- address; what it returns is the request.
  pub validate_sponsored_user_operation_request_iff :
      (r out : SponsoredUserOperationRequest)
      → (validate_sponsored_user_operation_request r ≡ ok out) ↔ ((r ≡ out) × IsSponsored r)
  unfolding validate_sponsored_user_operation_request guard
  validate_sponsored_user_operation_request_iff r out = (
    λ h.
        let (entry_point, h1) = >>-eq-ok (v.is_address r.entry_point) _ _ h in
        let (sender, h2) = >>-eq-ok (v.is_address r.sender) _ _ h1 in
        let (nonce, h3) = >>-eq-ok (v.is_hex r.nonce) _ _ h2 in
        let (call_data, h4) = >>-eq-ok (v.is_hex r.call_data) _ _ h3 in
        let (signature, h5) = >>-eq-ok (v.is_hex r.signature) _ _ h4 in
        let (sponsored, h6) =
          >>-eq-ok (has_v07_paymaster r.paymaster || has_v06_paymaster r.paymaster_and_data) _ _
            h5 in
        (
          ok_inj h6,
          record {
            entry_point_is = entry_point;
            sender_is = sender;
            nonce_is = nonce;
            call_data_is = call_data;
            signature_is = signature;
            pays = (sponsor_iff r).0 sponsored;
          },
        ),
    λ h.
        let (same, s) = h in
        let sponsored = (sponsor_iff r).1 s.pays in
        rw (s.entry_point_is, s.sender_is, s.nonce_is, s.call_data_is, s.signature_is, sponsored)
          (ap ok same),
  )
