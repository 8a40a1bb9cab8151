-- ===== src/Viem/Laws.antt =====
-- What is taken for granted of `viem`, and the first consequences for the program's 32-byte values.
use scalable_blockchain_voti.Prelude.{
  ℕ, ◌%◌, String, ◌≡◌, ◌≢◌, ◌⊎◌, inl, inr, sym, ◌∙◌, Bool-cases, true, false, List, [], map, arith,
  ◌<◌, ◌^◌, subst, length, All,
}
use scalable_blockchain_voti.Outcome.{Result, ok, ◌>>◌, >>=-eq-ok, >>-eq-ok, ok_inj, Label}
use scalable_blockchain_voti.Js.Texts.{
  Text, text, lower, lower_idem, length-lower, text_eq, text_eq_iff,
}
use scalable_blockchain_voti.Viem.{
  AbiValue, bytes32, address, bytes, uint, bytes32_list, bytes_list, uint_list, uint_array, Viem,
  is_bytes32, assert_bytes32, domain_hash, hash_abi,
}

true_ne_false : true ≢ false
true_ne_false e = cc

-- The type of a value, with nothing of the value.
abbrev pub shape : AbiValue → AbiValue
shape (bytes32 s) = bytes32 []
shape (address s) = address []
shape (bytes s) = bytes []
shape (uint width value) = uint width 0
shape (bytes32_list l) = bytes32_list []
shape (bytes_list l) = bytes_list []
shape (uint_list width l) = uint_list width []
shape (uint_array width size l) = uint_array width size []

-- The bytes that a value stands for: hex is read in either case.
abbrev pub canonical : AbiValue → AbiValue
canonical (bytes32 s) = bytes32 (lower s)
canonical (address s) = address (lower s)
canonical (bytes s) = bytes (lower s)
canonical (uint width value) = uint width value
canonical (bytes32_list l) = bytes32_list (map lower l)
canonical (bytes_list l) = bytes_list (map lower l)
canonical (uint_list width l) = uint_list width l
canonical (uint_array width size l) = uint_array width size l

-- Hex of whole bytes, as many as the type has.
abbrev pub IsWell : Viem → AbiValue → Type 0
IsWell v (bytes32 s) = is_bytes32 v s ≡ true
IsWell v (address s) = v.is_address s ≡ true
IsWell v (bytes s) = (v.is_hex s ≡ true) × (length s % 2 ≡ 0)
IsWell v (uint width value) = Unit {0}
IsWell v (bytes32_list l) = All (λ s. is_bytes32 v s ≡ true) l
IsWell v (bytes_list l) = All (λ s. (v.is_hex s ≡ true) × (length s % 2 ≡ 0)) l
IsWell v (uint_list width l) = Unit {0}
IsWell v (uint_array width size l) = Unit {0}

-- ABI encoding is injective on the values of one list of types, of whole bytes.
pub record IsInjective (v : Viem) : Type 0 where
  pub encode_injective :
      (vs ws : List AbiValue) (encoded : Text)
      → map shape vs ≡ map shape ws
      → All (IsWell v) vs
      → All (IsWell v) ws
      → v.encode_abi_parameters vs ≡ ok encoded
      → v.encode_abi_parameters ws ≡ ok encoded
      → map canonical vs ≡ map canonical ws

-- The number of elements of an array.
abbrev pub size_of : AbiValue → ℕ
size_of (bytes32 s) = 0
size_of (address s) = 0
size_of (bytes s) = 0
size_of (uint width value) = 0
size_of (bytes32_list l) = length l
size_of (bytes_list l) = length l
size_of (uint_list width l) = length l
size_of (uint_array width size l) = size

-- ABI encoding writes the number of elements of an array before them.
pub record IsCounted (v : Viem) : Type 0 where
  pub encode_counted :
      (vs ws : List AbiValue) (encoded : Text)
      → map shape vs ≡ map shape ws
      → v.encode_abi_parameters vs ≡ ok encoded
      → v.encode_abi_parameters ws ≡ ok encoded
      → map size_of vs ≡ map size_of ws

-- Two different inputs of keccak256 with one digest.
pub record Collision (v : Viem) : Type 0 where
  pub first : Text
  pub second : Text
  pub different : first ≢ second
  pub collides : v.keccak256 first ≡ v.keccak256 second

module _ (v : Viem) where
  -- Equal digests are of equal encodings, or show a collision.
  hash_abi_same :
      (vs ws : List AbiValue) (digest : Text)
      → hash_abi v vs ≡ ok digest
      → hash_abi v ws ≡ ok digest
      → ((x : Text) × (v.encode_abi_parameters vs ≡ ok x) × (v.encode_abi_parameters ws ≡ ok x))
        ⊎ Collision v
  unfolding hash_abi
  hash_abi_same vs ws digest p q =
      let (x, ex, dx) = >>=-eq-ok (v.encode_abi_parameters vs) _ p in
      let (y, ey, dy) = >>=-eq-ok (v.encode_abi_parameters ws) _ q in
      let equal : v.keccak256 x ≡ v.keccak256 y = cc in
      elim (Bool-cases (text_eq x y)) [
        | inl e ↦ inl (y, rw ((text_eq_iff x y).0 e) at ex, ey)
        | inr ne ↦ inr (record {
          first = x;
          second = y;
          different = λ e. true_ne_false (sym ((text_eq_iff x y).1 e) ∙ ne);
          collides = equal;
        })
      ]

  -- Of equal values, then, or of arrays of equal size.
  pub hash_abi_binds :
      IsInjective v
      → (vs ws : List AbiValue) (digest : Text) → map shape vs ≡ map shape ws
      → All (IsWell v) vs
      → All (IsWell v) ws
      → hash_abi v vs ≡ ok digest
      → hash_abi v ws ≡ ok digest
      → (map canonical vs ≡ map canonical ws) ⊎ Collision v
  hash_abi_binds inj vs ws digest same well_v well_w p q = elim (hash_abi_same vs ws digest p q) [
    | inl (x, ex, ey) ↦ inl (inj.encode_injective vs ws x same well_v well_w ex ey)
    | inr found ↦ inr found
  ]

  pub hash_abi_counts :
      IsCounted v
      → (vs ws : List AbiValue) (digest : Text) → map shape vs ≡ map shape ws
      → hash_abi v vs ≡ ok digest
      → hash_abi v ws ≡ ok digest
      → (map size_of vs ≡ map size_of ws) ⊎ Collision v
  hash_abi_counts counted vs ws digest same p q = elim (hash_abi_same vs ws digest p q) [
    | inl (x, ex, ey) ↦ inl (counted.encode_counted vs ws x same ex ey)
    | inr found ↦ inr found
  ]

-- What has passed `assertBytes32`.
pub assert_bytes32-eq-ok {ℓ} :
    {B : Type ℓ} (v : Viem) (s : Text) (label : Label) (k : Result B) {b : B}
    → (assert_bytes32 v s label >> k) ≡ ok b
    → (is_bytes32 v s ≡ true) × (k ≡ ok b)
unfolding assert_bytes32
assert_bytes32-eq-ok v s label k h = >>-eq-ok _ _ k h

module _ (v : Viem) where
  -- A 32-byte hex string in lower case.
  pub record IsDigest (s : Text) : Type 0 where
    pub well_formed : is_bytes32 v s ≡ true
    pub lowered : lower s ≡ s

  -- The values that their ABI type holds.
  abbrev pub IsEncodable : AbiValue → Type 0
  IsEncodable (bytes32 s) = is_bytes32 v s ≡ true
  IsEncodable (address s) = v.is_address s ≡ true
  IsEncodable (bytes s) = v.is_hex s ≡ true
  IsEncodable (uint width value) = value < 2 ^ width
  IsEncodable (bytes32_list l) = All (λ s. is_bytes32 v s ≡ true) l
  IsEncodable (bytes_list l) = All (λ s. v.is_hex s ≡ true) l
  IsEncodable (uint_list width l) = All (λ n. n < 2 ^ width) l
  IsEncodable (uint_array width size l) = All (λ n. n < 2 ^ width) l × (length l ≡ size)

  -- keccak256 returns a lower-case 32-byte hex string; strict hex is closed under lower case; the
  -- encoder accepts the values of its types, and `stringToHex` returns hex.
  pub record Laws : Type 0 where
    pub keccak256_hex : (s : Text) → v.is_hex (v.keccak256 s) ≡ true
    pub keccak256_size : (s : Text) → length (v.keccak256 s) ≡ 66
    pub keccak256_lowered : (s : Text) → lower (v.keccak256 s) ≡ v.keccak256 s
    pub lower_hex : (s : Text) → v.is_hex s ≡ true → v.is_hex (lower s) ≡ true
    pub encode_total :
        (values : List AbiValue)
        → All IsEncodable values
        → (encoded : Text) × (v.encode_abi_parameters values ≡ ok encoded)

  pub lower_bytes32 : Laws → (s : Text) → is_bytes32 v s ≡ true → is_bytes32 v (lower s) ≡ true
  unfolding is_bytes32
  lower_bytes32 laws s h = ground (arith, laws.lower_hex s, length-lower s)

  pub lower-IsDigest : Laws → (s : Text) → is_bytes32 v s ≡ true → IsDigest (lower s)
  lower-IsDigest laws s h = record { well_formed = lower_bytes32 laws s h; lowered = lower_idem s }

  pub keccak256-IsDigest : Laws → (s : Text) → IsDigest (v.keccak256 s)
  unfolding is_bytes32
  keccak256-IsDigest laws s = record {
    well_formed = ground (arith, laws.keccak256_hex s, laws.keccak256_size s);
    lowered = laws.keccak256_lowered s;
  }

  pub domain_hash-IsDigest : Laws → (domain : String) → IsDigest (domain_hash v domain)
  unfolding domain_hash
  domain_hash-IsDigest laws domain = keccak256-IsDigest laws (v.string_to_hex (text domain))

  pub hash_abi-IsDigest :
      Laws
      → (values : List AbiValue) → All IsEncodable values
      → (digest : Text) × (hash_abi v values ≡ ok digest) × IsDigest digest
  unfolding hash_abi
  hash_abi-IsDigest laws values h =
      let (encoded, e) = laws.encode_total values h in
      (v.keccak256 encoded, rw e, keccak256-IsDigest laws encoded)

  -- Whatever is hashed, what is returned is a digest.
  pub IsDigest-of_hash_abi :
      Laws
      → (values : List AbiValue) (digest : Text) → hash_abi v values ≡ ok digest
      → IsDigest digest
  unfolding hash_abi
  IsDigest-of_hash_abi laws values digest h =
      let (encoded, e, d) = >>=-eq-ok (v.encode_abi_parameters values) _ h in
      subst IsDigest (ok_inj d) (keccak256-IsDigest laws encoded)
