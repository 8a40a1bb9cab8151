-- ===== src/Viem.antt =====
-- What the program calls of `viem`, `@noble/curves` and JavaScript's `localeCompare`, as parameters:
-- their code is not part of the repository. `Laws` states what their documentation promises.
pub mod Laws
use scalable_blockchain_voti.Prelude.{ℕ, String, Bool, ◌&&◌, List, [], ◌∷◌, length, leb, ◌==◌}
use scalable_blockchain_voti.Outcome.{Label, Result, guard, labelled, ◌>>=◌}
use scalable_blockchain_voti.Js.Texts.{Text, text, lower}

-- A value beside its ABI type, as `parseAbiParameters` names it.
pub data AbiValue : Type 0 where
  bytes32 address bytes : Text → AbiValue
  uint : (width value : ℕ) → AbiValue
  bytes32_list bytes_list : List Text → AbiValue
  uint_list : (width : ℕ) → List ℕ → AbiValue
  uint_array : (width size : ℕ) → List ℕ → AbiValue

pub record Viem : Type 0 where
  -- isHex(value, { strict: true })
  pub is_hex : Text → Bool
  pub is_address : Text → Bool
  pub string_to_hex : Text → Text
  pub keccak256 : Text → Text
  -- encodeAbiParameters: throws on a value that its type does not hold
  pub encode_abi_parameters : List AbiValue → Result Text
  -- `left.localeCompare(right) <= 0`, in the locale of the host
  pub locale_le : Text → Text → Bool

module _ (v : Viem) where
  -- isHex(value, { strict: true }) && value.length === 66
  unfoldable pub is_bytes32 : Text → Bool
  is_bytes32 value = v.is_hex value && length value == 66

  unfoldable pub assert_bytes32 : Text → Label → Result (Unit {0})
  assert_bytes32 value label =
      guard (is_bytes32 value) (labelled label "must be a 32-byte hex string")

  unfoldable pub assert_address : Text → Label → Result (Unit {0})
  assert_address value label =
      guard (v.is_address value) (labelled label "must be an Ethereum address")

  unfoldable pub assert_hex_bytes : Text → Label → Result (Unit {0})
  assert_hex_bytes value label =
      guard (v.is_hex value && leb 4 (length value)) (labelled label "must be non-empty hex bytes")

  unfoldable pub domain_hash : String → Text
  domain_hash domain = v.keccak256 (v.string_to_hex (text domain))

  -- keccak256(encodeAbiParameters(...))
  unfoldable pub hash_abi : List AbiValue → Result Text
  hash_abi values = do encoded ← v.encode_abi_parameters values; Result.ok (v.keccak256 encoded)
