-- ===== src/Examples/Toy.antt =====
-- `viem` as a concrete value: strict hex, an injective encoder, and a digest of 64 hex digits.
use Prim.Native.Nat.{◌%◌}
use scalable_blockchain_voti.Prelude.{
  ℕ, ◌+◌, ◌*◌, ◌≡◌, refl, sym, ap, ◌∙◌, List, map, length-map, Bool, true, false, ◌&&◌, ◌||◌, not,
  [], ◌∷◌, ◌++◌, length, leb, ◌==◌, arith,
}
use scalable_blockchain_voti.Outcome.{ok, ok_inj}
use scalable_blockchain_voti.Js.Texts.{Text, text, lower, lower_unit, text_lt}
use scalable_blockchain_voti.Viem.{
  Viem, AbiValue, bytes32, address, bytes, uint, bytes32_list, bytes_list, uint_list, uint_array,
}
use scalable_blockchain_voti.Viem.Laws.{Laws, IsInjective, IsCounted, size_of, canonical}
use scalable_blockchain_voti.Examples.Encoder.{write, write_inj}

unfoldable pub is_digit : ℕ → Bool
is_digit c = (leb 48 c && leb c 57) || ((leb 65 c && leb c 70) || (leb 97 c && leb c 102))

unfoldable pub are_digits : Text → Bool
are_digits [] = true
are_digits (c ∷ s) = is_digit c && are_digits s

unfoldable pub strict_hex : Text → Bool
strict_hex [] = false
strict_hex (c ∷ []) = false
strict_hex (c ∷ d ∷ s) = (c == 48 && d == 120) && are_digits s

unfoldable pub total : Text → ℕ
total [] = 1
total (c ∷ s) = c + 3 * total s

abbrev zeros : Text
zeros = text "0x000000000000000000000000000000000000000000000000000000000000000"

unfoldable pub toy_digest : Text → Text
toy_digest s =
    text "0x000000000000000000000000000000000000000000000000000000000000000"
    ++ (48 + total s % 10) ∷ []

abbrev pub toy : Viem
toy = record {
  is_hex = strict_hex;
  is_address = strict_hex;
  string_to_hex = λ s. s;
  keccak256 = toy_digest;
  encode_abi_parameters = λ values. ok (write values);
  locale_le = λ s t. not (text_lt t s);
}

digest_hex : (s : Text) → strict_hex (toy_digest s) ≡ true
unfolding strict_hex toy_digest text are_digits is_digit
digest_hex s = ground arith

digest_size : (s : Text) → length (toy_digest s) ≡ 66
unfolding toy_digest text
digest_size s = refl

digest_lowered : (s : Text) → lower (toy_digest s) ≡ toy_digest s
unfolding toy_digest text lower lower_unit
digest_lowered s = ground arith

lower_digits : (s : Text) → are_digits s ≡ true → are_digits (lower s) ≡ true
unfolding are_digits is_digit lower lower_unit
lower_digits [] h = refl
lower_digits (c ∷ s) h = ground (arith, lower_digits s)

lower_strict : (s : Text) → strict_hex s ≡ true → strict_hex (lower s) ≡ true
unfolding strict_hex
lower_strict [] h = cc
lower_strict (c ∷ []) h = cc
lower_strict (c ∷ d ∷ s) h = unfold lower lower_unit in ground (arith, lower_digits s)

pub toy_laws : Laws toy
toy_laws = record {
  keccak256_hex = digest_hex;
  keccak256_size = digest_size;
  keccak256_lowered = digest_lowered;
  lower_hex = lower_strict;
  encode_total = λ values h. (write values, refl);
}

size_kept : (value : AbiValue) → size_of (canonical value) ≡ size_of value
size_kept (bytes32 s) = refl
size_kept (address s) = refl
size_kept (bytes s) = refl
size_kept (uint width value) = refl
size_kept (bytes32_list l) = length-map lower l
size_kept (bytes_list l) = length-map lower l
size_kept (uint_list width l) = refl
size_kept (uint_array width size l) = refl

sizes_kept : (values : List AbiValue) → map size_of (map canonical values) ≡ map size_of values
sizes_kept [] = refl
sizes_kept (value ∷ values) = cc (size_kept value, sizes_kept values)

pub toy-IsInjective : IsInjective toy
toy-IsInjective = record {
  encode_injective =
      λ vs ws encoded same well_v well_w p q. write_inj vs ws same (ok_inj (p ∙ sym q));
}

pub toy-IsCounted : IsCounted toy
toy-IsCounted = record {
  encode_counted = λ vs ws encoded same p q.
      sym (sizes_kept vs)
      ∙ ap (map size_of) (write_inj vs ws same (ok_inj (p ∙ sym q)))
      ∙ sizes_kept ws;
}
