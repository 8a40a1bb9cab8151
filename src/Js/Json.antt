-- ===== src/Js/Json.antt =====
-- JSON values, `JSON.stringify` and the order of an object's entries by `localeCompare`.
use scalable_blockchain_voti.Prelude.{ℕ, ◌/◌, ◌%◌, Bool, [], ◌∷◌, ◌++◌, ltb, ◌==◌, if◌then◌else◌}
use scalable_blockchain_voti.Js.Texts.{Text, text}
use scalable_blockchain_voti.Js.Digits.{show_radix, digit_unit}

-- The values that the packages have: no fractions, no booleans and no null.
mutual
  pub data Json : Type 0 where
    number : ℕ → Json
    string : Text → Json
    array : Items → Json
    object : Members → Json

  pub data Items : Type 0 where
    end : Items
    item : Json → Items → Items

  pub data Members : Type 0 where
    done : Members
    member : Text → Json → Members → Members

-- where an entry goes among sorted ones
abbrev pub insert_member : (Text → Text → Bool) → Text → Json → Members → Members
insert_member le key value done = member key value done
insert_member le key value (member k w rest) =
    let after = insert_member le key value rest in
    if le key k then member key value (member k w rest) else member k w after

abbrev pub sort_members : (Text → Text → Bool) → Members → Members
sort_members le done = done
sort_members le (member key value rest) = insert_member le key value (sort_members le rest)

-- `canonicalize`: the entries of each object in the order of their keys
unfoldable mutual
  pub canonicalize : (Text → Text → Bool) → Json → Json
  canonicalize le (number n) = number n
  canonicalize le (string s) = string s
  canonicalize le (array items) = array (canonical_items le items)
  canonicalize le (object members) = object (sort_members le (canonical_members le members))

  canonical_items : (Text → Text → Bool) → Items → Items
  canonical_items le end = end
  canonical_items le (item value rest) = item (canonicalize le value) (canonical_items le rest)

  canonical_members : (Text → Text → Bool) → Members → Members
  canonical_members le done = done
  canonical_members le (member key value rest) =
      member key (canonicalize le value) (canonical_members le rest)

-- one code unit in a JSON string; surrogates are left as they are
abbrev pub escaped : ℕ → Text
escaped c =
    if c == 34
    then text "\\\""
    else if c == 92
    then text "\\\\"
    else if c == 8
    then text "\\b"
    else if c == 9
    then text "\\t"
    else if c == 10
    then text "\\n"
    else if c == 12
    then text "\\f"
    else if c == 13
    then text "\\r"
    else if ltb c 32
    then text "\\u00" ++ digit_unit (c / 16) ∷ digit_unit (c % 16) ∷ []
    else c ∷ []

abbrev pub quoted : Text → Text
quoted [] = 34 ∷ []
quoted (c ∷ s) = escaped c ++ quoted s

unfoldable mutual
  pub stringify : Json → Text
  stringify (number n) = show_radix 10 n
  stringify (string s) = 34 ∷ quoted s
  stringify (array items) = 91 ∷ joined_items items
  stringify (object members) = 123 ∷ joined_members members

  joined_items : Items → Text
  joined_items end = 93 ∷ []
  joined_items (item value end) = stringify value ++ 93 ∷ []
  joined_items (item value (item next rest)) = stringify value ++ 44 ∷ joined_items (item next rest)

  joined_members : Members → Text
  joined_members done = 125 ∷ []
  joined_members (member key value done) = 34 ∷ (quoted key ++ 58 ∷ (stringify value ++ 125 ∷ []))
  joined_members (member key value (member k w rest)) =
      34 ∷ (quoted key ++ 58 ∷ (stringify value ++ 44 ∷ joined_members (member k w rest)))
