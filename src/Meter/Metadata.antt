-- ===== src/Meter/Metadata.antt =====
-- meter/observation.go: `validateAndCopyMetadata`. encoding/json gives the tree of a text, with the
-- members of an object in their order and the text of each number; the canonical text is modelled
-- by its length, which is all that the source reads of it and which the order of keys leaves alone.
pub mod Bounds
use Prim.Native.Char.{Char, code}
use Prim.Native.String.{len}
use Prim.Native.Nat.{◌^◌, ◌/◌}
use app_module_sdk.Base.{
  ℕ, zero, suc, ◌+◌, ◌-◌, ◌*◌, String, ◌≡◌, refl, Bool, true, false, ◌&&◌, ◌||◌, not, Option, none,
  some, List, [], ◌∷◌, ◌==◌, eqb, ltb, leb, is_some, if◌then◌else◌,
}
use app_module_sdk.Base.Int.{ℤ, pos, negsuc, pos_part, neg_part}
use app_module_sdk.Base.Atoi.{atoi}

mutual
  pub data Json : Type 0 where
    null : Json
    boolean : Bool → Json
    number text : String → Json
    array : Items → Json
    object : Members → Json

  pub data Items : Type 0 where
    no_item : Items
    item : Json → Items → Items

  pub data Members : Type 0 where
    no_member : Members
    member : String → Json → Members → Members

-- encoding/json, unicode/utf8 and strconv.ParseFloat on a number's text; `quoted` is the length of
-- the encoding of a text.
pub record Reader : Type 0 where
  pub valid_utf8 : String → Bool
  pub parse : String → Option Json
  pub quoted : String → ℕ
  pub is_finite : String → Bool

abbrev pub max_metadata_bytes : ℕ
max_metadata_bytes = 4096

abbrev pub max_members : ℕ
max_members = 32

abbrev pub max_depth : ℕ
max_depth = 4

abbrev pub max_items : ℕ
max_items = 32

unfoldable pub contains : String → List String → Bool
contains k [] = false
contains k (x ∷ xs) = x == k || contains k xs

-- `validateMetadataMemberNames`, with the number of members so far.
unfoldable mutual
  unfolding contains

  pub walk : Json → ℕ → Option ℕ
  walk null n = some n
  walk (boolean b) n = some n
  walk (number s) n = some n
  walk (text s) n = some n
  walk (array xs) n = walk_items xs n
  walk (object ms) n = walk_members [] ms n

  pub walk_items : Items → ℕ → Option ℕ
  walk_items no_item n = some n
  walk_items (item j xs) n = elim (walk j n) [ none ↦ none | some m ↦ walk_items xs m ]

  pub walk_members : List String → Members → ℕ → Option ℕ
  walk_members seen no_member n = some n
  walk_members seen (member k j ms) n =
      if ltb max_members (n + 1) || contains k seen
      then none
      else elim (walk j (n + 1)) [ none ↦ none | some m ↦ walk_members (k ∷ seen) ms m ]

abbrev pub is_letter : Char → Bool
is_letter c = (leb 65 (code c) && leb (code c) 90) || (leb 97 (code c) && leb (code c) 122)

abbrev pub is_key_char : Char → Bool
is_key_char c =
    is_letter c
    || (leb 48 (code c) && leb (code c) 57)
    || eqb (code c) 95
    || eqb (code c) 46
    || eqb (code c) 45

unfoldable pub all_key_chars : String → Bool
all_key_chars String.[] = true
all_key_chars (String.◌∷◌ c s) = is_key_char c && all_key_chars s

-- `validateMetadataKey` returns no error.
unfoldable pub key_fits : String → Bool
unfolding all_key_chars
key_fits String.[] = false
key_fits (String.◌∷◌ c s) = leb (len (String.◌∷◌ c s)) 64 && is_letter c && all_key_chars s

-- The text before the first character of a class, and the text after it.
unfoldable pub cut_at : (Char → Bool) → String → String × Option String
cut_at p String.[] = ("", none)
cut_at p (String.◌∷◌ c s) =
    let (a, b) = cut_at p s in if p c then ("", some s) else (String.◌∷◌ c a, b)

abbrev pub is_zero_digit : Char → Bool
is_zero_digit c = eqb (code c) 48

unfoldable pub all_zeros : String → Bool
all_zeros String.[] = true
all_zeros (String.◌∷◌ c s) = is_zero_digit c && all_zeros s

-- `strings.TrimLeft` and `strings.TrimRight` of zeros.
unfoldable pub trim_left : String → String
trim_left String.[] = ""
trim_left (String.◌∷◌ c s) =
    let rest = trim_left s in if is_zero_digit c then rest else String.◌∷◌ c s

unfoldable pub trim_right : String → String
unfolding all_zeros
trim_right String.[] = ""
trim_right (String.◌∷◌ c s) =
    let rest = trim_right s in if is_zero_digit c && all_zeros s then "" else String.◌∷◌ c rest

-- a - b.
abbrev pub of_difference : ℕ → ℕ → ℤ
of_difference a b = if leb b a then pos (a - b) else negsuc (b - a - 1)

-- e + a - b.
abbrev pub shift : ℤ → ℕ → ℕ → ℤ
shift e a b = of_difference (pos_part e + a) (neg_part e + b)

-- The decimal digits of a number below 10 ^ 20.
unfoldable pub digits_of : ℕ → ℕ → ℕ
digits_of zero n = 1
digits_of (suc fuel) n = let rest = digits_of fuel (n / 10) in if ltb n 10 then 1 else rest + 1

-- The length of `strconv.FormatInt`.
unfoldable pub format_len : ℤ → ℕ
unfolding digits_of
format_len (pos n) = digits_of 20 n
format_len (negsuc n) = digits_of 20 (n + 1) + 1

-- `parsed` in `canonicalJSONNumber`: 0 without an exponent, and none out of the range of int64.
abbrev pub exponent_of : Option String → Option ℤ
exponent_of none = some (pos 0)
exponent_of (some s) = atoi s

abbrev pub fraction_of : Option String → String
fraction_of none = ""
fraction_of (some s) = s

-- `canonicalJSONNumber` from its non-zero digits on, with the exponent of the last of them.
unfoldable pub canonical_digits : ℕ → String → ℤ → Option ℕ
unfolding trim_right format_len
canonical_digits sign digits e =
    let trimmed = trim_right digits in
    let zeros = len digits - len trimmed in
    if ltb (2 ^ 63 - 1 + neg_part e) (pos_part e + zeros)
    then none
    else let total = shift e zeros 0 in
      some (
        sign
        + len trimmed
        + (if eqb (pos_part total + neg_part total) 0 then 0 else 1 + format_len total))

-- `canonicalJSONNumber` from its exponent on: the length of its result.
unfoldable pub canonical_mantissa : ℕ → String → Option ℤ → Option ℕ
unfolding cut_at trim_left canonical_digits
canonical_mantissa sign mantissa none = none
canonical_mantissa sign mantissa (some e) =
    let (integer, rest) = cut_at (λ c. eqb (code c) 46) mantissa in
    let fraction = fraction_of rest in
    let digits = trim_left (Prim.Native.String.◌++◌ integer fraction) in
    if ltb (pos_part e + 2 ^ 63) (neg_part e + len fraction)
    then none
    else if digits == ""
    then some 1
    else canonical_digits sign digits (shift e 0 (len fraction))

unfoldable pub canonical_unsigned : ℕ → String → Option ℕ
unfolding cut_at canonical_mantissa
canonical_unsigned sign s =
    let (mantissa, e) = cut_at (λ c. eqb (code c) 101 || eqb (code c) 69) s in
    canonical_mantissa sign mantissa (exponent_of e)

-- `canonicalJSONNumber`
unfoldable pub canonical_number : String → Option ℕ
unfolding canonical_unsigned
canonical_number String.[] = canonical_unsigned 0 ""
canonical_number (String.◌∷◌ c s) =
    if eqb (code c) 45 then canonical_unsigned 1 s else canonical_unsigned 0 (String.◌∷◌ c s)

abbrev pub count_members : Members → ℕ
count_members no_member = 0
count_members (member k j ms) = suc (count_members ms)

abbrev pub count_items : Items → ℕ
count_items no_item = 0
count_items (item j xs) = suc (count_items xs)

-- The brackets round a list whose elements are counted with a comma each.
abbrev pub enclosed : Option (ℕ × ℕ) → Option (ℕ × ℕ)
enclosed none = none
enclosed (some (s, n)) = some (if eqb s 0 then 2 else s + 1, n)

abbrev pub sized : ℕ → Option ℕ → Option (ℕ × ℕ)
sized n none = none
sized n (some s) = some (s, n)

-- `appendCanonicalMetadata`: the length that it appends, and the members that it has counted.
module _ (reader : Reader) where
  unfoldable mutual
    unfolding key_fits canonical_number

    pub append : ℕ → Json → ℕ → Option (ℕ × ℕ)
    append depth null n = if ltb max_depth depth then none else some (4, n)
    append depth (boolean b) n = if ltb max_depth depth then none else some (if b then 4 else 5, n)
    append depth (number s) n =
        if ltb max_depth depth || ltb 128 (len s) || not (reader.is_finite s)
        then none
        else sized n (canonical_number s)
    append depth (text s) n =
        if ltb max_depth depth || ltb 512 (len s) then none else some (reader.quoted s, n)
    append depth (array xs) n =
        let inner = append_items (depth + 1) xs n in
        if ltb max_depth depth || ltb max_items (count_items xs) then none else enclosed inner
    append depth (object ms) n =
        let inner = append_members (depth + 1) ms (n + count_members ms) in
        if ltb max_depth depth || ltb max_members (n + count_members ms)
        then none
        else enclosed inner

    pub append_items : ℕ → Items → ℕ → Option (ℕ × ℕ)
    append_items depth no_item n = some (0, n)
    append_items depth (item j xs) n = elim (append depth j n) [
      | none ↦ none
      | some (s, m) ↦ elim (append_items depth xs m) [
        | none ↦ none
        | some (t, m') ↦ some (s + 1 + t, m')
      ]
    ]

    pub append_members : ℕ → Members → ℕ → Option (ℕ × ℕ)
    append_members depth no_member n = some (0, n)
    append_members depth (member k j ms) n = elim (append depth j n) [
      | none ↦ none
      | some (s, m) ↦ elim (append_members depth ms m) [
        | none ↦ none
        | some (t, m') ↦ if key_fits k then some (len k + 3 + s + 1 + t, m') else none
      ]
    ]

  abbrev pub within_bytes : Option (ℕ × ℕ) → Bool
  within_bytes none = false
  within_bytes (some (s, n)) = leb s max_metadata_bytes

  unfoldable pub tree_fits : Option Json → Bool
  unfolding walk append
  tree_fits (some (object ms)) =
      is_some (walk (object ms) 0) && within_bytes (append 1 (object ms) 0)
  tree_fits _ = false

  -- `validateAndCopyMetadata` returns no error.
  unfoldable pub metadata_fits : String → Bool
  unfolding tree_fits
  metadata_fits raw =
      raw == ""
      || (leb (len raw) max_metadata_bytes && reader.valid_utf8 raw && tree_fits (reader.parse raw))
