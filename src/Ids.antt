-- ===== src/Ids.antt =====
-- internal/ids/uuid.go: the two spellings of a module's identity.
mod Tests
pub mod Groups
pub mod RoundTrip
use Prim.Native.Char.{Char, code}
use Prim.Native.String.{◌++◌}
use app_module_sdk.Base.{
  ℕ, zero, suc, String, Bool, true, false, ◌&&◌, ◌||◌, Option, none, some, List, [], ◌∷◌, eqb, leb,
  if◌then◌else◌,
}

-- A class for each character of a text.
unfoldable pub matches : List (Char → Bool) → String → Bool
matches [] String.[] = true
matches [] (String.◌∷◌ c s) = false
matches (p ∷ ps) String.[] = false
matches (p ∷ ps) (String.◌∷◌ c s) = p c && matches ps s

-- n times a class, and then further classes.
abbrev pub times : ℕ → (Char → Bool) → List (Char → Bool) → List (Char → Bool)
times zero p ps = ps
times (suc n) p ps = p ∷ times n p ps

-- [0-9a-f]
abbrev pub is_hex : Char → Bool
is_hex c = (leb 48 (code c) && leb (code c) 57) || (leb 97 (code c) && leb (code c) 102)

abbrev pub is_dash : Char → Bool
is_dash c = eqb (code c) 45

-- [1-5] and [89ab]
abbrev pub is_version : Char → Bool
is_version c = leb 49 (code c) && leb (code c) 53

abbrev pub is_variant : Char → Bool
is_variant c = (leb 56 (code c) && leb (code c) 57) || (leb 97 (code c) && leb (code c) 98)

-- `canonicalUUIDPattern`, from its last groups on.
abbrev pub from_fourth : List (Char → Bool)
from_fourth = is_variant ∷ times 3 is_hex (is_dash ∷ times 12 is_hex [])

abbrev pub from_third : List (Char → Bool)
from_third = is_version ∷ times 3 is_hex (is_dash ∷ from_fourth)

abbrev pub from_second : List (Char → Bool)
from_second = times 4 is_hex (is_dash ∷ from_third)

abbrev pub uuid_pattern : List (Char → Bool)
uuid_pattern = times 8 is_hex (is_dash ∷ from_second)

unfoldable pub is_uuid : String → Bool
unfolding matches
is_uuid = matches uuid_pattern

-- `compactModuleIDPattern`
unfoldable pub is_compact : String → Bool
unfolding matches
is_compact = matches ((λ c. eqb (code c) 109) ∷ times 32 is_hex [])

-- `strings.ReplaceAll(value, "-", "")`
unfoldable pub without_dashes : String → String
without_dashes String.[] = ""
without_dashes (String.◌∷◌ c s) =
    let rest = without_dashes s in if is_dash c then rest else String.◌∷◌ c rest

-- s[:n] and s[n:], of a text of one byte a character.
unfoldable pub take : ℕ → String → String
take zero s = ""
take (suc n) String.[] = ""
take (suc n) (String.◌∷◌ c s) = String.◌∷◌ c (take n s)

unfoldable pub drop : ℕ → String → String
drop zero s = s
drop (suc n) String.[] = ""
drop (suc n) (String.◌∷◌ c s) = drop n s

unfoldable pub normalize_module_id : String → Option String
unfolding is_uuid is_compact without_dashes
normalize_module_id value =
    if is_compact value
    then some value
    else if is_uuid value
    then some ("m" ++ without_dashes value)
    else none

-- The five groups of 32 digits, with dashes between them.
unfoldable pub hyphenate : String → String
unfolding take drop
hyphenate h =
    take 8 h
    ++ ("-"
        ++ (take 4 (drop 8 h)
            ++ ("-"
                ++ (take 4 (drop 12 h) ++ ("-" ++ (take 4 (drop 16 h) ++ ("-" ++ drop 20 h)))))))

unfoldable pub canonical_module_id : String → Option String
unfolding is_uuid is_compact hyphenate drop
canonical_module_id value =
    if is_uuid value
    then some value
    else if is_compact value
    then some (hyphenate (drop 1 value))
    else none
