-- ===== src/Registry/Names.antt =====
-- internal/registry/validate.go and the table pattern of exposure.go: what a declared name may be.
-- A panic is a `false` here; the operations of the registry end on it.
use Prim.Native.Char.{Char, code}
use Prim.Native.String.{len}
use app_module_sdk.Base.{
  String, Bool, true, false, ◌&&◌, ◌||◌, not, Option, none, some, ◌==◌, eqb, leb, if◌then◌else◌,
}

-- `strings.ContainsAny(name, "/\\ \t\n\r\x00")` on one character.
abbrev pub is_forbidden : Char → Bool
is_forbidden c =
    eqb (code c) 47
    || eqb (code c) 92
    || eqb (code c) 32
    || eqb (code c) 9
    || eqb (code c) 10
    || eqb (code c) 13
    || eqb (code c) 0

unfoldable pub contains_forbidden : String → Bool
contains_forbidden String.[] = false
contains_forbidden (String.◌∷◌ c s) = is_forbidden c || contains_forbidden s

abbrev pub starts_with_dot : String → Bool
starts_with_dot String.[] = false
starts_with_dot (String.◌∷◌ c s) = eqb (code c) 46

-- `strings.Contains(name, "..")`
unfoldable pub contains_dots : String → Bool
contains_dots String.[] = false
contains_dots (String.◌∷◌ c s) = (eqb (code c) 46 && starts_with_dot s) || contains_dots s

-- `ValidateName` does not panic.
unfoldable pub validate_name : String → Bool
unfolding contains_forbidden contains_dots
validate_name name = not (name == "") && not (contains_forbidden name) && not (contains_dots name)

abbrev pub is_lower : Char → Bool
is_lower c = leb 97 (code c) && leb (code c) 122

abbrev pub is_digit : Char → Bool
is_digit c = leb 48 (code c) && leb (code c) 57

-- [a-z0-9_] and [a-z0-9_-]
abbrev pub is_table_char : Char → Bool
is_table_char c = is_lower c || is_digit c || eqb (code c) 95

abbrev pub is_id_char : Char → Bool
is_id_char c = is_table_char c || eqb (code c) 45

unfoldable pub all_chars : (Char → Bool) → String → Bool
all_chars p String.[] = true
all_chars p (String.◌∷◌ c s) = p c && all_chars p s

-- A letter and then characters of a class.
unfoldable pub is_identifier : (Char → Bool) → String → Bool
unfolding all_chars
is_identifier p String.[] = false
is_identifier p (String.◌∷◌ c s) = is_lower c && all_chars p s

-- The text before the first slash, and the text after it.
pub cut_slash : String → Option (String × String)
cut_slash String.[] = none
cut_slash (String.◌∷◌ c s) =
    let rest = cut_slash s in
    if eqb (code c) 47
    then some ("", s)
    else elim rest [ none ↦ none | some (a, b) ↦ some (String.◌∷◌ c a, b) ]

abbrev pub owned : Option (String × String) → Bool
owned none = false
owned (some (owner, id)) = is_identifier is_id_char owner && is_identifier is_id_char id

-- A match of `depIDPattern`: no character of a segment is a slash.
unfoldable pub validate_dep_id : String → Bool
unfolding is_identifier cut_slash
validate_dep_id String.[] = false
validate_dep_id (String.◌∷◌ c s) =
    if eqb (code c) 64 then owned (cut_slash s) else is_identifier is_id_char (String.◌∷◌ c s)

-- A match of `exposedTableNamePattern`.
unfoldable pub is_table_name : String → Bool
unfolding is_identifier
is_table_name name = is_identifier is_table_char name && leb (len name) 63
