-- ===== src/Migration/Files.antt =====
-- internal/migration/migration.go and `List` of runner.go: migrations from the file names of a
-- directory. `sort.Slice` over the keys of a map leaves the order of equal numbers open, so the
-- sort is a parameter.
pub mod Laws
pub mod Order
use Prim.Native.Char.{Char, code}
use Prim.Native.String
use Prim.Native.String.{len}
use app_module_sdk.Base.{
  ℕ, ◌+◌, ◌≤◌, String, ◌≡◌, Bool, true, false, ◌&&◌, ◌||◌, not, ◌≢◌, Option, none, some, List, [],
  ◌∷◌, map, ◌==◌, ltb, eqb, if◌then◌else◌,
}
use app_module_sdk.Base.Dict.{Dict, lookup, put}
use app_module_sdk.Base.Int.{ℤ, pos, ◌≤ℤ◌}
use app_module_sdk.Base.Atoi.{is_digit, atoi_value}
use app_module_sdk.Migration.{Migration, Error, read_directory, Result, ok, err}

pub data Scope : Type 0 where
  app module_scope : Scope

-- `Scope.Dir`
unfoldable pub dir : Scope → String
dir app = "sql/app"
dir module_scope = "sql/module"

-- The leading digits of a name, and what follows them.
unfoldable pub span_digits : String → String × String
span_digits String.[] = ("", "")
span_digits (String.◌∷◌ c s) =
    let (ds, rest) = span_digits s in
    if is_digit c then (String.◌∷◌ c ds, rest) else ("", String.◌∷◌ c s)

-- A name without a suffix that it ends in.
unfoldable pub strip_suffix : String → String → Option String
strip_suffix suffix String.[] = if suffix == "" then some "" else none
strip_suffix suffix (String.◌∷◌ c s) =
    let rest = strip_suffix suffix s in
    if String.◌∷◌ c s == suffix
    then some ""
    else elim rest [ none ↦ none | some t ↦ some (String.◌∷◌ c t) ]

-- `.` of a regular expression matches no newline.
unfoldable pub one_line : String → Bool
one_line String.[] = true
one_line (String.◌∷◌ c s) = not (eqb (code c) 10) && one_line s

-- `(.+)` before the suffix
pub slug_of : Option String → Option String
unfolding one_line
slug_of none = none
slug_of (some slug) = if not (slug == "") && one_line slug then some slug else none

pub after_digits : String → String × String → Option (String × String)
unfolding slug_of strip_suffix
after_digits suffix (ds, String.[]) = none
after_digits suffix (ds, String.◌∷◌ c rest) =
    if not (ds == "") && eqb (code c) b'_'
    then elim (slug_of (strip_suffix suffix rest)) [ none ↦ none | some slug ↦ some (ds, slug) ]
    else none

-- A match of `^(\d+)_(.+)` and the suffix at the end: the version and the slug.
unfoldable pub match_name : String → String → Option (String × String)
unfolding after_digits span_digits
match_name suffix name = after_digits suffix (span_digits name)

abbrev pub max_slug_len : ℕ
max_slug_len = 255

unfoldable pub parse_up_filename : String → Option (String × String)
unfolding match_name
parse_up_filename name = elim (match_name ".up.sql" name) [
  | none ↦ none
  | some (version, slug) ↦ if ltb max_slug_len (len slug) then none else some (version, slug)
]

unfoldable pub parse_down_filename : String → Option String
unfolding match_name
parse_down_filename name = elim (match_name ".down.sql" name) [
  | none ↦ none
  | some (version, slug) ↦ some version
]

pub record DirEntry : Type 0 where
  pub name : String
  pub is_dir : Bool

-- The maps of the first pass, keyed by version.
pub record Found : Type 0 where
  pub up_files : Dict String
  pub down_files : Dict String
  pub names : Dict String

abbrev pub nothing_found : Found
nothing_found = record { up_files = []; down_files = []; names = [] }

pub found_up : String → String → String × String → Found → Found
found_up d name (version, slug) f = record f {
  up_files = put version (String.◌++◌ d (String.◌++◌ "/" name)) f.up_files;
  names = put version slug f.names;
}

pub found_down : String → String → String → Found → Found
found_down d name version f = record f {
  down_files = put version (String.◌++◌ d (String.◌++◌ "/" name)) f.down_files;
}

-- One round of the first pass.
unfoldable pub scan_entry : String → DirEntry → Found → Found
unfolding found_up found_down
scan_entry d e f = if e.is_dir then f else elim (parse_up_filename e.name) [
  | some up ↦ found_up d e.name up f
  | none ↦ elim (parse_down_filename e.name) [
    | some version ↦ found_down d e.name version f
    | none ↦ f
  ]
]

unfoldable pub scan : String → List DirEntry → Found → Found
unfolding scan_entry
scan d [] f = f
scan d (e ∷ es) f = scan d es (scan_entry d e f)

-- `m[k]` of a missing key is "".
abbrev pub or_empty : Option String → String
or_empty none = ""
or_empty (some s) = s

unfoldable pub build : Found → String → Migration
build f v = record {
  version = v;
  name = or_empty (lookup v f.names);
  up_file = or_empty (lookup v f.up_files);
  down_file = or_empty (lookup v f.down_files);
}

-- What `fs.ReadDir` gives, and a nil file system.
pub data Listing : Type 0 where
  no_fs not_exist failed : Listing
  entries : List DirEntry → Listing

-- How often a version stands in a list.
unfoldable pub count : String → List String → ℕ
count v [] = 0
count v (w ∷ ws) = (if w == v then 1 else 0) + count v ws

-- The numbers of the versions do not fall.
abbrev pub IsAscendingText : ℤ → List String → Type 0
IsAscendingText lo [] = Unit
IsAscendingText lo (v ∷ vs) = (lo ≤ℤ atoi_value v) × IsAscendingText (atoi_value v) vs

-- Ranging over the keys of a map and `sort.Slice` by the number of a version: the same versions,
-- as often, in an order in which the numbers do not fall.
pub record VersionSort : Type 0 where
  pub sorted : List String → List String
  pub keeps : (v : String) (vs : List String) → count v (sorted vs) ≡ count v vs
  pub ascends :
      (vs : List String) (lo : ℤ)
      → ((v : String) → count v vs ≢ 0 → lo ≤ℤ atoi_value v)
      → IsAscendingText lo (sorted vs)

module _ (sort : VersionSort) where
  unfoldable pub list_found : Found → List Migration
  unfolding build
  list_found f = map (build f) (sort.sorted (map (λ p. p.0) f.up_files))

  unfoldable pub list : Scope → Listing → Result (List Migration)
  unfolding list_found scan dir
  list scope no_fs = ok []
  list scope not_exist = ok []
  list scope failed = err read_directory
  list scope (entries es) = ok (list_found (scan (dir scope) es nothing_found))

  last_version : String → List Migration → String
  last_version v [] = v
  last_version v (m ∷ ms) = last_version m.version ms

  -- The version of the last migration, or "" without one.
  pub latest_version : Scope → Listing → Result String
  unfolding list last_version
  latest_version scope listing = elim (list scope listing) [
    | err e ↦ err e
    | ok ms ↦ ok (last_version "" ms)
  ]
