-- ===== src/Auth/Headers.antt =====
-- net/http's header map, under canonical names and with at least one value each, and the tests of
-- auth/invocation.go on its names.
use Prim.Native.Char.{Char, code}
use app_module_sdk.Base.{
  ℕ, ◌+◌, String, Bool, true, false, ◌&&◌, ◌||◌, Option, none, some, List, [], ◌∷◌, ◌++◌, eqb, leb,
  if◌then◌else◌,
}
use app_module_sdk.Base.Dict.{Dict, lookup}

abbrev pub HeaderMap : Type 0
HeaderMap = Dict (List String)

-- `Header.Values` and `Header.Get` of a canonical name.
unfoldable pub values : String → HeaderMap → List String
values name h = elim (lookup name h) [ none ↦ [] | some vs ↦ vs ]

abbrev pub first_of : List String → String
first_of [] = ""
first_of (v ∷ vs) = v

unfoldable pub get : String → HeaderMap → String
unfolding values
get name h = first_of (values name h)

-- A character without its case.
abbrev pub fold : Char → ℕ
fold c = if leb 65 (code c) && leb (code c) 90 then code c + 32 else code c

-- `strings.EqualFold` on the characters of header names, which are ASCII.
unfoldable pub equal_fold : String → String → Bool
equal_fold String.[] String.[] = true
equal_fold String.[] (String.◌∷◌ d t) = false
equal_fold (String.◌∷◌ c s) String.[] = false
equal_fold (String.◌∷◌ c s) (String.◌∷◌ d t) = eqb (fold c) (fold d) && equal_fold s t

-- `delete` of every name that passes the test, on a clone.
unfoldable pub strip : (String → Bool) → HeaderMap → HeaderMap
strip p [] = []
strip p ((name, vs) ∷ h) = let rest = strip p h in if p name then rest else (name, vs) ∷ rest

-- `headerValuesEqualFold`: the values of all spellings of a name, and how many there are.
unfoldable pub values_equal_fold : String → HeaderMap → List String × ℕ
unfolding equal_fold
values_equal_fold name [] = ([], 0)
values_equal_fold name ((actual, vs) ∷ h) =
    let (ws, n) = values_equal_fold name h in
    if equal_fold actual name then (vs ++ ws, n + 1) else (ws, n)

abbrev pub invocation_header : String
invocation_header = "X-MS-Invocation"

-- `LegacyHeaderNames`
abbrev pub legacy_header_names : List String
legacy_header_names =
    "X-MS-User-ID" ∷ "X-MS-Identity-Kind" ∷ "X-MS-App-ID" ∷ "X-MS-App-Role"
    ∷ "X-MS-Actor-Delegation" ∷ "X-MS-App-Allowed-Redirects" ∷ "X-Request-ID" ∷ []

unfoldable pub folds_to_one_of : String → List String → Bool
folds_to_one_of name [] = false
folds_to_one_of name (legacy ∷ names) = equal_fold name legacy || folds_to_one_of name names

-- `isLegacyInvocationHeader`
unfoldable pub is_legacy : String → Bool
unfolding folds_to_one_of
is_legacy name = folds_to_one_of name legacy_header_names

abbrev pub is_stripped : Bool → String → Bool
is_stripped legacy name = equal_fold name invocation_header || (legacy && is_legacy name)

-- `strippedInvocationHeaders`
unfoldable pub stripped_invocation_headers : Bool → HeaderMap → HeaderMap
unfolding strip
stripped_invocation_headers legacy h = strip (is_stripped legacy) h

-- `collectLegacyHeaders`: a legacy header with other than one value ends it.
abbrev pub legacy_entry : String → List String → Option (Dict String) → Option (Dict String)
legacy_entry name (v ∷ []) (some rest) = some ((name, v) ∷ rest)
legacy_entry name vs rest = none

unfoldable pub collect_legacy_headers : HeaderMap → Option (Dict String)
collect_legacy_headers [] = some []
collect_legacy_headers ((name, vs) ∷ h) =
    let rest = collect_legacy_headers h in
    if is_legacy name then legacy_entry name vs rest else rest
