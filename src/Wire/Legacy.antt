-- ===== src/Wire/Legacy.antt =====
-- `LegacyHeaders` and `ValidateLegacyHeaders` of internal/invocationwire/wire.go. A header map is a
-- list in any order of the range over it.
use Prim.Native.Char.{Char, code}
use Prim.Native.String.{◌++◌}
use app_module_sdk.Base.{◌++◌ as both}
use app_module_sdk.Base.{
  ℕ, String, Bool, true, false, ◌&&◌, not, Option, none, some, List, [], ◌∷◌, ◌==◌, eqb, leb, ◌+◌,
  if◌then◌else◌,
}
use app_module_sdk.Base.Dict.{Dict, lookup}
use app_module_sdk.Registry.Merge.{contains}
use app_module_sdk.Auth.Headers.{legacy_header_names}
use app_module_sdk.Wire.Shapes.{Invocation}

-- A character without its case. Beyond ASCII, U+212A folds to k and U+017F to s.
abbrev pub fold : Char → ℕ
fold c =
    if leb 65 (code c) && leb (code c) 90
    then code c + 32
    else if eqb (code c) 8490
    then 107
    else if eqb (code c) 383
    then 115
    else code c

-- `strings.EqualFold` of a name and an ASCII name.
unfoldable pub equal_fold : String → String → Bool
equal_fold String.[] String.[] = true
equal_fold String.[] (String.◌∷◌ d t) = false
equal_fold (String.◌∷◌ c s) String.[] = false
equal_fold (String.◌∷◌ c s) (String.◌∷◌ d t) = eqb (fold c) (fold d) && equal_fold s t

-- `strings.Join(redirects, ",")`
unfoldable pub join : List String → String
join [] = ""
join (x ∷ []) = x
join (x ∷ y ∷ xs) = x ++ "," ++ join (y ∷ xs)

abbrev pub unless_empty : String → String → Dict String
unless_empty name value = if value == "" then [] else (name, value) ∷ []

-- The entries that are set one after the other.
abbrev pub concat : List (Dict String) → Dict String
concat [] = []
concat (d ∷ ds) = both d (concat ds)

-- `LegacyHeaders`
unfoldable pub legacy_headers : Invocation → Dict String
unfolding join
legacy_headers t =
    ("X-MS-App-ID", t.app.id)
    ∷ ("X-MS-App-Allowed-Redirects", join t.routes.redirects)
    ∷ ("X-Request-ID", t.request.id)
    ∷ concat (
        unless_empty "X-MS-User-ID" t.identity.user_id
        ∷ unless_empty "X-MS-Identity-Kind" t.identity.kind
        ∷ unless_empty "X-MS-App-Role" t.identity.app_role
        ∷ unless_empty "X-MS-Actor-Delegation" t.identity.actor_delegation
        ∷ [])

-- The legacy name that a header's name stands for.
unfoldable pub matched : String → List String → Option String
unfolding equal_fold
matched name [] = none
matched name (legacy ∷ names) =
    let rest = matched name names in if equal_fold name legacy then some legacy else rest

abbrev pub expected_is : String → Option String → Bool
expected_is got none = false
expected_is got (some want) = got == want

-- The loop over the headers; `seen` holds the legacy names before.
unfoldable pub scan_headers : Dict String → List String → Dict String → Bool
unfolding matched
scan_headers expected seen [] = true
scan_headers expected seen ((name, got) ∷ headers) = elim (matched name legacy_header_names) [
  | none ↦ scan_headers expected seen headers
  | some legacy ↦
      not (contains legacy seen)
      && expected_is got (lookup legacy expected)
      && scan_headers expected (legacy ∷ seen) headers
]

-- `ValidateLegacyHeaders` returns no error.
unfoldable pub validate_legacy_headers : Invocation → Dict String → Bool
unfolding scan_headers legacy_headers
validate_legacy_headers t headers = scan_headers (legacy_headers t) [] headers
