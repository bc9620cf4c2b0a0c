-- ===== src/Wire/Projected.antt =====
-- What `ValidateLegacyHeaders` of internal/invocationwire/wire.go accepts.
use app_module_sdk.Base.{
  String, ◌≡◌, refl, sym, ap, inl, inr, Bool, true, false, ◌||◌, Option, none, some, List, [], ◌∷◌,
  ◌==◌, All, eq_of_test, ne_of_test, eq-false_of_ne, Option-cases,
}
use app_module_sdk.Base.Dict.{Dict, lookup}
use app_module_sdk.Registry.Merge.{contains}
use app_module_sdk.Auth.Headers.{legacy_header_names}
use app_module_sdk.Wire.Shapes.{Invocation}
use app_module_sdk.Wire.Values.{and_true, not-true}
use app_module_sdk.Wire.Legacy.{
  matched, expected_is, scan_headers, legacy_headers, validate_legacy_headers,
}

-- A header that stands for no legacy name, or holds what is expected of the name.
pub data Agrees (expected : Dict String) (header : String × String) : Type 0 where
  other : matched header.0 legacy_header_names ≡ none → Agrees expected header
  expected_value :
      (legacy : String)
      → matched header.0 legacy_header_names ≡ some legacy
      → lookup legacy expected ≡ some header.1
      → Agrees expected header

-- The legacy names that the headers stand for.
unfoldable pub names_of : Dict String → List String
unfolding matched
names_of [] = []
names_of ((name, got) ∷ headers) = elim (matched name legacy_header_names) [
  | none ↦ names_of headers
  | some legacy ↦ legacy ∷ names_of headers
]

abbrev pub Distinct : List String → Type 0
Distinct [] = Unit
Distinct (x ∷ xs) = (contains x xs ≡ false) × Distinct xs

or_false : (a b : Bool) → (a || b) ≡ false → (a ≡ false) × (b ≡ false)
or_false true b h = cc
or_false false b h = (refl, h)

fresh_both :
    (n : String) (seen ns : List String)
    → All (λ m. contains m (n ∷ seen) ≡ false) ns
    → All (λ m. contains m seen ≡ false) ns × (contains n ns ≡ false)
unfolding contains
fresh_both n seen [] h = (tt, refl)
fresh_both n seen (m ∷ ns) (h, hs) =
    let (apart, fresh) = or_false (n == m) _ h in
    let (all, absent) = fresh_both n seen ns hs in
    let apart' : (m == n) ≡ false = eq-false_of_ne m n (λ e. ne_of_test n m apart (sym e)) in
    ((fresh, all), rw (apart', absent) refl)

expected_is-some : (got : String) (o : Option String) → expected_is got o ≡ true → o ≡ some got
expected_is-some got none h = cc
expected_is-some got (some want) h = ap (λ v. some v) (sym (eq_of_test got want h))

scan_headers-Agrees :
    (expected : Dict String) (seen : List String) (headers : Dict String)
    → scan_headers expected seen headers ≡ true
    → All (Agrees expected) headers
      × (All (λ m. contains m seen ≡ false) (names_of headers) × Distinct (names_of headers))
unfolding scan_headers names_of
scan_headers-Agrees expected seen [] h = (tt, (tt, tt))
scan_headers-Agrees expected seen ((name, got) ∷ headers) h =
    elim (Option-cases (matched name legacy_header_names)) [
      | inl e ↦
          let (all, (fresh, apart)) =
            scan_headers-Agrees expected seen headers (rw (e, scan_headers) at h) in
          ((other e, all), rw (e, names_of) (fresh, apart))
      | inr (legacy, e) ↦
          let (h', rest) =
            and_true _ (scan_headers expected (legacy ∷ seen) headers)
              (rw (e, scan_headers) at h) in
          let (new, want) = and_true _ _ h' in
          let (all, (fresh, apart)) = scan_headers-Agrees expected (legacy ∷ seen) headers rest in
          let (older, absent) = fresh_both legacy seen (names_of headers) fresh in
          (
            (expected_value legacy e (expected_is-some got _ want), all),
            rw (e, names_of) ((not-true _ new, older), (absent, apart)),
          )
    ]

-- Headers that pass the test stand for distinct legacy names, and each of them that stands for one
-- holds the value which the typed context projects to that name.
pub validate_legacy_headers-Agrees :
    (t : Invocation) (headers : Dict String)
    → validate_legacy_headers t headers ≡ true
    → All (Agrees (legacy_headers t)) headers × Distinct (names_of headers)
unfolding validate_legacy_headers
validate_legacy_headers-Agrees t headers h =
    let (all, (_, apart)) = scan_headers-Agrees (legacy_headers t) [] headers h in (all, apart)
