-- ===== src/Registry/Merge.antt =====
-- `mergeStrings` of internal/registry/registry.go: the union of two lists of names.
use app_module_sdk.Base.{
  ℕ, ◌+◌, String, ◌≡◌, refl, sym, ◌∙◌, inl, inr, Bool, true, false, ◌&&◌, ◌||◌, not, List, [], ◌∷◌,
  ◌++◌, ◌==◌, arith, eq_iff, is_some, Bool-cases, if◌then◌else◌, eqb,
}
use mathlib.Core.List.{append-nil, append_assoc}
use app_module_sdk.Base.Dict.{Dict, lookup, put, lookup-put}

-- `slices.Contains`
unfoldable pub contains : String → List String → Bool
contains s [] = false
contains s (x ∷ xs) = x == s || contains s xs

-- How often a text stands in a list.
unfoldable pub count : String → List String → ℕ
count s [] = 0
count s (x ∷ xs) = (if x == s then 1 else 0) + count s xs

-- `seen[s] = struct{}{}` for every text of the list.
mark : List String → Dict (Unit {0}) → Dict (Unit {0})
mark [] seen = seen
mark (s ∷ ss) seen = mark ss (put s tt seen)

merge_from : Dict (Unit {0}) → List String → List String → List String
merge_from seen out [] = out
merge_from seen out (s ∷ ss) = elim (is_some (lookup s seen)) [
  | true ↦ merge_from seen out ss
  | false ↦ merge_from (put s tt seen) (out ++ s ∷ []) ss
]

unfoldable pub merge_strings : List String → List String → List String
unfolding merge_from mark
merge_strings existing [] = existing
merge_strings existing (s ∷ additions) = merge_from (mark existing []) existing (s ∷ additions)

contains-append :
    (s : String) (xs ys : List String) → contains s (xs ++ ys) ≡ (contains s xs || contains s ys)
unfolding contains
contains-append s [] ys = refl
contains-append s (x ∷ xs) ys = ground (arith, contains-append s xs ys)

count-append : (s : String) (xs ys : List String) → count s (xs ++ ys) ≡ count s xs + count s ys
unfolding count
count-append s [] ys = omega arith
count-append s (x ∷ xs) ys = ground (arith, count-append s xs ys)

lookup-mark :
    (s : String) (xs : List String) (seen : Dict (Unit {0}))
    → is_some (lookup s (mark xs seen)) ≡ (contains s xs || is_some (lookup s seen))
unfolding mark contains
lookup-mark s [] seen = refl
lookup-mark s (x ∷ xs) seen =
    ground (arith, lookup-mark s xs (put x tt seen), lookup-put x s tt seen, eq_iff x s)

-- What the loop adds, where `seen` holds what `out` holds.
merge_from-count :
    (seen : Dict (Unit {0})) (out adds : List String) (s : String)
    → ((t : String) → is_some (lookup t seen) ≡ contains t out)
    → count s (merge_from seen out adds)
      ≡ count s out + (if contains s adds && not (contains s out) then 1 else 0)
unfolding merge_from contains count
merge_from-count seen out [] s h = omega arith
merge_from-count seen out (a ∷ adds) s h = elim (Bool-cases (is_some (lookup a seen))) [
  | inl old ↦
      rw (old, merge_from) (ground (arith, merge_from-count seen out adds s h, h a, eq_iff a s))
  | inr new ↦
      let ih = merge_from-count (put a tt seen) (out ++ a ∷ []) adds s (λ t.
        ground (arith, lookup-put a t tt seen, h t, contains-append t out (a ∷ []), eq_iff a t)) in
      rw (new, merge_from)
        (ground
          (arith, ih, count-append s out (a ∷ []), contains-append s out (a ∷ []), h a, eq_iff a s))
]

merge_from-prefix :
    (seen : Dict (Unit {0})) (out adds : List String)
    → (zs : List String) × (merge_from seen out adds ≡ out ++ zs)
unfolding merge_from
merge_from-prefix seen out [] = ([], sym (append-nil out))
merge_from-prefix seen out (a ∷ adds) = elim (Bool-cases (is_some (lookup a seen))) [
  | inl old ↦ rw (old, merge_from) (merge_from-prefix seen out adds)
  | inr new ↦
      let (zs, e) = merge_from-prefix (put a tt seen) (out ++ a ∷ []) adds in
      rw (new, merge_from) (a ∷ zs, e ∙ append_assoc out (a ∷ []) zs)
]

nothing_seen : (s : String) → is_some (lookup {V = Unit {0}} s []) ≡ false
unfolding lookup
nothing_seen s = refl

-- The union keeps the existing names in their places, and holds besides each of the other names
-- that was not there, once.
merge_strings_lem :
    (xs ys : List String)
    → ((zs : List String) × (merge_strings xs ys ≡ xs ++ zs))
      × ((s : String)
          → count s (merge_strings xs ys)
            ≡ count s xs + (if contains s ys && not (contains s xs) then 1 else 0))
unfolding merge_strings contains
merge_strings_lem xs [] = (([], sym (append-nil xs)), λ s. omega arith)
merge_strings_lem xs (a ∷ adds) = (
  merge_from-prefix (mark xs []) xs (a ∷ adds),
  λ s.
      merge_from-count (mark xs []) xs (a ∷ adds) s
        (λ t. ground (arith, lookup-mark t xs [], nothing_seen t)),
)

contains-count :
    (s : String) (xs : List String) → contains s xs ≡ (if eqb (count s xs) 0 then false else true)
unfolding contains count
contains-count s [] = refl
contains-count s (x ∷ xs) = ground (arith, contains-count s xs)

pub contains-merge_strings :
    (xs ys : List String) (s : String)
    → contains s (merge_strings xs ys) ≡ (contains s xs || contains s ys)
contains-merge_strings xs ys s = ground (
  arith,
  contains-count s (merge_strings xs ys),
  contains-count s xs,
  (merge_strings_lem xs ys).1 s,
)
