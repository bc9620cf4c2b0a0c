-- ===== src/Registry/Calls/Routes.antt =====
-- The routes of a registry, scope by scope.
use app_module_sdk.Base.{
  String, ◌≡◌, refl, subst, inl, inr, true, false, ◌||◌, some, List, [], ◌∷◌, ◌++◌, ◌==◌, arith,
  eq_iff, eq_of_test, All, Bool-cases, Option-cases,
}
use app_module_sdk.Base.Dict.{Dict, lookup, put}
use app_module_sdk.Registry.Decls.{Route}
use app_module_sdk.Registry.{is_scope, has_route, or_nil}
use app_module_sdk.Registry.Calls.{IsUniqueRoutes}

pub All-put :
    {V : Type 0} (P : String × V → Type 0) (k : String) (v : V) (m : Dict V)
    → P (k, v)
    → All P m
    → All P (put k v m)
unfolding put
All-put P k v [] p h = (p, tt)
All-put P k v ((j, w) ∷ m) p (q, h) = elim (Bool-cases (j == k)) [
  | inl same ↦ rw (same, put) (p, h)
  | inr other ↦ rw (other, put) (q, All-put P k v m p h)
]

pub lookup-All :
    {V : Type 0} (P : String × V → Type 0) (k : String) (m : Dict V) {v : V}
    → All P m
    → lookup k m ≡ some v
    → P (k, v)
unfolding lookup
lookup-All P k [] h e = cc
lookup-All P k ((j, w) ∷ m) {v} (p, h) e = elim (Bool-cases (j == k)) [
  | inl same ↦ let at : some w ≡ some v = rw same at e in subst P (cc (eq_of_test j k same, at)) p
  | inr other ↦ lookup-All P k m h (rw other at e)
]

has_route-append :
    (method path : String) (xs ys : List Route)
    → has_route method path (xs ++ ys) ≡ (has_route method path xs || has_route method path ys)
unfolding has_route
has_route-append method path [] ys = refl
has_route-append method path (x ∷ xs) ys = ground (arith, has_route-append method path xs ys)

pub IsUniqueRoutes-snoc :
    (xs : List Route) (r : Route)
    → IsUniqueRoutes xs
    → has_route r.method r.path xs ≡ false
    → IsUniqueRoutes (xs ++ r ∷ [])
unfolding has_route
IsUniqueRoutes-snoc [] r h e = (refl, tt)
IsUniqueRoutes-snoc (x ∷ xs) r (p, h) e = (
  ground (
    arith,
    has_route-append x.method x.path xs (r ∷ []),
    eq_iff x.method r.method,
    eq_iff r.method x.method,
    eq_iff x.path r.path,
    eq_iff r.path x.path,
  ),
  IsUniqueRoutes-snoc xs r h (ground arith),
)

-- The routes of a scope.
pub known_routes :
    (scope : String) (m : Dict (List Route))
    → All (λ p. (is_scope p.0 ≡ true) × IsUniqueRoutes p.1) m
    → IsUniqueRoutes (or_nil (lookup scope m))
known_routes scope m h = elim (Option-cases (lookup scope m)) [
  | inl e ↦ rw e tt
  | inr (rs, e) ↦ rw e (lookup-All (λ p. (is_scope p.0 ≡ true) × IsUniqueRoutes p.1) scope m h e).1
]
