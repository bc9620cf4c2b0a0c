-- ===== src/Registry/Dependencies/Keys.antt =====
-- The ids of the dependencies: each stands once, and is of the form that was asked for.
use app_module_sdk.Base.{
  String, ◌≡◌, refl, inl, inr, Bool, true, ◌||◌, List, [], ◌∷◌, ◌==◌, arith, All, eq_iff,
  Bool-cases,
}
use app_module_sdk.Registry.Decls.{Dependency}
use app_module_sdk.Registry.Named.{IsUnique, named}
use app_module_sdk.Registry.Dependencies.{add_dependency}
use app_module_sdk.Registry.Dependencies.Laws.{redeclare-id}

named-add_dependency :
    (dep : Dependency) (ds : List Dependency) (id : String)
    → named (λ d. d.id) id (add_dependency dep ds).0 ≡ (named (λ d. d.id) id ds || dep.id == id)
unfolding add_dependency named
named-add_dependency dep [] id = ground arith
named-add_dependency dep (d ∷ ds) id =
    ground (arith, named-add_dependency dep ds id, redeclare-id dep d, eq_iff d.id dep.id)

pub add_dependency-IsUnique :
    (dep : Dependency) (ds : List Dependency)
    → IsUnique (λ d. d.id) ds
    → IsUnique (λ d. d.id) (add_dependency dep ds).0
unfolding add_dependency named
add_dependency-IsUnique dep [] h = (refl, tt)
add_dependency-IsUnique dep (d ∷ ds) (p, h) = elim (Bool-cases (d.id == dep.id)) [
  | inl same ↦ rw (same, add_dependency) (rw (redeclare-id dep d) p, h)
  | inr other ↦
      rw (other, add_dependency)
        (
          ground (arith, named-add_dependency dep ds d.id, eq_iff d.id dep.id, eq_iff dep.id d.id),
          add_dependency-IsUnique dep ds h,
        )
]

pub add_dependency-All :
    (p : String → Bool) (dep : Dependency) (ds : List Dependency)
    → p dep.id ≡ true
    → All (λ d. p d.id ≡ true) ds
    → All (λ d. p d.id ≡ true) (add_dependency dep ds).0
unfolding add_dependency
add_dependency-All p dep [] h k = (h, tt)
add_dependency-All p dep (d ∷ ds) h (q, k) = elim (Bool-cases (d.id == dep.id)) [
  | inl same ↦ rw (same, add_dependency) (rw (redeclare-id dep d) q, k)
  | inr other ↦ rw (other, add_dependency) (q, add_dependency-All p dep ds h k)
]
