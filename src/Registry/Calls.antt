-- ===== src/Registry/Calls.antt =====
-- What the registry holds after any calls of its operations.
pub mod Routes
pub mod Valid
pub mod Returns
use app_module_sdk.Base.{
  String, ◌≡◌, refl, inl, inr, Bool, true, false, ◌&&◌, ◌||◌, Option, none, some, List, [], ◌∷◌,
  ◌++◌, ◌==◌, arith, eq_iff, eq_of_test, is_some, All, All-append, Bool-cases, Option-cases,
  if◌then◌else◌,
}
use app_module_sdk.Base.Dict.{Dict, lookup, put, IsDistinct, put-IsDistinct}
use app_module_sdk.Registry.Names.{validate_name, validate_dep_id, is_table_name}
use app_module_sdk.Registry.Named.{named, IsUnique, first_wins, first_wins-IsUnique, first_wins-All}
use app_module_sdk.Registry.Decls.{
  Route, Schedule, Task, Permission, Dependency, OutboundContribution, MetricDecl, McpToolDecl,
  McpResourceDecl,
}
use app_module_sdk.Registry.Dependencies.{add_dependency, redeclare}
use app_module_sdk.Registry.Dependencies.Keys.{add_dependency-IsUnique, add_dependency-All}
use app_module_sdk.Registry.{
  Registry, new, is_scope, has_route, or_nil, checked, add_route, add_emit, add_subscribe,
  add_schedule, add_task, add_permission_with_meta, add_metric, add_mcp_tool, add_mcp_resource,
  declare_dependency, contribute, add_exposed_table, require_storage, set_absorb_infra,
  set_description, set_readme,
}

-- A call of one of the operations that change the registry.
pub data Call (F H : Type 0) : Type 0 where
  routes : (scope method path : String) → Call F H
  emits : String → Call F H
  subscribes : (name path : String) → Call F H
  schedules : Schedule → Call F H
  tasks : Task F → Call F H
  permits : Permission → Call F H
  meters : MetricDecl → Call F H
  tools : McpToolDecl H → Call F H
  resources : McpResourceDecl H → Call F H
  depends : Dependency → Call F H
  contributes : OutboundContribution → Call F H
  exposes : String → Call F H
  requires_storage absorbs_infra : Call F H
  describes : String → Call F H
  documents : Dict String → Call F H

-- The operation without the Boolean that it returns.
abbrev pub changed : {A : Type 0} → Option (A × Bool) → Option A
changed none = none
changed (some (a, b)) = some a

module _ {F H : Type 0} where
  unfoldable pub step : Call F H → Registry F H → Option (Registry F H)
  step (routes scope method path) r = add_route scope method path r
  step (emits name) r = changed (add_emit name r)
  step (subscribes name path) r = changed (add_subscribe name path r)
  step (schedules s) r = changed (add_schedule s r)
  step (tasks t) r = changed (add_task t r)
  step (permits p) r = add_permission_with_meta p r
  step (meters d) r = some (add_metric d r).0
  step (tools t) r = changed (add_mcp_tool t r)
  step (resources t) r = changed (add_mcp_resource t r)
  step (depends dep) r = changed (declare_dependency dep r)
  step (contributes c) r = some (contribute c r)
  step (exposes name) r = add_exposed_table name r
  step requires_storage r = some (require_storage r)
  step absorbs_infra r = some (set_absorb_infra r)
  step (describes s) r = some (set_description s r)
  step (documents m) r = some (set_readme m r)

  -- Operations of the registry one after the other, of which the first panic is the last.
  unfoldable pub declare_all : List (Call F H) → Registry F H → Option (Registry F H)
  declare_all [] r = some r
  declare_all (call ∷ calls) r = elim (step call r) [ none ↦ none | some r' ↦ declare_all calls r' ]

-- No route stands twice.
abbrev pub IsUniqueRoutes : List Route → Type 0
IsUniqueRoutes [] = Unit
IsUniqueRoutes (r ∷ rs) = (has_route r.method r.path rs ≡ false) × IsUniqueRoutes rs

abbrev pub IsNamed {ℓ} : {A : Type ℓ} → (A → String) → A → Type 0
IsNamed name a = validate_name (name a) ≡ true

-- Each name is valid and stands once.
abbrev pub IsNamedOnce : {A : Type 0} → (A → String) → List A → Type 0
IsNamedOnce name xs = IsUnique name xs × All (IsNamed name) xs

abbrev pub HasScopes : Dict (List Route) → Type 0
HasScopes = All (λ p. (is_scope p.0 ≡ true) × IsUniqueRoutes p.1)

-- Routes lie in a known scope and stand there once, names are valid and stand once.
abbrev pub IsValid : {F H : Type 0} → Registry F H → Type 0
IsValid r =
    HasScopes r.routes
    × IsNamedOnce (λ s. s) r.emits
    × (IsDistinct r.subscribes × All (IsNamed (λ p. p.0)) r.subscribes)
    × IsNamedOnce (λ k. k.name) r.schedules
    × IsNamedOnce (λ k. k.name) r.tasks
    × IsNamedOnce (λ k. k.name) r.permissions
    × IsUnique (λ k. k.name) r.metrics
    × IsNamedOnce (λ k. k.name) r.mcp_tools
    × IsNamedOnce (λ k. k.name) r.mcp_resources
    × (IsUnique (λ d. d.id) r.dependencies × All (λ d. validate_dep_id d.id ≡ true) r.dependencies)
    × (IsUnique (λ s. s) r.exposed_tables × All (λ s. is_table_name s ≡ true) r.exposed_tables)
