-- ===== src/Registry.antt =====
-- internal/registry: the declarations of a module, for the manifest (registry.go, exposure.go).
-- A panic is `none`. Copies of slices and maps are the values themselves. The lock makes each
-- operation one step.
pub mod Names
pub mod Named
pub mod Merge
pub mod Decls
pub mod Dependencies
pub mod Calls
mod Tests
use app_module_sdk.Base.{
  String, Bool, true, false, ◌&&◌, ◌||◌, not, Option, none, some, List, [], ◌∷◌, ◌++◌, ◌==◌,
  is_some, if◌then◌else◌,
}
use app_module_sdk.Base.Dict.{Dict, lookup, put}
use app_module_sdk.Registry.Names.{validate_name, validate_dep_id, is_table_name}
use app_module_sdk.Registry.Named.{named, first_wins, find_named}
use app_module_sdk.Registry.Decls.{
  Route, Schedule, Task, Permission, Dependency, OutboundContribution, MetricDecl, McpToolDecl,
  McpResourceDecl,
}
use app_module_sdk.Registry.Dependencies.{add_dependency, add_contribution}

pub record Registry (F H : Type 0) : Type 0 where
  pub routes : Dict (List Route)
  pub emits : List String
  pub subscribes : Dict String
  pub schedules : List Schedule
  pub tasks : List (Task F)
  pub permissions : List Permission
  pub metrics : List MetricDecl
  pub exposed_tables : List String
  pub description : String
  pub readme : Dict String
  pub dependencies : List Dependency
  pub outbound_contributions : List OutboundContribution
  pub mcp_tools : List (McpToolDecl H)
  pub mcp_resources : List (McpResourceDecl H)
  pub storage_required : Bool
  pub absorb_infra : Bool

-- `Scope.IsValid`
unfoldable pub is_scope : String → Bool
is_scope s = s == "platform" || s == "public" || s == "internal"

abbrev pub or_nil : {A : Type 0} → Option (List A) → List A
or_nil none = []
or_nil (some xs) = xs

pub has_route : String → String → List Route → Bool
has_route method path [] = false
has_route method path (r ∷ rs) = (r.method == method && r.path == path) || has_route method path rs

-- The end of an operation that validates first: it panics, or returns.
abbrev pub checked : {A : Type 0} → Bool → A → Option A
checked true a = some a
checked false a = none

module _ {F H : Type 0} where
  -- `New`
  unfoldable pub new : Registry F H
  new = record {
    routes = [];
    emits = [];
    subscribes = [];
    schedules = [];
    tasks = [];
    permissions = [];
    metrics = [];
    exposed_tables = [];
    description = "";
    readme = [];
    dependencies = [];
    outbound_contributions = [];
    mcp_tools = [];
    mcp_resources = [];
    storage_required = false;
    absorb_infra = false;
  }

  unfoldable pub require_storage : Registry F H → Registry F H
  require_storage r = record r { storage_required = true }

  unfoldable pub set_absorb_infra : Registry F H → Registry F H
  set_absorb_infra r = record r { absorb_infra = true }

  unfoldable pub set_description : String → Registry F H → Registry F H
  set_description s r = record r { description = s }

  unfoldable pub set_readme : Dict String → Registry F H → Registry F H
  set_readme m r = record r { readme = m }

  unfoldable pub add_route : String → String → String → Registry F H → Option (Registry F H)
  unfolding is_scope has_route
  add_route scope method path r =
      let known = or_nil (lookup scope r.routes) in
      checked (is_scope scope) (
        if has_route method path known then r else record r {
          routes = put scope (known ++ (record { method = method; path = path }) ∷ []) r.routes;
        })

  -- The routes of one scope.
  unfoldable pub routes_of : String → Registry F H → List Route
  routes_of scope r = or_nil (lookup scope r.routes)

  unfoldable pub add_emit : String → Registry F H → Option (Registry F H × Bool)
  add_emit name r =
      let (xs, added) = first_wins (λ s. s) name r.emits in
      checked (validate_name name) (record r { emits = xs }, added)

  unfoldable pub add_subscribe : String → String → Registry F H → Option (Registry F H × Bool)
  add_subscribe name path r = checked (validate_name name) (
      if is_some (lookup name r.subscribes)
      then (r, false)
      else (record r { subscribes = put name path r.subscribes }, true))

  unfoldable pub add_schedule : Schedule → Registry F H → Option (Registry F H × Bool)
  add_schedule s r =
      let (xs, added) = first_wins (λ k. k.name) s r.schedules in
      checked (validate_name s.name) (record r { schedules = xs }, added)

  unfoldable pub add_task : Task F → Registry F H → Option (Registry F H × Bool)
  add_task t r =
      let (xs, added) = first_wins (λ k. k.name) t r.tasks in
      checked (validate_name t.name) (record r { tasks = xs }, added)

  -- `AddPermissionWithMeta`
  unfoldable pub add_permission_with_meta : Permission → Registry F H → Option (Registry F H)
  add_permission_with_meta p r =
      checked (validate_name p.name)
        (record r { permissions = (first_wins (λ k. k.name) p r.permissions).0 })

  unfoldable pub add_permission : String → List String → Registry F H → Option (Registry F H)
  unfolding add_permission_with_meta
  add_permission name roles =
      add_permission_with_meta
        (record { name = name; roles = roles; default_role = ""; labels = []; descriptions = [] })

  unfoldable pub permission_roles : String → Registry F H → Option (List String)
  permission_roles name r = elim (find_named (λ k. k.name) name r.permissions) [
    | none ↦ none
    | some p ↦ some p.roles
  ]

  -- No name of a metric panics here.
  unfoldable pub add_metric : MetricDecl → Registry F H → Registry F H × Bool
  add_metric d r =
      let (xs, added) = first_wins (λ k. k.name) d r.metrics in (record r { metrics = xs }, added)

  unfoldable pub add_mcp_tool : McpToolDecl H → Registry F H → Option (Registry F H × Bool)
  add_mcp_tool t r =
      let (xs, added) = first_wins (λ k. k.name) t r.mcp_tools in
      checked (validate_name t.name) (record r { mcp_tools = xs }, added)

  unfoldable pub add_mcp_resource : McpResourceDecl H → Registry F H → Option (Registry F H × Bool)
  add_mcp_resource t r =
      let (xs, added) = first_wins (λ k. k.name) t r.mcp_resources in
      checked (validate_name t.name) (record r { mcp_resources = xs }, added)

  unfoldable pub mcp_tool : String → Registry F H → Option (McpToolDecl H)
  mcp_tool name r = find_named (λ k. k.name) name r.mcp_tools

  unfoldable pub mcp_resource : String → Registry F H → Option (McpResourceDecl H)
  mcp_resource name r = find_named (λ k. k.name) name r.mcp_resources

  unfoldable pub declare_dependency : Dependency → Registry F H → Option (Registry F H × Bool)
  unfolding add_dependency
  declare_dependency dep r =
      let (ds, changed) = add_dependency dep r.dependencies in
      checked (validate_dep_id dep.id) (record r { dependencies = ds }, changed)

  unfoldable pub contribute : OutboundContribution → Registry F H → Registry F H
  unfolding add_contribution
  contribute c r = record r { outbound_contributions = add_contribution c r.outbound_contributions }

  unfoldable pub add_exposed_table : String → Registry F H → Option (Registry F H)
  add_exposed_table name r =
      checked (is_table_name name)
        (record r { exposed_tables = (first_wins (λ s. s) name r.exposed_tables).0 })
