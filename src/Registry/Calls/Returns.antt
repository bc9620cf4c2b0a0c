-- ===== src/Registry/Calls/Returns.antt =====
-- Which operations of the registry return, and which panic. The panics of internal/core on a name that
-- is declared twice are not among them: they are tests of the Boolean that an operation returns.
use app_module_sdk.Base.{Bool, true, ◌&&◌, List, [], ◌∷◌}
use app_module_sdk.Registry.Names.{validate_name, validate_dep_id, is_table_name}
use app_module_sdk.Registry.{Registry, is_scope}
use app_module_sdk.Registry.Calls.{
  Call, routes, emits, subscribes, schedules, tasks, permits, meters, tools, resources, depends,
  contributes, exposes, requires_storage, absorbs_infra, describes, documents,
}

-- The calls that return: their names are of the form that their kind asks for.
abbrev pub is_accepted : {F H : Type 0} → Call F H → Bool
is_accepted (routes scope _ _) = is_scope scope
is_accepted (emits name) = validate_name name
is_accepted (subscribes name _) = validate_name name
is_accepted (schedules s) = validate_name s.name
is_accepted (tasks t) = validate_name t.name
is_accepted (permits p) = validate_name p.name
is_accepted (meters d) = true
is_accepted (tools t) = validate_name t.name
is_accepted (resources t) = validate_name t.name
is_accepted (depends dep) = validate_dep_id dep.id
is_accepted (contributes c) = true
is_accepted (exposes name) = is_table_name name
is_accepted requires_storage = true
is_accepted absorbs_infra = true
is_accepted (describes s) = true
is_accepted (documents m) = true

abbrev pub all_accepted : {F H : Type 0} → List (Call F H) → Bool
all_accepted [] = true
all_accepted (call ∷ calls) = is_accepted call && all_accepted calls
