-- ===== src/Registry/Tests.antt =====
-- Declarations of a module, and instances of what is proved of the registry.
use app_module_sdk.Base.{ℕ, String, ◌≡◌, refl, ◌⊎◌, true, false, none, some, List, [], ◌∷◌}
use app_module_sdk.Base.Dict.{lookup, put}
use app_module_sdk.Registry.Names.{validate_name, validate_dep_id, is_table_name}
use app_module_sdk.Registry.Named.{named, first_wins}
use app_module_sdk.Registry.Merge.{merge_strings}
use app_module_sdk.Registry.Decls.{Schedule, Dependency, OutboundContribution}
use app_module_sdk.Registry.Dependencies.Laws.{find, declare, is_declared, Sums, declare_lem}
use app_module_sdk.Registry.{Registry, new, add_emit, add_exposed_table}
use app_module_sdk.Registry.Calls.{Call, emits, exposes, step, declare_all, IsValid}
use app_module_sdk.Registry.Calls.Valid.{declare_all-new-IsValid}

names_test :
    (validate_name "video.uploaded" ≡ true)
    × (validate_name "a/b" ≡ false)
    × (validate_name "a..b" ≡ false)
    × (validate_name "" ≡ false)
    × (validate_dep_id "@anna/oauth-google" ≡ true)
    × (validate_dep_id "anna/oauth" ≡ false)
    × (validate_dep_id "Billing" ≡ false)
    × (is_table_name "order_items" ≡ true)
    × (is_table_name "1st" ≡ false)
unfolding validate_name validate_dep_id is_table_name
names_test = (refl, refl, refl, refl, refl, refl, refl, refl, refl)

abbrev nightly : Schedule
nightly = record { name = "nightly"; cron = "0 0 * * *"; path = "/n" }

abbrev hourly : Schedule
hourly = record { name = "nightly"; cron = "0 * * * *"; path = "/h" }

merge_strings_test : merge_strings ("a" ∷ "b" ∷ []) ("c" ∷ "a" ∷ "c" ∷ []) ≡ "a" ∷ "b" ∷ "c" ∷ []
unfolding merge_strings lookup put
merge_strings_test = refl

abbrev existing : List String
existing = "a" ∷ "b" ∷ []

abbrev additions : List String
additions = "c" ∷ "a" ∷ "c" ∷ []

-- An optional declaration and a required one of the same module.
abbrev both : List Dependency
both =
    (record {
      id = "oauth";
      version = "^1.0.0";
      optional = true;
      tables = "users" ∷ [];
      events = [];
    })
    ∷ (record {
      id = "oauth";
      version = "^2.0.0";
      optional = false;
      tables = [];
      events = "login" ∷ [];
    })
    ∷ []

declare_lem_example :
    ((is_declared "oauth" both ≡ false) × (find "oauth" (declare both []) ≡ none))
    ⊎ ((is_declared "oauth" both ≡ true)
        × ((e : Dependency) × (find "oauth" (declare both []) ≡ some e) × Sums "oauth" e both))
declare_lem_example = declare_lem both "oauth"

abbrev first_payload : OutboundContribution
first_payload = record { host = "oauth"; constraint = ""; slot = "provider"; payload = "1" }

abbrev second_payload : OutboundContribution
second_payload = record { host = "oauth"; constraint = "^1"; slot = "provider"; payload = "2" }

abbrev some_calls : List (Call ℕ ℕ)
some_calls = emits "a" ∷ emits "a" ∷ exposes "items" ∷ []

abbrev declared : Registry ℕ ℕ
declared = record {
  routes = [];
  emits = "a" ∷ [];
  subscribes = [];
  schedules = [];
  tasks = [];
  permissions = [];
  metrics = [];
  exposed_tables = "items" ∷ [];
  description = "";
  readme = [];
  dependencies = [];
  outbound_contributions = [];
  mcp_tools = [];
  mcp_resources = [];
  storage_required = false;
  absorb_infra = false;
}

declare_all-new-IsValid_example : IsValid declared
unfolding declare_all step new add_emit add_exposed_table first_wins named validate_name
    is_table_name
declare_all-new-IsValid_example = declare_all-new-IsValid some_calls declared refl
