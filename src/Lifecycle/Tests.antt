-- ===== src/Lifecycle/Tests.antt =====
-- A module of two migrations that is upgraded and downgraded, and instances of what is proved.
use mathlib.Core.Path.{fun_ext}
use app_module_sdk.Base.{
  String, ◌≡◌, refl, sym, ◌∙◌, ap, subst, ne_of_test, eq-false_of_ne, Bool, true, false, ◌||◌, none,
  some, List, [], ◌∷◌, ◌==◌, arith, All, reverse, if◌then◌else◌,
}
use app_module_sdk.Base.Dict.{lookup, put}
use app_module_sdk.Base.Int.{pos}
use app_module_sdk.Base.Atoi.{atoi, parse_int, atoi_value}
use app_module_sdk.Migration.{Migration, ok, run_file, apply, slice}
use app_module_sdk.Migration.Slices.{ok-injective}
use app_module_sdk.Migration.Runs.{Undoes}
use app_module_sdk.Migration.Files.{
  app, DirEntry, entries, parse_up_filename, parse_down_filename, list,
}
use app_module_sdk.Migration.Files.Order.{insertion_sort, by_insertion}
use app_module_sdk.Lifecycle.{
  InstallRequest, UpgradeRequest, Body, decoded, Context, Response, Env, empty_request, install,
  upgrade, downgrade, uninstall, inject_lifecycle, decode_upgrade, run_upgrade, applied_response,
}
use app_module_sdk.Lifecycle.Gate.{agreeing, running, deployed_scoped}
use app_module_sdk.Lifecycle.Verbs.{upgrade_twice, downgrade-upgrade}

abbrev files : List DirEntry
files =
    (record { name = "2_b.up.sql"; is_dir = false })
    ∷ (record { name = "2_b.down.sql"; is_dir = false })
    ∷ (record { name = "1_a.up.sql"; is_dir = false })
    ∷ (record { name = "1_a.down.sql"; is_dir = false })
    ∷ []

-- An up file puts its name on the record of the database, any other file takes the last one off.
abbrev pop : List String → List String × Bool
pop [] = ([], false)
pop (x ∷ s) = (s, true)

abbrev run_sql : String → List String → List String × Bool
run_sql sql s =
    if sql == "sql/app/1_a.up.sql" || sql == "sql/app/2_b.up.sql" then (sql ∷ s, true) else pop s

abbrev env : Env (List String)
env = record {
  deployed = false;
  base = none;
  sort = by_insertion;
  listing = entries files;
  read_file = λ file. some file;
  run_tx = λ ctx. run_sql;
  provision = none;
}

abbrev nowhere : Context
nowhere = record { schema = ""; credential = none }

abbrev from_to : String → String → UpgradeRequest
from_to a b = record { from = a; to = b; install = empty_request }

abbrev applied_only : List String → Response
applied_only vs = record { status = 200; applied = vs; reverted = []; problem = none }

upgrade_test :
    upgrade env app nowhere (decoded (from_to "0" "2")) []
    ≡ (applied_only ("1" ∷ "2" ∷ []), "sql/app/2_b.up.sql" ∷ "sql/app/1_a.up.sql" ∷ [])
unfolding upgrade inject_lifecycle decode_upgrade run_upgrade applied_response list apply slice atoi
    parse_int insertion_sort parse_up_filename parse_down_filename put atoi_value run_file lookup
upgrade_test = refl

first_step :
    upgrade env app nowhere (decoded (from_to "0" "1")) []
    ≡ (applied_only ("1" ∷ []), "sql/app/1_a.up.sql" ∷ [])
unfolding upgrade inject_lifecycle decode_upgrade run_upgrade applied_response list apply slice atoi
    parse_int insertion_sort parse_up_filename parse_down_filename put atoi_value run_file lookup
first_step = refl

second_step :
    upgrade env app nowhere (decoded (from_to "1" "2")) ("sql/app/1_a.up.sql" ∷ [])
    ≡ (applied_only ("2" ∷ []), "sql/app/2_b.up.sql" ∷ "sql/app/1_a.up.sql" ∷ [])
unfolding upgrade inject_lifecycle decode_upgrade run_upgrade applied_response list apply slice atoi
    parse_int insertion_sort parse_up_filename parse_down_filename put atoi_value run_file lookup
second_step = refl

upgrade_twice_example :
    upgrade env app nowhere (decoded (from_to "0" "2")) []
    ≡ (applied_only ("1" ∷ "2" ∷ []), "sql/app/2_b.up.sql" ∷ "sql/app/1_a.up.sql" ∷ [])
unfolding atoi parse_int
upgrade_twice_example =
    upgrade_twice env app nowhere empty_request "0" "1" "2" (pos 0) (pos 1) (pos 2) []
      ("sql/app/1_a.up.sql" ∷ []) ("sql/app/2_b.up.sql" ∷ "sql/app/1_a.up.sql" ∷ [])
      (applied_only ("1" ∷ [])) (applied_only ("2" ∷ [])) refl refl refl refl (omega arith)
      (omega arith) first_step refl second_step refl

abbrev both : List Migration
both =
    (record {
      version = "1";
      name = "a";
      up_file = "sql/app/1_a.up.sql";
      down_file = "sql/app/1_a.down.sql";
    })
    ∷ (record {
      version = "2";
      name = "b";
      up_file = "sql/app/2_b.up.sql";
      down_file = "sql/app/2_b.down.sql";
    })
    ∷ []

listed : list by_insertion app (entries files) ≡ ok both
unfolding list atoi parse_int insertion_sort parse_up_filename parse_down_filename put atoi_value
    lookup
listed = refl

undone : All (Undoes (λ file. some file) run_sql) both
unfolding run_file
undone = (
  (
    ne_of_test "sql/app/1_a.down.sql" "" refl,
    λ s s' h.
        subst (λ q. run_file (λ file. some file) run_sql "1" "sql/app/1_a.down.sql" q ≡ (s, none))
          (ap (λ p. p.0) h) refl,
  ),
  (
    (
      ne_of_test "sql/app/2_b.down.sql" "" refl,
      λ s s' h.
          subst (λ q. run_file (λ file. some file) run_sql "2" "sql/app/2_b.down.sql" q ≡ (s, none))
            (ap (λ p. p.0) h) refl,
    ),
    tt,
  ),
)

downgrade-upgrade_example :
    downgrade env app nowhere
      (decoded (from_to "2" "0"))
      ("sql/app/2_b.up.sql" ∷ "sql/app/1_a.up.sql" ∷ [])
    ≡ (
      record { status = 200; applied = []; reverted = reverse ("1" ∷ "2" ∷ []); problem = none },
      [],
    )
unfolding atoi parse_int
downgrade-upgrade_example =
    downgrade-upgrade env app nowhere empty_request "0" "2" (pos 0) (pos 2) []
      ("sql/app/2_b.up.sql" ∷ "sql/app/1_a.up.sql" ∷ []) (applied_only ("1" ∷ "2" ∷ [])) refl
      (λ ctx all l.
        subst (All (Undoes (λ file. some file) run_sql)) (ok-injective (sym listed ∙ l)) undone)
      refl refl (omega arith) upgrade_test refl

abbrev deployed_env : Env (List String)
deployed_env = record env { deployed = true }

abbrev fails_unscoped : Context → String → List String → List String × Bool
fails_unscoped ctx sql s = if ctx.schema == "" then (s, false) else run_sql sql s

-- A setup that fails without a schema, and one that does not look.
abbrev sets_up : Context → List String → List String × Bool
sets_up ctx s = ("store" ∷ s, true)

abbrev looks_first : Context → List String → List String × Bool
looks_first ctx s = if ctx.schema == "" then (s, false) else ("store" ∷ s, true)

abbrev careful : Env (List String)
careful = running deployed_env fails_unscoped (some looks_first)

abbrev careless : Env (List String)
careless = running deployed_env (λ ctx. run_sql) (some sets_up)

deployed_scoped_example :
    ((body : Body InstallRequest)
      → install careful app nowhere body [] ≡ install careless app nowhere body [])
    × ((body : Body UpgradeRequest)
        → (upgrade careful app nowhere body [] ≡ upgrade careless app nowhere body [])
          × (downgrade careful app nowhere body [] ≡ downgrade careless app nowhere body []))
    × (uninstall careful [] ≡ uninstall careless [])
deployed_scoped_example =
    deployed_scoped deployed_env refl fails_unscoped (λ ctx. run_sql)
      (λ ctx named. fun_ext (λ sql. fun_ext (λ s. rw (eq-false_of_ne ctx.schema "" named))))
      (some looks_first) (some sets_up)
      (agreeing looks_first sets_up
        (λ ctx named. fun_ext (λ s. rw (eq-false_of_ne ctx.schema "" named))))
      app nowhere []
