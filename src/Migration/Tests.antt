-- ===== src/Migration/Tests.antt =====
-- A module with three migrations, and instances of what is proved of the executor.
use Prim.Native.String
use app_module_sdk.Base.{
  String, ◌≡◌, refl, ap, subst, ne_of_test, ◌||◌, Bool, true, false, Option, none, some, List, [],
  ◌∷◌, ◌==◌, arith, All, map, reverse, if◌then◌else◌,
}
use app_module_sdk.Base.Int.{pos}
use app_module_sdk.Base.Atoi.{atoi, atoi_value, parse_int}
use app_module_sdk.Migration.{
  Migration, ok, exec_failed, slice, slice_down, apply, apply_down, run_file, run_all,
}
use app_module_sdk.Migration.Window.{IsAscending}
use app_module_sdk.Migration.Slices.{slice_down-slice}
use app_module_sdk.Migration.Runs.{Report, run_all-Report, Undoes, apply_down-apply, versions}
use app_module_sdk.Migration.Files.{app, DirEntry, entries, count, list}
use app_module_sdk.Migration.Files.Laws.{list_lem, has_up_file}
use app_module_sdk.Migration.Files.Order.{by_insertion}

abbrev migration : String → Migration
migration v = record {
  version = v;
  name = "n";
  up_file = String.◌++◌ v ".up";
  down_file = String.◌++◌ v ".down";
}

abbrev three : List Migration
three = migration "1" ∷ migration "2" ∷ migration "3" ∷ []

ascending : IsAscending (pos 0) three
unfolding atoi_value parse_int
ascending = (omega arith, (omega arith, (omega arith, tt)))

slice_test : slice three "1" "3" ≡ ok (migration "2" ∷ migration "3" ∷ [])
unfolding slice atoi parse_int
slice_test = refl

slice_down_test : slice_down three "3" "1" ≡ ok (migration "3" ∷ migration "2" ∷ [])
unfolding slice_down atoi parse_int
slice_down_test = refl

slice_down-slice_example : slice three "1" "3" ≡ ok (reverse (migration "3" ∷ migration "2" ∷ []))
slice_down-slice_example =
    slice_down-slice three "3" "1" (migration "3" ∷ migration "2" ∷ []) ascending
      (ne_of_test "3" "" refl) slice_down_test

-- A database that records what ran: an up file puts its name on the record, a down file takes the
-- last one off, and "3.up" does not run.
abbrev pop : List String → List String × Bool
pop [] = ([], false)
pop (x ∷ s) = (s, true)

abbrev run_sql : String → List String → List String × Bool
run_sql sql s =
    if sql == "3.up"
    then (s, false)
    else if sql == "1.up" || sql == "2.up"
    then (sql ∷ s, true)
    else pop s

abbrev read : String → Option String
read file = some file

run_all-Report_example :
    Report read run_sql (λ m. m.up_file) three [] (run_all read run_sql (λ m. m.up_file) three [])
run_all-Report_example = run_all-Report read run_sql (λ m. m.up_file) three []

apply_test :
    apply read run_sql three []
    ≡ record { done = "1" ∷ "2" ∷ []; error = some (exec_failed "3"); state = "2.up" ∷ "1.up" ∷ [] }
unfolding apply run_all run_file
apply_test = refl

abbrev two : List Migration
two = migration "1" ∷ migration "2" ∷ []

-- The second migration cannot be taken back.
abbrev one_way : List Migration
one_way =
    migration "1" ∷ (record { version = "2"; name = "n"; up_file = "2.up"; down_file = "" }) ∷ []

undone : All (Undoes read run_sql) two
unfolding run_file
undone = (
  (
    ne_of_test "1.down" "" refl,
    λ s s' h. subst (λ q. run_file read run_sql "1" "1.down" q ≡ (s, none)) (ap (λ p. p.0) h) refl,
  ),
  (
    (
      ne_of_test "2.down" "" refl,
      λ s s' h.
          subst (λ q. run_file read run_sql "2" "2.down" q ≡ (s, none)) (ap (λ p. p.0) h) refl,
    ),
    tt,
  ),
)

apply_down-apply_example :
    apply_down read run_sql (reverse two) (apply read run_sql two []).state
    ≡ record { done = versions (reverse two); error = none; state = [] }
unfolding apply run_all run_file
apply_down-apply_example = apply_down-apply read run_sql two [] undone refl

abbrev files : List DirEntry
files =
    (record { name = "0002_b.up.sql"; is_dir = false })
    ∷ (record { name = "0001_a.up.sql"; is_dir = false })
    ∷ (record { name = "0001_a.down.sql"; is_dir = false })
    ∷ (record { name = "0003_c.up.sql"; is_dir = true })
    ∷ []

list_lem_example :
    (ms : List Migration) × (list by_insertion app (entries files) ≡ ok ms)
    × IsAscending (pos 0) ms
    × ((v : String) → count v (map (λ m. m.version) ms) ≡ (if has_up_file v files then 1 else 0))
list_lem_example = list_lem by_insertion app files
