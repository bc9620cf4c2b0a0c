-- ===== src/Lifecycle/Seed/Tests.antt =====
-- A database of one table that is seeded twice, and an instance of what is proved of it.
use app_module_sdk.Base.{
  String, ◌≡◌, refl, ◌≢◌, Bool, true, false, not, none, some, List, [], ◌∷◌, ◌==◌, if◌then◌else◌,
}
use app_module_sdk.Task.Claims.{is_app_schema}
use app_module_sdk.Lifecycle.{Context, decoded, too_large}
use app_module_sdk.Lifecycle.Seed.{
  SeedRequest, SeedEnv, body_too_large, invalid_app_id, seed_failure, seed_success, is_empty,
  app_schema_name, seed, seed_all,
}
use app_module_sdk.Lifecycle.Seed.Rows.{IsReseed, seed_all-rows}

-- The state is the rows of the table; a chunk of rows that is "bad" is refused.
abbrev store : SeedEnv (List String)
store = record {
  sanitize = λ name. name;
  acquire = λ ctx s. (s, not (ctx.schema == "app_down"));
  exec = λ ctx sql s. (s, sql == "create");
  query_exists = λ ctx sql s. some (not (is_empty s));
  copy_from = λ ctx rows sql s. if rows == "bad" then (s, false) else (rows ∷ s, true);
  release = λ ctx s. s;
}

abbrev nowhere : Context
nowhere = record { schema = ""; credential = none }

abbrev chunk : String → Bool → String → SeedRequest
chunk app_id first rows = record {
  app_id = app_id;
  table = "t";
  columns = "c" ∷ [];
  create_sql = "create";
  data_rows = rows;
  first = first;
}

schema_test : app_schema_name "A1-b" ≡ some "app_a1_b"
unfolding app_schema_name is_app_schema
schema_test = refl

seed_test :
    (seed store nowhere (decoded (chunk "a" true "1")) [] ≡ (seed_success false, "1" ∷ []))
    × (seed store nowhere (decoded (chunk "a" true "2")) ("1" ∷ []) ≡ (seed_success true, "1" ∷ []))
    × (seed store nowhere (decoded (chunk "a" false "2")) ("1" ∷ [])
        ≡ (seed_success false, "2" ∷ "1" ∷ []))
    × (seed store nowhere (decoded (chunk "a b" true "1")) []
        ≡ (seed_failure 400 invalid_app_id, []))
    × (seed store nowhere too_large [] ≡ (seed_failure 413 body_too_large, []))
unfolding seed app_schema_name is_app_schema
seed_test = (refl, refl, refl, refl, refl)

exists_rows : (s : List String) → s ≢ [] → some (not (is_empty s)) ≢ some false
exists_rows [] full e = full refl
exists_rows (x ∷ s) full e = cc

reseed : (rows : String) → IsReseed store (λ s. s) "a" "t" (chunk "a" true rows)
reseed rows = record {
  is_first = refl;
  of_app = refl;
  of_table = refl;
  creates_only = λ ctx s. refl;
}

seed_all-rows_example :
    seed_all store nowhere (chunk "a" true "2" ∷ chunk "a" true "3" ∷ []) ("1" ∷ []) ≡ ("1" ∷ [])
seed_all-rows_example =
    seed_all-rows store nowhere "a" "t" (λ s. s) (λ ctx s. refl) (λ ctx s. refl)
      (λ schema s named full e. exists_rows s full e) (chunk "a" true "2" ∷ chunk "a" true "3" ∷ [])
      ("1" ∷ []) (reseed "2", (reseed "3", tt)) (λ e. cc)
