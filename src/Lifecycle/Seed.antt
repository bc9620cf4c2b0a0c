-- ===== src/Lifecycle/Seed.antt =====
-- `SeedHandler` of system/lifecycle.go, and `AppSchemaName` of internal/runtime/lambda.go: one chunk
-- of rows for one table. The connection and the quoting of a name are pgx's: fields of `SeedEnv`.
pub mod Rows
mod Tests
use Prim.Native.Char.{Char, code}
use Prim.Native.String.{◌++◌}
use app_module_sdk.Base.{
  ℕ, zero, suc, ◌-◌, String, Bool, true, false, ◌&&◌, ◌||◌, Option, none, some, List, [], ◌∷◌, ◌==◌,
  eqb, leb, map, if◌then◌else◌,
}
use app_module_sdk.Task.Claims.{is_app_schema}
use app_module_sdk.Lifecycle.{Context, Body, decoded, too_large}

pub record SeedRequest : Type 0 where
  pub app_id : String
  pub table : String
  pub columns : List String
  pub create_sql : String
  pub data_rows : String
  pub first : Bool

-- The causes behind the error texts.
pub data SeedProblem : Type 0 where
  body_too_large invalid_body table_and_columns_required invalid_app_id : SeedProblem
  acquire_failed create_failed check_failed copy_failed : SeedProblem

-- `SeedResponse` or `ErrorResponse`, with the status code.
pub record SeedResponse : Type 0 where
  pub status : ℕ
  pub skipped : Bool
  pub problem : Option SeedProblem

abbrev pub seed_failure : ℕ → SeedProblem → SeedResponse
seed_failure status p = record { status = status; skipped = false; problem = some p }

abbrev pub seed_success : Bool → SeedResponse
seed_success skipped = record { status = 200; skipped = skipped; problem = none }

-- What the handler calls: `acquire`, `Exec`, the query of one Boolean, `CopyFrom` and `release`. A
-- step of the database gives its next state, and false for an error.
pub record SeedEnv (S : Type 0) : Type 0 where
  pub sanitize : String → String
  pub acquire : Context → S → S × Bool
  pub exec : Context → String → S → S × Bool
  pub query_exists : Context → String → S → Option Bool
  pub copy_from : Context → String → String → S → S × Bool
  pub release : Context → S → S

-- The character at a position, or the given one.
abbrev pub char_at : ℕ → String → Char → Char
char_at n String.[] other = other
char_at zero (String.◌∷◌ c s) other = c
char_at (suc n) (String.◌∷◌ c s) other = char_at n s other

-- `unicode.ToLower` on the letters A to Z and on the two characters beyond ASCII that it takes to an
-- ASCII letter. What it makes of the others is not in the pattern, and neither are they.
abbrev pub lower : Char → Char
lower c =
    if leb 65 (code c) && leb (code c) 90
    then char_at (code c - 65) "abcdefghijklmnopqrstuvwxyz" c
    else if eqb (code c) 304
    then char_at 0 "i" c
    else if eqb (code c) 8490
    then char_at 0 "k" c
    else c

-- `strings.ReplaceAll(strings.ToLower(s), "-", "_")`
unfoldable pub schema_suffix : String → String
schema_suffix String.[] = ""
schema_suffix (String.◌∷◌ c s) =
    String.◌∷◌ (if eqb (code c) 45 then char_at 0 "_" c else lower c) (schema_suffix s)

-- `AppSchemaName`
unfoldable pub app_schema_name : String → Option String
unfolding schema_suffix
app_schema_name app_id =
    let schema = "app_" ++ schema_suffix app_id in
    if is_app_schema schema then some schema else none

-- `strings.Join(xs, ", ")`
unfoldable pub join : List String → String
join [] = ""
join (x ∷ []) = x
join (x ∷ y ∷ xs) = x ++ ", " ++ join (y ∷ xs)

-- `writeBodyDecodeError`
abbrev pub seed_body_error : Body SeedRequest → SeedResponse
seed_body_error too_large = seed_failure 413 body_too_large
seed_body_error _ = seed_failure 400 invalid_body

abbrev pub is_empty : List String → Bool
is_empty [] = true
is_empty (x ∷ xs) = false

module _ {S : Type 0} (env : SeedEnv S) (ctx : Context) where
  -- The query of `seedTableIsEmpty`.
  abbrev pub exists_sql : String → String
  exists_sql table = "SELECT EXISTS (SELECT 1 FROM " ++ env.sanitize table ++ " LIMIT 1)"

  -- `Sprintf("COPY %s (%s) FROM STDIN", ...)`
  abbrev pub copy_sql : SeedRequest → String
  copy_sql req =
      "COPY "
      ++ env.sanitize req.table
      ++ " ("
      ++ join (map env.sanitize req.columns)
      ++ ") FROM STDIN"

  abbrev pub after_copy : S × Bool → SeedResponse × S
  after_copy (s, true) = (seed_success false, s)
  after_copy (s, false) = (seed_failure 500 copy_failed, s)

  -- The rows of the chunk, when it has any.
  unfoldable pub copy_rows : SeedRequest → S → SeedResponse × S
  copy_rows req s =
      if req.data_rows == ""
      then (seed_success false, s)
      else after_copy (env.copy_from ctx req.data_rows (copy_sql req) s)

  -- `seedTableIsEmpty`, its answer negated, and what follows it: a table with rows is left alone.
  unfoldable pub after_check : SeedRequest → S → Option Bool → SeedResponse × S
  unfolding copy_rows
  after_check req s none = (seed_failure 500 check_failed, s)
  after_check req s (some true) = (seed_success true, s)
  after_check req s (some false) = copy_rows req s

  unfoldable pub after_create : SeedRequest → S × Bool → SeedResponse × S
  unfolding after_check
  after_create req (s, true) = after_check req s (env.query_exists ctx (exists_sql req.table) s)
  after_create req (s, false) = (seed_failure 500 create_failed, s)

  abbrev pub create_table : SeedRequest → S → S × Bool
  create_table req s = if req.create_sql == "" then (s, true) else env.exec ctx req.create_sql s

  -- A chunk on its connection, which is released at the end.
  unfoldable pub seed_chunk : SeedRequest → S → SeedResponse × S
  unfolding after_create
  seed_chunk req s =
      let (r, s') =
        (if req.first then after_create req (create_table req s) else copy_rows req s) in
      (r, env.release ctx s')

  unfoldable pub after_acquire : SeedRequest → S × Bool → SeedResponse × S
  unfolding seed_chunk
  after_acquire req (s, true) = seed_chunk req s
  after_acquire req (s, false) = (seed_failure 500 acquire_failed, s)

module _ {S : Type 0} (env : SeedEnv S) (request : Context) where
  unfoldable pub with_schema : SeedRequest → Option String → S → SeedResponse × S
  unfolding after_acquire
  with_schema req none s = (seed_failure 400 invalid_app_id, s)
  with_schema req (some schema) s =
      let ctx = record request { schema = schema } in after_acquire env ctx req (env.acquire ctx s)

  -- `SeedHandler`
  unfoldable pub seed : Body SeedRequest → S → SeedResponse × S
  unfolding with_schema
  seed (decoded req) s =
      if req.table == "" || is_empty req.columns
      then (seed_failure 400 table_and_columns_required, s)
      else with_schema req (app_schema_name req.app_id) s
  seed body s = (seed_body_error body, s)

  -- Chunks that arrive one after the other.
  unfoldable pub seed_all : List SeedRequest → S → S
  unfolding seed
  seed_all [] s = s
  seed_all (req ∷ reqs) s = seed_all reqs (seed (decoded req) s).1
