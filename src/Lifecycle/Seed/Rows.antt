-- ===== src/Lifecycle/Seed/Rows.antt =====
-- What a first chunk does to a table that already has rows.
use app_module_sdk.Base.{
  String, ◌≡◌, refl, ◌∙◌, ◌≢◌, Bool, true, false, Option, none, some, List, [], ◌∷◌, ◌==◌, All,
  if◌then◌else◌,
}
use app_module_sdk.Lifecycle.{Context, decoded}
use app_module_sdk.Lifecycle.Seed.{
  SeedRequest, SeedResponse, SeedEnv, app_schema_name, exists_sql, after_check, after_create,
  create_table, seed_chunk, after_acquire, with_schema, seed, seed_all,
}

-- A first chunk for a table of an application, whose create statement leaves the rows of a table
-- that is there (`CREATE TABLE IF NOT EXISTS`).
pub record IsReseed {S : Type 0} (env : SeedEnv S) (rows : S → List String)
    (application relation : String) (req : SeedRequest) : Type 0 where
  pub is_first : req.first ≡ true
  pub of_app : req.app_id ≡ application
  pub of_table : req.table ≡ relation
  pub creates_only : (ctx : Context) (s : S) → rows (env.exec ctx req.create_sql s).0 ≡ rows s

module _ {S : Type 0} (env : SeedEnv S) (request : Context) (application relation : String)
    (rows : S → List String)
    (acquire_keeps : (ctx : Context) (s : S) → rows (env.acquire ctx s).0 ≡ rows s)
    (release_keeps : (ctx : Context) (s : S) → rows (env.release ctx s) ≡ rows s)
    (exists_sound : (schema : String) (s : S)
      → app_schema_name application ≡ some schema
      → rows s ≢ []
      → env.query_exists
          (record request { schema = schema })
          (exists_sql env (record request { schema = schema }) relation)
          s
        ≢ some false) where
  after_check-rows :
      (ctx : Context) (req : SeedRequest) (s : S) (answer : Option Bool)
      → answer ≢ some false
      → rows (after_check env ctx req s answer).1 ≡ rows s
  unfolding after_check
  after_check-rows ctx req s none h = refl
  after_check-rows ctx req s (some true) h = refl
  after_check-rows ctx req s (some false) h = absurd (h refl)

  create_table-if :
      (ctx : Context) (req : SeedRequest) (s : S) (b : Bool)
      → IsReseed env rows application relation req
      → rows (if b then (s, true) else env.exec ctx req.create_sql s).0 ≡ rows s
  create_table-if ctx req s true h = refl
  create_table-if ctx req s false h = h.creates_only ctx s

  after_create-rows :
      (schema : String) (req : SeedRequest) (made : S × Bool)
      → app_schema_name application ≡ some schema
      → req.table ≡ relation
      → rows made.0 ≢ []
      → rows (after_create env (record request { schema = schema }) req made).1 ≡ rows made.0
  unfolding after_create
  after_create-rows schema req (s, false) named t full = refl
  after_create-rows schema req (s, true) named t full =
      after_check-rows (record request { schema = schema }) req s _
        (rw t (exists_sound schema s named full))

  seed_chunk-rows :
      (schema : String) (req : SeedRequest) (s : S)
      → app_schema_name application ≡ some schema
      → IsReseed env rows application relation req
      → rows s ≢ []
      → rows (seed_chunk env (record request { schema = schema }) req s).1 ≡ rows s
  unfolding seed_chunk
  seed_chunk-rows schema req s named h full =
      let ctx : Context = record request { schema = schema } in
      let made = create_table-if ctx req s (req.create_sql == "") h in
      rw h.is_first (
        release_keeps ctx _
        ∙ after_create-rows schema req (create_table env ctx req s) named h.of_table
            (λ e. full (rw made at e))
        ∙ made)

  after_acquire-rows :
      (schema : String) (req : SeedRequest) (got : S × Bool)
      → app_schema_name application ≡ some schema
      → IsReseed env rows application relation req
      → rows got.0 ≢ []
      → rows (after_acquire env (record request { schema = schema }) req got).1 ≡ rows got.0
  unfolding after_acquire
  after_acquire-rows schema req (s, true) named h full = seed_chunk-rows schema req s named h full
  after_acquire-rows schema req (s, false) named h full = refl

  with_schema-rows :
      (req : SeedRequest) (name : Option String) (s : S)
      → app_schema_name application ≡ name
      → IsReseed env rows application relation req
      → rows s ≢ []
      → rows (with_schema env request req name s).1 ≡ rows s
  unfolding with_schema
  with_schema-rows req none s named h full = refl
  with_schema-rows req (some schema) s named h full =
      let got = acquire_keeps (record request { schema = schema }) s in
      after_acquire-rows schema req (env.acquire (record request { schema = schema }) s) named h
        (λ e. full (rw got at e))
      ∙ got

  seed-if :
      (req : SeedRequest) (s : S) (b : Bool) (r : SeedResponse)
      → IsReseed env rows application relation req
      → rows s ≢ []
      → rows (if b then (r, s) else with_schema env request req (app_schema_name req.app_id) s).1
        ≡ rows s
  seed-if req s true r h full = refl
  seed-if req s false r h full = with_schema-rows req _ s (rw h.of_app refl) h full

  -- Rows that a table of an application holds survive any number of re-seeds: after any first chunks
  -- for the table the rows are those before, whatever `COPY` would do and whatever the answers are.
  -- Conditions: acquiring and releasing a connection, and each chunk's create statement, keep the rows
  -- of the table, and the query of its rows never answers no while there are some.
  pub seed_all-rows :
      (reqs : List SeedRequest) (s : S)
      → All (IsReseed env rows application relation) reqs
      → rows s ≢ []
      → rows (seed_all env request reqs s) ≡ rows s
  unfolding seed_all seed
  seed_all-rows [] s hs full = refl
  seed_all-rows (req ∷ reqs) s (h, hs) full =
      let step : rows (seed env request (decoded req) s).1 ≡ rows s = seed-if req s _ _ h full in
      seed_all-rows reqs _ hs (λ e. full (rw step at e)) ∙ step
