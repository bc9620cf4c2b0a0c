-- ===== src/Lifecycle.antt =====
-- system/lifecycle.go: the install, upgrade, downgrade and uninstall handlers. A decoded body is an
-- argument (encoding/json), and so are what the environment gives and the author's SQL.
pub mod Gate
pub mod Calls
pub mod Verbs
pub mod Seed
mod Tests
use app_module_sdk.Base.{
  ℕ, String, Bool, true, false, ◌&&◌, ◌||◌, not, Option, none, some, List, [], ◌∷◌, ◌==◌, is_some,
  if◌then◌else◌,
}
use app_module_sdk.Base.Int.{ℤ}
use app_module_sdk.Base.Atoi.{atoi}
use app_module_sdk.Migration.{
  Migration, Error, Result, ok, err, Outcome, slice, slice_down, apply, apply_down,
}
use app_module_sdk.Migration.Files.{Scope, Listing, VersionSort, list}

pub record InstallCredential : Type 0 where
  pub username : String
  pub token : String

pub record InstallRequest : Type 0 where
  pub app_id : String
  pub schema : String
  pub credential : Option InstallCredential

pub record UpgradeRequest : Type 0 where
  pub from : String
  pub to : String
  pub install : InstallRequest

-- What `Decode` makes of a body: a value, `io.EOF`, the size limit, or another error.
pub data Body (A : Type 0) : Type 0 where
  decoded : A → Body A
  no_body too_large malformed : Body A

-- db.Credential
pub record Credential : Type 0 where
  pub host : String
  pub port : ℤ
  pub database : String
  pub username : String
  pub token : String
  pub expires_at : ℕ

-- The values that the handlers read and set in a context.
pub record Context : Type 0 where
  pub schema : String
  pub credential : Option Credential

-- The causes behind the error texts of a response.
pub data Problem : Type 0 where
  body_too_large invalid_body from_and_to_required from_not_numeric to_not_numeric : Problem
  schema_required no_env_base provision_failed : Problem
  migration : Error → Problem

-- `LifecycleResult` and `LifecycleError` with the status code.
pub record Response : Type 0 where
  pub status : ℕ
  pub applied : List String
  pub reverted : List String
  pub problem : Option Problem

abbrev pub failure : ℕ → Problem → Response
failure status p = record { status = status; applied = []; reverted = []; problem = some p }

-- A step of a handler either goes on with a value or has written the response.
pub data Step (A : Type 0) : Type 0 where
  go : A → Step A
  stop : Response → Step A

-- `writeBodyDecodeError`
unfoldable pub body_error : {A : Type 0} → Body A → Response
body_error too_large = failure 413 body_too_large
body_error _ = failure 400 invalid_body

unfoldable pub refuse_deployed_without_schema : Bool → String → Bool
refuse_deployed_without_schema deployed schema = deployed && schema == ""

-- A body with an empty user name and an empty token carries no credential.
supplied : Option InstallCredential → Option InstallCredential
supplied none = none
supplied (some c) = if not (c.username == "") || not (c.token == "") then some c else none

with_credential : Context → Option InstallCredential → Option Credential → Step Context
with_credential ctx none base = go ctx
with_credential ctx (some c) none = stop (failure 500 no_env_base)
with_credential ctx (some c) (some base) =
    go (record ctx { credential = some (record base { username = c.username; token = c.token }) })

-- `injectLifecycleContext`; `deployed` is `onLambda()`, `base` what `db.EnvBaseCredential` gives.
unfoldable pub inject_lifecycle : Bool → Option Credential → Context → InstallRequest → Step Context
unfolding refuse_deployed_without_schema supplied with_credential
inject_lifecycle deployed base ctx req =
    if refuse_deployed_without_schema deployed req.schema
    then stop (failure 400 schema_required)
    else with_credential (if req.schema == "" then ctx else record ctx { schema = req.schema })
        (supplied req.credential) base

abbrev pub empty_request : InstallRequest
empty_request = record { app_id = ""; schema = ""; credential = none }

-- `injectInstallContext`: an empty body stands for an empty request.
unfoldable pub inject_install :
    Bool → Option Credential → Context → Body InstallRequest → Step Context
unfolding inject_lifecycle body_error
inject_install deployed base ctx (decoded req) = inject_lifecycle deployed base ctx req
inject_install deployed base ctx no_body = inject_lifecycle deployed base ctx empty_request
inject_install deployed base ctx body = stop (body_error body)

-- `decodeUpgradeRequest`
unfoldable pub decode_upgrade : Body UpgradeRequest → Step UpgradeRequest
unfolding body_error
decode_upgrade (decoded req) =
    if req.from == "" || req.to == ""
    then stop (failure 400 from_and_to_required)
    else if not (is_some (atoi req.from))
    then stop (failure 400 from_not_numeric)
    else if not (is_some (atoi req.to))
    then stop (failure 400 to_not_numeric)
    else go req
decode_upgrade body = stop (body_error body)

-- What a handler runs in: the deployment, the module's files and the database.
pub record Env (S : Type 0) : Type 0 where
  pub deployed : Bool
  pub base : Option Credential
  pub sort : VersionSort
  pub listing : Listing
  pub read_file : String → Option String
  pub run_tx : Context → String → S → S × Bool
  pub provision : Option (Context → S → S × Bool)

module _ {S : Type 0} where
  -- The response to a run of up files, and to a run of down files.
  unfoldable pub applied_response : Outcome S → Response × S
  applied_response o = elim o.error [
    | none ↦ (record { status = 200; applied = o.done; reverted = []; problem = none }, o.state)
    | some e ↦ (
      record { status = 500; applied = o.done; reverted = []; problem = some (migration e) },
      o.state,
    )
  ]

  unfoldable pub reverted_response : Outcome S → Response × S
  reverted_response o = elim o.error [
    | none ↦ (record { status = 200; applied = []; reverted = o.done; problem = none }, o.state)
    | some e ↦ (
      record { status = 500; applied = []; reverted = o.done; problem = some (migration e) },
      o.state,
    )
  ]

  -- A step that may have written the response, and the rest of the handler.
  abbrev pub and_then : {A : Type 0} → Step A → S → (A → Response × S) → Response × S
  and_then (go a) s k = k a
  and_then (stop r) s k = (r, s)

  abbrev pub or_problem : {A : Type 0} → ℕ → Result A → S → (A → Response × S) → Response × S
  or_problem status (ok a) s k = k a
  or_problem status (err e) s k = (failure status (migration e), s)

  abbrev pub provisioned : S × Bool → (S → Response × S) → Response × S
  provisioned (s, true) k = k s
  provisioned (s, false) k = (failure 500 provision_failed, s)

module _ {S : Type 0} (env : Env S) where
  -- `runProvision`
  abbrev pub run_provision : Context → S → (S → Response × S) → Response × S
  run_provision ctx s k = elim env.provision [
    | none ↦ k s
    | some setup ↦ provisioned (setup ctx s) k
  ]

  -- `InstallHandler` from `runProvision` on; `run` is `runTx` in the context that was injected.
  pub run_install : Scope → Context → (String → S → S × Bool) → S → Response × S
  run_install scope ctx run s = run_provision ctx s λ s'.
      or_problem 500 (list env.sort scope env.listing) s'
        λ ms. applied_response (apply env.read_file run ms s')

  pub install : Scope → Context → Body InstallRequest → S → Response × S
  unfolding run_install
  install scope request body s =
      and_then (inject_install env.deployed env.base request body) s
        λ ctx. run_install scope ctx (env.run_tx ctx) s

  -- `UpgradeHandler` from `runProvision` on.
  pub run_upgrade : Scope → Context → (String → S → S × Bool) → UpgradeRequest → S → Response × S
  run_upgrade scope ctx run req s = run_provision ctx s λ s'.
      or_problem 500 (list env.sort scope env.listing) s' λ all.
        or_problem 400 (slice all req.from req.to) s'
          λ ms. applied_response (apply env.read_file run ms s')

  pub upgrade : Scope → Context → Body UpgradeRequest → S → Response × S
  unfolding run_upgrade
  upgrade scope request body s = and_then (decode_upgrade body) s λ req.
      and_then (inject_lifecycle env.deployed env.base request req.install) s
        λ ctx. run_upgrade scope ctx (env.run_tx ctx) req s

  -- `DowngradeHandler` from the listing on.
  pub run_downgrade : Scope → (String → S → S × Bool) → UpgradeRequest → S → Response × S
  run_downgrade scope run req s = or_problem 500 (list env.sort scope env.listing) s λ all.
      or_problem 400 (slice_down all req.from req.to) s
        λ ms. reverted_response (apply_down env.read_file run ms s)

  pub downgrade : Scope → Context → Body UpgradeRequest → S → Response × S
  unfolding run_downgrade
  downgrade scope request body s = and_then (decode_upgrade body) s λ req.
      and_then (inject_lifecycle env.deployed env.base request req.install) s
        λ ctx. run_downgrade scope (env.run_tx ctx) req s

  -- `UninstallHandler`
  pub uninstall : S → Response × S
  uninstall s = (record { status = 200; applied = []; reverted = []; problem = none }, s)
