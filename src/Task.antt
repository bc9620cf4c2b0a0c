-- ===== src/Task.antt =====
-- internal/runtime/task_message.go and the errors of internal/runtime/task_worker.go and
-- task_broker.go: what a one-shot task runtime and the broker exchange. The children model the
-- client, the claim, the manager of the attempt's credentials, and the run.
pub mod Broker
pub mod Renewal
pub mod Manager
pub mod Claims
pub mod OneShot
pub mod Reports
pub mod Keeps
pub mod Scopes
pub mod Operations
pub mod Session
pub mod Terminal
pub mod Runs
pub mod Outcomes
pub mod Delay
pub mod Late
pub mod Grounds
pub mod Vending
mod Tests
use app_module_sdk.Base.{
  ℕ, ◌+◌, ◌*◌, String, Bool, true, false, ◌&&◌, ◌||◌, not, Option, none, some, List, ◌==◌, eqb, ltb,
  if◌then◌else◌,
}
use app_module_sdk.Base.Int.{ℤ}
use app_module_sdk.Lifecycle.{Credential}

-- A `time.Time` is its nanoseconds since the zero time.
abbrev pub Instant : Type 0
Instant = ℕ

abbrev pub second : ℕ
second = 1_000_000_000

abbrev pub is_zero : Instant → Bool
is_zero t = eqb t 0

-- `t.After(u)`
abbrev pub is_after : Instant → Instant → Bool
is_after t u = ltb u t

pub record Capability : Type 0 where
  pub token : String
  pub expires_at : Instant
  pub refresh_after : Instant

abbrev pub no_capability : Capability
no_capability = record { token = ""; expires_at = 0; refresh_after = 0 }

-- db.Credential is shared with the lifecycle handlers, with its expiry.
pub record CacheCredential : Type 0 where
  pub endpoint : String
  pub username : String
  pub token : String
  pub expires_at : Instant

pub record StorageCredential : Type 0 where
  pub bucket : String
  pub region : String
  pub prefix : String
  pub cdn_base : String
  pub access_key_id : String
  pub secret_access_key : String
  pub session_token : String
  pub expires_at : Instant

pub record ModuleCallCapability : Type 0 where
  pub token : String
  pub expires_at : Instant

pub record Resources : Type 0 where
  pub database : Option Credential
  pub storage : Option StorageCredential
  pub cache : Option CacheCredential
  pub module_calls : Option ModuleCallCapability

abbrev pub no_resources : Resources
no_resources = record { database = none; storage = none; cache = none; module_calls = none }

pub record Job : Type 0 where
  pub id : String
  pub attempt_id : String
  pub handler : String
  pub deadline : Instant

-- `BrokerWorkload` without the sizes, which the runtime does not read.
pub record Workload : Type 0 where
  pub app_id : String
  pub app_ref : String
  pub module_id : String
  pub dispatch_url : String
  pub version_id : String
  pub version : String
  pub app_schema : String
  pub module_prefix : String
  pub class : String

pub record Claim : Type 0 where
  pub version : ℤ
  pub job : Job
  pub workload : Workload
  pub payload : String
  pub resources : Resources
  pub capability : Capability

pub record Heartbeat : Type 0 where
  pub version : ℤ
  pub cancelled : Bool
  pub deadline : Instant
  pub capability : Option Capability

pub record Refresh : Type 0 where
  pub version : ℤ
  pub cancelled : Bool
  pub resources : Resources
  pub capability : Option Capability

-- The kinds of a resource; `other` is any other text.
pub data Kind : Type 0 where
  database cache storage module_calls other : Kind

-- An error that is not made here, by what `errors.Is` and `errors.As` find in it.
pub record Foreign : Type 0 where
  pub deadline_exceeded : Bool
  pub task_cancelled : Bool
  pub context_canceled : Bool
  pub retryable : Option Bool

-- The errors, with the errors that they wrap; their texts are left out.
pub data Error : Type 0 where
  foreign : Foreign → Error
  incomplete_config ids_not_uuids not_one_claim_source already_handled : Error
  unsupported_version identity_mismatch capability_expired refresh_after_expiry : Error
  fields_missing invalid_dispatch_url dispatch_not_https wrong_class invalid_payload : Error
  unregistered_handler : String → Error
  omitted incomplete changed_scope not_vended : Kind → Error
  unsupported_kind after_terminal module_call_expired task_cancelled : Error
  deadline_exceeded context_canceled panicked : Error
  token_missing read_failed too_large malformed_envelope malformed_json non_json : Error
  http_status : ℕ → Error
  transport refresh_failed heartbeat_failed completion_failed failure_failed : Error → Error
  unreported : Error → Error → Error

pub data Result (A : Type 0) : Type 0 where
  ok : A → Result A
  err : Error → Result A

-- `validateBrokerCapability`.
unfoldable pub validate_capability : Capability → Instant → Option Error
validate_capability c now =
    if c.token == "" || is_zero c.expires_at || not (is_after c.expires_at now)
    then some capability_expired
    else if not (is_zero c.refresh_after) && is_after c.refresh_after c.expires_at
    then some refresh_after_expiry
    else none
