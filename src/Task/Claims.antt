-- ===== src/Task/Claims.antt =====
-- internal/runtime/task_worker.go: the configuration of a one-shot run, and the validation of the
-- claim that it received. net/url, net.ParseIP and encoding/json are arguments.
use app_module_sdk.Base.{
  String, Bool, false, ◌&&◌, ◌||◌, not, Option, none, some, List, ◌==◌, leb, if◌then◌else◌,
}
use Prim.Native.Char.{Char, code}
use Prim.Native.String.{len}
use app_module_sdk.Base.{eqb}
use app_module_sdk.Base.Int.{ℤ, pos, eq_int}
use app_module_sdk.Base.Dict.{Dict, lookup}
use app_module_sdk.Registry.Names.{is_lower, is_digit, is_table_char, all_chars, is_identifier}
use app_module_sdk.Task.{
  Instant, is_zero, is_after, Kind, Claim, Error, unsupported_version, identity_mismatch,
  unregistered_handler, fields_missing, invalid_dispatch_url, dispatch_not_https, wrong_class,
  invalid_payload, validate_capability,
}

-- What happens while a handler runs: it uses a credential, the timer of the heartbeat fires, the
-- caller's context ends, or the deadline passes.
pub data Event : Type 0 where
  use_of : Kind → Event
  beat : Event
  parent_done : Error → Event
  deadline_reached : Event

-- How a handler ends.
pub data Ending : Type 0 where
  returned : Option Error → Ending
  panics : Ending

-- What `RunOneShot` puts into the handler's context; the providers are the events above.
pub record TaskContext : Type 0 where
  pub app_id : String
  pub app_ref : String
  pub payload_trust : Bool
  pub dispatch_url : String
  pub schema : String
  pub prefix : String
  pub deadline : Instant

-- A handler, by what happens while it runs and how it ends.
abbrev pub Handler : Type 0
Handler = TaskContext → String → List Event × Ending

pub record Entry : Type 0 where
  pub handler : Option Handler
  pub timeout : ℤ

-- `OneShotConfig`; `broker` tells whether a client is given.
pub record Config : Type 0 where
  pub broker : Bool
  pub job_id : String
  pub attempt_id : String
  pub bootstrap_token : String
  pub preclaimed : Option Claim
  pub module_id : String
  pub module_ref : String
  pub expected_class : String
  pub handlers : Dict Entry
  pub heartbeat_every : ℤ

pub record Url : Type 0 where
  pub scheme : String
  pub host : String
  pub hostname : String
  pub has_user : Bool
  pub raw_query : String
  pub fragment : String
  pub path : String

-- `url.Parse`, whether an address is a loopback, and `json.Valid`.
pub record Parsers : Type 0 where
  pub url : String → Option Url
  pub is_loopback : String → Bool
  pub valid_json : String → Bool

-- `taskModuleRefPattern`
unfoldable pub is_module_ref : String → Bool
unfolding is_identifier
is_module_ref s =
    is_identifier (λ c. is_lower c || is_digit c || eqb (code c) 45) s && leb (len s) 16

abbrev pub non_empty_of : (Char → Bool) → String → Bool
non_empty_of p s = not (s == "") && all_chars p s

-- The rest after a prefix.
unfoldable pub after_prefix : String → String → Option String
after_prefix String.[] s = some s
after_prefix (String.◌∷◌ p ps) String.[] = none
after_prefix (String.◌∷◌ p ps) (String.◌∷◌ c s) =
    let rest = after_prefix ps s in if eqb (code p) (code c) then rest else none

-- `AppSchemaPattern`
unfoldable pub is_app_schema : String → Bool
unfolding after_prefix all_chars
is_app_schema s = elim (after_prefix "app_" s) [
  | none ↦ false
  | some rest ↦ non_empty_of is_table_char rest
]

-- `strings.TrimRight(path, "/") != path`
unfoldable pub ends_with_slash : String → Bool
ends_with_slash String.[] = false
ends_with_slash (String.◌∷◌ c s) =
    let rest = ends_with_slash s in if s == "" then eqb (code c) 47 else rest

unfoldable pub claim_identity_matches : Config → String → Claim → Bool
claim_identity_matches cfg canonical claim =
    eq_int claim.version (pos 1)
    && claim.job.id == cfg.job_id
    && claim.job.attempt_id == cfg.attempt_id
    && claim.workload.module_id == canonical

-- The handler that a claim selects, if the entry has one.
abbrev pub handler_of : Config → Claim → Option (Handler × ℤ)
handler_of cfg claim = elim (lookup claim.job.handler cfg.handlers) [
  | none ↦ none
  | some entry ↦ elim entry.handler [ none ↦ none | some h ↦ some (h, entry.timeout) ]
]

module _ (parsers : Parsers) where
  unfoldable pub url_error : Option Url → Option Error
  unfolding ends_with_slash
  url_error none = some invalid_dispatch_url
  url_error (some u) =
      if u.host == ""
        || u.has_user
        || not (u.raw_query == "")
        || not (u.fragment == "")
        || ends_with_slash u.path
      then some invalid_dispatch_url
      else if u.scheme == "https"
      then none
      else if u.scheme == "http" && (u.hostname == "localhost" || parsers.is_loopback u.hostname)
      then none
      else some dispatch_not_https

  unfoldable pub validate_dispatch_url : String → Option Error
  unfolding url_error
  validate_dispatch_url raw = url_error (parsers.url raw)

  -- The long condition of `validateClaim`, negated.
  unfoldable pub has_fields : Claim → Instant → Bool
  unfolding is_app_schema
  has_fields claim now =
      not (is_zero claim.job.deadline)
      && is_after claim.job.deadline now
      && not (claim.workload.app_id == "")
      && not (claim.workload.app_ref == "")
      && not (claim.workload.module_id == "")
      && not (claim.workload.version_id == "")
      && not (claim.workload.version == "")
      && not (claim.workload.module_prefix == "")
      && not (claim.workload.app_schema == "")
      && is_app_schema claim.workload.app_schema
      && (claim.workload.class == "standard"
          || claim.workload.class == "heavy"
          || claim.workload.class == "gpu")

  -- `validateClaim` from the dispatch URL on.
  unfoldable pub validate_rest : Config → Claim → Option Error
  unfolding validate_dispatch_url
  validate_rest cfg claim = elim (validate_dispatch_url claim.workload.dispatch_url) [
    | some e ↦ some e
    | none ↦
        if not (cfg.expected_class == "") && not (claim.workload.class == cfg.expected_class)
        then some wrong_class
        else if not (claim.payload == "") && not (parsers.valid_json claim.payload)
        then some invalid_payload
        else none
  ]

  -- `validateClaim` from the capability on.
  unfoldable pub validate_authority : Config → Claim → Instant → Option Error
  unfolding has_fields validate_rest
  validate_authority cfg claim now = elim (validate_capability claim.capability now) [
    | some e ↦ some e
    | none ↦ if not (has_fields claim now) then some fields_missing else validate_rest cfg claim
  ]

  -- `validateClaim`: its error, if any.
  unfoldable pub validate_claim : Config → String → Claim → Instant → Option Error
  unfolding claim_identity_matches validate_authority
  validate_claim cfg canonical claim now =
      if not (eq_int claim.version (pos 1))
      then some unsupported_version
      else if not (claim_identity_matches cfg canonical claim)
      then some identity_mismatch
      else elim (handler_of cfg claim) [
        | none ↦ some (unregistered_handler claim.job.handler)
        | some _ ↦ validate_authority cfg claim now
      ]
