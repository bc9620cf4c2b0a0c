-- ===== src/Auth.antt =====
-- auth/middleware.go, auth/invocation.go and auth/permission.go: the guards in front of a module's
-- handlers. A middleware ends in a rejection or in the request that it hands to the next handler.
pub mod Headers
pub mod Actor
pub mod Guards
pub mod Scopes
mod Tests
use app_module_sdk.Base.{
  ℕ, String, Bool, true, false, ◌&&◌, ◌||◌, not, Option, none, some, List, [], ◌∷◌, ◌==◌, eqb,
  is_some, if◌then◌else◌, length,
}
use app_module_sdk.Base.Dict.{Dict, lookup, remove}
use app_module_sdk.Auth.Headers.{
  HeaderMap, values, get, values_equal_fold, invocation_header, stripped_invocation_headers,
  collect_legacy_headers,
}
use app_module_sdk.Auth.Actor.{
  Identity, Binding, Trusted, Context, set, with_proxy_trust, valid_transport_value,
  with_pending_delegation, without_delegation, activate_pending_delegation,
}

-- The body is what reading it gives: nothing on an error or past the limit.
pub record Request : Type 0 where
  pub method : String
  pub uri : String
  pub headers : HeaderMap
  pub body : Option String
  pub ctx : Context

pub data Outcome : Type 0 where
  serve : Request → Outcome
  reject : (status : ℕ) (code : String) → Outcome

-- A step of a middleware either goes on or has rejected.
pub data Step (A : Type 0) : Type 0 where
  go : A → Step A
  stop : Outcome → Step A

abbrev pub and_then : {A : Type 0} → Step A → (A → Outcome) → Outcome
and_then (go a) k = k a
and_then (stop o) k = o

-- The part of internal/invocationwire that the guards call: `DecodeHeader`, the error of
-- `ValidateLegacyHeaders`, `BodyMatches`, and `ids.CanonicalModuleID`.
pub record Wire : Type 0 where
  pub decode_header : String → Option Trusted
  pub legacy_agree : Trusted → Dict String → Bool
  pub body_matches : Trusted → String → Bool
  pub canonical_module_id : String → Option String

-- What a `secretReader` returns.
pub record Secret : Type 0 where
  pub expected : String
  pub header : String
  pub configured : Bool

-- The canonical spellings of the headers.
abbrev pub header_internal_secret : String
header_internal_secret = "X-Ms-Internal-Secret"

abbrev pub header_platform_token : String
header_platform_token = "X-Ms-Platform-Token"

abbrev pub header_user_id : String
header_user_id = "X-Ms-User-Id"

abbrev pub header_app_id : String
header_app_id = "X-Ms-App-Id"

abbrev pub header_app_role : String
header_app_role = "X-Ms-App-Role"

abbrev pub header_delegation : String
header_delegation = "X-Ms-Actor-Delegation"

-- What the environment holds; `token_file_text` is what reading and trimming the file gives.
pub record SecretEnv : Type 0 where
  pub token_file : String
  pub token_file_text : Option String
  pub platform_token : String
  pub internal_secret : String

abbrev pub file_secret : Option String → Secret
file_secret none = record { expected = ""; header = header_platform_token; configured = true }
file_secret (some t) = record { expected = t; header = header_platform_token; configured = true }

-- `platformSecretReader`
unfoldable pub platform_secret_reader : SecretEnv → Secret
platform_secret_reader env =
    if not (env.token_file == "")
    then file_secret env.token_file_text
    else if not (env.platform_token == "")
    then record { expected = env.platform_token; header = header_platform_token; configured = true }
    else if not (env.internal_secret == "")
    then record {
      expected = env.internal_secret;
      header = header_internal_secret;
      configured = true;
    }
    else record { expected = ""; header = header_internal_secret; configured = false }

unfoldable pub with_context : Request → Context → Request
with_context r ctx = record r { ctx = ctx }

unfoldable pub strip_actor_delegation_header : Request → Request
strip_actor_delegation_header r = record r { headers = remove header_delegation r.headers }

unfoldable pub discard_actor_delegation : Request → Request
unfolding strip_actor_delegation_header with_context without_delegation
discard_actor_delegation r =
    let clean = strip_actor_delegation_header r in with_context clean (without_delegation clean.ctx)

-- `takeTrustedActorDelegation`: the request, and the assertion or "".
abbrev pub take_values : Request → List String → Step (Request × String)
take_values r [] = go (r, "")
take_values r (v ∷ []) =
    if valid_transport_value v
    then go (strip_actor_delegation_header r, v)
    else stop (reject 401 "")
take_values r (v ∷ w ∷ vs) = stop (reject 401 "")

unfoldable pub take_trusted_actor_delegation : Request → Step (Request × String)
take_trusted_actor_delegation r = take_values r (values header_delegation r.headers)

-- `capturePendingActorDelegation`
abbrev pub captured : Step (Request × String) → Step Request
captured (stop o) = stop o
captured (go (r, assertion)) = go (with_context r (with_pending_delegation r.ctx assertion))

unfoldable pub capture_pending_actor_delegation : Request → Step Request
unfolding take_trusted_actor_delegation
capture_pending_actor_delegation r = captured (take_trusted_actor_delegation r)

unfoldable pub strip_untrusted_invocation : Request → Request
strip_untrusted_invocation r =
    if eqb (values_equal_fold invocation_header r.headers).1 0
    then r
    else record r { headers = stripped_invocation_headers false r.headers }

unfoldable pub resolve_invocation_binding : Context → Binding → Binding
resolve_invocation_binding ctx fallback =
    if not (fallback.module_id == "") || not (fallback.module_slug == "")
    then fallback
    else elim ctx.binding [ none ↦ fallback | some b ↦ b ]

unfoldable pub request_matches : Request → Trusted → Bool
request_matches r t = r.method == t.method && r.uri == t.path

abbrev pub names_module : Option String → Trusted → Bool
names_module none t = false
names_module (some id) t = id == t.module_id

unfoldable pub module_matches : Wire → Binding → Trusted → Bool
module_matches wire b t =
    (b.module_id == "" || names_module (wire.canonical_module_id b.module_id) t)
    && (b.module_slug == "" || b.module_slug == t.module_slug)

abbrev pub legacy_matches : Wire → Trusted → Option (Dict String) → Bool
legacy_matches wire t none = false
legacy_matches wire t (some legacy) = wire.legacy_agree t legacy

abbrev pub read_matches : Wire → Trusted → Option String → Bool
read_matches wire t none = false
read_matches wire t (some body) = wire.body_matches t body

-- All that `consumeTrustedInvocation` checks of a decoded invocation.
unfoldable pub invocation_matches : Wire → Binding → Request → Trusted → Bool
unfolding request_matches module_matches
invocation_matches wire b r t =
    request_matches r t
    && module_matches wire b t
    && (t.actor_delegation == "" || valid_transport_value t.actor_delegation)
    && legacy_matches wire t (collect_legacy_headers r.headers)
    && read_matches wire t r.body

-- The context and the headers behind a consumed invocation.
unfoldable pub install_invocation : Trusted → Request → Request
unfolding with_pending_delegation without_delegation set
install_invocation t r =
    let base =
      set (record { user_id = t.user_id; app_id = t.app_id; app_role = t.app_role })
        (record (without_delegation (record r.ctx { invocation = some t })) {
          schema = t.schema;
        }) in
    record r {
      ctx = with_pending_delegation base t.actor_delegation;
      headers = stripped_invocation_headers true r.headers;
    }

abbrev pub consume_decoded : Wire → Binding → Request → Option Trusted → Step (Request × Bool)
consume_decoded wire b r none = stop (reject 400 "")
consume_decoded wire b r (some t) =
    if invocation_matches wire b r t
    then go (install_invocation t r, true)
    else stop (reject 400 "")

-- The values of the header's one spelling.
abbrev pub consume_values : Wire → Binding → Request → List String → Step (Request × Bool)
consume_values wire b r (v ∷ []) = consume_decoded wire b r (wire.decode_header v)
consume_values wire b r vs = stop (reject 400 "")

-- The request to go on with, and whether an invocation was consumed.
unfoldable pub consume_trusted_invocation : Wire → Binding → Request → Step (Request × Bool)
consume_trusted_invocation wire b r =
    let (vs, names) = values_equal_fold invocation_header r.headers in
    if eqb names 0
    then go (r, false)
    else if eqb names 1
    then consume_values wire b r vs
    else stop (reject 400 "")

-- `promoteForwarderIdentity`
abbrev pub promoted : Request → Option Identity → Request
promoted r (some id) = r
promoted r none =
    let user = get header_user_id r.headers in
    let app = get header_app_id r.headers in
    let role = get header_app_role r.headers in
    if user == "" && app == "" && role == ""
    then r
    else with_context r (set (record { user_id = user; app_id = app; app_role = role }) r.ctx)

unfoldable pub promote_forwarder_identity : Request → Request
promote_forwarder_identity r = promoted r r.ctx.identity

abbrev pub has_role : Option Identity → Bool
has_role none = false
has_role (some id) = not (id.app_role == "")

abbrev pub is_complete : Option Identity → Bool
is_complete none = false
is_complete (some id) = not (id.user_id == "") && not (id.app_id == "") && not (id.app_role == "")
