-- ===== src/Auth/Guards.antt =====
-- The guards themselves: `platformAuth`, `internalAuthForModule`, `requireProxyForModule` and
-- `RequireRoles`. `secret` is what the secret reader returns for this request.
pub mod Facts
pub mod Entry
pub mod Internal
pub mod Proxy
pub mod Roles
use app_module_sdk.Base.{
  String, Bool, true, false, ◌&&◌, ◌||◌, not, Option, none, some, List, [], ◌∷◌, ◌==◌,
  if◌then◌else◌,
}
use app_module_sdk.Auth.Headers.{get}
use app_module_sdk.Auth.Actor.{
  Identity, Binding, Context, set, with_proxy_trust, activate_pending_delegation,
}
use app_module_sdk.Auth.{
  Request, Outcome, serve, reject, Step, go, stop, and_then, Wire, Secret, with_context,
  strip_actor_delegation_header, discard_actor_delegation, capture_pending_actor_delegation,
  strip_untrusted_invocation, resolve_invocation_binding, consume_trusted_invocation,
  promote_forwarder_identity, has_role, is_complete, header_user_id, header_app_id, header_app_role,
}

abbrev pub local_admin : Identity
local_admin = record { user_id = "local-dev-user"; app_id = "local-dev-app"; app_role = "admin" }

abbrev pub no_binding : Binding
no_binding = record { module_id = ""; module_slug = "" }

-- The activation of a pending delegation on the platform surface, and its end elsewhere.
abbrev pub activate_or_discard : Bool → Request → Request
activate_or_discard true r = with_context r (activate_pending_delegation r.ctx)
activate_or_discard false r = discard_actor_delegation r

-- Step 1 of `platformAuth`: an identity that was attached upstream.
unfoldable pub platform_preset : Request → Request
platform_preset r =
    let allowed = r.ctx.platform_surface && (r.ctx.proxy_trust || r.ctx.payload_trust) in
    strip_untrusted_invocation (strip_actor_delegation_header (activate_or_discard allowed r))

-- The end of step 4 for a typed invocation.
unfoldable pub platform_typed : Request → Outcome
platform_typed r =
    if is_complete r.ctx.identity
    then serve (activate_or_discard r.ctx.platform_surface r)
    else reject 401 ""

-- The end of step 4 for the identity headers.
abbrev pub activated : Request → Outcome
activated r = serve (with_context r (activate_pending_delegation r.ctx))

-- On the platform surface the assertion's header is captured and activated.
abbrev pub capture_and_activate : Bool → Request → Outcome
capture_and_activate true r = and_then (capture_pending_actor_delegation r) activated
capture_and_activate false r = serve (discard_actor_delegation r)

unfoldable pub platform_headers : Request → Outcome
platform_headers r =
    let id : Identity = record {
      user_id = get header_user_id r.headers;
      app_id = get header_app_id r.headers;
      app_role = get header_app_role r.headers;
    } in
    let identified = with_context r (set id r.ctx) in
    if is_complete (some id)
    then capture_and_activate identified.ctx.platform_surface identified
    else reject 401 ""

abbrev pub platform_consumed : Request × Bool → Outcome
platform_consumed (r, true) = platform_typed r
platform_consumed (r, false) = platform_headers r

unfoldable pub platform_auth : Wire → Bool → Secret → Request → Outcome
unfolding platform_preset platform_typed platform_headers
platform_auth wire in_lambda secret r =
    if has_role r.ctx.identity
    then serve (platform_preset r)
    else if not secret.configured && not in_lambda
    then serve (
        strip_untrusted_invocation
          (discard_actor_delegation (with_context r (set local_admin r.ctx))))
    else if secret.expected == ""
    then reject 503 ""
    else if not (get secret.header r.headers == secret.expected)
    then reject 401 ""
    else and_then (consume_trusted_invocation wire no_binding r) platform_consumed

abbrev pub internal_consumed : Request × Bool → Outcome
internal_consumed (r, typed) = serve (promote_forwarder_identity (discard_actor_delegation r))

unfoldable pub internal_auth : Wire → Bool → Binding → Secret → Request → Outcome
internal_auth wire in_lambda binding secret r =
    if r.ctx.payload_trust
    then serve (strip_untrusted_invocation (discard_actor_delegation r))
    else if secret.expected == ""
    then if in_lambda || secret.configured
      then reject 503 ""
      else serve (strip_untrusted_invocation (discard_actor_delegation r))
    else if not (get secret.header r.headers == secret.expected)
    then reject 401 ""
    else and_then (consume_trusted_invocation wire (resolve_invocation_binding r.ctx binding) r)
        internal_consumed

-- The end of `requireProxyForModule`.
unfoldable pub proxied : Request → Outcome
proxied r =
    let known = promote_forwarder_identity r in
    serve (with_context known (with_proxy_trust known.ctx))

-- On the platform surface an assertion's header is captured, unless an invocation brought one.
abbrev pub proxy_surface : (surface typed : Bool) → Request → Outcome
proxy_surface true false r = and_then (capture_pending_actor_delegation r) proxied
proxy_surface true true r = proxied r
proxy_surface false typed r = proxied (discard_actor_delegation r)

abbrev pub proxy_consumed : Request × Bool → Outcome
proxy_consumed (r, typed) = proxy_surface r.ctx.platform_surface typed r

-- Before a typed payload the headers were stripped and the identity is set.
abbrev pub payload_surface : Bool → Request → Request
payload_surface true r = strip_untrusted_invocation (strip_actor_delegation_header r)
payload_surface false r = strip_untrusted_invocation (discard_actor_delegation r)

unfoldable pub require_proxy : Wire → Bool → Binding → Secret → Request → Outcome
unfolding proxied
require_proxy wire in_lambda binding secret r =
    if in_lambda || r.ctx.payload_trust
    then serve (payload_surface r.ctx.platform_surface r)
    else if not secret.configured
    then serve (strip_untrusted_invocation (discard_actor_delegation r))
    else if secret.expected == ""
    then reject 403 "not_proxied"
    else if not (get secret.header r.headers == secret.expected)
    then reject 403 "not_proxied"
    else and_then (consume_trusted_invocation wire (resolve_invocation_binding r.ctx binding) r)
        proxy_consumed

-- `roleSet[role]`
unfoldable pub is_allowed : String → List String → Bool
is_allowed role [] = false
is_allowed role (x ∷ roles) = x == role || is_allowed role roles

abbrev pub allow_role : List String → Request → Option Identity → Outcome
allow_role roles r none = reject 401 ""
allow_role roles r (some id) =
    if id.app_role == ""
    then reject 401 ""
    else if not (is_allowed id.app_role roles)
    then reject 403 ""
    else serve r

unfoldable pub require_roles : List String → Request → Outcome
unfolding is_allowed
require_roles roles r = allow_role roles r r.ctx.identity
