-- ===== src/Auth/Tests.antt =====
-- Requests at the guards, and instances of what is proved of them.
use mathlib.Core.List.{Mem}
use app_module_sdk.Base.{
  String, ◌≡◌, refl, ◌⊎◌, ◌≢◌, Bool, true, false, ◌||◌, none, some, List, [], ◌∷◌,
}
use app_module_sdk.Base.Dict.{lookup, remove}
use app_module_sdk.Auth.Headers.{get, values, values_equal_fold}
use app_module_sdk.Auth.Actor.{
  Identity, Context, set, with_proxy_trust, with_pending_delegation, activate_pending_delegation,
  valid_transport_value, with_platform_surface,
}
use app_module_sdk.Auth.{
  Request, serve, reject, Wire, Secret, has_role, header_platform_token, consume_trusted_invocation,
  with_context, strip_untrusted_invocation, promote_forwarder_identity, discard_actor_delegation,
  strip_actor_delegation_header, capture_pending_actor_delegation,
}
use app_module_sdk.Auth.Guards.{
  no_binding, platform_auth, platform_headers, internal_auth, require_proxy, require_roles,
}
use app_module_sdk.Auth.Guards.Entry.{Sealed, Entered, platform_auth-serve}
use app_module_sdk.Auth.Guards.Internal.{Barred, Presented, internal_auth-serve}
use app_module_sdk.Auth.Guards.Proxy.{Guarded, require_proxy-serve}
use app_module_sdk.Auth.Guards.Roles.{require_roles_lem}
use app_module_sdk.Auth.Scopes.{
  platform_route, public_route, internal_route, proxy_guard, with_binding,
}
use app_module_sdk.Auth.Scopes.Laws.{configured_routes}

-- A wire on which no invocation is ever valid.
abbrev no_wire : Wire
no_wire = record {
  decode_header = λ v. none;
  legacy_agree = λ t m. false;
  body_matches = λ t b. false;
  canonical_module_id = λ id. some id;
}

abbrev token : Secret
token = record { expected = "t0k"; header = header_platform_token; configured = true }

abbrev blank : Context
blank = record {
  identity = none;
  payload_trust = false;
  proxy_trust = false;
  platform_surface = false;
  delegation = "";
  pending = "";
  binding = none;
  schema = "";
  invocation = none;
}

abbrev forwarded : Request
forwarded = record {
  method = "GET";
  uri = "/platform/users";
  headers =
      (header_platform_token, "t0k" ∷ [])
      ∷ ("X-Ms-User-Id", "u1" ∷ [])
      ∷ ("X-Ms-App-Id", "a1" ∷ [])
      ∷ ("X-Ms-App-Role", "admin" ∷ [])
      ∷ ("X-Ms-Actor-Delegation", "grant" ∷ [])
      ∷ [];
  body = some "";
  ctx = blank;
}

abbrev forged : Request
forged = record forwarded { headers = ("X-Ms-User-Id", "u1" ∷ []) ∷ [] }

forged_test :
    (public_route no_wire false no_binding token forged ≡ reject 403 "not_proxied")
    × (internal_route no_wire false no_binding token forged ≡ reject 401 "")
    × (platform_route no_wire false no_binding token forged ≡ reject 403 "not_proxied")
unfolding public_route proxy_guard with_binding with_context require_proxy get values lookup
    internal_route internal_auth platform_route with_platform_surface
forged_test = (refl, refl, refl)

-- What the handler of a platform route gets: the identity of the headers, and the delegation in the
-- context in place of the header.
abbrev handled : Request
handled = record forwarded {
  headers =
      (header_platform_token, "t0k" ∷ [])
      ∷ ("X-Ms-User-Id", "u1" ∷ [])
      ∷ ("X-Ms-App-Id", "a1" ∷ [])
      ∷ ("X-Ms-App-Role", "admin" ∷ [])
      ∷ [];
  ctx = record blank {
    identity = some (record { user_id = "u1"; app_id = "a1"; app_role = "admin" });
    proxy_trust = true;
    platform_surface = true;
    delegation = "grant";
    binding = some no_binding;
  };
}

-- A public or an internal handler gets no delegation.
abbrev plain : Request
plain = record handled {
  ctx = record handled.ctx { proxy_trust = false; platform_surface = false; delegation = "" };
}

abbrev proxied_plain : Request
proxied_plain = record plain { ctx = record plain.ctx { proxy_trust = true } }

platform_served_test : platform_route no_wire false no_binding token forwarded ≡ serve handled
unfolding platform_route require_proxy with_context with_platform_surface get lookup
    consume_trusted_invocation values_equal_fold capture_pending_actor_delegation
    valid_transport_value platform_auth with_proxy_trust promote_forwarder_identity
    with_pending_delegation strip_actor_delegation_header remove set strip_untrusted_invocation
    activate_pending_delegation
platform_served_test = refl

internal_served_test : internal_route no_wire false no_binding token forwarded ≡ serve plain
unfolding internal_route internal_auth with_context get lookup consume_trusted_invocation
    values_equal_fold promote_forwarder_identity discard_actor_delegation remove set
internal_served_test = refl

public_served_test : public_route no_wire false no_binding token forwarded ≡ serve proxied_plain
unfolding public_route require_proxy with_context get lookup consume_trusted_invocation
    values_equal_fold promote_forwarder_identity with_proxy_trust discard_actor_delegation remove
    set
public_served_test = refl

configured_routes_example :
    Presented token forwarded × Sealed handled × (has_role handled.ctx.identity ≡ true)
configured_routes_example =
    (configured_routes no_wire no_binding token refl forwarded handled refl refl).0
      platform_served_test

-- The same request at a guard that stands alone.
abbrev entered : Request
entered = record plain { ctx = record plain.ctx { binding = none } }

abbrev passed : Request
passed = record plain { ctx = record plain.ctx { binding = none; proxy_trust = true } }

platform_auth-serve_example : Sealed entered × Entered false token forwarded entered
unfolding platform_auth platform_headers get lookup consume_trusted_invocation values_equal_fold
    discard_actor_delegation with_context remove set
platform_auth-serve_example = platform_auth-serve no_wire false token forwarded entered refl

internal_auth-serve_example :
    Barred entered
    × ((forwarded.ctx.payload_trust ≡ true)
        ⊎ ((token.configured ≡ false) × (◌≡◌ {A = Bool} false false))
        ⊎ Presented token forwarded)
unfolding internal_auth get lookup consume_trusted_invocation values_equal_fold
    promote_forwarder_identity discard_actor_delegation with_context remove set
internal_auth-serve_example =
    internal_auth-serve no_wire false no_binding token forwarded entered refl

require_proxy-serve_example :
    Guarded false passed
    × ((((false || forwarded.ctx.payload_trust) ≡ true)
          × (passed.ctx.proxy_trust ≡ forwarded.ctx.proxy_trust))
        ⊎ ((token.configured ≡ false) × (passed.ctx.proxy_trust ≡ forwarded.ctx.proxy_trust))
        ⊎ (Presented token forwarded × (passed.ctx.proxy_trust ≡ true)))
unfolding require_proxy get lookup consume_trusted_invocation values_equal_fold
    promote_forwarder_identity discard_actor_delegation with_context with_proxy_trust remove set
require_proxy-serve_example =
    require_proxy-serve no_wire false no_binding token forwarded passed refl

abbrev readers : List String
readers = "viewer" ∷ "member" ∷ []

require_roles_lem_example :
    ((has_role handled.ctx.identity ≡ false) × (require_roles readers handled ≡ reject 401 ""))
    ⊎ ((id : Identity) × (handled.ctx.identity ≡ some id)
        × (id.app_role ≢ "")
        × ((Mem id.app_role readers × (require_roles readers handled ≡ serve handled))
            ⊎ (¬ (Mem id.app_role readers) × (require_roles readers handled ≡ reject 403 ""))))
require_roles_lem_example = require_roles_lem readers handled
