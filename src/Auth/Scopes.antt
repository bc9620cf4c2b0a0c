-- ===== src/Auth/Scopes.antt =====
-- internal/core/module_scopes.go: the middleware in front of a module's platform, public and
-- internal routes, in the order in which `scopedRoutes` mounts it.
pub mod Laws
use app_module_sdk.Base.{Bool, some}
use app_module_sdk.Auth.Actor.{Binding, with_platform_surface}
use app_module_sdk.Auth.{Request, Outcome, serve, reject, Wire, Secret, with_context}
use app_module_sdk.Auth.Guards.{no_binding, platform_auth, internal_auth, require_proxy}

-- `withInvocationBinding`
unfoldable pub with_binding : Binding → Request → Request
with_binding b r = with_context r (record r.ctx { binding = some b })

-- `platformActorSurface`
unfoldable pub platform_actor_surface : Request → Request
platform_actor_surface r = with_context r (with_platform_surface r.ctx)

abbrev pub and_serve : Outcome → (Request → Outcome) → Outcome
and_serve (serve r) next = next r
and_serve (reject status code) next = reject status code

module _ (wire : Wire) (in_lambda : Bool) (b : Binding) (secret : Secret) where
  unfoldable pub proxy_guard : Request → Outcome
  unfolding with_binding
  proxy_guard r = require_proxy wire in_lambda no_binding secret (with_binding b r)

  unfoldable pub platform_route : Request → Outcome
  unfolding proxy_guard platform_actor_surface
  platform_route r =
      and_serve (proxy_guard (platform_actor_surface r))
        λ r'. platform_auth wire in_lambda secret (with_binding b r')

  unfoldable pub public_route : Request → Outcome
  unfolding proxy_guard
  public_route r = proxy_guard r

  unfoldable pub internal_route : Request → Outcome
  unfolding with_binding
  internal_route r = internal_auth wire in_lambda no_binding secret (with_binding b r)
