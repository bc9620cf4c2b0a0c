-- ===== src/Auth/Scopes/Laws.antt =====
-- Who reaches a module's routes.
use app_module_sdk.Base.{
  ℕ, String, ◌≡◌, refl, inl, inr, ◌⊎◌, true, false, Option, none, some, arith,
}
use app_module_sdk.Auth.Actor.{Identity, Binding, with_platform_surface}
use app_module_sdk.Auth.{
  Request, Outcome, serve, reject, Wire, Secret, with_context, has_role, is_complete,
}
use app_module_sdk.Auth.Guards.{no_binding}
use app_module_sdk.Auth.Guards.Entry.{Sealed, Entered, platform_auth-serve}
use app_module_sdk.Auth.Guards.Internal.{Barred, Presented, internal_auth-serve}
use app_module_sdk.Auth.Guards.Proxy.{Guarded, require_proxy-serve}
use app_module_sdk.Auth.Scopes.{
  with_binding, platform_actor_surface, proxy_guard, platform_route, public_route, internal_route,
}

Outcome-cases :
    (o : Outcome)
    → ((r : Request) × (o ≡ serve r)) ⊎ ((status : ℕ) × (code : String) × (o ≡ reject status code))
Outcome-cases (serve r) = inl (r, refl)
Outcome-cases (reject status code) = inr (status, code, refl)

has_role_of_complete : (o : Option Identity) → is_complete o ≡ true → has_role o ≡ true
has_role_of_complete none h = cc
has_role_of_complete (some id) h = ground arith

module _ (wire : Wire) (b : Binding) (secret : Secret) (configured : secret.configured ≡ true) where
  proxy_guard-Presented :
      (q q' : Request)
      → q.ctx.payload_trust ≡ false
      → proxy_guard wire false b secret q ≡ serve q'
      → Presented secret q × Guarded q.ctx.platform_surface q'
  unfolding proxy_guard with_binding with_context
  proxy_guard-Presented q q' direct e =
      let (g, how) = require_proxy-serve wire false no_binding secret (with_binding b q) q' e in
      elim how [
        | inl (payload, _) ↦ absurd (cc (payload, direct))
        | inr (inl (off, _)) ↦ absurd (cc (off, configured))
        | inr (inr (shown, _)) ↦ (shown, g)
      ]

  has_role_of_Entered :
      (q q' : Request) → Entered false secret q q' → has_role q'.ctx.identity ≡ true
  has_role_of_Entered q q' (inl (role, same)) = rw same role
  has_role_of_Entered q q' (inr (inl (off, _, _))) = absurd (cc (off, configured))
  has_role_of_Entered q q' (inr (inr (_, _, complete))) =
      has_role_of_complete q'.ctx.identity complete

  platform_served :
      (r r' : Request)
      → r.ctx.payload_trust ≡ false
      → platform_route wire false b secret r ≡ serve r'
      → Presented secret r × Sealed r' × (has_role r'.ctx.identity ≡ true)
  unfolding platform_route platform_actor_surface with_context with_platform_surface
  platform_served r r' direct e =
      let marked = platform_actor_surface r in
      elim (Outcome-cases (proxy_guard wire false b secret marked)) [
        | inr (status, code, refused) ↦ absurd (cc (rw refused at e))
        | inl (q, passed) ↦
            let (shown, _) = proxy_guard-Presented marked q direct passed in
            let (seal, how) =
              platform_auth-serve wire false secret (with_binding b q) r' (rw passed at e) in
            (shown, seal, has_role_of_Entered (with_binding b q) r' how)
      ]

  public_served :
      (r r' : Request)
      → r.ctx.payload_trust ≡ false
      → r.ctx.platform_surface ≡ false
      → public_route wire false b secret r ≡ serve r'
      → Presented secret r × Barred r'
  unfolding public_route
  public_served r r' direct surface e =
      let (shown, g) = proxy_guard-Presented r r' direct e in (shown, g.barred surface)

  internal_served :
      (r r' : Request)
      → r.ctx.payload_trust ≡ false
      → internal_route wire false b secret r ≡ serve r'
      → Presented secret r × Barred r'
  unfolding internal_route with_binding with_context
  internal_served r r' direct e =
      let (barred, how) =
        internal_auth-serve wire false no_binding secret (with_binding b r) r' e in
      elim how [
        | inl payload ↦ absurd (cc (payload, direct))
        | inr (inl (off, _)) ↦ absurd (cc (off, configured))
        | inr (inr shown) ↦ (shown, barred)
      ]

  -- Where a secret is configured, outside Lambda and the typed payload, and for a request that
  -- comes without the platform surface's mark: a handler of any scope runs only for a request that
  -- carries the secret. A platform handler then has an identity with a role and no pending
  -- delegation, a public or internal one no delegation of the actor at all.
  pub configured_routes :
      (r r' : Request)
      → r.ctx.payload_trust ≡ false
      → r.ctx.platform_surface ≡ false
      → (platform_route wire false b secret r ≡ serve r'
          → Presented secret r × Sealed r' × (has_role r'.ctx.identity ≡ true))
        × (public_route wire false b secret r ≡ serve r' → Presented secret r × Barred r')
        × (internal_route wire false b secret r ≡ serve r' → Presented secret r × Barred r')
  configured_routes r r' direct surface =
      (platform_served r r' direct, public_served r r' direct surface, internal_served r r' direct)
