-- ===== src/Auth/Guards/Proxy.antt =====
-- The guard of the proxied routes.
use app_module_sdk.Base.{
  ◌≡◌, refl, ap, subst, inl, inr, ◌⊎◌, Bool, true, false, ◌||◌, ◌==◌, eqb, Bool-cases, eq_of_test,
  ne_of_test,
}
use app_module_sdk.Auth.Headers.{get, values_equal_fold, invocation_header}
use app_module_sdk.Auth.Actor.{Binding, Context, with_proxy_trust, without_delegation}
use app_module_sdk.Auth.{
  Request, serve, reject, Wire, Secret, with_context, strip_actor_delegation_header,
  strip_untrusted_invocation, discard_actor_delegation, capture_pending_actor_delegation,
  consume_trusted_invocation, promote_forwarder_identity, resolve_invocation_binding,
}
use app_module_sdk.Auth.Guards.{
  proxied, proxy_surface, proxy_consumed, payload_surface, require_proxy,
}
use app_module_sdk.Auth.Guards.Facts.{
  IsClean, Consumed, consume_trusted_invocation-go, capture_pending_actor_delegation-go,
  capture_pending_actor_delegation-stop, consume_trusted_invocation-stop,
  strip_untrusted_invocation-IsClean, remove-IsClean,
}
use app_module_sdk.Auth.Guards.Entry.{Step-cases, serve-injective}
use app_module_sdk.Auth.Guards.Internal.{
  Barred, discard-Barred, dropped-Barred, promote-Barred, promote-Kept, Presented,
}

-- A request that left the proxy guard: the wire's assertion is gone, and off the platform surface
-- so is every delegation.
pub record Guarded (surface : Bool) (r : Request) : Type 0 where
  pub clean : IsClean r.headers
  pub barred : surface ≡ false → Barred r

proxied-Guarded :
    (surface : Bool) (r r' : Request)
    → Guarded surface r
    → proxied r ≡ serve r'
    → Guarded surface r' × (r'.ctx.proxy_trust ≡ true)
unfolding proxied
proxied-Guarded surface r r' h e =
    let known = promote_forwarder_identity r in
    subst (λ (q : Request). Guarded surface q × (q.ctx.proxy_trust ≡ true)) (serve-injective e)
      (unfold with_context with_proxy_trust in
        (
          record {
            clean = rw (promote-Kept r).headers h.clean;
            barred = λ off.
                let b = promote-Barred r (h.barred off) in
                record { clean = b.clean; active = b.active; pending = b.pending };
          },
          refl,
        ))

surface-Guarded :
    (surface typed : Bool) (r r' : Request)
    → (typed ≡ true → IsClean r.headers)
    → proxy_surface surface typed r ≡ serve r'
    → Guarded surface r' × (r'.ctx.proxy_trust ≡ true)
surface-Guarded true true r r' h e =
    proxied-Guarded true r r' (record { clean = h refl; barred = λ off. cc }) e
surface-Guarded false typed r r' h e =
    let b = discard-Barred r in
    proxied-Guarded false (discard_actor_delegation r) r'
      (record { clean = b.clean; barred = λ off. b }) e
surface-Guarded true false r r' h e = elim (Step-cases (capture_pending_actor_delegation r)) [
  | inr (reject status code, c) ↦ absurd (cc (rw c at e))
  | inr (serve q, c) ↦ absurd (capture_pending_actor_delegation-stop r q c)
  | inl (q, c) ↦
      let (_, clean) = capture_pending_actor_delegation-go r q c in
      proxied-Guarded true q r' (record { clean = clean; barred = λ off. cc }) (rw c at e)
]

proxy_consumed-Guarded :
    (r : Request) (q : Request × Bool) (r' : Request)
    → Consumed r q
    → proxy_consumed q ≡ serve r'
    → Guarded r.ctx.platform_surface r' × (r'.ctx.proxy_trust ≡ true)
proxy_consumed-Guarded r (q, typed) r' (inl (untyped, same)) e =
    subst (λ (s : Bool). Guarded s r' × (r'.ctx.proxy_trust ≡ true))
      (ap (λ (k : Request). k.ctx.platform_surface) same)
      (surface-Guarded q.ctx.platform_surface typed q r' (λ t. cc (t, untyped)) e)
proxy_consumed-Guarded r (q, typed) r' (inr (_, t, _, same, _, clean)) e =
    subst (λ (s : Bool). Guarded s r' × (r'.ctx.proxy_trust ≡ true)) same
      (surface-Guarded q.ctx.platform_surface typed q r' (λ t. clean) e)

payload-Guarded : (surface : Bool) (r : Request) → Guarded surface (payload_surface surface r)
unfolding strip_actor_delegation_header
payload-Guarded true r = record {
  clean = strip_untrusted_invocation-IsClean _ (remove-IsClean r.headers);
  barred = λ off. cc;
}
payload-Guarded false r = let b = dropped-Barred r in record { clean = b.clean; barred = λ off. b }

strip-ctx : (r : Request) → (strip_untrusted_invocation r).ctx ≡ r.ctx
unfolding strip_untrusted_invocation
strip-ctx r = elim (Bool-cases (eqb (values_equal_fold invocation_header r.headers).1 0)) [
  | inl none_there ↦ rw none_there refl
  | inr some_there ↦ rw some_there refl
]

dropped-proxy_trust :
    (r : Request)
    → (strip_untrusted_invocation (discard_actor_delegation r)).ctx.proxy_trust ≡ r.ctx.proxy_trust
unfolding discard_actor_delegation strip_actor_delegation_header with_context without_delegation
dropped-proxy_trust r = ap (λ (c : Context). c.proxy_trust) (strip-ctx (discard_actor_delegation r))

payload-proxy_trust :
    (surface : Bool) (r : Request) → (payload_surface surface r).ctx.proxy_trust ≡ r.ctx.proxy_trust
unfolding strip_actor_delegation_header
payload-proxy_trust true r =
    ap (λ (c : Context). c.proxy_trust) (strip-ctx (strip_actor_delegation_header r))
payload-proxy_trust false r = dropped-proxy_trust r

-- A request passes the proxy guard only in Lambda or behind the typed payload, or where no secret
-- is configured, and in these cases it is marked as proxied just if it came so; or if its caller
-- presented the secret, and then it is marked. The wire's assertion never passes, and off the platform
-- surface no delegation of the actor does.
pub require_proxy-serve :
    (wire : Wire) (in_lambda : Bool) (binding : Binding) (secret : Secret) (r r' : Request)
    → require_proxy wire in_lambda binding secret r ≡ serve r'
    → Guarded r.ctx.platform_surface r'
      × ((((in_lambda || r.ctx.payload_trust) ≡ true) × (r'.ctx.proxy_trust ≡ r.ctx.proxy_trust))
          ⊎ ((secret.configured ≡ false) × (r'.ctx.proxy_trust ≡ r.ctx.proxy_trust))
          ⊎ (Presented secret r × (r'.ctx.proxy_trust ≡ true)))
unfolding require_proxy
require_proxy-serve wire in_lambda binding secret r r' e =
    elim (Bool-cases (in_lambda || r.ctx.payload_trust)) [
      | inl payload ↦
          let same = serve-injective (rw payload at e) in
          (
            subst (Guarded r.ctx.platform_surface) same (payload-Guarded r.ctx.platform_surface r),
            inl (
              payload,
              subst (λ (q : Request). q.ctx.proxy_trust ≡ r.ctx.proxy_trust) same
                  (payload-proxy_trust r.ctx.platform_surface r),
            ),
          )
      | inr direct ↦ elim (Bool-cases secret.configured) [
        | inr inert ↦
            let b = dropped-Barred r in
            let same = serve-injective (rw (direct, inert) at e) in
            (
              subst (Guarded r.ctx.platform_surface) same
                  (record { clean = b.clean; barred = λ off. b }),
              inr (
                  inl (
                    inert,
                    subst (λ (q : Request). q.ctx.proxy_trust ≡ r.ctx.proxy_trust) same
                        (dropped-proxy_trust r),
                  )),
            )
        | inl guarded ↦ elim (Bool-cases (secret.expected == "")) [
          | inl unusable ↦ absurd (cc (rw (direct, guarded, unusable) at e))
          | inr usable ↦ elim (Bool-cases (get secret.header r.headers == secret.expected)) [
            | inr mismatch ↦ absurd (cc (rw (direct, guarded, usable, mismatch) at e))
            | inl matched ↦
                let b = resolve_invocation_binding r.ctx binding in
                elim (Step-cases (consume_trusted_invocation wire b r)) [
                  | inr (reject status code, c) ↦
                      absurd (cc (rw (c, direct, guarded, usable, matched) at e))
                  | inr (serve q, c) ↦ absurd (consume_trusted_invocation-stop wire b r q c)
                  | inl (q, c) ↦
                      let (g, trust) =
                        proxy_consumed-Guarded r q r' (consume_trusted_invocation-go wire b r q c)
                          (rw (c, direct, guarded, usable, matched) at e) in
                      (
                        g,
                        inr (
                            inr (
                              (ne_of_test secret.expected "" usable, eq_of_test _ _ matched),
                              trust,
                            )),
                      )
                ]
          ]
        ]
      ]
    ]
