-- ===== src/Auth/Guards/Internal.antt =====
-- The guard of the internal routes.
use app_module_sdk.Base.{
  ◌≡◌, refl, ap, ◌∙◌, subst, inl, inr, ◌⊎◌, ◌≢◌, Bool, true, false, ◌||◌, Option, none, some, ◌==◌,
  arith, Bool-cases, eq_of_test, ne_of_test,
}
use app_module_sdk.Auth.Headers.{get}
use app_module_sdk.Auth.Actor.{Identity, Binding, set, without_delegation}
use app_module_sdk.Auth.{
  Request, serve, reject, Wire, Secret, with_context, promoted, strip_actor_delegation_header,
  discard_actor_delegation, strip_untrusted_invocation, consume_trusted_invocation,
  promote_forwarder_identity, resolve_invocation_binding,
}
use app_module_sdk.Auth.Guards.{internal_auth}
use app_module_sdk.Auth.Guards.Facts.{
  IsClean, consume_trusted_invocation-stop, strip_untrusted_invocation-ctx,
  strip_untrusted_invocation-IsClean, remove-IsClean,
}
use app_module_sdk.Auth.Guards.Entry.{Step-cases, serve-injective}

-- No delegation of the actor is left, on the wire or in the context.
pub record Barred (r : Request) : Type 0 where
  pub clean : IsClean r.headers
  pub active : r.ctx.delegation ≡ ""
  pub pending : r.ctx.pending ≡ ""

pub discard-Barred : (r : Request) → Barred (discard_actor_delegation r)
unfolding discard_actor_delegation strip_actor_delegation_header with_context without_delegation
discard-Barred r = record { clean = remove-IsClean r.headers; active = refl; pending = refl }

strip-Barred : (r : Request) → Barred r → Barred (strip_untrusted_invocation r)
strip-Barred r h = record {
  clean = strip_untrusted_invocation-IsClean r h.clean;
  active = ap (λ c. c.delegation) (strip_untrusted_invocation-ctx r) ∙ h.active;
  pending = ap (λ c. c.pending) (strip_untrusted_invocation-ctx r) ∙ h.pending;
}

pub dropped-Barred :
    (r : Request) → Barred (strip_untrusted_invocation (discard_actor_delegation r))
dropped-Barred r = strip-Barred (discard_actor_delegation r) (discard-Barred r)

-- The promotion of an identity changes nothing else.
pub record Kept (r r' : Request) : Type 0 where
  pub headers : r'.headers ≡ r.headers
  pub active : r'.ctx.delegation ≡ r.ctx.delegation
  pub pending : r'.ctx.pending ≡ r.ctx.pending

promoted-Kept : (r : Request) (o : Option Identity) → Kept r (promoted r o)
unfolding with_context set
promoted-Kept r (some id) = record { headers = refl; active = refl; pending = refl }
promoted-Kept r none = record {
  headers = ground arith;
  active = ground arith;
  pending = ground arith;
}

pub promote-Kept : (r : Request) → Kept r (promote_forwarder_identity r)
unfolding promote_forwarder_identity
promote-Kept r = promoted-Kept r r.ctx.identity

pub promote-Barred : (r : Request) → Barred r → Barred (promote_forwarder_identity r)
promote-Barred r h =
    let kept = promote-Kept r in
    record {
      clean = rw kept.headers h.clean;
      active = kept.active ∙ h.active;
      pending = kept.pending ∙ h.pending;
    }

-- The caller presented the secret.
abbrev pub Presented : Secret → Request → Type 0
Presented secret r = (secret.expected ≢ "") × (get secret.header r.headers ≡ secret.expected)

-- An internal handler runs only behind the typed payload, or where no secret is configured and the
-- module is not in Lambda, or for a caller that presented the secret. It never sees a delegation
-- of the actor.
pub internal_auth-serve :
    (wire : Wire) (in_lambda : Bool) (binding : Binding) (secret : Secret) (r r' : Request)
    → internal_auth wire in_lambda binding secret r ≡ serve r'
    → Barred r'
      × ((r.ctx.payload_trust ≡ true)
          ⊎ ((secret.configured ≡ false) × (in_lambda ≡ false))
          ⊎ Presented secret r)
unfolding internal_auth
internal_auth-serve wire in_lambda binding secret r r' e = elim (Bool-cases r.ctx.payload_trust) [
  | inl payload ↦ (subst Barred (serve-injective (rw payload at e)) (dropped-Barred _), inl payload)
  | inr direct ↦ elim (Bool-cases (secret.expected == "")) [
    | inl unusable ↦ elim (Bool-cases (in_lambda || secret.configured)) [
      | inl guarded ↦ absurd (cc (rw (direct, unusable, guarded) at e))
      | inr local ↦ (
        subst Barred (serve-injective (rw (direct, unusable, local) at e)) (dropped-Barred _),
        inr (inl (ground arith, ground arith)),
      )
    ]
    | inr usable ↦ elim (Bool-cases (get secret.header r.headers == secret.expected)) [
      | inr mismatch ↦ absurd (cc (rw (direct, usable, mismatch) at e))
      | inl matched ↦
          let b = resolve_invocation_binding r.ctx binding in
          elim (Step-cases (consume_trusted_invocation wire b r)) [
            | inr (reject status code, c) ↦ absurd (cc (rw (c, direct, usable, matched) at e))
            | inr (serve q, c) ↦ absurd (consume_trusted_invocation-stop wire b r q c)
            | inl ((q, typed), c) ↦ (
              subst Barred (serve-injective (rw (c, direct, usable, matched) at e))
                  (promote-Barred (discard_actor_delegation q) (discard-Barred q)),
              inr (inr (ne_of_test secret.expected "" usable, eq_of_test _ _ matched)),
            )
          ]
    ]
  ]
]
