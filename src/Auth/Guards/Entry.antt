-- ===== src/Auth/Guards/Entry.antt =====
-- Who gets past a guard, and as whom.
use app_module_sdk.Base.{
  ◌≡◌, refl, ap, ◌∙◌, subst, inl, inr, ◌⊎◌, ◌≢◌, Bool, true, false, ◌&&◌, ◌||◌, not, some, ◌==◌,
  arith, Bool-cases, eq_of_test, ne_of_test,
}
use app_module_sdk.Auth.Headers.{get}
use app_module_sdk.Auth.Actor.{
  Identity, set, without_delegation, activate_pending_delegation, with_delegation,
}
use app_module_sdk.Auth.{
  Request, Outcome, serve, reject, Step, go, stop, Wire, Secret, with_context,
  strip_actor_delegation_header, discard_actor_delegation, capture_pending_actor_delegation,
  strip_untrusted_invocation, consume_trusted_invocation, has_role, is_complete, header_user_id,
  header_app_id, header_app_role,
}
use app_module_sdk.Auth.Guards.{
  local_admin, no_binding, activate_or_discard, platform_preset, platform_typed, platform_headers,
  platform_consumed, capture_and_activate, platform_auth,
}
use app_module_sdk.Auth.Guards.Facts.{
  IsClean, Consumed, consume_trusted_invocation-go, capture_pending_actor_delegation-go,
  capture_pending_actor_delegation-stop, consume_trusted_invocation-stop,
  strip_untrusted_invocation-ctx, strip_untrusted_invocation-IsClean, remove-IsClean,
}

pub Step-cases :
    {A : Type 0} (st : Step A) → ((a : A) × (st ≡ go a)) ⊎ ((o : Outcome) × (st ≡ stop o))
Step-cases (go a) = inl (a, refl)
Step-cases (stop o) = inr (o, refl)

pub serve-injective : {r r' : Request} → serve r ≡ serve r' → r ≡ r'
serve-injective h = cc

-- What a platform handler gets: a request without the wire's assertion and without a pending one,
-- under some identity, with a delegation only on the platform surface.
pub record Sealed (r : Request) : Type 0 where
  pub clean : IsClean r.headers
  pub pending : r.ctx.pending ≡ ""
  pub surface : r.ctx.delegation ≢ "" → r.ctx.platform_surface ≡ true

pub discard-Sealed : (r : Request) → Sealed (discard_actor_delegation r)
unfolding discard_actor_delegation strip_actor_delegation_header with_context without_delegation
discard-Sealed r = record {
  clean = remove-IsClean r.headers;
  pending = refl;
  surface = λ n. absurd (n refl);
}

pub activate-Sealed :
    (r : Request) → IsClean r.headers → Sealed (with_context r (activate_pending_delegation r.ctx))
unfolding with_context activate_pending_delegation without_delegation with_delegation
activate-Sealed r h = record { clean = h; pending = ground arith; surface = λ n. ground arith }

pub strip_untrusted_invocation-Sealed :
    (r : Request) → Sealed r → Sealed (strip_untrusted_invocation r)
strip_untrusted_invocation-Sealed r h = record {
  clean = strip_untrusted_invocation-IsClean r h.clean;
  pending = ap (λ c. c.pending) (strip_untrusted_invocation-ctx r) ∙ h.pending;
  surface = rw (strip_untrusted_invocation-ctx r) h.surface;
}

platform_preset-Sealed :
    (r : Request) → Sealed (platform_preset r) × ((platform_preset r).ctx.identity ≡ r.ctx.identity)
unfolding platform_preset strip_actor_delegation_header with_context activate_pending_delegation
    without_delegation with_delegation discard_actor_delegation
platform_preset-Sealed r =
    let allowed = r.ctx.platform_surface && (r.ctx.proxy_trust || r.ctx.payload_trust) in
    let inner = strip_actor_delegation_header (activate_or_discard allowed r) in
    (
      strip_untrusted_invocation-Sealed inner (record {
        clean = remove-IsClean (activate_or_discard allowed r).headers;
        pending = ground arith;
        surface = λ n. ground arith;
      }),
      ap (λ c. c.identity) (strip_untrusted_invocation-ctx inner) ∙ ground arith,
    )

-- Under which identity a platform handler runs, and what the caller showed for it.
abbrev pub Entered : Bool → Secret → Request → Request → Type 0
Entered in_lambda secret r r' =
    ((has_role r.ctx.identity ≡ true) × (r'.ctx.identity ≡ r.ctx.identity))
    ⊎ ((secret.configured ≡ false) × (in_lambda ≡ false) × (r'.ctx.identity ≡ some local_admin))
    ⊎ ((secret.expected ≢ "")
        × (get secret.header r.headers ≡ secret.expected)
        × (is_complete r'.ctx.identity ≡ true))

identity-activate :
    (b : Bool) (r : Request) → (activate_or_discard b r).ctx.identity ≡ r.ctx.identity
unfolding with_context activate_pending_delegation without_delegation with_delegation
    discard_actor_delegation strip_actor_delegation_header
identity-activate true r = ground arith
identity-activate false r = ground arith

activate_or_discard-Sealed :
    (b : Bool) (r : Request) → IsClean r.headers → Sealed (activate_or_discard b r)
activate_or_discard-Sealed true r h = activate-Sealed r h
activate_or_discard-Sealed false r h = discard-Sealed r

-- A request that is served sealed, and under the identity of `r`.
abbrev Handed : Request → Request → Type 0
Handed r r' = Sealed r' × (r'.ctx.identity ≡ r.ctx.identity)

platform_typed-serve :
    (r r' : Request)
    → IsClean r.headers
    → platform_typed r ≡ serve r'
    → Sealed r' × (is_complete r'.ctx.identity ≡ true)
unfolding platform_typed
platform_typed-serve r r' h e = elim (Bool-cases (is_complete r.ctx.identity)) [
  | inr partial ↦ absurd (cc (rw partial at e))
  | inl complete ↦
      let surface = r.ctx.platform_surface in
      let same = serve-injective (rw complete at e) in
      (
        subst Sealed same (activate_or_discard-Sealed surface r h),
        subst (λ (q : Request). is_complete q.ctx.identity ≡ true) same
            (rw (identity-activate surface r) complete),
      )
]

capture_and_activate-serve :
    (b : Bool) (r r' : Request) → capture_and_activate b r ≡ serve r' → Handed r r'
capture_and_activate-serve false r r' e =
    subst (Handed r) (serve-injective e) (discard-Sealed r, identity-activate false r)
capture_and_activate-serve true r r' e = elim (Step-cases (capture_pending_actor_delegation r)) [
  | inr (reject status code, c) ↦ absurd (cc (rw c at e))
  | inr (serve q, c) ↦ absurd (capture_pending_actor_delegation-stop r q c)
  | inl (q, c) ↦
      let (kept, clean) = capture_pending_actor_delegation-go r q c in
      subst (Handed r) (serve-injective (rw c at e))
        (activate-Sealed q clean, identity-activate true q ∙ kept.identity)
]

platform_headers-serve :
    (r r' : Request)
    → platform_headers r ≡ serve r'
    → Sealed r' × (is_complete r'.ctx.identity ≡ true)
unfolding platform_headers
platform_headers-serve r r' e =
    let id : Identity = record {
      user_id = get header_user_id r.headers;
      app_id = get header_app_id r.headers;
      app_role = get header_app_role r.headers;
    } in
    let identified = with_context r (set id r.ctx) in
    elim (Bool-cases (is_complete (some id))) [
      | inr partial ↦ absurd (cc (rw partial at e))
      | inl complete ↦
          let (seal, same) =
            capture_and_activate-serve identified.ctx.platform_surface identified r'
              (rw complete at e) in
          (seal, rw same (unfold with_context set in complete))
    ]

platform_consumed-serve :
    (r : Request) (p : Request × Bool) (r' : Request)
    → Consumed r p
    → platform_consumed p ≡ serve r'
    → Sealed r' × (is_complete r'.ctx.identity ≡ true)
platform_consumed-serve r (q, true) r' (inr (_, t, _, _, _, clean)) e =
    platform_typed-serve q r' clean e
platform_consumed-serve r (q, true) r' (inl (no_type, _)) e = cc
platform_consumed-serve r (q, false) r' c e = platform_headers-serve q r' e

-- A platform handler runs only under an identity that stood in the context with a role, or the
-- developer's own where no secret is configured and the module is not in Lambda, or a complete one
-- from a caller that presented the secret. In every case it sees neither the wire's assertion nor
-- a pending delegation, and has an active one only on the platform surface.
pub platform_auth-serve :
    (wire : Wire) (in_lambda : Bool) (secret : Secret) (r r' : Request)
    → platform_auth wire in_lambda secret r ≡ serve r'
    → Sealed r' × Entered in_lambda secret r r'
unfolding platform_auth
platform_auth-serve wire in_lambda secret r r' e = elim (Bool-cases (has_role r.ctx.identity)) [
  | inl preset ↦
      let (seal, kept) = platform_preset-Sealed r in
      subst (λ (q : Request). Sealed q × Entered in_lambda secret r q)
        (serve-injective (rw preset at e)) (seal, inl (preset, kept))
  | inr anonymous ↦ elim (Bool-cases (not secret.configured && not in_lambda)) [
    | inl local ↦
        let q = with_context r (set local_admin r.ctx) in
        subst (λ (q : Request). Sealed q × Entered in_lambda secret r q)
          (serve-injective (rw (anonymous, local) at e))
          (
            strip_untrusted_invocation-Sealed (discard_actor_delegation q) (discard-Sealed q),
            inr (
                inl (
                  ground arith,
                  ground arith,
                  ap (λ c. c.identity) (strip_untrusted_invocation-ctx (discard_actor_delegation q))
                      ∙ identity-activate false q
                      ∙ unfold with_context set in refl,
                )),
          )
    | inr guarded ↦ elim (Bool-cases (secret.expected == "")) [
      | inl unusable ↦ absurd (cc (rw (anonymous, guarded, unusable) at e))
      | inr usable ↦ elim (Bool-cases (get secret.header r.headers == secret.expected)) [
        | inr mismatch ↦ absurd (cc (rw (anonymous, guarded, usable, mismatch) at e))
        | inl match_ ↦ elim (Step-cases (consume_trusted_invocation wire no_binding r)) [
          | inr (reject status code, c) ↦
              absurd (cc (rw (anonymous, guarded, usable, match_, c) at e))
          | inr (serve q, c) ↦ absurd (consume_trusted_invocation-stop wire no_binding r q c)
          | inl (p, c) ↦
              let (seal, complete) =
                platform_consumed-serve r p r' (consume_trusted_invocation-go wire no_binding r p c)
                  (rw (anonymous, guarded, usable, match_, c) at e) in
              (
                seal,
                inr (inr (ne_of_test secret.expected "" usable, eq_of_test _ _ match_, complete)),
              )
        ]
      ]
    ]
  ]
]
