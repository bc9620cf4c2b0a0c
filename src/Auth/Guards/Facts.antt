-- ===== src/Auth/Guards/Facts.antt =====
-- What the helpers of the guards do to a request.
use app_module_sdk.Base.{
  String, ◌≡◌, refl, subst, inl, inr, ◌⊎◌, ◌≢◌, Bool, true, false, Option, none, some, List, [],
  ◌∷◌, arith, eq_iff, eq_refl, Bool-cases, eqb, if◌then◌else◌,
}
use app_module_sdk.Base.Dict.{lookup, remove, lookup-remove}
use app_module_sdk.Auth.Headers.{
  HeaderMap, values, values_equal_fold, invocation_header, equal_fold, strip,
  stripped_invocation_headers, is_stripped, is_legacy, folds_to_one_of,
}
use app_module_sdk.Auth.Actor.{
  Binding, Trusted, set, valid_transport_value, with_pending_delegation, without_delegation,
}
use app_module_sdk.Auth.{
  Request, serve, go, stop, Wire, with_context, strip_actor_delegation_header,
  capture_pending_actor_delegation, take_trusted_actor_delegation, take_values, captured,
  install_invocation, consume_decoded, consume_values, invocation_matches,
  strip_untrusted_invocation, consume_trusted_invocation, header_delegation,
}

go-injective : {A : Type 0} {a b : A} → go a ≡ go b → a ≡ b
go-injective h = cc

-- The wire's assertion is not among the headers.
abbrev pub IsClean : HeaderMap → Type 0
IsClean h = values header_delegation h ≡ []

lookup-strip :
    (p : String → Bool) (k : String) (h : HeaderMap)
    → lookup k (strip p h) ≡ (if p k then none else lookup k h)
unfolding lookup strip
lookup-strip p k [] = ground arith
lookup-strip p k ((j, vs) ∷ h) = ground (arith, lookup-strip p k h, eq_iff j k)

pub strip-IsClean : (p : String → Bool) (h : HeaderMap) → IsClean h → IsClean (strip p h)
unfolding values
strip-IsClean p h e = ground (arith, lookup-strip p header_delegation h)

-- Removing the assertion's header.
pub remove-IsClean : (h : HeaderMap) → IsClean (remove header_delegation h)
unfolding values
remove-IsClean h =
    ground (arith, lookup-remove header_delegation header_delegation h, eq_refl header_delegation)

pub strip_untrusted_invocation-ctx : (r : Request) → (strip_untrusted_invocation r).ctx ≡ r.ctx
unfolding strip_untrusted_invocation
strip_untrusted_invocation-ctx r = ground arith

pub strip_untrusted_invocation-IsClean :
    (r : Request) → IsClean r.headers → IsClean (strip_untrusted_invocation r).headers
unfolding strip_untrusted_invocation stripped_invocation_headers
strip_untrusted_invocation-IsClean r h =
    ground (arith, strip-IsClean (is_stripped false) r.headers h)

-- What leaves the context's identity and marks as they were.
pub record Same (r r' : Request) : Type 0 where
  pub identity : r'.ctx.identity ≡ r.ctx.identity
  pub surface : r'.ctx.platform_surface ≡ r.ctx.platform_surface

captured-take_values :
    (r r' : Request) (vs : List String)
    → captured (take_values r vs) ≡ go r'
    → Same r r'
      × (((vs ≡ []) × (r'.headers ≡ r.headers)) ⊎ (r'.headers ≡ remove header_delegation r.headers))
unfolding strip_actor_delegation_header with_context with_pending_delegation
captured-take_values r r' [] e =
    (record { identity = ground arith; surface = ground arith }, inl (refl, ground arith))
captured-take_values r r' (v ∷ []) e = elim (Bool-cases (valid_transport_value v)) [
  | inl fine ↦
      let e' = rw fine at e in
      (record { identity = ground arith; surface = ground arith }, inr (ground arith))
  | inr bad ↦ absurd (cc (rw bad at e))
]
captured-take_values r r' (v ∷ w ∷ vs) e = cc

-- Without an assertion nothing is captured; a captured one leaves the headers.
pub capture_pending_actor_delegation-go :
    (r r' : Request) → capture_pending_actor_delegation r ≡ go r' → Same r r' × IsClean r'.headers
unfolding capture_pending_actor_delegation take_trusted_actor_delegation
capture_pending_actor_delegation-go r r' e =
    let (same, headers) = captured-take_values r r' (values header_delegation r.headers) e in
    elim headers [
      | inl (gone, kept) ↦ (same, rw kept gone)
      | inr taken ↦ (same, rw taken (remove-IsClean r.headers))
    ]

-- An invocation's headers are gone after it was consumed, the assertion's among them.
install_invocation-IsClean : (t : Trusted) (r : Request) → IsClean (install_invocation t r).headers
unfolding install_invocation stripped_invocation_headers values is_legacy folds_to_one_of equal_fold
install_invocation-IsClean t r =
    ground (arith, lookup-strip (is_stripped true) header_delegation r.headers)

-- Nothing was consumed, or the whole identity comes from an invocation that matched.
abbrev pub Consumed : Request → Request × Bool → Type 0
Consumed r (r', typed) =
    ((typed ≡ false) × (r' ≡ r))
    ⊎ ((typed ≡ true)
        × (t : Trusted) × (r'.ctx.identity
            ≡ some (record { user_id = t.user_id; app_id = t.app_id; app_role = t.app_role }))
        × (r'.ctx.platform_surface ≡ r.ctx.platform_surface)
        × (r'.ctx.delegation ≡ "")
        × IsClean r'.headers)

install_invocation-Consumed :
    (t : Trusted) (r : Request) → Consumed r (install_invocation t r, true)
unfolding install_invocation with_pending_delegation without_delegation set
install_invocation-Consumed t r =
    inr (refl, t, ground arith, ground arith, ground arith, install_invocation-IsClean t r)

consume_decoded-go :
    (wire : Wire) (b : Binding) (r : Request) (o : Option Trusted) (p : Request × Bool)
    → consume_decoded wire b r o ≡ go p
    → Consumed r p
consume_decoded-go wire b r none p e = cc
consume_decoded-go wire b r (some t) p e = elim (Bool-cases (invocation_matches wire b r t)) [
  | inl fine ↦ subst (Consumed r) (go-injective (rw fine at e)) (install_invocation-Consumed t r)
  | inr bad ↦ absurd (cc (rw bad at e))
]

consume_values-go :
    (wire : Wire) (b : Binding) (r : Request) (vs : List String) (p : Request × Bool)
    → consume_values wire b r vs ≡ go p
    → Consumed r p
consume_values-go wire b r [] p e = cc
consume_values-go wire b r (v ∷ []) p e = consume_decoded-go wire b r (wire.decode_header v) p e
consume_values-go wire b r (v ∷ w ∷ vs) p e = cc

pub consume_trusted_invocation-go :
    (wire : Wire) (b : Binding) (r : Request) (p : Request × Bool)
    → consume_trusted_invocation wire b r ≡ go p
    → Consumed r p
unfolding consume_trusted_invocation
consume_trusted_invocation-go wire b r p e =
    let (vs, names) = values_equal_fold invocation_header r.headers in
    elim (Bool-cases (eqb names 0)) [
      | inl absent ↦ subst (Consumed r) (go-injective (rw absent at e)) (inl (refl, refl))
      | inr present ↦ elim (Bool-cases (eqb names 1)) [
        | inl one ↦ consume_values-go wire b r vs p (rw (present, one) at e)
        | inr many ↦ absurd (cc (rw (present, many) at e))
      ]
    ]

-- What ends the two steps early is a rejection.
captured-stop : (r q : Request) (vs : List String) → captured (take_values r vs) ≢ stop (serve q)
captured-stop r q [] e = cc
captured-stop r q (v ∷ []) e = elim (Bool-cases (valid_transport_value v)) [
  | inl fine ↦ absurd (cc (rw fine at e))
  | inr bad ↦ absurd (cc (rw bad at e))
]
captured-stop r q (v ∷ w ∷ vs) e = cc

pub capture_pending_actor_delegation-stop :
    (r q : Request) → capture_pending_actor_delegation r ≢ stop (serve q)
unfolding capture_pending_actor_delegation take_trusted_actor_delegation
capture_pending_actor_delegation-stop r q e =
    captured-stop r q (values header_delegation r.headers) e

consume_decoded-stop :
    (wire : Wire) (b : Binding) (r q : Request) (o : Option Trusted)
    → consume_decoded wire b r o ≢ stop (serve q)
consume_decoded-stop wire b r q none e = cc
consume_decoded-stop wire b r q (some t) e = elim (Bool-cases (invocation_matches wire b r t)) [
  | inl fine ↦ absurd (cc (rw fine at e))
  | inr bad ↦ absurd (cc (rw bad at e))
]

consume_values-stop :
    (wire : Wire) (b : Binding) (r q : Request) (vs : List String)
    → consume_values wire b r vs ≢ stop (serve q)
consume_values-stop wire b r q [] e = cc
consume_values-stop wire b r q (v ∷ []) e = consume_decoded-stop wire b r q (wire.decode_header v) e
consume_values-stop wire b r q (v ∷ w ∷ vs) e = cc

pub consume_trusted_invocation-stop :
    (wire : Wire) (b : Binding) (r q : Request)
    → consume_trusted_invocation wire b r ≢ stop (serve q)
unfolding consume_trusted_invocation
consume_trusted_invocation-stop wire b r q e =
    let (vs, names) = values_equal_fold invocation_header r.headers in
    elim (Bool-cases (eqb names 0)) [
      | inl absent ↦ absurd (cc (rw absent at e))
      | inr present ↦ elim (Bool-cases (eqb names 1)) [
        | inl one ↦ consume_values-stop wire b r q vs (rw (present, one) at e)
        | inr many ↦ absurd (cc (rw (present, many) at e))
      ]
    ]
