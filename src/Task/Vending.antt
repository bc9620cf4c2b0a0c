-- ===== src/Task/Vending.antt =====
-- What a provider hands to a handler.
use app_module_sdk.Base.{
  ◌≡◌, refl, subst, inl, inr, Bool, true, false, ◌&&◌, Option, none, some, [], ◌∷◌, arith,
  Option-cases, if◌then◌else◌,
}
use app_module_sdk.Lifecycle.{Credential}
use app_module_sdk.Task.{Instant, Resources, Kind, Error, Refresh, Result, ok, err}
use app_module_sdk.Task.Broker.{Net, Codec, send_refresh}
use app_module_sdk.Task.Renewal.{
  database_complete, cache_complete, storage_complete, module_calls_complete, database_scope,
  cache_scope, storage_scope, module_calls_scope, unexpired, usable, renew, resource_usable,
  apply_refresh,
}
use app_module_sdk.Task.Manager.{
  State, time, rotate, store, apply_out, refreshed, refresh_locked, refresh, database, then_vend,
}
use app_module_sdk.Task.Keeps.{Kept, SameDatabase, Since, now_is, ticked, Since-trans, Reading}
use app_module_sdk.Task.Scopes.{Result-cases, map_ok-ok}
use app_module_sdk.Task.Operations.{Keeps-rotate, Keeps-send_refresh, Keeps-refresh}

abbrev is_live : {C : Type 0} → (C → Bool) → (C → Instant) → Instant → Option C → Bool
is_live complete expiry t none = false
is_live complete expiry t (some c) = complete c && unexpired t (expiry c)

-- A credential of the kind is there, complete, and not expired at the instant.
abbrev live : Kind → Instant → Resources → Bool
live Kind.database t r = is_live database_complete (λ c. c.expires_at) t r.database
live Kind.cache t r = is_live cache_complete (λ c. c.expires_at) t r.cache
live Kind.storage t r = is_live storage_complete (λ c. c.expires_at) t r.storage
live Kind.module_calls t r = is_live module_calls_complete (λ c. c.expires_at) t r.module_calls
live Kind.other t r = false

usable-live :
    {C : Type 0} (complete : C → Bool) (expiry : C → Instant) (t : Instant) (o : Option C)
    → usable complete expiry t o ≡ true
    → is_live complete expiry t o ≡ true
unfolding usable
usable-live complete expiry t none h = h
usable-live complete expiry t (some c) h = ground (arith, h)

resource_usable-live :
    (k : Kind) (t : Instant) (r : Resources) → resource_usable k t r ≡ true → live k t r ≡ true
unfolding resource_usable
resource_usable-live Kind.database t r h = usable-live _ _ t r.database h
resource_usable-live Kind.cache t r h = usable-live _ _ t r.cache h
resource_usable-live Kind.storage t r h = usable-live _ _ t r.storage h
resource_usable-live Kind.module_calls t r h = usable-live _ _ t r.module_calls h
resource_usable-live Kind.other t r h = h

renew-live :
    {C : Type 0} (complete : C → Bool) (expiry : C → Instant) (same : C → C → Bool) (k : Kind)
    (t : Instant) (old out : Option C) (c : C)
    → renew complete expiry same k t old out ≡ ok c
    → is_live complete expiry t (some c) ≡ true
unfolding renew
renew-live complete expiry same k t old none c h = cc
renew-live complete expiry same k t old (some d) c h = ground (arith, h)

apply_refresh-live :
    (k : Kind) (t : Instant) (r out r' : Resources)
    → apply_refresh k t r out ≡ ok r'
    → live k t r' ≡ true
unfolding apply_refresh
apply_refresh-live Kind.database t r out r' h =
    let (c, e, e') = map_ok-ok (λ c. record r { database = some c }) _ h in
    subst (λ x. live Kind.database t x ≡ true) e'
      (renew-live database_complete (λ c. c.expires_at) database_scope Kind.database t r.database
        out.database c e)
apply_refresh-live Kind.cache t r out r' h =
    let (c, e, e') = map_ok-ok (λ c. record r { cache = some c }) _ h in
    subst (λ x. live Kind.cache t x ≡ true) e'
      (renew-live cache_complete (λ c. c.expires_at) cache_scope Kind.cache t r.cache out.cache c e)
apply_refresh-live Kind.storage t r out r' h =
    let (c, e, e') = map_ok-ok (λ c. record r { storage = some c }) _ h in
    subst (λ x. live Kind.storage t x ≡ true) e'
      (renew-live storage_complete (λ c. c.expires_at) storage_scope Kind.storage t r.storage
        out.storage c e)
apply_refresh-live Kind.module_calls t r out r' h =
    let (c, e, e') = map_ok-ok (λ c. record r { module_calls = some c }) _ h in
    subst (λ x. live Kind.module_calls t x ≡ true) e'
      (renew-live module_calls_complete (λ c. c.expires_at) module_calls_scope Kind.module_calls t
        r.module_calls out.module_calls c e)
apply_refresh-live Kind.other t r out r' h = cc

module _ {S : Type 0} (net : Net S) (codec : Codec) where
  -- A refresh that succeeds leaves a live credential, at an instant that it read from the clock.
  abbrev Vends : S → Kind → Result (Unit {0}) × State S → Type 0
  Vends a k p =
      p.0 ≡ ok tt → (t : Instant) × Reading net a t × (live k t p.1.manager.resources ≡ true)

  Vends-if :
      (a : S) (k : Kind) (b : Bool) (x y : Result (Unit {0}) × State S)
      → (b ≡ true → Vends a k x)
      → (b ≡ false → Vends a k y)
      → Vends a k (if b then x else y)
  Vends-if a k true x y h g = h refl
  Vends-if a k false x y h g = g refl

  read_at : (a : S) (s : State S) → Since net a s.world.outside → Reading net a (time net codec s).0
  read_at a s h = record { at = s.world.outside; reached = h; is_read = refl }

  Vends-store :
      (a : S) (k : Kind) (t : Instant) (s : State S) (out : Resources)
      → Reading net a t
      → Vends a k (store net codec (apply_refresh k t s.manager.resources out) s)
  unfolding store
  Vends-store a k t s out h = elim (Result-cases (apply_refresh k t s.manager.resources out)) [
    | inl (r, e) ↦ rw e (λ _. (t, h, apply_refresh-live k t s.manager.resources out r e))
    | inr (f, e) ↦ rw e (λ h. cc)
  ]

  Vends-apply_out :
      (a : S) (k : Kind) (out : Refresh) (o : Option Error) (s : State S)
      → Since net a s.world.outside
      → Vends a k (apply_out net codec k out (o, s))
  unfolding apply_out
  Vends-apply_out a k out (some e) s later = λ h. cc
  Vends-apply_out a k out none s later =
      let (t, s') = time net codec s in
      Vends-if a k out.cancelled _ _ (λ _ h. cc)
        λ _. Vends-store a k t s' out.resources (read_at a s later)

  Vends-refreshed :
      (a : S) (k : Kind) (r : Result Refresh) (s : State S)
      → Since net a s.world.outside
      → Vends a k (refreshed net codec k r s)
  unfolding refreshed
  Vends-refreshed a k (err e) s later = λ h. cc
  Vends-refreshed a k (ok out) s later =
      let (o, s') = rotate net codec out.capability s in
      Vends-apply_out a k out o s'
        (Since-trans later (Keeps-rotate net codec out.capability s).later)

  Vends-refresh_locked :
      (a : S) (k : Kind) (s : State S)
      → Since net a s.world.outside
      → Vends a k (refresh_locked net codec k s)
  unfolding refresh_locked
  Vends-refresh_locked a k s later =
      let (v, s') = time net codec s in
      let (r, w) =
        send_refresh net codec s'.manager.job s'.manager.attempt s'.manager.capability.token
          (k ∷ []) s'.world in
      Vends-if a k s.manager.terminal _ _ (λ _ h. cc)
        λ _.
          Vends-if a k (resource_usable k v s'.manager.resources) _ _
            (λ e _. (v, read_at a s later, resource_usable-live k v _ e))
            λ _.
              Vends-refreshed a k r (record s' { world = w })
                (Since-trans (ticked later) (Keeps-send_refresh net codec s' (k ∷ [])).later)

  Vends-refresh : (k : Kind) (s : State S) → Vends s.world.outside k (refresh net codec k s)
  unfolding refresh
  Vends-refresh k s =
      let (t, s') = time net codec s in
      let (u, s'') = time net codec s' in
      let a = s.world.outside in
      Vends-if a k (resource_usable k t s'.manager.resources) _ _
        (λ e _. (t, read_at a s now_is, resource_usable-live k t _ e))
        λ _.
          Vends-if a k (resource_usable k u s''.manager.resources) _ _
            (λ e _. (u, read_at a s' (ticked now_is), resource_usable-live k u _ e))
            λ _. Vends-refresh_locked a k s'' (ticked (ticked now_is))

  then_vend-ok :
      {C : Type 0} (read : State S → Option C) (k : Kind) (p : Result (Unit {0}) × State S) (c : C)
      → (then_vend read k p).0 ≡ ok c
      → (p.0 ≡ ok tt) × (read p.1 ≡ some c)
  then_vend-ok read k (err e, s) c h = cc
  then_vend-ok read k (ok _, s) c h = elim (Option-cases (read s)) [
    | inl e ↦ ground (arith, h, e)
    | inr (d, e) ↦ ground (arith, h, e)
  ]

  -- A database credential that a handler gets is complete and has the host, the port, the database
  -- and the user of the one before. It had not expired at an instant that the clock gave during the
  -- call: in a state that the world reached from the call's start by readings of the clock and
  -- exchanges with the broker.
  pub database-vended :
      (s : State S) (c : Credential)
      → (database net codec s).0 ≡ ok c
      → Kept SameDatabase s.manager.resources.database (some c)
        × ((t : Instant) × Reading net s.world.outside t
            × (database_complete c && unexpired t c.expires_at ≡ true))
  unfolding database
  database-vended s c h =
      let (done, found) = then_vend-ok (λ s'. s'.manager.resources.database) Kind.database _ c h in
      let (t, reading, e) = Vends-refresh Kind.database s done in
      let kept = (Keeps-refresh net codec Kind.database s).scope.database in
      (
        subst (Kept SameDatabase s.manager.resources.database) found kept,
        (t, reading, subst (λ o. is_live database_complete (λ d. d.expires_at) t o ≡ true) found e),
      )
