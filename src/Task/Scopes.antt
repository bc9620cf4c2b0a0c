-- ===== src/Task/Scopes.antt =====
-- A renewal keeps the scopes of the credentials.
use app_module_sdk.Base.{
  ◌≡◌, refl, subst, ◌≢◌, ◌⊎◌, inl, inr, Bool, true, ◌&&◌, Option, none, some, arith, eq_iff,
  Bool-cases,
}
use app_module_sdk.Base.Int.{eq_of_parts}
use app_module_sdk.Lifecycle.{Credential}
use app_module_sdk.Task.{
  Instant, Capability, CacheCredential, StorageCredential, Resources, Kind, Error, Result, ok, err,
  validate_capability,
}
use app_module_sdk.Task.Renewal.{
  database_complete, cache_complete, storage_complete, database_scope, cache_scope, storage_scope,
  renew, map_ok, apply_refresh, unexpired,
}
use app_module_sdk.Task.Keeps.{
  Kept, SameDatabase, SameCache, SameStorage, KeepsScope, KeepsScope-refl,
}

-- A renewed credential is in the relation that its scope test stands for.
renew-Kept :
    {C : Type 0} (complete : C → Bool) (expiry : C → Instant) (same : C → C → Bool)
    (R : C → C → Type 0) (k : Kind) (now : Instant) (old out : Option C) (c : C)
    → ((a b : C) → same a b ≡ true → R a b)
    → renew complete expiry same k now old out ≡ ok c
    → Kept R old (some c)
unfolding renew
renew-Kept complete expiry same R k now none out c h e = tt
renew-Kept complete expiry same R k now (some o) none c h e = cc
renew-Kept complete expiry same R k now (some o) (some d) c h e =
    elim (Bool-cases (complete d && unexpired now (expiry d))) [
      | inr f ↦ ground (arith, f, e)
      | inl f ↦ elim (Bool-cases (same o d)) [
        | inr g ↦ ground (arith, f, g, e)
        | inl g ↦ let e' : d ≡ c = ground (arith, f, g, e) in (c, refl, subst (R o) e' (h o d g))
      ]
    ]

scope_of_database : (a b : Credential) → database_scope a b ≡ true → SameDatabase a b
scope_of_database a b h = ground (
  arith,
  eq_iff a.host b.host,
  eq_iff a.database b.database,
  eq_iff a.username b.username,
  eq_of_parts a.port b.port,
)

scope_of_cache : (a b : CacheCredential) → cache_scope a b ≡ true → SameCache a b
scope_of_cache a b h = ground (arith, eq_iff a.endpoint b.endpoint, eq_iff a.username b.username)

scope_of_storage : (a b : StorageCredential) → storage_scope a b ≡ true → SameStorage a b
scope_of_storage a b h = ground (
  arith,
  eq_iff a.bucket b.bucket,
  eq_iff a.region b.region,
  eq_iff a.prefix b.prefix,
  eq_iff a.cdn_base b.cdn_base,
)

-- A lease that is adopted has a token.
pub validate_capability-token :
    (c : Capability) (now : Instant) → validate_capability c now ≡ none → c.token ≢ ""
unfolding validate_capability
validate_capability-token c now h e = ground (arith, eq_iff c.token "")

pub Result-cases :
    {A : Type 0} (r : Result A) → ((a : A) × (r ≡ ok a)) ⊎ ((e : Error) × (r ≡ err e))
Result-cases (ok a) = inl (a, refl)
Result-cases (err e) = inr (e, refl)

pub map_ok-ok :
    {A B : Type 0} (f : A → B) (r : Result A) {b : B}
    → map_ok f r ≡ ok b
    → (a : A) × (r ≡ ok a) × (f a ≡ b)
map_ok-ok f (ok a) h = (a, refl, cc)
map_ok-ok f (err e) h = cc

pub apply_refresh-KeepsScope :
    (k : Kind) (now : Instant) (r out r' : Resources)
    → apply_refresh k now r out ≡ ok r'
    → KeepsScope r r'
unfolding apply_refresh
apply_refresh-KeepsScope Kind.database now r out r' h =
    let (c, e, e') = map_ok-ok (λ c. record r { database = some c }) _ h in
    subst (KeepsScope r) e' (record {
      database =
          renew-Kept database_complete (λ c. c.expires_at) database_scope SameDatabase Kind.database
            now r.database out.database c scope_of_database e;
      cache = (KeepsScope-refl r).cache;
      storage = (KeepsScope-refl r).storage;
    })
apply_refresh-KeepsScope Kind.cache now r out r' h =
    let (c, e, e') = map_ok-ok (λ c. record r { cache = some c }) _ h in
    subst (KeepsScope r) e' (record {
      cache =
          renew-Kept cache_complete (λ c. c.expires_at) cache_scope SameCache Kind.cache now r.cache
            out.cache c scope_of_cache e;
      database = (KeepsScope-refl r).database;
      storage = (KeepsScope-refl r).storage;
    })
apply_refresh-KeepsScope Kind.storage now r out r' h =
    let (c, e, e') = map_ok-ok (λ c. record r { storage = some c }) _ h in
    subst (KeepsScope r) e' (record {
      storage =
          renew-Kept storage_complete (λ c. c.expires_at) storage_scope SameStorage Kind.storage now
            r.storage out.storage c scope_of_storage e;
      database = (KeepsScope-refl r).database;
      cache = (KeepsScope-refl r).cache;
    })
apply_refresh-KeepsScope Kind.module_calls now r out r' h =
    let (c, e, e') = map_ok-ok (λ c. record r { module_calls = some c }) _ h in
    subst (KeepsScope r) e' (record {
      database = (KeepsScope-refl r).database;
      cache = (KeepsScope-refl r).cache;
      storage = (KeepsScope-refl r).storage;
    })
apply_refresh-KeepsScope Kind.other now r out r' h = cc
