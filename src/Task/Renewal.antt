-- ===== src/Task/Renewal.antt =====
-- internal/runtime/task_worker.go: `resourceUsable` and `applyRefresh`, the tests of the renewable
-- credentials of an attempt.
use app_module_sdk.Base.{
  ℕ, ◌+◌, ◌*◌, Bool, true, false, ◌&&◌, ◌||◌, not, Option, none, some, ◌==◌, if◌then◌else◌,
}
use app_module_sdk.Base.Int.{pos, eq_int}
use app_module_sdk.Lifecycle.{Credential}
use app_module_sdk.Task.{
  Instant, second, is_zero, is_after, CacheCredential, StorageCredential, ModuleCallCapability,
  Resources, Kind, Result, ok, err, omitted, incomplete, changed_scope, unsupported_kind,
}

abbrev pub refresh_margin : ℕ
refresh_margin = 30 * second

-- The fields that a credential of each kind has to have.
abbrev pub database_complete : Credential → Bool
database_complete c =
    not (c.host == "")
    && not (eq_int c.port (pos 0))
    && not (c.database == "")
    && not (c.username == "")
    && not (c.token == "")

abbrev pub cache_complete : CacheCredential → Bool
cache_complete c = not (c.endpoint == "") && not (c.username == "") && not (c.token == "")

abbrev pub storage_complete : StorageCredential → Bool
storage_complete c =
    not (c.bucket == "")
    && not (c.region == "")
    && not (c.prefix == "")
    && not (c.cdn_base == "")
    && not (c.access_key_id == "")
    && not (c.secret_access_key == "")
    && not (c.session_token == "")

abbrev pub module_calls_complete : ModuleCallCapability → Bool
module_calls_complete c = not (c.token == "")

-- The fields that a renewed credential may not change.
abbrev pub database_scope : Credential → Credential → Bool
database_scope old new =
    old.host == new.host
    && eq_int old.port new.port
    && old.database == new.database
    && old.username == new.username

abbrev pub cache_scope : CacheCredential → CacheCredential → Bool
cache_scope old new = old.endpoint == new.endpoint && old.username == new.username

abbrev pub storage_scope : StorageCredential → StorageCredential → Bool
storage_scope old new =
    old.bucket == new.bucket
    && old.region == new.region
    && old.prefix == new.prefix
    && old.cdn_base == new.cdn_base

-- The capability for calls has no scope that is compared.
abbrev pub module_calls_scope : ModuleCallCapability → ModuleCallCapability → Bool
module_calls_scope old new = true

-- `safelyValid`
abbrev pub safely_valid : Instant → Instant → Bool
safely_valid now expires_at = is_after expires_at (now + refresh_margin)

-- `ExpiresAt.IsZero() || !ExpiresAt.After(now)` does not hold.
abbrev pub unexpired : Instant → Instant → Bool
unexpired now expires_at = not (is_zero expires_at) && is_after expires_at now

module _ {C : Type 0} (complete : C → Bool) (expiry : C → Instant) where
  -- A case of `resourceUsable`.
  unfoldable pub usable : Instant → Option C → Bool
  usable now none = false
  usable now (some c) = complete c && safely_valid now (expiry c)

  abbrev pub in_scope : (C → C → Bool) → Option C → C → Bool
  in_scope same none new = true
  in_scope same (some old) new = same old new

  -- A case of `applyRefresh`: the credential that replaces the old one.
  unfoldable pub renew : (C → C → Bool) → Kind → Instant → Option C → Option C → Result C
  renew same kind now old none = err (omitted kind)
  renew same kind now old (some c) =
      if not (complete c) || not (unexpired now (expiry c))
      then err (incomplete kind)
      else if not (in_scope same old c)
      then err (changed_scope kind)
      else ok c

abbrev pub map_ok : {A B : Type 0} → (A → B) → Result A → Result B
map_ok f (ok a) = ok (f a)
map_ok f (err e) = err e

unfoldable pub resource_usable : Kind → Instant → Resources → Bool
unfolding usable
resource_usable Kind.database now r = usable database_complete (λ c. c.expires_at) now r.database
resource_usable Kind.cache now r = usable cache_complete (λ c. c.expires_at) now r.cache
resource_usable Kind.storage now r = usable storage_complete (λ c. c.expires_at) now r.storage
resource_usable Kind.module_calls now r =
    usable module_calls_complete (λ c. c.expires_at) now r.module_calls
resource_usable Kind.other now r = false

-- `applyRefresh`: the resources of the manager, then those of the response.
unfoldable pub apply_refresh : Kind → Instant → Resources → Resources → Result Resources
unfolding renew
apply_refresh Kind.database now r out =
    map_ok (λ c. record r { database = some c })
      (renew database_complete (λ c. c.expires_at) database_scope Kind.database now r.database
        out.database)
apply_refresh Kind.cache now r out =
    map_ok (λ c. record r { cache = some c })
      (renew cache_complete (λ c. c.expires_at) cache_scope Kind.cache now r.cache out.cache)
apply_refresh Kind.storage now r out =
    map_ok (λ c. record r { storage = some c })
      (renew storage_complete (λ c. c.expires_at) storage_scope Kind.storage now r.storage
        out.storage)
apply_refresh Kind.module_calls now r out =
    map_ok (λ c. record r { module_calls = some c })
      (renew module_calls_complete (λ c. c.expires_at) module_calls_scope Kind.module_calls now
        r.module_calls out.module_calls)
apply_refresh Kind.other now r out = err unsupported_kind
