-- ===== src/Task/Manager.antt =====
-- internal/runtime/task_worker.go: `taskResourceManager`. Each operation that holds `brokerMu` is one
-- function; `refreshGroup` makes callers of one kind share the result of one of them.
use app_module_sdk.Base.{
  ℕ, ◌-◌, ◌*◌, String, Bool, true, ◌&&◌, ◌||◌, not, Option, none, some, [], ◌∷◌, ◌==◌, ltb,
  if◌then◌else◌,
}
use app_module_sdk.Base.Int.{ℤ, pos, pos_part, lt_int}
use app_module_sdk.Lifecycle.{Credential}
use app_module_sdk.Task.{
  Instant, second, is_zero, is_after, Capability, no_capability, CacheCredential, StorageCredential,
  ModuleCallCapability, Resources, no_resources, Heartbeat, Refresh, Kind, Error, Result, ok, err,
  not_vended, after_terminal, module_call_expired, task_cancelled, refresh_failed,
  validate_capability,
}
use app_module_sdk.Task.Broker.{
  Net, Codec, World, clock, send_heartbeat, send_refresh, send_complete, send_fail,
}
use app_module_sdk.Task.Renewal.{unexpired, resource_usable, apply_refresh}

-- The fields of the manager, and the cause of the context that its `cancel` ends.
pub record Manager : Type 0 where
  pub job : String
  pub attempt : String
  pub capability : Capability
  pub resources : Resources
  pub terminal : Bool
  pub cause : Option Error

pub record State (S : Type 0) : Type 0 where
  pub manager : Manager
  pub world : World S

-- The first call of a `CancelCauseFunc` decides.
abbrev pub first_cause : Option Error → Error → Option Error
first_cause none e = some e
first_cause (some c) e = some c

abbrev pub cancel : Error → Manager → Manager
cancel e m = record m { cause = first_cause m.cause e }

-- A provider's read after `refresh`.
abbrev pub vended : {C : Type 0} → Kind → Option C → Result C
vended k none = err (not_vended k)
vended k (some c) = ok c

module _ {S : Type 0} where
  abbrev pub cancelling : Error → State S → State S
  cancelling e s = record s { manager = cancel e s.manager }

  abbrev pub then_vend :
      {C : Type 0} → (State S → Option C) → Kind → Result (Unit {0}) × State S → Result C × State S
  then_vend read k (err e, s) = (err e, s)
  then_vend read k (ok _, s) = (vended k (read s), s)

module _ {S : Type 0} (net : Net S) (codec : Codec) where
  abbrev pub time : State S → Instant × State S
  time s = let (t, w) = clock net s.world in (t, record s { world = w })

  unfoldable pub adopted : Capability → Option Error → State S → Option Error × State S
  adopted c (some e) s = (some e, s)
  adopted c none s = (none, record s { manager = record s.manager { capability = c } })

  unfoldable pub rotate : Option Capability → State S → Option Error × State S
  unfolding adopted
  rotate none s = (none, s)
  rotate (some c) s = let (t, s') = time s in adopted c (validate_capability c t) s'

  unfoldable pub store : Result Resources → State S → Result (Unit {0}) × State S
  store (err e) s = (err e, cancelling e s)
  store (ok r) s = (ok tt, record s { manager = record s.manager { resources = r } })

  unfoldable pub apply_out : Kind → Refresh → Option Error × State S → Result (Unit {0}) × State S
  unfolding store
  apply_out k out (some e, s) = (err e, cancelling e s)
  apply_out k out (none, s) =
      if out.cancelled
      then (err task_cancelled, cancelling task_cancelled s)
      else let (t, s') = time s in store (apply_refresh k t s'.manager.resources out.resources) s'

  -- `refresh` from the answer of the broker on.
  unfoldable pub refreshed : Kind → Result Refresh → State S → Result (Unit {0}) × State S
  unfolding apply_out rotate
  refreshed k (err e) s = (err e, cancelling (refresh_failed e) s)
  refreshed k (ok out) s = apply_out k out (rotate out.capability s)

  -- `refresh` under `brokerMu`.
  unfoldable pub refresh_locked : Kind → State S → Result (Unit {0}) × State S
  unfolding refreshed
  refresh_locked k s =
      if s.manager.terminal
      then (err after_terminal, s)
      else let (t, s') = time s in
        if resource_usable k t s'.manager.resources
        then (ok tt, s')
        else let (r, w) =
            send_refresh net codec s'.manager.job s'.manager.attempt s'.manager.capability.token
              (k ∷ []) s'.world in
          refreshed k r (record s' { world = w })

  -- `refresh`, with its two tests before the lock.
  unfoldable pub refresh : Kind → State S → Result (Unit {0}) × State S
  unfolding refresh_locked
  refresh k s =
      let (t, s') = time s in
      if resource_usable k t s'.manager.resources
      then (ok tt, s')
      else let (u, s'') = time s' in
        if resource_usable k u s''.manager.resources then (ok tt, s'') else refresh_locked k s''

  unfoldable pub database : State S → Result Credential × State S
  unfolding refresh
  database s =
      then_vend (λ s'. s'.manager.resources.database) Kind.database (refresh Kind.database s)

  unfoldable pub cache : State S → Result CacheCredential × State S
  unfolding refresh
  cache s = then_vend (λ s'. s'.manager.resources.cache) Kind.cache (refresh Kind.cache s)

  unfoldable pub storage : State S → Result StorageCredential × State S
  unfolding refresh
  storage s = then_vend (λ s'. s'.manager.resources.storage) Kind.storage (refresh Kind.storage s)

  unfoldable pub checked_calls :
      Result ModuleCallCapability × State S → Result ModuleCallCapability × State S
  checked_calls (err e, s) = (err e, s)
  checked_calls (ok c, s) =
      if c.token == ""
      then (err (not_vended Kind.module_calls), s)
      else let (t, s') = time s in
        if unexpired t c.expires_at then (ok c, s') else (err module_call_expired, s')

  unfoldable pub module_calls : State S → Result ModuleCallCapability × State S
  unfolding refresh checked_calls
  module_calls s = checked_calls (
      then_vend (λ s'. s'.manager.resources.module_calls) Kind.module_calls
        (refresh Kind.module_calls s))

  unfoldable pub beaten : Heartbeat → Option Error × State S → Result Heartbeat × State S
  beaten h (some e, s) = (err e, s)
  beaten h (none, s) = (ok h, s)

  unfoldable pub rotated_beat : Result Heartbeat → State S → Result Heartbeat × State S
  unfolding beaten rotate
  rotated_beat (err e) s = (err e, s)
  rotated_beat (ok h) s = beaten h (rotate h.capability s)

  unfoldable pub heartbeat : State S → Result Heartbeat × State S
  unfolding rotated_beat
  heartbeat s =
      let (r, w) =
        send_heartbeat net codec s.manager.job s.manager.attempt s.manager.capability.token
          s.world in
      rotated_beat r (record s { world = w })

  abbrev pub ended : State S → State S
  ended s = record s { manager = record s.manager { terminal = true } }

  unfoldable pub complete : State S → Result (Unit {0}) × State S
  complete s =
      let (r, w) =
        send_complete net codec s.manager.job s.manager.attempt s.manager.capability.token
          s.world in
      (r, record (ended s) { world = w })

  unfoldable pub fail : String → String → Bool → State S → Result (Unit {0}) × State S
  fail code message retryable s =
      let (r, w) =
        send_fail net codec s.manager.job s.manager.attempt s.manager.capability.token code message
          retryable s.world in
      (r, record (ended s) { world = w })

  unfoldable pub clear : State S → State S
  clear s = record s {
    manager = record s.manager {
      terminal = true;
      capability = no_capability;
      resources = no_resources;
    };
  }

-- The three durations of `heartbeatDelay`.
abbrev pub default_delay : ℕ
default_delay = 30 * second

abbrev pub minimum_delay : ℕ
minimum_delay = second

abbrev pub expiry_margin : ℕ
expiry_margin = 15 * second

-- A round of the loop; a `candidate` is 0 where the source's is negative.
abbrev pub shorter : ℕ → ℕ → ℕ
shorter delay candidate = if ltb 0 candidate && ltb candidate delay then candidate else delay

-- The lease is to be renewed at once.
abbrev pub overdue : Capability → Instant → Bool
overdue c now =
    (not (is_zero c.refresh_after) && not (is_after c.refresh_after now))
    || (not (is_zero c.expires_at) && not (is_after (c.expires_at - expiry_margin) now))

unfoldable pub heartbeat_delay : ℤ → Capability → Instant → ℕ
heartbeat_delay configured c now =
    if lt_int (pos 0) configured
    then pos_part configured
    else if overdue c now
    then minimum_delay
    else shorter (shorter default_delay (c.refresh_after - now))
        (c.expires_at - expiry_margin - now)
