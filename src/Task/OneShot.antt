-- ===== src/Task/OneShot.antt =====
-- internal/runtime/task_worker.go: `RunOneShot`. The handler and the goroutine of the heartbeat meet
-- in the manager only, whose operations hold a lock: a run is a list of events in the order of the
-- locks, which the handler gives.
use app_module_sdk.Base.{
  ◌+◌, String, Bool, true, false, ◌&&◌, ◌||◌, not, Option, none, some, List, [], ◌∷◌, ◌==◌, ltb,
  is_some, if◌then◌else◌,
}
use app_module_sdk.Base.Int.{ℤ, pos, pos_part, lt_int}
use app_module_sdk.Ids.{is_uuid, canonical_module_id, take}
use app_module_sdk.Task.{
  Instant, is_zero, is_after, Claim, Heartbeat, Kind, Error, Result, ok, err, foreign,
  incomplete_config, ids_not_uuids, not_one_claim_source, already_handled, task_cancelled,
  deadline_exceeded, context_canceled, panicked, transport, refresh_failed, heartbeat_failed,
  completion_failed, failure_failed, unreported, validate_capability,
}
use app_module_sdk.Task.Broker.{Net, Codec, World, clock, send_claim, send_fail}
use app_module_sdk.Task.Manager.{
  Manager, State, cancelling, time, database, cache, storage, module_calls, heartbeat, complete,
  fail, clear,
}
use app_module_sdk.Task.Claims.{
  Event, use_of, beat, parent_done, deadline_reached, Ending, returned, panics, TaskContext,
  Handler, Config, Parsers, is_module_ref, claim_identity_matches, handler_of, validate_claim,
}

-- `errors.Is` and `errors.As` on the errors of the model.
unfoldable pub is_deadline_exceeded : Error → Bool
is_deadline_exceeded deadline_exceeded = true
is_deadline_exceeded (foreign f) = f.deadline_exceeded
is_deadline_exceeded (transport e) = is_deadline_exceeded e
is_deadline_exceeded (refresh_failed e) = is_deadline_exceeded e
is_deadline_exceeded (heartbeat_failed e) = is_deadline_exceeded e
is_deadline_exceeded _ = false

unfoldable pub is_task_cancelled : Error → Bool
is_task_cancelled task_cancelled = true
is_task_cancelled (foreign f) = f.task_cancelled
is_task_cancelled (transport e) = is_task_cancelled e
is_task_cancelled (refresh_failed e) = is_task_cancelled e
is_task_cancelled (heartbeat_failed e) = is_task_cancelled e
is_task_cancelled _ = false

unfoldable pub is_context_canceled : Error → Bool
is_context_canceled context_canceled = true
is_context_canceled (foreign f) = f.context_canceled
is_context_canceled (transport e) = is_context_canceled e
is_context_canceled (refresh_failed e) = is_context_canceled e
is_context_canceled (heartbeat_failed e) = is_context_canceled e
is_context_canceled _ = false

unfoldable pub retry_policy : Error → Option Bool
retry_policy (foreign f) = f.retryable
retry_policy (transport e) = retry_policy e
retry_policy (refresh_failed e) = retry_policy e
retry_policy (heartbeat_failed e) = retry_policy e
retry_policy _ = none

abbrev pub is_permanent : Option Bool → Bool
is_permanent none = false
is_permanent (some retryable) = not retryable

-- `classifyTaskFailure`: the code, and whether the broker may run the task again.
unfoldable pub classify_failure : Error → Bool → String × Bool
unfolding is_deadline_exceeded is_task_cancelled is_context_canceled retry_policy
classify_failure e p =
    if p
    then ("handler_panic", true)
    else if is_deadline_exceeded e
    then ("deadline_exceeded", false)
    else if is_task_cancelled e
    then ("cancelled", false)
    else if is_context_canceled e
    then ("interrupted", true)
    else if is_permanent (retry_policy e)
    then ("permanent_error", false)
    else ("handler_error", true)

-- `boundedMessage`, on the text of the error; a text has one byte a character here.
unfoldable pub bounded_message : String → String
unfolding take
bounded_message = take 2048

-- The earlier of the broker's deadline and the handler's own timeout.
unfoldable pub effective_deadline : Instant → ℤ → Instant → Instant
effective_deadline deadline timeout now =
    if lt_int (pos 0) timeout && (is_zero deadline || ltb (now + pos_part timeout) deadline)
    then now + pos_part timeout
    else deadline

-- The manager, whether the heartbeat's loop runs, and whether the handler's deadline has passed.
pub record Session (S : Type 0) : Type 0 where
  pub state : State S
  pub beating : Bool
  pub expired : Bool

-- What a run leaves: the result, the world, and the manager that late uses of a provider meet.
pub record Run (S : Type 0) : Type 0 where
  pub result : Result (Unit {0})
  pub world : World S
  pub manager : Option Manager

module _ {S : Type 0} (net : Net S) (codec : Codec) where
  -- A use of a provider by the handler.
  unfoldable pub use_provider : Kind → State S → State S
  unfolding database cache storage module_calls
  use_provider Kind.database s = (database net codec s).1
  use_provider Kind.cache s = (cache net codec s).1
  use_provider Kind.storage s = (storage net codec s).1
  use_provider Kind.module_calls s = (module_calls net codec s).1
  use_provider Kind.other s = s

  abbrev pub stop_beating : Error → State S → Session S → Session S
  stop_beating e s session = record session { state = cancelling e s; beating = false }

  unfoldable pub after_beat : Result Heartbeat × State S → Session S → Session S
  after_beat (err e, s) session = stop_beating (heartbeat_failed e) s session
  after_beat (ok h, s) session =
      if h.cancelled
      then stop_beating task_cancelled s session
      else if is_zero h.deadline
      then record session { state = s }
      else let (now, s') = time net codec s in
        if is_after now h.deadline
        then stop_beating deadline_exceeded s' session
        else record session { state = s' }

  -- A round of the heartbeat's loop after its timer.
  unfoldable pub beat_round : Session S → Session S
  unfolding after_beat
  beat_round session =
      if session.beating then after_beat (heartbeat net codec session.state) session else session

  unfoldable pub happen : Event → Session S → Session S
  unfolding beat_round use_provider
  happen (use_of k) session = record session { state = use_provider k session.state }
  happen beat session = beat_round session
  happen (parent_done e) session = record session { state = cancelling e session.state }
  happen deadline_reached session = record session { expired = true }

  unfoldable pub happen_all : List Event → Session S → Session S
  unfolding happen
  happen_all [] session = session
  happen_all (e ∷ es) session = happen_all es (happen e session)

abbrev pub ending_error : Ending → Option Error × Bool
ending_error (returned e) = (e, false)
ending_error panics = (some panicked, true)

-- The error to report: a cause of the context, then the deadline, then what the handler returned.
unfoldable pub final_error : Option Error → Bool → Ending → Option Error × Bool
final_error (some cause) expired ending = (some cause, false)
final_error none true ending = (some deadline_exceeded, false)
final_error none false ending = ending_error ending

module _ {S : Type 0} (net : Net S) (codec : Codec) (text : Error → String) where
  abbrev pub failing : (Error → Error) → Result (Unit {0}) × State S → Result (Unit {0}) × State S
  failing f (ok _, s) = (ok tt, s)
  failing f (err e, s) = (err (f e), s)

  -- The terminal callback.
  unfoldable pub report : Option Error × Bool → State S → Result (Unit {0}) × State S
  unfolding complete fail classify_failure bounded_message
  report (none, p) s = failing completion_failed (complete net codec s)
  report (some e, p) s =
      let (code, retryable) = classify_failure e p in
      failing failure_failed (fail net codec code (bounded_message (text e)) retryable s)

  -- The deferred `clear`.
  unfoldable pub finish : Result (Unit {0}) × State S → Run S
  unfolding clear
  finish (r, s) = record { result = r; world = s.world; manager = some (clear net codec s).manager }

  unfoldable pub run_result : Ending → Session S → Run S
  unfolding finish report final_error
  run_result ending session =
      finish (report (final_error session.state.manager.cause session.expired ending) session.state)

  abbrev pub context_of : Claim → Instant → TaskContext
  context_of claim deadline = record {
    app_id = claim.workload.app_id;
    app_ref = claim.workload.app_ref;
    payload_trust = true;
    dispatch_url = claim.workload.dispatch_url;
    schema = claim.workload.app_schema;
    prefix = claim.workload.module_prefix;
    deadline = deadline;
  }

  abbrev pub begin : Config → Claim → World S → Session S
  begin cfg claim w = record {
    state = record {
      manager = record {
        job = cfg.job_id;
        attempt = cfg.attempt_id;
        capability = claim.capability;
        resources = claim.resources;
        terminal = false;
        cause = none;
      };
      world = w;
    };
    beating = true;
    expired = false;
  }

  -- `RunOneShot` from a valid claim on.
  unfoldable pub execute : Config → Claim → Handler × ℤ → World S → Run S
  unfolding effective_deadline happen_all run_result
  execute cfg claim (handler, timeout) w =
      let (now, w') = clock net w in
      let context = context_of claim (effective_deadline claim.job.deadline timeout now) in
      let (events, ending) = handler context claim.payload in
      run_result ending (happen_all net codec events (begin cfg claim w'))

  abbrev pub plain : Result (Unit {0}) → World S → Run S
  plain r w = record { result = r; world = w; manager = none }

  abbrev pub reported : Error → Result (Unit {0}) × World S → Run S
  reported e (ok _, w) = plain (err e) w
  reported e (err f, w) = plain (err (unreported e f)) w

  -- A claim that is not valid.
  unfoldable pub reject_claim : Config → String → Claim → Error → World S → Run S
  unfolding bounded_message
  reject_claim cfg canonical claim e w =
      if is_some cfg.preclaimed || not (claim_identity_matches cfg canonical claim)
      then plain (err e) w
      else let (now, w') = clock net w in
        if is_some (validate_capability claim.capability now)
        then plain (err e) w'
        else reported e (
            send_fail net codec cfg.job_id cfg.attempt_id claim.capability.token "invalid_claim"
              (bounded_message (text e)) false w')

-- a == b on Booleans.
abbrev pub same : Bool → Bool → Bool
same a b = if a then b else not b

-- What is wrong with a configuration beside its module's identity.
unfoldable pub config_error : Config → Option Error
config_error cfg =
    if not cfg.broker
      || cfg.job_id == ""
      || cfg.attempt_id == ""
      || not (is_module_ref cfg.module_ref)
    then some incomplete_config
    else if not (is_uuid cfg.job_id) || not (is_uuid cfg.attempt_id)
    then some ids_not_uuids
    else if same (is_some cfg.preclaimed) (not (cfg.bootstrap_token == ""))
    then some not_one_claim_source
    else none

-- The entry that the claim selects; a missing one is Go's zero entry, whose call panics.
abbrev pub selected : Option (Handler × ℤ) → Handler × ℤ
selected none = (λ context payload. ([], panics), pos 0)
selected (some h) = h

module _ {S : Type 0} (net : Net S) (codec : Codec) (text : Error → String)
    (parsers : Parsers) where
  -- `RunOneShot` from the claim on.
  unfoldable pub run_claim : Config → String → Claim → World S → Run S
  unfolding execute reject_claim
  run_claim cfg canonical claim w =
      let (now, w') = clock net w in
      elim (validate_claim parsers cfg canonical claim now) [
        | some e ↦ reject_claim net codec text cfg canonical claim e w'
        | none ↦ execute net codec text cfg claim (selected (handler_of cfg claim)) w'
      ]

  -- `RunOneShot` from the broker's answer to the claim on.
  unfoldable pub claimed : Config → String → Result Claim × World S → Run S
  unfolding run_claim
  claimed cfg canonical (err already_handled, w) = plain net codec text (ok tt) w
  claimed cfg canonical (err e, w) = plain net codec text (err e) w
  claimed cfg canonical (ok claim, w) = run_claim cfg canonical claim w

  -- The source of the claim.
  unfoldable pub obtain : Config → String → Option Claim → World S → Run S
  unfolding claimed
  obtain cfg canonical (some claim) w = run_claim cfg canonical claim w
  obtain cfg canonical none w =
      claimed cfg canonical (send_claim net codec cfg.job_id cfg.attempt_id cfg.bootstrap_token w)

  -- `RunOneShot` from the tests of the configuration on.
  unfoldable pub configured : Config → Option String → Option Error → World S → Run S
  unfolding obtain
  configured cfg none e w = plain net codec text (err incomplete_config) w
  configured cfg (some canonical) (some e) w = plain net codec text (err e) w
  configured cfg (some canonical) none w = obtain cfg canonical cfg.preclaimed w

  -- `RunOneShot`
  unfoldable pub run_one_shot : Config → World S → Run S
  unfolding configured config_error
  run_one_shot cfg w = configured cfg (canonical_module_id cfg.module_id) (config_error cfg) w
