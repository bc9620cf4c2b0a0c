-- ===== src/Meter.antt =====
-- meter/meter.go, meter/event.go and meter/observation.go: metrics are
-- declared once and then recorded by name. Labels are display only and left out. HTTP, JSON, random
-- identifiers, the clock and float64 are arguments.
pub mod EventId
pub mod Metadata
pub mod Declared
pub mod Recorded
pub mod Spec
mod Tests
use text.Mathlib.Text.{starts_with}
use app_module_sdk.Base.{
  ℕ, ◌+◌, String, Bool, true, false, ◌&&◌, ◌||◌, not, Option, none, some, List, [], ◌∷◌, ◌==◌, leb,
  ltb, is_some, if◌then◌else◌,
}
use Prim.Native.Char.{Char, code}
use Prim.Native.String.{len, ◌++◌}
use app_module_sdk.Base.{eqb}
use app_module_sdk.Base.Int.{ℤ, pos}
use app_module_sdk.Base.Dict.{Dict, lookup, put}
use app_module_sdk.Registry.Names.{validate_name}
use EventId.{validate_event_id}
use Metadata.{Reader, metadata_fits}

abbrev pub counter_kind : String
counter_kind = "counter"

abbrev pub gauge_kind : String
gauge_kind = "gauge"

-- `Kind.IsValid`
abbrev pub is_kind : String → Bool
is_kind k = k == counter_kind || k == gauge_kind

abbrev pub aggregation_key_subject : String
aggregation_key_subject = "subject"

pub data MetricOption : Type 0 where
  kind_option aggregation unit : String → MetricOption
  price : ℤ → MetricOption

-- `Decl`, whose fields `metricOptions` has but for the name.
pub record Decl : Type 0 where
  pub name : String
  pub kind : String
  pub kind_set : Bool
  pub kind_dup : Bool
  pub aggregation_key : String
  pub unit : String
  pub unit_set : Bool
  pub price : ℤ
  pub price_set : Bool

abbrev pub no_options : String → Decl
no_options name = record {
  name = name;
  kind = "";
  kind_set = false;
  kind_dup = false;
  aggregation_key = "";
  unit = "";
  unit_set = false;
  price = pos 0;
  price_set = false;
}

-- `applyMetric`; a nil option is skipped.
unfoldable pub apply_metric : Option MetricOption → Decl → Decl
apply_metric none d = d
apply_metric (some (kind_option k)) d = record d {
  kind = k;
  kind_set = true;
  kind_dup = d.kind_dup || (d.kind_set && not (d.kind == k));
}
apply_metric (some (aggregation a)) d = record d { aggregation_key = a }
apply_metric (some (unit u)) d = record d { unit = u; unit_set = true }
apply_metric (some (price p)) d = record d { price = p; price_set = true }

unfoldable pub apply_all : List (Option MetricOption) → Decl → Decl
unfolding apply_metric
apply_all [] d = d
apply_all (o ∷ os) d = apply_all os (apply_metric o d)

unfoldable pub decl_from_options : String → List (Option MetricOption) → Decl
unfolding apply_all
decl_from_options name opts = apply_all opts (no_options name)

abbrev pub is_reserved : String → Bool
is_reserved name = starts_with name "infra." || starts_with name "platform."

-- `Declare` of a reserved name does not panic before the lock.
unfoldable pub reserved_fits : Decl → Bool
reserved_fits d = not d.kind_set && not d.unit_set && d.aggregation_key == "" && d.price_set

-- The switch on the aggregation key.
unfoldable pub aggregation_fits : Decl → Bool
aggregation_fits d =
    if d.aggregation_key == ""
    then true
    else d.aggregation_key == aggregation_key_subject && d.kind == gauge_kind

-- `Declare` of a custom name does not panic before the lock.
unfoldable pub custom_fits : Decl → Bool
unfolding aggregation_fits
custom_fits d = d.kind_set && is_kind d.kind && aggregation_fits d

-- `Declare` does not panic before the lock; `ValidateMetricName` has the rule of the registry.
unfoldable pub decl_fits : Decl → Bool
unfolding reserved_fits custom_fits
decl_fits d =
    validate_name d.name
    && not d.kind_dup
    && (if is_reserved d.name then reserved_fits d else custom_fits d)

pub record Client : Type 0 where
  pub module_id : String
  pub metrics : Dict Decl

abbrev pub new_client : Client
new_client = record { module_id = ""; metrics = [] }

-- `Declare` under the lock, with whether it returns: the module is set before a duplicate panics.
unfoldable pub declare_locked : String → Decl → Client → Client × Bool
declare_locked module_id d c =
    let id = if c.module_id == "" then module_id else c.module_id in
    if is_some (lookup d.name c.metrics)
    then (record c { module_id = id }, false)
    else (record { module_id = id; metrics = put d.name d c.metrics }, true)

unfoldable pub declare : String → Decl → Client → Client × Bool
unfolding declare_locked decl_fits
declare module_id d c = if decl_fits d then declare_locked module_id d c else (c, false)

-- The tests that the source makes of a float64.
pub record Float (F : Type 0) : Type 0 where
  pub is_nan : F → Bool
  pub is_inf : F → Bool
  pub is_negative : F → Bool

-- `Event` and `observationEvent`; the fields of the second are empty in the first.
pub record Event (F : Type 0) : Type 0 where
  pub v : ℕ
  pub event_id : String
  pub app_id_hint : String
  pub module_id_hint : String
  pub metric : String
  pub value : F
  pub subject : String
  pub metadata : String
  pub occurred_at : ℕ
  pub recorded_at_hint : ℕ

pub record Observation : Type 0 where
  pub event_id : String
  pub subject : String
  pub metadata : String
  pub occurred_at : ℕ

pub data Error : Type 0 where
  platform_measured undeclared bad_value no_app subject_keyed bad_event_id : Error
  occurred_at_missing bad_subject subject_missing bad_metadata : Error
  not_marshalled bad_request credential_unavailable credential_empty transport_failed : Error
  refused : ℕ → Error

pub data Result (A : Type 0) : Type 0 where
  ok : A → Result A
  err : Error → Result A

pub record Request (F : Type 0) : Type 0 where
  pub url : String
  pub app_id : String
  pub secret : Option String
  pub event : Event F

-- The values that a context carries: the identity's app, the credential source and the dispatch.
pub record Context (S : Type 0) : Type 0 where
  pub app_id : Option String
  pub provider : Option (S → Option String × S)
  pub dispatch_url : String

-- What the client uses, and what the environment sets: unicode.IsControl for a subject, and whether
-- an event and a URL can be encoded.
pub record Env (S F : Type 0) : Type 0 where
  pub float : Float F
  pub new_uuid : S → String × S
  pub now : S → ℕ × S
  pub marshals : Event F → Bool
  pub makes_request : String → Bool
  pub reader : Reader
  pub has_control : String → Bool
  pub send : Request F → S → Option ℕ × S
  pub internal_secret : String
  pub dispatch_url : String

pub record World (S F : Type 0) : Type 0 where
  pub outside : S
  pub sent : List (Request F)

-- `strings.TrimRight(base, "/")`
unfoldable pub trim_slashes : String → String
trim_slashes String.[] = ""
trim_slashes (String.◌∷◌ c s) =
    let rest = trim_slashes s in if eqb (code c) 47 && rest == "" then "" else String.◌∷◌ c rest

module _ {S F : Type 0} (env : Env S F) where
  -- `resolveUsageURLFor`
  unfoldable pub resolve_usage_url : Context S → String → String
  unfolding trim_slashes
  resolve_usage_url ctx app_id =
      let base =
        if not (ctx.dispatch_url == "")
        then ctx.dispatch_url
        else if not (env.dispatch_url == "")
        then env.dispatch_url
        else "http://host.docker.internal:8083" in
      trim_slashes base ++ ("/apps/" ++ (app_id ++ "/usage"))

  -- A provider's answer; its error and an empty secret end the call.
  unfoldable pub provided : Option String → Result String
  provided none = err credential_unavailable
  provided (some secret) = if secret == "" then err credential_empty else ok secret

  -- `serviceCredential`, on the provider of the context.
  unfoldable pub credential_of : Option (S → Option String × S) → S → Result String × S
  unfolding provided
  credential_of none s = (ok env.internal_secret, s)
  credential_of (some provider) s = let (o, s') = provider s in (provided o, s')

  abbrev pub header_of : String → Option String
  header_of secret = if secret == "" then none else some secret

  unfoldable pub answered : Option ℕ → Result (Unit {0})
  answered none = err transport_failed
  answered (some status) = if leb 200 status && ltb status 300 then ok tt else err (refused status)

  -- `dispatch` from the credential on.
  unfoldable pub deliver :
      String → String → Event F → World S F → Result String × S → Result (Unit {0}) × World S F
  unfolding answered
  deliver url app_id event w (err e, s) = (err e, record w { outside = s })
  deliver url app_id event w (ok secret, s) =
      let request : Request F = record {
        url = url;
        app_id = app_id;
        secret = header_of secret;
        event = event;
      } in
      let (o, s') = env.send request s in
      (answered o, record { outside = s'; sent = request ∷ w.sent })

  unfoldable pub dispatch : Context S → String → Event F → World S F → Result (Unit {0}) × World S F
  unfolding deliver credential_of resolve_usage_url
  dispatch ctx app_id event w =
      if not (env.marshals event)
      then (err not_marshalled, w)
      else if not (env.makes_request (resolve_usage_url ctx app_id))
      then (err bad_request, w)
      else deliver (resolve_usage_url ctx app_id) app_id event w
          (credential_of ctx.provider w.outside)

  abbrev pub app_of : Option String → String
  app_of none = ""
  app_of (some a) = a

  -- `recordInputs`: the declaration, the module and the app.
  unfoldable pub record_inputs : Client → Context S → String → F → Result (Decl × String × String)
  record_inputs c ctx name value =
      if is_reserved name then err platform_measured else elim (lookup name c.metrics) [
        | none ↦ err undeclared
        | some d ↦
            if env.float.is_nan value || env.float.is_inf value || env.float.is_negative value
            then err bad_value
            else if app_of ctx.app_id == ""
            then err no_app
            else ok (d, c.module_id, app_of ctx.app_id)
      ]

  -- `record` from its inputs on.
  unfoldable pub emit :
      Context S
      → String
      → F
      → Result (Decl × String × String)
      → World S F
      → Result (Unit {0}) × World S F
  unfolding dispatch
  emit ctx event_id value (err e) w = (err e, w)
  emit ctx event_id value (ok (d, module_id, app_id)) w =
      if d.aggregation_key == aggregation_key_subject
      then (err subject_keyed, w)
      else let (now, s) = env.now w.outside in
        dispatch ctx app_id
          (record {
            v = 1;
            event_id = event_id;
            app_id_hint = app_id;
            module_id_hint = module_id;
            metric = d.name;
            value = value;
            subject = "";
            metadata = "";
            occurred_at = 0;
            recorded_at_hint = now;
          })
          (record w { outside = s })

  -- `Record`
  unfoldable pub record_value :
      Client → Context S → String → F → World S F → Result (Unit {0}) × World S F
  unfolding emit record_inputs
  record_value c ctx name value w =
      let (id, s) = env.new_uuid w.outside in
      emit ctx id value (record_inputs c ctx name value) (record w { outside = s })

  -- `RecordWithID`
  unfoldable pub record_with_id :
      Client → Context S → String → String → F → World S F → Result (Unit {0}) × World S F
  unfolding emit record_inputs validate_event_id
  record_with_id c ctx event_id name value w =
      if validate_event_id event_id
      then emit ctx event_id value (record_inputs c ctx name value) w
      else (err bad_event_id, w)

  -- `validateSubject` returns no error.
  unfoldable pub subject_fits : String → Bool
  subject_fits s =
      s == "" || (leb (len s) 256 && env.reader.valid_utf8 s && not (env.has_control s))

  -- `validateObservation`, whose conversion to UTC keeps the instant.
  unfoldable pub observation_error : Observation → Bool → Option Error
  unfolding subject_fits validate_event_id metadata_fits
  observation_error o subject_required =
      if not (validate_event_id o.event_id)
      then some bad_event_id
      else if eqb o.occurred_at 0
      then some occurred_at_missing
      else if not (subject_fits o.subject)
      then some bad_subject
      else if subject_required && o.subject == ""
      then some subject_missing
      else if not (metadata_fits env.reader o.metadata)
      then some bad_metadata
      else none

  -- `RecordObservation` from its inputs on.
  unfoldable pub emit_observation :
      Context S
      → F
      → Observation
      → Result (Decl × String × String)
      → World S F
      → Result (Unit {0}) × World S F
  unfolding dispatch observation_error
  emit_observation ctx value o (err e) w = (err e, w)
  emit_observation ctx value o (ok (d, module_id, app_id)) w =
      let (now, s) = env.now w.outside in
      elim (observation_error o (d.aggregation_key == aggregation_key_subject)) [
        | some e ↦ (err e, record w { outside = s })
        | none ↦
            dispatch ctx app_id
              (record {
                v = 2;
                event_id = o.event_id;
                app_id_hint = app_id;
                module_id_hint = module_id;
                metric = d.name;
                value = value;
                subject = o.subject;
                metadata = o.metadata;
                occurred_at = o.occurred_at;
                recorded_at_hint = now;
              })
              (record w { outside = s })
      ]

  -- `RecordObservation`
  unfoldable pub record_observation :
      Client → Context S → String → F → Observation → World S F → Result (Unit {0}) × World S F
  unfolding emit_observation record_inputs
  record_observation c ctx name value o w =
      emit_observation ctx value o (record_inputs c ctx name value) w
