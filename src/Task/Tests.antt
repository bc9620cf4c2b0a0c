-- ===== src/Task/Tests.antt =====
-- Runs on concrete inputs: a broker that answers 200 to everything, and a clock that ticks.
use app_module_sdk.Base.{
  ℕ, ◌+◌, ◌≤◌, String, ◌≡◌, refl, ◌⊎◌, true, false, ◌&&◌, none, some, List, [], ◌∷◌, ◌++◌, ◌==◌,
  arith, All, map, ne_of_test,
}
use app_module_sdk.Base.Int.{pos}
use app_module_sdk.Base.Dict.{lookup}
use app_module_sdk.Ids.{canonical_module_id}
use app_module_sdk.Lifecycle.{Credential}
use app_module_sdk.Task.{
  Instant, Capability, Resources, no_resources, Claim, Kind, Error, err, task_cancelled,
  invalid_payload, validate_capability,
}
use app_module_sdk.Task.Broker.{
  Endpoint, Payload, completed, failed, kinds, beat as beating, Request, Net, Codec, World, replied,
  after_post, terminal_post, send_heartbeat, send_refresh, send_fail,
}
use app_module_sdk.Task.Renewal.{database_complete, unexpired, resource_usable, apply_refresh}
use app_module_sdk.Task.Manager.{
  Manager, State, database, heartbeat, refresh, overdue, heartbeat_delay,
}
use app_module_sdk.Task.Claims.{
  Event, use_of, beat, deadline_reached, returned, Handler, Config, Parsers, is_module_ref,
  validate_claim,
}
use app_module_sdk.Task.OneShot.{
  Session, Run, happen_all, classify_failure, bounded_message, report, run_result, run_one_shot,
  begin, config_error,
}
use app_module_sdk.Task.Reports.{copies, terminal_post-sent}
use app_module_sdk.Task.Keeps.{Kept, SameDatabase, Reading, Keeps, IsWork}
use app_module_sdk.Task.Session.{Keeps-happen_all}
use app_module_sdk.Task.Terminal.{callback}
use app_module_sdk.Task.Runs.{Trace, run_one_shot-Trace}
use app_module_sdk.Task.Outcomes.{run_result-cause}
use app_module_sdk.Task.Grounds.{Grounds, run_one_shot-Grounds}
use app_module_sdk.Task.Delay.{heartbeat_delay-bounds}
use app_module_sdk.Task.Vending.{database-vended}

abbrev net : Net ℕ
net = record {
  exchange = λ q t.
      (replied (record { status = 200; content_type = "application/json"; body = some "{}" }), t);
  now = λ t. (t, t + 1);
  wait = λ d t. (none, t + d);
}

abbrev lease : Capability
lease = record { token = "lease"; expires_at = 90_000_000_000; refresh_after = 50_000_000_000 }

abbrev login : Credential
login = record {
  host = "db";
  port = pos 5432;
  database = "app";
  username = "mod";
  token = "t1";
  expires_at = 200_000_000_000;
}

abbrev given : Resources
given = record no_resources { database = some login }

abbrev codec : Codec
codec = record {
  envelope = λ raw. none;
  claim = λ raw. none;
  heartbeat =
      λ raw. some (record { version = pos 1; cancelled = true; deadline = 0; capability = none });
  refresh = λ raw.
      some (record { version = pos 1; cancelled = false; resources = given; capability = none });
}

abbrev text : Error → String
text e = "error"

abbrev parsers : Parsers
parsers = record {
  url = λ raw. some (record {
    scheme = "https";
    host = "dispatch";
    hostname = "dispatch";
    has_user = false;
    raw_query = "";
    fragment = "";
    path = "";
  });
  is_loopback = λ host. false;
  valid_json = λ raw. raw == "{}";
}

abbrev job_id : String
job_id = "0a1b2c3d-0000-4000-8000-000000000001"

abbrev attempt_id : String
attempt_id = "0a1b2c3d-0000-4000-8000-000000000002"

abbrev module_uuid : String
module_uuid = "0a1b2c3d-0000-4000-8000-000000000003"

abbrev claim_with : String → Claim
claim_with payload = record {
  version = pos 1;
  job = record {
    id = job_id;
    attempt_id = attempt_id;
    handler = "send";
    deadline = 100_000_000_000;
  };
  workload = record {
    app_id = "app";
    app_ref = "a";
    module_id = module_uuid;
    dispatch_url = "https://dispatch";
    version_id = "v";
    version = "1";
    app_schema = "app_a";
    module_prefix = "m_";
    class = "standard";
  };
  payload = payload;
  resources = given;
  capability = lease;
}

-- A handler that uses the database while a heartbeat is sent, and returns no error.
abbrev busy : Handler
busy context payload = (use_of Kind.database ∷ beat ∷ use_of Kind.cache ∷ [], returned none)

abbrev config_with : String → Config
config_with payload = record {
  broker = true;
  job_id = job_id;
  attempt_id = attempt_id;
  bootstrap_token = "";
  preclaimed = some (claim_with payload);
  module_id = "m0a1b2c3d000040008000000000000003";
  module_ref = "mail";
  expected_class = "";
  handlers = ("send", record { handler = some busy; timeout = pos 0 }) ∷ [];
  heartbeat_every = pos 0;
}

abbrev world : World ℕ
world = record { outside = 1; sent = [] }

abbrev cancelled_run : Run ℕ
cancelled_run = run_one_shot net codec text parsers (config_with "{}") world

-- The heartbeat cancels the run, the cache is not in the answer of the broker, and the run reports
-- a failure although the handler returned no error.
test_cancelled :
    map {B = Endpoint × Payload} (λ q. (q.endpoint, q.payload)) cancelled_run.world.sent
    ≡ (Endpoint.fail, failed "cancelled" "error" false)
      ∷ (Endpoint.refresh, kinds (Kind.cache ∷ []))
      ∷ (Endpoint.heartbeat, beating)
      ∷ []
unfolding run_one_shot canonical_module_id is_module_ref validate_claim lookup validate_capability
    resource_usable heartbeat send_heartbeat send_refresh apply_refresh send_fail after_post
test_cancelled = refl

run_one_shot-Trace_example : Trace world cancelled_run
run_one_shot-Trace_example = run_one_shot-Trace net codec text parsers (config_with "{}") world

refused_test :
    (let r = run_one_shot net codec text parsers (config_with "{") world in
      (r.result ≡ err invalid_payload) × (r.manager ≡ none) × (r.world.sent ≡ []))
unfolding run_one_shot canonical_module_id is_module_ref validate_claim lookup validate_capability
refused_test = (refl, refl, refl)

run_one_shot-Grounds_example : Grounds net codec (config_with "{}") world
unfolding run_one_shot canonical_module_id config_error is_module_ref validate_claim lookup
    validate_capability resource_usable heartbeat send_heartbeat send_refresh apply_refresh
    send_fail after_post
run_one_shot-Grounds_example =
    run_one_shot-Grounds net codec text parsers (config_with "{}") world refl

abbrev started : Session ℕ
started = begin net codec text (config_with "{}") (claim_with "{}") world

Keeps-happen_all_example :
    Keeps net started.state
      (happen_all net codec (use_of Kind.database ∷ beat ∷ use_of Kind.cache ∷ []) started).state
Keeps-happen_all_example =
    Keeps-happen_all net codec (use_of Kind.database ∷ beat ∷ use_of Kind.cache ∷ []) started

abbrev all_events : List Event
all_events = use_of Kind.database ∷ deadline_reached ∷ []

abbrev aborted : Session ℕ
aborted = record started {
  state = record started.state {
    manager = record started.state.manager { cause = some task_cancelled };
  };
}

run_result-cause_example :
    (m : Manager) × (n : ℕ) × (xs : List Request) × (1 ≤ n)
    × (n ≤ 3)
    × All IsWork xs
    × ((run_result net codec text
          (returned none)
          (happen_all net codec all_events aborted)).world.sent
        ≡ copies n (callback m (Endpoint.fail, failed "cancelled" "error" false)) (xs ++ []))
unfolding classify_failure bounded_message
run_result-cause_example =
    run_result-cause net codec text all_events (returned none) aborted task_cancelled
      (ne_of_test "lease" "" refl) refl

database-vended_example :
    Kept SameDatabase started.state.manager.resources.database (some login)
    × ((t : Instant) × Reading net started.state.world.outside t
        × (database_complete login && unexpired t login.expires_at ≡ true))
unfolding database refresh resource_usable
database-vended_example = database-vended net codec started.state login refl

abbrev reported_state : State ℕ
reported_state = (report net codec text (some task_cancelled, false) started.state).1

heartbeat_delay-bounds_example :
    (1 ≤ heartbeat_delay (pos 0) lease 40_000_000_000)
    × (heartbeat_delay (pos 0) lease 40_000_000_000 ≤ 30_000_000_000)
    × (overdue lease 40_000_000_000 ≡ false
        → ((lease.refresh_after ≡ 0)
            ⊎ (40_000_000_000 + heartbeat_delay (pos 0) lease 40_000_000_000 ≤ lease.refresh_after))
          × ((lease.expires_at ≡ 0)
              ⊎ (40_000_000_000 + heartbeat_delay (pos 0) lease 40_000_000_000 + 15_000_000_000
                  ≤ lease.expires_at)))
heartbeat_delay-bounds_example = heartbeat_delay-bounds (pos 0) lease 40_000_000_000 (omega arith)

abbrev done_request : Request
done_request = record {
  job = job_id;
  attempt = attempt_id;
  endpoint = Endpoint.complete;
  token = "lease";
  payload = completed;
}

terminal_post-sent_example :
    (n : ℕ) × (1 ≤ n)
    × (n ≤ 3)
    × ((terminal_post net codec done_request world).1.sent ≡ copies n done_request [])
terminal_post-sent_example =
    terminal_post-sent net codec done_request world (ne_of_test "lease" "" refl)
