-- ===== src/Meter/Tests.antt =====
-- Declarations and reports on concrete inputs.
use Prim.Native.String.{len}
use app_module_sdk.Base.{
  ℕ, ◌+◌, String, ◌≡◌, refl, true, false, Option, none, some, List, [], ◌∷◌, All, ◌≤◌, ne_of_test,
}
use app_module_sdk.Base.Int.{pos}
use app_module_sdk.Base.Atoi.{atoi, parse_int}
use app_module_sdk.Base.Dict.{lookup, put}
use app_module_sdk.Registry.Names.{validate_name}
use app_module_sdk.Meter.{
  MetricOption, kind_option, aggregation, price, Decl, decl_from_options, Client, new_client,
  declare, Observation, ok, err, subject_keyed, platform_measured, Context, Env, World,
  record_value, record_with_id, record_observation,
}
use app_module_sdk.Meter.Metadata.{
  object, member, no_member, array, item, no_item, number, Members, Reader, canonical_number,
  append, metadata_fits,
}
use app_module_sdk.Meter.Metadata.Bounds.{depth_of, members_of, metadata_fits-bounds}
use app_module_sdk.Meter.Declared.{
  IsFair, IsValid, declare_all, declare_all-IsValid, Agrees, declare-options,
}
use app_module_sdk.Meter.Spec.{first_fit, first_module, declare_all-first_fit}
use app_module_sdk.Meter.Recorded.{AtMostOne, IsBillable, reports-IsBillable}

abbrev counter : Option MetricOption
counter = some (kind_option "counter")

abbrev gauge : Option MetricOption
gauge = some (kind_option "gauge")

abbrev by_subject : Option MetricOption
by_subject = some (aggregation "subject")

abbrev priced : Option MetricOption
priced = some (price (pos 5))

abbrev declarations : List (String × Decl)
declarations =
    ("mail", decl_from_options "sent" (counter ∷ priced ∷ []))
    ∷ ("mail", decl_from_options "sent" (gauge ∷ []))
    ∷ ("mail", decl_from_options "seats" (gauge ∷ by_subject ∷ []))
    ∷ ("mail", decl_from_options "infra.cpu" (priced ∷ []))
    ∷ ("mail", decl_from_options "infra.ram" (gauge ∷ priced ∷ []))
    ∷ []

-- A reader that finds one tree in every text.
abbrev reader : Reader
reader = record {
  valid_utf8 = λ s. true;
  parse = λ s. some (object (member "a" (array (item (number "1.50e3") no_item)) no_member));
  quoted = λ s. len s + 2;
  is_finite = λ s. true;
}

-- The clock and the identifiers count; a value is the number of its units.
abbrev env : Env ℕ ℕ
env = record {
  float = record { is_nan = λ v. false; is_inf = λ v. false; is_negative = λ v. false };
  new_uuid = λ s. ("0a1b2c3d-0000-4000-8000-000000000001", s + 1);
  now = λ s. (s, s + 1);
  marshals = λ e. true;
  makes_request = λ u. true;
  reader = reader;
  has_control = λ s. false;
  send = λ q s. (some 202, s);
  internal_secret = "ambient";
  dispatch_url = "";
}

abbrev ctx : Context ℕ
ctx = record {
  app_id = some "app";
  provider = some (λ s. (some "lease", s));
  dispatch_url = "https://dispatch/";
}

abbrev world : World ℕ ℕ
world = record { outside = 0; sent = [] }

abbrev client : Client
client = declare_all declarations new_client

abbrev seen : Observation
seen = record {
  event_id = "0a1b2c3d-0000-4000-8000-000000000002";
  subject = "user";
  metadata = "";
  occurred_at = 7;
}

-- The metric that was declared first is kept, and a report of it carries the provider's secret.
test_sent :
    (record_value env client ctx "sent" 3 world).1.sent
    ≡ record {
      url = "https://dispatch/apps/app/usage";
      app_id = "app";
      secret = some "lease";
      event = record {
        v = 1;
        event_id = "0a1b2c3d-0000-4000-8000-000000000001";
        app_id_hint = "app";
        module_id_hint = "mail";
        metric = "sent";
        value = 3;
        subject = "";
        metadata = "";
        occurred_at = 0;
        recorded_at_hint = 1;
      };
    }
      ∷ []
unfolding record_value lookup declare_all declare validate_name decl_from_options put
test_sent = refl

test_refused :
    ((record_value env client ctx "seats" 3 world).0 ≡ err subject_keyed)
    × ((record_value env client ctx "infra.cpu" 3 world).0 ≡ err platform_measured)
    × ((record_observation env client ctx "seats" 3 seen world).0 ≡ ok tt)
unfolding record_value record_observation lookup declare_all declare validate_name decl_from_options
    put
test_refused = (refl, refl, refl)

-- 1.50e3 is 15e2, -0.0 is 0, 100 is 1e2; an exponent at the end of the range overflows.
test_numbers :
    (canonical_number "1.50e3" ≡ some 4)
    × (canonical_number "-0.0" ≡ some 1)
    × (canonical_number "100" ≡ some 3)
    × (canonical_number "10e9223372036854775807" ≡ none)
    × (append reader 1 (object (member "a" (array (item (number "1.50e3") no_item)) no_member)) 0
        ≡ some (12, 1))
unfolding canonical_number append atoi parse_int
test_numbers = (refl, refl, refl, refl, refl)

declare_all-IsValid_example : IsValid client
declare_all-IsValid_example = declare_all-IsValid declarations

declare_all-first_fit_example :
    (lookup "sent" client.metrics ≡ first_fit "sent" declarations)
    × (client.module_id ≡ first_module declarations)
declare_all-first_fit_example = declare_all-first_fit "sent" declarations

declare-options_example :
    (let d = decl_from_options "seats" (gauge ∷ by_subject ∷ []) in
      (lookup "seats" new_client.metrics ≡ none)
      × (lookup "seats" (declare "mail" d new_client).0.metrics ≡ some d)
      × IsFair d
      × All (Agrees d.kind) (gauge ∷ by_subject ∷ []))
unfolding declare validate_name decl_from_options lookup
declare-options_example = declare-options "mail" "seats" (gauge ∷ by_subject ∷ []) new_client refl

reports-IsBillable_example :
    AtMostOne env (IsBillable env client ctx 3) world (record_value env client ctx "sent" 3 world)
    × AtMostOne env
        (IsBillable env client ctx 3)
        world
        (record_with_id env client ctx seen.event_id "sent" 3 world)
    × AtMostOne env
        (IsBillable env client ctx 3)
        world
        (record_observation env client ctx "sent" 3 seen world)
reports-IsBillable_example =
    reports-IsBillable env client ctx "sent" seen.event_id 3 seen world
      (declare_all-IsValid declarations)

metadata_fits-bounds_example :
    (ms : Members) × (reader.parse "{}" ≡ some (object ms))
    × (depth_of (object ms) ≤ 4)
    × (members_of (object ms) ≤ 32)
    × (len "{}" ≤ 4096)
unfolding metadata_fits atoi parse_int
metadata_fits-bounds_example = metadata_fits-bounds reader "{}" refl (ne_of_test "{}" "" refl)
