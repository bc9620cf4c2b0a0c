-- ===== src/Wire/Tests.antt =====
-- One invocation and its header, and instances of what is proved of them.
use app_module_sdk.Base.{
  ℕ, zero, suc, String, ◌≡◌, refl, true, false, Option, none, some, List, [], ◌∷◌, ◌==◌, ◌≤◌,
  if◌then◌else◌, length,
}
use app_module_sdk.Base.Int.{pos}
use app_module_sdk.Base.{All}
use app_module_sdk.Base.Dict.{Dict, lookup}
use app_module_sdk.Registry.Merge.{contains}
use app_module_sdk.Wire.Shapes.{
  Invocation, UrlParts, canonical_uuid, valid_module_slug, valid_digest, app_schema_name,
  valid_path, valid_http_token, text_leb,
}
use app_module_sdk.Wire.Validate.{Bytes, Codec, physical_names_v1, legacy_logical_read, validate}
use app_module_sdk.Wire.{max_bytes, marshal, encode_header, decode_header}
use app_module_sdk.Wire.Legacy.{legacy_headers, validate_legacy_headers}
use app_module_sdk.Wire.Projected.{Agrees, Distinct, names_of, validate_legacy_headers-Agrees}
use app_module_sdk.Wire.Canonical.{decode_header_unique}
use app_module_sdk.Wire.Accepted.{Standing, Presented, validate-Standing}

abbrev zeros : ℕ → Bytes
zeros zero = []
zeros (suc n) = 0 ∷ zeros n

abbrev origin : String → Option UrlParts
origin s =
    if s == "http://h"
    then some (record {
      scheme = "http";
      host = "h";
      has_user = false;
      path = "";
      raw_query = "";
      fragment = "";
      opaque = "";
    })
    else none

abbrev visit : List String → Invocation
visit capabilities = record {
  version = pos 1;
  app = record {
    id = "11111111-1111-1111-1111-111111111111";
    schema = "app_11111111_1111_1111_1111_111111111111";
  };
  callee = record { id = "11111111-1111-1111-1111-111111111111"; slug = "video" };
  identity = record { kind = ""; user_id = ""; app_role = ""; actor_delegation = "" };
  routes = record {
    origin = "http://h";
    callee = "/v1/apps/app/11111111-1111-1111-1111-111111111111";
    public_route = "/v1/apps/app/11111111-1111-1111-1111-111111111111/public/video";
    platform = "/v1/apps/app/11111111-1111-1111-1111-111111111111/platform/video";
    current_local = "/p";
    has_redirects = true;
    redirects = "http://h" ∷ [];
  };
  request = record {
    id = "11111111-1111-1111-1111-111111111111";
    method = "GET";
    path = "/p";
    body_sha256 = "0000000000000000000000000000000000000000000000000000000000000000";
    occurred_at = record { nanos = 5; utc = true };
  };
  trust = record {
    source = "edge";
    client_ip = "";
    host = "h";
    scheme = "http";
    origin = "http://h";
  };
  cookies = record {
    namespace = "v1:11111111-1111-1111-1111-111111111111:11111111-1111-1111-1111-111111111111";
    physical_prefix = "__msm1_x_";
    capabilities = capabilities;
    legacy_read_until = record { nanos = 9; utc = true };
  };
  provenance = "mip1.B.S";
}

abbrev accepted : Invocation
accepted = visit (legacy_logical_read ∷ physical_names_v1 ∷ [])

abbrev sent_headers : Dict String
sent_headers =
    ("x-ms-app-id", "11111111-1111-1111-1111-111111111111")
    ∷ ("Accept", "a")
    ∷ ("X-Request-ID", "11111111-1111-1111-1111-111111111111")
    ∷ []

-- "B" stands for one byte and "S" for 32.
abbrev codec : Codec
codec = record {
  marshal = λ t. some (1 ∷ []);
  decode = λ raw. some accepted;
  at_end = λ raw. true;
  base64 = λ raw. elim raw [ [] ↦ "" | b ∷ [] ↦ "B" | b ∷ c ∷ bs ↦ "S" ];
  from_base64 = λ s. if s == "B" then some (1 ∷ []) else if s == "S" then some (zeros 32) else none;
  base32 = λ raw. "x";
  hex = λ raw. "";
  sha256 = λ raw. [];
  utf8 = λ s. [];
  url = origin;
  path_escape = λ s. s;
  is_ip = λ s. true;
  to_lower = λ s. s;
  trim_space = λ s. s;
}

accepted_valid : validate codec accepted ≡ true
unfolding validate canonical_uuid valid_module_slug app_schema_name valid_http_token valid_path
    valid_digest contains text_leb
accepted_valid = refl

refused_test :
    (validate codec (visit (physical_names_v1 ∷ legacy_logical_read ∷ [])) ≡ false)
    × (validate codec (visit (legacy_logical_read ∷ [])) ≡ false)
unfolding validate canonical_uuid valid_module_slug app_schema_name valid_http_token valid_path
    valid_digest contains text_leb
refused_test = (refl, refl)

accepted_header : decode_header codec "B" ≡ some (accepted, 1 ∷ [])
unfolding decode_header validate canonical_uuid valid_module_slug app_schema_name valid_http_token
    valid_path valid_digest contains text_leb
accepted_header = refl

decode_header_unique_example :
    (validate codec accepted ≡ true)
    × (length {A = ℕ} (1 ∷ []) ≤ max_bytes)
    × (marshal codec accepted ≡ some (1 ∷ []))
    × (encode_header codec (1 ∷ []) ≡ some "B")
    × ((value' : String) (raw' : Bytes)
        → decode_header codec value' ≡ some (accepted, raw')
        → (value' ≡ "B") × (raw' ≡ 1 ∷ []))
decode_header_unique_example = decode_header_unique codec "B" accepted (1 ∷ []) accepted_header

validate-Standing_example :
    Standing accepted.identity × Presented accepted.request.occurred_at accepted.cookies
validate-Standing_example = validate-Standing codec accepted accepted_valid

headers_agree : validate_legacy_headers accepted sent_headers ≡ true
unfolding validate_legacy_headers contains lookup
headers_agree = refl

conflict_test :
    (validate_legacy_headers accepted (("X-MS-User-ID", "u") ∷ []) ≡ false)
    × (validate_legacy_headers accepted (("X-Request-ID", "r") ∷ []) ≡ false)
    × (validate_legacy_headers accepted
          (("x-ms-app-id", "11111111-1111-1111-1111-111111111111") ∷ sent_headers)
        ≡ false)
unfolding validate_legacy_headers contains lookup
conflict_test = (refl, refl, refl)

validate_legacy_headers-Agrees_example :
    All (Agrees (legacy_headers accepted)) sent_headers × Distinct (names_of sent_headers)
validate_legacy_headers-Agrees_example =
    validate_legacy_headers-Agrees accepted sent_headers headers_agree
