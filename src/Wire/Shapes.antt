-- ===== src/Wire/Shapes.antt =====
-- invocation/context.go: the trusted context, and the tests of texts of internal/invocationwire/wire.go
-- and ids/ids.go.
use Prim.Native.Char.{Char, code}
use Prim.Native.String.{◌++◌, len}
use app_module_sdk.Base.{
  ℕ, String, Bool, true, false, ◌&&◌, ◌||◌, not, List, [], ◌∷◌, ◌==◌, eqb, leb, ltb, if◌then◌else◌,
}
use app_module_sdk.Base.Int.{ℤ}
use app_module_sdk.Registry.Names.{is_digit, is_lower, is_identifier, all_chars}
use app_module_sdk.Ids.{is_dash, matches, times}

-- `time.Time`: the nanoseconds since the zero time, and whether the location is UTC.
pub record Time : Type 0 where
  pub nanos : ℕ
  pub utc : Bool

pub record App : Type 0 where
  pub id : String
  pub schema : String

pub record Callee : Type 0 where
  pub id : String
  pub slug : String

-- `Identity`
pub record Claims : Type 0 where
  pub kind : String
  pub user_id : String
  pub app_role : String
  pub actor_delegation : String

-- `has_redirects` is false for a nil slice.
pub record Routes : Type 0 where
  pub origin : String
  pub callee : String
  pub public_route : String
  pub platform : String
  pub current_local : String
  pub has_redirects : Bool
  pub redirects : List String

pub record Occurrence : Type 0 where
  pub id : String
  pub method : String
  pub path : String
  pub body_sha256 : String
  pub occurred_at : Time

pub record Trust : Type 0 where
  pub source : String
  pub client_ip : String
  pub host : String
  pub scheme : String
  pub origin : String

pub record Cookies : Type 0 where
  pub namespace : String
  pub physical_prefix : String
  pub capabilities : List String
  pub legacy_read_until : Time

-- `Context`
pub record Invocation : Type 0 where
  pub version : ℤ
  pub app : App
  pub callee : Callee
  pub identity : Claims
  pub routes : Routes
  pub request : Occurrence
  pub trust : Trust
  pub cookies : Cookies
  pub provenance : String

-- What `url.Parse` gives.
pub record UrlParts : Type 0 where
  pub scheme : String
  pub host : String
  pub has_user : Bool
  pub path : String
  pub raw_query : String
  pub fragment : String
  pub opaque : String

abbrev pub is_upper : Char → Bool
is_upper c = leb 65 (code c) && leb (code c) 90

-- `isHex`, in either case.
abbrev pub is_any_hex : Char → Bool
is_any_hex c =
    is_digit c || (leb 97 (code c) && leb (code c) 102) || (leb 65 (code c) && leb (code c) 70)

abbrev pub uuid_shape : List (Char → Bool)
uuid_shape = times 8 is_any_hex (
    is_dash
    ∷ times 4 is_any_hex (
        is_dash
        ∷ times 4 is_any_hex (is_dash ∷ times 4 is_any_hex (is_dash ∷ times 12 is_any_hex []))))

-- `ids.ValidUUID`
unfoldable pub valid_uuid : String → Bool
unfolding matches
valid_uuid = matches uuid_shape

-- `value == strings.ToLower(value)`, of an ASCII text.
unfoldable pub is_lower_case : String → Bool
unfolding all_chars
is_lower_case = all_chars (λ c. not (is_upper c))

unfoldable pub canonical_uuid : String → Bool
unfolding valid_uuid is_lower_case
canonical_uuid value = valid_uuid value && is_lower_case value

-- `ids.ValidModuleSlug`
unfoldable pub valid_module_slug : String → Bool
unfolding is_identifier
valid_module_slug value =
    is_identifier (λ c. is_lower c || is_digit c || eqb (code c) 45) value && leb (len value) 16

-- `hex.DecodeString` gives 32 bytes, and the text is in lower case.
unfoldable pub valid_digest : String → Bool
unfolding all_chars is_lower_case
valid_digest s = all_chars is_any_hex s && eqb (len s) 64 && is_lower_case s

unfoldable pub underscored : String → String
underscored String.[] = ""
underscored (String.◌∷◌ c s) = String.◌∷◌ (if eqb (code c) 45 then "_" else c) (underscored s)

-- `appSchemaName`
unfoldable pub app_schema_name : String → String
unfolding underscored
app_schema_name app_id = "app_" ++ underscored app_id

-- `cookieNamespace`
abbrev pub cookie_namespace : String → String → String
cookie_namespace app_id module_id = "v1:" ++ app_id ++ ":" ++ module_id

abbrev pub is_path_char : Char → Bool
is_path_char c = not (eqb (code c) 35) && not (ltb (code c) 32) && not (eqb (code c) 127)

-- `validPath`
unfoldable pub valid_path : String → Bool
unfolding all_chars
valid_path String.[] = false
valid_path (String.◌∷◌ c s) = eqb (code c) 47 && all_chars is_path_char s

unfoldable pub is_one_of : Char → String → Bool
is_one_of c String.[] = false
is_one_of c (String.◌∷◌ d s) = eqb (code c) (code d) || is_one_of c s

abbrev pub is_token_char : Char → Bool
is_token_char c = ltb 32 (code c) && ltb (code c) 127 && not (is_one_of c "()<>@,;:\\\"/[]?={} \t")

-- `validHTTPToken`
unfoldable pub valid_http_token : String → Bool
unfolding all_chars is_one_of
valid_http_token value = not (value == "") && all_chars is_token_char value

-- `strings.Split(value, ".")`
abbrev pub split_char : Char → List String → List String
split_char c [] = []
split_char c (part ∷ parts) =
    if eqb (code c) 46 then "" ∷ part ∷ parts else String.◌∷◌ c part ∷ parts

unfoldable pub split_dots : String → List String
split_dots String.[] = "" ∷ []
split_dots (String.◌∷◌ c s) = split_char c (split_dots s)

-- The order of two texts, by their characters as by their bytes.
unfoldable pub text_leb : String → String → Bool
text_leb String.[] t = true
text_leb (String.◌∷◌ c s) String.[] = false
text_leb (String.◌∷◌ c s) (String.◌∷◌ d t) =
    ltb (code c) (code d) || (eqb (code c) (code d) && text_leb s t)
