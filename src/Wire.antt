-- ===== src/Wire.antt =====
-- internal/invocationwire/wire.go: the trusted context of one invocation as canonical JSON and as a
-- header. An error is `none`; what an error says is left out.
pub mod Shapes
pub mod Validate
mod Values
pub mod Canonical
pub mod Accepted
pub mod Legacy
pub mod Projected
mod Tests
use Prim.Native.String.{len}
use app_module_sdk.Base.{
  ℕ, ◌*◌, String, Bool, true, false, ◌&&◌, ◌||◌, not, Option, none, some, List, [], ◌∷◌, ◌==◌, eqb,
  ltb, leb, is_some, if◌then◌else◌, length,
}
use app_module_sdk.Wire.Shapes.{Invocation}
use app_module_sdk.Wire.Validate.{Bytes, Codec, validate}

abbrev pub max_bytes : ℕ
max_bytes = 6 * 1024

-- `base64.RawURLEncoding.EncodedLen(maxBytes)`: four characters for each three bytes.
abbrev pub max_header : ℕ
max_header = 8 * 1024

-- `bytes.Equal`
unfoldable pub equal : Bytes → Bytes → Bool
equal [] [] = true
equal [] (y ∷ ys) = false
equal (x ∷ xs) [] = false
equal (x ∷ xs) (y ∷ ys) = eqb x y && equal xs ys

abbrev pub within : ℕ → Option Bytes → Option Bytes
within n none = none
within n (some raw) = if leb (length raw) n then some raw else none

module _ (codec : Codec) where
  -- `Marshal`
  unfoldable pub marshal : Invocation → Option Bytes
  marshal t = if validate codec t then within max_bytes (codec.marshal t) else none

  abbrev pub if_same : Bytes → Invocation → Option Bytes → Option Invocation
  if_same raw t none = none
  if_same raw t (some canonical) = if equal raw canonical then some t else none

  -- What `Parse` asks of a decoded value.
  unfoldable pub checked : Bytes → Option Invocation → Option Invocation
  unfolding equal
  checked raw none = none
  checked raw (some t) =
      if not (codec.at_end raw)
      then none
      else if not (validate codec t)
      then none
      else if_same raw t (codec.marshal t)

  -- `Parse`
  unfoldable pub parse : Bytes → Option Invocation
  unfolding checked
  parse raw =
      if eqb (length raw) 0 || ltb max_bytes (length raw)
      then none
      else checked raw (codec.decode raw)

  -- `EncodeHeader`
  unfoldable pub encode_header : Bytes → Option String
  unfolding parse
  encode_header raw = if is_some (parse raw) then some (codec.base64 raw) else none

  abbrev pub with_raw : Bytes → Option Invocation → Option (Invocation × Bytes)
  with_raw raw none = none
  with_raw raw (some t) = some (t, raw)

  unfoldable pub decode_bytes : String → Option Bytes → Option (Invocation × Bytes)
  unfolding parse
  decode_bytes value none = none
  decode_bytes value (some raw) =
      if not (codec.base64 raw == value) then none else with_raw raw (parse raw)

  -- `DecodeHeader`
  unfoldable pub decode_header : String → Option (Invocation × Bytes)
  unfolding decode_bytes
  decode_header value =
      if value == "" || ltb max_header (len value)
      then none
      else decode_bytes value (codec.from_base64 value)

  -- `BodyMatches`
  unfoldable pub body_matches : Invocation → Bytes → Bool
  body_matches t body = t.request.body_sha256 == codec.hex (codec.sha256 body)
