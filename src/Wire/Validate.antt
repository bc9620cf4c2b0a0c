-- ===== src/Wire/Validate.antt =====
-- `Validate` of internal/invocationwire/wire.go, one definition for each of its tests. Which of the
-- errors it returns is left out: they differ in their texts only.
use app_module_sdk.Base.{
  ℕ, zero, suc, String, Bool, true, false, ◌&&◌, ◌||◌, not, Option, none, some, List, [], ◌∷◌, ◌==◌,
  eqb, leb, ltb, if◌then◌else◌, length,
}
use Prim.Native.String.{◌++◌, len}
use app_module_sdk.Base.Int.{pos, eq_int}
use app_module_sdk.Registry.Merge.{contains}
use app_module_sdk.Wire.Shapes.{
  Time, Claims, Routes, Occurrence, Trust, Cookies, Invocation, UrlParts, canonical_uuid,
  valid_module_slug, valid_digest, app_schema_name, cookie_namespace, valid_path, valid_http_token,
  split_dots, text_leb,
}

abbrev pub Bytes : Type 0
Bytes = List ℕ

-- What the source calls of encoding/json, encoding/base64, encoding/base32, encoding/hex,
-- crypto/sha256, net/url, net and strings. `decode` reads the first JSON value and refuses fields that
-- it does not know; `at_end` is whether a second `Decode` gives `io.EOF`.
pub record Codec : Type 0 where
  pub marshal : Invocation → Option Bytes
  pub decode : Bytes → Option Invocation
  pub at_end : Bytes → Bool
  pub base64 : Bytes → String
  pub from_base64 : String → Option Bytes
  pub base32 : Bytes → String
  pub hex : Bytes → String
  pub sha256 : Bytes → Bytes
  pub utf8 : String → Bytes
  pub url : String → Option UrlParts
  pub path_escape : String → String
  pub is_ip : String → Bool
  pub to_lower : String → String
  pub trim_space : String → String

abbrev pub kind_member : String
kind_member = "member"

abbrev pub kind_platform : String
kind_platform = "platform"

abbrev pub legacy_logical_read : String
legacy_logical_read = "legacy-logical-read"

abbrev pub physical_names_v1 : String
physical_names_v1 = "physical-names-v1"

-- `validateIdentity`
unfoldable pub validate_identity : Claims → Bool
validate_identity identity =
    if identity.user_id == ""
    then identity.kind == "" && identity.app_role == "" && identity.actor_delegation == ""
    else (identity.kind == kind_member || identity.kind == kind_platform)
      && not (
          identity.kind == kind_member
          && (not (identity.app_role == "") || not (identity.actor_delegation == "")))
      && not (identity.kind == kind_platform && identity.app_role == "")
      && not (not (identity.actor_delegation == "") && identity.app_role == "")

-- Not `IsZero`, and in UTC.
abbrev pub valid_time : Time → Bool
valid_time t = not (eqb t.nanos 0) && t.utc

abbrev pub valid_scope : Invocation → Bool
valid_scope t =
    canonical_uuid t.app.id
    && canonical_uuid t.callee.id
    && valid_module_slug t.callee.slug
    && t.app.schema == app_schema_name t.app.id

abbrev pub valid_request : Occurrence → Bool
valid_request r =
    canonical_uuid r.id
    && valid_http_token r.method
    && valid_path r.path
    && valid_time r.occurred_at
    && valid_digest r.body_sha256

-- `capability >= next` does not hold of the capability before.
abbrev pub increases : Option String → String → Bool
increases none capability = true
increases (some before) capability = not (text_leb capability before)

-- The loop over the capabilities, with its two variables and the capability before.
unfoldable pub scan_capabilities : Bool → Bool → Option String → List String → Option (Bool × Bool)
scan_capabilities legacy physical before [] = some (legacy, physical)
scan_capabilities legacy physical before (c ∷ cs) =
    let rest =
      scan_capabilities (legacy || c == legacy_logical_read) (physical || c == physical_names_v1)
        (some c) cs in
    if not (c == legacy_logical_read) && not (c == physical_names_v1)
    then none
    else if not (increases before c)
    then none
    else rest

-- What follows the loop.
abbrev pub valid_window : Time → Cookies → Option (Bool × Bool) → Bool
valid_window at cookies none = false
valid_window at cookies (some (legacy, physical)) =
    physical && not (legacy && not (ltb at.nanos cookies.legacy_read_until.nanos))

unfoldable pub valid_capabilities : Time → Cookies → Bool
unfolding scan_capabilities
valid_capabilities at cookies =
    valid_window at cookies (scan_capabilities false false none cookies.capabilities)

module _ (codec : Codec) where
  abbrev pub same_url : Trust → Option UrlParts → Bool
  same_url trust none = false
  same_url trust (some u) =
      u.scheme == trust.scheme
      && u.host == trust.host
      && not u.has_user
      && u.path == ""
      && u.raw_query == ""
      && u.fragment == ""
      && u.opaque == ""

  abbrev pub valid_trust : Trust → Routes → Bool
  valid_trust trust routes =
      (trust.source == "edge" || trust.source == "direct")
      && (trust.client_ip == "" || codec.is_ip trust.client_ip)
      && (trust.scheme == "http" || trust.scheme == "https")
      && not (trust.host == "")
      && trust.host == codec.to_lower (codec.trim_space trust.host)
      && trust.origin == (trust.scheme ++ "://" ++ trust.host)
      && routes.origin == trust.origin
      && same_url trust (codec.url trust.origin)

  -- `moduleRoutes`
  abbrev pub module_routes : String → String → String × String × String
  module_routes app_id slug =
      let base = "/v1/apps/app/" ++ codec.path_escape app_id in
      let name = codec.path_escape slug in
      (base, base ++ "/public/" ++ name, base ++ "/platform/" ++ name)

  abbrev pub valid_routes : Invocation → Bool
  valid_routes t =
      let (base, public_route, platform) = module_routes t.app.id t.callee.slug in
      t.routes.callee == base
      && t.routes.public_route == public_route
      && t.routes.platform == platform
      && t.routes.current_local == t.request.path

  abbrev pub valid_redirect : Option UrlParts → Bool
  valid_redirect none = false
  valid_redirect (some u) =
      (u.scheme == "http" || u.scheme == "https")
      && not (u.host == "")
      && not u.has_user
      && u.fragment == ""

  -- The loop over the redirects; `seen` holds those before.
  unfoldable pub valid_redirects : List String → List String → Bool
  valid_redirects seen [] = true
  valid_redirects seen (r ∷ rs) =
      valid_redirect (codec.url r) && not (contains r seen) && valid_redirects (r ∷ seen) rs

  -- `cookiePrefix`
  abbrev pub first_12 : ℕ → Bytes → Bytes
  first_12 n [] = []
  first_12 zero (b ∷ bs) = []
  first_12 (suc n) (b ∷ bs) = b ∷ first_12 n bs

  abbrev pub cookie_prefix : String → String → String
  cookie_prefix app_id module_id =
      "__msm1_"
      ++ codec.to_lower
          (codec.base32 (first_12 12 (codec.sha256 (codec.utf8 (app_id ++ "\0" ++ module_id)))))
      ++ "_"

  abbrev pub valid_cookies : Invocation → Bool
  valid_cookies t =
      t.cookies.namespace == cookie_namespace t.app.id t.callee.id
      && t.cookies.physical_prefix == cookie_prefix t.app.id t.callee.id
      && valid_time t.cookies.legacy_read_until
      && not (eqb (length t.cookies.capabilities) 0)

  -- A base64 text in its only spelling, of bytes whose number passes a test.
  abbrev pub decodes_to : (ℕ → Bool) → String → Option Bytes → Bool
  decodes_to p part none = false
  decodes_to p part (some bs) = p (length bs) && codec.base64 bs == part

  abbrev pub valid_parts : List String → Bool
  valid_parts (prefix ∷ payload ∷ signature ∷ []) =
      prefix == "mip1"
      && decodes_to (λ n. not (eqb n 0)) payload (codec.from_base64 payload)
      && decodes_to (λ n. eqb n 32) signature (codec.from_base64 signature)
  valid_parts parts = false

  -- `validAuditProvenance`
  unfoldable pub valid_audit_provenance : String → Bool
  unfolding split_dots
  valid_audit_provenance value = leb (len value) 4096 && valid_parts (split_dots value)

  -- `Validate`
  unfoldable pub validate : Invocation → Bool
  unfolding validate_identity valid_redirects valid_capabilities valid_audit_provenance
  validate t =
      eq_int t.version (pos 1)
      && valid_scope t
      && validate_identity t.identity
      && valid_request t.request
      && valid_trust t.trust t.routes
      && valid_routes t
      && t.routes.has_redirects
      && valid_redirects [] t.routes.redirects
      && valid_cookies t
      && valid_capabilities t.request.occurred_at t.cookies
      && valid_audit_provenance t.provenance
