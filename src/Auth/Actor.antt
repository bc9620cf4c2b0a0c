-- ===== src/Auth/Actor.antt =====
-- The values that auth/context.go and internal/actor/context.go keep in a request's context, and
-- what they do with the actor's delegation. A key that is not set reads as its zero value.
use Prim.Native.Char.{Char, code}
use Prim.Native.String.{len}
use app_module_sdk.Base.{
  String, Bool, true, false, ◌&&◌, ◌||◌, not, Option, some, ◌==◌, eqb, leb, if◌then◌else◌,
}

pub record Identity : Type 0 where
  pub user_id : String
  pub app_id : String
  pub app_role : String

-- `invocationstate.Binding`
pub record Binding : Type 0 where
  pub module_id : String
  pub module_slug : String

-- What the middleware reads of `invocation.Context`.
pub record Trusted : Type 0 where
  pub method : String
  pub path : String
  pub module_id : String
  pub module_slug : String
  pub app_id : String
  pub schema : String
  pub user_id : String
  pub app_role : String
  pub actor_delegation : String

pub record Context : Type 0 where
  pub identity : Option Identity
  pub payload_trust : Bool
  pub proxy_trust : Bool
  pub platform_surface : Bool
  pub delegation : String
  pub pending : String
  pub binding : Option Binding
  pub schema : String
  pub invocation : Option Trusted

-- `auth.Set`
unfoldable pub set : Identity → Context → Context
set id ctx = record ctx { identity = some id }

unfoldable pub with_payload_trust : Context → Context
with_payload_trust ctx = record ctx { payload_trust = true }

unfoldable pub with_proxy_trust : Context → Context
with_proxy_trust ctx = record ctx { proxy_trust = true }

-- `strings.ContainsAny(assertion, ", \t\r\n")` on one character.
abbrev pub breaks_transport : Char → Bool
breaks_transport c =
    eqb (code c) 44 || eqb (code c) 32 || eqb (code c) 9 || eqb (code c) 13 || eqb (code c) 10

pub contains_break : String → Bool
contains_break String.[] = false
contains_break (String.◌∷◌ c s) = breaks_transport c || contains_break s

-- `ValidTransportValue`; the bytes of a header value are its characters.
unfoldable pub valid_transport_value : String → Bool
unfolding contains_break
valid_transport_value assertion =
    not (assertion == "") && leb (len assertion) 4096 && not (contains_break assertion)

unfoldable pub with_delegation : Context → String → Context
with_delegation ctx assertion =
    if assertion == "" then ctx else record ctx { delegation = assertion }

unfoldable pub with_pending_delegation : Context → String → Context
with_pending_delegation ctx assertion =
    if assertion == "" then ctx else record ctx { pending = assertion }

unfoldable pub with_platform_surface : Context → Context
with_platform_surface ctx = record ctx { platform_surface = true }

unfoldable pub without_delegation : Context → Context
without_delegation ctx = record ctx { delegation = ""; pending = "" }

unfoldable pub activate_pending_delegation : Context → Context
unfolding without_delegation with_delegation
activate_pending_delegation ctx =
    if not ctx.platform_surface
    then without_delegation ctx
    else with_delegation (without_delegation ctx) ctx.pending
