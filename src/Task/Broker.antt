-- ===== src/Task/Broker.antt =====
-- internal/runtime/task_broker.go: the client of the task broker. The transport, the clock and the
-- JSON decoder are arguments; the world keeps the requests that were sent, the last one first.
use Prim.Native.String.{len}
use app_module_sdk.Base.{
  ℕ, zero, suc, ◌+◌, ◌*◌, String, Bool, true, false, ◌&&◌, ◌||◌, not, Option, none, some, List, ◌∷◌,
  ◌==◌, eqb, ltb, leb, if◌then◌else◌,
}
use app_module_sdk.Base.Int.{ℤ, pos, eq_int}
use app_module_sdk.Auth.Headers.{fold}
use app_module_sdk.Task.{
  Instant, Kind, Claim, Heartbeat, Refresh, Error, Result, ok, err, already_handled,
  unsupported_version, token_missing, read_failed, too_large, malformed_envelope, malformed_json,
  non_json, http_status, transport,
}

-- The bodies, with the token that the source repeats in them as the lease.
pub data Payload : Type 0 where
  no_payload beat : Payload
  kinds : List Kind → Payload
  completed : Payload
  failed : String → String → Bool → Payload

-- The last part of the path.
pub data Endpoint : Type 0 where
  claim heartbeat refresh complete fail : Endpoint

pub record Request : Type 0 where
  pub job : String
  pub attempt : String
  pub endpoint : Endpoint
  pub token : String
  pub payload : Payload

-- A response; the body is `none` where it cannot be read.
pub record Reply : Type 0 where
  pub status : ℕ
  pub content_type : String
  pub body : Option String

-- `http.Do`: a failure with `ctx.Err()`, or a response.
pub data Exchange : Type 0 where
  no_reply : Option Error → Error → Exchange
  replied : Reply → Exchange

-- What the client uses: HTTP, `time.Now`, and the wait on a timer or the end of the context.
pub record Net (S : Type 0) : Type 0 where
  pub exchange : Request → S → Exchange × S
  pub now : S → Instant × S
  pub wait : ℕ → S → Option Error × S

-- encoding/json with unknown fields refused and nothing after the value; the error envelope is a
-- version and a code.
pub record Codec : Type 0 where
  pub envelope : String → Option (ℤ × String)
  pub claim : String → Option Claim
  pub heartbeat : String → Option Heartbeat
  pub refresh : String → Option Refresh

pub record World (S : Type 0) : Type 0 where
  pub outside : S
  pub sent : List Request

abbrev pub clock : {S : Type 0} → Net S → World S → Instant × World S
clock net w = let (t, s) = net.now w.outside in (t, record w { outside = s })

-- What `post` returns: the status, the code and the value or the error.
pub record Posted (A : Type 0) : Type 0 where
  pub status : ℕ
  pub code : String
  pub result : Result A

-- `out`: none, or the decoder of its type.
pub data Out (A : Type 0) : Type 0 where
  discard : A → Out A
  decode : (String → Option A) → Out A

abbrev pub millisecond : ℕ
millisecond = 1_000_000

abbrev pub body_limit : ℕ
body_limit = 512 * 1024

-- `strings.HasPrefix(strings.ToLower(s), prefix)` for a prefix in lower case.
unfoldable pub has_lower_prefix : String → String → Bool
has_lower_prefix String.[] s = true
has_lower_prefix (String.◌∷◌ p ps) String.[] = false
has_lower_prefix (String.◌∷◌ p ps) (String.◌∷◌ c s) = eqb (fold p) (fold c) && has_lower_prefix ps s

abbrev pub decoded : {A : Type 0} → Option A → Result A
decoded none = err malformed_json
decoded (some a) = ok a

-- A success: the tests of the content type and of the body where a value is wanted.
unfoldable pub accept : {A : Type 0} → Out A → String → String → Result A
unfolding has_lower_prefix
accept (discard a) content_type raw = ok a
accept (decode f) content_type raw =
    if not (content_type == "") && not (has_lower_prefix "application/json" content_type)
    then err non_json
    else if raw == ""
    then err malformed_json
    else decoded (f raw)

-- Any other status: the envelope has to be version 1 and to name a code.
unfoldable pub refuse : {A : Type 0} → ℕ → Option (ℤ × String) → Posted A
refuse status none = record { status = status; code = ""; result = err malformed_envelope }
refuse status (some (v, code)) =
    if not (eq_int v (pos 1)) || code == ""
    then record { status = status; code = ""; result = err malformed_envelope }
    else record { status = status; code = code; result = err (http_status status) }

abbrev pub is_success : ℕ → Bool
is_success status = leb 200 status && ltb status 300

module _ (codec : Codec) {A : Type 0} (out : Out A) where
  -- `post` from the body on.
  unfoldable pub read_reply : ℕ → String → Option String → Posted A
  unfolding accept refuse
  read_reply status content_type none = record {
    status = status;
    code = "";
    result = err read_failed;
  }
  read_reply status content_type (some raw) =
      if ltb body_limit (len raw)
      then record { status = status; code = ""; result = err too_large }
      else if not (is_success status)
      then refuse status (codec.envelope raw)
      else record { status = status; code = ""; result = accept out content_type raw }

  -- `post` from the exchange on.
  unfoldable pub read_exchange : Exchange → Posted A
  unfolding read_reply
  read_exchange (no_reply none e) = record { status = 0; code = ""; result = err (transport e) }
  read_exchange (no_reply (some c) e) = record { status = 0; code = ""; result = err c }
  read_exchange (replied r) = read_reply r.status r.content_type r.body

  -- `post`. The construction of a request fails on a malformed base URL only, which
  -- `NewBrokerClient` has refused.
  unfoldable pub post : {S : Type 0} → Net S → Request → World S → Posted A × World S
  unfolding read_exchange
  post net req w =
      if req.token == ""
      then (record { status = 0; code = ""; result = err token_missing }, w)
      else let (x, s) = net.exchange req w.outside in
        (read_exchange x, record { outside = s; sent = req ∷ w.sent })

-- An answer of another version is an error.
abbrev pub versioned : {A : Type 0} → (A → ℤ) → Result A → Result A
versioned version (ok a) = if eq_int (version a) (pos 1) then ok a else err unsupported_version
versioned version (err e) = err e

unfoldable pub claim_result : Posted Claim → Result Claim
claim_result p =
    if eqb p.status 409 && p.code == "attempt_already_handled"
    then err already_handled
    else versioned (λ (c : Claim). c.version) p.result

-- The failure is one to retry: the transport, throttling or the server.
unfoldable pub retriable : ℕ → Bool
retriable status = eqb status 0 || eqb status 429 || leb 500 status

module _ {S : Type 0} (net : Net S) (codec : Codec) where
  unfoldable pub send_claim : String → String → String → World S → Result Claim × World S
  unfolding post claim_result
  send_claim job attempt token w =
      let (p, w') =
        post codec (decode codec.claim) net
          (record {
            job = job;
            attempt = attempt;
            endpoint = claim;
            token = token;
            payload = no_payload;
          })
          w in
      (claim_result p, w')

  unfoldable pub send_heartbeat : String → String → String → World S → Result Heartbeat × World S
  unfolding post
  send_heartbeat job attempt token w =
      let (p, w') =
        post codec (decode codec.heartbeat) net
          (record {
            job = job;
            attempt = attempt;
            endpoint = heartbeat;
            token = token;
            payload = beat;
          })
          w in
      (versioned (λ (h : Heartbeat). h.version) p.result, w')

  unfoldable pub send_refresh :
      String → String → String → List Kind → World S → Result Refresh × World S
  unfolding post
  send_refresh job attempt token ks w =
      let (p, w') =
        post codec (decode codec.refresh) net
          (record {
            job = job;
            attempt = attempt;
            endpoint = refresh;
            token = token;
            payload = kinds ks;
          })
          w in
      (versioned (λ (r : Refresh). r.version) p.result, w')

  -- The wait of a round, and what follows it where the context goes on.
  unfoldable pub waited :
      (World S → Result (Unit {0}) × World S)
      → World S
      → Option Error × S
      → Result (Unit {0}) × World S
  waited again w (some cause, s) = (err cause, record w { outside = s })
  waited again w (none, s) = again (record w { outside = s })

  -- A round of the loop of `terminalPost` after its post.
  unfoldable pub after_post :
      (World S → Result (Unit {0}) × World S)
      → ℕ
      → ℕ
      → Result (Unit {0})
      → World S
      → Result (Unit {0}) × World S
  unfolding waited retriable
  after_post again attempt status (ok _) w = (ok tt, w)
  after_post again attempt status (err e) w =
      if not (retriable status)
      then (err e, w)
      else waited again w (net.wait ((attempt + 1) * 100 * millisecond) w.outside)

  -- The last round, whose error is returned whatever it is.
  last_round : Posted (Unit {0}) × World S → Result (Unit {0}) × World S
  last_round (p, w) = (p.result, w)

  -- The loop of `terminalPost`, by the number of rounds after this one; `attempt` counts from 0.
  unfoldable pub terminal_rounds : ℕ → ℕ → Request → World S → Result (Unit {0}) × World S
  unfolding last_round
  terminal_rounds zero attempt req w = last_round (post codec (discard tt) net req w)
  terminal_rounds (suc left) attempt req w =
      let (p, w') = post codec (discard tt) net req w in
      after_post (terminal_rounds left (attempt + 1) req) attempt p.status p.result w'

  unfoldable pub terminal_post : Request → World S → Result (Unit {0}) × World S
  unfolding terminal_rounds
  terminal_post = terminal_rounds 2 0

  -- `Complete` with no result.
  unfoldable pub send_complete : String → String → String → World S → Result (Unit {0}) × World S
  unfolding terminal_post
  send_complete job attempt token = terminal_post (record {
    job = job;
    attempt = attempt;
    endpoint = complete;
    token = token;
    payload = completed;
  })

  unfoldable pub send_fail :
      String → String → String → String → String → Bool → World S → Result (Unit {0}) × World S
  unfolding terminal_post
  send_fail job attempt token code message retryable = terminal_post (record {
    job = job;
    attempt = attempt;
    endpoint = fail;
    token = token;
    payload = failed code message retryable;
  })
