-- ===== src/Task/Runs.antt =====
-- Every run of `RunOneShot`, whatever the broker, the handler and the clock do.
use app_module_sdk.Base.{
  ℕ, ◌≤◌, String, ◌≡◌, refl, ap, ◌∙◌, ◌≢◌, inl, inr, Bool, true, false, ◌||◌, not, Option, none,
  some, List, [], ◌∷◌, ◌++◌, arith, ◌==◌, Bool-cases, Option-cases, All, is_some, length,
  if◌then◌else◌,
}
use app_module_sdk.Base.Int.{ℤ}
use app_module_sdk.Ids.{canonical_module_id}
use app_module_sdk.Task.{
  Instant, Claim, Error, already_handled, Result, ok, err, validate_capability,
}
use app_module_sdk.Task.Broker.{
  Endpoint, no_payload, Request, Net, Codec, World, clock, post, terminal_post, send_claim,
  send_fail,
}
use app_module_sdk.Task.Manager.{Manager}
use app_module_sdk.Task.Claims.{
  Handler, Config, Parsers, claim_identity_matches, handler_of, validate_authority, validate_claim,
}
use app_module_sdk.Task.OneShot.{
  Run, happen_all, final_error, begin, execute, plain, reported, reject_claim, run_claim, claimed,
  obtain, config_error, configured, run_one_shot, effective_deadline, context_of, selected,
}
use app_module_sdk.Task.Reports.{copies, terminal_post-sent}
use app_module_sdk.Task.Keeps.{IsWork}
use app_module_sdk.Task.Scopes.{validate_capability-token}
use app_module_sdk.Task.Terminal.{outcome_of, callback, run_result-sent}

abbrev pub IsClaim : Request → Type 0
IsClaim q = elim q.endpoint [ Endpoint.claim ↦ Unit | _ ↦ ⊥ ]

abbrev pub IsTerminal : Request → Type 0
IsTerminal q = elim q.endpoint [ Endpoint.complete ↦ Unit | Endpoint.fail ↦ Unit | _ ↦ ⊥ ]

-- What a run sent, the last first: one claim at most, then work, then up to three copies of one
-- terminal callback, which was sent where a handler was run.
pub record Trace {S : Type 0} (w : World S) (r : Run S) : Type 0 where
  pub claims : List Request
  pub work : List Request
  pub times : ℕ
  pub terminal : Request
  pub one_claim : length claims ≤ 1
  pub are_claims : All IsClaim claims
  pub is_work : All IsWork work
  pub few : times ≤ 3
  pub is_terminal : IsTerminal terminal
  pub executed : is_some r.manager ≡ true → 1 ≤ times
  pub sent : r.world.sent ≡ copies times terminal (work ++ (claims ++ w.sent))

-- A claim that is accepted carries a lease that is valid.
validate_claim-capability :
    (parsers : Parsers) (cfg : Config) (canonical : String) (claim : Claim) (now : Instant)
    → validate_claim parsers cfg canonical claim now ≡ none
    → validate_capability claim.capability now ≡ none
unfolding validate_claim validate_authority
validate_claim-capability parsers cfg canonical claim now h =
    elim (Option-cases (validate_capability claim.capability now)) [
      | inl e ↦ e
      | inr (f, e) ↦ elim (Option-cases (handler_of cfg claim)) [
        | inl g ↦ ground (arith, h, g)
        | inr (k, g) ↦ ground (arith, h, g, e)
      ]
    ]

none_of : {A : Type 0} (o : Option A) → is_some o ≡ false → o ≡ none
none_of none h = refl
none_of (some a) h = cc

module _ {S : Type 0} (net : Net S) (codec : Codec) (text : Error → String) where
  outcome_of-IsTerminal :
      (m : Manager) (o : Option Error × Bool) → IsTerminal (callback m (outcome_of text o))
  outcome_of-IsTerminal m (none, p) = tt
  outcome_of-IsTerminal m (some e, p) = tt

  abbrev any_terminal : Request
  any_terminal = record {
    job = "";
    attempt = "";
    endpoint = Endpoint.complete;
    token = "";
    payload = no_payload;
  }

  -- A run that ends after the claims.
  plain-Trace :
      (result : Result (Unit {0})) (w w' : World S) (cs : List Request)
      → length cs ≤ 1
      → All IsClaim cs
      → w'.sent ≡ cs ++ w.sent
      → Trace w (plain net codec text result w')
  plain-Trace result w w' cs l a e = record {
    claims = cs;
    work = [];
    times = 0;
    terminal = any_terminal;
    one_claim = l;
    are_claims = a;
    is_work = tt;
    few = omega arith;
    is_terminal = tt;
    executed = λ h. cc;
    sent = e;
  }

  Trace-if :
      (w : World S) (b : Bool) (x y : Run S)
      → Trace w x
      → (b ≡ false → Trace w y)
      → Trace w (if b then x else y)
  Trace-if w true x y h k = h
  Trace-if w false x y h k = k refl

  execute-Trace :
      (cfg : Config) (claim : Claim) (h : Handler × ℤ) (w w' : World S) (cs : List Request)
      → claim.capability.token ≢ ""
      → length cs ≤ 1
      → All IsClaim cs
      → w'.sent ≡ cs ++ w.sent
      → Trace w (execute net codec text cfg claim h w')
  unfolding execute
  execute-Trace cfg claim (handler, timeout) w w' cs t l a e =
      let (now, w'') = clock net w' in
      let (events, ending) =
        handler
          (context_of net codec text claim (effective_deadline claim.job.deadline timeout now))
          claim.payload in
      let start = begin net codec text cfg claim w'' in
      let last = happen_all net codec events start in
      let o = final_error last.state.manager.cause last.expired ending in
      let (n, xs, low, high, work, f) = run_result-sent net codec text events ending start t in
      record {
        claims = cs;
        work = xs;
        times = n;
        terminal = callback last.state.manager (outcome_of text o);
        one_claim = l;
        are_claims = a;
        is_work = work;
        few = high;
        is_terminal = outcome_of-IsTerminal last.state.manager o;
        executed = λ _. low;
        sent = f ∙ ap (λ l. copies n (callback last.state.manager (outcome_of text o)) (xs ++ l)) e;
      }

  reported-manager :
      (e : Error) (p : Result (Unit {0}) × World S)
      → ((reported net codec text e p).manager ≡ none) × ((reported net codec text e p).world ≡ p.1)
  reported-manager e (ok _, w) = (refl, refl)
  reported-manager e (err f, w) = (refl, refl)

  -- The callback of a claim that is not valid.
  reported-Trace :
      (e : Error) (request : Request) (w w' : World S) (cs : List Request)
      → request.token ≢ ""
      → IsTerminal request
      → length cs ≤ 1
      → All IsClaim cs
      → w'.sent ≡ cs ++ w.sent
      → Trace w (reported net codec text e (terminal_post net codec request w'))
  reported-Trace e request w w' cs t c l a h =
      let (n, _, high, f) = terminal_post-sent net codec request w' t in
      let (m, same) = reported-manager e (terminal_post net codec request w') in
      record {
        claims = cs;
        work = [];
        times = n;
        terminal = request;
        one_claim = l;
        are_claims = a;
        is_work = tt;
        few = high;
        is_terminal = c;
        executed = λ p. ground (arith, m, p);
        sent = ap (λ u. u.sent) same ∙ f ∙ ap (copies n request) h;
      }

  reject_claim-Trace :
      (cfg : Config) (canonical : String) (claim : Claim) (e : Error) (w w' : World S)
      (cs : List Request)
      → length cs ≤ 1
      → All IsClaim cs
      → w'.sent ≡ cs ++ w.sent
      → Trace w (reject_claim net codec text cfg canonical claim e w')
  unfolding reject_claim send_fail
  reject_claim-Trace cfg canonical claim e w w' cs l a h =
      let (now, w'') = clock net w' in
      Trace-if w (is_some cfg.preclaimed || not (claim_identity_matches cfg canonical claim)) _ _
        (plain-Trace (err e) w w' cs l a h)
        λ _.
          Trace-if w (is_some (validate_capability claim.capability now)) _ _
            (plain-Trace (err e) w w'' cs l a h)
            λ v.
              reported-Trace e _ w w'' cs
                (validate_capability-token claim.capability now (none_of _ v)) tt l a h

  run_claim-Trace :
      (parsers : Parsers) (cfg : Config) (canonical : String) (claim : Claim) (w w' : World S)
      (cs : List Request)
      → length cs ≤ 1
      → All IsClaim cs
      → w'.sent ≡ cs ++ w.sent
      → Trace w (run_claim net codec text parsers cfg canonical claim w')
  unfolding run_claim
  run_claim-Trace parsers cfg canonical claim w w' cs l a h =
      let (now, w'') = clock net w' in
      elim (Option-cases (validate_claim parsers cfg canonical claim now)) [
        | inr (e, v) ↦ rw (v, run_claim) (reject_claim-Trace cfg canonical claim e w w'' cs l a h)
        | inl v ↦
            rw (v, run_claim)
              (execute-Trace cfg claim (selected (handler_of cfg claim)) w w'' cs
                (validate_capability-token claim.capability now
                  (validate_claim-capability parsers cfg canonical claim now v))
                l a h)
      ]

  -- A claim is sent once or, without a token, not at all.
  send_claim-sent :
      (job attempt token : String) (w : World S)
      → (cs : List Request) × (length cs ≤ 1)
        × All IsClaim cs
        × ((send_claim net codec job attempt token w).1.sent ≡ cs ++ w.sent)
  unfolding send_claim post
  send_claim-sent job attempt token w = elim (Bool-cases (token == "")) [
    | inl e ↦ rw e ([], omega arith, tt, refl)
    | inr e ↦ rw e (
      record {
        job = job;
        attempt = attempt;
        endpoint = Endpoint.claim;
        token = token;
        payload = no_payload;
      }
          ∷ [],
      omega arith,
      (tt, tt),
      refl,
    )
  ]

  claimed-Trace :
      (parsers : Parsers) (cfg : Config) (canonical : String) (r : Result Claim) (w w' : World S)
      (cs : List Request)
      → length cs ≤ 1
      → All IsClaim cs
      → w'.sent ≡ cs ++ w.sent
      → Trace w (claimed net codec text parsers cfg canonical (r, w'))
  unfolding claimed
  claimed-Trace parsers cfg canonical (ok claim) w w' cs l a h =
      run_claim-Trace parsers cfg canonical claim w w' cs l a h
  claimed-Trace parsers cfg canonical (err already_handled) w w' cs l a h =
      plain-Trace (ok tt) w w' cs l a h
  claimed-Trace parsers cfg canonical (err e) w w' cs l a h = plain-Trace (err e) w w' cs l a h

  obtain-Trace :
      (parsers : Parsers) (cfg : Config) (canonical : String) (o : Option Claim) (w : World S)
      → Trace w (obtain net codec text parsers cfg canonical o w)
  unfolding obtain
  obtain-Trace parsers cfg canonical (some claim) w =
      run_claim-Trace parsers cfg canonical claim w w [] (omega arith) tt refl
  obtain-Trace parsers cfg canonical none w =
      let (r, w') = send_claim net codec cfg.job_id cfg.attempt_id cfg.bootstrap_token w in
      let (cs, l, a, e) = send_claim-sent cfg.job_id cfg.attempt_id cfg.bootstrap_token w in
      claimed-Trace parsers cfg canonical r w w' cs l a e

  configured-Trace :
      (parsers : Parsers) (cfg : Config) (o : Option String) (e : Option Error) (w : World S)
      → Trace w (configured net codec text parsers cfg o e w)
  unfolding configured
  configured-Trace parsers cfg none e w = plain-Trace _ w w [] (omega arith) tt refl
  configured-Trace parsers cfg (some canonical) (some e) w =
      plain-Trace (err e) w w [] (omega arith) tt refl
  configured-Trace parsers cfg (some canonical) none w =
      obtain-Trace parsers cfg canonical cfg.preclaimed w

  -- A run sends one claim at most, then heartbeats and refreshes only, and then one terminal
  -- callback, which it repeats twice at most; where it has run a handler, it has sent one.
  pub run_one_shot-Trace :
      (parsers : Parsers) (cfg : Config) (w : World S)
      → Trace w (run_one_shot net codec text parsers cfg w)
  unfolding run_one_shot
  run_one_shot-Trace parsers cfg w =
      configured-Trace parsers cfg (canonical_module_id cfg.module_id) (config_error cfg) w
