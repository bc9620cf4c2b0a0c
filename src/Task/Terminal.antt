-- ===== src/Task/Terminal.antt =====
-- A run of `RunOneShot` reports one terminal outcome.
use app_module_sdk.Base.{
  ℕ, ◌≤◌, String, ◌≡◌, refl, ap, ◌∙◌, ◌≢◌, Bool, Option, none, some, List, ◌++◌, All,
}
use app_module_sdk.Task.{Error, Result, ok, err, completion_failed, failure_failed}
use app_module_sdk.Task.Broker.{
  Endpoint, Payload, completed, failed, Request, Net, Codec, send_complete, send_fail,
}
use app_module_sdk.Task.Manager.{Manager, State, complete, fail}
use app_module_sdk.Task.Claims.{Event, Ending}
use app_module_sdk.Task.OneShot.{
  Session, happen_all, final_error, classify_failure, bounded_message, failing, report, finish,
  run_result,
}
use app_module_sdk.Task.Reports.{copies, terminal_post-sent}
use app_module_sdk.Task.Keeps.{IsWork}
use app_module_sdk.Task.Session.{Keeps-happen_all}

-- The callback that reports an outcome: completion, or the class and the text of a failure.
abbrev pub outcome_of : (Error → String) → Option Error × Bool → Endpoint × Payload
outcome_of text (none, p) = (Endpoint.complete, completed)
outcome_of text (some e, p) =
    let (code, retryable) = classify_failure e p in
    (Endpoint.fail, failed code (bounded_message (text e)) retryable)

abbrev pub callback : Manager → Endpoint × Payload → Request
callback m (endpoint, payload) = record {
  job = m.job;
  attempt = m.attempt;
  endpoint = endpoint;
  token = m.capability.token;
  payload = payload;
}

module _ {S : Type 0} (net : Net S) (codec : Codec) (text : Error → String) where
  failing-state :
      (f : Error → Error) (p : Result (Unit {0}) × State S) → (failing net codec text f p).1 ≡ p.1
  failing-state f (ok _, s) = refl
  failing-state f (err e, s) = refl

  -- The terminal callback is sent with the current lease, one to three times.
  report-sent :
      (o : Option Error × Bool) (s : State S)
      → s.manager.capability.token ≢ ""
      → (n : ℕ) × (1 ≤ n)
        × (n ≤ 3)
        × ((report net codec text o s).1.world.sent
            ≡ copies n (callback s.manager (outcome_of text o)) s.world.sent)
  unfolding report complete fail send_complete send_fail
  report-sent (none, p) s h =
      let (n, l, u, e) =
        terminal_post-sent net codec (callback s.manager (outcome_of text (none, p))) s.world h in
      (n, l, u, ap (λ t. t.world.sent) (failing-state completion_failed (complete net codec s)) ∙ e)
  report-sent (some f, p) s h =
      let (code, retryable) = classify_failure f p in
      let (n, l, u, e) =
        terminal_post-sent net codec (callback s.manager (outcome_of text (some f, p))) s.world h in
      (
        n,
        l,
        u,
        ap (λ t. t.world.sent)
              (failing-state failure_failed
                (fail net codec code (bounded_message (text f)) retryable s))
            ∙ e,
      )

  -- The report of a run: of its last error, with the last lease, after work only.
  pub run_result-sent :
      (es : List Event) (ending : Ending) (start : Session S)
      → start.state.manager.capability.token ≢ ""
      → (let last = happen_all net codec es start in
          (n : ℕ) × (xs : List Request) × (1 ≤ n)
          × (n ≤ 3)
          × All IsWork xs
          × ((run_result net codec text ending last).world.sent
              ≡ copies n
                  (callback last.state.manager
                    (outcome_of text (final_error last.state.manager.cause last.expired ending)))
                  (xs ++ start.state.world.sent)))
  unfolding run_result finish
  run_result-sent es ending start h =
      let last = happen_all net codec es start in
      let kept = Keeps-happen_all net codec es start in
      let (xs, e, a) = kept.sent in
      let o = final_error last.state.manager.cause last.expired ending in
      let (n, l, u, f) = report-sent o last.state (kept.token h) in
      (n, xs, l, u, a, f ∙ ap (copies n (callback last.state.manager (outcome_of text o))) e)
