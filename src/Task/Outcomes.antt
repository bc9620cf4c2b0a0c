-- ===== src/Task/Outcomes.antt =====
-- What a run reports, and that a run with a valid claim does.
use app_module_sdk.Base.{ℕ, ◌≤◌, String, ◌≡◌, refl, ap, ◌∙◌, ◌≢◌, false, some, List, ◌++◌, All}
use app_module_sdk.Task.{Error}
use app_module_sdk.Task.Broker.{Endpoint, failed, Request, Net, Codec}
use app_module_sdk.Task.Manager.{Manager}
use app_module_sdk.Task.Claims.{Event, Ending}
use app_module_sdk.Task.OneShot.{
  Session, happen_all, final_error, classify_failure, bounded_message, run_result,
}
use app_module_sdk.Task.Reports.{copies}
use app_module_sdk.Task.Keeps.{IsWork}
use app_module_sdk.Task.Session.{Keeps-happen_all}
use app_module_sdk.Task.Terminal.{callback, outcome_of, run_result-sent}

module _ {S : Type 0} (net : Net S) (codec : Codec) (text : Error → String) where
  -- The first cause by which the context of a run was cancelled is what the run reports, as a
  -- failure of its class, whatever happens later and however the handler ends.
  pub run_result-cause :
      (es : List Event) (ending : Ending) (start : Session S) (e : Error)
      → start.state.manager.capability.token ≢ ""
      → start.state.manager.cause ≡ some e
      → (m : Manager) × (n : ℕ) × (xs : List Request) × (1 ≤ n)
        × (n ≤ 3)
        × All IsWork xs
        × ((run_result net codec text ending (happen_all net codec es start)).world.sent
            ≡ copies n
                (callback m (
                  Endpoint.fail,
                  failed
                      (classify_failure e false).0
                      (bounded_message (text e))
                      (classify_failure e false).1,
                ))
                (xs ++ start.state.world.sent))
  unfolding final_error
  run_result-cause es ending start e t c =
      let last = happen_all net codec es start in
      let (n, xs, low, high, work, f) = run_result-sent net codec text es ending start t in
      let kept : last.state.manager.cause ≡ some e =
        (Keeps-happen_all net codec es start).cause e c in
      let final : final_error last.state.manager.cause last.expired ending ≡ (some e, false) =
        rw kept refl in
      (
        last.state.manager,
        n,
        xs,
        low,
        high,
        work,
        f
            ∙ ap
                (λ o.
                  copies n (callback last.state.manager (outcome_of text o))
                    (xs ++ start.state.world.sent))
                final,
      )
