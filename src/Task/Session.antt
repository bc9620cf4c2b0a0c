-- ===== src/Task/Session.antt =====
-- What any sequence of events during a run keeps, whatever the handler and the broker do.
use app_module_sdk.Base.{Bool, true, false, List, [], ◌∷◌, if◌then◌else◌}
use app_module_sdk.Task.{
  is_zero, is_after, Heartbeat, Result, ok, err, task_cancelled, deadline_exceeded,
  heartbeat_failed,
}
use app_module_sdk.Task.Broker.{Net, Codec}
use app_module_sdk.Task.Manager.{State, time, heartbeat}
use app_module_sdk.Task.Claims.{Event, use_of, beat, parent_done, deadline_reached}
use app_module_sdk.Task.OneShot.{Session, after_beat, beat_round, happen, happen_all}
use app_module_sdk.Task.Keeps.{Keeps, Keeps-refl, Keeps-trans}
use app_module_sdk.Task.Operations.{Keeps-cause, Keeps-time, Keeps-use_provider, Keeps-heartbeat}

module _ {S : Type 0} (net : Net S) (codec : Codec) where
  Keeps-either :
      (s : State S) (b : Bool) (x y : Session S)
      → Keeps net s x.state
      → Keeps net s y.state
      → Keeps net s (if b then x else y).state
  Keeps-either s true x y h k = h
  Keeps-either s false x y h k = k

  Keeps-after_beat :
      (s : State S) (p : Result Heartbeat × State S) (session : Session S)
      → Keeps net s p.1
      → Keeps net s (after_beat net codec p session).state
  unfolding after_beat
  Keeps-after_beat s (err e, s') session h =
      Keeps-trans net s s' _ h (Keeps-cause net s' (heartbeat_failed e))
  Keeps-after_beat s (ok h, s') session k =
      let (now, s'') = time net codec s' in
      let later = Keeps-trans net s s' s'' k (Keeps-time net codec s') in
      Keeps-either s h.cancelled _ _ (Keeps-trans net s s' _ k (Keeps-cause net s' task_cancelled))
        (Keeps-either s (is_zero h.deadline) _ _ k (
          Keeps-either s (is_after now h.deadline) _ _
            (Keeps-trans net s s'' _ later (Keeps-cause net s'' deadline_exceeded)) later))

  Keeps-happen :
      (e : Event) (session : Session S) → Keeps net session.state (happen net codec e session).state
  unfolding happen beat_round
  Keeps-happen (use_of k) session = Keeps-use_provider net codec k session.state
  Keeps-happen beat session =
      Keeps-either session.state session.beating _ _
        (Keeps-after_beat session.state (heartbeat net codec session.state) session
          (Keeps-heartbeat net codec session.state))
        (Keeps-refl net session.state)
  Keeps-happen (parent_done e) session = Keeps-cause net session.state e
  Keeps-happen deadline_reached session = Keeps-refl net session.state

  -- The events of a run keep the job and the attempt, the terminal flag, the scopes of the database,
  -- the cache and the storage credentials, and the first cause of cancellation. They send heartbeats
  -- and refreshes only. The lease after them is the one before, or one with a token that was not
  -- expired at an instant which was read from the clock since, and a token is never lost.
  pub Keeps-happen_all :
      (es : List Event) (session : Session S)
      → Keeps net session.state (happen_all net codec es session).state
  unfolding happen_all
  Keeps-happen_all [] session = Keeps-refl net session.state
  Keeps-happen_all (e ∷ es) session =
      let next = happen net codec e session in
      Keeps-trans net session.state next.state _ (Keeps-happen e session) (Keeps-happen_all es next)
