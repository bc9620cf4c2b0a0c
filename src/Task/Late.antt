-- ===== src/Task/Late.antt =====
-- What the manager does after the terminal callback.
use app_module_sdk.Base.{◌≡◌, refl, ◌⊎◌, false, List, [], ◌∷◌}
use app_module_sdk.Task.{Instant, no_resources, Kind, Result, ok, err, after_terminal}
use app_module_sdk.Task.Broker.{Net, Codec}
use app_module_sdk.Task.Renewal.{usable, resource_usable}
use app_module_sdk.Task.Manager.{
  State, time, refresh_locked, refresh, database, cache, storage, module_calls, clear,
}
use app_module_sdk.Task.OneShot.{use_provider}

module _ {S : Type 0} (net : Net S) (codec : Codec) where
  -- Nothing was sent and the manager is the same; only a usable credential is a success.
  abbrev IsInert : State S → Result (Unit {0}) × State S → Type 0
  IsInert s p =
      (p.1.world.sent ≡ s.world.sent)
      × (p.1.manager ≡ s.manager)
      × ((p.0 ≡ ok tt) ⊎ (p.0 ≡ err after_terminal))

  -- Nothing was sent from a state to a later one, and the manager is the same.
  abbrev IsStill : State S → State S → Type 0
  IsStill s s' = (s'.world.sent ≡ s.world.sent) × (s'.manager ≡ s.manager)

  -- Uses of the providers one after the other.
  unfoldable pub use_all : List Kind → State S → State S
  use_all [] s = s
  use_all (k ∷ ks) s = use_all ks (use_provider net codec k s)

  no_resources_usable : (k : Kind) (t : Instant) → resource_usable k t no_resources ≡ false
  unfolding resource_usable usable
  no_resources_usable Kind.database t = refl
  no_resources_usable Kind.cache t = refl
  no_resources_usable Kind.storage t = refl
  no_resources_usable Kind.module_calls t = refl
  no_resources_usable Kind.other t = refl

  -- After the deferred clear every refresh fails with the error for a late use, sends nothing and
  -- finds no credential.
  pub refresh-clear :
      (k : Kind) (s : State S)
      → ((refresh net codec k (clear net codec s)).0 ≡ err after_terminal)
        × ((refresh net codec k (clear net codec s)).1.world.sent ≡ s.world.sent)
        × ((refresh net codec k (clear net codec s)).1.manager.resources ≡ no_resources)
  unfolding refresh refresh_locked clear
  refresh-clear k s =
      let (t, s') = time net codec (clear net codec s) in
      let (u, _) = time net codec s' in
      rw (no_resources_usable k t, no_resources_usable k u) (refl, refl, refl)
