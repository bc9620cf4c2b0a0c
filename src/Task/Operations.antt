-- ===== src/Task/Operations.antt =====
-- Each operation of the manager before the terminal callback keeps the attempt and the scopes, leaves
-- the lease or an open one, and sends work only.
use app_module_sdk.Base.{
  ◌≡◌, refl, inl, inr, Bool, true, false, Option, none, some, List, [], ◌∷◌, ◌++◌, ◌==◌, Bool-cases,
  Option-cases, All, if◌then◌else◌,
}
use app_module_sdk.Task.{
  Instant, Capability, ModuleCallCapability, Resources, Heartbeat, Refresh, Kind, Error, Result, ok,
  err, task_cancelled, refresh_failed, validate_capability,
}
use app_module_sdk.Task.Broker.{
  Request, Net, Codec, World, Out, decode, post, send_heartbeat, send_refresh,
}
use app_module_sdk.Task.Renewal.{apply_refresh, resource_usable, unexpired}
use app_module_sdk.Task.Manager.{
  State, first_cause, cancelling, time, adopted, rotate, store, apply_out, refreshed,
  refresh_locked, refresh, then_vend, database, cache, storage, checked_calls, module_calls, beaten,
  rotated_beat, heartbeat,
}
use app_module_sdk.Task.OneShot.{use_provider}
use app_module_sdk.Task.Keeps.{
  Since, now_is, ticked, exchanged, Reading, IsOpen, unchanged, renewed, validate_capability-IsOpen,
  KeepsScope, KeepsScope-refl, IsWork, Keeps, Keeps-refl, Keeps-trans,
}
use app_module_sdk.Task.Scopes.{apply_refresh-KeepsScope, Result-cases}

first_cause-some : (o : Option Error) (e f : Error) → o ≡ some f → first_cause o e ≡ some f
first_cause-some none e f h = cc
first_cause-some (some c) e f h = h

module _ {S : Type 0} (net : Net S) where
  pub Keeps-cause : (s : State S) (e : Error) → Keeps net s (cancelling e s)
  Keeps-cause s e = record {
    job = refl;
    attempt = refl;
    terminal = refl;
    token = λ h. h;
    lease = unchanged refl;
    later = now_is;
    scope = KeepsScope-refl s.manager.resources;
    cause = λ f h. first_cause-some s.manager.cause e f h;
    sent = ([], refl, tt);
  }

  -- The world after work was sent.
  Keeps-world :
      (s : State S) (w : World S) (xs : List Request)
      → w.sent ≡ xs ++ s.world.sent
      → All IsWork xs
      → Since net s.world.outside w.outside
      → Keeps net s (record s { world = w })
  Keeps-world s w xs e a l = record {
    job = refl;
    attempt = refl;
    terminal = refl;
    token = λ h. h;
    lease = unchanged refl;
    later = l;
    scope = KeepsScope-refl s.manager.resources;
    cause = λ e h. h;
    sent = (xs, e, a);
  }

  -- A later state that adopts a lease which was open at a reading of the clock in between.
  Keeps-capability :
      (s s' : State S) (c : Capability) (t : Instant)
      → Keeps net s s'
      → Reading net s.world.outside t
      → IsOpen c t
      → Keeps net s (record s' { manager = record s'.manager { capability = c } })
  Keeps-capability s s' c t k r h = record {
    job = k.job;
    attempt = k.attempt;
    terminal = k.terminal;
    token = λ _. h.token;
    lease = renewed t r h;
    later = k.later;
    scope = k.scope;
    cause = k.cause;
    sent = k.sent;
  }

  Keeps-resources :
      (s : State S) (r : Resources)
      → KeepsScope s.manager.resources r
      → Keeps net s (record s { manager = record s.manager { resources = r } })
  Keeps-resources s r h = record {
    job = refl;
    attempt = refl;
    terminal = refl;
    token = λ p. p;
    lease = unchanged refl;
    later = now_is;
    scope = h;
    cause = λ e h. h;
    sent = ([], refl, tt);
  }

module _ {S : Type 0} (net : Net S) (codec : Codec) where
  -- A work request is sent once or, without a token, not at all.
  post-IsWork :
      {A : Type 0} (out : Out A) (q : Request) (w : World S)
      → IsWork q
      → (xs : List Request) × ((post codec out net q w).1.sent ≡ xs ++ w.sent)
        × All IsWork xs
        × Since net w.outside (post codec out net q w).1.outside
  unfolding post
  post-IsWork out q w h = elim (Bool-cases (q.token == "")) [
    | inl e ↦ rw e ([], refl, tt, now_is)
    | inr e ↦ rw e (q ∷ [], refl, (h, tt), exchanged q now_is)
  ]

  pub Keeps-time : (s : State S) → Keeps net s (time net codec s).1
  Keeps-time s = record {
    job = refl;
    attempt = refl;
    terminal = refl;
    token = λ p. p;
    lease = unchanged refl;
    later = ticked now_is;
    scope = KeepsScope-refl s.manager.resources;
    cause = λ e h. h;
    sent = ([], refl, tt);
  }

  Keeps-adopted :
      (c : Capability) (s s' : State S) (now : Instant)
      → Keeps net s s'
      → Reading net s.world.outside now
      → Keeps net s (adopted net codec c (validate_capability c now) s').1
  unfolding adopted
  Keeps-adopted c s s' now k r = elim (Option-cases (validate_capability c now)) [
    | inl v ↦
        rw (v, adopted) (Keeps-capability net s s' c now k r (validate_capability-IsOpen c now v))
    | inr (e, v) ↦ rw (v, adopted) k
  ]

  pub Keeps-rotate : (o : Option Capability) (s : State S) → Keeps net s (rotate net codec o s).1
  unfolding rotate
  Keeps-rotate none s = Keeps-refl net s
  Keeps-rotate (some c) s =
      let (t, s') = time net codec s in
      Keeps-adopted c s s' t (Keeps-time s)
        (record { at = s.world.outside; reached = now_is; is_read = refl })

  Keeps-renewed :
      (k : Kind) (now : Instant) (r : Resources) (s : State S) (out : Resources)
      → apply_refresh k now s.manager.resources out ≡ ok r
      → Keeps net s (store net codec (ok r) s).1
  unfolding store
  Keeps-renewed k now r s out h =
      Keeps-resources net s r (apply_refresh-KeepsScope k now s.manager.resources out r h)

  Keeps-store :
      (k : Kind) (now : Instant) (s : State S) (out : Resources)
      → Keeps net s (store net codec (apply_refresh k now s.manager.resources out) s).1
  unfolding store
  Keeps-store k now s out = elim (Result-cases (apply_refresh k now s.manager.resources out)) [
    | inl (r, e) ↦ rw e (Keeps-renewed k now r s out e)
    | inr (f, e) ↦ rw e (Keeps-cause net s f)
  ]

  Keeps-apply_out :
      (k : Kind) (out : Refresh) (o : Option Error) (s : State S)
      → Keeps net s (apply_out net codec k out (o, s)).1
  unfolding apply_out
  Keeps-apply_out k out (some e) s = Keeps-cause net s e
  Keeps-apply_out k out none s = elim (Bool-cases out.cancelled) [
    | inl c ↦ rw c (Keeps-cause net s task_cancelled)
    | inr c ↦
        let (t, s') = time net codec s in
        rw c (Keeps-trans net s s' _ (Keeps-time s) (Keeps-store k t s' out.resources))
  ]

  Keeps-refreshed :
      (k : Kind) (r : Result Refresh) (s : State S) → Keeps net s (refreshed net codec k r s).1
  unfolding refreshed
  Keeps-refreshed k (err e) s = Keeps-cause net s (refresh_failed e)
  Keeps-refreshed k (ok out) s =
      let (o, s') = rotate net codec out.capability s in
      Keeps-trans net s s' _ (Keeps-rotate out.capability s) (Keeps-apply_out k out o s')

  -- A work request of the attempt leaves a state that is kept.
  pub Keeps-send_refresh :
      (s : State S) (ks : List Kind)
      → Keeps net s (record s {
        world =
            (send_refresh net codec s.manager.job s.manager.attempt s.manager.capability.token ks
              s.world).1;
      })
  unfolding send_refresh
  Keeps-send_refresh s ks =
      let (xs, e, a, l) = post-IsWork (decode codec.refresh) _ s.world tt in
      Keeps-world net s _ xs e a l

  Keeps-send_heartbeat :
      (s : State S)
      → Keeps net s (record s {
        world =
            (send_heartbeat net codec s.manager.job s.manager.attempt s.manager.capability.token
              s.world).1;
      })
  unfolding send_heartbeat
  Keeps-send_heartbeat s =
      let (xs, e, a, l) = post-IsWork (decode codec.heartbeat) _ s.world tt in
      Keeps-world net s _ xs e a l

  pub Keeps-if :
      {A : Type 0} (s : State S) (b : Bool) (x y : A × State S)
      → Keeps net s x.1
      → Keeps net s y.1
      → Keeps net s (if b then x else y).1
  Keeps-if s true x y h k = h
  Keeps-if s false x y h k = k

  Keeps-refresh_locked : (k : Kind) (s : State S) → Keeps net s (refresh_locked net codec k s).1
  unfolding refresh_locked
  Keeps-refresh_locked k s =
      let (t, s') = time net codec s in
      let (r, w) =
        send_refresh net codec s'.manager.job s'.manager.attempt s'.manager.capability.token
          (k ∷ []) s'.world in
      let sent = Keeps-send_refresh s' (k ∷ []) in
      Keeps-if s s.manager.terminal _ _ (Keeps-refl net s) (
        Keeps-trans net s s' _ (Keeps-time s) (
          Keeps-if s' (resource_usable k t s'.manager.resources) _ _ (Keeps-refl net s') (
            Keeps-trans net s' (record s' { world = w }) _ sent
              (Keeps-refreshed k r (record s' { world = w })))))

  pub Keeps-refresh : (k : Kind) (s : State S) → Keeps net s (refresh net codec k s).1
  unfolding refresh
  Keeps-refresh k s =
      let (t, s') = time net codec s in
      let (u, s'') = time net codec s' in
      Keeps-trans net s s' _ (Keeps-time s) (
        Keeps-if s' (resource_usable k t s'.manager.resources) _ _ (Keeps-refl net s') (
          Keeps-trans net s' s'' _ (Keeps-time s') (
            Keeps-if s'' (resource_usable k u s''.manager.resources) _ _ (Keeps-refl net s'')
              (Keeps-refresh_locked k s''))))

  Keeps-then_vend :
      {C : Type 0} (s : State S) (read : State S → Option C) (k : Kind)
      (p : Result (Unit {0}) × State S)
      → Keeps net s p.1
      → Keeps net s (then_vend read k p).1
  Keeps-then_vend s read k (ok _, s') h = h
  Keeps-then_vend s read k (err e, s') h = h

  Keeps-checked_calls :
      (s : State S) (p : Result ModuleCallCapability × State S)
      → Keeps net s p.1
      → Keeps net s (checked_calls net codec p).1
  unfolding checked_calls
  Keeps-checked_calls s (err e, s') h = h
  Keeps-checked_calls s (ok c, s') h =
      let (t, s'') = time net codec s' in
      let later = Keeps-trans net s s' s'' h (Keeps-time s') in
      Keeps-if s (c.token == "") _ _ h (Keeps-if s (unexpired t c.expires_at) _ _ later later)

  pub Keeps-use_provider : (k : Kind) (s : State S) → Keeps net s (use_provider net codec k s)
  unfolding use_provider database cache storage module_calls
  Keeps-use_provider Kind.database s = Keeps-then_vend s _ Kind.database _ (Keeps-refresh _ s)
  Keeps-use_provider Kind.cache s = Keeps-then_vend s _ Kind.cache _ (Keeps-refresh _ s)
  Keeps-use_provider Kind.storage s = Keeps-then_vend s _ Kind.storage _ (Keeps-refresh _ s)
  Keeps-use_provider Kind.module_calls s =
      let read : State S → Option ModuleCallCapability = λ s'. s'.manager.resources.module_calls in
      let refreshed_calls = refresh net codec Kind.module_calls s in
      Keeps-checked_calls s (then_vend read Kind.module_calls refreshed_calls)
        (Keeps-then_vend s read Kind.module_calls refreshed_calls (Keeps-refresh _ s))
  Keeps-use_provider Kind.other s = Keeps-refl net s

  Keeps-beaten :
      (h : Heartbeat) (o : Option Error) (s : State S) → Keeps net s (beaten net codec h (o, s)).1
  unfolding beaten
  Keeps-beaten h none s = Keeps-refl net s
  Keeps-beaten h (some e) s = Keeps-refl net s

  Keeps-rotated_beat :
      (r : Result Heartbeat) (s : State S) → Keeps net s (rotated_beat net codec r s).1
  unfolding rotated_beat
  Keeps-rotated_beat (err e) s = Keeps-refl net s
  Keeps-rotated_beat (ok h) s =
      let (o, s') = rotate net codec h.capability s in
      Keeps-trans net s s' _ (Keeps-rotate h.capability s) (Keeps-beaten h o s')

  pub Keeps-heartbeat : (s : State S) → Keeps net s (heartbeat net codec s).1
  unfolding heartbeat
  Keeps-heartbeat s =
      let (r, w) =
        send_heartbeat net codec s.manager.job s.manager.attempt s.manager.capability.token
          s.world in
      Keeps-trans net s (record s { world = w }) _ (Keeps-send_heartbeat s)
        (Keeps-rotated_beat r (record s { world = w }))
