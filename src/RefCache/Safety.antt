-- ===== src/RefCache/Safety.antt =====
-- A pinned value is never closed, in any interleaving.
use app_module_sdk.Base.{ℕ, ◌<◌, String, ◌≡◌, refl, sym, ◌≢◌, some, arith, eq_iff, All}
use app_module_sdk.Base.Dict.{lookup, lookup-put}
use app_module_sdk.RefCache.{new}
use app_module_sdk.RefCache.Views.{value_of, refs_of}
use app_module_sdk.RefCache.Pins.{
  System, start, pinned, Holds, Step, hits, leads, fails, inserts, refuses, releases, Reach, here,
  next, Inv, pinned_of_Holds,
}
use app_module_sdk.RefCache.Sections.{led_before, hits-Inv, inserts-Inv, refuses-Inv, releases-Inv}

module _ {A : Type 0} where
  -- Every step of every caller keeps the invariant.
  pub step-Inv : {s t : System A} → Step s t → Inv s → Inv t
  step-Inv {s} (hits key now v c h) i = hits-Inv s key now v c h i
  step-Inv {s} (leads key absent free) i = record {
    counted = i.counted;
    held = i.held;
    apart = i.apart;
    alive = i.alive;
    led = λ k p. ground (arith, lookup-put key k tt s.leading, i.led k, eq_iff key k, absent);
  }
  step-Inv {s} (fails key) i = record {
    counted = i.counted;
    held = i.held;
    apart = i.apart;
    alive = i.alive;
    led = λ k p. i.led k (led_before s.leading key k p).1;
  }
  step-Inv {s} (inserts key v now order c lead fresh eq) i =
      inserts-Inv s key v now order c lead fresh eq i
  step-Inv {s} (refuses key v now order e c lead fresh eq) i =
      refuses-Inv s key v now order e c fresh eq i
  step-Inv {s} (releases key _) i = releases-Inv s key i

  start-Inv : (max_size : ℕ) → Inv {A = A} (start max_size)
  unfolding start new pinned lookup
  start-Inv max_size = record {
    counted = λ k. refl;
    held = λ k v h. absurd h;
    apart = λ k j v p q. absurd (cc p);
    alive = λ k v p. tt;
    led = λ k p. refl;
  }

  Reach-Inv : {s t : System A} → Inv s → Reach s t → Inv t
  Reach-Inv i here = i
  Reach-Inv i (next r st) = step-Inv st (Reach-Inv i r)

  -- In whatever order the callers' lock sections come, as long as nobody calls `Close`, factories
  -- return values that are in no entry and were never closed, and pins are given back once: what a
  -- caller holds and has not released is the value behind its key, its entry has as many
  -- references as it has holders, and the value was never closed.
  pub pinned_safe :
      (max_size : ℕ) (s : System A)
      → Reach (start max_size) s
      → (key : String) (v : A) → Holds key v s.pins
      → (value_of key s.cache ≡ some v)
        × (refs_of key s.cache ≡ pinned key s.pins)
        × (0 < refs_of key s.cache)
        × All (λ w. w ≢ v) s.cache.closed
  pinned_safe max_size s r key v h =
      let i = Reach-Inv (start-Inv max_size) r in
      let at = i.held key v h in
      (
        at,
        sym (i.counted key),
        omega (arith, pinned_of_Holds key v s.pins h, i.counted key),
        i.alive key v at,
      )
