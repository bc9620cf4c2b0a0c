-- ===== src/RefCache.antt =====
-- internal/refcache/refcache.go: the refcount-pinned LRU cache behind the database pools and the
-- cache clients. A lock section of the source is one function; `now` is the reading of the clock,
-- `order` the order in which a loop ranges over the map, and `closed` the log of `closer` calls.
pub mod Evict
pub mod Views
pub mod Bounds
pub mod Pins
pub mod Stored
pub mod Sections
pub mod Safety
pub mod Races
mod Tests
use app_module_sdk.Base.{
  ℕ, suc, ◌-◌, String, Bool, true, false, Option, none, some, List, [], ◌∷◌, ◌++◌, ◌==◌, ◌&&◌, ◌||◌,
  map, ltb, leb, length, if◌then◌else◌,
}
use app_module_sdk.Base.Dict.{Dict, lookup, put, remove}

pub record Entry (A : Type 0) : Type 0 where
  pub value : A
  pub last_used : ℕ
  pub ref_count : ℕ

pub record Cache (A : Type 0) : Type 0 where
  pub items : Dict (Entry A)
  pub max_size : ℕ
  pub closed : List A

-- The factory's error, "limit reached" and "entry evicted before follower could pin".
pub data Error : Type 0 where
  factory_failed limit_reached evicted_before_pin : Error

pub data Result (A : Type 0) : Type 0 where
  ok : A → Result A
  err : Error → Result A

module _ {A : Type 0} where
  unfoldable pub new : ℕ → Cache A
  new max_size = record { items = []; max_size = max_size; closed = [] }

  pub touch : Entry A → ℕ → Entry A
  touch e now = record e { last_used = now; ref_count = suc e.ref_count }

  -- The fast path, the recheck inside the singleflight closure, and the follower's section.
  pub hit : String → ℕ → Cache A → Option (A × Cache A)
  unfolding touch
  hit key now c = elim (lookup key c.items) [
    | none ↦ none
    | some e ↦ some (e.value, record c { items = put key (touch e now) c.items })
  ]

  -- One round of the loop of `evictOldestLocked`. The candidate "" stands for none.
  consider : String → Option (Entry A) → String × ℕ → String × ℕ
  consider key none best = best
  consider key (some e) best =
      if ltb 0 e.ref_count
      then best
      else if best.0 == "" || ltb e.last_used best.1
      then (key, e.last_used)
      else best

  pub oldest_from : List String → Dict (Entry A) → String × ℕ → String × ℕ
  oldest_from [] items best = best
  oldest_from (key ∷ order) items best =
      oldest_from order items (consider key (lookup key items) best)

  -- `closer` on the value and `delete`. The loop never hands over a key that is not there.
  discard : String → Cache A → Cache A × Bool
  discard key c = elim (lookup key c.items) [
    | none ↦ (c, false)
    | some e ↦ (record c { items = remove key c.items; closed = e.value ∷ c.closed }, true)
  ]

  pub evict_oldest : List String → Cache A → Cache A × Bool
  unfolding oldest_from consider discard
  evict_oldest order c =
      let oldest = (oldest_from order c.items ("", 0)).0 in
      if oldest == "" then (c, false) else discard oldest c

  -- `c.items[key] = &entry{value, now, refCount: 1}`
  pub store : String → A → ℕ → Cache A → Cache A
  store key value now c = record c {
    items = put key (record { value = value; last_used = now; ref_count = 1 }) c.items;
  }

  -- What follows a full cache: the new entry takes the place of the evicted one, or is closed.
  replace : String → A → ℕ → Cache A × Bool → Result A × Cache A
  unfolding store
  replace key value now (c, true) = (ok value, store key value now c)
  replace key value now (c, false) = (err limit_reached, record c { closed = value ∷ c.closed })

  -- The section of the closure after the factory has returned.
  pub insert : String → A → ℕ → List String → Cache A → Result A × Cache A
  unfolding replace
  insert key value now order c =
      if leb c.max_size (length c.items)
      then replace key value now (evict_oldest order c)
      else (ok value, store key value now c)

  -- The closure that singleflight runs, with the outcome of `factory`.
  pub lead : String → Option A → ℕ → List String → Cache A → Result A × Cache A
  lead key made now order c = elim (hit key now c) [
    | some (value, c') ↦ (ok value, c')
    | none ↦ elim made [ none ↦ (err factory_failed, c) | some v ↦ insert key v now order c ]
  ]

  -- `Get` of a caller that leads, when no other section comes between its own.
  pub get : String → Option A → ℕ → List String → Cache A → Result A × Cache A
  unfolding lead
  get key made now order c = elim (hit key now c) [
    | some (value, c') ↦ (ok value, c')
    | none ↦ lead key made now order c
  ]

  -- The last section of `Get` in a caller that shared the result of another's closure.
  pub follow : String → ℕ → Cache A → Result A × Cache A
  follow key now c = elim (hit key now c) [
    | some (value, c') ↦ (ok value, c')
    | none ↦ (err evicted_before_pin, c)
  ]

  -- The closure of `releaseFunc`.
  pub release : String → Cache A → Cache A
  release key c = elim (lookup key c.items) [
    | none ↦ c
    | some e ↦
        if ltb 0 e.ref_count
        then record c { items = put key (record e { ref_count = e.ref_count - 1 }) c.items }
        else c
  ]

  pub close : Cache A → Cache A
  close c = record c { items = []; closed = map (λ p. p.1.value) c.items ++ c.closed }
