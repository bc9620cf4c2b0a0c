-- ===== src/RefCache/Bounds.antt =====
-- The size of the cache and the distinctness of its keys, through every lock section.
use app_module_sdk.Base.{
  ℕ, suc, ◌≤◌, ◌<◌, String, ◌≡◌, ◌⊎◌, inl, inr, Option, some, List, [], ◌∷◌, arith, Bool-cases,
  Option-cases, length, leb, ltb, ◌-◌,
}
use app_module_sdk.Base.Dict.{
  Dict, lookup, put, remove, IsDistinct, put-IsDistinct, remove-IsDistinct, length-put_new,
  length-put_old, length-remove,
}
use app_module_sdk.RefCache.{
  Entry, Cache, Result, ok, err, limit_reached, new, hit, store, insert, lead, get, follow, release,
  close, touch,
}
use app_module_sdk.RefCache.Views.{evict_oldest-Took, hit-eq-some}

module _ {A : Type 0} where
  -- The map has distinct keys and no more entries than `maxSize`.
  pub record IsValid (c : Cache A) : Type 0 where
    pub distinct : IsDistinct c.items
    pub bounded : length c.items ≤ c.max_size

  -- What `insert` came to: the value is refused and closed, it is stored in a cache with room, or
  -- it takes the place of an entry without references.
  abbrev pub Placed : String → A → ℕ → Cache A → Result A × Cache A → Type 0
  Placed key v now c r =
      ((c.max_size ≤ length c.items)
        × (r ≡ (err limit_reached, record c { closed = v ∷ c.closed })))
      ⊎ ((length c.items < c.max_size) × (r ≡ (ok v, store key v now c)))
      ⊎ ((k : String) × (e : Entry A) × (lookup k c.items ≡ some e)
          × (e.ref_count ≡ 0)
          × (r ≡ (
            ok v,
            store key v now (record c { items = remove k c.items; closed = e.value ∷ c.closed }),
          )))

  pub insert-Placed :
      (key : String) (v : A) (now : ℕ) (order : List String) (c : Cache A)
      → Placed key v now c (insert key v now order c)
  unfolding insert
  insert-Placed key v now order c = elim (Bool-cases (leb c.max_size (length c.items))) [
    | inr room ↦ inr (inl (ground arith, rw room))
    | inl full ↦ elim (evict_oldest-Took order c) [
      | inl stuck ↦ inl (ground arith, rw (full, stuck))
      | inr (k, e, found, free, took) ↦ inr (inr (k, e, found, free, rw (full, took)))
    ]
  ]

  length-put-le :
      (k : String) (e : Entry A) (m : Dict (Entry A)) → length (put k e m) ≤ suc (length m)
  length-put-le k e m = elim (Option-cases (lookup k m)) [
    | inl new ↦ omega (arith, length-put_new k e m new)
    | inr (f, old) ↦ omega (arith, length-put_old k e f m old)
  ]

  store-IsValid :
      (key : String) (v : A) (now : ℕ) (c : Cache A)
      → IsDistinct c.items
      → length c.items < c.max_size
      → IsValid (store key v now c)
  unfolding store
  store-IsValid key v now c d h =
      let e : Entry A = record { value = v; last_used = now; ref_count = 1 } in
      record {
        distinct = put-IsDistinct key e c.items d;
        bounded = omega (arith, length-put-le key e c.items);
      }

  pub insert-IsValid :
      (key : String) (v : A) (now : ℕ) (order : List String) (c : Cache A)
      → IsValid c
      → IsValid (insert key v now order c).1
  insert-IsValid key v now order c h = elim (insert-Placed key v now order c) [
    | inl (_, e) ↦ rw e (record { distinct = h.distinct; bounded = h.bounded })
    | inr (inl (room, e)) ↦ rw e (store-IsValid key v now c h.distinct room)
    | inr (inr (k, e, found, _, eq)) ↦ rw eq (
        store-IsValid key v now _ (remove-IsDistinct k c.items h.distinct)
          (omega (arith, length-remove k e c.items h.distinct found, h.bounded)))
  ]

  update-IsValid :
      (key : String) (e f : Entry A) (c : Cache A)
      → lookup key c.items ≡ some e
      → IsValid c
      → IsValid (record c { items = put key f c.items })
  update-IsValid key e f c found h = record {
    distinct = put-IsDistinct key f c.items h.distinct;
    bounded = omega (arith, length-put_old key f e c.items found, h.bounded);
  }

  pub hit-IsValid :
      (key : String) (now : ℕ) (c c' : Cache A) (v : A)
      → hit key now c ≡ some (v, c')
      → IsValid c
      → IsValid c'
  hit-IsValid key now c c' v eq h =
      let (e, found, _, after) = hit-eq-some key now c c' v eq in
      rw after (update-IsValid key e (touch e now) c found h)

  pub release-IsValid : (key : String) (c : Cache A) → IsValid c → IsValid (release key c)
  unfolding release
  release-IsValid key c h = elim (Option-cases (lookup key c.items)) [
    | inl gone ↦ rw (gone, release) h
    | inr (e, found) ↦ elim (Bool-cases (ltb 0 e.ref_count)) [
      | inl held ↦
          rw (found, release)
            (rw held (update-IsValid key e (record e { ref_count = e.ref_count - 1 }) c found h))
      | inr free ↦ rw (found, release) (rw free h)
    ]
  ]

-- A call of the cache's interface, as one caller makes it.
pub data Call (A : Type 0) : Type 0 where
  gets : String → Option A → ℕ → List String → Call A
  follows : String → ℕ → Call A
  releases : String → Call A
  closes : Call A

module _ {A : Type 0} where
  pub step : Cache A → Call A → Cache A
  step c (gets key made now order) = (get key made now order c).1
  step c (follows key now) = (follow key now c).1
  step c (releases key) = release key c
  step c closes = close c

  pub run : Cache A → List (Call A) → Cache A
  run c [] = c
  run c (call ∷ calls) = run (step c call) calls

  lead-IsValid :
      (key : String) (made : Option A) (now : ℕ) (order : List String) (c : Cache A)
      → IsValid c
      → IsValid (lead key made now order c).1
  unfolding lead
  lead-IsValid key made now order c h = elim (Option-cases (hit key now c)) [
    | inr ((v, c'), e) ↦ rw (e, lead) (hit-IsValid key now c c' v e h)
    | inl e ↦ elim (Option-cases made) [
      | inl failed ↦ rw (e, lead) (rw failed h)
      | inr (v, done) ↦ rw (e, lead) (rw done (insert-IsValid key v now order c h))
    ]
  ]

  get-IsValid :
      (key : String) (made : Option A) (now : ℕ) (order : List String) (c : Cache A)
      → IsValid c
      → IsValid (get key made now order c).1
  unfolding get
  get-IsValid key made now order c h = elim (Option-cases (hit key now c)) [
    | inr ((v, c'), e) ↦ rw (e, get) (hit-IsValid key now c c' v e h)
    | inl e ↦ rw (e, get) (lead-IsValid key made now order c h)
  ]

  follow-IsValid : (key : String) (now : ℕ) (c : Cache A) → IsValid c → IsValid (follow key now c).1
  unfolding follow
  follow-IsValid key now c h = elim (Option-cases (hit key now c)) [
    | inr ((v, c'), e) ↦ rw (e, follow) (hit-IsValid key now c c' v e h)
    | inl e ↦ rw (e, follow) h
  ]

  step-IsValid : (c : Cache A) (call : Call A) → IsValid c → IsValid (step c call)
  unfolding step
  step-IsValid c (gets key made now order) h = get-IsValid key made now order c h
  step-IsValid c (follows key now) h = follow-IsValid key now c h
  step-IsValid c (releases key) h = release-IsValid key c h
  step-IsValid c closes h = unfold close in record { distinct = tt; bounded = omega arith }

  run-IsValid : (c : Cache A) (calls : List (Call A)) → IsValid c → IsValid (run c calls)
  unfolding run
  run-IsValid c [] h = h
  run-IsValid c (call ∷ calls) h = run-IsValid (step c call) calls (step-IsValid c call h)

  -- After any calls on a new cache, whatever the factories returned and in whatever order the maps
  -- were ranged over, the keys are distinct and there are at most `maxSize` entries.
  pub run-new-IsValid : (max_size : ℕ) (calls : List (Call A)) → IsValid (run (new max_size) calls)
  run-new-IsValid max_size calls =
      run-IsValid (new max_size) calls
        (unfold new in record { distinct = tt; bounded = omega arith })
