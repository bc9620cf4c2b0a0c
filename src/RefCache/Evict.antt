-- ===== src/RefCache/Evict.antt =====
-- `evictOldestLocked`: which entry the loop picks.
use app_module_sdk.Base.{
  ℕ, ◌≤◌, ◌<◌, String, ◌≡◌, refl, ◌≢◌, ◌⊎◌, inl, inr, Bool, true, false, Option, none, some, List,
  [], ◌∷◌, arith, ◌==◌, eq_iff, ltb, ◌||◌, All, All-map, eq-false_of_ne, Bool-cases,
}
use app_module_sdk.Base.Dict.{Dict, lookup, remove}
use app_module_sdk.RefCache.{Entry, Cache, consider, oldest_from, discard, evict_oldest}

-- `c` is as good a candidate as `b`.
abbrev Beats : String × ℕ → String × ℕ → Type 0
Beats c b = (b.0 ≢ "") → (c.0 ≢ "") × (c.1 ≤ b.1)

pinned_of_ne : (n : ℕ) → ¬ (n ≡ 0) → 0 < n
pinned_of_ne n h = omega arith

module _ {A : Type 0} where
  -- The candidate is none, or an entry without references, with its time.
  abbrev pub IsCandidate : Dict (Entry A) → String × ℕ → Type 0
  IsCandidate items best =
      (best.0 ≡ "")
      ⊎ ((e : Entry A) × (lookup best.0 items ≡ some e)
          × (e.ref_count ≡ 0)
          × (e.last_used ≡ best.1))

  consider-IsCandidate :
      (items : Dict (Entry A)) (key : String) (o : Option (Entry A)) (best : String × ℕ)
      → lookup key items ≡ o
      → IsCandidate items best
      → IsCandidate items (consider key o best)
  unfolding consider
  consider-IsCandidate items key none best found h = h
  consider-IsCandidate items key (some e) best found h = elim (Bool-cases (ltb 0 e.ref_count)) [
    | inl pinned ↦ rw pinned h
    | inr free ↦ elim (Bool-cases (best.0 == "" || ltb e.last_used best.1)) [
      | inl older ↦ rw (free, older) (inr (e, found, ground arith, refl))
      | inr newer ↦ rw (free, newer) h
    ]
  ]

  pub oldest_from-IsCandidate :
      (order : List String) (items : Dict (Entry A)) (best : String × ℕ)
      → IsCandidate items best
      → IsCandidate items (oldest_from order items best)
  unfolding oldest_from
  oldest_from-IsCandidate [] items best h = h
  oldest_from-IsCandidate (key ∷ order) items best h =
      oldest_from-IsCandidate order items (consider key (lookup key items) best)
        (consider-IsCandidate items key (lookup key items) best refl h)

  present_named :
      (items : Dict (Entry A)) (key : String) {e : Entry A}
      → lookup "" items ≡ none
      → lookup key items ≡ some e
      → key ≢ ""
  present_named items key h found p = cc

  consider-Beats :
      (items : Dict (Entry A)) (key : String) (o : Option (Entry A)) (best : String × ℕ)
      → lookup key items ≡ o
      → lookup "" items ≡ none
      → Beats (consider key o best) best
  unfolding consider
  consider-Beats items key none best found h b = (b, omega arith)
  consider-Beats items key (some e) best found h b =
      ground (arith, eq_iff best.0 "", present_named items key h found)

  oldest_from-Beats :
      (order : List String) (items : Dict (Entry A)) (best : String × ℕ)
      → lookup "" items ≡ none
      → Beats (oldest_from order items best) best
  unfolding oldest_from
  oldest_from-Beats [] items best h b = (b, omega arith)
  oldest_from-Beats (key ∷ order) items best h b =
      let here = consider-Beats items key (lookup key items) best refl h b in
      let later = oldest_from-Beats order items (consider key (lookup key items) best) h here.0 in
      (later.0, omega arith)

  -- Whatever entry without references `j` names, `best` is as old.
  abbrev Covers : Dict (Entry A) → String × ℕ → String → Type 0
  Covers items best j =
      (f : Entry A)
      → lookup j items ≡ some f
      → f.ref_count ≡ 0
      → (best.0 ≢ "") × (best.1 ≤ f.last_used)

  consider-Covers :
      (items : Dict (Entry A)) (key : String) (best : String × ℕ)
      → lookup "" items ≡ none
      → Covers items (consider key (lookup key items) best) key
  unfolding consider
  consider-Covers items key best h f found free =
      rw found (ground (arith, eq_iff best.0 "", present_named items key h found))

  oldest_from-Covers :
      (order : List String) (items : Dict (Entry A)) (best : String × ℕ)
      → lookup "" items ≡ none
      → All (Covers items (oldest_from order items best)) order
  unfolding oldest_from
  oldest_from-Covers [] items best h = tt
  oldest_from-Covers (key ∷ order) items best h = (
    λ f found free.
        let here = consider-Covers items key best h f found free in
        let later = oldest_from-Beats order items (consider key (lookup key items) best) h here.0 in
        (later.0, omega arith),
    oldest_from-Covers order items (consider key (lookup key items) best) h,
  )

  -- What `evictOldestLocked` did to `c`: it discarded an entry without references that is as old
  -- as every other one that the loop met, or it met none and changed nothing.
  pub data Evicted (order : List String) (c : Cache A) : Cache A × Bool → Type 0 where
    evicted :
        (key : String) (e : Entry A)
        → lookup key c.items ≡ some e
        → e.ref_count ≡ 0
        → All
            (λ j.
              (f : Entry A)
              → lookup j c.items ≡ some f
              → f.ref_count ≡ 0
              → e.last_used ≤ f.last_used)
            order
        → Evicted order c
            (record c { items = remove key c.items; closed = e.value ∷ c.closed }, true)
    all_pinned :
        All (λ j. (f : Entry A) → lookup j c.items ≡ some f → 0 < f.ref_count) order
        → Evicted order c (c, false)

  -- Under no entry with the empty key, eviction takes the least recently used entry among those
  -- without references, and it fails only if it met no such entry.
  pub evict_oldest-Evicted :
      (order : List String) (c : Cache A)
      → lookup "" c.items ≡ none
      → Evicted order c (evict_oldest order c)
  unfolding evict_oldest
  evict_oldest-Evicted order c h =
      let best = oldest_from order c.items ("", 0) in
      let candidate : IsCandidate c.items best =
        oldest_from-IsCandidate order c.items ("", 0) (inl refl) in
      let covers = oldest_from-Covers order c.items ("", 0) h in
      elim candidate [
        | inl nothing ↦ rw nothing (
            all_pinned (
              All-map
                (λ j covered f found.
                  pinned_of_ne f.ref_count (λ free. (covered f found free).0 nothing))
                order covers))
        | inr (e, found, free, time) ↦
            rw (eq-false_of_ne best.0 "" (present_named c.items best.0 h found), found, discard)
              (evicted best.0 e found free (
                All-map (λ j covered f here unused. rw time (covered f here unused).1) order
                  covers))
      ]
