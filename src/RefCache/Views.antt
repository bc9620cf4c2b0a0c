-- ===== src/RefCache/Views.antt =====
-- The cache seen key by key: the value behind a key and its number of references, and what each
-- lock section does to them.
use app_module_sdk.Base.{
  ℕ, suc, ◌-◌, String, ◌≡◌, refl, ◌⊎◌, inl, inr, Bool, true, false, Option, none, some, List, ◌∷◌,
  arith, ◌==◌, eq_iff, Bool-cases, Option-cases, if◌then◌else◌,
}
use app_module_sdk.Base.Dict.{lookup, put, remove, lookup-put}
use app_module_sdk.RefCache.{Entry, Cache, hit, oldest_from, discard, touch, evict_oldest, release}
use app_module_sdk.RefCache.Evict.{IsCandidate, oldest_from-IsCandidate}

abbrev pub value_in : {A : Type 0} → Option (Entry A) → Option A
value_in none = none
value_in (some e) = some e.value

abbrev pub refs_in : {A : Type 0} → Option (Entry A) → ℕ
refs_in none = 0
refs_in (some e) = e.ref_count

module _ {A : Type 0} where
  abbrev pub value_of : String → Cache A → Option A
  value_of k c = value_in (lookup k c.items)

  abbrev pub refs_of : String → Cache A → ℕ
  refs_of k c = refs_in (lookup k c.items)

  -- A hit found an entry, and moved it to `touch`.
  pub hit-eq-some :
      (key : String) (now : ℕ) (c c' : Cache A) (v : A)
      → hit key now c ≡ some (v, c')
      → (e : Entry A) × (lookup key c.items ≡ some e)
        × (v ≡ e.value)
        × (c' ≡ record c { items = put key (touch e now) c.items })
  unfolding hit
  hit-eq-some key now c c' v h = elim (Option-cases (lookup key c.items)) [
    | inl gone ↦ absurd (ground arith)
    | inr (e, found) ↦ (e, found, ground arith, ground arith)
  ]

  -- A hit adds one reference to its key and hands out the value that the key had.
  pub hit_effect :
      (key : String) (now : ℕ) (c c' : Cache A) (v : A)
      → hit key now c ≡ some (v, c')
      → (value_of key c ≡ some v)
        × (c'.closed ≡ c.closed)
        × ((j : String)
            → (value_of j c' ≡ value_of j c)
              × (refs_of j c' ≡ (if key == j then suc (refs_of j c) else refs_of j c)))
  unfolding hit
  hit_effect key now c c' v h = (
    ground arith,
    ground arith,
    λ j. ground (
      arith,
      lookup-put key j (record { value = v; last_used = now; ref_count = suc (refs_of key c) })
          c.items,
      eq_iff key j,
    ),
  )

  -- A release takes one reference from its key, if it has one, and touches nothing else.
  pub release_effect :
      (key j : String) (c : Cache A)
      → (value_of j (release key c) ≡ value_of j c)
        × (refs_of j (release key c) ≡ (if key == j then refs_of j c - 1 else refs_of j c))
        × ((release key c).closed ≡ c.closed)
  unfolding release
  release_effect key j c = elim (Option-cases (lookup key c.items)) [
    | inl gone ↦ ground (arith, eq_iff key j)
    | inr (e, found) ↦
        ground
          (arith, lookup-put key j (record e { ref_count = e.ref_count - 1 }) c.items, eq_iff key j)
  ]

  -- What an eviction did: nothing, or it discarded an entry without references.
  abbrev pub Took : Cache A → Cache A × Bool → Type 0
  Took c r =
      (r ≡ (c, false))
      ⊎ ((key : String) × (e : Entry A) × (lookup key c.items ≡ some e)
          × (e.ref_count ≡ 0)
          × (r ≡ (record c { items = remove key c.items; closed = e.value ∷ c.closed }, true)))

  pub evict_oldest-Took : (order : List String) (c : Cache A) → Took c (evict_oldest order c)
  unfolding evict_oldest
  evict_oldest-Took order c =
      let best = oldest_from order c.items ("", 0) in
      let candidate : IsCandidate c.items best =
        oldest_from-IsCandidate order c.items ("", 0) (inl refl) in
      elim (Bool-cases (best.0 == "")) [
        | inl nothing ↦ inl (rw nothing)
        | inr named ↦ elim candidate [
          | inl nothing ↦ inl (rw nothing)
          | inr (e, found, free, _) ↦ inr (best.0, e, found, free, rw (named, found, discard))
        ]
      ]
