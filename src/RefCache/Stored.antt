-- ===== src/RefCache/Stored.antt =====
-- What a successful `insert` does to the values and references, key by key.
use app_module_sdk.Base.{
  ℕ, String, ◌≡◌, refl, sym, ap, subst, ◌∙◌, ◌≢◌, ◌⊎◌, inl, inr, none, some, List, ◌∷◌, arith,
  eq_iff,
}
use app_module_sdk.Base.Dict.{lookup, remove, lookup-put, lookup-remove}
use app_module_sdk.RefCache.{Entry, Cache, ok, store, insert}
use app_module_sdk.RefCache.Views.{value_of, refs_of}
use app_module_sdk.RefCache.Bounds.{insert-Placed}

module _ {A : Type 0} where
  -- The cache after the value was stored: what `put` and a possible eviction did.
  pub record Stored (key : String) (v : A) (c c' : Cache A) : Type 0 where
    pub fresh_value : value_of key c' ≡ some v
    pub fresh_refs : refs_of key c' ≡ 1
    pub others :
        (j : String)
        → key ≢ j
        → ((value_of j c' ≡ value_of j c) × (refs_of j c' ≡ refs_of j c))
          ⊎ ((value_of j c' ≡ none) × (refs_of j c' ≡ 0) × (refs_of j c ≡ 0))
    pub closes :
        (c'.closed ≡ c.closed)
        ⊎ ((k : String) × (w : A) × (value_of k c ≡ some w)
            × (value_of k c' ≡ none)
            × (c'.closed ≡ w ∷ c.closed))

  store-Stored : (key : String) (v : A) (now : ℕ) (c : Cache A) → Stored key v c (store key v now c)
  unfolding store
  store-Stored key v now c =
      let e : Entry A = record { value = v; last_used = now; ref_count = 1 } in
      record {
        fresh_value = ground (arith, lookup-put key key e c.items, eq_iff key key);
        fresh_refs = ground (arith, lookup-put key key e c.items, eq_iff key key);
        others = λ j ne. inl (ground (arith, lookup-put key j e c.items, eq_iff key j));
        closes = inl refl;
      }

  replace-Stored :
      (key : String) (v : A) (now : ℕ) (c : Cache A) (k : String) (e : Entry A)
      → value_of key c ≡ none
      → lookup k c.items ≡ some e
      → e.ref_count ≡ 0
      → Stored key v c
          (store key v now (record c { items = remove k c.items; closed = e.value ∷ c.closed }))
  unfolding store
  replace-Stored key v now c k e absent found free =
      let f : Entry A = record { value = v; last_used = now; ref_count = 1 } in
      let rest = remove k c.items in
      record {
        fresh_value = ground (arith, lookup-put key key f rest, eq_iff key key);
        fresh_refs = ground (arith, lookup-put key key f rest, eq_iff key key);
        others = λ j ne.
            ground
              (arith, lookup-put key j f rest, lookup-remove k j c.items, eq_iff key j, eq_iff k j);
        closes = inr (
          k,
          e.value,
          ground arith,
          ground
              (arith, lookup-put key k f rest, lookup-remove k k c.items, eq_iff key k, eq_iff k k),
          refl,
        );
      }

  -- Every insertion that succeeds is of this kind.
  pub insert-Stored :
      (key : String) (v : A) (now : ℕ) (order : List String) (c c' : Cache A)
      → value_of key c ≡ none
      → insert key v now order c ≡ (ok v, c')
      → Stored key v c c'
  insert-Stored key v now order c c' absent eq = elim (insert-Placed key v now order c) [
    | inl (_, e) ↦ cc
    | inr (inl (_, e)) ↦
        subst (Stored key v c) (ap (λ r. r.1) (sym e ∙ eq)) (store-Stored key v now c)
    | inr (inr (k, e, found, free, p)) ↦
        subst (Stored key v c) (ap (λ r. r.1) (sym p ∙ eq))
          (replace-Stored key v now c k e absent found free)
  ]
