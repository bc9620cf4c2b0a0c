-- ===== src/RefCache/Sections.antt =====
-- What each lock section does to the invariant of the interleavings.
use app_module_sdk.Base.{
  ℕ, String, ◌≡◌, refl, sym, ap, subst, ◌∙◌, ◌≢◌, inl, inr, Option, none, some, List, ◌∷◌, arith,
  ◌==◌, eq_iff, eq_of_test, ne_of_test, Bool-cases, All,
}
use app_module_sdk.Base.Dict.{Dict, lookup, remove, lookup-remove}
use app_module_sdk.RefCache.{Entry, Cache, Error, ok, err, hit, insert, release}
use app_module_sdk.RefCache.Views.{value_in, refs_in, value_of, refs_of, hit_effect, release_effect}
use app_module_sdk.RefCache.Bounds.{insert-Placed}
use app_module_sdk.RefCache.Stored.{Stored, insert-Stored}
use app_module_sdk.RefCache.Pins.{
  System, pinned, unpin, Holds, IsFresh, Inv, pinned-unpin, Holds-unpin, pinned_of_Holds,
}

-- A key that leads still leads before another was taken off.
pub led_before :
    (leading : Dict (Unit {0})) (key k : String)
    → lookup k (remove key leading) ≡ some tt
    → (key ≢ k) × (lookup k leading ≡ some tt)
led_before leading key k p = ground (arith, lookup-remove key k leading, eq_iff key k)

module _ {A : Type 0} where
  pub hits-Inv :
      (s : System A) (key : String) (now : ℕ) (v : A) (c : Cache A)
      → hit key now s.cache ≡ some (v, c)
      → Inv s
      → Inv (record s { cache = c; pins = (key, v) ∷ s.pins })
  unfolding pinned
  hits-Inv s key now v c h i =
      let (found, same, at) = hit_effect key now s.cache c v h in
      record {
        counted = λ k. ground (arith, i.counted k, at k);
        held = λ k w. elim [
          | inl (e, f) ↦ (at k).0 ∙ ap (λ x. value_of x s.cache) (sym e) ∙ found ∙ ap some f
          | inr later ↦ (at k).0 ∙ i.held k w later
        ];
        apart = λ k j w p q. i.apart k j w (ground (arith, at k)) (ground (arith, at j));
        alive = λ k w p. rw same (i.alive k w (ground (arith, at k)));
        led = λ k p. ground (arith, i.led k p, at k);
      }

  pub releases-Inv :
      (s : System A) (key : String)
      → Inv s
      → Inv (record s { cache = release key s.cache; pins = unpin key s.pins })
  releases-Inv s key i =
      let at = λ (j : String). release_effect key j s.cache in
      record {
        counted = λ k. ground (arith, i.counted k, at k, pinned-unpin key k s.pins);
        held = λ k w h. ground (arith, i.held k w (Holds-unpin key k w s.pins h), at k);
        apart = λ k j w p q. i.apart k j w (ground (arith, at k)) (ground (arith, at j));
        alive = λ k w p. rw ((at k).2) (i.alive k w (ground (arith, at k)));
        led = λ k p. ground (arith, i.led k p, at k);
      }

  refs-none : (o : Option (Entry A)) → value_in o ≡ none → refs_in o ≡ 0
  refs-none none h = refl
  refs-none (some e) h = cc

  module _ (s : System A) (key : String) (v : A) (c : Cache A) (i : Inv s)
      (fresh : IsFresh v s.cache) (st : Stored key v s.cache c)
      (absent : value_of key s.cache ≡ none) where
    -- An old value is still where it was.
    old_value : (j : String) (w : A) → key ≢ j → value_of j c ≡ some w → value_of j s.cache ≡ some w
    old_value j w ne p = ground (arith, st.others j ne)

    -- The stored value is the only one that `key` has now.
    new_value : (w : A) → value_of key c ≡ some w → w ≡ v
    new_value w p = ground (arith, st.fresh_value)

    open_then : (j : String) (w : A) → value_of j c ≡ some w → All (λ x. x ≢ w) s.cache.closed
    open_then j w p = elim (Bool-cases (key == j)) [
      | inl same ↦
          let e : w ≡ v = new_value w (rw (eq_of_test key j same) p) in
          subst (λ x. All (λ y. y ≢ x) s.cache.closed) (sym e) fresh.1
      | inr other ↦ i.alive j w (old_value j w (ne_of_test key j other) p)
    ]

    apart_from :
        (k : String) (u : A) (j : String)
        → value_of k s.cache ≡ some u
        → value_of k c ≡ none
        → value_of j c ≢ some u
    apart_from k u j was gone p = elim (Bool-cases (key == j)) [
      | inl same ↦ fresh.0 k (was ∙ ap some (new_value u (rw (eq_of_test key j same) p)))
      | inr other ↦
          let e : k ≡ j = i.apart k j u was (old_value j u (ne_of_test key j other) p) in
          cc (e, gone, p)
    ]

    stored_alive : (j : String) (w : A) → value_of j c ≡ some w → All (λ x. x ≢ w) c.closed
    stored_alive j w p = elim st.closes [
      | inl same ↦ rw same (open_then j w p)
      | inr (k, u, was, gone, e) ↦
          rw e ((λ f. apart_from k u j was gone (p ∙ ap some (sym f))), open_then j w p)
    ]

    stored_apart : (k j : String) (w : A) → value_of k c ≡ some w → value_of j c ≡ some w → k ≡ j
    stored_apart k j w p q = elim (Bool-cases (key == k)) [
      | inl at_k ↦ elim (Bool-cases (key == j)) [
        | inl there ↦ sym (eq_of_test key k at_k) ∙ eq_of_test key j there
        | inr other ↦
            let e : w ≡ v = new_value w (rw (eq_of_test key k at_k) p) in
            absurd (fresh.0 j (old_value j w (ne_of_test key j other) q ∙ ap some e))
      ]
      | inr other ↦ elim (Bool-cases (key == j)) [
        | inl there ↦
            let e : w ≡ v = new_value w (rw (eq_of_test key j there) q) in
            absurd (fresh.0 k (old_value k w (ne_of_test key k other) p ∙ ap some e))
        | inr away ↦
            i.apart k j w (old_value k w (ne_of_test key k other) p)
              (old_value j w (ne_of_test key j away) q)
      ]
    ]

    stored_counted : (k : String) → pinned k ((key, v) ∷ s.pins) ≡ refs_of k c
    unfolding pinned
    stored_counted k = elim (Bool-cases (key == k)) [
      | inl at_k ↦ ground (
        arith,
        eq_of_test key k at_k,
        i.counted key,
        refs-none (lookup key s.cache.items) absent,
        st.fresh_refs,
      )
      | inr other ↦ ground (arith, i.counted k, st.others k (ne_of_test key k other))
    ]

    stored_held : (k : String) (w : A) → Holds k w ((key, v) ∷ s.pins) → value_of k c ≡ some w
    stored_held k w (inl (e, f)) = rw (← e) (st.fresh_value ∙ ap some f)
    stored_held k w (inr later) =
        let was : value_of k s.cache ≡ some w = i.held k w later in
        let used = pinned_of_Holds k w s.pins later in
        let ne : key ≢ k = (λ e. cc (e, absent, was)) in
        ground (arith, was, used, i.counted k, st.others k ne)

  pub inserts-Inv :
      (s : System A) (key : String) (v : A) (now : ℕ) (order : List String) (c : Cache A)
      → lookup key s.leading ≡ some tt
      → IsFresh v s.cache
      → insert key v now order s.cache ≡ (ok v, c)
      → Inv s
      → Inv (record s { cache = c; pins = (key, v) ∷ s.pins; leading = remove key s.leading })
  inserts-Inv s key v now order c lead fresh eq i =
      let absent = i.led key lead in
      let st = insert-Stored key v now order s.cache c absent eq in
      record {
        counted = stored_counted s key v c i fresh st absent;
        held = stored_held s key v c i fresh st absent;
        apart = stored_apart s key v c i fresh st absent;
        alive = stored_alive s key v c i fresh st absent;
        led = λ k p.
            let (ne, was) = led_before s.leading key k p in
            ground (arith, st.others k ne, i.led k was);
      }

  pub refuses-Inv :
      (s : System A) (key : String) (v : A) (now : ℕ) (order : List String) (e : Error)
      (c : Cache A)
      → IsFresh v s.cache
      → insert key v now order s.cache ≡ (err e, c)
      → Inv s
      → Inv (record s { cache = c; leading = remove key s.leading })
  refuses-Inv s key v now order e c fresh eq i = elim (insert-Placed key v now order s.cache) [
    | inl (_, p) ↦
        let q : c ≡ record s.cache { closed = v ∷ s.cache.closed } = ap (λ r. r.1) (sym eq ∙ p) in
        rw q (record {
          counted = i.counted;
          held = i.held;
          apart = i.apart;
          alive = λ k w p. ((λ e. fresh.0 k (p ∙ ap some (sym e))), i.alive k w p);
          led = λ k p. i.led k (ground (arith, lookup-remove key k s.leading));
        })
    | inr (inl (_, p)) ↦ absurd (cc (eq, p))
    | inr (inr (k, f, found, free, p)) ↦ absurd (cc (eq, p))
  ]
