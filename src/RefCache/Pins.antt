-- ===== src/RefCache/Pins.antt =====
-- Callers in parallel: any interleaving of the lock sections of `Get` and of the release closures.
-- `pins` lists what callers hold and have not released, `leading` the keys whose singleflight
-- closure runs (golang.org/x/sync runs one closure for a key at a time). Each release closure is
-- called at most once, a factory returns a new resource, and nobody calls `Close`.
use app_module_sdk.Base.{
  ℕ, suc, ◌-◌, ◌<◌, String, ◌≡◌, ◌≢◌, ◌⊎◌, inl, inr, none, some, List, [], ◌∷◌, arith, ◌==◌, eq_iff,
  Bool-cases, All, if◌then◌else◌,
}
use app_module_sdk.Base.Dict.{Dict, lookup, put, remove}
use app_module_sdk.RefCache.{Cache, Error, ok, err, new, hit, insert, release}
use app_module_sdk.RefCache.Views.{value_of, refs_of}

pub record System (A : Type 0) : Type 0 where
  pub cache : Cache A
  pub pins : List (String × A)
  pub leading : Dict (Unit {0})

or_map : {A B C : Type 0} → (B → C) → A ⊎ B → A ⊎ C
or_map f (inl a) = inl a
or_map f (inr b) = inr (f b)

module _ {A : Type 0} where
  unfoldable pub start : ℕ → System A
  start max_size = record { cache = new max_size; pins = []; leading = [] }

  -- How many pins a key has.
  unfoldable pub pinned : String → List (String × A) → ℕ
  pinned key [] = 0
  pinned key ((k, v) ∷ ps) = if k == key then suc (pinned key ps) else pinned key ps

  -- One pin of the key is given back.
  pub unpin : String → List (String × A) → List (String × A)
  unpin key [] = []
  unpin key ((k, v) ∷ ps) = if k == key then ps else (k, v) ∷ unpin key ps

  -- A caller holds `v` for `key`.
  abbrev pub Holds : String → A → List (String × A) → Type 0
  Holds key v [] = ⊥
  Holds key v ((k, w) ∷ ps) = ((k ≡ key) × (w ≡ v)) ⊎ Holds key v ps

  -- The value is in no entry and was never closed.
  abbrev pub IsFresh : A → Cache A → Type 0
  IsFresh v c = ((k : String) → value_of k c ≢ some v) × All (λ w. w ≢ v) c.closed

  pub data Step (s : System A) : System A → Type 0 where
    hits :
        (key : String) (now : ℕ) (v : A) (c : Cache A)
        → hit key now s.cache ≡ some (v, c)
        → Step s (record s { cache = c; pins = (key, v) ∷ s.pins })
    leads :
        (key : String)
        → lookup key s.cache.items ≡ none
        → lookup key s.leading ≡ none
        → Step s (record s { leading = put key tt s.leading })
    fails : (key : String) → Step s (record s { leading = remove key s.leading })
    inserts :
        (key : String) (v : A) (now : ℕ) (order : List String) (c : Cache A)
        → lookup key s.leading ≡ some tt
        → IsFresh v s.cache
        → insert key v now order s.cache ≡ (ok v, c)
        → Step s (record s { cache = c; pins = (key, v) ∷ s.pins; leading = remove key s.leading })
    refuses :
        (key : String) (v : A) (now : ℕ) (order : List String) (e : Error) (c : Cache A)
        → lookup key s.leading ≡ some tt
        → IsFresh v s.cache
        → insert key v now order s.cache ≡ (err e, c)
        → Step s (record s { cache = c; leading = remove key s.leading })
    releases :
        (key : String)
        → 0 < pinned key s.pins
        → Step s (record s { cache = release key s.cache; pins = unpin key s.pins })

  pub data Reach (s : System A) : System A → Type 0 where
    here : Reach s s
    next : {t u : System A} → Reach s t → Step t u → Reach s u

  pub record Inv (s : System A) : Type 0 where
    pub counted : (k : String) → pinned k s.pins ≡ refs_of k s.cache
    pub held : (k : String) (v : A) → Holds k v s.pins → value_of k s.cache ≡ some v
    pub apart :
        (k j : String) (v : A) → value_of k s.cache ≡ some v → value_of j s.cache ≡ some v → k ≡ j
    pub alive : (k : String) (v : A) → value_of k s.cache ≡ some v → All (λ w. w ≢ v) s.cache.closed
    pub led : (k : String) → lookup k s.leading ≡ some tt → value_of k s.cache ≡ none

  pub pinned-unpin :
      (key j : String) (ps : List (String × A))
      → pinned j (unpin key ps) ≡ (if key == j then pinned j ps - 1 else pinned j ps)
  unfolding pinned unpin
  pinned-unpin key j [] = ground arith
  pinned-unpin key j ((k, v) ∷ ps) =
      ground (arith, pinned-unpin key j ps, eq_iff k key, eq_iff k j, eq_iff key j)

  pub Holds-unpin :
      (key j : String) (v : A) (ps : List (String × A)) → Holds j v (unpin key ps) → Holds j v ps
  unfolding unpin
  Holds-unpin key j v [] h = h
  Holds-unpin key j v ((k, w) ∷ ps) h = elim (Bool-cases (k == key)) [
    | inl same ↦ inr (rw same at h)
    | inr other ↦ or_map (Holds-unpin key j v ps) (rw other at h)
  ]

  pub pinned_of_Holds :
      (j : String) (v : A) (ps : List (String × A)) → Holds j v ps → 0 < pinned j ps
  unfolding pinned
  pinned_of_Holds j v [] h = absurd h
  pinned_of_Holds j v ((k, w) ∷ ps) (inl (e, _)) = ground (arith, eq_iff k j)
  pinned_of_Holds j v ((k, w) ∷ ps) (inr h) = ground (arith, pinned_of_Holds j v ps h)
