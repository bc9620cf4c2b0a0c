-- ===== src/RefCache/Tests.antt =====
-- Runs of the cache, and instances of what is proved of it.
use app_module_sdk.Base.{
  ◌<◌, String, ◌≡◌, refl, inl, ◌≢◌, none, some, List, [], ◌∷◌, All, ne_of_test,
}
use app_module_sdk.Base.Dict.{lookup, put, remove}
use app_module_sdk.RefCache.{
  Cache, ok, err, evicted_before_pin, factory_failed, new, hit, insert, get, follow, release, close,
  evict_oldest,
}
use app_module_sdk.RefCache.Views.{value_of, refs_of}
use app_module_sdk.RefCache.Evict.{Evicted, evict_oldest-Evicted}
use app_module_sdk.RefCache.Bounds.{
  IsValid, Call, gets, follows, releases, closes, run, run-new-IsValid,
}
use app_module_sdk.RefCache.Pins.{System, start, pinned, leads, inserts, Reach, here, next}
use app_module_sdk.RefCache.Safety.{pinned_safe}
use app_module_sdk.RefCache.Races.{follow-evicted, release-stale}

-- "a" was used at 3 and released, "b" at 5 and released, "c" is held since 1.
abbrev three : Cache String
three = record {
  items =
      ("a", record { value = "va"; last_used = 3; ref_count = 0 })
      ∷ ("b", record { value = "vb"; last_used = 5; ref_count = 0 })
      ∷ ("c", record { value = "vc"; last_used = 1; ref_count = 1 })
      ∷ [];
  max_size = 3;
  closed = [];
}

evict_oldest_test : (evict_oldest ("c" ∷ "b" ∷ "a" ∷ []) three).0.closed ≡ "va" ∷ []
unfolding evict_oldest lookup remove
evict_oldest_test = refl

get_test : (get "d" (some "vd") 9 ("b" ∷ "a" ∷ "c" ∷ []) three).0 ≡ ok "vd"
unfolding get hit insert lookup put remove evict_oldest
get_test = refl

failed_test : (get "d" none 9 [] three).0 ≡ err factory_failed
unfolding get hit lookup
failed_test = refl

evict_oldest-Evicted_example :
    Evicted ("c" ∷ "b" ∷ "a" ∷ []) three (evict_oldest ("c" ∷ "b" ∷ "a" ∷ []) three)
unfolding lookup
evict_oldest-Evicted_example = evict_oldest-Evicted ("c" ∷ "b" ∷ "a" ∷ []) three refl

-- Two keys in a cache of one entry, and a release between them.
abbrev two_gets : List (Call String)
two_gets =
    gets "a" (some "va") 1 []
    ∷ releases "a"
    ∷ gets "b" (some "vb") 2 ("a" ∷ [])
    ∷ follows "b" 3
    ∷ closes
    ∷ []

run-new-IsValid_example : IsValid (run (new 1) two_gets)
run-new-IsValid_example = run-new-IsValid 1 two_gets

abbrev leading_a : System String
leading_a = record {
  cache = record { items = []; max_size = 1; closed = [] };
  pins = [];
  leading = ("a", tt) ∷ [];
}

abbrev holding_a : System String
holding_a = record {
  cache = record {
    items = ("a", record { value = "va"; last_used = 5; ref_count = 1 }) ∷ [];
    max_size = 1;
    closed = [];
  };
  pins = ("a", "va") ∷ [];
  leading = [];
}

reached : Reach (start 1) holding_a
unfolding start new lookup put remove insert
reached =
    next {t = leading_a} (next {t = start 1} here (leads "a" refl refl))
      (inserts "a" "va" 5 [] holding_a.cache refl ((λ k e. cc e), tt) refl)

pinned_safe_example :
    (value_of "a" holding_a.cache ≡ some "va")
    × (refs_of "a" holding_a.cache ≡ pinned "a" holding_a.pins)
    × (0 < refs_of "a" holding_a.cache)
    × All (λ w. w ≢ "va") holding_a.cache.closed
pinned_safe_example = pinned_safe 1 holding_a reached "a" "va" (inl (refl, refl))

follow-evicted_example :
    (follow {A = String} "a" 4
      (insert "b" "vb" 2 ("a" ∷ []) (release "a" (insert "a" "va" 1 [] (new 1)).1)).1).0
    ≡ err evicted_before_pin
follow-evicted_example =
    follow-evicted "a" "b" "va" "vb" (ne_of_test "a" "" refl) (ne_of_test "a" "b" refl) 1 2 4

release-stale_example :
    lookup "a"
      (release {A = String} "a"
        (insert "a" "vb" 2 [] (close (insert "a" "va" 1 [] (new 1)).1)).1).items
    ≡ some (record { value = "vb"; last_used = 2; ref_count = 0 })
release-stale_example =
    release-stale "a" "b" "va" "vb" (ne_of_test "a" "" refl) (ne_of_test "a" "b" refl) 1 2
