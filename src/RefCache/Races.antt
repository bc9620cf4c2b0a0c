-- ===== src/RefCache/Races.antt =====
-- Two orders of lock sections in which a caller does not get, or does not keep, its pin.
use app_module_sdk.Base.{ℕ, String, ◌≡◌, ◌≢◌, some, [], ◌∷◌, arith, eq_iff, eq_refl}
use app_module_sdk.Base.Dict.{lookup, put, remove}
use app_module_sdk.RefCache.{
  evicted_before_pin, err, new, hit, insert, evict_oldest, follow, release, close,
}

module _ {A : Type 0} (key j : String) (v w : A) (named : key ≢ "") (other : key ≢ j) where
  -- For a key that is not empty and another key `j`: the leader of `key` inserts and releases in a
  -- cache of one entry, `j` takes its place, and only then does a follower of `key` come to pin. It
  -- gets the error "evicted before follower could pin", and nobody called `Close`.
  pub follow-evicted :
      (t u x : ℕ)
      → (follow key x (insert j w u (key ∷ []) (release key (insert key v t [] (new 1)).1)).1).0
        ≡ err evicted_before_pin
  unfolding follow insert release hit lookup put remove new evict_oldest
  follow-evicted t u x =
      ground (arith, eq_iff key key, eq_iff key "", eq_iff key j, eq_iff j key, eq_refl key)

  -- A release closure taken before `Close` counts against the entry that a later caller made for
  -- the same key: that caller holds its value with no reference left.
  pub release-stale :
      (t u : ℕ)
      → lookup key (release key (insert key w u [] (close (insert key v t [] (new 1)).1)).1).items
        ≡ some (record { value = w; last_used = u; ref_count = 0 })
  unfolding insert release lookup put new close
  release-stale t u = ground (arith, eq_iff key key, eq_refl key)
