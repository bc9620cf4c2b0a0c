-- ===== src/Migration/Window.antt =====
-- `Slice` and `SliceDown`: consecutive windows add up, and a downgrade is an upgrade backwards.
use app_module_sdk.Base.{
  ◌≡◌, refl, inl, inr, false, List, [], ◌∷◌, ◌++◌, arith, Bool-cases, Option-cases,
}
use app_module_sdk.Base.Int.{ℤ, negsuc, ◌≤ℤ◌, ◌<ℤ◌, le_int, eq_int}
use app_module_sdk.Base.Atoi.{atoi, atoi_value, atoi_value-eq}
use app_module_sdk.Migration.{Migration, select, in_upgrade}

-- The versions do not fall, and none is below `lo`.
abbrev pub IsAscending : ℤ → List Migration → Type 0
IsAscending lo [] = Unit
IsAscending lo (m ∷ ms) = (lo ≤ℤ atoi_value m.version) × IsAscending (atoi_value m.version) ms

-- The test fails on a version above the window.
not_below :
    (a b : ℤ) (m : Migration)
    → b <ℤ atoi_value m.version
    → eq_int b (negsuc 0) ≡ false
    → in_upgrade a b m ≡ false
unfolding in_upgrade
not_below a b m h k = elim (Option-cases (atoi m.version)) [
  | inl e ↦ rw (e, in_upgrade)
  | inr (n, e) ↦ rw (e, in_upgrade) (ground (arith, atoi_value-eq m.version n e))
]

-- Up to the middle of two windows only the first and their union can hold a version.
not_above :
    (a b c : ℤ) (m : Migration)
    → atoi_value m.version ≤ℤ b
    → b ≤ℤ c
    → (in_upgrade b c m ≡ false) × (in_upgrade a b m ≡ in_upgrade a c m)
unfolding in_upgrade
not_above a b c m h k = elim (Option-cases (atoi m.version)) [
  | inl e ↦ rw (e, in_upgrade) (refl, refl)
  | inr (n, e) ↦
      rw (e, in_upgrade)
        (ground (arith, atoi_value-eq m.version n e), ground (arith, atoi_value-eq m.version n e))
]

-- Above the middle the lower bounds agree.
above_middle :
    (a b c : ℤ) (m : Migration)
    → a ≤ℤ b
    → b <ℤ atoi_value m.version
    → in_upgrade b c m ≡ in_upgrade a c m
unfolding in_upgrade
above_middle a b c m h k = elim (Option-cases (atoi m.version)) [
  | inl e ↦ rw (e, in_upgrade)
  | inr (n, e) ↦ rw (e, in_upgrade) (ground (arith, atoi_value-eq m.version n e))
]

-- A list whose versions all lie above a window has nothing in it.
above_window :
    (a b lo : ℤ) (ms : List Migration)
    → b <ℤ lo
    → eq_int b (negsuc 0) ≡ false
    → IsAscending lo ms
    → select (in_upgrade a b) ms ≡ []
unfolding select
above_window a b lo [] h k asc = refl
above_window a b lo (m ∷ ms) h k (p, asc) =
    let rest = above_window a b (atoi_value m.version) ms (omega arith) k asc in
    rw (not_below a b m (omega arith) k) rest

pub upgrade_windows :
    (a b c lo : ℤ) (ms : List Migration)
    → a ≤ℤ b
    → b ≤ℤ c
    → eq_int b (negsuc 0) ≡ false
    → IsAscending lo ms
    → select (in_upgrade a b) ms ++ select (in_upgrade b c) ms ≡ select (in_upgrade a c) ms
unfolding select
upgrade_windows a b c lo [] h k nb asc = refl
upgrade_windows a b c lo (m ∷ ms) h k nb (p, asc) =
    let rest = upgrade_windows a b c (atoi_value m.version) ms h k nb asc in
    elim (Bool-cases (le_int (atoi_value m.version) b)) [
      | inl low ↦
          let (out, same) = not_above a b c m (ground arith) k in
          rw (out, same) (ground (arith, rest))
      | inr high ↦
          let after : b <ℤ atoi_value m.version = ground arith in
          rw
            (
              not_below a b m after nb,
              above_window a b (atoi_value m.version) ms after nb asc,
              above_middle a b c m h after,
            )
            (ground (arith, rest, above_window a b (atoi_value m.version) ms after nb asc))
    ]
