-- ===== src/Migration.antt =====
-- internal/migration/runner.go: the stateless migration executor. Versions are the texts of file
-- names and are compared as numbers.
pub mod Files
pub mod Window
pub mod Slices
pub mod Runs
mod Tests
use app_module_sdk.Base.{
  ℕ, String, Bool, true, false, ◌&&◌, ◌||◌, not, Option, none, some, List, [], ◌∷◌, reverse, ◌==◌,
  is_some, if◌then◌else◌,
}
use app_module_sdk.Base.Int.{ℤ, pos, negsuc, lt_int, le_int, eq_int}
use app_module_sdk.Base.Atoi.{atoi}

pub record Migration : Type 0 where
  pub version : String
  pub name : String
  pub up_file : String
  pub down_file : String

-- The errors of the package, with what their texts name.
pub data Error : Type 0 where
  read_directory : Error
  invalid_version : String → Error
  unknown_target : String → Error
  unknown_current : String → Error
  not_a_downgrade : (from to : String) → Error
  missing_down_file : String → Error
  read_file_failed : (version file : String) → Error
  exec_failed : (version : String) → Error

pub data Result (A : Type 0) : Type 0 where
  ok : A → Result A
  err : Error → Result A

infixl 5 ◌>>=◌
abbrev pub ◌>>=◌ : {A B : Type 0} → Result A → (A → Result B) → Result B
ok a >>= f = f a
err e >>= f = err e

-- The elements that pass a test, in order.
unfoldable pub select {ℓ} : {A : Type ℓ} → (A → Bool) → List A → List A
select p [] = []
select p (x ∷ xs) = let rest = select p xs in if p x then x ∷ rest else rest

-- `versionInt(v, -1)`
unfoldable pub version_int : String → Result ℤ
version_int v =
    if v == ""
    then ok (negsuc 0)
    else elim (atoi v) [ none ↦ err (invalid_version v) | some n ↦ ok n ]

unfoldable pub version_exists : List Migration → String → Bool
version_exists [] v = false
version_exists (m ∷ ms) v = m.version == v || version_exists ms v

-- The test of `Slice` on one migration: in (from, to], where a target of -1 bounds nothing.
unfoldable pub in_upgrade : ℤ → ℤ → Migration → Bool
in_upgrade from to m = elim (atoi m.version) [
  | none ↦ false
  | some n ↦ lt_int from n && (eq_int to (negsuc 0) || le_int n to)
]

unfoldable pub slice : List Migration → String → String → Result (List Migration)
unfolding select version_int version_exists in_upgrade
slice ms from to = do
  from_n ← version_int from
  to_n ← version_int to
  if not (to == "") && not (version_exists ms to)
      then err (unknown_target to)
      else ok (select (in_upgrade from_n to_n) ms)

-- The test of `SliceDown` on one migration: in (to, from].
unfoldable pub in_downgrade : ℤ → ℤ → Migration → Bool
in_downgrade from to m = elim (atoi m.version) [
  | none ↦ false
  | some n ↦ lt_int to n && le_int n from
]

-- The loop runs from the last migration to the first.
unfoldable pub slice_down : List Migration → String → String → Result (List Migration)
unfolding select version_int version_exists in_downgrade
slice_down ms from to = do
  from_n ← version_int from
  to_n ← version_int to
  if le_int from_n to_n
      then err (not_a_downgrade from to)
      else if not (version_exists ms from)
      then err (unknown_current from)
      else ok (select (in_downgrade from_n to_n) (reverse ms))

-- What `Apply` and `ApplyDown` return, with the state of the database after them.
pub record Outcome (S : Type 0) : Type 0 where
  pub done : List String
  pub error : Option Error
  pub state : S

unfoldable pub push_done : {S : Type 0} → String → Outcome S → Outcome S
push_done v o = record o { done = v ∷ o.done }

exec_sql : {S : Type 0} → String → S × Bool → S × Option Error
exec_sql version (s, true) = (s, none)
exec_sql version (s, false) = (s, some (exec_failed version))

-- The check that every migration has a down file, before any SQL runs.
unfoldable pub first_missing : List Migration → Option String
first_missing [] = none
first_missing (m ∷ ms) = if m.down_file == "" then some m.version else first_missing ms

-- The module's files and the transaction runner, which execute SQL text on a database of type `S`.
-- `run_tx` returns the state after the transaction and whether it succeeded.
module _ {S : Type 0} (read_file : String → Option String) (run_tx : String → S → S × Bool) where
  -- `runOneUp` and `runOneDown`: the file is read before the transaction begins.
  unfoldable pub run_file : String → String → S → S × Option Error
  unfolding exec_sql
  run_file version file s = elim (read_file file) [
    | none ↦ (s, some (read_file_failed version file))
    | some sql ↦ exec_sql version (run_tx sql s)
  ]

  -- The loop of `Apply` and of `ApplyDown`, over the file that each migration runs.
  unfoldable pub run_all : (Migration → String) → List Migration → S → Outcome S
  unfolding push_done
  run_all file [] s = record { done = []; error = none; state = s }
  run_all file (m ∷ ms) s =
      let (s', failed) = run_file m.version (file m) s in
      let rest = push_done m.version (run_all file ms s') in
      let stop : Outcome S = record { done = []; error = failed; state = s' } in
      if is_some failed then stop else rest

  unfoldable pub apply : List Migration → S → Outcome S
  unfolding run_all
  apply = run_all (λ m. m.up_file)

  unfoldable pub apply_down : List Migration → S → Outcome S
  unfolding run_all first_missing
  apply_down ms s = elim (first_missing ms) [
    | some v ↦ record { done = []; error = some (missing_down_file v); state = s }
    | none ↦ run_all (λ m. m.down_file) ms s
  ]
