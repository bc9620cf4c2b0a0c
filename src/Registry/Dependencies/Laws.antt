-- ===== src/Registry/Dependencies/Laws.antt =====
-- What a module's dependencies are after any declarations.
use app_module_sdk.Base.{
  String, ◌≡◌, refl, ◌∙◌, ◌⊎◌, inl, inr, Bool, true, false, ◌&&◌, ◌||◌, not, Option, none, some,
  List, [], ◌∷◌, ◌==◌, arith, eq_iff, eq_of_test, Bool-cases, if◌then◌else◌,
}
use app_module_sdk.Registry.Decls.{Dependency}
use app_module_sdk.Registry.Merge.{contains, contains-merge_strings}
use app_module_sdk.Registry.Named.{find_named}
use app_module_sdk.Registry.Dependencies.{redeclare, add_dependency}

abbrev pub find : String → List Dependency → Option Dependency
find = find_named (λ d. d.id)

-- One declaration after the other.
pub declare : List Dependency → List Dependency → List Dependency
declare [] ds = ds
declare (dep ∷ deps) ds = declare deps (add_dependency dep ds).0

abbrev redeclared : Dependency → Option Dependency → Option Dependency
redeclared dep none = some dep
redeclared dep (some d) = some (redeclare dep d).0

pub redeclare-id : (dep d : Dependency) → (redeclare dep d).0.id ≡ d.id
unfolding redeclare
redeclare-id dep d = ground arith

find-add_dependency :
    (dep : Dependency) (ds : List Dependency) (id : String)
    → find id (add_dependency dep ds).0
      ≡ (if dep.id == id then redeclared dep (find id ds) else find id ds)
unfolding add_dependency find_named
find-add_dependency dep [] id = ground arith
find-add_dependency dep (d ∷ ds) id = ground (
  arith,
  find-add_dependency dep ds id,
  redeclare-id dep d,
  eq_iff d.id dep.id,
  eq_iff dep.id id,
  eq_iff d.id id,
)

-- What a list of declarations says of a module: whether one is required, the version of the first
-- required one or else of the first, and whether one names the table or the event.
pub is_declared : String → List Dependency → Bool
is_declared id [] = false
is_declared id (d ∷ ds) = d.id == id || is_declared id ds

pub is_required : String → List Dependency → Bool
is_required id [] = false
is_required id (d ∷ ds) = (d.id == id && not d.optional) || is_required id ds

pub first_version : String → List Dependency → String
first_version id [] = ""
first_version id (d ∷ ds) = if d.id == id then d.version else first_version id ds

pub required_version : String → List Dependency → String
required_version id [] = ""
required_version id (d ∷ ds) =
    if d.id == id && not d.optional then d.version else required_version id ds

pub names : (Dependency → List String) → String → String → List Dependency → Bool
names field id s [] = false
names field id s (d ∷ ds) = (d.id == id && contains s (field d)) || names field id s ds

-- The entry of a module says what its declarations say.
pub record Sums (id : String) (e : Dependency) (deps : List Dependency) : Type 0 where
  pub optional : e.optional ≡ not (is_required id deps)
  pub version :
      e.version ≡ (if is_required id deps then required_version id deps else first_version id deps)
  pub tables : (s : String) → contains s e.tables ≡ names (λ d. d.tables) id s deps
  pub events : (s : String) → contains s e.events ≡ names (λ d. d.events) id s deps

-- What further declarations make of an entry.
record Grown (id : String) (d : Dependency) (deps : List Dependency) (e : Dependency) : Type 0 where
  optional : e.optional ≡ (d.optional && not (is_required id deps))
  version :
      e.version
      ≡ (if d.optional && is_required id deps then required_version id deps else d.version)
  tables :
      (s : String) → contains s e.tables ≡ (contains s d.tables || names (λ k. k.tables) id s deps)
  events :
      (s : String) → contains s e.events ≡ (contains s d.events || names (λ k. k.events) id s deps)

redeclare-Grown :
    (id : String) (dep d : Dependency) (deps : List Dependency) (e : Dependency)
    → dep.id ≡ id
    → Grown id (redeclare dep d).0 deps e
    → Grown id d (dep ∷ deps) e
unfolding redeclare is_required required_version names
redeclare-Grown id dep d deps e same g = record {
  optional = ground (arith, g.optional, eq_iff dep.id id);
  version = ground (arith, g.version, eq_iff dep.id id);
  tables = λ s.
      ground (arith, g.tables s, eq_iff dep.id id, contains-merge_strings d.tables dep.tables s);
  events = λ s.
      ground (arith, g.events s, eq_iff dep.id id, contains-merge_strings d.events dep.events s);
}

other-Grown :
    (id : String) (dep d : Dependency) (deps : List Dependency) (e : Dependency)
    → (dep.id == id) ≡ false
    → Grown id d deps e
    → Grown id d (dep ∷ deps) e
unfolding is_required required_version names
other-Grown id dep d deps e other g = record {
  optional = ground (arith, g.optional);
  version = ground (arith, g.version);
  tables = λ s. ground (arith, g.tables s);
  events = λ s. ground (arith, g.events s);
}

find-declare :
    (deps ds : List Dependency) (id : String) (d : Dependency)
    → find id ds ≡ some d
    → (e : Dependency) × (find id (declare deps ds) ≡ some e) × Grown id d deps e
unfolding declare
find-declare [] ds id d h = (
  d,
  h,
  unfold is_required required_version names in
      record {
        optional = ground arith;
        version = ground arith;
        tables = λ s. ground arith;
        events = λ s. ground arith;
      },
)
find-declare (dep ∷ deps) ds id d h =
    let at = find-add_dependency dep ds id in
    elim (Bool-cases (dep.id == id)) [
      | inl same ↦
          let (e, found, g) =
            find-declare deps (add_dependency dep ds).0 id (redeclare dep d).0
              (at ∙ rw (same, h)) in
          (e, found, redeclare-Grown id dep d deps e (eq_of_test dep.id id same) g)
      | inr other ↦
          let (e, found, g) =
            find-declare deps (add_dependency dep ds).0 id d (at ∙ rw (other, h)) in
          (e, found, other-Grown id dep d deps e other g)
    ]

Grown-Sums :
    (id : String) (dep : Dependency) (deps : List Dependency) (e : Dependency)
    → dep.id ≡ id
    → Grown id dep deps e
    → Sums id e (dep ∷ deps)
unfolding is_required required_version first_version names
Grown-Sums id dep deps e same g = record {
  optional = ground (arith, g.optional, eq_iff dep.id id);
  version = ground (arith, g.version, eq_iff dep.id id);
  tables = λ s. ground (arith, g.tables s, eq_iff dep.id id);
  events = λ s. ground (arith, g.events s, eq_iff dep.id id);
}

skip-Sums :
    (id : String) (dep : Dependency) (deps : List Dependency) (e : Dependency)
    → (dep.id == id) ≡ false
    → Sums id e deps
    → Sums id e (dep ∷ deps)
unfolding is_required required_version first_version names
skip-Sums id dep deps e other g = record {
  optional = ground (arith, g.optional);
  version = ground (arith, g.version);
  tables = λ s. ground (arith, g.tables s);
  events = λ s. ground (arith, g.events s);
}

declare-new :
    (deps ds : List Dependency) (id : String)
    → find id ds ≡ none
    → ((is_declared id deps ≡ false) × (find id (declare deps ds) ≡ none))
      ⊎ ((is_declared id deps ≡ true)
          × ((e : Dependency) × (find id (declare deps ds) ≡ some e) × Sums id e deps))
unfolding declare is_declared
declare-new [] ds id h = inl (refl, h)
declare-new (dep ∷ deps) ds id h =
    let at = find-add_dependency dep ds id in
    elim (Bool-cases (dep.id == id)) [
      | inl same ↦
          let (e, found, g) =
            find-declare deps (add_dependency dep ds).0 id dep (at ∙ rw (same, h)) in
          inr (rw same, (e, found, Grown-Sums id dep deps e (eq_of_test dep.id id same) g))
      | inr other ↦
          rw other (elim (declare-new deps (add_dependency dep ds).0 id (at ∙ rw (other, h))) [
            | inl (undeclared, gone) ↦ inl (undeclared, gone)
            | inr (declared, (e, found, g)) ↦
                inr (declared, (e, found, skip-Sums id dep deps e other g))
          ])
    ]

-- After any declarations on an empty registry a module has an entry exactly if one of them names
-- it. The entry is required exactly if one of them was, has the version of the first required one
-- or else of the first, and holds the tables and the events that any of them names.
pub declare_lem :
    (deps : List Dependency) (id : String)
    → ((is_declared id deps ≡ false) × (find id (declare deps []) ≡ none))
      ⊎ ((is_declared id deps ≡ true)
          × ((e : Dependency) × (find id (declare deps []) ≡ some e) × Sums id e deps))
unfolding find_named
declare_lem deps id = declare-new deps [] id refl
