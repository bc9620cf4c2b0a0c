-- ===== src/Registry/Calls/Valid.antt =====
-- Every call that returns keeps the registry valid.
use app_module_sdk.Base.{
  String, ◌≡◌, refl, subst, inl, inr, Bool, true, false, some, List, [], ◌∷◌, arith, is_some, All,
  Bool-cases, Option-cases,
}
use app_module_sdk.Base.Dict.{lookup, put-IsDistinct}
use app_module_sdk.Registry.Names.{validate_name, validate_dep_id, is_table_name}
use app_module_sdk.Registry.Named.{IsUnique, first_wins, first_wins-IsUnique, first_wins-All}
use app_module_sdk.Registry.Dependencies.Keys.{add_dependency-IsUnique, add_dependency-All}
use app_module_sdk.Registry.{
  Registry, new, is_scope, has_route, or_nil, checked, add_route, add_emit, add_subscribe,
  add_schedule, add_task, add_permission_with_meta, add_metric, add_mcp_tool, add_mcp_resource,
  declare_dependency, contribute, add_exposed_table, require_storage, set_absorb_infra,
  set_description, set_readme,
}
use app_module_sdk.Registry.Calls.{
  Call, routes, emits, subscribes, schedules, tasks, permits, meters, tools, resources, depends,
  contributes, exposes, requires_storage, absorbs_infra, describes, documents, changed, step,
  declare_all, IsNamed, IsValid,
}
use app_module_sdk.Registry.Calls.Routes.{All-put, IsUniqueRoutes-snoc, known_routes}

checked-eq-some :
    {A : Type 0} (b : Bool) (a : A) {a' : A} → checked b a ≡ some a' → (b ≡ true) × (a ≡ a')
checked-eq-some true a h = (refl, ground arith)
checked-eq-some false a h = cc

changed-eq-some :
    {A : Type 0} (b : Bool) (a : A) (t : Bool) {a' : A}
    → changed (checked b (a, t)) ≡ some a'
    → (b ≡ true) × (a ≡ a')
changed-eq-some true a t h = (refl, ground arith)
changed-eq-some false a t h = cc

some-injective : {A : Type 0} {a b : A} → some a ≡ some b → a ≡ b
some-injective h = cc

-- A list of named declarations, each name once, takes one more.
pub first_wins-IsNamedOnce :
    {A : Type 0} (name : A → String) (a : A) (xs : List A)
    → validate_name (name a) ≡ true
    → IsUnique name xs × All (IsNamed name) xs
    → IsUnique name (first_wins name a xs).0 × All (IsNamed name) (first_wins name a xs).0
first_wins-IsNamedOnce name a xs ok (u, v) =
    (first_wins-IsUnique name a xs u, first_wins-All name (IsNamed name) a xs ok v)

module _ {F H : Type 0} where
  add_route-IsValid :
      (scope method path : String) (r r' : Registry F H)
      → add_route scope method path r ≡ some r'
      → IsValid r
      → IsValid r'
  unfolding add_route
  add_route-IsValid scope method path r r' e h =
      let (ro, em, su, sc, ta, pe, me, to, re, de, ex) = h in
      let known = or_nil (lookup scope r.routes) in
      let (valid, same) = checked-eq-some (is_scope scope) _ e in
      elim (Bool-cases (has_route method path known)) [
        | inl old ↦ subst IsValid (rw old at same) h
        | inr absent ↦
            let new_routes = IsUniqueRoutes-snoc known _ (known_routes scope r.routes ro) absent in
            subst IsValid (rw absent at same) (
              All-put _ scope _ r.routes (valid, new_routes) ro,
              em,
              su,
              sc,
              ta,
              pe,
              me,
              to,
              re,
              de,
              ex,
            )
      ]

  add_subscribe-IsValid :
      (name path : String) (r r' : Registry F H)
      → changed (add_subscribe name path r) ≡ some r'
      → IsValid r
      → IsValid r'
  unfolding add_subscribe
  add_subscribe-IsValid name path r r' e h =
      let (ro, em, su, sc, ta, pe, me, to, re, de, ex) = h in
      elim (Bool-cases (is_some (lookup name r.subscribes))) [
        | inl old ↦
            let (_, same) = changed-eq-some (validate_name name) r false (rw old at e) in
            subst IsValid same h
        | inr absent ↦
            let (valid, same) = changed-eq-some (validate_name name) _ true (rw absent at e) in
            subst IsValid same (
              ro,
              em,
              (
                put-IsDistinct name path r.subscribes su.0,
                All-put (IsNamed (λ p. p.0)) name path r.subscribes valid su.1,
              ),
              sc,
              ta,
              pe,
              me,
              to,
              re,
              de,
              ex,
            )
      ]

  -- A call that returns keeps the names valid and unique.
  step-IsValid :
      (call : Call F H) (r r' : Registry F H) → step call r ≡ some r' → IsValid r → IsValid r'
  unfolding step add_emit add_schedule add_task add_permission_with_meta add_metric add_mcp_tool
      add_mcp_resource declare_dependency contribute add_exposed_table require_storage
      set_absorb_infra set_description set_readme
  step-IsValid (routes scope method path) r r' e h = add_route-IsValid scope method path r r' e h
  step-IsValid (emits name) r r' e (ro, em, su, sc, ta, pe, me, to, re, de, ex) =
      let (valid, same) = changed-eq-some (validate_name name) _ _ e in
      subst IsValid same (
        ro,
        first_wins-IsNamedOnce (λ s. s) name r.emits valid em,
        su,
        sc,
        ta,
        pe,
        me,
        to,
        re,
        de,
        ex,
      )
  step-IsValid (subscribes name path) r r' e h = add_subscribe-IsValid name path r r' e h
  step-IsValid (schedules s) r r' e (ro, em, su, sc, ta, pe, me, to, re, de, ex) =
      let (valid, same) = changed-eq-some (validate_name s.name) _ _ e in
      subst IsValid same
        (ro, em, su, first_wins-IsNamedOnce _ s r.schedules valid sc, ta, pe, me, to, re, de, ex)
  step-IsValid (tasks t) r r' e (ro, em, su, sc, ta, pe, me, to, re, de, ex) =
      let (valid, same) = changed-eq-some (validate_name t.name) _ _ e in
      subst IsValid same
        (ro, em, su, sc, first_wins-IsNamedOnce _ t r.tasks valid ta, pe, me, to, re, de, ex)
  step-IsValid (permits p) r r' e (ro, em, su, sc, ta, pe, me, to, re, de, ex) =
      let (valid, same) = checked-eq-some (validate_name p.name) _ e in
      subst IsValid same
        (ro, em, su, sc, ta, first_wins-IsNamedOnce _ p r.permissions valid pe, me, to, re, de, ex)
  step-IsValid (meters d) r r' e (ro, em, su, sc, ta, pe, me, to, re, de, ex) =
      subst IsValid (some-injective e)
        (ro, em, su, sc, ta, pe, first_wins-IsUnique (λ k. k.name) d r.metrics me, to, re, de, ex)
  step-IsValid (tools t) r r' e (ro, em, su, sc, ta, pe, me, to, re, de, ex) =
      let (valid, same) = changed-eq-some (validate_name t.name) _ _ e in
      subst IsValid same
        (ro, em, su, sc, ta, pe, me, first_wins-IsNamedOnce _ t r.mcp_tools valid to, re, de, ex)
  step-IsValid (resources t) r r' e (ro, em, su, sc, ta, pe, me, to, re, de, ex) =
      let (valid, same) = changed-eq-some (validate_name t.name) _ _ e in
      subst IsValid same (
        ro,
        em,
        su,
        sc,
        ta,
        pe,
        me,
        to,
        first_wins-IsNamedOnce _ t r.mcp_resources valid re,
        de,
        ex,
      )
  step-IsValid (depends dep) r r' e (ro, em, su, sc, ta, pe, me, to, re, de, ex) =
      let (valid, same) = changed-eq-some (validate_dep_id dep.id) _ _ e in
      subst IsValid same (
        ro,
        em,
        su,
        sc,
        ta,
        pe,
        me,
        to,
        re,
        (
          add_dependency-IsUnique dep r.dependencies de.0,
          add_dependency-All validate_dep_id dep r.dependencies valid de.1,
        ),
        ex,
      )
  step-IsValid (contributes c) r r' e (ro, em, su, sc, ta, pe, me, to, re, de, ex) =
      subst IsValid (some-injective e) (ro, em, su, sc, ta, pe, me, to, re, de, ex)
  step-IsValid (exposes name) r r' e (ro, em, su, sc, ta, pe, me, to, re, de, ex) =
      let (valid, same) = checked-eq-some (is_table_name name) _ e in
      subst IsValid same (
        ro,
        em,
        su,
        sc,
        ta,
        pe,
        me,
        to,
        re,
        de,
        (
          first_wins-IsUnique (λ s. s) name r.exposed_tables ex.0,
          first_wins-All (λ s. s) (λ s. is_table_name s ≡ true) name r.exposed_tables valid ex.1,
        ),
      )
  step-IsValid requires_storage r r' e (ro, em, su, sc, ta, pe, me, to, re, de, ex) =
      subst IsValid (some-injective e) (ro, em, su, sc, ta, pe, me, to, re, de, ex)
  step-IsValid absorbs_infra r r' e (ro, em, su, sc, ta, pe, me, to, re, de, ex) =
      subst IsValid (some-injective e) (ro, em, su, sc, ta, pe, me, to, re, de, ex)
  step-IsValid (describes s) r r' e (ro, em, su, sc, ta, pe, me, to, re, de, ex) =
      subst IsValid (some-injective e) (ro, em, su, sc, ta, pe, me, to, re, de, ex)
  step-IsValid (documents m) r r' e (ro, em, su, sc, ta, pe, me, to, re, de, ex) =
      subst IsValid (some-injective e) (ro, em, su, sc, ta, pe, me, to, re, de, ex)

  declare_all-IsValid :
      (calls : List (Call F H)) (r r' : Registry F H)
      → declare_all calls r ≡ some r'
      → IsValid r
      → IsValid r'
  unfolding declare_all
  declare_all-IsValid [] r r' e h = subst IsValid (some-injective e) h
  declare_all-IsValid (call ∷ calls) r r' e h = elim (Option-cases (step call r)) [
    | inl panic ↦ absurd (cc (rw (panic, declare_all) at e))
    | inr (r1, s) ↦
        declare_all-IsValid calls r1 r' (rw (s, declare_all) at e) (step-IsValid call r r1 s h)
  ]

  -- After any calls that return: no name stands twice among the declarations of its kind, every
  -- name but a metric's is one that its kind allows, and routes lie in a known scope.
  pub declare_all-new-IsValid :
      (calls : List (Call F H)) (r : Registry F H) → declare_all calls new ≡ some r → IsValid r
  unfolding new
  declare_all-new-IsValid calls r e = declare_all-IsValid calls new r e (
    tt,
    (tt, tt),
    (tt, tt),
    (tt, tt),
    (tt, tt),
    (tt, tt),
    tt,
    (tt, tt),
    (tt, tt),
    (tt, tt),
    (tt, tt),
  )
