-- ===== src/Auth/Guards/Roles.antt =====
-- The test of roles.
use mathlib.Core.List.{Mem, not-mem-nil, mem-cons_self, mem-cons_of_mem, mem_of_ne_of_mem}
use app_module_sdk.Base.{
  String, ◌≡◌, refl, sym, subst, inl, inr, ◌⊎◌, ◌≢◌, true, false, Option, none, some, List, [], ◌∷◌,
  ◌==◌, Bool-cases, eq_of_test, ne_of_test,
}
use app_module_sdk.Auth.Actor.{Identity}
use app_module_sdk.Auth.{Request, Outcome, serve, reject, has_role}
use app_module_sdk.Auth.Guards.{is_allowed, allow_role, require_roles}

-- The set of roles holds the roles of the list.
is_allowed-Mem :
    (role : String) (roles : List String)
    → ((is_allowed role roles ≡ true) × Mem role roles)
      ⊎ ((is_allowed role roles ≡ false) × ¬ (Mem role roles))
unfolding is_allowed
is_allowed-Mem role [] = inr (refl, λ m. not-mem-nil m)
is_allowed-Mem role (x ∷ roles) = elim (Bool-cases (x == role)) [
  | inl e ↦
      inl (rw e refl, subst (λ y. Mem role (y ∷ roles)) (sym (eq_of_test x role e)) mem-cons_self)
  | inr e ↦ elim (is_allowed-Mem role roles) [
    | inl (h, m) ↦ inl (rw (e, h) refl, mem-cons_of_mem x m)
    | inr (h, n) ↦
        inr (rw (e, h) refl, λ m. n (mem_of_ne_of_mem (λ p. ne_of_test x role e (sym p)) m))
  ]
]

-- What `RequireRoles` makes of an identity.
abbrev RolesOf : List String → Request → Option Identity → Outcome → Type 0
RolesOf roles r o outcome =
    ((has_role o ≡ false) × (outcome ≡ reject 401 ""))
    ⊎ ((id : Identity) × (o ≡ some id)
        × (id.app_role ≢ "")
        × ((Mem id.app_role roles × (outcome ≡ serve r))
            ⊎ (¬ (Mem id.app_role roles) × (outcome ≡ reject 403 ""))))

allow_role-RolesOf :
    (roles : List String) (r : Request) (o : Option Identity)
    → RolesOf roles r o (allow_role roles r o)
allow_role-RolesOf roles r none = inl (refl, refl)
allow_role-RolesOf roles r (some id) = elim (Bool-cases (id.app_role == "")) [
  | inl empty ↦ inl (rw empty, rw empty)
  | inr named ↦ inr (
    id,
    refl,
    ne_of_test id.app_role "" named,
    elim (is_allowed-Mem id.app_role roles) [
      | inl (allowed, m) ↦ inl (m, rw (named, allowed) refl)
      | inr (denied, n) ↦ inr (n, rw (named, denied) refl)
    ],
  )
]

-- A route behind `RequireRoles` serves exactly the requests whose identity has one of the listed
-- roles, as they came; without an identity or with the empty role it answers 401, with a role that is
-- not listed 403. So with no roles listed it serves nobody.
pub require_roles_lem :
    (roles : List String) (r : Request)
    → ((has_role r.ctx.identity ≡ false) × (require_roles roles r ≡ reject 401 ""))
      ⊎ ((id : Identity) × (r.ctx.identity ≡ some id)
          × (id.app_role ≢ "")
          × ((Mem id.app_role roles × (require_roles roles r ≡ serve r))
              ⊎ (¬ (Mem id.app_role roles) × (require_roles roles r ≡ reject 403 ""))))
unfolding require_roles
require_roles_lem roles r = allow_role-RolesOf roles r r.ctx.identity
