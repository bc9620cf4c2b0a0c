-- ===== src/Lifecycle/Gate.antt =====
-- What a lifecycle call must bring before any SQL runs.
use app_module_sdk.Base.{
  String, ◌≡◌, refl, ap, ◌≢◌, ◌⊎◌, inl, inr, Bool, true, Option, none, some, ◌∙◌, arith, eq_iff,
}
use app_module_sdk.Migration.Files.{Scope}
use app_module_sdk.Lifecycle.{
  InstallRequest, UpgradeRequest, Body, decoded, no_body, too_large, malformed, Credential, Context,
  Response, Step, go, stop, inject_lifecycle, inject_install, decode_upgrade, Env, install, upgrade,
  downgrade, uninstall, run_install, run_upgrade, run_downgrade, empty_request,
}

-- Off the development path a context without a schema is refused.
inject_lifecycle-schema :
    (base : Option Credential) (ctx : Context) (req : InstallRequest) (after : Context)
    → inject_lifecycle true base ctx req ≡ go after
    → after.schema ≢ ""
unfolding inject_lifecycle
inject_lifecycle-schema base ctx req after h e = ground (arith, eq_iff req.schema "")

pub Step-cases :
    {A : Type 0} (st : Step A) → ((a : A) × (st ≡ go a)) ⊎ ((r : Response) × (st ≡ stop r))
Step-cases (go a) = inl (a, refl)
Step-cases (stop r) = inr (r, refl)

inject_install-schema :
    (base : Option Credential) (ctx : Context) (body : Body InstallRequest) (after : Context)
    → inject_install true base ctx body ≡ go after
    → after.schema ≢ ""
unfolding inject_install
inject_install-schema base ctx (decoded req) after h = inject_lifecycle-schema base ctx req after h
inject_install-schema base ctx no_body after h =
    inject_lifecycle-schema base ctx empty_request after h
inject_install-schema base ctx too_large after h = cc
inject_install-schema base ctx malformed after h = cc

-- Two setups of a scope: neither has one, or both agree in every context with a schema.
pub data Alike {S : Type 0}
    : Option (Context → S → S × Bool) → Option (Context → S → S × Bool) → Type 0 where
  neither : Alike none none
  agreeing :
      (p q : Context → S → S × Bool)
      → ((ctx : Context) → ctx.schema ≢ "" → p ctx ≡ q ctx)
      → Alike (some p) (some q)

-- The environment with a runner of transactions and a setup.
abbrev pub running :
    {S : Type 0}
    → Env S
    → (Context → String → S → S × Bool)
    → Option (Context → S → S × Bool)
    → Env S
running env h p = record env { run_tx = h; provision = p }

module _ {S : Type 0} (env : Env S) (f g : Context → String → S → S × Bool) where
  run_install-Alike :
      {p q : Option (Context → S → S × Bool)} (scope : Scope) (ctx : Context)
      (run : String → S → S × Bool) (s : S)
      → ctx.schema ≢ ""
      → Alike p q
      → run_install (running env f p) scope ctx run s
        ≡ run_install (running env g q) scope ctx run s
  unfolding run_install
  run_install-Alike scope ctx run s named neither = refl
  run_install-Alike scope ctx run s named (agreeing p q agree) =
      ap (λ setup. run_install (running env f (some (λ _. setup))) scope ctx run s)
        (agree ctx named)

  run_upgrade-Alike :
      {p q : Option (Context → S → S × Bool)} (scope : Scope) (ctx : Context)
      (run : String → S → S × Bool) (req : UpgradeRequest) (s : S)
      → ctx.schema ≢ ""
      → Alike p q
      → run_upgrade (running env f p) scope ctx run req s
        ≡ run_upgrade (running env g q) scope ctx run req s
  unfolding run_upgrade
  run_upgrade-Alike scope ctx run req s named neither = refl
  run_upgrade-Alike scope ctx run req s named (agreeing p q agree) =
      ap (λ setup. run_upgrade (running env f (some (λ _. setup))) scope ctx run req s)
        (agree ctx named)

module _ {S : Type 0} (env : Env S) (deployed : env.deployed ≡ true)
    (f g : Context → String → S → S × Bool)
    (agree : (ctx : Context) → ctx.schema ≢ "" → f ctx ≡ g ctx)
    (p q : Option (Context → S → S × Bool)) (alike : Alike p q) where
  deployed_install :
      (scope : Scope) (ctx : Context) (s : S) (body : Body InstallRequest)
      → install (running env f p) scope ctx body s ≡ install (running env g q) scope ctx body s
  unfolding install
  deployed_install scope ctx s body =
      rw deployed (elim (Step-cases (inject_install true env.base ctx body)) [
        | inr (r, e) ↦ rw e
        | inl (after, e) ↦
            let named = inject_install-schema env.base ctx body after e in
            rw e (
              ap (λ run. run_install (running env f p) scope after run s) (agree after named)
              ∙ run_install-Alike env f g scope after (g after) s named alike)
      ])

  deployed_upgrade :
      (scope : Scope) (ctx : Context) (s : S) (body : Body UpgradeRequest)
      → (upgrade (running env f p) scope ctx body s ≡ upgrade (running env g q) scope ctx body s)
        × (downgrade (running env f p) scope ctx body s
            ≡ downgrade (running env g q) scope ctx body s)
  unfolding upgrade downgrade
  deployed_upgrade scope ctx s body = elim (Step-cases (decode_upgrade body)) [
    | inr (r, e) ↦ rw e (refl, refl)
    | inl (req, d) ↦
        rw (d, deployed)
          (elim (Step-cases (inject_lifecycle true env.base ctx req.install)) [
            | inr (r, e) ↦ rw e (refl, refl)
            | inl (after, e) ↦
                let named = inject_lifecycle-schema env.base ctx req.install after e in
                let same = agree after named in
                rw e (
                  ap (λ run. run_upgrade (running env f p) scope after run req s) same
                      ∙ run_upgrade-Alike env f g scope after (g after) req s named alike,
                  ap (λ run. run_downgrade (running env f p) scope run req s) same,
                )
          ])
  ]

  -- In a deployment no lifecycle call runs SQL in a context without a schema, neither a migration's
  -- nor that of the setup before the migrations: responses and states do not depend on what the
  -- transaction runner and the provisioner do there. An uninstall calls neither of them.
  pub deployed_scoped :
      (scope : Scope) (ctx : Context) (s : S)
      → ((body : Body InstallRequest)
          → install (running env f p) scope ctx body s ≡ install (running env g q) scope ctx body s)
        × ((body : Body UpgradeRequest)
            → (upgrade (running env f p) scope ctx body s
                ≡ upgrade (running env g q) scope ctx body s)
              × (downgrade (running env f p) scope ctx body s
                  ≡ downgrade (running env g q) scope ctx body s))
        × (uninstall (running env f p) s ≡ uninstall (running env g q) s)
  unfolding uninstall
  deployed_scoped scope ctx s = (deployed_install scope ctx s, deployed_upgrade scope ctx s, refl)
