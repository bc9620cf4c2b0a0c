-- ===== src/Lifecycle/Calls.antt =====
-- What an upgrade that answers 200 ran.
use app_module_sdk.Base.{
  ℕ, String, ◌≡◌, refl, sym, ap, ◌∙◌, subst, ◌≢◌, ◌⊎◌, inl, inr, Bool, Option, none, some, List, [],
  arith, eq-false_of_ne, Option-cases,
}
use app_module_sdk.Base.Int.{ℤ, pos}
use app_module_sdk.Base.Atoi.{atoi, parse_int}
use app_module_sdk.Migration.{Migration, Error, Result, ok, err, version_int, slice, apply}
use app_module_sdk.Migration.Window.{IsAscending}
use app_module_sdk.Migration.Slices.{ok-injective}
use app_module_sdk.Migration.Files.{
  Scope, Listing, no_fs, not_exist, failed, entries, VersionSort, list,
}
use app_module_sdk.Migration.Files.Laws.{list_lem}
use app_module_sdk.Lifecycle.Gate.{Step-cases}
use app_module_sdk.Lifecycle.{
  InstallRequest, UpgradeRequest, decoded, Credential, Context, Response, go, stop,
  inject_lifecycle, decode_upgrade, Env, run_provision, applied_response, run_upgrade, upgrade,
}

-- Every list that `List` returns is in the order of its numbers.
pub list-IsAscending :
    (sort : VersionSort) (scope : Scope) (listing : Listing) (ms : List Migration)
    → list sort scope listing ≡ ok ms
    → IsAscending (pos 0) ms
list-IsAscending sort scope (entries es) ms h =
    let (ms', e, asc, _) = list_lem sort scope es in
    subst (IsAscending (pos 0)) (ok-injective (sym e ∙ h)) asc
list-IsAscending sort scope no_fs ms h =
    unfold list in subst (IsAscending (pos 0)) (ok-injective h) tt
list-IsAscending sort scope not_exist ms h =
    unfold list in subst (IsAscending (pos 0)) (ok-injective h) tt
list-IsAscending sort scope failed ms h = unfold list in cc

empty_not_number : (n : ℤ) → atoi "" ≢ some n
unfolding atoi parse_int
empty_not_number n h = cc

pub version_int_of : (v : String) (n : ℤ) → atoi v ≡ some n → (v ≢ "") × (version_int v ≡ ok n)
unfolding version_int
version_int_of v n h =
    let ne : v ≢ "" = (λ e. empty_not_number n (rw e at h)) in
    (ne, rw (eq-false_of_ne v "" ne, h, version_int))

pub go-injective : {A : Type 0} {a b : A} → go a ≡ go b → a ≡ b
go-injective h = cc

Result-cases : {A : Type 0} (r : Result A) → ((a : A) × (r ≡ ok a)) ⊎ ((e : Error) × (r ≡ err e))
Result-cases (ok a) = inl (a, refl)
Result-cases (err e) = inr (e, refl)

-- A numeric request is decoded.
pub decode_upgrade-numeric :
    (req : UpgradeRequest) (a b : ℤ)
    → atoi req.from ≡ some a
    → atoi req.to ≡ some b
    → decode_upgrade (decoded req) ≡ go req
unfolding decode_upgrade
decode_upgrade-numeric req a b p q =
    let (ne, _) = version_int_of req.from a p in
    let (ne', _) = version_int_of req.to b q in
    rw (eq-false_of_ne req.from "" ne, eq-false_of_ne req.to "" ne', p, q)

-- A refusal of the context is no 200.
inject_lifecycle-stop :
    (deployed : Bool) (base : Option Credential) (ctx : Context) (req : InstallRequest)
    (r : Response)
    → inject_lifecycle deployed base ctx req ≡ stop r
    → r.status ≢ 200
unfolding inject_lifecycle
inject_lifecycle-stop deployed base ctx req r h e = ground arith

module _ {S : Type 0} (env : Env S) (scope : Scope) where
  -- An upgrade that answers 200 ran the migrations of its window.
  run_upgrade-200 :
      (ctx : Context) (run : String → S → S × Bool) (req : UpgradeRequest) (s : S)
      → env.provision ≡ none
      → (run_upgrade env scope ctx run req s).0.status ≡ 200
      → (all : List Migration) × (xs : List Migration) × (list env.sort scope env.listing ≡ ok all)
        × (slice all req.from req.to ≡ ok xs)
        × ((apply env.read_file run xs s).error ≡ none)
        × (run_upgrade env scope ctx run req s ≡ (
          record {
            status = 200;
            applied = (apply env.read_file run xs s).done;
            reverted = [];
            problem = none;
          },
          (apply env.read_file run xs s).state,
        ))
  unfolding run_upgrade applied_response
  run_upgrade-200 ctx run req s bare h = elim (Result-cases (list env.sort scope env.listing)) [
    | inr (e, l) ↦ let bad : ◌≡◌ {A = ℕ} 500 200 = rw (bare, l) at h in absurd (omega arith)
    | inl (all, l) ↦ elim (Result-cases (slice all req.from req.to)) [
      | inr (e, w) ↦ let bad : ◌≡◌ {A = ℕ} 400 200 = rw (bare, l, w) at h in absurd (omega arith)
      | inl (xs, w) ↦ elim (Option-cases (apply env.read_file run xs s).error) [
        | inr (e, f) ↦
            let bad : ◌≡◌ {A = ℕ} 500 200 = rw (bare, l, w, f) at h in absurd (omega arith)
        | inl fine ↦ (
          all,
          xs,
          l,
          w,
          fine,
          rw (bare, run_provision) (rw (l, w) (rw (fine, applied_response))),
        )
      ]
    ]
  ]

  pub run_upgrade-of :
      (ctx : Context) (run : String → S → S × Bool) (req : UpgradeRequest) (s : S)
      (all xs : List Migration)
      → env.provision ≡ none
      → list env.sort scope env.listing ≡ ok all
      → slice all req.from req.to ≡ ok xs
      → run_upgrade env scope ctx run req s ≡ applied_response (apply env.read_file run xs s)
  unfolding run_upgrade
  run_upgrade-of ctx run req s all xs bare l w = rw (bare, run_provision) (rw (l, w))

  -- The first response and state of a run that answers 200.
  pub run_upgrade-eq :
      (ctx : Context) (run : String → S → S × Bool) (req : UpgradeRequest) (s s' : S) (r : Response)
      → env.provision ≡ none
      → run_upgrade env scope ctx run req s ≡ (r, s')
      → r.status ≡ 200
      → (all : List Migration) × (xs : List Migration) × (list env.sort scope env.listing ≡ ok all)
        × (slice all req.from req.to ≡ ok xs)
        × ((apply env.read_file run xs s).error ≡ none)
        × (r ≡ record {
          status = 200;
          applied = (apply env.read_file run xs s).done;
          reverted = [];
          problem = none;
        })
        × (s' ≡ (apply env.read_file run xs s).state)
  run_upgrade-eq ctx run req s s' r bare e h =
      let (all, xs, l, w, fine, e') =
        run_upgrade-200 ctx run req s bare (ap (λ p. p.0.status) e ∙ h) in
      (all, xs, l, w, fine, ap (λ p. p.0) (sym e ∙ e'), ap (λ p. p.1) (sym e ∙ e'))

  -- A handler's 200 is that of its run in the context that the request asked for.
  pub upgrade-run :
      (request : Context) (req : UpgradeRequest) (a b : ℤ) (s s' : S) (r : Response)
      → atoi req.from ≡ some a
      → atoi req.to ≡ some b
      → upgrade env scope request (decoded req) s ≡ (r, s')
      → r.status ≡ 200
      → (ctx : Context) × (inject_lifecycle env.deployed env.base request req.install ≡ go ctx)
        × (run_upgrade env scope ctx (env.run_tx ctx) req s ≡ (r, s'))
  unfolding upgrade
  upgrade-run request req a b s s' r p q h e =
      let d = decode_upgrade-numeric req a b p q in
      elim (Step-cases (inject_lifecycle env.deployed env.base request req.install)) [
        | inl (ctx, i) ↦ (ctx, i, rw (d, i) at h)
        | inr (r', i) ↦
            let same : ◌≡◌ {A = Response × S} (r', s) (r, s') = rw (d, i) at h in
            absurd (
              inject_lifecycle-stop env.deployed env.base request req.install r' i
                (ap (λ t. t.0.status) same ∙ e))
      ]

  pub upgrade-of :
      (request ctx : Context) (req : UpgradeRequest) (a b : ℤ) (s : S)
      → atoi req.from ≡ some a
      → atoi req.to ≡ some b
      → inject_lifecycle env.deployed env.base request req.install ≡ go ctx
      → upgrade env scope request (decoded req) s ≡ run_upgrade env scope ctx (env.run_tx ctx) req s
  unfolding upgrade
  upgrade-of request ctx req a b s p q i = rw (decode_upgrade-numeric req a b p q, i)
