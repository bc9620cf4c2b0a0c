-- ===== src/Lifecycle/Verbs.antt =====
-- Upgrades in a row, and an upgrade taken back.
use app_module_sdk.Base.{String, ◌≡◌, sym, ap, ◌∙◌, Bool, none, some, List, [], ◌++◌, reverse, All}
use app_module_sdk.Base.Int.{ℤ, ◌≤ℤ◌, ◌<ℤ◌}
use app_module_sdk.Base.Atoi.{atoi}
use app_module_sdk.Migration.{Migration, ok, slice, slice_down, apply_down}
use app_module_sdk.Migration.Slices.{ok-injective, slices_add, slice-slice_down, slice-All}
use app_module_sdk.Migration.Runs.{
  apply_append, apply_done, versions-reverse, Undoes, apply_down-apply,
}
use app_module_sdk.Migration.Files.{Scope, list}
use app_module_sdk.Lifecycle.{
  InstallRequest, UpgradeRequest, decoded, Context, Response, Env, applied_response,
  reverted_response, run_upgrade, run_downgrade, upgrade, downgrade,
}
use app_module_sdk.Lifecycle.Calls.{
  list-IsAscending, version_int_of, go-injective, decode_upgrade-numeric, run_upgrade-of,
  run_upgrade-eq, upgrade-run, upgrade-of,
}

module _ {S : Type 0} (env : Env S) (scope : Scope) where
  run_upgrade_twice :
      (ctx : Context) (run : String → S → S × Bool) (inst : InstallRequest) (from mid to : String)
      (a b c : ℤ) (s s1 s2 : S) (r1 r2 : Response)
      → env.provision ≡ none
      → atoi from ≡ some a
      → atoi mid ≡ some b
      → atoi to ≡ some c
      → a ≤ℤ b
      → b ≤ℤ c
      → run_upgrade env scope ctx run (record { from = from; to = mid; install = inst }) s
        ≡ (r1, s1)
      → r1.status ≡ 200
      → run_upgrade env scope ctx run (record { from = mid; to = to; install = inst }) s1 ≡ (r2, s2)
      → r2.status ≡ 200
      → run_upgrade env scope ctx run (record { from = from; to = to; install = inst }) s
        ≡ (record r2 { applied = r1.applied ++ r2.applied }, s2)
  unfolding applied_response
  run_upgrade_twice ctx run inst from mid to a b c s s1 s2 r1 r2 bare pa pb pc ab bc u1 h1 u2 h2 =
      let (all, xs, l, w, fine, e1, t1) = run_upgrade-eq env scope ctx run _ s s1 r1 bare u1 h1 in
      let (all', ys, l', w', fine', e2, t2) =
        run_upgrade-eq env scope ctx run _ s1 s2 r2 bare u2 h2 in
      let same : all' ≡ all = ok-injective (sym l' ∙ l) in
      let w'' : slice all mid to ≡ ok ys = rw same at w' in
      let (_, va) = version_int_of from a pa in
      let (ne, vb) = version_int_of mid b pb in
      let (_, vc) = version_int_of to c pc in
      let asc = list-IsAscending env.sort scope env.listing all l in
      let both = slices_add all from mid to a b c xs ys asc va vb vc ab bc ne w w'' in
      run_upgrade-of env scope ctx run _ s all (xs ++ ys) bare l both
      ∙ rw (apply_append env.read_file run xs ys s fine, e1, e2, t2, t1)
          (rw (rw t1 at fine', applied_response))

  -- With nothing to provision, and between numbers that do not fall: an upgrade that answers 200
  -- followed by one from there on that answers 200 leaves the database as one upgrade over the
  -- whole range, which answers 200 and reports the versions of both, in that order.
  pub upgrade_twice :
      (request : Context) (inst : InstallRequest) (from mid to : String) (a b c : ℤ) (s s1 s2 : S)
      (r1 r2 : Response)
      → env.provision ≡ none
      → atoi from ≡ some a
      → atoi mid ≡ some b
      → atoi to ≡ some c
      → a ≤ℤ b
      → b ≤ℤ c
      → upgrade env scope request (decoded (record { from = from; to = mid; install = inst })) s
        ≡ (r1, s1)
      → r1.status ≡ 200
      → upgrade env scope request (decoded (record { from = mid; to = to; install = inst })) s1
        ≡ (r2, s2)
      → r2.status ≡ 200
      → upgrade env scope request (decoded (record { from = from; to = to; install = inst })) s
        ≡ (record r2 { applied = r1.applied ++ r2.applied }, s2)
  upgrade_twice request inst from mid to a b c s s1 s2 r1 r2 bare pa pb pc ab bc u1 h1 u2 h2 =
      let (ctx, i, w1) = upgrade-run env scope request _ a b s s1 r1 pa pb u1 h1 in
      let (ctx', i', w2) = upgrade-run env scope request _ b c s1 s2 r2 pb pc u2 h2 in
      let same : ctx' ≡ ctx = go-injective (sym i' ∙ i) in
      upgrade-of env scope request ctx _ a c s pa pc i
      ∙ run_upgrade_twice ctx (env.run_tx ctx) inst from mid to a b c s s1 s2 r1 r2 bare pa pb pc ab
          bc w1 h1 (rw same at w2) h2

  reverted_run :
      (run : String → S → S × Bool) (req : UpgradeRequest) (s : S) (all xs : List Migration)
      → list env.sort scope env.listing ≡ ok all
      → slice_down all req.from req.to ≡ ok xs
      → run_downgrade env scope run req s ≡ reverted_response (apply_down env.read_file run xs s)
  unfolding run_downgrade
  reverted_run run req s all xs l w = rw (l, w)

  -- With nothing to provision, and down files that undo their up files: where `from` is the lower
  -- number, the downgrade from `to` to `from` after an upgrade from `from` to `to` that answered
  -- 200 answers 200, restores the database and reports what the upgrade reported, last first.
  pub downgrade-upgrade :
      (request : Context) (inst : InstallRequest) (from to : String) (a b : ℤ) (s s1 : S)
      (r : Response)
      → env.provision ≡ none
      → ((ctx : Context) (all : List Migration)
          → list env.sort scope env.listing ≡ ok all
          → All (Undoes env.read_file (env.run_tx ctx)) all)
      → atoi from ≡ some a
      → atoi to ≡ some b
      → a <ℤ b
      → upgrade env scope request (decoded (record { from = from; to = to; install = inst })) s
        ≡ (r, s1)
      → r.status ≡ 200
      → downgrade env scope request (decoded (record { from = to; to = from; install = inst })) s1
        ≡ (record { status = 200; applied = []; reverted = reverse r.applied; problem = none }, s)
  unfolding downgrade reverted_response
  downgrade-upgrade request inst from to a b s s1 r bare undo pa pb lt u h =
      let (ctx, i, w) = upgrade-run env scope request _ a b s s1 r pa pb u h in
      let (all, xs, l, sl, fine, e, t) =
        run_upgrade-eq env scope ctx (env.run_tx ctx) _ s s1 r bare w h in
      let (_, va) = version_int_of from a pa in
      let (ne, vb) = version_int_of to b pb in
      let asc = list-IsAscending env.sort scope env.listing all l in
      let back = slice-slice_down all from to a b xs asc va vb ne lt sl in
      let undone =
        slice-All (Undoes env.read_file (env.run_tx ctx)) all from to xs (undo ctx all l) sl in
      rw (decode_upgrade-numeric (record { from = to; to = from; install = inst }) b a pb pa, i)
        (reverted_run (env.run_tx ctx) (record { from = to; to = from; install = inst }) s1 all
            (reverse xs) l back
          ∙ ap reverted_response (
              ap (λ q. apply_down env.read_file (env.run_tx ctx) (reverse xs) q) t
              ∙ apply_down-apply env.read_file (env.run_tx ctx) xs s undone fine)
          ∙ ap (λ v. (record { status = 200; applied = []; reverted = v; problem = none }, s))
              (versions-reverse xs
                ∙ ap reverse (sym (apply_done env.read_file (env.run_tx ctx) xs s fine))
                ∙ ap (λ q. reverse q.applied) (sym e)))
