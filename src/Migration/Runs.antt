-- ===== src/Migration/Runs.antt =====
-- `Apply` and `ApplyDown`: what is reported is what ran.
use mathlib.Core.List.{reverse-cons}
use app_module_sdk.Base.{
  String, ◌≡◌, refl, ap, ◌∙◌, ◌⊎◌, inl, inr, ◌≢◌, Bool, Option, none, some, List, [], ◌∷◌, ◌++◌,
  reverse, map, ◌==◌, All, All-append, All-map, eq-false_of_ne, eq_of_test, ne_of_test, Bool-cases,
  Option-cases,
}
use app_module_sdk.Migration.{
  Migration, Error, Outcome, missing_down_file, run_file, push_done, run_all, apply, first_missing,
  apply_down,
}

abbrev pub versions : List Migration → List String
versions = map (λ m. m.version)

abbrev pub HasDown : Migration → Type 0
HasDown m = m.down_file ≢ ""

first_missing_lem :
    (ms : List Migration)
    → ((xs : List Migration) × (m : Migration) × (ys : List Migration) × (ms ≡ xs ++ (m ∷ ys))
        × All HasDown xs
        × (m.down_file ≡ "")
        × (first_missing ms ≡ some m.version))
      ⊎ (All HasDown ms × (first_missing ms ≡ none))
unfolding first_missing
first_missing_lem [] = inr (tt, refl)
first_missing_lem (m ∷ ms) = elim (Bool-cases (m.down_file == "")) [
  | inl gone ↦ inl ([], m, ms, refl, tt, eq_of_test m.down_file "" gone, rw gone)
  | inr kept ↦ elim (first_missing_lem ms) [
    | inl (xs, k, ys, split, before, gone, missing) ↦ inl (
      m ∷ xs,
      k,
      ys,
      ap (◌∷◌ m) split,
      (ne_of_test m.down_file "" kept, before),
      gone,
      rw kept missing,
    )
    | inr (present, fine) ↦ inr ((ne_of_test m.down_file "" kept, present), rw kept fine)
  ]
]

first_missing-none : (ms : List Migration) → All HasDown ms → first_missing ms ≡ none
unfolding first_missing
first_missing-none [] h = refl
first_missing-none (m ∷ ms) (p, h) = rw (eq-false_of_ne m.down_file "" p) (first_missing-none ms h)

versions-append : (xs ys : List Migration) → versions (xs ++ ys) ≡ versions xs ++ versions ys
versions-append [] ys = refl
versions-append (x ∷ xs) ys = ap (◌∷◌ x.version) (versions-append xs ys)

pub versions-reverse : (xs : List Migration) → versions (reverse xs) ≡ reverse (versions xs)
versions-reverse [] = refl
versions-reverse (x ∷ xs) =
    rw (reverse-cons x xs, reverse-cons x.version (versions xs))
      (versions-append (reverse xs) (x ∷ [])
        ∙ ap (λ vs. vs ++ x.version ∷ []) (versions-reverse xs))

All-reverse {ℓ} : {A : Type 0} (P : A → Type ℓ) (xs : List A) → All P xs → All P (reverse xs)
All-reverse P [] h = tt
All-reverse P (x ∷ xs) (p, h) =
    rw (reverse-cons x xs) (All-append P (reverse xs) (x ∷ []) (All-reverse P xs h) (p, tt))

module _ {S : Type 0} (read_file : String → Option String) (run_tx : String → S → S × Bool) where
  abbrev run : (Migration → String) → List Migration → S → Outcome S
  run = run_all read_file run_tx

  abbrev pub run_one : (Migration → String) → Migration → S → S × Option Error
  run_one file m s = run_file read_file run_tx m.version (file m) s

  run_all-ok :
      (file : Migration → String) (m : Migration) (ms : List Migration) (s : S)
      → (run_one file m s).1 ≡ none
      → run file (m ∷ ms) s ≡ push_done m.version (run file ms (run_one file m s).0)
  unfolding run_all
  run_all-ok file m ms s e = rw e

  run_all-failed :
      (file : Migration → String) (m : Migration) (ms : List Migration) (s : S) {e : Error}
      → (run_one file m s).1 ≡ some e
      → run file (m ∷ ms) s ≡ record { done = []; error = some e; state = (run_one file m s).0 }
  unfolding run_all
  run_all-failed file m ms s e = rw e

  -- A run reports all versions and no error, or the versions before the migration that failed; the
  -- ones before it ran as they would have alone, and the state is the one that the failure left.
  abbrev pub Report : (Migration → String) → List Migration → S → Outcome S → Type 0
  Report file ms s o =
      ((o.error ≡ none) × (o.done ≡ versions ms))
      ⊎ ((xs : List Migration) × (m : Migration) × (ys : List Migration) × (e : Error) × (ms
            ≡ xs ++ (m ∷ ys))
          × (o.done ≡ versions xs)
          × (o.error ≡ some e)
          × ((run file xs s).error ≡ none)
          × (run_one file m (run file xs s).state ≡ (o.state, some e)))

  -- A run either succeeds and reports every version in order, or fails at one migration: it then
  -- reports exactly the versions before that one, which run without an error by themselves, and its
  -- error and its state are what the failing migration left after them.
  pub run_all-Report :
      (file : Migration → String) (ms : List Migration) (s : S) → Report file ms s (run file ms s)
  unfolding run_all push_done
  run_all-Report file [] s = inl (refl, refl)
  run_all-Report file (m ∷ ms) s = elim (Option-cases (run_one file m s).1) [
    | inl fine ↦
        let s' = (run_one file m s).0 in
        rw (run_all-ok file m ms s fine) (elim (run_all-Report file ms s') [
          | inl (e, d) ↦ inl (e, ap (◌∷◌ m.version) d)
          | inr (xs, k, ys, e, split, d, failed, before, at) ↦ inr (
            m ∷ xs,
            k,
            ys,
            e,
            ap (◌∷◌ m) split,
            ap (◌∷◌ m.version) d,
            failed,
            rw fine before,
            rw fine at,
          )
        ])
    | inr (e, failed) ↦
        rw (run_all-failed file m ms s failed)
          (inr ([], m, ms, e, refl, refl, refl, refl, ap (λ f. ((run_one file m s).0, f)) failed))
  ]

  -- A run of two lists is a run of the first and, if nothing failed, of the second.
  pub run_all-append :
      (file : Migration → String) (xs ys : List Migration) (s : S)
      → (run file xs s).error ≡ none
      → run file (xs ++ ys) s ≡ record {
        done = (run file xs s).done ++ (run file ys (run file xs s).state).done;
        error = (run file ys (run file xs s).state).error;
        state = (run file ys (run file xs s).state).state;
      }
  unfolding run_all push_done
  run_all-append file [] ys s h = refl
  run_all-append file (x ∷ xs) ys s h = elim (Option-cases (run_one file x s).1) [
    | inl fine ↦
        let h' : (run file xs (run_one file x s).0).error ≡ none = rw fine at h in
        rw fine (ap (push_done x.version) (run_all-append file xs ys (run_one file x s).0 h'))
    | inr (e, failed) ↦ absurd (cc (rw failed at h))
  ]

  -- `ApplyDown` runs nothing if a down file is missing, and reports the first version without one;
  -- otherwise it runs the down files in order.
  pub apply_down_guard :
      (ms : List Migration) (s : S)
      → ((xs : List Migration) × (m : Migration) × (ys : List Migration) × (ms ≡ xs ++ (m ∷ ys))
          × All HasDown xs
          × (m.down_file ≡ "")
          × (apply_down read_file run_tx ms s
              ≡ record { done = []; error = some (missing_down_file m.version); state = s }))
        ⊎ (All HasDown ms × (apply_down read_file run_tx ms s ≡ run (λ m. m.down_file) ms s))
  unfolding apply_down
  apply_down_guard ms s = elim (first_missing_lem ms) [
    | inl (xs, m, ys, split, before, gone, missing) ↦
        inl (xs, m, ys, split, before, gone, rw (missing, apply_down))
    | inr (present, none_missing) ↦ inr (present, rw (none_missing, apply_down))
  ]

  -- The down file of `m` undoes its up file.
  abbrev pub Undoes : Migration → Type 0
  Undoes m =
      (m.down_file ≢ "")
      × ((s s' : S)
          → run_one (λ k. k.up_file) m s ≡ (s', none)
          → run_one (λ k. k.down_file) m s' ≡ (s, none))

  run_undo :
      (ms : List Migration) (s : S)
      → All Undoes ms
      → (run (λ m. m.up_file) ms s).error ≡ none
      → run (λ m. m.down_file) (reverse ms) (run (λ m. m.up_file) ms s).state
        ≡ record { done = versions (reverse ms); error = none; state = s }
  unfolding run_all push_done
  run_undo [] s h e = refl
  run_undo (m ∷ ms) s ((_, undo), h) e = elim (Option-cases (run_one (λ k. k.up_file) m s).1) [
    | inl fine ↦
        let s' = (run_one (λ k. k.up_file) m s).0 in
        let e' : (run (λ k. k.up_file) ms s').error ≡ none = rw fine at e in
        let back = undo s s' (ap (λ f. (s', f)) fine) in
        let ih = run_undo ms s' h e' in
        let down = λ (k : Migration). k.down_file in
        let end = (run (λ k. k.up_file) ms s').state in
        rw (fine, reverse-cons m ms)
          (run_all-append down (reverse ms) (m ∷ []) end (ap (λ o. o.error) ih)
            ∙ rw (ih, back, versions-append (reverse ms) (m ∷ [])))
    | inr (f, failed) ↦ absurd (cc (rw failed at e))
  ]

  -- Where each down file undoes its up file, running the down files in the reverse order after a
  -- successful run of the up files restores the state and reports every version, last first.
  pub apply_down-apply :
      (ms : List Migration) (s : S)
      → All Undoes ms
      → (apply read_file run_tx ms s).error ≡ none
      → apply_down read_file run_tx (reverse ms) (apply read_file run_tx ms s).state
        ≡ record { done = versions (reverse ms); error = none; state = s }
  unfolding apply apply_down
  apply_down-apply ms s h e =
      rw
        (
          first_missing-none (reverse ms) (All-reverse HasDown ms (All-map (λ m u. u.0) ms h)),
          apply_down,
        )
        (run_undo ms s h e)

  -- `Apply` on two lists, one after the other.
  pub apply_append :
      (xs ys : List Migration) (s : S)
      → (apply read_file run_tx xs s).error ≡ none
      → apply read_file run_tx (xs ++ ys) s ≡ record {
        done =
            (apply read_file run_tx xs s).done
            ++ (apply read_file run_tx ys (apply read_file run_tx xs s).state).done;
        error = (apply read_file run_tx ys (apply read_file run_tx xs s).state).error;
        state = (apply read_file run_tx ys (apply read_file run_tx xs s).state).state;
      }
  unfolding apply
  apply_append xs ys s h = run_all-append (λ m. m.up_file) xs ys s h

  -- A run of `Apply` without an error reports every version.
  pub apply_done :
      (ms : List Migration) (s : S)
      → (apply read_file run_tx ms s).error ≡ none
      → (apply read_file run_tx ms s).done ≡ versions ms
  unfolding apply
  apply_done ms s h = elim (run_all-Report (λ m. m.up_file) ms s) [
    | inl (_, d) ↦ d
    | inr (xs, m, ys, e, _, _, failed, _, _) ↦ absurd (cc (h, failed))
  ]
