-- ===== src/Task/Grounds.antt =====
-- On what grounds a run starts its handler.
use app_module_sdk.Base.{
  String, ◌≡◌, refl, ◌⊎◌, inl, inr, Bool, true, false, ◌&&◌, ◌||◌, not, Option, none, some, ◌==◌,
  ◌<◌, arith, is_some, Bool-cases, Option-cases, eq_of_test, if◌then◌else◌,
}
use app_module_sdk.Base.Int.{ℤ, eq_int, pos}
use app_module_sdk.Ids.{canonical_module_id}
use app_module_sdk.Task.{
  Instant, Claim, Error, Result, ok, err, already_handled, validate_capability,
}
use app_module_sdk.Task.Broker.{Net, Codec, World, clock, post, send_claim}
use app_module_sdk.Task.Claims.{
  Handler, Config, Parsers, claim_identity_matches, handler_of, has_fields, validate_authority,
  validate_claim,
}
use app_module_sdk.Task.OneShot.{
  Run, reported, reject_claim, run_claim, claimed, obtain, config_error, configured, run_one_shot,
}
use app_module_sdk.Task.Keeps.{
  Since, now_is, exchanged, Reading, IsOpen, validate_capability-IsOpen,
}

-- A claim that is for the configured job, attempt and module, names a handler with an entry, and has
-- at an instant an open lease and a deadline to come.
pub record IsFor (cfg : Config) (canonical : String) (claim : Claim) (now : Instant) : Type 0 where
  pub job : claim.job.id ≡ cfg.job_id
  pub attempt : claim.job.attempt_id ≡ cfg.attempt_id
  pub callee : claim.workload.module_id ≡ canonical
  pub handler : (h : Handler × ℤ) × (handler_of cfg claim ≡ some h)
  pub lease : IsOpen claim.capability now
  pub deadline : now < claim.job.deadline

pub record Grounds {S : Type 0} (net : Net S) (codec : Codec) (cfg : Config) (w : World S)
    : Type 0 where
  pub canonical : String
  pub claim : Claim
  pub now : Instant
  pub named : canonical_module_id cfg.module_id ≡ some canonical
  pub sound : config_error cfg ≡ none
  pub source :
      (cfg.preclaimed ≡ some claim)
      ⊎ ((cfg.preclaimed ≡ none)
          × ((send_claim net codec cfg.job_id cfg.attempt_id cfg.bootstrap_token w).0 ≡ ok claim))
  pub at : Reading net w.outside now
  pub is_for : IsFor cfg canonical claim now

and_true : (a b : Bool) → (a && b) ≡ true → (a ≡ true) × (b ≡ true)
and_true true b h = (refl, h)
and_true false b h = cc

not-false : (b : Bool) → not b ≡ false → b ≡ true
not-false true h = refl
not-false false h = cc

none_if :
    {A : Type 0} (b : Bool) (a : A) (o : Option A)
    → (if b then some a else o) ≡ none
    → (b ≡ false) × (o ≡ none)
none_if true a o h = cc
none_if false a o h = (refl, h)

has_fields-deadline :
    (parsers : Parsers) (claim : Claim) (now : Instant)
    → has_fields parsers claim now ≡ true
    → now < claim.job.deadline
unfolding has_fields
has_fields-deadline parsers claim now h = ground (arith, h)

validate_authority-none :
    (parsers : Parsers) (cfg : Config) (claim : Claim) (now : Instant)
    → validate_authority parsers cfg claim now ≡ none
    → IsOpen claim.capability now × (now < claim.job.deadline)
unfolding validate_authority
validate_authority-none parsers cfg claim now h =
    elim (Option-cases (validate_capability claim.capability now)) [
      | inr (e, v) ↦ absurd (cc (rw (v, validate_authority) at h))
      | inl v ↦
          let (f, _) =
            none_if (not (has_fields parsers claim now)) _ _ (rw (v, validate_authority) at h) in
          (
            validate_capability-IsOpen claim.capability now v,
            has_fields-deadline parsers claim now (not-false _ f),
          )
    ]

validate_claim-IsFor :
    (parsers : Parsers) (cfg : Config) (canonical : String) (claim : Claim) (now : Instant)
    → validate_claim parsers cfg canonical claim now ≡ none
    → IsFor cfg canonical claim now
unfolding validate_claim claim_identity_matches
validate_claim-IsFor parsers cfg canonical claim now h =
    let (_, h') = none_if (not (eq_int claim.version (pos 1))) _ _ h in
    let (same, h'') = none_if (not (claim_identity_matches cfg canonical claim)) _ _ h' in
    elim (Option-cases (handler_of cfg claim)) [
      | inl e ↦ absurd (cc (rw e at h''))
      | inr (entry, e) ↦
          let (lease, deadline) = validate_authority-none parsers cfg claim now (rw e at h'') in
          let (names, callee) =
            and_true _ (claim.workload.module_id == canonical) (not-false _ same) in
          let (names', attempt) = and_true _ (claim.job.attempt_id == cfg.attempt_id) names in
          let (_, job) = and_true _ (claim.job.id == cfg.job_id) names' in
          record {
            job = eq_of_test _ _ job;
            attempt = eq_of_test _ _ attempt;
            callee = eq_of_test _ _ callee;
            handler = (entry, e);
            lease = lease;
            deadline = deadline;
          }
    ]

module _ {S : Type 0} (net : Net S) (codec : Codec) (text : Error → String) (parsers : Parsers)
    (cfg : Config) (w : World S) where
  -- A run that has started a handler had its grounds.
  abbrev HasGrounds : Run S → Type 0
  HasGrounds r = is_some r.manager ≡ true → Grounds net codec cfg w

  HasGrounds-if :
      (b : Bool) (x y : Run S) → HasGrounds x → HasGrounds y → HasGrounds (if b then x else y)
  HasGrounds-if true x y h k = h
  HasGrounds-if false x y h k = k

  HasGrounds-reported :
      (e : Error) (p : Result (Unit {0}) × World S) → HasGrounds (reported net codec text e p)
  HasGrounds-reported e (ok _, w') = λ h. cc
  HasGrounds-reported e (err f, w') = λ h. cc

  HasGrounds-reject_claim :
      (canonical : String) (claim : Claim) (e : Error) (w' : World S)
      → HasGrounds (reject_claim net codec text cfg canonical claim e w')
  unfolding reject_claim
  HasGrounds-reject_claim canonical claim e w' =
      let (now, w'') = clock net w' in
      HasGrounds-if (is_some cfg.preclaimed || not (claim_identity_matches cfg canonical claim)) _ _
        (λ h. cc)
        (HasGrounds-if (is_some (validate_capability claim.capability now)) _ _ (λ h. cc)
          (HasGrounds-reported e _))

  module _ (canonical : String) (named : canonical_module_id cfg.module_id ≡ some canonical)
      (sound : config_error cfg ≡ none) where
    HasGrounds-run_claim :
        (claim : Claim) (w' : World S)
        → ((cfg.preclaimed ≡ some claim)
            ⊎ ((cfg.preclaimed ≡ none)
                × ((send_claim net codec cfg.job_id cfg.attempt_id cfg.bootstrap_token w).0
                    ≡ ok claim)))
        → Since net w.outside w'.outside
        → HasGrounds (run_claim net codec text parsers cfg canonical claim w')
    unfolding run_claim
    HasGrounds-run_claim claim w' source since =
        let (now, w'') = clock net w' in
        elim (Option-cases (validate_claim parsers cfg canonical claim now)) [
          | inr (e, v) ↦ rw (v, run_claim) (HasGrounds-reject_claim canonical claim e w'')
          | inl v ↦ λ _. record {
            canonical = canonical;
            claim = claim;
            now = now;
            named = named;
            sound = sound;
            source = source;
            at = record { at = w'.outside; reached = since; is_read = refl };
            is_for = validate_claim-IsFor parsers cfg canonical claim now v;
          }
        ]

    send_claim-Since :
        (job attempt token : String)
        → Since net w.outside (send_claim net codec job attempt token w).1.outside
    unfolding send_claim post
    send_claim-Since job attempt token = elim (Bool-cases (token == "")) [
      | inl e ↦ rw e now_is
      | inr e ↦ rw e (exchanged _ now_is)
    ]

    HasGrounds-claimed :
        (r : Result Claim) (w' : World S)
        → cfg.preclaimed ≡ none
        → (send_claim net codec cfg.job_id cfg.attempt_id cfg.bootstrap_token w).0 ≡ r
        → Since net w.outside w'.outside
        → HasGrounds (claimed net codec text parsers cfg canonical (r, w'))
    unfolding claimed
    HasGrounds-claimed (ok claim) w' absent answer since =
        HasGrounds-run_claim claim w' (inr (absent, answer)) since
    HasGrounds-claimed (err already_handled) w' absent answer since = λ h. cc
    HasGrounds-claimed (err e) w' absent answer since = λ h. cc

    HasGrounds-obtain :
        (o : Option Claim)
        → cfg.preclaimed ≡ o
        → HasGrounds (obtain net codec text parsers cfg canonical o w)
    unfolding obtain
    HasGrounds-obtain (some claim) handed = HasGrounds-run_claim claim w (inl handed) now_is
    HasGrounds-obtain none absent =
        let (r, w') = send_claim net codec cfg.job_id cfg.attempt_id cfg.bootstrap_token w in
        HasGrounds-claimed r w' absent refl
          (send_claim-Since cfg.job_id cfg.attempt_id cfg.bootstrap_token)

  HasGrounds-configured :
      (o : Option String) (e : Option Error)
      → canonical_module_id cfg.module_id ≡ o
      → config_error cfg ≡ e
      → HasGrounds (configured net codec text parsers cfg o e w)
  unfolding configured
  HasGrounds-configured none e named sound = λ h. cc
  HasGrounds-configured (some canonical) (some e) named sound = λ h. cc
  HasGrounds-configured (some canonical) none named sound =
      HasGrounds-obtain canonical named sound cfg.preclaimed refl

  -- A run comes to its handler, which is where it makes a manager, only under a sound configuration
  -- and a claim that was handed over or that the broker gave for the bootstrap token. The claim is for
  -- the configured job, attempt and module and names a registered handler; at an instant that the
  -- clock gave in the run its lease was open and its deadline to come.
  pub run_one_shot-Grounds :
      is_some (run_one_shot net codec text parsers cfg w).manager ≡ true → Grounds net codec cfg w
  unfolding run_one_shot
  run_one_shot-Grounds =
      HasGrounds-configured (canonical_module_id cfg.module_id) (config_error cfg) refl refl
