-- ===== src/Meter/Recorded.antt =====
-- meter/meter.go: what a module can report of its usage.
use app_module_sdk.Base.{
  String, ◌≡◌, refl, sym, ap, subst, ◌∙◌, ◌≢◌, ◌⊎◌, inl, inr, Bool, true, false, not, Option, none,
  some, ◌∷◌, arith, ◌==◌, eq_iff, ne_of_test, eq-false_of_ne, Bool-cases, Option-cases,
  if◌then◌else◌,
}
use app_module_sdk.Base.Dict.{lookup}
use app_module_sdk.Meter.{
  subject_keyed, bad_event_id, aggregation_key_subject, Decl, is_reserved, Client, Event,
  Observation, Error, Result, ok, err, Request, Context, Env, World, not_marshalled, bad_request,
  resolve_usage_url, provided, credential_of, header_of, deliver, dispatch, app_of, record_inputs,
  emit, record_value, record_with_id, observation_error, emit_observation, record_observation,
}
use app_module_sdk.Meter.EventId.{validate_event_id}
use app_module_sdk.Meter.Declared.{IsValid}

abbrev pub IsErr : {A : Type 0} → Result A → Type 0
IsErr r = (e : Error) × (r ≡ err e)

module _ {S F : Type 0} (env : Env S F) where
  -- A call sends nothing and fails, or sends one request, of which `P` holds.
  pub data AtMostOne (P : Request F → Type 0) (w : World S F) (p : Result (Unit {0}) × World S F)
      : Type 0 where
    none_sent : IsErr p.0 → p.1.sent ≡ w.sent → AtMostOne P w p
    one_sent : (q : Request F) → p.1.sent ≡ q ∷ w.sent → P q → AtMostOne P w p

  -- Where a provider is installed, the secret is one that it gave, and not empty.
  abbrev pub IsCredited : Context S → Request F → Type 0
  IsCredited ctx q =
      (provider : S → Option String × S)
      → ctx.provider ≡ some provider
      → (s : S) × (secret : String) × ((provider s).0 ≡ some secret)
        × (secret ≢ "")
        × (q.secret ≡ some secret)

  -- The request reports a fair custom metric of the client, for the app of the context.
  pub record IsBillable (c : Client) (ctx : Context S) (value : F) (q : Request F) : Type 0 where
    pub decl : Decl
    pub declared : lookup q.event.metric c.metrics ≡ some decl
    pub custom : is_reserved q.event.metric ≡ false
    pub kind : (decl.kind ≡ "counter") ⊎ (decl.kind ≡ "gauge")
    pub subject : decl.aggregation_key ≡ "subject" → q.event.subject ≢ ""
    pub finite :
        (env.float.is_nan value ≡ false)
        × (env.float.is_inf value ≡ false)
        × (env.float.is_negative value ≡ false)
    pub reported : q.event.value ≡ value
    pub app : (ctx.app_id ≡ some q.app_id) × (q.app_id ≢ "") × (q.event.app_id_hint ≡ q.app_id)
    pub credited : IsCredited ctx q

  some-injective : {A : Type 0} {a b : A} → some a ≡ some b → a ≡ b
  some-injective e = cc

  provided-ok : (o : Option String) (x : String) → provided env o ≡ ok x → (o ≡ some x) × (x ≢ "")
  unfolding provided
  provided-ok none x h = cc
  provided-ok (some y) x h = elim (Bool-cases (y == "")) [
    | inl e ↦ ground (arith, h, e)
    | inr e ↦
        let same : y ≡ x = ground (arith, h, e) in
        (ap some same, subst (λ z. z ≢ "") same (ne_of_test y "" e))
  ]

  -- A credential that is had while a provider is installed came from it.
  credential_of-ok :
      (o : Option (S → Option String × S)) (s : S) (x : String)
      → (credential_of env o s).0 ≡ ok x
      → (provider : S → Option String × S) → o ≡ some provider
      → ((provider s).0 ≡ some x) × (x ≢ "")
  unfolding credential_of
  credential_of-ok none s x h provider e = cc
  credential_of-ok (some p) s x h provider e =
      subst (λ (f : S → Option String × S). ((f s).0 ≡ some x) × (x ≢ "")) (some-injective e)
        (provided-ok (p s).0 x h)

  deliver-sent :
      (ctx : Context S) (url app_id : String) (event : Event F) (w : World S F) (s : S)
      (p : Result String × S)
      → credential_of env ctx.provider s ≡ p
      → AtMostOne
          (λ q. (q.event ≡ event) × (q.app_id ≡ app_id) × IsCredited ctx q)
          w
          (deliver env url app_id event w p)
  unfolding deliver
  deliver-sent ctx url app_id event w s (err e, s') h = none_sent (e, refl) refl
  deliver-sent ctx url app_id event w s (ok x, s') h =
      one_sent (record { url = url; app_id = app_id; secret = header_of env x; event = event }) refl
        (
          refl,
          refl,
          λ provider e.
              let (given, ne) = credential_of-ok ctx.provider s x (ap (λ p. p.0) h) provider e in
              (s, x, given, ne, rw (eq-false_of_ne x "" ne) refl),
        )

  AtMostOne-if :
      (P : Request F → Type 0) (w : World S F) (b : Bool) (x y : Result (Unit {0}) × World S F)
      → AtMostOne P w x
      → AtMostOne P w y
      → AtMostOne P w (if b then x else y)
  AtMostOne-if P w true x y h k = h
  AtMostOne-if P w false x y h k = k

  dispatch-sent :
      (ctx : Context S) (app_id : String) (event : Event F) (w : World S F)
      → AtMostOne
          (λ q. (q.event ≡ event) × (q.app_id ≡ app_id) × IsCredited ctx q)
          w
          (dispatch env ctx app_id event w)
  unfolding dispatch
  dispatch-sent ctx app_id event w =
      let url = resolve_usage_url env ctx app_id in
      AtMostOne-if _ w (not (env.marshals event)) _ _ (none_sent (not_marshalled, refl) refl) (
        AtMostOne-if _ w (not (env.makes_request url)) _ _ (none_sent (bad_request, refl) refl)
          (deliver-sent ctx url app_id event w w.outside _ refl))

  app_of-some : (o : Option String) (a : String) → app_of env o ≡ a → a ≢ "" → o ≡ some a
  app_of-some none a h ne = absurd (ne (sym h))
  app_of-some (some b) a h ne = ap some h

  -- What the inputs of a report are, where they are accepted.
  record_inputs-ok :
      (c : Client) (ctx : Context S) (name : String) (value : F) (d : Decl) (m app : String)
      → record_inputs env c ctx name value ≡ ok (d, m, app)
      → (is_reserved name ≡ false)
        × (lookup name c.metrics ≡ some d)
        × ((env.float.is_nan value ≡ false)
            × (env.float.is_inf value ≡ false)
            × (env.float.is_negative value ≡ false))
        × (ctx.app_id ≡ some app)
        × (app ≢ "")
  unfolding record_inputs
  record_inputs-ok c ctx name value d m app h = elim (Bool-cases (is_reserved name)) [
    | inl r ↦ ground (arith, h, r)
    | inr r ↦ elim (Option-cases (lookup name c.metrics)) [
      | inl e ↦ ground (arith, h, r, e)
      | inr (d', e) ↦ elim (Bool-cases (app_of env ctx.app_id == "")) [
        | inl a ↦ ground (arith, h, r, e, a)
        | inr a ↦
            let same : d' ≡ d = ground (arith, h, r, e, a) in
            let finite : (env.float.is_nan value ≡ false)
                × (env.float.is_inf value ≡ false)
                × (env.float.is_negative value ≡ false) =
              ground (arith, h, r, e, a) in
            let app' : app_of env ctx.app_id ≡ app = ground (arith, h, r, e, a) in
            let ne = subst (λ x. x ≢ "") app' (ne_of_test _ "" a) in
            (r, e ∙ ap some same, finite, app_of-some ctx.app_id app app' ne, ne)
      ]
    ]
  ]

  AtMostOne-map :
      (P Q : Request F → Type 0) (w w' : World S F) (p : Result (Unit {0}) × World S F)
      → w'.sent ≡ w.sent
      → ((q : Request F) → P q → Q q)
      → AtMostOne P w' p
      → AtMostOne Q w p
  AtMostOne-map P Q w w' p e f (none_sent g h) = none_sent g (h ∙ e)
  AtMostOne-map P Q w w' p e f (one_sent q h x) = one_sent q (h ∙ ap (λ l. q ∷ l) e) (f q x)

  -- The request for an event of a declared metric is billable.
  event-IsBillable :
      (c : Client) (ctx : Context S) (name : String) (value : F) (d : Decl) (m app : String)
      (event : Event F) (q : Request F)
      → IsValid c
      → record_inputs env c ctx name value ≡ ok (d, m, app)
      → event.metric ≡ d.name
      → event.value ≡ value
      → event.app_id_hint ≡ app
      → (d.aggregation_key ≡ "subject" → event.subject ≢ "")
      → (q.event ≡ event) × (q.app_id ≡ app) × IsCredited ctx q
      → IsBillable c ctx value q
  event-IsBillable c ctx name value d m app event q v h metric val hint subject
        (same, a, credited) =
      let (custom, found, finite, of, ne) = record_inputs-ok c ctx name value d m app h in
      let (named, fair) = v name d found in
      let metric' : q.event.metric ≡ name = ap (λ (e : Event F). e.metric) same ∙ metric ∙ named in
      record {
        decl = d;
        declared = rw metric' found;
        custom = rw metric' custom;
        kind = (fair.custom (rw named custom)).0;
        subject = λ k. subst (λ (e : Event F). e.subject ≢ "") (sym same) (subject k);
        finite = finite;
        reported = ap (λ (e : Event F). e.value) same ∙ val;
        app = (
          of ∙ ap some (sym a),
          subst (λ x. x ≢ "") (sym a) ne,
          ap (λ (e : Event F). e.app_id_hint) same ∙ hint ∙ sym a,
        );
        credited = credited;
      }

  emit-sent :
      (c : Client) (ctx : Context S) (id name : String) (value : F)
      (r : Result (Decl × String × String)) (w : World S F)
      → IsValid c
      → record_inputs env c ctx name value ≡ r
      → AtMostOne (IsBillable c ctx value) w (emit env ctx id value r w)
  unfolding emit
  emit-sent c ctx id name value (err e) w v h = none_sent (e, refl) refl
  emit-sent c ctx id name value (ok (d, m, app)) w v h =
      elim (Bool-cases (d.aggregation_key == aggregation_key_subject)) [
        | inl k ↦ rw k (none_sent (subject_keyed, refl) refl)
        | inr k ↦
            let (now, s) = env.now w.outside in
            rw k (
              AtMostOne-map _ _ w (record w { outside = s }) _ refl
                (λ q x.
                  event-IsBillable c ctx name value d m app _ q v h refl refl refl
                    (λ g. absurd (ne_of_test d.aggregation_key "subject" k g)) x)
                (dispatch-sent ctx app _ (record w { outside = s })))
      ]

  -- A metric keyed by subject is reported with a subject.
  observation_error-subject :
      (o : Observation) (d : Decl)
      → observation_error env o (d.aggregation_key == aggregation_key_subject) ≡ none
      → d.aggregation_key ≡ "subject"
      → o.subject ≢ ""
  unfolding observation_error
  observation_error-subject o d h k e =
      let required : (d.aggregation_key == aggregation_key_subject) ≡ true =
        (eq_iff d.aggregation_key "subject").1 k in
      let empty : (o.subject == "") ≡ true = (eq_iff o.subject "").1 e in
      ground (arith, h, required, empty)

  emit_observation-sent :
      (c : Client) (ctx : Context S) (name : String) (value : F) (o : Observation)
      (r : Result (Decl × String × String)) (w : World S F)
      → IsValid c
      → record_inputs env c ctx name value ≡ r
      → AtMostOne (IsBillable c ctx value) w (emit_observation env ctx value o r w)
  unfolding emit_observation
  emit_observation-sent c ctx name value o (err e) w v h = none_sent (e, refl) refl
  emit_observation-sent c ctx name value o (ok (d, m, app)) w v h =
      let (now, s) = env.now w.outside in
      elim (Option-cases (observation_error env o (d.aggregation_key == aggregation_key_subject))) [
        | inr (e, k) ↦ rw (k, emit_observation) (none_sent (e, refl) refl)
        | inl k ↦
            rw (k, emit_observation)
              (AtMostOne-map _ _ w (record w { outside = s }) _ refl
                (λ q x.
                  event-IsBillable c ctx name value d m app _ q v h refl refl refl
                    (observation_error-subject o d k) x)
                (dispatch-sent ctx app _ (record w { outside = s })))
      ]

  -- With a registry in which every metric is fair, each of the three ways to report sends nothing
  -- and fails, or sends one request: for a declared metric that is not reserved and has one of the
  -- two kinds, with the finite value that is not negative, for the app of the context, with a subject
  -- where the metric is keyed by subject, and, where a provider is installed, with a secret of it.
  pub reports-IsBillable :
      (c : Client) (ctx : Context S) (name id : String) (value : F) (o : Observation)
      (w : World S F)
      → IsValid c
      → AtMostOne (IsBillable c ctx value) w (record_value env c ctx name value w)
        × AtMostOne (IsBillable c ctx value) w (record_with_id env c ctx id name value w)
        × AtMostOne (IsBillable c ctx value) w (record_observation env c ctx name value o w)
  unfolding record_value record_with_id record_observation
  reports-IsBillable c ctx name id value o w v =
      let (fresh, s) = env.new_uuid w.outside in
      let inputs = record_inputs env c ctx name value in
      (
        AtMostOne-map _ _ w (record w { outside = s }) _ refl (λ q x. x)
            (emit-sent c ctx fresh name value inputs (record w { outside = s }) v refl),
        AtMostOne-if _ w (validate_event_id id) _ _ (emit-sent c ctx id name value inputs w v refl)
            (none_sent (bad_event_id, refl) refl),
        emit_observation-sent c ctx name value o inputs w v refl,
      )
