-- ===== src/Wire/Accepted.antt =====
-- What `Validate` of internal/invocationwire/wire.go guarantees of an identity and of the cookies.
use app_module_sdk.Base.{
  String, ◌≡◌, refl, sym, ap, ◌∙◌, ◌≢◌, ◌⊎◌, inl, inr, Bool, true, false, ◌&&◌, ◌||◌, not, Option,
  none, some, List, [], ◌∷◌, ◌==◌, ◌<◌, arith, ltb→lt, eq_of_test, ne_of_test, eq_iff, Bool-cases,
}
use app_module_sdk.Wire.Shapes.{Time, Claims, Cookies, Invocation, text_leb}
use app_module_sdk.Wire.Validate.{
  Codec, kind_member, kind_platform, legacy_logical_read, physical_names_v1, validate_identity,
  increases, scan_capabilities, valid_window, valid_capabilities, validate, valid_request,
  valid_trust, valid_routes, valid_audit_provenance,
}
use app_module_sdk.Wire.Values.{or_true, and_true, kept_unless, some_injective, not-false, not-true}

-- An identity: nobody, an end user with no claims of an operator, or an operator with a role.
pub data Standing (i : Claims) : Type 0 where
  nobody : i.user_id ≡ "" → i.kind ≡ "" → i.app_role ≡ "" → i.actor_delegation ≡ "" → Standing i
  member :
      i.user_id ≢ "" → i.kind ≡ kind_member → i.app_role ≡ "" → i.actor_delegation ≡ "" → Standing i
  operator : i.user_id ≢ "" → i.kind ≡ kind_platform → i.app_role ≢ "" → Standing i

-- The cookies: the physical names, and the legacy ones only before the end of their window.
pub data Presented (at : Time) (c : Cookies) : Type 0 where
  physical_only : c.capabilities ≡ physical_names_v1 ∷ [] → Presented at c
  with_legacy :
      c.capabilities ≡ legacy_logical_read ∷ physical_names_v1 ∷ []
      → at.nanos < c.legacy_read_until.nanos
      → Presented at c

anonymous-Standing :
    (i : Claims)
    → i.user_id ≡ ""
    → (i.kind == "" && i.app_role == "" && i.actor_delegation == "") ≡ true
    → Standing i
anonymous-Standing i u h =
    let (h', d) = and_true _ (i.actor_delegation == "") h in
    let (k, r) = and_true (i.kind == "") (i.app_role == "") h' in
    nobody u (eq_of_test _ _ k) (eq_of_test _ _ r) (eq_of_test _ _ d)

-- Where a member carries no claims of an operator, and an operator a role.
member-Standing :
    (i : Claims)
    → i.user_id ≢ ""
    → i.kind ≡ kind_member
    → (not (i.app_role == "") || not (i.actor_delegation == "")) ≡ false
    → Standing i
member-Standing i u k h =
    member u k (ground (arith, eq_iff i.app_role "")) (ground (arith, eq_iff i.actor_delegation ""))

validate_identity-Standing : (i : Claims) → validate_identity i ≡ true → Standing i
unfolding validate_identity
validate_identity-Standing i h = elim (Bool-cases (i.user_id == "")) [
  | inl u ↦ anonymous-Standing i (eq_of_test _ _ u) (rw u at h)
  | inr u ↦
      let (h', _) =
        and_true _ (not (not (i.actor_delegation == "") && i.app_role == "")) (rw u at h) in
      let (h'', o) = and_true _ (not (i.kind == kind_platform && i.app_role == "")) h' in
      let (k, m) = and_true _ _ h'' in
      elim (or_true _ _ k) [
        | inl e ↦ member-Standing i (ne_of_test _ _ u) (eq_of_test _ _ e) (not-true _ (rw e at m))
        | inr e ↦
            operator (ne_of_test _ _ u) (eq_of_test _ _ e) (ne_of_test _ _ (not-true _ (rw e at o)))
      ]
]

-- One round of the loop.
scan_capabilities-step :
    (l p : Bool) (before : Option String) (c : String) (cs : List String) (r : Bool × Bool)
    → scan_capabilities l p before (c ∷ cs) ≡ some r
    → ((c ≡ legacy_logical_read) ⊎ (c ≡ physical_names_v1))
      × (increases before c ≡ true)
      × (scan_capabilities (l || c == legacy_logical_read) (p || c == physical_names_v1) (some c) cs
          ≡ some r)
unfolding scan_capabilities
scan_capabilities-step l p before c cs r h =
    let (known, h') =
      kept_unless (not (c == legacy_logical_read) && not (c == physical_names_v1)) _ r h in
    let (up, h'') = kept_unless (not (increases before c)) _ r h' in
    (
      elim (Bool-cases (c == legacy_logical_read)) [
        | inl e ↦ inl (eq_of_test _ _ e)
        | inr e ↦ inr (eq_of_test _ _ (not-false _ (rw e at known)))
      ],
      not-false _ up,
      h'',
    )

-- Nothing follows the physical names, and only they follow the legacy ones.
after_physical :
    (l p : Bool) (cs : List String) (r : Bool × Bool)
    → scan_capabilities l p (some physical_names_v1) cs ≡ some r
    → (cs ≡ []) × (r ≡ (l, p))
unfolding scan_capabilities text_leb
after_physical l p [] r h = (refl, sym (some_injective h))
after_physical l p (c ∷ cs) r h =
    let (known, up, _) = scan_capabilities-step l p (some physical_names_v1) c cs r h in
    elim known [
      | inl e ↦ let bad : ◌≡◌ {A = Bool} false true = rw e at up in cc
      | inr e ↦ let bad : ◌≡◌ {A = Bool} false true = rw e at up in cc
    ]

-- After the legacy names, which need the physical ones.
after_legacy :
    (cs : List String) (l p : Bool)
    → scan_capabilities true false (some legacy_logical_read) cs ≡ some (l, p)
    → p ≡ true
    → (cs ≡ physical_names_v1 ∷ []) × (l ≡ true)
unfolding scan_capabilities text_leb
after_legacy [] l p h e =
    let bad : ◌≡◌ {A = Bool} false true = ap (λ r. r.1) (some_injective h) ∙ e in cc
after_legacy (c ∷ cs) l p h e =
    let (known, up, rest) =
      scan_capabilities-step true false (some legacy_logical_read) c cs (l, p) h in
    elim known [
      | inl k ↦ let bad : ◌≡◌ {A = Bool} false true = rw k at up in cc
      | inr k ↦
          let (end, r) = after_physical true true cs (l, p) (rw k at rest) in
          (rw (k, end), ap (λ r. r.0) r)
    ]

-- The capabilities that pass the loop, with whether the legacy ones are among them.
scan_capabilities-Presented :
    (cs : List String) (l p : Bool)
    → scan_capabilities false false none cs ≡ some (l, p)
    → p ≡ true
    → ((cs ≡ physical_names_v1 ∷ []) × (l ≡ false))
      ⊎ ((cs ≡ legacy_logical_read ∷ physical_names_v1 ∷ []) × (l ≡ true))
unfolding scan_capabilities
scan_capabilities-Presented [] l p h e =
    let bad : ◌≡◌ {A = Bool} false true = ap (λ r. r.1) (some_injective h) ∙ e in cc
scan_capabilities-Presented (c ∷ cs) l p h e =
    let (known, _, rest) = scan_capabilities-step false false none c cs (l, p) h in
    elim known [
      | inl k ↦
          let (more, legacy) = after_legacy cs l p (rw k at rest) e in inr (rw (k, more), legacy)
      | inr k ↦
          let (end, r) = after_physical false true cs (l, p) (rw k at rest) in
          inl (rw (k, end), ap (λ r. r.0) r)
    ]

valid_window-Presented :
    (at : Time) (c : Cookies) (o : Option (Bool × Bool))
    → scan_capabilities false false none c.capabilities ≡ o
    → valid_window at c o ≡ true
    → Presented at c
valid_window-Presented at c none s h = cc
valid_window-Presented at c (some (l, p)) s h =
    let (e, w) = and_true p _ h in
    elim (scan_capabilities-Presented c.capabilities l p s e) [
      | inl (cs, _) ↦ physical_only cs
      | inr (cs, legacy) ↦ with_legacy cs (ltb→lt _ _ (not-false _ (not-true _ (rw legacy at w))))
    ]

-- Every context that `Validate` accepts has one of three identities: nobody, without a claim; an
-- end user, without an operator's claims; or an operator with a role. Its cookie capabilities are the
-- physical names alone, or the legacy ones and then the physical, and the latter only when the request
-- occurred before the end of the legacy window.
pub validate-Standing :
    (codec : Codec) (t : Invocation)
    → validate codec t ≡ true
    → Standing t.identity × Presented t.request.occurred_at t.cookies
unfolding validate valid_capabilities
validate-Standing codec t h =
    let (h1, _) = and_true _ (valid_audit_provenance codec t.provenance) h in
    let (h2, window) = and_true _ _ h1 in
    let (h3, _) = and_true _ _ h2 in
    let (h4, _) = and_true _ _ h3 in
    let (h5, _) = and_true _ _ h4 in
    let (h6, _) = and_true _ (valid_routes codec t) h5 in
    let (h7, _) = and_true _ (valid_trust codec t.trust t.routes) h6 in
    let (h8, _) = and_true _ (valid_request t.request) h7 in
    let (_, identity) = and_true _ (validate_identity t.identity) h8 in
    (
      validate_identity-Standing t.identity identity,
      valid_window-Presented t.request.occurred_at t.cookies _ refl window,
    )
