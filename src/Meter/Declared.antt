-- ===== src/Meter/Declared.antt =====
-- meter/meter.go: what `Declare` lets into the registry of a module's metrics.
use app_module_sdk.Base.{
  String, ◌≡◌, refl, sym, ap, subst, ◌∙◌, ◌⊎◌, inl, inr, Bool, true, false, Option, none, some,
  List, [], ◌∷◌, arith, ◌==◌, eq_iff, eq_refl, Bool-cases, Option-cases, All, is_some,
  if◌then◌else◌,
}
use app_module_sdk.Base.Dict.{lookup, put, lookup-put}
use app_module_sdk.Meter.{
  MetricOption, kind_option, aggregation, unit, price, Decl, no_options, apply_metric, apply_all,
  decl_from_options, is_reserved, reserved_fits, aggregation_fits, custom_fits, decl_fits, Client,
  new_client, declare_locked, declare,
}

-- A reserved metric has a price only; any other has one of the two kinds, and is keyed by subject
-- only where it is a gauge.
pub record IsFair (d : Decl) : Type 0 where
  pub reserved :
      is_reserved d.name ≡ true
      → (d.kind_set ≡ false)
        × (d.unit_set ≡ false)
        × (d.aggregation_key ≡ "")
        × (d.price_set ≡ true)
  pub custom :
      is_reserved d.name ≡ false
      → ((d.kind ≡ "counter") ⊎ (d.kind ≡ "gauge"))
        × ((d.aggregation_key ≡ "") ⊎ ((d.aggregation_key ≡ "subject") × (d.kind ≡ "gauge")))

reserved_fits-fair :
    (d : Decl)
    → reserved_fits d ≡ true
    → (d.kind_set ≡ false) × (d.unit_set ≡ false) × (d.aggregation_key ≡ "") × (d.price_set ≡ true)
unfolding reserved_fits
reserved_fits-fair d h = ground (arith, eq_iff d.aggregation_key "")

custom_fits-fair :
    (d : Decl)
    → custom_fits d ≡ true
    → ((d.kind ≡ "counter") ⊎ (d.kind ≡ "gauge"))
      × ((d.aggregation_key ≡ "") ⊎ ((d.aggregation_key ≡ "subject") × (d.kind ≡ "gauge")))
unfolding custom_fits aggregation_fits
custom_fits-fair d h = ground (
  arith,
  eq_iff d.aggregation_key "",
  eq_iff d.aggregation_key "subject",
  eq_iff d.kind "gauge",
  eq_iff d.kind "counter",
)

decl_fits-IsFair : (d : Decl) → decl_fits d ≡ true → IsFair d
unfolding decl_fits
decl_fits-IsFair d h = record {
  reserved = λ r. reserved_fits-fair d (ground (arith, h, r));
  custom = λ r. custom_fits-fair d (ground (arith, h, r));
}

-- Every metric is found under its own name and is fair.
abbrev pub IsValid : Client → Type 0
IsValid c = (k : String) (d : Decl) → lookup k c.metrics ≡ some d → (d.name ≡ k) × IsFair d

new_client-IsValid : IsValid new_client
unfolding lookup
new_client-IsValid k d h = cc

some-injective : {A : Type 0} {a b : A} → some a ≡ some b → a ≡ b
some-injective e = cc

put-IsValid :
    (id : String) (d : Decl) (c : Client)
    → IsFair d
    → IsValid c
    → IsValid (record { module_id = id; metrics = put d.name d c.metrics })
put-IsValid id d c f v k e h =
    let found = lookup-put d.name k d c.metrics in
    elim (Bool-cases (d.name == k)) [
      | inr n ↦ let old : lookup k c.metrics ≡ some e = ground (arith, found, n, h) in v k e old
      | inl n ↦
          let same : some d ≡ some e = ground (arith, found, n, h) in
          subst (λ x. (x.name ≡ k) × IsFair x) (some-injective same) ((eq_iff d.name k).0 n, f)
    ]

IsValid-if :
    (b : Bool) (x y : Client × Bool) → IsValid x.0 → IsValid y.0 → IsValid (if b then x else y).0
IsValid-if true x y h k = h
IsValid-if false x y h k = k

declare_locked-IsValid :
    (module_id : String) (d : Decl) (c : Client)
    → IsFair d
    → IsValid c
    → IsValid (declare_locked module_id d c).0
unfolding declare_locked
declare_locked-IsValid module_id d c f v =
    IsValid-if (is_some (lookup d.name c.metrics)) _ _ v
      (put-IsValid (if c.module_id == "" then module_id else c.module_id) d c f v)

declare-IsValid :
    (module_id : String) (d : Decl) (c : Client) → IsValid c → IsValid (declare module_id d c).0
unfolding declare
declare-IsValid module_id d c v = elim (Bool-cases (decl_fits d)) [
  | inl h ↦ rw h (declare_locked-IsValid module_id d c (decl_fits-IsFair d h) v)
  | inr h ↦ rw h v
]

-- The calls of `Declare` one after the other, going on after a panic.
unfoldable pub declare_all : List (String × Decl) → Client → Client
declare_all [] c = c
declare_all ((module_id, d) ∷ ds) c = declare_all ds (declare module_id d c).0

-- After any calls of Declare on a new client, those that panic included, every metric is found
-- under its own name, a reserved one has a price and nothing else, and any other has one of the two
-- kinds and is keyed by subject only as a gauge.
pub declare_all-IsValid : (ds : List (String × Decl)) → IsValid (declare_all ds new_client)
unfolding declare_all
declare_all-IsValid ds = go ds new_client new_client-IsValid
  where
    go : (ds : List (String × Decl)) (c : Client) → IsValid c → IsValid (declare_all ds c)
    go [] c v = v
    go ((module_id, d) ∷ ds) c v = go ds (declare module_id d c).0 (declare-IsValid module_id d c v)

-- Every kind option among the options names this kind.
abbrev pub Agrees : String → Option MetricOption → Type 0
Agrees k (some (kind_option j)) = j ≡ k
Agrees k _ = Unit

apply_all-kind :
    (os : List (Option MetricOption)) (d : Decl)
    → (apply_all os d).kind_dup ≡ false
    → (d.kind_dup ≡ false)
      × (d.kind_set ≡ true → d.kind ≡ (apply_all os d).kind)
      × All (Agrees (apply_all os d).kind) os
unfolding apply_all apply_metric
apply_all-kind [] d h = (h, λ _. refl, tt)
apply_all-kind (none ∷ os) d h = let (a, b, c) = apply_all-kind os d h in (a, b, (tt, c))
apply_all-kind (some (kind_option k) ∷ os) d h =
    let next = apply_metric (some (kind_option k)) d in
    let (a, b, c) = apply_all-kind os next h in
    (
      ground (arith, a),
      λ s. let e : d.kind ≡ k = ground (arith, eq_iff d.kind k, a, s) in e ∙ b refl,
      (b refl, c),
    )
apply_all-kind (some (aggregation x) ∷ os) d h =
    let (a, b, c) = apply_all-kind os (apply_metric (some (aggregation x)) d) h in (a, b, (tt, c))
apply_all-kind (some (unit x) ∷ os) d h =
    let (a, b, c) = apply_all-kind os (apply_metric (some (unit x)) d) h in (a, b, (tt, c))
apply_all-kind (some (price x) ∷ os) d h =
    let (a, b, c) = apply_all-kind os (apply_metric (some (price x)) d) h in (a, b, (tt, c))

declare_locked-returns :
    (module_id : String) (d : Decl) (c : Client)
    → (declare_locked module_id d c).1 ≡ true
    → (lookup d.name c.metrics ≡ none)
      × (lookup d.name (declare_locked module_id d c).0.metrics ≡ some d)
unfolding declare_locked
declare_locked-returns module_id d c h = elim (Option-cases (lookup d.name c.metrics)) [
  | inr (e, f) ↦ ground (arith, f, h)
  | inl f ↦
      (f, rw (f, declare_locked) (lookup-put d.name d.name d c.metrics ∙ rw (eq_refl d.name) refl))
]

declare-returns :
    (module_id : String) (d : Decl) (c : Client)
    → (declare module_id d c).1 ≡ true
    → (decl_fits d ≡ true) × (declare module_id d c ≡ declare_locked module_id d c)
unfolding declare
declare-returns module_id d c h = elim (Bool-cases (decl_fits d)) [
  | inl f ↦ (f, rw f refl)
  | inr f ↦ ground (arith, f, h)
]

decl_fits-kind_dup : (d : Decl) → decl_fits d ≡ true → d.kind_dup ≡ false
unfolding decl_fits
decl_fits-kind_dup d h = ground (arith, h)

apply_all-name : (os : List (Option MetricOption)) (d : Decl) → (apply_all os d).name ≡ d.name
unfolding apply_all apply_metric
apply_all-name [] d = refl
apply_all-name (none ∷ os) d = apply_all-name os d
apply_all-name (some (kind_option k) ∷ os) d = apply_all-name os _
apply_all-name (some (aggregation x) ∷ os) d = apply_all-name os _
apply_all-name (some (unit x) ∷ os) d = apply_all-name os _
apply_all-name (some (price x) ∷ os) d = apply_all-name os _

-- A declaration that returns was new, is found under its name afterwards, is fair, and all the kinds among its
-- options are the one that was declared.
pub declare-options :
    (module_id name : String) (os : List (Option MetricOption)) (c : Client)
    → (declare module_id (decl_from_options name os) c).1 ≡ true
    → (let d = decl_from_options name os in
        (lookup name c.metrics ≡ none)
        × (lookup name (declare module_id d c).0.metrics ≡ some d)
        × IsFair d
        × All (Agrees d.kind) os)
unfolding decl_from_options
declare-options module_id name os c h =
    let d = decl_from_options name os in
    let (fits, same) = declare-returns module_id d c h in
    let (fresh, found) = declare_locked-returns module_id d c (ap (λ p. p.1) (sym same) ∙ h) in
    let (_, _, agree) = apply_all-kind os (no_options name) (decl_fits-kind_dup d fits) in
    let named = apply_all-name os (no_options name) in
    (
      subst (λ n. lookup n c.metrics ≡ none) named fresh,
      subst (λ n. lookup n (declare module_id d c).0.metrics ≡ some d) named
          (ap (λ p. lookup d.name p.0.metrics) same ∙ found),
      decl_fits-IsFair d fits,
      agree,
    )
