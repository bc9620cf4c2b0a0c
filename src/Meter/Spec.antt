-- ===== src/Meter/Spec.antt =====
-- meter/meter.go: the registry of metrics, seen from outside.
use app_module_sdk.Base.{
  String, ◌≡◌, refl, sym, ap, subst, ◌∙◌, inl, inr, Bool, true, false, ◌&&◌, not, Option, none,
  some, List, [], ◌∷◌, arith, ◌==◌, eq_iff, Bool-cases, Option-cases, if◌then◌else◌,
}
use app_module_sdk.Base.Dict.{lookup, lookup-put}
use app_module_sdk.Meter.{Decl, decl_fits, Client, new_client, declare_locked, declare}
use app_module_sdk.Meter.Declared.{declare_all}

-- The declaration of a name that counts: the first that fits.
unfoldable pub first_fit : String → List (String × Decl) → Option Decl
first_fit k [] = none
first_fit k ((m, d) ∷ ds) =
    let rest = first_fit k ds in if decl_fits d && d.name == k then some d else rest

-- The module that counts: the first that is named by a declaration that fits.
unfoldable pub first_module : List (String × Decl) → String
first_module [] = ""
first_module ((m, d) ∷ ds) =
    let rest = first_module ds in if decl_fits d && not (m == "") then m else rest

abbrev or_else : Option Decl → Option Decl → Option Decl
or_else none o = o
or_else (some d) o = some d

abbrev or_text : String → String → String
or_text s t = if s == "" then t else s

or_else-none : (o : Option Decl) → or_else o none ≡ o
or_else-none none = refl
or_else-none (some d) = refl

or_else_assoc : (o p q : Option Decl) → or_else (or_else o p) q ≡ or_else o (or_else p q)
or_else_assoc none p q = refl
or_else_assoc (some d) p q = refl

or_else-if :
    (b : Bool) (d : Decl) (o : Option Decl)
    → or_else (if b then some d else none) o ≡ (if b then some d else o)
or_else-if true d o = refl
or_else-if false d o = refl

or_text-if :
    (b : Bool) (m s t : String)
    → or_text (or_text s (if b then m else "")) t ≡ or_text s (if b && not (m == "") then m else t)
or_text-if true m s t = ground (arith, eq_iff s "", eq_iff m "")
or_text-if false m s t = ground (arith, eq_iff s "")

-- What one declaration does to the two views.
lookup-declare_locked :
    (k m : String) (d : Decl) (c : Client)
    → lookup k (declare_locked m d c).0.metrics
      ≡ or_else (lookup k c.metrics) (if d.name == k then some d else none)
unfolding declare_locked
lookup-declare_locked k m d c = elim (Bool-cases (d.name == k)) [
  | inl n ↦ elim (Option-cases (lookup d.name c.metrics)) [
    | inl f ↦
        let absent : lookup k c.metrics ≡ none =
          subst (λ x. lookup x c.metrics ≡ none) ((eq_iff d.name k).0 n) f in
        rw (f, declare_locked)
          (lookup-put d.name k d c.metrics ∙ rw n (sym (ap (λ o. or_else o (some d)) absent)))
    | inr (e, f) ↦
        let present : lookup k c.metrics ≡ some e =
          subst (λ x. lookup x c.metrics ≡ some e) ((eq_iff d.name k).0 n) f in
        rw (f, declare_locked)
          (present ∙ sym (ap (λ o. or_else o (if d.name == k then some d else none)) present))
  ]
  | inr n ↦ elim (Option-cases (lookup d.name c.metrics)) [
    | inl f ↦
        rw (f, declare_locked)
          (lookup-put d.name k d c.metrics ∙ rw n (sym (or_else-none (lookup k c.metrics))))
    | inr (e, f) ↦ rw (f, declare_locked, n) (sym (or_else-none (lookup k c.metrics)))
  ]
]

abbrev counted : String → Decl → Option Decl
counted k d = if decl_fits d && d.name == k then some d else none

lookup-declare :
    (k m : String) (d : Decl) (c : Client)
    → lookup k (declare m d c).0.metrics ≡ or_else (lookup k c.metrics) (counted k d)
unfolding declare
lookup-declare k m d c = elim (Bool-cases (decl_fits d)) [
  | inl f ↦ rw (f, declare) (lookup-declare_locked k m d c)
  | inr f ↦ rw (f, declare) (sym (or_else-none (lookup k c.metrics)))
]

module_id-declare_locked :
    (m : String) (d : Decl) (c : Client)
    → (declare_locked m d c).0.module_id ≡ or_text c.module_id m
unfolding declare_locked
module_id-declare_locked m d c = elim (Option-cases (lookup d.name c.metrics)) [
  | inl f ↦ rw (f, declare_locked) refl
  | inr (e, f) ↦ rw (f, declare_locked) refl
]

or_text-empty : (s : String) → or_text s "" ≡ s
or_text-empty s = ground (arith, eq_iff s "")

module_id-declare :
    (m : String) (d : Decl) (c : Client)
    → (declare m d c).0.module_id ≡ or_text c.module_id (if decl_fits d then m else "")
unfolding declare
module_id-declare m d c = elim (Bool-cases (decl_fits d)) [
  | inl f ↦ rw (f, declare) (module_id-declare_locked m d c)
  | inr f ↦ rw (f, declare) (sym (or_text-empty c.module_id))
]

lookup-declare_all :
    (k : String) (ds : List (String × Decl)) (c : Client)
    → lookup k (declare_all ds c).metrics ≡ or_else (lookup k c.metrics) (first_fit k ds)
unfolding declare_all first_fit
lookup-declare_all k [] c = sym (or_else-none (lookup k c.metrics))
lookup-declare_all k ((m, d) ∷ ds) c =
    lookup-declare_all k ds (declare m d c).0
    ∙ ap (λ o. or_else o (first_fit k ds)) (lookup-declare k m d c)
    ∙ or_else_assoc (lookup k c.metrics) (counted k d) (first_fit k ds)
    ∙ ap (or_else (lookup k c.metrics)) (or_else-if (decl_fits d && d.name == k) d (first_fit k ds))

module_id-declare_all :
    (ds : List (String × Decl)) (c : Client)
    → (declare_all ds c).module_id ≡ or_text c.module_id (first_module ds)
unfolding declare_all first_module
module_id-declare_all [] c = sym (or_text-empty c.module_id)
module_id-declare_all ((m, d) ∷ ds) c =
    module_id-declare_all ds (declare m d c).0
    ∙ ap (λ t. or_text t (first_module ds)) (module_id-declare m d c)
    ∙ or_text-if (decl_fits d) m c.module_id (first_module ds)

-- After any calls of Declare on a new client, those that panic included: under each name stands the
-- first of the declarations that fit and have that name, and the client's module is the first that
-- is not empty among those of the declarations that fit.
pub declare_all-first_fit :
    (k : String) (ds : List (String × Decl))
    → (lookup k (declare_all ds new_client).metrics ≡ first_fit k ds)
      × ((declare_all ds new_client).module_id ≡ first_module ds)
unfolding lookup
declare_all-first_fit k ds =
    (lookup-declare_all k ds new_client, module_id-declare_all ds new_client)
