-- ===== src/Migration/Slices.antt =====
-- `Slice` and `SliceDown` as the lifecycle handlers call them.
use mathlib.Core.List.{reverse-cons, reverse-reverse, append-nil}
use mathlib.Core.Path.{fun_ext}
use app_module_sdk.Base.{
  String, ◌≡◌, refl, sym, ap, ◌∙◌, subst, ◌⊎◌, inl, inr, ◌≢◌, Bool, true, false, some, List, [],
  ◌∷◌, ◌++◌, reverse, ◌==◌, eq_iff, arith, Bool-cases, All, Option-cases, eq_of_test,
}
use app_module_sdk.Base.Int.{ℤ, pos, negsuc, ◌≤ℤ◌, ◌<ℤ◌, le_int, eq_int}
use app_module_sdk.Base.Atoi.{atoi, atoi_value, atoi_value-eq}
use app_module_sdk.Migration.{
  Migration, Result, ok, err, ◌>>=◌, select, version_int, version_exists, in_upgrade, slice,
  in_downgrade, slice_down,
}
use app_module_sdk.Migration.Window.{IsAscending, upgrade_windows}

-- A chain that ends in a value has one at its first step.
ok_before :
    {A B : Type 0} {end : B} (continue : A → Result B) (begin : Result A)
    → begin >>= continue ≡ ok end
    → (x : A) × (continue x ≡ ok end) × (begin ≡ ok x)
ok_before continue (err e) chain = cc
ok_before continue (ok x) chain = (x, chain, refl)

-- A successful `Slice` knew its target, and is a window of the list.
pub slice-eq-ok :
    (ms : List Migration) (from to : String) {xs : List Migration}
    → slice ms from to ≡ ok xs
    → (a : ℤ) × (b : ℤ) × (version_int from ≡ ok a)
      × (version_int to ≡ ok b)
      × ((to ≡ "") ⊎ (version_exists ms to ≡ true))
      × (select (in_upgrade a b) ms ≡ xs)
unfolding slice
slice-eq-ok ms from to h =
    let (a, h', pa) = ok_before _ (version_int from) h in
    let (b, h'', pb) = ok_before _ (version_int to) h' in
    (a, b, pa, pb, ground (arith, eq_iff to ""), ground arith)

slice_of :
    (ms : List Migration) (from to : String) (a b : ℤ)
    → version_int from ≡ ok a
    → version_int to ≡ ok b
    → (to ≡ "") ⊎ (version_exists ms to ≡ true)
    → slice ms from to ≡ ok (select (in_upgrade a b) ms)
unfolding slice
slice_of ms from to a b pa pb known = rw (pa, pb) (ground (arith, eq_iff to ""))

-- A successful `SliceDown` knew its start, and is a window of the reversed list.
slice_down-eq-ok :
    (ms : List Migration) (from to : String) {xs : List Migration}
    → slice_down ms from to ≡ ok xs
    → (a : ℤ) × (b : ℤ) × (version_int from ≡ ok a)
      × (version_int to ≡ ok b)
      × (b <ℤ a)
      × (version_exists ms from ≡ true)
      × (select (in_downgrade a b) (reverse ms) ≡ xs)
unfolding slice_down
slice_down-eq-ok ms from to h =
    let (a, h', pa) = ok_before _ (version_int from) h in
    let (b, h'', pb) = ok_before _ (version_int to) h' in
    (a, b, pa, pb, ground arith, ground arith, ground arith)

atoi_of_version : (v : String) (n : ℤ) → v ≢ "" → version_int v ≡ ok n → atoi v ≡ some n
unfolding version_int
atoi_of_version v n ne h = elim (Option-cases (atoi v)) [
  | inl e ↦ absurd (ground (arith, eq_iff v ""))
  | inr (k, e) ↦ ground (arith, eq_iff v "")
]

pub version_exists-nonneg :
    (ms : List Migration) (lo : ℤ) (v : String)
    → IsAscending lo ms
    → pos 0 ≤ℤ lo
    → version_exists ms v ≡ true
    → pos 0 ≤ℤ atoi_value v
unfolding version_exists
version_exists-nonneg [] lo v asc z h = cc
version_exists-nonneg (m ∷ ms) lo v (p, asc) z h = elim (Bool-cases (m.version == v)) [
  | inl e ↦ subst (λ t. pos 0 ≤ℤ atoi_value t) (eq_of_test m.version v e) (omega arith)
  | inr e ↦ version_exists-nonneg ms (atoi_value m.version) v asc (omega arith) (rw e at h)
]

-- The number of a version that the list has.
known_nonneg :
    (ms : List Migration) (v : String) {n : ℤ}
    → IsAscending (pos 0) ms
    → v ≢ ""
    → version_exists ms v ≡ true
    → version_int v ≡ ok n
    → pos 0 ≤ℤ n
known_nonneg ms v {n} asc ne known h =
    let e : atoi_value v ≡ n = atoi_value-eq v n (atoi_of_version v n ne h) in
    subst (λ t. pos 0 ≤ℤ t) e (version_exists-nonneg ms (pos 0) v asc (omega arith) known)

pub ok-injective : {A : Type 0} {a b : A} → ok a ≡ ok b → a ≡ b
ok-injective h = cc

-- In a list in the order of its numbers, none of them negative: where the upgrades from a version
-- to a named one that is no lower, and from there to one that is no lower, have slices, the upgrade
-- over the whole range has the first slice followed by the second.
pub slices_add :
    (ms : List Migration) (from mid to : String) (a b c : ℤ) (xs ys : List Migration)
    → IsAscending (pos 0) ms
    → version_int from ≡ ok a
    → version_int mid ≡ ok b
    → version_int to ≡ ok c
    → a ≤ℤ b
    → b ≤ℤ c
    → mid ≢ ""
    → slice ms from mid ≡ ok xs
    → slice ms mid to ≡ ok ys
    → slice ms from to ≡ ok (xs ++ ys)
slices_add ms from mid to a b c xs ys asc pa pb pc h k ne p q =
    let (a', b', pa', pb', known, ex) = slice-eq-ok ms from mid p in
    let (b'', c', pb'', pc', target, ey) = slice-eq-ok ms mid to q in
    let nonneg : pos 0 ≤ℤ b = elim known [
      | inl e ↦ absurd (ne e)
      | inr e ↦ known_nonneg ms mid asc ne e pb
    ] in
    let ea : a' ≡ a = ok-injective (sym pa' ∙ pa) in
    let eb : b' ≡ b = ok-injective (sym pb' ∙ pb) in
    let eb' : b'' ≡ b = ok-injective (sym pb'' ∙ pb) in
    let ec : c' ≡ c = ok-injective (sym pc' ∙ pc) in
    slice_of ms from to a c pa pc target
    ∙ ap ok (
        sym (upgrade_windows a b c (pos 0) ms h k (ground arith) asc)
        ∙ cc (ea, eb, eb', ec, ex, ey))

select-append :
    (p : Migration → Bool) (xs ys : List Migration)
    → select p (xs ++ ys) ≡ select p xs ++ select p ys
unfolding select
select-append p [] ys = refl
select-append p (x ∷ xs) ys = ground (arith, select-append p xs ys)

select-reverse :
    (p : Migration → Bool) (xs : List Migration) → select p (reverse xs) ≡ reverse (select p xs)
unfolding select
select-reverse p [] = refl
select-reverse p (x ∷ xs) =
    rw (reverse-cons x xs, select-append p (reverse xs) (x ∷ []), select-reverse p xs)
      (ground (arith, reverse-cons x (select p xs), append-nil (reverse (select p xs))))

-- The two tests agree, but for the bound -1 of an upgrade.
in_downgrade-eq :
    (a b : ℤ) (m : Migration) → eq_int a (negsuc 0) ≡ false → in_downgrade a b m ≡ in_upgrade b a m
unfolding in_downgrade in_upgrade
in_downgrade-eq a b m h = elim (Option-cases (atoi m.version)) [
  | inl e ↦ rw (e, in_upgrade, in_downgrade)
  | inr (n, e) ↦ rw (e, in_upgrade, in_downgrade) (ground arith)
]

-- In a list in the order of its numbers, none of them negative: what a downgrade from a named
-- version reverts is what the upgrade between the same versions applies, last first.
pub slice_down-slice :
    (ms : List Migration) (from to : String) (xs : List Migration)
    → IsAscending (pos 0) ms
    → from ≢ ""
    → slice_down ms from to ≡ ok xs
    → slice ms to from ≡ ok (reverse xs)
slice_down-slice ms from to xs asc ne h =
    let (a, b, pa, pb, lt, known, e) = slice_down-eq-ok ms from to h in
    let nonneg = known_nonneg ms from asc ne known pa in
    let same : in_downgrade a b ≡ in_upgrade b a =
      fun_ext (λ m. in_downgrade-eq a b m (ground arith)) in
    slice_of ms to from b a pb pa (inr known)
    ∙ ap ok (
        ap (λ p. select p ms) (sym same)
        ∙ sym (reverse-reverse (select (in_downgrade a b) ms))
        ∙ ap reverse (sym (select-reverse (in_downgrade a b) ms) ∙ e))

-- The other way round: where an upgrade to a known version has a slice, the downgrade from there
-- has its reverse.
pub slice-slice_down :
    (ms : List Migration) (from to : String) (a b : ℤ) (xs : List Migration)
    → IsAscending (pos 0) ms
    → version_int from ≡ ok a
    → version_int to ≡ ok b
    → to ≢ ""
    → a <ℤ b
    → slice ms from to ≡ ok xs
    → slice_down ms to from ≡ ok (reverse xs)
unfolding slice_down
slice-slice_down ms from to a b xs asc pa pb ne lt h =
    let (a', b', pa', pb', target, e) = slice-eq-ok ms from to h in
    let known : version_exists ms to ≡ true = elim target [ inl p ↦ absurd (ne p) | inr p ↦ p ] in
    let nonneg = known_nonneg ms to asc ne known pb in
    let same : in_downgrade b a ≡ in_upgrade a b =
      fun_ext (λ m. in_downgrade-eq b a m (ground arith)) in
    let ea : a' ≡ a = ok-injective (sym pa' ∙ pa) in
    let eb : b' ≡ b = ok-injective (sym pb' ∙ pb) in
    let window : select (in_upgrade a b) ms ≡ xs = cc (ea, eb, e) in
    let above : le_int b a ≡ false = ground arith in
    rw (pa, pb, above, known)
      (ap ok
        (select-reverse (in_downgrade b a) ms ∙ ap reverse (ap (λ p. select p ms) same ∙ window)))

select-All {ℓ} :
    (P : Migration → Type ℓ) (p : Migration → Bool) (ms : List Migration)
    → All P ms
    → All P (select p ms)
unfolding select
select-All P p [] h = tt
select-All P p (m ∷ ms) (q, h) = elim (Bool-cases (p m)) [
  | inl keep ↦ rw keep (q, select-All P p ms h)
  | inr drop ↦ rw drop (select-All P p ms h)
]

-- A slice has nothing that the list does not have.
pub slice-All {ℓ} :
    (P : Migration → Type ℓ) (ms : List Migration) (from to : String) (xs : List Migration)
    → All P ms
    → slice ms from to ≡ ok xs
    → All P xs
slice-All P ms from to xs h e =
    let (a, b, _, _, _, w) = slice-eq-ok ms from to e in
    subst (All P) w (select-All P (in_upgrade a b) ms h)
