-- ===== src/Page/Laws.antt =====
-- The bounds of a limit, and what a cut page holds.
use Prim.Native.Nat.{◌/◌}
use app_module_sdk.Base.{
  ℕ, zero, suc, ◌-◌, ◌≤◌, String, ◌≡◌, refl, ap, sym, ◌∙◌, ◌⊎◌, inl, inr, false, Option, none, some,
  List, [], ◌∷◌, ◌++◌, ◌==◌, arith, ltb, length, Bool-cases, Option-cases,
}
use mathlib.Core.List.{append-nil, append_assoc}
use app_module_sdk.Base.Int.{ℤ, pos, ◌≤ℤ◌, le_int}
use app_module_sdk.Base.Atoi.{atoi}
use app_module_sdk.Page.{
  limit, Page, take, kept, unmarshalable, new_page, truncate, cut, max_or_default, capped, cap,
}

-- With a default between 1 and the maximum, so is every limit that a request can ask for.
pub limit_bounds :
    (raw : String) (def max : ℤ)
    → pos 1 ≤ℤ def
    → def ≤ℤ max
    → (pos 1 ≤ℤ limit raw def max) × (limit raw def max ≤ℤ max)
unfolding limit
limit_bounds raw def max low high = elim (Bool-cases (raw == "")) [
  | inl absent ↦ rw absent (low, high)
  | inr present ↦ elim (Option-cases (atoi raw)) [
    | inl malformed ↦ rw (present, malformed, limit) (low, high)
    | inr (n, number) ↦ rw (present, number, limit) (ground arith, ground arith)
  ]
]

module _ {A : Type 0} where
  take-prefix : (n : ℕ) (xs : List A) → (zs : List A) × (xs ≡ take n xs ++ zs)
  unfolding take
  take-prefix zero xs = (xs, refl)
  take-prefix (suc n) [] = ([], refl)
  take-prefix (suc n) (x ∷ xs) = let (zs, e) = take-prefix n xs in (zs, ap (◌∷◌ x) e)

  length-take : (n : ℕ) (xs : List A) → length (take n xs) ≤ n
  unfolding take
  length-take zero xs = omega arith
  length-take (suc n) [] = omega arith
  length-take (suc n) (x ∷ xs) = omega (arith, length-take n xs)

module _ {A : Type 0} (size : List A → Option ℕ) where
  -- The items that are kept begin the list, and they fit or are none.
  abbrev pub Fits : ℤ → List A → List A → Type 0
  Fits max_bytes items ks =
      ((zs : List A) × (items ≡ ks ++ zs))
      × ((ks ≡ []) ⊎ ((n : ℕ) × (size ks ≡ some n) × (pos n ≤ℤ max_bytes)))

  -- Some start of the items does not marshal.
  abbrev pub Resists : List A → Type 0
  Resists items = (ks : List A) × (zs : List A) × (items ≡ ks ++ zs) × (size ks ≡ none)

  cut-Fits :
      (max_bytes : ℤ) (fuel : ℕ) (items : List A)
      → length items ≤ fuel
      → ((cut size max_bytes fuel items ≡ unmarshalable) × Resists items)
        ⊎ ((ks : List A) × (cut size max_bytes fuel items ≡ kept ks) × Fits max_bytes items ks)
  unfolding cut
  cut-Fits max_bytes fuel [] h = inr ([], refl, (([], refl), inl refl))
  cut-Fits max_bytes zero (x ∷ xs) h = absurd (omega arith)
  cut-Fits max_bytes (suc fuel) (x ∷ xs) h = elim (Option-cases (size (x ∷ xs))) [
    | inl bad ↦ inl (rw (bad, cut), (x ∷ xs, [], sym (append-nil (x ∷ xs)), bad))
    | inr (n, sized) ↦ elim (Bool-cases (le_int (pos n) max_bytes)) [
      | inl small ↦ inr (
        x ∷ xs,
        rw (sized, small, cut),
        (([], sym (append-nil (x ∷ xs))), inr (n, sized, ground arith)),
      )
      | inr large ↦
          let half = take (length (x ∷ xs) / 2) (x ∷ xs) in
          let (zs, whole) = take-prefix (length (x ∷ xs) / 2) (x ∷ xs) in
          let shorter : length half ≤ fuel =
            omega (arith, length-take (length (x ∷ xs) / 2) (x ∷ xs)) in
          elim (cut-Fits max_bytes fuel half shorter) [
            | inl (bad, (ks, ws, front, none_of)) ↦ inl (
              rw (sized, large, cut) bad,
              (ks, ws ++ zs, whole ∙ ap (λ h. h ++ zs) front ∙ append_assoc ks ws zs, none_of),
            )
            | inr (ks, e, ((ws, front), fits)) ↦ inr (
              ks,
              rw (sized, large, cut) e,
              ((ws ++ zs, whole ∙ ap (λ h. h ++ zs) front ∙ append_assoc ks ws zs), fits),
            )
          ]
    ]
  ]

  -- What a page of `items` says about them.
  abbrev pub Tells : ℤ → List A → Page A → Type 0
  Tells max_bytes items page =
      Fits max_bytes items page.items
      × (page.omitted ≡ length items - length page.items)
      × (page.truncated ≡ ltb (length page.items) (length items))

  capped-Tells :
      (max_bytes : ℤ) (items ks : List A) (cursor_of : Option (A → String))
      → Fits max_bytes items ks
      → Tells max_bytes items (capped size items cursor_of (kept ks))
  unfolding capped new_page truncate
  capped-Tells max_bytes items ks cursor_of fits =
      elim (Bool-cases (ltb 0 (length items - length ks))) [
        | inl some_left ↦ rw (some_left, capped) (fits, refl, ground arith)
        | inr none_left ↦ rw (none_left, capped) (fits, ground arith, ground arith)
      ]

  -- Some start of the items does not marshal and a capped page is the uncut page of all of them, or
  -- its items begin the list and fit the size or are none, it counts the items that it lacks, and
  -- it is marked as truncated exactly if it lacks some.
  pub cap_lem :
      (items : List A) (max_bytes : ℤ) (cursor_of : Option (A → String))
      → ((cap size items max_bytes cursor_of ≡ new_page items false none) × Resists items)
        ⊎ Tells (max_or_default max_bytes) items (cap size items max_bytes cursor_of)
  unfolding cap capped
  cap_lem items max_bytes cursor_of =
      elim (cut-Fits (max_or_default max_bytes) (length items) items (omega arith)) [
        | inl (bad, resists) ↦ inl (rw (bad, capped), resists)
        | inr (ks, e, fits) ↦
            inr (rw e (capped-Tells (max_or_default max_bytes) items ks cursor_of fits))
      ]
