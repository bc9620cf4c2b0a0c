-- ===== src/Registry/Named.antt =====
-- The loop that most declarations share: a name that is already there keeps its first declaration.
use app_module_sdk.Base.{
  String, ◌≡◌, refl, inl, inr, Bool, true, false, ◌||◌, Option, none, some, List, [], ◌∷◌, ◌++◌,
  ◌==◌, arith, eq_iff, Bool-cases, All, All-append, if◌then◌else◌,
}

module _ {A : Type 0} (name : A → String) where
  -- Some declaration has the name.
  unfoldable pub named : String → List A → Bool
  named n [] = false
  named n (x ∷ xs) = name x == n || named n xs

  -- The loop and the `append` after it.
  unfoldable pub first_wins : A → List A → List A × Bool
  unfolding named
  first_wins a xs = if named (name a) xs then (xs, false) else (xs ++ a ∷ [], true)

  -- The first declaration of a name.
  unfoldable pub find_named : String → List A → Option A
  find_named n [] = none
  find_named n (x ∷ xs) = if name x == n then some x else find_named n xs

  -- No name stands twice.
  abbrev pub IsUnique : List A → Type 0
  IsUnique [] = Unit
  IsUnique (x ∷ xs) = (named (name x) xs ≡ false) × IsUnique xs

  -- One list of declarations after the other.
  pub add_all : List A → List A → List A
  unfolding first_wins
  add_all [] xs = xs
  add_all (a ∷ bs) xs = add_all bs (first_wins a xs).0

  named-append : (n : String) (xs ys : List A) → named n (xs ++ ys) ≡ (named n xs || named n ys)
  unfolding named
  named-append n [] ys = refl
  named-append n (x ∷ xs) ys = ground (arith, named-append n xs ys)

  IsUnique-snoc :
      (xs : List A) (a : A) → IsUnique xs → named (name a) xs ≡ false → IsUnique (xs ++ a ∷ [])
  unfolding named
  IsUnique-snoc [] a h e = (refl, tt)
  IsUnique-snoc (x ∷ xs) a (p, h) e = (
    ground (
      arith,
      named-append (name x) xs (a ∷ []),
      eq_iff (name a) (name x),
      eq_iff (name x) (name a),
    ),
    IsUnique-snoc xs a h (ground arith),
  )

  pub first_wins-IsUnique : (a : A) (xs : List A) → IsUnique xs → IsUnique (first_wins a xs).0
  unfolding first_wins
  first_wins-IsUnique a xs h = elim (Bool-cases (named (name a) xs)) [
    | inl e ↦ rw e h
    | inr e ↦ rw e (IsUnique-snoc xs a h e)
  ]

  pub first_wins-All {κ} :
      (P : A → Type κ) (a : A) (xs : List A) → P a → All P xs → All P (first_wins a xs).0
  unfolding first_wins
  first_wins-All P a xs p h = elim (Bool-cases (named (name a) xs)) [
    | inl e ↦ rw e h
    | inr e ↦ rw e (All-append P xs (a ∷ []) h (p, tt))
  ]

  find_named-append :
      (n : String) (xs ys : List A)
      → find_named n (xs ++ ys) ≡ (if named n xs then find_named n xs else find_named n ys)
  unfolding find_named named
  find_named-append n [] ys = refl
  find_named-append n (x ∷ xs) ys = ground (arith, find_named-append n xs ys)

  find_named-absent : (n : String) (xs : List A) → named n xs ≡ false → find_named n xs ≡ none
  unfolding find_named named
  find_named-absent n [] h = refl
  find_named-absent n (x ∷ xs) h = ground (arith, find_named-absent n xs)

  -- The effect of one addition on every name.
  pub first_wins_lem :
      (a : A) (xs : List A) (n : String)
      → (find_named n (first_wins a xs).0
          ≡ (if named n xs then find_named n xs else if name a == n then some a else none))
        × (named n (first_wins a xs).0 ≡ (named n xs || name a == n))
  unfolding first_wins find_named named
  first_wins_lem a xs n = elim (Bool-cases (named (name a) xs)) [
    | inl e ↦ rw e (
      ground (arith, eq_iff (name a) n, find_named-absent n xs),
      ground (arith, eq_iff (name a) n),
    )
    | inr e ↦ rw e (
      ground (arith, find_named-append n xs (a ∷ [])),
      ground (arith, named-append n xs (a ∷ [])),
    )
  ]

  -- After a list of declarations, one after the other, on a list of earlier ones, a name has its
  -- first declaration: that of the earlier list if it is there, else the first in the new list.
  pub find_named-add_all :
      (bs xs : List A) (n : String)
      → find_named n (add_all bs xs) ≡ (if named n xs then find_named n xs else find_named n bs)
  unfolding add_all find_named
  find_named-add_all [] xs n = ground (arith, find_named-absent n xs)
  find_named-add_all (a ∷ bs) xs n =
      ground (arith, find_named-add_all bs (first_wins a xs).0 n, first_wins_lem a xs n)
