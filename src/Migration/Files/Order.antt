-- ===== src/Migration/Files/Order.antt =====
-- Insertion by number is one sort that `List` can be run with.
use app_module_sdk.Base.{
  ◌+◌, String, ◌≡◌, refl, ◌≢◌, List, [], ◌∷◌, ◌==◌, arith, eq_refl, Bool-cases, inl, inr,
  if◌then◌else◌,
}
use app_module_sdk.Base.Int.{ℤ, ◌≤ℤ◌, le_int}
use app_module_sdk.Base.Atoi.{atoi_value}
use app_module_sdk.Migration.Files.{count, IsAscendingText, VersionSort}

insert : String → List String → List String
insert v [] = v ∷ []
insert v (w ∷ ws) =
    let rest = insert v ws in if le_int (atoi_value v) (atoi_value w) then v ∷ w ∷ ws else w ∷ rest

unfoldable pub insertion_sort : List String → List String
unfolding insert
insertion_sort [] = []
insertion_sort (v ∷ vs) = insert v (insertion_sort vs)

count-insert :
    (v w : String) (ws : List String)
    → count v (insert w ws) ≡ (if w == v then 1 else 0) + count v ws
unfolding insert count
count-insert v w [] = refl
count-insert v w (x ∷ ws) = ground (arith, count-insert v w ws)

pub count-insertion_sort :
    (v : String) (vs : List String) → count v (insertion_sort vs) ≡ count v vs
unfolding insertion_sort count
count-insertion_sort v [] = refl
count-insertion_sort v (w ∷ vs) =
    ground (arith, count-insert v w (insertion_sort vs), count-insertion_sort v vs)

insert-IsAscendingText :
    (lo : ℤ) (v : String) (ws : List String)
    → lo ≤ℤ atoi_value v
    → IsAscendingText lo ws
    → IsAscendingText lo (insert v ws)
unfolding insert
insert-IsAscendingText lo v [] p h = (p, tt)
insert-IsAscendingText lo v (w ∷ ws) p (q, h) =
    elim (Bool-cases (le_int (atoi_value v) (atoi_value w))) [
      | inl below ↦ rw below (p, (ground arith, h))
      | inr above ↦ rw above (q, insert-IsAscendingText (atoi_value w) v ws (ground arith) h)
    ]

pub ascends :
    (vs : List String) (lo : ℤ)
    → ((v : String) → count v vs ≢ 0 → lo ≤ℤ atoi_value v)
    → IsAscendingText lo (insertion_sort vs)
unfolding insertion_sort count
ascends [] lo h = tt
ascends (v ∷ vs) lo h =
    insert-IsAscendingText lo v (insertion_sort vs) (h v (ground (arith, eq_refl v)))
      (ascends vs lo (λ w n. h w (ground arith)))

abbrev pub by_insertion : VersionSort
by_insertion = record { sorted = insertion_sort; keeps = count-insertion_sort; ascends = ascends }
