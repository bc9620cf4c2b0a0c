-- ===== src/Page/Tests.antt =====
-- Limits and cut pages, and instances of what is proved of them.
use app_module_sdk.Base.{
  ℕ, ◌*◌, String, ◌≡◌, refl, ◌⊎◌, true, false, Option, none, some, List, [], ◌∷◌, length,
}
use app_module_sdk.Base.Int.{pos}
use app_module_sdk.Base.Atoi.{atoi, parse_int}
use app_module_sdk.Page.{limit, new_page, max_or_default, cap}
use app_module_sdk.Page.Laws.{Tells, Resists, cap_lem}

limit_test :
    (limit "500" (pos 20) (pos 100) ≡ pos 100)
    × (limit "-3" (pos 20) (pos 100) ≡ pos 1)
    × (limit "ten" (pos 20) (pos 100) ≡ pos 20)
unfolding limit atoi parse_int
limit_test = (refl, refl, refl)

-- Ten bytes an item.
abbrev tens : List String → Option ℕ
tens items = some (length items * 10)

abbrev five : List String
five = "a" ∷ "b" ∷ "c" ∷ "d" ∷ "e" ∷ []

cap_test :
    cap tens five (pos 25) (some (λ s. s))
    ≡ record { items = "a" ∷ "b" ∷ []; next_cursor = some "b"; truncated = true; omitted = 3 }
unfolding cap
cap_test = refl

cap_lem_example :
    ((cap tens five (pos 25) (some (λ s. s)) ≡ new_page five false none) × Resists tens five)
    ⊎ Tells tens (max_or_default (pos 25)) five (cap tens five (pos 25) (some (λ s. s)))
cap_lem_example = cap_lem tens five (pos 25) (some (λ s. s))
