-- ===== src/Page.antt =====
-- httpx/page.go: the limit of a page request, a page, and a page that is cut to a size. The size of
-- marshalled items is an argument (encoding/json).
pub mod Laws
mod Tests
use Prim.Native.Nat.{◌/◌}
use app_module_sdk.Base.{
  ℕ, zero, suc, ◌-◌, String, Bool, true, false, ◌&&◌, not, Option, none, some, List, [], ◌∷◌, ◌==◌,
  ltb, length, if◌then◌else◌,
}
use app_module_sdk.Base.Int.{ℤ, pos, lt_int, le_int}
use app_module_sdk.Base.Atoi.{atoi}

-- `Limit`, of the text of the parameter.
pub limit : String → ℤ → ℤ → ℤ
limit raw def max = if raw == "" then def else elim (atoi raw) [
  | none ↦ def
  | some n ↦ if lt_int n (pos 1) then pos 1 else if lt_int max n then max else n
]

-- The note is the number of items that were cut.
pub record Page (A : Type 0) : Type 0 where
  pub items : List A
  pub next_cursor : Option String
  pub truncated : Bool
  pub omitted : ℕ

-- xs[:n]
pub take : {A : Type 0} → ℕ → List A → List A
take zero xs = []
take (suc n) [] = []
take (suc n) (x ∷ xs) = x ∷ take n xs

-- What the loop of `Cap` came to: the items that it kept, or items that do not marshal.
pub data Cut (A : Type 0) : Type 0 where
  kept : List A → Cut A
  unmarshalable : Cut A

module _ {A : Type 0} where
  last_cursor : (A → String) → A → List A → String
  last_cursor cursor_of x [] = cursor_of x
  last_cursor cursor_of x (y ∷ ys) = last_cursor cursor_of y ys

  next_of : Bool → Option (A → String) → List A → Option String
  next_of more cursor_of [] = none
  next_of more none (x ∷ xs) = none
  next_of more (some cursor_of) (x ∷ xs) = if more then some (last_cursor cursor_of x xs) else none

  pub new_page : List A → Bool → Option (A → String) → Page A
  unfolding next_of last_cursor
  new_page items more cursor_of = record {
    items = items;
    next_cursor = next_of more cursor_of items;
    truncated = false;
    omitted = 0;
  }

  pub truncate : ℕ → Page A → Page A
  truncate omitted page = record page { truncated = true; omitted = omitted }

-- `DefaultMaxBytes` where no size is given
abbrev pub max_or_default : ℤ → ℤ
max_or_default max_bytes = if le_int max_bytes (pos 0) then pos 16384 else max_bytes

module _ {A : Type 0} (size : List A → Option ℕ) where
  -- The loop, on fuel: each round at least halves what is left.
  pub cut : ℤ → ℕ → List A → Cut A
  unfolding take
  cut max_bytes fuel [] = kept []
  cut max_bytes zero (x ∷ xs) = kept (x ∷ xs)
  cut max_bytes (suc fuel) (x ∷ xs) =
      let rest = cut max_bytes fuel (take (length (x ∷ xs) / 2) (x ∷ xs)) in
      elim (size (x ∷ xs)) [
        | none ↦ unmarshalable
        | some n ↦ if le_int (pos n) max_bytes then kept (x ∷ xs) else rest
      ]

  capped : List A → Option (A → String) → Cut A → Page A
  unfolding new_page truncate
  capped items cursor_of unmarshalable = new_page items false none
  capped items cursor_of (kept ks) =
      let dropped = length items - length ks in
      let page = new_page ks (ltb 0 dropped) cursor_of in
      if ltb 0 dropped then truncate dropped page else page

  pub cap : List A → ℤ → Option (A → String) → Page A
  unfolding capped cut
  cap items max_bytes cursor_of =
      capped items cursor_of (cut (max_or_default max_bytes) (length items) items)
