-- ===== src/Base/Atoi.antt =====
-- `strconv.Atoi` on a 64-bit platform, over the characters of the text.
use Prim.Native.Nat.{◌^◌}
use Prim.Native.Char.{Char, code}
use app_module_sdk.Base.{
  ℕ, ◌+◌, ◌-◌, ◌*◌, String, ◌≡◌, refl, Bool, ◌&&◌, Option, none, some, eqb, leb, arith, ◌==◌,
  if◌then◌else◌,
}
use app_module_sdk.Base.Int.{ℤ, pos, negsuc, negate}

abbrev pub is_digit : Char → Bool
is_digit c = leb 48 (code c) && leb (code c) 57

-- The digits of a non-empty rest, most significant first.
unfoldable pub digits_from : ℕ → String → Option ℕ
digits_from n String.[] = some n
digits_from n (String.◌∷◌ c s) = if is_digit c then digits_from (n * 10 + (code c - 48)) s else none

abbrev pub digits : String → Option ℕ
digits s = if s == "" then none else digits_from 0 s

-- What `Atoi` returns: a number, or an error beside the number that is returned with it.
pub data Parsed : Type 0 where
  number : ℤ → Parsed
  syntax_error : Parsed
  range_error : ℤ → Parsed

abbrev pub max_int : ℕ
max_int = 2 ^ 63 - 1

abbrev pub non_negative : Option ℕ → Parsed
non_negative none = syntax_error
non_negative (some n) = if leb n max_int then number (pos n) else range_error (pos max_int)

abbrev pub negative : Option ℕ → Parsed
negative none = syntax_error
negative (some n) = if leb n (max_int + 1) then number (negate n) else range_error (negsuc max_int)

unfoldable pub parse_int : String → Parsed
unfolding digits_from
parse_int String.[] = syntax_error
parse_int (String.◌∷◌ c s) =
    if eqb (code c) 45
    then negative (digits s)
    else if eqb (code c) 43
    then non_negative (digits s)
    else non_negative (digits (String.◌∷◌ c s))

abbrev pub checked : Parsed → Option ℤ
checked (number n) = some n
checked syntax_error = none
checked (range_error n) = none

abbrev pub value : Parsed → ℤ
value (number n) = n
value syntax_error = pos 0
value (range_error n) = n

-- `n, err := strconv.Atoi(s)`, where an error ends the caller's work on `s`.
unfoldable pub atoi : String → Option ℤ
atoi s = checked (parse_int s)

-- `n, _ := strconv.Atoi(s)`.
unfoldable pub atoi_value : String → ℤ
atoi_value s = value (parse_int s)

pub atoi_value-eq : (s : String) (n : ℤ) → atoi s ≡ some n → atoi_value s ≡ n
unfolding atoi atoi_value
atoi_value-eq s n h = ground arith

tests :
    (atoi "0012" ≡ some (pos 12))
    × (atoi "-3" ≡ some (negsuc 2))
    × (atoi "" ≡ none)
    × (atoi "1.2" ≡ none)
    × (atoi "9223372036854775808" ≡ none)
    × (atoi "+7" ≡ some (pos 7))
unfolding atoi parse_int
tests = (refl, refl, refl, refl, refl, refl)
