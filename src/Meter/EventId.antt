-- ===== src/Meter/EventId.antt =====
-- meter/meter.go: `validateEventID`, on a text of one byte a character.
use Prim.Native.Char.{Char, code}
use Prim.Native.String.{len}
use Prim.Native.Nat.{◌/◌}
use app_module_sdk.Base.{
  ℕ, ◌+◌, ◌-◌, ◌*◌, String, Bool, true, false, ◌&&◌, ◌||◌, not, Option, none, some, List, [], ◌∷◌,
  ◌≡◌, refl, length, eqb, leb, if◌then◌else◌,
}

-- The character at a position, by its number; 0 past the end.
unfoldable pub code_at : ℕ → String → ℕ
code_at n String.[] = 0
code_at n (String.◌∷◌ c s) = let rest = code_at (n - 1) s in if eqb n 0 then code c else rest

-- `strings.ReplaceAll(eventID, "-", "")`
unfoldable pub compact : String → String
compact String.[] = ""
compact (String.◌∷◌ c s) =
    let rest = compact s in if eqb (code c) 45 then rest else String.◌∷◌ c rest

-- A digit of encoding/hex, of either case.
abbrev pub hex_value : Char → Option ℕ
hex_value c =
    if leb 48 (code c) && leb (code c) 57
    then some (code c - 48)
    else if leb 97 (code c) && leb (code c) 102
    then some (code c - 87)
    else if leb 65 (code c) && leb (code c) 70
    then some (code c - 55)
    else none

abbrev pub byte_of : Option ℕ → Option ℕ → Option (List ℕ) → Option (List ℕ)
byte_of (some a) (some b) (some bs) = some ((a * 16 + b) ∷ bs)
byte_of _ _ _ = none

-- `hex.DecodeString`
unfoldable pub decode_hex : String → Option (List ℕ)
decode_hex String.[] = some []
decode_hex (String.◌∷◌ c String.[]) = none
decode_hex (String.◌∷◌ c (String.◌∷◌ d s)) = byte_of (hex_value c) (hex_value d) (decode_hex s)

-- `compact != strings.ToLower(compact)`, on hexadecimal digits.
unfoldable pub has_upper : String → Bool
has_upper String.[] = false
has_upper (String.◌∷◌ c s) = (leb 65 (code c) && leb (code c) 90) || has_upper s

unfoldable pub all_zero : List ℕ → Bool
all_zero [] = true
all_zero (b ∷ bs) = eqb b 0 && all_zero bs

unfoldable pub byte_at : ℕ → List ℕ → ℕ
byte_at n [] = 0
byte_at n (b ∷ bs) = let rest = byte_at (n - 1) bs in if eqb n 0 then b else rest

-- The test of the 16 bytes: `decoded[6] >> 4` and `decoded[8] & 0xc0`.
unfoldable pub bytes_fit : List ℕ → Bool
unfolding all_zero byte_at
bytes_fit bs =
    not (all_zero bs)
    && not (eqb (byte_at 6 bs / 16) 0)
    && leb (byte_at 6 bs / 16) 8
    && eqb (byte_at 8 bs / 64) 2

decoded_fits : String → Option (List ℕ) → Bool
unfolding has_upper bytes_fit
decoded_fits s none = false
decoded_fits s (some bs) = eqb (length bs) 16 && not (has_upper s) && bytes_fit bs

-- `validateEventID` returns no error.
unfoldable pub validate_event_id : String → Bool
unfolding code_at compact decode_hex decoded_fits
validate_event_id id =
    eqb (len id) 36
    && eqb (code_at 8 id) 45
    && eqb (code_at 13 id) 45
    && eqb (code_at 18 id) 45
    && eqb (code_at 23 id) 45
    && decoded_fits (compact id) (decode_hex (compact id))

tests :
    (validate_event_id "0a1b2c3d-0000-7000-8000-000000000001" ≡ true)
    × (validate_event_id "0A1b2c3d-0000-7000-8000-000000000001" ≡ false)
    × (validate_event_id "0a1b2c3d-0000-9000-8000-000000000001" ≡ false)
    × (validate_event_id "0a1b2c3d-0000-4000-c000-000000000001" ≡ false)
    × (validate_event_id "0a1b2c3d00000-4000-8000-00000000001" ≡ false)
unfolding validate_event_id
tests = (refl, refl, refl, refl, refl)
