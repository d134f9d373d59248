-- ===== src/Go/Text.antt =====
-- Texts: strings.Split, strings.Replace, strconv and the decimal texts of math/big.
pub mod Decimal
pub mod Parts
use terra_worker.Prelude.{
  ℕ, zero, suc, ◌+◌, ◌-◌, ◌*◌, ◌/◌, ◌%◌, ◌^◌, Char, code, String, Bool, ◌&&◌, Option, none, some,
  List, [], ◌∷◌, ltb, leb, ◌==◌, if◌then◌else◌,
}
use mathlib.Core.Option
use terra_worker.Prelude.Int.{ℤ, pos, negsuc}
use terra_worker.Go.Outcome.{GoError, syntax, range}

-- put a character in front of the first part
unfoldable pub onto_first : Char → List String → List String
onto_first c [] = String.◌∷◌ c String.[] ∷ []
onto_first c (p ∷ ps) = String.◌∷◌ c p ∷ ps

-- strings.Split at a separator of one character: there is always a part
unfoldable pub split : String → ℕ → List String
unfolding onto_first
split String.[] sep = String.[] ∷ []
split (String.◌∷◌ c s) sep =
    if code c == sep then String.[] ∷ split s sep else onto_first c (split s sep)

-- strings.Replace of one character by another, everywhere
unfoldable pub replace : String → ℕ → Char → String
replace String.[] old new = String.[]
replace (String.◌∷◌ c s) old new = String.◌∷◌ (if code c == old then new else c) (replace s old new)

unfoldable pub is_digit : ℕ → Bool
is_digit c = leb b'0' c && leb c b'9'

-- reading digits behind the number `n`; a text that holds anything else is refused
unfoldable pub digits_from : ℕ → String → Option ℕ
unfolding is_digit
digits_from n String.[] = some n
digits_from n (String.◌∷◌ c s) =
    if is_digit (code c) then digits_from (n * 10 + (code c - b'0')) s else none

-- one digit or more
unfoldable pub natural : String → Option ℕ
unfolding digits_from
natural String.[] = none
natural (String.◌∷◌ c s) = digits_from 0 (String.◌∷◌ c s)

abbrev pub negate : ℕ → ℤ
negate zero = pos zero
negate (suc n) = negsuc n

-- new(big.Int).SetString(s, 10): a sign may stand in front of the digits
unfoldable pub set_string : String → Option ℤ
unfolding natural
set_string String.[] = none
set_string (String.◌∷◌ c s) =
    if code c == b'-'
    then Option.map negate (natural s)
    else if code c == b'+'
    then Option.map pos (natural s)
    else Option.map pos (natural (String.◌∷◌ c s))

-- strconv.ParseUint(s, 10, 64) returns a number beside the error: 0 for a text that is no number,
-- and the largest uint64 for a number that does not fit.
unfoldable pub parse_uint_from : String → ℕ → String → ℕ × Option GoError
unfolding is_digit
parse_uint_from whole n String.[] = (n, none)
parse_uint_from whole n (String.◌∷◌ c s) =
    let m = n * 10 + (code c - b'0') in
    let rest = parse_uint_from whole m s in
    if is_digit (code c)
    then (if ltb m (2 ^ 64) then rest else (2 ^ 64 - 1, some (range whole)))
    else (0, some (syntax whole))

unfoldable pub parse_uint : String → ℕ × Option GoError
unfolding parse_uint_from
parse_uint String.[] = (0, some (syntax String.[]))
parse_uint (String.◌∷◌ c s) = parse_uint_from (String.◌∷◌ c s) 0 (String.◌∷◌ c s)

unfoldable pub digit : ℕ → Char
digit zero = "0"
digit (suc zero) = "1"
digit (suc (suc zero)) = "2"
digit (suc (suc (suc zero))) = "3"
digit (suc (suc (suc (suc zero)))) = "4"
digit (suc (suc (suc (suc (suc zero))))) = "5"
digit (suc (suc (suc (suc (suc (suc zero)))))) = "6"
digit (suc (suc (suc (suc (suc (suc (suc zero))))))) = "7"
digit (suc (suc (suc (suc (suc (suc (suc (suc zero)))))))) = "8"
digit _ = "9"

-- the digits of `n` in front of a text; each round of the loop divides by ten
unfoldable pub decimal : ℕ → ℕ → String → String
unfolding digit
decimal zero n out = out
decimal (suc fuel) n out =
    let out' = String.◌∷◌ (digit (n % 10)) out in
    let rest = decimal fuel (n / 10) out' in if ltb n 10 then out' else rest

-- strconv.FormatUint(n, 10), and strconv.Itoa of a number that is not negative
unfoldable pub format_uint : ℕ → String
unfolding decimal
format_uint n = decimal (suc n) n String.[]
