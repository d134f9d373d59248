-- ===== src/Mapper/Bank/Currency.antt =====
-- What curencyRegex and getCoin read from the text of an amount.
use mathlib.Core.Option
use Prim.Native.String.{◌++◌ as append}
use text.Mathlib.TextLemmas.{nil-append, cons-append}
use terra_worker.Prelude.{
  ℕ, zero, suc, ◌%◌, ◌/◌, ◌<◌, ◌≡◌, ◌≢◌, refl, Char, code, String, true, false, some, [], ◌∷◌,
  arith, ltb, Bool-cases, inl, inr,
}
use terra_worker.Prelude.Int.{pos}
use terra_worker.Go.Outcome.{ok}
use terra_worker.Go.Text.{replace, is_digit, set_string, digit, decimal, format_uint, natural}
use terra_worker.Go.Text.Decimal.{code-digit, natural-format_uint, format_uint-cons}
use terra_worker.Go.Text.Parts.{AllChars, Lacks, split-nil}
use terra_worker.External.{External}
use terra_worker.Mapper.Bank.{
  is_number_char, is_unit_char, skip_spaces, all_unit_chars, whole_unit, match_unit, match_number,
  get_currency, coin_of_parts, get_coin,
}

abbrev IsNumberChar : ℕ → Type 0
IsNumberChar c = is_number_char c ≡ true

abbrev IsUnitChar : ℕ → Type 0
IsUnitChar c = is_unit_char c ≡ true

-- A currency: characters that are no digits and no spaces, the first of them no '.', ',' or '-'.
abbrev pub IsUnit : String → Type 0
IsUnit String.[] = ⊥
IsUnit (String.◌∷◌ c s) =
    IsUnitChar (code c) × (is_number_char (code c) ≡ false) × AllChars IsUnitChar s

all_unit_chars-AllChars : (s : String) → AllChars IsUnitChar s → all_unit_chars s ≡ true
unfolding all_unit_chars
all_unit_chars-AllChars String.[] h = refl
all_unit_chars-AllChars (String.◌∷◌ c s) (hc, hs) = rw hc (all_unit_chars-AllChars s hs)

skip_spaces-unit :
    (c : Char) (s : String) → IsUnitChar (code c) → skip_spaces (String.◌∷◌ c s) ≡ String.◌∷◌ c s
unfolding skip_spaces is_unit_char
skip_spaces-unit c s h = ground arith

match_unit-IsUnit : (u : String) → IsUnit u → match_unit u ≡ some u
unfolding match_unit whole_unit
match_unit-IsUnit String.[] h = elim h [ ]
match_unit-IsUnit (String.◌∷◌ c s) (hc, hn, hs) =
    rw (skip_spaces-unit c s hc, all_unit_chars-AllChars (String.◌∷◌ c s) (hc, hs))

match_number-append :
    (n u : String) → AllChars IsNumberChar n → IsUnit u → match_number (append n u) ≡ some (n, u)
unfolding match_number
match_number-append String.[] String.[] hn hu = elim hu [ ]
match_number-append String.[] (String.◌∷◌ c s) hn (hc, hd, hs) =
    rw (nil-append, hd, match_unit-IsUnit (String.◌∷◌ c s) (hc, hd, hs))
match_number-append (String.◌∷◌ c n) u (hc, hn) hu =
    rw (cons-append, hc, match_number-append n u hn hu)

-- On digits, dots, commas and minus signs, at least one, followed by a currency, the regular
-- expression matches the whole text, its first group is the number and its second the currency. A
-- currency has no digit and no space, and does not begin with a dot, a comma or a minus sign.
pub get_currency-append :
    (n u : String)
    → n ≢ ""
    → AllChars IsNumberChar n
    → IsUnit u
    → get_currency (append n u) ≡ append n u ∷ n ∷ u ∷ []
unfolding get_currency
get_currency-append String.[] u h hn hu = absurd (h refl)
get_currency-append (String.◌∷◌ c n) u h (hc, hn) hu =
    rw (cons-append, hc, match_number-append n u hn hu)

is_digit-digit : (d : ℕ) → d < 10 → is_digit (code (digit d)) ≡ true
unfolding is_digit
is_digit-digit d h = rw (code-digit d h) (ground arith)

-- the digits of a printed number
AllChars-decimal :
    (fuel n : ℕ) (out : String)
    → AllChars (λ c. is_digit c ≡ true) out
    → AllChars (λ c. is_digit c ≡ true) (decimal fuel n out)
unfolding decimal
AllChars-decimal zero n out h = h
AllChars-decimal (suc fuel) n out h =
    let h' : AllChars (λ c. is_digit c ≡ true) (String.◌∷◌ (digit (n % 10)) out) =
      (is_digit-digit (n % 10) (omega arith), h) in
    elim (Bool-cases (ltb n 10)) [
      | inl small ↦ rw small h'
      | inr large ↦ rw large (AllChars-decimal fuel (n / 10) (String.◌∷◌ (digit (n % 10)) out) h')
    ]

pub AllChars-format_uint : (n : ℕ) → AllChars (λ c. is_digit c ≡ true) (format_uint n)
unfolding format_uint
AllChars-format_uint n = AllChars-decimal (suc n) n String.[] tt

pub AllChars-map :
    (P Q : ℕ → Type 0) → ((c : ℕ) → P c → Q c) → (s : String) → AllChars P s → AllChars Q s
AllChars-map P Q f String.[] h = tt
AllChars-map P Q f (String.◌∷◌ c s) (hc, hs) = (f (code c) hc, AllChars-map P Q f s hs)

pub digit_ne : (sep : ℕ) → sep < b'0' → (c : ℕ) → is_digit c ≡ true → c ≢ sep
unfolding is_digit
digit_ne sep h c d = ground arith

replace-Lacks : (s : String) (old : ℕ) (new : Char) → Lacks old s → replace s old new ≡ s
unfolding replace
replace-Lacks String.[] old new h = refl
replace-Lacks (String.◌∷◌ c s) old new (hc, hs) = ground (arith, replace-Lacks s old new hs)

pub set_string-digits :
    (s : String) (c : Char) (r : String)
    → s ≡ String.◌∷◌ c r
    → is_digit (code c) ≡ true
    → set_string s ≡ Option.map pos (natural s)
unfolding set_string is_digit
set_string-digits s c r e h = rw e (ground arith)

-- gcf
pub get_coin-format_uint : (ext : External) (n : ℕ) → get_coin ext (format_uint n) ≡ ok (pos n, 0)
unfolding get_coin coin_of_parts
get_coin-format_uint ext n =
    let s = format_uint n in
    let digits = AllChars-format_uint n in
    let (c, r, e) = format_uint-cons n in
    let first = rw e at digits in
    let no_comma = AllChars-map _ _ (digit_ne b',' (omega arith)) s digits in
    let no_dot = AllChars-map _ _ (digit_ne b'.' (omega arith)) s digits in
    rw (
      replace-Lacks s b',' "." no_comma,
      split-nil s b'.' no_dot,
      set_string-digits s c r e first.0,
      natural-format_uint,
    )

pub digit_number : (c : ℕ) → is_digit c ≡ true → is_number_char c ≡ true
unfolding is_number_char
digit_number c h = ground arith
