-- ===== src/Go/Text/Decimal.antt =====
-- Numbers are read back from their decimal texts.
use terra_worker.Prelude.{
  ℕ, zero, suc, ◌+◌, ◌-◌, ◌*◌, ◌/◌, ◌%◌, ◌<◌, ◌≡◌, ◌∙◌, refl, sym, ap, inl, inr, Char, code, String,
  none, some, arith, two64, ltb, Bool-cases,
}
use mathlib.Core.Option.{some-injective}
use terra_worker.Go.Text.{
  digit, decimal, format_uint, digits_from, natural, parse_uint, parse_uint_from,
}

pub code-digit : (d : ℕ) → d < 10 → code (digit d) ≡ b'0' + d
unfolding digit
code-digit zero h = refl
code-digit (suc zero) h = refl
code-digit (suc (suc zero)) h = refl
code-digit (suc (suc (suc zero))) h = refl
code-digit (suc (suc (suc (suc zero)))) h = refl
code-digit (suc (suc (suc (suc (suc zero))))) h = refl
code-digit (suc (suc (suc (suc (suc (suc zero)))))) h = refl
code-digit (suc (suc (suc (suc (suc (suc (suc zero))))))) h = refl
code-digit (suc (suc (suc (suc (suc (suc (suc (suc zero)))))))) h = refl
code-digit (suc (suc (suc (suc (suc (suc (suc (suc (suc zero))))))))) h = refl
code-digit (suc (suc (suc (suc (suc (suc (suc (suc (suc (suc d)))))))))) h = absurd (omega arith)

-- one digit more
digits_from-digit :
    (n d : ℕ) (out : String)
    → d < 10
    → digits_from n (String.◌∷◌ (digit d) out) ≡ digits_from (n * 10 + d) out
unfolding digits_from
digits_from-digit n d out h =
    let e : n * 10 + (b'0' + d - b'0') ≡ n * 10 + d = omega arith in
    rw (code-digit d h, e) (ground arith)

parse_uint_from-digit :
    (whole : String) (n d : ℕ) (out : String)
    → d < 10
    → n * 10 + d < two64
    → parse_uint_from whole n (String.◌∷◌ (digit d) out) ≡ parse_uint_from whole (n * 10 + d) out
unfolding parse_uint_from
parse_uint_from-digit whole n d out h fits =
    let e : n * 10 + (b'0' + d - b'0') ≡ n * 10 + d = omega arith in
    rw (code-digit d h, e) (ground arith)

digits_from-decimal :
    (fuel n : ℕ) (out : String) → n < fuel → digits_from 0 (decimal fuel n out) ≡ digits_from n out
unfolding decimal
digits_from-decimal zero n out h = absurd (omega arith)
digits_from-decimal (suc fuel) n out h = ground (
  arith,
  digits_from-digit 0 (n % 10) out,
  digits_from-digit (n / 10) (n % 10) out,
  digits_from-decimal fuel (n / 10) (String.◌∷◌ (digit (n % 10)) out),
)

parse_uint_from-decimal :
    (whole : String) (fuel n : ℕ) (out : String)
    → n < fuel
    → n < two64
    → parse_uint_from whole 0 (decimal fuel n out) ≡ parse_uint_from whole n out
unfolding decimal
parse_uint_from-decimal whole zero n out h fits = absurd (omega arith)
parse_uint_from-decimal whole (suc fuel) n out h fits = ground (
  arith,
  parse_uint_from-digit whole 0 (n % 10) out,
  parse_uint_from-digit whole (n / 10) (n % 10) out,
  parse_uint_from-decimal whole fuel (n / 10) (String.◌∷◌ (digit (n % 10)) out),
)

decimal-cons :
    (fuel n : ℕ) (out : String)
    → (c : Char) × (s : String) × (decimal (suc fuel) n out ≡ String.◌∷◌ c s)
unfolding decimal
decimal-cons zero n out = (digit (n % 10), out, ground arith)
decimal-cons (suc fuel) n out =
    let (c, s, e) = decimal-cons fuel (n / 10) (String.◌∷◌ (digit (n % 10)) out) in
    elim (Bool-cases (ltb n 10)) [
      | inl small ↦ (digit (n % 10), out, rw small)
      | inr large ↦ (c, s, rw large e)
    ]

pub format_uint-cons : (n : ℕ) → (c : Char) × (s : String) × (format_uint n ≡ String.◌∷◌ c s)
unfolding format_uint
format_uint-cons n = decimal-cons n n String.[]

parse_uint-cons :
    (s : String) (c : Char) (r : String) → s ≡ String.◌∷◌ c r → parse_uint s ≡ parse_uint_from s 0 s
unfolding parse_uint
parse_uint-cons s c r e = rw e

natural-cons :
    (s : String) (c : Char) (r : String) → s ≡ String.◌∷◌ c r → natural s ≡ digits_from 0 s
unfolding natural
natural-cons s c r e = rw e

pub natural-format_uint : (n : ℕ) → natural (format_uint n) ≡ some n
unfolding format_uint digits_from
natural-format_uint n =
    let (c, r, e) = format_uint-cons n in
    natural-cons _ c r e ∙ digits_from-decimal (suc n) n String.[] (omega arith)

-- Two numbers with the same decimal text are equal.
pub format_uint-injective : (m n : ℕ) → format_uint m ≡ format_uint n → m ≡ n
format_uint-injective m n e =
    some-injective m n (sym (natural-format_uint m) ∙ ap natural e ∙ natural-format_uint n)

-- Every uint64 is read back from the text that strconv.FormatUint prints for it, with no error.
pub parse_uint-format_uint : (n : ℕ) → n < two64 → parse_uint (format_uint n) ≡ (n, none)
unfolding format_uint parse_uint_from
parse_uint-format_uint n fits =
    let (c, r, e) = format_uint-cons n in
    parse_uint-cons _ c r e ∙ parse_uint_from-decimal _ (suc n) n String.[] (omega arith) fits
