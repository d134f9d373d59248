-- ===== src/Api/Amounts/Decimals.antt =====
-- The number that is read from a decimal text.
use Prim.Native.String.{len}
use mathlib.Core.Option
use terra_worker.Prelude.{
  ℕ, zero, suc, eq_iff, ◌+◌, ◌*◌, ◌-◌, ◌^◌, ◌<◌, ◌≡◌, ◌≢◌, refl, ap, ◌∙◌, inl, inr, true, false,
  String, Char, code, none, some, [], ◌∷◌, str_eq, arith, Bool-cases,
}
use terra_worker.Prelude.Int.{ℤ, pos, sub_ℕ, ◌+ℤ◌, ◌*ℤ◌}
use terra_worker.Go.Outcome.{ok}
use terra_worker.Go.Text.{is_digit, digits_from, natural, negate, set_string}
use terra_worker.Go.Text.Parts.{Lacks, join, split-join}
use terra_worker.Mapper.Bank.Currency.{set_string-digits}
use text.Mathlib.TextLemmas.{nil-append, cons-append}
use terra_worker.Mapper.Bank.{to_int32}
use terra_worker.Api.Amounts.{power_of_ten, add_fraction, behind_point, of_parts, gett_int_and_exp}

digits_from-first :
    (n : ℕ) (c : Char) (s : String) (a : ℕ)
    → digits_from n (String.◌∷◌ c s) ≡ some a
    → (is_digit (code c) ≡ true) × (digits_from (n * 10 + (code c - b'0')) s ≡ some a)
unfolding digits_from
digits_from-first n c s a h = elim (Bool-cases (is_digit (code c))) [
  | inl digit ↦
      let rest : digits_from (n * 10 + (code c - b'0')) s ≡ some a = rw digit at h in (digit, rest)
  | inr other ↦ let impossible : none ≡ some a = rw other at h in absurd (cc)
]

point_free : (c : ℕ) → is_digit c ≡ true → c ≢ b'.'
unfolding is_digit
point_free c h = ground arith

digits_from-Lacks : (s : String) (n a : ℕ) → digits_from n s ≡ some a → Lacks b'.' s
digits_from-Lacks String.[] n a h = tt
digits_from-Lacks (String.◌∷◌ c s) n a h =
    let (digit, rest) = digits_from-first n c s a h in
    (point_free (code c) digit, digits_from-Lacks s _ a rest)

natural-Lacks : (s : String) (a : ℕ) → natural s ≡ some a → Lacks b'.' s
unfolding natural
natural-Lacks String.[] a h = tt
natural-Lacks (String.◌∷◌ c s) a h = digits_from-Lacks (String.◌∷◌ c s) 0 a h

set_string-natural : (s : String) (a : ℕ) → natural s ≡ some a → set_string s ≡ some (pos a)
unfolding natural
set_string-natural String.[] a h = cc
set_string-natural (String.◌∷◌ c s) a h =
    set_string-digits (String.◌∷◌ c s) c s refl (digits_from-first 0 c s a h).0
    ∙ ap (Option.map pos) h

set_string-minus :
    (s : String) (a : ℕ) → natural s ≡ some a → set_string (String.◌∷◌ "-" s) ≡ some (negate a)
unfolding set_string
set_string-minus s a h = rw h refl

not_nil : (c : Char) (s : String) → str_eq (String.◌∷◌ c s) "" ≡ false
not_nil c s = elim (Bool-cases (str_eq (String.◌∷◌ c s) "")) [
  | inl same ↦ let e = (eq_iff (String.◌∷◌ c s) "").0 same in absurd (cc)
  | inr other ↦ other
]

not_empty : (w f : String) → str_eq (join "." (w ∷ f ∷ [])) "" ≡ false
unfolding join
not_empty String.[] f = rw nil-append (not_nil "." f)
not_empty (String.◌∷◌ c w) f = rw cons-append (not_nil c _)

to_int32-small : (n : ℕ) → n < 2 ^ 31 → to_int32 n ≡ n
to_int32-small n h = omega arith

power_of_ten-small : (n : ℕ) → n < 2 ^ 31 → power_of_ten n ≡ 10 ^ n
unfolding power_of_ten
power_of_ten-small n h = ground arith

-- a text with one point, whose parts are read
gett_int_and_exp-point :
    (w f : String) (z : ℤ) (b : ℕ)
    → Lacks b'.' w
    → set_string w ≡ some z
    → natural f ≡ some b
    → 0 < b
    → len f < 2 ^ 31
    → gett_int_and_exp (join "." (w ∷ f ∷ [])) ≡ ok ((z *ℤ pos (10 ^ len f)) +ℤ pos b, len f)
unfolding gett_int_and_exp of_parts behind_point add_fraction
gett_int_and_exp-point w f z b hw hz hf positive short =
    rw
      (
        split-join "." w (f ∷ []) (hw, (natural-Lacks f b hf, tt)),
        hz,
        set_string-natural f b hf,
        not_empty w f,
      )
      (ground arith)

minus_point : code "-" ≢ b'.'
minus_point e = absurd (omega arith)

mul_pos : (a p : ℕ) → pos a *ℤ pos p ≡ pos (a * p)
unfolding ◌*ℤ◌
mul_pos a p = ground arith

add_pos : (a b : ℕ) → pos a +ℤ pos b ≡ pos (a + b)
unfolding ◌+ℤ◌
add_pos a b = ground arith

mul_negate : (a p : ℕ) → negate a *ℤ pos p ≡ sub_ℕ 0 (a * p)
unfolding ◌*ℤ◌
mul_negate zero p = ground arith
mul_negate (suc n) p = ground arith

add_negative : (x b : ℕ) → sub_ℕ 0 x +ℤ pos b ≡ sub_ℕ b x
unfolding ◌+ℤ◌
add_negative x b = ground arith

-- A text of digits, a point and digits, of which those behind the point are fewer than 2^31 and
-- stand for a number above 0, is read as the number that the digits stand for without the point,
-- and the number of digits behind it.
pub gett_int_and_exp-decimal :
    (w f : String) (a b : ℕ)
    → natural w ≡ some a
    → natural f ≡ some b
    → 0 < b
    → len f < 2 ^ 31
    → gett_int_and_exp (join "." (w ∷ f ∷ [])) ≡ ok (pos (a * 10 ^ len f + b), len f)
gett_int_and_exp-decimal w f a b hw hf positive short =
    gett_int_and_exp-point w f (pos a) b (natural-Lacks w a hw) (set_string-natural w a hw) hf
      positive short
    ∙ ap (λ z. ok (z, len f))
        (ap (λ z. z +ℤ pos b) (mul_pos a (10 ^ len f)) ∙ add_pos (a * 10 ^ len f) b)

-- With a minus sign in front of such a text, the number behind the point is added where it has to
-- be subtracted: the result is the digits behind the point less those before it, moved by as many
-- places.
pub gett_int_and_exp-negative :
    (w f : String) (a b : ℕ)
    → natural w ≡ some a
    → natural f ≡ some b
    → 0 < b
    → len f < 2 ^ 31
    → gett_int_and_exp (join "." (String.◌∷◌ "-" w ∷ f ∷ [])) ≡ ok (sub_ℕ b (a * 10 ^ len f), len f)
gett_int_and_exp-negative w f a b hw hf positive short =
    let minus : Lacks b'.' (String.◌∷◌ "-" w) = ((minus_point), natural-Lacks w a hw) in
    gett_int_and_exp-point (String.◌∷◌ "-" w) f (negate a) b minus (set_string-minus w a hw) hf
      positive short
    ∙ ap (λ z. ok (z, len f))
        (ap (λ z. z +ℤ pos b) (mul_negate a (10 ^ len f)) ∙ add_negative (a * 10 ^ len f) b)
