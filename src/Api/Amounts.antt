-- ===== src/Api/Amounts.antt =====
-- `gettIntAndExp` of api/delegations.go: a decimal text as a whole number and a number of decimals.
pub mod Decimals
mod Examples
use Prim.Native.String.{len}
use terra_worker.Prelude.{
  ℕ, ◌^◌, String, Bool, true, false, Option, none, some, List, [], ◌∷◌, ltb, ◌==◌, str_eq,
  if◌then◌else◌,
}
use terra_worker.Prelude.Int.{ℤ, pos, negsuc, ◌+ℤ◌, ◌*ℤ◌}
use terra_worker.Go.Outcome.{Outcome, ok, err, panic, message}
use terra_worker.Go.Text.{split, set_string}
use terra_worker.Mapper.Bank.{to_int32}

-- dec.Cmp(big.NewInt(0)) == 0
unfoldable pub is_zero : ℤ → Bool
is_zero (pos n) = n == 0
is_zero (negsuc n) = false

-- new(big.Int).Exp(tenInt, big.NewInt(int64(exp)), nil), which is 1 for an exponent below 0
unfoldable pub power_of_ten : ℕ → ℕ
power_of_ten exp = if ltb exp (2 ^ 31) then 10 ^ exp else 1

unfoldable pub add_fraction : ℤ → String → Option ℤ → Outcome (ℤ × ℕ)
unfolding is_zero power_of_ten
add_fraction intgr dec_part none = err (message "foo")
add_fraction intgr dec_part (some dec) =
    let exp = to_int32 (len dec_part) in
    if is_zero dec then ok (intgr, 0) else ok ((intgr *ℤ pos (power_of_ten exp)) +ℤ dec, exp)

-- what follows when parts[0] was read, by the other parts
unfoldable pub behind_point : Option ℤ → List String → Outcome (ℤ × ℕ)
unfolding add_fraction
behind_point none parts = err (message "foo")
behind_point (some intgr) [] = ok (intgr, 0)
behind_point (some intgr) (dec_part ∷ []) = add_fraction intgr dec_part (set_string dec_part)
behind_point (some intgr) (_ ∷ _ ∷ _) = err (message "foo")

unfoldable pub of_parts : List String → Outcome (ℤ × ℕ)
unfolding behind_point
of_parts [] = panic
of_parts (intgr_part ∷ parts) = behind_point (set_string intgr_part) parts

unfoldable pub gett_int_and_exp : String → Outcome (ℤ × ℕ)
unfolding of_parts
gett_int_and_exp s = if str_eq s "" then err (message "foo") else of_parts (split s b'.')
