-- ===== src/Api/Amounts/Examples.antt =====
-- Decimal texts at concrete inputs, and the theorems applied to them.
use terra_worker.Prelude.{◌≡◌, refl, arith, some}
use terra_worker.Prelude.Int.{pos, negsuc}
use terra_worker.Go.Outcome.{ok}
use terra_worker.Go.Text.{natural, digits_from}
use terra_worker.Go.Text.Parts.{join}
use terra_worker.Api.Amounts.{gett_int_and_exp}
use terra_worker.Api.Amounts.Decimals.{gett_int_and_exp-decimal, gett_int_and_exp-negative}

reads_44 : natural "44" ≡ some 44
unfolding natural digits_from
reads_44 = refl

reads_05 : natural "05" ≡ some 5
unfolding natural digits_from
reads_05 = refl

gett_int_and_exp-decimal_example : gett_int_and_exp "44.05" ≡ ok (pos 4405, 2)
unfolding join
gett_int_and_exp-decimal_example =
    gett_int_and_exp-decimal "44" "05" 44 5 reads_44 reads_05 (omega arith) (omega arith)

-- -4395 is the number read
gett_int_and_exp-negative_example : gett_int_and_exp "-44.05" ≡ ok (negsuc 4394, 2)
unfolding join
gett_int_and_exp-negative_example =
    gett_int_and_exp-negative "44" "05" 44 5 reads_44 reads_05 (omega arith) (omega arith)
