-- ===== src/Api/Balances.antt =====
-- `GetAccountBalance` of api/account_balance.go.
use terra_worker.Prelude.{ℕ, String, List, map}
use terra_worker.Go.Outcome.{Outcome, ok}
use terra_worker.Mapper.Messages.{Coin}
use terra_worker.Structs.{TransactionAmount}
use terra_worker.Api.Requests.{Lcd, account_request}

unfoldable pub account_amount : Coin → TransactionAmount
account_amount blnc = record {
  text = blnc.amount.string;
  numeric = blnc.amount.big_int;
  currency = blnc.denom;
  exp = 0;
}

unfoldable pub read_balances : List Coin → Outcome (List TransactionAmount)
unfolding account_amount
read_balances result = ok (map account_amount result)

-- the balances of the response
unfoldable pub get_account_balance : Lcd (List Coin) → String → ℕ → Outcome (List TransactionAmount)
get_account_balance = account_request "[TERRA-API] Error fetching account balance: " read_balances
