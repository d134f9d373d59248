-- ===== src/Api/Delegations.antt =====
-- `GetAccountDelegations` of api/delegations.go: the conversion of the answer.
pub mod Attempts
mod Examples
use terra_worker.Prelude.{
  ℕ, zero, suc, String, Option, none, some, List, [], ◌∷◌, ltb, if◌then◌else◌,
}
use terra_worker.Prelude.Int.{ℤ}
use terra_worker.Go.Outcome.{GoError, Outcome, ok, err, panic, message, wrap, ◌>>=◌}
use terra_worker.Structs.{TransactionAmount}
use terra_worker.Api.Amounts.{gett_int_and_exp}
use terra_worker.Api.Requests.{Lcd, account_request}

-- types.Delegation
pub record DelegationEntry : Type 0 where
  pub delegator_address : String
  pub validator_address : String
  pub shares : String
  pub balance_denom : String
  pub balance_amount : String

-- structs.Delegation
pub record Delegation : Type 0 where
  pub delegator : String
  pub validator : String
  pub shares : TransactionAmount
  pub balance : TransactionAmount

unfoldable pub amount_of : ℤ × ℕ → String → TransactionAmount
amount_of (n, exp) currency = record { text = ""; currency = currency; numeric = some n; exp = exp }

unfoldable pub or_conversion_error : Outcome (ℤ × ℕ) → Outcome (ℤ × ℕ)
or_conversion_error (ok n) = ok n
or_conversion_error (err e) = err (wrap "could not convert shares, " e)
or_conversion_error panic = panic

-- one round of the loop over the answer
unfoldable pub delegation_of : DelegationEntry → Outcome Delegation
unfolding amount_of or_conversion_error
delegation_of del = do
  share ← or_conversion_error (gett_int_and_exp del.shares)
  amt ← or_conversion_error (gett_int_and_exp del.balance_amount)
  ok (record {
    delegator = del.delegator_address;
    validator = del.validator_address;
    shares = amount_of share "";
    balance = amount_of amt del.balance_denom;
  })

unfoldable pub delegations_of : List DelegationEntry → Outcome (List Delegation)
delegations_of [] = ok []
delegations_of (del ∷ dels) = do
  first ← delegation_of del
  rest ← delegations_of dels
  ok (first ∷ rest)

-- the delegations of the response
unfoldable pub get_account_delegations :
    Lcd (List DelegationEntry) → String → ℕ → Outcome (List Delegation)
get_account_delegations = account_request "[TERRA-API] Error fetching rewards: " delegations_of
