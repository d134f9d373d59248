-- ===== src/Mapper/Distribution.antt =====
-- api/mapper/distribution.go
use terra_worker.Prelude.{Option, none, some, String, List, [], ◌∷◌}
use terra_worker.Go.Outcome.{Outcome, ok, panic, ◌>>=◌}
use terra_worker.Prelude.Int.{ℤ}
use terra_worker.Structs.{
  no_amount, TransactionAmount, EventTransfer, SubsetFields, account, no_fields,
}
use terra_worker.Api.Types.{LogFormat}
use terra_worker.External.{External}
use terra_worker.Mapper.Messages.{MsgBody, Coin}
use terra_worker.Mapper.Messages.Assertions.{
  as_fund_community_pool, as_set_withdraw_address, as_withdraw_delegator_reward,
  as_withdraw_validator_commission,
}
use terra_worker.Mapper.Encoding.{asserted, checked, bare_transfer, encode_acc, encode_val}
use terra_worker.Mapper.Bank.{produce_transfers}

-- txa.Numeric.Set(x) on a nil *big.Int: it writes through the pointer, unless x is nil too
unfoldable pub set_nil_number : Option ℤ → Outcome (Option ℤ)
set_nil_number none = ok none
set_nil_number (some n) = panic

unfoldable pub fund_amounts : List Coin → Outcome (List TransactionAmount)
unfolding set_nil_number
fund_amounts [] = ok []
fund_amounts (coin ∷ coins) = do
  n ← set_nil_number coin.amount.big_int
  rest ← fund_amounts coins
  ok (record no_amount { currency = coin.denom; text = coin.amount.string; numeric = n } ∷ rest)

unfoldable pub distribution_produce_ev_tx : String → List Coin → Outcome EventTransfer
unfolding fund_amounts
distribution_produce_ev_tx id coins = do
  amounts ← fund_amounts coins
  ok (record { account = account id; amounts = amounts })

module _ (ext : External) where
  unfoldable pub distribution_withdraw_validator_commission_to_sub :
      MsgBody → LogFormat → Outcome SubsetFields
  distribution_withdraw_validator_commission_to_sub body logf = do
    wvc ←
        asserted (as_withdraw_validator_commission body) "Not a withdraw_validator_commission type"
    val ← checked (encode_val ext wvc.validator_address) "error converting ValidatorAddress"
    produce_transfers ext
        (record no_fields {
          type = "withdraw_validator_commission" ∷ [];
          module_name = "distribution";
          node = ("validator", account val ∷ []) ∷ [];
          recipient = bare_transfer val ∷ [];
        })
        "send" "" logf

  unfoldable pub distribution_set_withdraw_address_to_sub : MsgBody → Outcome SubsetFields
  distribution_set_withdraw_address_to_sub body = do
    swa ← asserted (as_set_withdraw_address body) "Not a set_withdraw_address type"
    delegator ← checked (encode_acc ext swa.delegator_address) "error converting DelegatorAddress"
    withdraw ← checked (encode_acc ext swa.withdraw_address) "error converting WithdrawAddress"
    ok (record no_fields {
      type = "set_withdraw_address" ∷ [];
      module_name = "distribution";
      node = ("delegator", account delegator ∷ []) ∷ ("withdraw", account withdraw ∷ []) ∷ [];
    })

  unfoldable pub distribution_withdraw_delegator_reward_to_sub :
      MsgBody → LogFormat → Outcome SubsetFields
  distribution_withdraw_delegator_reward_to_sub body logf = do
    wdr ← asserted (as_withdraw_delegator_reward body) "Not a withdraw_delegator_reward type"
    del ← checked (encode_acc ext wdr.delegator_address) "error converting DelegatorAddress"
    val ← checked (encode_val ext wdr.validator_address) "error converting ValidatorAddress"
    produce_transfers ext
        (record no_fields {
          type = "withdraw_delegator_reward" ∷ [];
          module_name = "distribution";
          node = ("delegator", account del ∷ []) ∷ ("validator", account val ∷ []) ∷ [];
          recipient = bare_transfer val ∷ [];
        })
        "reward" "" logf

  unfoldable pub distribution_fund_community_pool_to_sub : MsgBody → Outcome SubsetFields
  distribution_fund_community_pool_to_sub body = do
    fcp ← asserted (as_fund_community_pool body) "Not a withdraw_fund_community_pool type"
    depositor ← checked (encode_acc ext fcp.depositor) "error converting DelegatorAddress"
    evt ← distribution_produce_ev_tx depositor fcp.amount
    ok (record no_fields {
      type = "fund_community_pool" ∷ [];
      module_name = "distribution";
      node = ("depositor", account depositor ∷ []) ∷ [];
      sender = evt ∷ [];
    })
