-- ===== src/Mapper/Oracle.antt =====
-- api/mapper/oracle.go
use terra_worker.Prelude.{String, Bool, true, false, none, some, List, [], ◌∷◌}
use mathlib.Core.Option
use terra_worker.Go.Outcome.{Outcome, ok, ◌>>=◌}
use terra_worker.Go.Map.{GoMap, put}
use terra_worker.Go.Text.{set_string, split}
use terra_worker.Structs.{TransactionAmount, Account, SubsetFields, account, no_fields, no_amount}
use terra_worker.External.{External}
use terra_worker.Mapper.Messages.{MsgBody, Address, SdkDec}
use terra_worker.Mapper.Messages.Assertions.{
  as_aggregate_exchange_rate_prevote, as_aggregate_exchange_rate_vote, as_delegate_feed_consent,
  as_exchange_rate_prevote, as_exchange_rate_vote,
}
use terra_worker.Mapper.Encoding.{asserted, encode_acc, encode_val}

-- se.Node[key] = []structs.Account{{ID: text}}, for an address that is not empty
unfoldable pub put_account : Bool → GoMap (List Account) → String → String → GoMap (List Account)
put_account true m key id = m
put_account false m key id = put m key (account id ∷ [])

module _ (ext : External) where
  unfoldable pub put_val : GoMap (List Account) → String → Address → GoMap (List Account)
  unfolding put_account encode_val
  put_val m key addr = put_account (ext.val_address_empty addr) m key (encode_val ext addr).0

  unfoldable pub put_acc : GoMap (List Account) → String → Address → GoMap (List Account)
  unfolding put_account encode_acc
  put_acc m key addr = put_account (ext.acc_address_empty addr) m key (encode_acc ext addr).0

  -- excRt: for a rate that is not nil, the number is read back from the rate's text, whether or
  -- not that succeeds
  unfoldable pub rate_amount : String → SdkDec → TransactionAmount
  rate_amount denom rate = elim rate.int [
    | none ↦ record no_amount { currency = denom }
    | some _ ↦ record no_amount {
      currency = denom;
      numeric = some (Option.get_or (set_string rate.string) (ext.undefined_number rate.string));
      text = rate.string;
    }
  ]

  unfoldable pub oracle_exchange_rate_vote_to_sub : MsgBody → Outcome SubsetFields
  unfolding put_val put_acc rate_amount
  oracle_exchange_rate_vote_to_sub body = do
    exrv ← asserted (as_exchange_rate_vote body) "Not a ExchangeRateVote type"
    ok (record no_fields {
      type = "exchangeratevote" ∷ [];
      module_name = "oracle";
      node = put_acc (put_val [] "validator" exrv.validator) "feeder" exrv.feeder;
      amount = ("exchangeRate", rate_amount exrv.denom exrv.exchange_rate) ∷ [];
    })

  unfoldable pub oracle_exchange_rate_prevote_to_sub : MsgBody → Outcome SubsetFields
  unfolding put_val put_acc
  oracle_exchange_rate_prevote_to_sub body = do
    exrv ← asserted (as_exchange_rate_prevote body) "Not a ExchangeRateVote type"
    ok (record no_fields {
      type = "exchangerateprevote" ∷ [];
      module_name = "oracle";
      node = put_acc (put_val [] "validator" exrv.validator) "feeder" exrv.feeder;
      amount = ("denom", record no_amount { currency = exrv.denom }) ∷ [];
    })

  unfoldable pub oracle_delegate_feed_consent : MsgBody → Outcome SubsetFields
  unfolding put_val put_acc
  oracle_delegate_feed_consent body = do
    dfc ← asserted (as_delegate_feed_consent body) "Not a DelegateFeedConsent type"
    ok (record no_fields {
      type = "delegatefeeder" ∷ [];
      module_name = "oracle";
      node = put_acc (put_val [] "operator" dfc.operator) "delegate" dfc.delegate;
    })

  unfoldable pub oracle_aggregate_exchange_rate_prevote_to_sub : MsgBody → Outcome SubsetFields
  unfolding put_val put_acc
  oracle_aggregate_exchange_rate_prevote_to_sub body = do
    exrv ←
        asserted (as_aggregate_exchange_rate_prevote body) "Not a AggregateExchangeRatePrevote type"
    ok (record no_fields {
      type = "aggregateexchangerateprevote" ∷ [];
      module_name = "oracle";
      node = put_acc (put_val [] "validator" exrv.validator) "feeder" exrv.feeder;
      additional = ("hash", exrv.hash ∷ []) ∷ [];
    })

  -- the type of the event is that of a prevote, as in the source
  unfoldable pub oracle_aggregate_exchange_rate_vote_to_sub : MsgBody → Outcome SubsetFields
  unfolding put_val put_acc
  oracle_aggregate_exchange_rate_vote_to_sub body = do
    exrv ← asserted (as_aggregate_exchange_rate_vote body) "Not a AggregateExchangeRatePrevote type"
    ok (record no_fields {
      type = "aggregateexchangerateprevote" ∷ [];
      module_name = "oracle";
      node = put_acc (put_val [] "validator" exrv.validator) "feeder" exrv.feeder;
      additional =
          ("salt", exrv.salt ∷ []) ∷ ("exchangeRates", split exrv.exchange_rates b',') ∷ [];
    })
