-- ===== src/Mapper/Market.antt =====
-- api/mapper/market.go
use terra_worker.Prelude.{String, Bool, true, false, [], ◌∷◌, ◌++◌}
use terra_worker.Go.Outcome.{Outcome, ◌>>=◌}
use terra_worker.Structs.{
  TransactionAmount, EventTransfer, SubsetFields, account, no_fields, no_amount,
}
use terra_worker.Api.Types.{LogFormat}
use terra_worker.External.{External}
use terra_worker.Mapper.Messages.{MsgBody, Address, MsgSwap, MsgSwapSend}
use terra_worker.Mapper.Messages.Assertions.{as_swap, as_swap_send}
use terra_worker.Mapper.Encoding.{asserted, coin_amount, encode_acc}
use terra_worker.Mapper.Bank.{produce_transfers}

abbrev pub asked : String → TransactionAmount
asked denom = record no_amount { currency = denom }

-- what is set only for a trader that is not empty
unfoldable pub traded : External → Bool → MsgSwap → SubsetFields → SubsetFields
unfolding encode_acc
traded ext true swap se = se
traded ext false swap se =
    let trader = account (encode_acc ext swap.trader).0 in
    let offer = coin_amount swap.offer_coin in
    record se {
      node = ("trader", trader ∷ []) ∷ [];
      sender = record { account = trader; amounts = offer ∷ asked swap.ask_denom ∷ [] } ∷ [];
      amount = ("offer", offer) ∷ ("ask", asked swap.ask_denom) ∷ [];
    }

module _ (ext : External) where
  unfoldable pub market_swap_to_sub : MsgBody → LogFormat → Outcome SubsetFields
  unfolding traded
  market_swap_to_sub body logf = do
    swap ← asserted (as_swap body) "Not a swap type"
    produce_transfers ext
        (traded ext (ext.acc_address_empty swap.trader) swap
          (record no_fields { type = "swap" ∷ []; module_name = "market" }))
        "send" "" logf

  unfoldable pub swap_transfer : Address → MsgSwapSend → EventTransfer
  unfolding encode_acc
  swap_transfer addr swap = record {
    account = account (encode_acc ext addr).0;
    amounts = coin_amount swap.offer_coin ∷ asked swap.ask_denom ∷ [];
  }

  -- `se.Recipient = append(se.Sender, …)`: the sender comes first among the recipients
  unfoldable pub market_swap_send_to_sub : MsgBody → LogFormat → Outcome SubsetFields
  unfolding swap_transfer
  market_swap_send_to_sub body logf = do
    swap ← asserted (as_swap_send body) "Not a swapsend type"
    let sender = swap_transfer swap.from_address swap ∷ []
    produce_transfers ext
        (record no_fields {
          type = "swapsend" ∷ [];
          module_name = "market";
          sender = sender;
          recipient = sender ++ swap_transfer swap.to_address swap ∷ [];
          amount = ("offer", coin_amount swap.offer_coin) ∷ ("ask", asked swap.ask_denom) ∷ [];
        })
        "send" "" logf
