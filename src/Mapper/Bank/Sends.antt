-- ===== src/Mapper/Bank/Sends.antt =====
-- `BankSendToSub` and `BankMultisendToSub` of api/mapper/bank.go.
use terra_worker.Prelude.{List, [], ◌∷◌, map, if◌then◌else◌}
use terra_worker.Go.Outcome.{Outcome, ◌>>=◌}
use terra_worker.Structs.{EventTransfer, SubsetFields, account, no_fields}
use terra_worker.Api.Types.{LogFormat}
use terra_worker.External.{External}
use terra_worker.Mapper.Messages.{MsgBody, Address, Coin, InOut}
use terra_worker.Mapper.Messages.Assertions.{as_multi_send, as_send}
use terra_worker.Mapper.Encoding.{asserted, coin_amount, encode_acc}
use terra_worker.Mapper.Bank.{produce_transfers}

module _ (ext : External) where
  -- an address without bytes has an empty text; the error is not passed on
  unfoldable pub bank_produce_ev_tx : Address → List Coin → EventTransfer
  unfolding encode_acc
  bank_produce_ev_tx addr coins = record {
    account = account (if ext.acc_address_empty addr then "" else (encode_acc ext addr).0);
    amounts = map coin_amount coins;
  }

  unfoldable pub bank_multisend_to_sub : MsgBody → LogFormat → Outcome SubsetFields
  bank_multisend_to_sub body logf = do
    multisend ← asserted (as_multi_send body) "Not a multisend type"
    produce_transfers ext
        (record no_fields {
          type = "multisend" ∷ [];
          module_name = "bank";
          sender = map (λ (i : InOut). bank_produce_ev_tx i.address i.coins) multisend.inputs;
          recipient = map (λ (o : InOut). bank_produce_ev_tx o.address o.coins) multisend.outputs;
        })
        "send" "" logf

  unfoldable pub bank_send_to_sub : MsgBody → LogFormat → Outcome SubsetFields
  bank_send_to_sub body logf = do
    send ← asserted (as_send body) "Not a send type"
    produce_transfers ext
        (record no_fields {
          type = "send" ∷ [];
          module_name = "bank";
          sender = bank_produce_ev_tx send.from_address send.amount ∷ [];
          recipient = bank_produce_ev_tx send.to_address send.amount ∷ [];
        })
        "send" "" logf
