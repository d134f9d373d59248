-- ===== src/Mapper/Bank/Examples.antt =====
-- Transfers read from concrete logs, and the theorems applied to them.
use Prim.Native.String.{◌++◌ as append}
use terra_worker.Prelude.{◌≡◌, ◌≢◌, refl, false, none, some, [], ◌∷◌, arith}
use terra_worker.Prelude.Int.{pos}
use terra_worker.Go.Outcome.{ok, panic}
use terra_worker.Go.Text.{set_string}
use terra_worker.Structs.{no_fields}
use terra_worker.Api.Types.{TxEventsAttributes, LogFormat, no_log}
use terra_worker.External.{External}
use terra_worker.Go.Text.{format_uint, split, replace}
use terra_worker.Go.Text.Parts.{join}
use terra_worker.Mapper.Bank.{
  event_transfers, recipient_transfers, index_amount, parse_amounts, parse_amount, sliced_coin,
  amount_of, get_coin, coin_of_parts, match_number, match_unit, whole_unit, all_unit_chars,
  skip_spaces, get_currency, is_number_char, is_unit_char, produce_transfers, set_transfers,
}
use terra_worker.Mapper.Bank.Coins.{
  PrintedTransfer, IsPrintable, Tells, nothing, told, transfers_of, produce_transfers-Tells,
  produce_transfers_short,
}

abbrev plain : External
plain = record {
  convert_and_encode = λ prefix bytes. (append prefix "1qqq", none);
  bech32_prefix_acc_addr = "terra";
  bech32_prefix_val_addr = "terravaloper";
  undefined_number = λ s. pos 0;
  acc_address_empty = λ bytes. false;
  val_address_empty = λ bytes. false;
  acc_address_string = λ bytes. "terra1qqq";
}

abbrev plain_attributes : TxEventsAttributes
plain_attributes = record {
  module_name = "";
  action = "";
  amount = [];
  sender = [];
  validator = [];
  recipient = [];
  voter = [];
  feeder = [];
  completion_time = "";
  others = [];
}

split_amount : get_currency "2896ukrw" ≡ "2896ukrw" ∷ "2896" ∷ "ukrw" ∷ []
unfolding get_currency match_number match_unit whole_unit all_unit_chars skip_spaces is_number_char
    is_unit_char
split_amount = refl

abbrev paid : PrintedTransfer
paid = record {
  to = "terra1aaa";
  coin = record { number = 2896; denom = "ukrw" };
  coins = record { number = 16; denom = "uluna" } ∷ [];
}

abbrev paid_log : LogFormat
paid_log = record no_log {
  events =
      record {
        type = "transfer";
        attributes = some (record plain_attributes {
          recipient = "terra1aaa" ∷ [];
          amount = "2896ukrw,16uluna" ∷ [];
        });
      }
      ∷ [];
}

paid-IsPrintable : IsPrintable paid
unfolding is_number_char is_unit_char
paid-IsPrintable = (
  ((refl, refl, (refl, (refl, (refl, tt)))), omega arith),
  (((refl, refl, (refl, (refl, (refl, (refl, tt))))), omega arith), tt),
)

paid_log-Tells : Tells paid_log.events (paid ∷ [])
unfolding format_uint join
paid_log-Tells =
    told
      (record plain_attributes { recipient = "terra1aaa" ∷ []; amount = "2896ukrw,16uluna" ∷ [] })
      (paid ∷ []) (paid-IsPrintable, tt) refl refl refl nothing

produce_transfers-Tells_example :
    produce_transfers plain no_fields "send" "" paid_log
    ≡ ok (set_transfers no_fields "send" (transfers_of "" (paid ∷ [])))
produce_transfers-Tells_example =
    produce_transfers-Tells plain no_fields "send" "" paid_log (paid ∷ []) paid_log-Tells

abbrev short_attributes : TxEventsAttributes
short_attributes = record plain_attributes {
  recipient = "terra1aaa" ∷ "terra1bbb" ∷ [];
  amount = "5uluna" ∷ [];
}

abbrev short_log : LogFormat
short_log = record no_log {
  events = record { type = "transfer"; attributes = some short_attributes } ∷ [];
}

one_amount_too_few : produce_transfers plain no_fields "send" "" short_log ≡ panic
unfolding produce_transfers event_transfers recipient_transfers index_amount parse_amounts
    parse_amount get_currency match_number match_unit whole_unit all_unit_chars skip_spaces
    is_number_char is_unit_char sliced_coin amount_of get_coin coin_of_parts set_string split
    replace
one_amount_too_few = refl

produce_transfers_short_example :
    produce_transfers plain no_fields "send" "" short_log ≢ ok no_fields
produce_transfers_short_example =
    produce_transfers_short plain no_fields "send" "" short_log short_attributes [] refl
      ((cc), ((cc), tt)) (omega arith) no_fields
