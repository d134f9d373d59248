-- ===== src/Api/Transactions/Examples.antt =====
-- Raw transactions converted at concrete inputs, and the theorems applied to them.
use Prim.Native.String.{◌++◌ as append}
use terra_worker.Prelude.{
  ℕ, ◌≡◌, ◌≢◌, sym, ◌∙◌, refl, String, true, false, Option, none, some, List, [], ◌∷◌, arith, ◌==◌,
  if◌then◌else◌,
}
use terra_worker.Prelude.Int.{pos}
use terra_worker.Go.Outcome.{GoError, Outcome, ok, err, panic, message, wrap, unknown_message_type}
use terra_worker.Go.Text.{format_uint}
use terra_worker.Structs.{Block, SubsetEvent, TransactionEvent}
use terra_worker.Api.Types.{LogFormat, no_log, whole}
use terra_worker.External.{External}
use terra_worker.Mapper.Messages.{msg, unlisted}
use terra_worker.Api.Dispatch.{get_sub_event, dispatch, unknown}
use terra_worker.Api.Events.{
  no_error, find_log, search_log, log_at, is_index, append_events, message_events, message_event,
  log_events, log_event, event_from_logs, kind_and_sub, error_events, is_present, format_index,
}
use terra_worker.Api.Transactions.{
  TxResponse, StdTx, TransactionResp, Codec, converted, std_tx, raw_to_transaction, read_log,
  log_error, raw_to_transactions, raw_to_transactions_ch, get_from_raw, get_events_from_raw,
}
use terra_worker.Api.Transactions.Converted.{
  IsCalm, raw_to_transaction-block, raw_to_transactions-eq-ch,
}
use terra_worker.Api.Transactions.Plugin.{get_events_from_raw-eq}

abbrev plain : External
plain = record {
  convert_and_encode = λ prefix bytes. (append prefix "1qqq", none);
  bech32_prefix_acc_addr = "terra";
  bech32_prefix_val_addr = "terravaloper";
  undefined_number = λ s. pos 0;
  acc_address_empty = λ bytes. false;
  val_address_empty = λ bytes. false;
  acc_address_string = λ bytes. "terra1qqq";
}

-- one message, which no mapper knows
abbrev tx : StdTx
tx = record { memo = "hello"; msgs = msg "ibc" "transfer" unlisted ∷ []; fee = [] }

abbrev log : LogFormat
log = record no_log { msg_index = whole 0; success = true }

abbrev decode_log : String → List LogFormat × Option GoError
decode_log String.[] = ([], some (message "EOF"))
decode_log (String.◌∷◌ c s) = (log ∷ [], none)

abbrev codec : Codec
codec = record {
  decode_tx = λ tx_data. (tx, none);
  decode_tx_again = λ left tx_data. (left, none);
  decode_log = decode_log;
}

abbrev tx_raw : TxResponse
tx_raw = record {
  hash = "AB";
  height = "7";
  log = "[]";
  gas_wanted = "20";
  gas_used = "10";
  tx_data = "AA==";
}

abbrev block : Block
block = record {
  hash = "CD";
  height = 7;
  chain_id = "columbus-4";
  time = "2020-01-01T00:00:00Z";
  number_of_transactions = 1;
}

abbrev blocks : ℕ → Option Block
blocks height = if height == 7 then some block else none

foreign_fails :
    get_sub_event plain (msg "ibc" "transfer" unlisted) log
    ≡ err (wrap "problem with ibc - transfer" unknown_message_type)
unfolding get_sub_event dispatch unknown
foreign_fails = refl

err-ne-panic : (e : GoError) → ◌≢◌ {A = Outcome SubsetEvent} (err e) panic
err-ne-panic e = cc

tx_raw-IsCalm : IsCalm plain codec tx_raw
unfolding find_log search_log log_at is_index std_tx read_log
tx_raw-IsCalm = ((λ e. err-ne-panic _ (sym foreign_fails ∙ e)), tt)

written_7 : "7" ≡ format_uint 7
unfolding format_uint
written_7 = refl

raw_to_transaction-block_example :
    (r : TransactionResp) × (raw_to_transaction plain codec tx_raw (log ∷ []) no_error blocks
      ≡ ok r)
    × (r.error ≡ none)
    × (r.payload.hash ≡ "AB")
    × (r.payload.height ≡ 7)
    × (r.payload.block_hash ≡ "CD")
    × (r.payload.chain_id ≡ "columbus-4")
    × (r.payload.time ≡ "2020-01-01T00:00:00Z")
    × (r.payload.gas_wanted ≡ 20)
    × (r.payload.gas_used ≡ 10)
    × (r.payload.raw ≡ "AA==")
    × (r.payload.raw_log ≡ "[]")
unfolding format_uint read_log
raw_to_transaction-block_example =
    raw_to_transaction-block plain codec tx_raw (log ∷ []) no_error blocks 7 20 10 block refl refl
      refl (omega arith) (omega arith) (omega arith) refl tx_raw-IsCalm

raw_to_transactions-eq-ch_example :
    raw_to_transactions_ch plain codec blocks (tx_raw ∷ [])
    ≡ raw_to_transactions plain codec blocks (tx_raw ∷ [])
raw_to_transactions-eq-ch_example =
    raw_to_transactions-eq-ch plain codec blocks (message "EOF") refl (tx_raw ∷ [])

abbrev events : List TransactionEvent
events = record { id = "0"; kind = ""; sub = [] } ∷ []

tx_converted :
    raw_to_transaction plain codec tx_raw (read_log codec "[]").0 (read_log codec "[]").1 blocks
    ≡ ok (converted codec tx_raw blocks events)
unfolding raw_to_transaction read_log std_tx append_events message_events message_event
    get_sub_event dispatch unknown log_events log_event event_from_logs kind_and_sub error_events
    is_present format_index format_uint log_error
tx_converted = refl

get_events_from_raw-eq_example :
    (get_events_from_raw plain codec "AA==" "[]" ≡ ok events)
    × (get_from_raw codec "AA==" ≡ (converted codec tx_raw blocks events).payload.fee)
unfolding converted
get_events_from_raw-eq_example =
    get_events_from_raw-eq plain codec tx_raw tx (log ∷ []) blocks
      (converted codec tx_raw blocks events) refl refl tx_converted
