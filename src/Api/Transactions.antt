-- ===== src/Api/Transactions.antt =====
-- api/transaction.go: raw transactions of the node, converted with their logs and blocks.
pub mod Converted
pub mod Plugin
mod Examples
use terra_worker.Prelude.{
  ℕ, String, Option, none, some, List, [], ◌∷◌, ◌++◌, map, str_eq, if◌then◌else◌,
}
use terra_worker.Go.Outcome.{GoError, Outcome, ok, err, panic, ◌>>=◌}
use terra_worker.Go.Text.{parse_uint}
use terra_worker.Structs.{Block, TransactionAmount, TransactionEvent}
use terra_worker.Api.Types.{LogFormat}
use terra_worker.External.{External}
use terra_worker.Mapper.Messages.{Msg, Coin}
use terra_worker.Api.Events.{TxLogError, no_error, append_events}

-- types.TxResponse, with the fields of its ResponseDeliverTx
pub record TxResponse : Type 0 where
  pub hash : String
  pub height : String
  pub log : String
  pub gas_wanted : String
  pub gas_used : String
  pub tx_data : String

-- auth.StdTx
pub record StdTx : Type 0 where
  pub memo : String
  pub msgs : List Msg
  pub fee : List Coin

-- structs.Transaction; the bytes of Raw and RawLog are those of a text
pub record Transaction : Type 0 where
  pub hash : String
  pub memo : String
  pub time : String
  pub block_hash : String
  pub chain_id : String
  pub height : ℕ
  pub gas_wanted : ℕ
  pub gas_used : ℕ
  pub raw : String
  pub raw_log : String
  pub fee : List TransactionAmount
  pub events : List TransactionEvent

-- cStruct.OutResp of a transaction
pub record TransactionResp : Type 0 where
  pub type : String
  pub payload : Transaction
  pub error : Option GoError

-- The decoders of other packages: the client's amino codec on the base64 text of a transaction, the
-- codec cdcA on what the first one left, and the JSON decoder on the text of a log, which is one
-- value. Each gives what it has read beside its error.
pub record Codec : Type 0 where
  pub decode_tx : String → StdTx × Option GoError
  pub decode_tx_again : StdTx → String → StdTx × Option GoError
  pub decode_log : String → List LogFormat × Option GoError

-- the zero value of structs.Block
abbrev pub no_block : Block
no_block = record { hash = ""; height = 0; chain_id = ""; time = ""; number_of_transactions = 0 }

unfoldable pub block_at : Option Block → Block
block_at none = no_block
block_at (some b) = b

-- the error of the second codec is dropped
unfoldable pub std_tx : Codec → String → StdTx × Option GoError → StdTx
std_tx codec tx_data (tx, none) = tx
std_tx codec tx_data (tx, some e) = (codec.decode_tx_again tx tx_data).0

-- the later error stands
unfoldable pub last_error : Option GoError → Option GoError → Option GoError
last_error earlier none = earlier
last_error earlier (some e) = some e

unfoldable pub fee_amount : Coin → TransactionAmount
fee_amount coin = record {
  text = coin.amount.string;
  numeric = coin.amount.big_int;
  currency = coin.denom;
  exp = 0;
}

-- what rawToTransaction makes of a transaction, with the events that appendEvents gives
unfoldable pub converted :
    Codec → TxResponse → (ℕ → Option Block) → List TransactionEvent → TransactionResp
unfolding std_tx last_error block_at
converted codec tx_raw blocks events =
    let tx = std_tx codec tx_raw.tx_data (codec.decode_tx tx_raw.tx_data) in
    let h_int = (parse_uint tx_raw.height).0 in
    let block = block_at (blocks h_int) in
    let wanted = parse_uint tx_raw.gas_wanted in
    let used = parse_uint tx_raw.gas_used in
    record {
      type = "Transaction";
      payload = record {
        hash = tx_raw.hash;
        memo = tx.memo;
        time = block.time;
        block_hash = block.hash;
        chain_id = block.chain_id;
        height = h_int;
        gas_wanted = wanted.0;
        gas_used = used.0;
        raw = tx_raw.tx_data;
        raw_log = tx_raw.log;
        fee = map fee_amount tx.fee;
        events = events;
      };
      error = last_error wanted.1 used.1;
    }

-- rawToTransaction returns no error
unfoldable pub raw_to_transaction :
    External
    → Codec
    → TxResponse
    → List LogFormat
    → TxLogError
    → (ℕ → Option Block)
    → Outcome TransactionResp
unfolding converted
raw_to_transaction ext codec tx_raw tx_log tx_err blocks = do
  let tx = std_tx codec tx_raw.tx_data (codec.decode_tx tx_raw.tx_data)
  events ← append_events ext tx.msgs tx_log tx_err
  ok (converted codec tx_raw blocks events)

-- A log that cannot be decoded is taken for the text of an error.
unfoldable pub log_error : String → Option GoError → TxLogError
log_error log none = no_error
log_error log (some e) = record { codespace = ""; message = log }

-- the log of a transaction, as RawToTransaction reads it
unfoldable pub read_log : Codec → String → List LogFormat × TxLogError
unfolding log_error
read_log codec log = let (lf, e) = codec.decode_log log in (lf, log_error log e)

-- and as RawToTransactionCh does
unfoldable pub read_log_ch : Codec → String → List LogFormat × TxLogError
unfolding read_log
read_log_ch codec log = if str_eq log "" then ([], no_error) else read_log codec log

module _ (ext : External) (codec : Codec) (blocks : ℕ → Option Block) where
  -- what RawToTransaction puts into `out`
  unfoldable pub raw_to_transactions : List TxResponse → Outcome (List TransactionResp)
  raw_to_transactions [] = ok []
  raw_to_transactions (tx_raw ∷ txs) = do
    tx ←
        raw_to_transaction ext codec tx_raw (read_log codec tx_raw.log).0
          (read_log codec tx_raw.log).1 blocks
    rest ← raw_to_transactions txs
    ok (tx ∷ rest)

  -- what RawToTransactionCh puts into `out`
  unfoldable pub raw_to_transactions_ch : List TxResponse → Outcome (List TransactionResp)
  raw_to_transactions_ch [] = ok []
  raw_to_transactions_ch (tx_raw ∷ txs) = do
    tx ←
        raw_to_transaction ext codec tx_raw (read_log_ch codec tx_raw.log).0
          (read_log_ch codec tx_raw.log).1 blocks
    rest ← raw_to_transactions_ch txs
    ok (tx ∷ rest)

-- GetFromRaw of the converter plugin: the amounts of the fee
unfoldable pub get_from_raw : Codec → String → List TransactionAmount
get_from_raw codec tx_data = map fee_amount (codec.decode_tx tx_data).0.fee

unfoldable pub checked_value {ℓ} : {A : Type ℓ} → A × Option GoError → Outcome A
checked_value (a, none) = ok a
checked_value (a, some e) = err e

-- GetEventsFromRaw of the converter plugin
unfoldable pub get_events_from_raw :
    External → Codec → String → String → Outcome (List TransactionEvent)
unfolding checked_value
get_events_from_raw ext codec tx_data log = do
  tx ← checked_value (codec.decode_tx tx_data)
  tx_log ← checked_value (codec.decode_log log)
  append_events ext tx.msgs tx_log no_error
