-- ===== src/Api/Transactions/Converted.antt =====
-- What a converted transaction tells, and that none is lost.
use terra_worker.Prelude.{
  ℕ, ◌<◌, ◌≡◌, refl, sym, ap, ◌∙◌, String, inl, inr, Option, none, some, List, [], ◌∷◌, ◌++◌, map,
  str_eq, eq_iff, two64, All, Bool-cases,
}
use terra_worker.Go.Outcome.{GoError, ok}
use terra_worker.Go.Text.{parse_uint, format_uint}
use terra_worker.Go.Text.Decimal.{parse_uint-format_uint}
use terra_worker.Structs.{Block, TransactionEvent}
use terra_worker.Api.Types.{LogFormat}
use terra_worker.External.{External}
use terra_worker.Mapper.Messages.{Msg}
use terra_worker.Api.Events.{TxLogError, append_events, log_events, error_events}
use terra_worker.Api.Events.Ids.{NonePanics, message_events_returns}
use terra_worker.Api.Transactions.{
  TxResponse, TransactionResp, Codec, block_at, std_tx, last_error, converted, raw_to_transaction,
  log_error, read_log, read_log_ch, raw_to_transactions, raw_to_transactions_ch,
}

append_events_returns :
    (ext : External) (msgs : List Msg) (tx_log : List LogFormat) (tx_err : TxLogError)
    → NonePanics ext 0 msgs tx_log
    → (evs : List TransactionEvent) × (append_events ext msgs tx_log tx_err ≡ ok evs)
unfolding append_events
append_events_returns ext msgs tx_log tx_err calm =
    let (present, e) = message_events_returns ext 0 msgs tx_log calm in
    (present ++ log_events present tx_log ++ error_events tx_err, rw e refl)

module _ (ext : External) (codec : Codec) where
  -- the messages of a raw transaction
  abbrev pub messages_of : TxResponse → List Msg
  messages_of tx_raw = (std_tx codec tx_raw.tx_data (codec.decode_tx tx_raw.tx_data)).msgs

  converts :
      (tx_raw : TxResponse) (tx_log : List LogFormat) (tx_err : TxLogError)
      (blocks : ℕ → Option Block)
      → NonePanics ext 0 (messages_of tx_raw) tx_log
      → (r : TransactionResp) × (raw_to_transaction ext codec tx_raw tx_log tx_err blocks ≡ ok r)
        × (r.payload.hash ≡ tx_raw.hash)
  unfolding raw_to_transaction converted
  converts tx_raw tx_log tx_err blocks calm =
      let (evs, e) = append_events_returns ext (messages_of tx_raw) tx_log tx_err calm in
      (converted codec tx_raw blocks evs, rw e refl, refl)

  -- Where the height and the two gas texts of a raw transaction are those of numbers below 2^64,
  -- the map has a block at that height, and no mapper panics on its messages, rawToTransaction
  -- returns a response without error, with the hash, the raw text and the raw log of the
  -- transaction, the height, hash, chain and time of the block, and the numbers of gas.
  pub raw_to_transaction-block :
      (tx_raw : TxResponse) (tx_log : List LogFormat) (tx_err : TxLogError)
      (blocks : ℕ → Option Block) (h wanted used : ℕ) (b : Block)
      → tx_raw.height ≡ format_uint h
      → tx_raw.gas_wanted ≡ format_uint wanted
      → tx_raw.gas_used ≡ format_uint used
      → h < two64
      → wanted < two64
      → used < two64
      → blocks h ≡ some b
      → NonePanics ext 0 (messages_of tx_raw) tx_log
      → (r : TransactionResp) × (raw_to_transaction ext codec tx_raw tx_log tx_err blocks ≡ ok r)
        × (r.error ≡ none)
        × (r.payload.hash ≡ tx_raw.hash)
        × (r.payload.height ≡ h)
        × (r.payload.block_hash ≡ b.hash)
        × (r.payload.chain_id ≡ b.chain_id)
        × (r.payload.time ≡ b.time)
        × (r.payload.gas_wanted ≡ wanted)
        × (r.payload.gas_used ≡ used)
        × (r.payload.raw ≡ tx_raw.tx_data)
        × (r.payload.raw_log ≡ tx_raw.log)
  unfolding raw_to_transaction converted block_at last_error
  raw_to_transaction-block tx_raw tx_log tx_err blocks h wanted used b eh ew eu bh bw bu at calm =
      let (evs, e) = append_events_returns ext (messages_of tx_raw) tx_log tx_err calm in
      let height = ap parse_uint eh ∙ parse_uint-format_uint h bh in
      let gas_wanted = ap parse_uint ew ∙ parse_uint-format_uint wanted bw in
      let gas_used = ap parse_uint eu ∙ parse_uint-format_uint used bu in
      let block : block_at (blocks (parse_uint tx_raw.height).0) ≡ b =
        ap (λ p. block_at (blocks p.0)) height ∙ ap block_at at in
      let error : last_error (parse_uint tx_raw.gas_wanted).1 (parse_uint tx_raw.gas_used).1
          ≡ none =
        ap (λ p. last_error (parse_uint tx_raw.gas_wanted).1 p.1) gas_used
        ∙ ap (λ p. p.1) gas_wanted in
      (
        converted codec tx_raw blocks evs,
        rw e refl,
        error,
        refl,
        ap (λ p. p.0) height,
        ap (λ b. b.hash) block,
        ap (λ b. b.chain_id) block,
        ap (λ b. b.time) block,
        ap (λ p. p.0) gas_wanted,
        ap (λ p. p.0) gas_used,
        refl,
        refl,
      )

  -- no mapper panics on a transaction, with the log as it is read
  abbrev pub IsCalm : TxResponse → Type 0
  IsCalm tx_raw = NonePanics ext 0 (messages_of tx_raw) (read_log codec tx_raw.log).0

  -- When no mapper panics on the messages of the raw transactions, RawToTransaction puts one
  -- response for each into the channel, with its hash, in order, whatever else fails.
  raw_to_transactions-map :
      (blocks : ℕ → Option Block) (txs : List TxResponse)
      → All IsCalm txs
      → (rs : List TransactionResp) × (raw_to_transactions ext codec blocks txs ≡ ok rs)
        × (map (λ r. r.payload.hash) rs ≡ map (λ tx_raw. tx_raw.hash) txs)
  unfolding raw_to_transactions
  raw_to_transactions-map blocks [] h = ([], refl, refl)
  raw_to_transactions-map blocks (tx_raw ∷ txs) (h, hs) =
      let (r, e, same) =
        converts tx_raw (read_log codec tx_raw.log).0 (read_log codec tx_raw.log).1 blocks h in
      let (rs, es, all) = raw_to_transactions-map blocks txs hs in
      (r ∷ rs, rw (e, es) refl, rw (same, all) refl)

  read_log_same :
      (e : GoError) (log : String)
      → codec.decode_log "" ≡ ([], some e)
      → read_log_ch codec log ≡ read_log codec log
  unfolding read_log_ch read_log log_error
  read_log_same e log h = elim (Bool-cases (str_eq log "")) [
    | inl empty ↦
        let none_read = (eq_iff log "").0 empty in
        rw empty (sym (ap (read_log codec) none_read ∙ ap (λ p. (p.0, log_error "" p.1)) h))
    | inr full ↦ rw full refl
  ]

  -- Where the decoder fails on the empty text and reads nothing from it, RawToTransactionCh, which
  -- does not decode an empty log, gives what RawToTransaction gives.
  pub raw_to_transactions-eq-ch :
      (blocks : ℕ → Option Block) (e : GoError)
      → codec.decode_log "" ≡ ([], some e)
      → (txs : List TxResponse)
      → raw_to_transactions_ch ext codec blocks txs ≡ raw_to_transactions ext codec blocks txs
  unfolding raw_to_transactions raw_to_transactions_ch
  raw_to_transactions-eq-ch blocks e h [] = refl
  raw_to_transactions-eq-ch blocks e h (tx_raw ∷ txs) =
      rw (read_log_same e tx_raw.log h, raw_to_transactions-eq-ch blocks e h txs) refl
