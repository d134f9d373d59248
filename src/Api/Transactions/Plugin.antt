-- ===== src/Api/Transactions/Plugin.antt =====
-- The converter plugin's events are those of the worker.
use terra_worker.Prelude.{ℕ, ◌≡◌, sym, ap, ◌∙◌, Option, none, List, map}
use terra_worker.Go.Outcome.{ok, ok_of_bind, ok-injective}
use terra_worker.Structs.{Block}
use terra_worker.Api.Types.{LogFormat}
use terra_worker.External.{External}
use terra_worker.Api.Events.{no_error, append_events}
use terra_worker.Api.Transactions.{
  TxResponse, StdTx, TransactionResp, Codec, std_tx, converted, raw_to_transaction, log_error,
  read_log, checked_value, get_from_raw, get_events_from_raw, fee_amount,
}

module _ (ext : External) (codec : Codec) where
  -- Where both decoders succeed on a transaction and its log, and rawToTransaction returns a
  -- response, the plugin's GetEventsFromRaw and GetFromRaw give the events and the fee of that
  -- response.
  pub get_events_from_raw-eq :
      (tx_raw : TxResponse) (tx : StdTx) (tx_log : List LogFormat) (blocks : ℕ → Option Block)
      (r : TransactionResp)
      → codec.decode_tx tx_raw.tx_data ≡ (tx, none)
      → codec.decode_log tx_raw.log ≡ (tx_log, none)
      → raw_to_transaction ext codec tx_raw
          (read_log codec tx_raw.log).0
          (read_log codec tx_raw.log).1
          blocks
        ≡ ok r
      → (get_events_from_raw ext codec tx_raw.tx_data tx_raw.log ≡ ok r.payload.events)
        × (get_from_raw codec tx_raw.tx_data ≡ r.payload.fee)
  unfolding get_events_from_raw get_from_raw raw_to_transaction converted read_log log_error std_tx
      checked_value
  get_events_from_raw-eq tx_raw tx tx_log blocks r et el h =
      let msgs = (std_tx codec tx_raw.tx_data (codec.decode_tx tx_raw.tx_data)).msgs in
      let logs = read_log codec tx_raw.log in
      let (evs, e, h1) = ok_of_bind (append_events ext msgs logs.0 logs.1) _ h in
      let made = ok-injective _ r h1 in
      let told : append_events ext tx.msgs tx_log no_error ≡ ok evs = rw (et, el) at e in
      (
        rw (et, el) (told ∙ ap (λ (t : TransactionResp). ok t.payload.events) made),
        rw et (
            sym (ap (λ p. map fee_amount (std_tx codec tx_raw.tx_data p).fee) et)
            ∙ ap (λ (t : TransactionResp). t.payload.fee) made),
      )
