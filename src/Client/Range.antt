-- ===== src/Client/Range.antt =====
-- `getRangeSingular` of client/client.go: the blocks and the transactions of a range.
pub mod Delivers
pub mod Samples
mod Examples
use mathlib.Core.List.{Permᴰ}
use terra_worker.Prelude.{ℕ, String, Option, some, List, ◌≡◌}
use terra_worker.Go.Outcome.{GoError, Outcome, ok, err, ◌>>=◌}
use terra_worker.Structs.{HeightRange, Block}
use terra_worker.External.{External}
use terra_worker.Api.Blocks.{BlocksMap, Node}
use terra_worker.Api.Search.{ToGet, SearchNode, search_tx_singular_height, or_nothing}
use terra_worker.Api.Transactions.{
  TxResponse, Transaction, TransactionResp, Codec, raw_to_transaction, read_log_ch,
}
use terra_worker.Client.Stream.{OutResp}
use terra_worker.Client.Paging.{blockchain_endpoint_limit, pages}
use terra_worker.Client.Ranges.{range_blocks}
use terra_worker.Client.Pipeline.{loop_actions, returned, Pipeline, start_pipeline, Run}

-- what sendResp reads of the response for a transaction
unfoldable pub transaction_response : (Transaction → String) → TransactionResp → OutResp
transaction_response encode r = record { type = r.type; payload = encode r.payload }

-- one round of RawToTransactionCh
unfoldable pub convert_ch :
    External → Codec → (ℕ → Option Block) → TxResponse → Outcome TransactionResp
convert_ch ext codec blocks tx_raw =
    raw_to_transaction ext codec tx_raw (read_log_ch codec tx_raw.log).0
      (read_log_ch codec tx_raw.log).1 blocks

-- What the range is fetched with: the node, the decoders, and the encoders of what is put into `out`.
pub record RangeClient : Type 0 where
  pub error_text : GoError → String
  pub node : Node
  pub search_node : SearchNode
  pub ext : External
  pub codec : Codec
  pub encode_block : Block → String
  pub encode_transaction : Transaction → String

module _ (client : RangeClient) where
  -- what a worker has to send for a search
  unfoldable pub search : ToGet → Outcome (List TxResponse)
  search g = or_nothing (search_tx_singular_height client.search_node g)

  unfoldable pub convert : (ℕ → Option Block) → TxResponse → Outcome OutResp
  unfolding convert_ch transaction_response
  convert blocks tx_raw = do
    r ← convert_ch client.ext client.codec blocks tx_raw
    ok (transaction_response client.encode_transaction r)

  -- What the call for a range can come to: an error when a page of its blocks fails, or what its
  -- goroutines have put into `out` when it returns, for an order `walk` in which Go walks the map.
  -- The fetches of the pages run at once. `order` has those that succeed in the order in which they
  -- take the map's lock, and those that fail in the order in which their errors are received: a
  -- fetch that fails leaves the map as it is, so it can stand anywhere among the others.
  pub data RangeSingular (walk : BlocksMap → List (ℕ × Block)) (hr : HeightRange)
      : Outcome (List OutResp) → Type 0 where
    failed :
        (fuel : ℕ) {ranges order : List HeightRange} {e : GoError}
        → pages fuel blockchain_endpoint_limit hr 0 ≡ some ranges
        → Permᴰ ranges order
        → range_blocks client.error_text client.node order ≡ err e
        → RangeSingular walk hr (err e)
    fetched :
        (fuel : ℕ) {ranges order : List HeightRange} {n : ℕ} {m : BlocksMap} {s : Pipeline}
        → pages fuel blockchain_endpoint_limit hr 0 ≡ some ranges
        → Permᴰ ranges order
        → range_blocks client.error_text client.node order ≡ ok m
        → Run search
            (convert m.blocks)
            (start_pipeline (loop_actions client.encode_block (walk m)))
            n
            s
        → s.main ≡ returned
        → RangeSingular walk hr (ok s.out)
