-- ===== src/Client/Range/Examples.antt =====
-- The theorems on ranges, applied to a range of one block with one transaction.
use mathlib.Core.List.{Permᴰ}
use terra_worker.Prelude.{List, [], ◌∷◌, ◌++◌, map, ◌≡◌, refl, ℕ, ◌+◌}
use terra_worker.Go.Outcome.{ok}
use terra_worker.Api.Search.{singular_height_worker}
use terra_worker.Api.Transactions.{TxResponse, TransactionResp, raw_to_transactions_ch}
use terra_worker.Client.Ranges.{all_searches}
use terra_worker.Client.Pipeline.{returned, Pipeline, Run}
use terra_worker.Client.Pipeline.Settled.{block_responses, steps_of}
use terra_worker.Client.Pipeline.Completed.{Run-completes}
use terra_worker.Client.Range.{transaction_response, search, convert}
use terra_worker.Client.Range.Delivers.{converts, Run-sequence}
use terra_worker.Client.Range.Samples.{
  plain, codec, tx_raw, client, entries, made, finds, makes, blocks, responses, at_end,
  before_stops, Run-delivery, Run-at_end,
}

Run-sequence_example :
    (txs : List TxResponse) × (rs : List TransactionResp) × (singular_height_worker
        client.search_node
        (all_searches entries)
      ≡ ok txs)
    × (raw_to_transactions_ch plain codec blocks txs ≡ ok rs)
    × Permᴰ responses (
        block_responses client.encode_block entries
        ++ map (transaction_response client.encode_transaction) rs)
Run-sequence_example =
    Run-sequence client (λ g. tx_raw ∷ []) finds blocks (made blocks) (makes blocks) entries 16
      at_end (Run-at_end blocks) refl

Run-completes_example :
    (m : ℕ) × (t : Pipeline) × Run (search client) (convert client blocks) before_stops m t
    × (t.main ≡ returned)
    × (8 + m ≡ steps_of (λ g. tx_raw ∷ []) entries)
Run-completes_example =
    Run-completes (λ g. tx_raw ∷ [])
      (λ tx. transaction_response client.encode_transaction (made blocks tx)) finds
      (converts client (λ g. tx_raw ∷ []) finds blocks (made blocks) (makes blocks))
      client.encode_block entries 8 before_stops (Run-delivery blocks)
