-- ===== src/Client/Latest/Examples.antt =====
-- GetLatest at concrete heights, and the theorems applied to them.
use mathlib.Core.List.{Permᴰ}
use terra_worker.Prelude.{
  ◌≡◌, some, List, [], ◌∷◌, All, arith, ℕ, true, none, ◌++◌, map, refl, add64, sub64,
}
use terra_worker.Structs.{HeightRange}
use terra_worker.Client.Paging.{blockchain_endpoint_limit}
use terra_worker.Client.Paging.Cover.{heights, all_heights, IsPage}
use terra_worker.Client.Latest.{
  LatestDataRequest, latest_pages, Reads, LatestHandled, latest_map, get_latest, latest_actions,
  latest_page, behind_first, fetch_latest, latest_range,
}
use terra_worker.Client.Latest.Schedule.{
  still, from_to, after_first, latest_pages-cover, latest_pages_stop,
}
use terra_worker.Go.Outcome.{ok}
use terra_worker.Go.Text.{parse_uint}
use terra_worker.Api.Blocks.{
  BlocksMap, with_block, no_blocks, add_blocks, add_block, block_of_v4, get_blocks_meta,
  read_blocks, decode_blocks_columbus4, gather, blocks_of, higher, lower,
}
use terra_worker.Client.Latest.Delivers.{get_latest-IsDelivered}
use terra_worker.Api.Search.{singular_height_worker}
use terra_worker.Api.Transactions.{TxResponse, TransactionResp, raw_to_transactions_ch}
use terra_worker.Client.Ranges.{fetch_pages, without_errors, batch}
use terra_worker.Client.Pipeline.{loop_actions}
use terra_worker.Client.Range.{transaction_response}
use terra_worker.Client.Range.Samples.{
  plain, codec, tx_raw, client, made, finds, makes, meta, responses, at_end, Run-at_end, walk,
}
use terra_worker.Client.Heights.{get_starting_height}

abbrev ldr : LatestDataRequest
ldr = record { network = "terra"; chain_id = "columbus-4"; last_height = 100 }

latest_pages-cover_example :
    (ps : List HeightRange) × (latest_pages ldr (λ i. still 181) 100 100 0 ≡ some ps)
    × (all_heights ps ≡ heights (from_to ldr 100 181))
    × All (IsPage blockchain_endpoint_limit) ps
latest_pages-cover_example =
    latest_pages-cover ldr 181 100 100 (omega arith) (omega arith) (omega arith)

latest_pages_stop_example :
    latest_pages ldr (after_first 181 100) 100 100 0
    ≡ some (from_to ldr 100 119 ∷ from_to ldr 120 100 ∷ [])
latest_pages_stop_example = latest_pages_stop ldr 181 98 100 (omega arith) (omega arith)

-- the manager has the blocks up to height 6
abbrev request_latest : LatestDataRequest
request_latest = record { network = "terra"; chain_id = "columbus-4"; last_height = 6 }

abbrev calm : ℕ → Reads
calm i = record { compared = 7; assigned = 7; tested = 7 }

-- the block is fetched twice
abbrev latest : BlocksMap
latest = add_blocks (add_blocks no_blocks (block_of_v4 meta ∷ [])) (block_of_v4 meta ∷ [])

latest_gathered :
    latest_map client.error_text client.node request_latest calm 3 10 ≡ some (ok latest)
unfolding latest_map get_blocks_meta read_blocks decode_blocks_columbus4 gather get_starting_height
    add_blocks blocks_of add_block higher block_of_v4 parse_uint lower latest_pages latest_page
    add64 sub64 fetch_pages without_errors behind_first fetch_latest latest_range batch
latest_gathered = refl

get_latest-IsDelivered_example :
    (handled : LatestHandled) × (txs : List TxResponse) × (rs : List TransactionResp) × (get_latest
        client.error_text "7" client.encode_block walk client.node calm 3 10
        (request_latest, none)
      ≡ some (ok handled))
    × (handled.started ≡ true)
    × (singular_height_worker client.search_node handled.searches ≡ ok txs)
    × (raw_to_transactions_ch plain codec latest.blocks txs ≡ ok rs)
    × Permᴰ responses (handled.blocks ++ map (transaction_response client.encode_transaction) rs)
unfolding latest_actions loop_actions add_blocks add_block with_block block_of_v4 parse_uint lower
get_latest-IsDelivered_example =
    get_latest-IsDelivered client walk (λ g. tx_raw ∷ []) made finds makes "7" calm 3 10
      request_latest none latest 16 at_end latest_gathered (Run-at_end latest.blocks) refl
