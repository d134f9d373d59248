-- ===== src/Client/Range/Delivers.antt =====
-- What a range delivers, against the same work done in sequence.
use mathlib.Core.List.{Permᴰ}
use mathlib.Core.List.{map-map}
use terra_worker.Prelude.{ℕ, Option, List, [], ◌∷◌, ◌++◌, map, ◌≡◌, refl}
use terra_worker.Go.Outcome.{ok}
use terra_worker.Structs.{Block}
use terra_worker.Api.Search.{ToGet, singular_height_worker}
use terra_worker.Api.Transactions.{TxResponse, TransactionResp, raw_to_transactions_ch}
use terra_worker.Client.Ranges.{all_searches}
use terra_worker.Client.Pipeline.{loop_actions, returned, Pipeline, start_pipeline, Run}
use terra_worker.Client.Pipeline.Settled.{block_responses, all_found}
use terra_worker.Client.Pipeline.Delivered.{Run-Perm}
use terra_worker.Client.Range.{transaction_response, convert_ch, RangeClient, search, convert}

module _ (client : RangeClient) (found : ToGet → List TxResponse)
    (finds : (g : ToGet) → search client g ≡ ok (found g)) where
  -- one worker, for all searches
  in_sequence :
      (gs : List ToGet) → singular_height_worker client.search_node gs ≡ ok (all_found found gs)
  unfolding singular_height_worker all_found search
  in_sequence [] = refl
  in_sequence (g ∷ gs) = rw (finds g, in_sequence gs) refl

  module _ (blocks : ℕ → Option Block) (made : TxResponse → TransactionResp)
      (makes : (tx : TxResponse)
        → convert_ch client.ext client.codec blocks tx ≡ ok (made tx)) where
    all_made :
        (txs : List TxResponse)
        → raw_to_transactions_ch client.ext client.codec blocks txs ≡ ok (map made txs)
    unfolding raw_to_transactions_ch convert_ch
    all_made [] = refl
    all_made (tx ∷ txs) = rw (makes tx, all_made txs) refl

    pub converts :
        (tx : TxResponse)
        → convert client blocks tx ≡ ok (transaction_response client.encode_transaction (made tx))
    unfolding convert
    converts tx = rw (makes tx) refl

    -- Where every search of a range is answered without a panic, and so is every conversion:
    -- whichever order the steps of the loop over the map, of the five SingularHeightWorkers and of
    -- RawToTransactionCh take, through the bounded channels between them, when getRangeSingular
    -- returns, what was put into `out` is, but for its order, a response for each block of the map
    -- and one for each transaction that one worker and one converter give for the same searches in
    -- sequence.
    pub Run-sequence :
        (entries : List (ℕ × Block)) (n : ℕ) (s : Pipeline)
        → Run
            (search client)
            (convert client blocks)
            (start_pipeline (loop_actions client.encode_block entries))
            n
            s
        → s.main ≡ returned
        → (txs : List TxResponse) × (rs : List TransactionResp) × (singular_height_worker
              client.search_node
              (all_searches entries)
            ≡ ok txs)
          × (raw_to_transactions_ch client.ext client.codec blocks txs ≡ ok rs)
          × Permᴰ s.out (
              block_responses client.encode_block entries
              ++ map (transaction_response client.encode_transaction) rs)
    Run-sequence entries n s r at =
        let txs = all_found found (all_searches entries) in
        (
          txs,
          map made txs,
          in_sequence (all_searches entries),
          all_made txs,
          rw (map-map) (
              Run-Perm found (λ tx. transaction_response client.encode_transaction (made tx)) finds
                converts client.encode_block entries r at),
        )
