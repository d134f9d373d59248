-- ===== src/Client/Latest/Delivers.antt =====
-- What `GetLatest` puts into its channel.
use mathlib.Core.List.{Permᴰ}
use terra_worker.Prelude.{
  ℕ, String, true, Option, some, List, [], ◌∷◌, ◌++◌, map, ◌≡◌, refl, ltb, Bool-cases, inl, inr,
}
use terra_worker.Go.Outcome.{GoError, ok}
use terra_worker.Structs.{Block}
use terra_worker.Api.Blocks.{BlocksMap}
use terra_worker.Api.Search.{ToGet, singular_height_worker}
use terra_worker.Api.Transactions.{TxResponse, TransactionResp, raw_to_transactions_ch}
use terra_worker.Client.Ranges.{not_skipped, latest_blocks, latest_searches}
use terra_worker.Client.Pipeline.{loop_actions, returned, Pipeline, start_pipeline, Run}
use terra_worker.Client.Range.{transaction_response, convert_ch, RangeClient, search, convert}
use terra_worker.Client.Range.Delivers.{Run-sequence}
use terra_worker.Client.Latest.{
  LatestDataRequest, Reads, LatestHandled, undecoded, latest_map, answer_latest, get_latest,
  latest_actions,
}

latest_actions-eq :
    (encode : Block → String) (m : BlocksMap) (entries : List (ℕ × Block))
    → latest_actions encode m entries ≡ loop_actions encode (not_skipped m entries)
unfolding latest_actions not_skipped loop_actions
latest_actions-eq encode m [] = refl
latest_actions-eq encode m ((h, block) ∷ entries) =
    elim (Bool-cases (ltb m.start_height block.height)) [
      | inl above ↦ rw (above, latest_actions-eq encode m entries) refl
      | inr at ↦ rw (at, latest_actions-eq encode m entries) refl
    ]

module _ (client : RangeClient) (walk : BlocksMap → List (ℕ × Block))
    (found : ToGet → List TxResponse) (made : (ℕ → Option Block) → TxResponse → TransactionResp)
    (finds : (g : ToGet) → search client g ≡ ok (found g))
    (makes : (blocks : ℕ → Option Block) (tx : TxResponse)
      → convert_ch client.ext client.codec blocks tx ≡ ok (made blocks tx)) where
  -- Where no search and no conversion panics, and the fetches leave a map, GetLatest goes on to
  -- its loop, and whichever order the steps of the loop, the searchers and the converter take,
  -- what was put into `out` when all of them have ended is, but for its order, the responses for
  -- the blocks that are not skipped and one for each transaction that their searches give in
  -- sequence.
  pub get_latest-IsDelivered :
      (id : String) (reads : ℕ → Reads) (fuel maximum_heights_to_get : ℕ) (ldr : LatestDataRequest)
      (failed : Option GoError) (m : BlocksMap) (n : ℕ) (s : Pipeline)
      → latest_map client.error_text client.node ldr reads fuel maximum_heights_to_get ≡ some (ok m)
      → Run
          (search client)
          (convert client m.blocks)
          (start_pipeline (latest_actions client.encode_block m (walk m)))
          n
          s
      → s.main ≡ returned
      → (handled : LatestHandled) × (txs : List TxResponse) × (rs : List TransactionResp)
        × (get_latest client.error_text id client.encode_block walk client.node reads fuel
              maximum_heights_to_get
              (ldr, failed)
            ≡ some (ok handled))
        × (handled.started ≡ true)
        × (singular_height_worker client.search_node handled.searches ≡ ok txs)
        × (raw_to_transactions_ch client.ext client.codec m.blocks txs ≡ ok rs)
        × Permᴰ s.out (handled.blocks ++ map (transaction_response client.encode_transaction) rs)
  unfolding get_latest answer_latest latest_blocks latest_searches
  get_latest-IsDelivered id reads fuel maximum_heights_to_get ldr failed m n s gathered r at =
      let handled : LatestHandled = record {
        direct = undecoded id failed;
        started = true;
        blocks = latest_blocks client.encode_block m (walk m);
        searches = latest_searches m (walk m);
      } in
      let (txs, rs, searched, converted, same) =
        Run-sequence client found finds m.blocks (made m.blocks) (makes m.blocks)
          (not_skipped m (walk m)) n s (rw (latest_actions-eq client.encode_block m (walk m)) at r)
          at in
      (handled, txs, rs, rw gathered refl, refl, searched, converted, same)
