-- ===== src/Client/Transactions/Delivers.antt =====
-- What a request for transactions delivers, page after page.
use mathlib.Core.List.{Permᴰ}
use mathlib.Core.Path.{subst}
use terra_worker.Prelude.{
  ℕ, String, true, false, Option, none, some, List, [], ◌∷◌, ◌++◌, map, ◌≡◌, ◌<◌, refl, arith, ◌==◌,
  All,
}
use terra_worker.Go.Outcome.{Outcome, ok, ok-injective}
use terra_worker.Structs.{HeightRange, Block}
use terra_worker.Api.Blocks.{BlocksMap, no_blocks}
use terra_worker.Api.Search.{ToGet, singular_height_worker}
use terra_worker.Api.Transactions.{TxResponse, TransactionResp, raw_to_transactions_ch}
use terra_worker.Client.Stream.{OutResp}
use terra_worker.Client.Paging.{blockchain_endpoint_limit, pages}
use terra_worker.Client.Ranges.{all_searches}
use terra_worker.Client.Ranges.Fetched.{IsFetched, range_blocks-IsFetched}
use terra_worker.Client.Pipeline.Settled.{block_responses}
use terra_worker.Client.Range.{
  transaction_response, convert_ch, RangeClient, search, RangeSingular, failed, fetched,
}
use terra_worker.Client.Range.Delivers.{Run-sequence}
use terra_worker.Client.Transactions.{
  on_page, run_pages, behind_loop, handle_pages, handle_range, get_transactions,
}
use terra_worker.Client.Transactions.Complete.{all_outputs}

-- The output of a range: the map of its blocks was fetched, each page without an error, in whatever
-- order the pages took its lock, and what was put into
-- `out` is, but for its order, the blocks of the map and the transactions that their searches find,
-- as one worker and one converter give them in sequence.
pub record IsDelivered (client : RangeClient) (walk : BlocksMap → List (ℕ × Block))
    (hr : HeightRange) (out : List OutResp) : Type 0 where
  pub fuel : ℕ
  pub ranges : List HeightRange
  pub paged : pages fuel blockchain_endpoint_limit hr 0 ≡ some ranges
  pub order : List HeightRange
  pub same_pages : Permᴰ ranges order
  pub m : BlocksMap
  pub has_fetched : IsFetched client.node 0 no_blocks order m
  pub txs : List TxResponse
  pub searched : singular_height_worker client.search_node (all_searches (walk m)) ≡ ok txs
  pub rs : List TransactionResp
  pub has_converted : raw_to_transactions_ch client.ext client.codec m.blocks txs ≡ ok rs
  pub same_items : Permᴰ out (
      block_responses client.encode_block (walk m)
      ++ map (transaction_response client.encode_transaction) rs)

module _ (client : RangeClient) (walk : BlocksMap → List (ℕ × Block))
    (found : ToGet → List TxResponse) (made : (ℕ → Option Block) → TxResponse → TransactionResp)
    (finds : (g : ToGet) → search client g ≡ ok (found g))
    (makes : (blocks : ℕ → Option Block) (tx : TxResponse)
      → convert_ch client.ext client.codec blocks tx ≡ ok (made blocks tx)) where
  RangeSingular-IsDelivered :
      (hr : HeightRange) (o : Outcome (List OutResp)) (out : List OutResp)
      → RangeSingular client walk hr o
      → o ≡ ok out
      → IsDelivered client walk hr out
  RangeSingular-IsDelivered hr o out (failed fuel paged ordered fails) e = cc
  RangeSingular-IsDelivered hr o out
        (fetched fuel {ranges} {order} {n} {m} {s} paged ordered gathered r at) e =
      let (txs, rs, searched, converted, same) =
        Run-sequence client found finds m.blocks (made m.blocks) (makes m.blocks) (walk m) n s r
          at in
      record {
        fuel = fuel;
        ranges = ranges;
        paged = paged;
        order = order;
        same_pages = ordered;
        m = m;
        has_fetched = range_blocks-IsFetched client.error_text client.node order m gathered;
        txs = txs;
        searched = searched;
        rs = rs;
        has_converted = converted;
        same_items =
            subst
              (λ l. Permᴰ l (
                block_responses client.encode_block (walk m)
                ++ map (transaction_response client.encode_transaction) rs))
              (ok-injective _ _ e) same;
      }

  module _ (id : String) (range : HeightRange → Outcome (List OutResp))
      (output : HeightRange → List OutResp) where
    -- the page's output is one that getRangeSingular can come to
    abbrev pub Succeeds : HeightRange → Type 0
    Succeeds p = (range p ≡ ok (output p)) × RangeSingular client walk p (ok (output p))

    run_pages-Succeeds :
        (ps : List HeightRange)
        → All Succeeds ps
        → run_pages range ps ≡ ok (all_outputs output ps, none)
    unfolding run_pages on_page all_outputs
    run_pages-Succeeds [] h = refl
    run_pages-Succeeds (p ∷ ps) (h, hs) = rw (h.0, run_pages-Succeeds ps hs) refl

    Succeeds-IsDelivered :
        (ps : List HeightRange)
        → All Succeeds ps
        → All (λ p. IsDelivered client walk p (output p)) ps
    Succeeds-IsDelivered [] h = tt
    Succeeds-IsDelivered (p ∷ ps) (h, hs) =
        (RangeSingular-IsDelivered p _ (output p) h.1 refl, Succeeds-IsDelivered ps hs)

    -- the whole handler, by the outputs of its pages
    pub get_transactions-IsDelivered :
        (fuel big_page : ℕ) (hr : HeightRange) (ps : List HeightRange)
        → 0 < hr.end_height
        → pages fuel big_page hr 0 ≡ some ps
        → All Succeeds ps
        → (get_transactions client.error_text id range fuel big_page (ok hr)
            ≡ some (
                ok (record {
                  produced = all_outputs output ps;
                  direct = [];
                  started = true;
                  waits = true;
                })))
          × All (λ p. IsDelivered client walk p (output p)) ps
    unfolding get_transactions handle_range handle_pages behind_loop
    get_transactions-IsDelivered fuel big_page hr ps above paged succeeds =
        let nonzero : (hr.end_height == 0) ≡ false = ground arith in
        (rw (nonzero, paged, run_pages-Succeeds ps succeeds) refl, Succeeds-IsDelivered ps succeeds)
