-- ===== src/Client/Transactions/Received.antt =====
-- What the manager receives for a request for transactions.
use terra_worker.Prelude.{
  ℕ, ◌+◌, ◌<◌, ◌≤◌, two64, String, true, false, Option, none, some, List, [], ◌≡◌, ◌∙◌, ap, All,
}
use terra_worker.Go.Outcome.{Outcome, ok, err, panic}
use terra_worker.Structs.{HeightRange, Block}
use terra_worker.Api.Blocks.{BlocksMap}
use terra_worker.Api.Search.{ToGet}
use terra_worker.Api.Transactions.{TxResponse, TransactionResp}
use terra_worker.Client.Stream.{OutResp, Sender, start, Reach, send_resp}
use terra_worker.Client.Stream.Transcript.{Reach-send_resp}
use terra_worker.Client.Paging.{pages}
use terra_worker.Client.Paging.Cover.{heights, all_heights, IsPage, pages-cover}
use terra_worker.Client.Range.{convert_ch, RangeClient, search}
use terra_worker.Client.Transactions.{Handled, get_transactions}
use terra_worker.Client.Transactions.Complete.{all_outputs}
use terra_worker.Client.Transactions.Delivers.{IsDelivered, Succeeds, get_transactions-IsDelivered}

-- what a handler that returns has put into its channel
abbrev pub put_into_out : Option (Outcome Handled) → List OutResp
put_into_out none = []
put_into_out (some (ok handled)) = handled.produced
put_into_out (some (err e)) = []
put_into_out (some panic) = []

module _ (client : RangeClient) (walk : BlocksMap → List (ℕ × Block))
    (found : ToGet → List TxResponse) (made : (ℕ → Option Block) → TxResponse → TransactionResp)
    (finds : (g : ToGet) → search client g ≡ ok (found g))
    (makes : (blocks : ℕ → Option Block) (tx : TxResponse)
      → convert_ch client.ext client.codec blocks tx ≡ ok (made blocks tx))
    (id : String) (range : HeightRange → Outcome (List OutResp))
    (output : HeightRange → List OutResp) where
  -- For a page size above 0, a range whose start is not above its end, whose end is above 0 and
  -- far enough below 2^64, and fuel for each height, where no search and no conversion panics, and
  -- the call for each page of the range comes to an output that getRangeSingular can come to:
  -- GetTransactions ends, its pages have the heights of the range, each once, in pages of at most
  -- that size; it closes its channel, waits for sendResp, sends nothing itself, and has put into
  -- the channel the outputs of the pages, in order; where sendResp has ended with all of them put
  -- into the channel and the task not cancelled, the manager was sent each of them, numbered in
  -- order, modulo 2^64, and the final END; and the output of each page is, but for its own order,
  -- the blocks that were fetched without an error, in whatever order the fetches took the lock,
  -- and the transactions that their searches give in sequence.
  pub get_transactions-received :
      (fuel big_page : ℕ) (hr : HeightRange) (capacity : ℕ) (s : Sender)
      → 0 < hr.end_height
      → 0 < big_page
      → hr.end_height + big_page < two64
      → hr.start_height ≤ hr.end_height
      → hr.end_height < hr.start_height + fuel
      → ((ps : List HeightRange)
          → pages fuel big_page hr 0 ≡ some ps
          → All (Succeeds client walk found made finds makes id range output) ps)
      → Reach id capacity start s
      → s.produced
        ≡ put_into_out (get_transactions client.error_text id range fuel big_page (ok hr))
      → s.ended ≡ true
      → s.cancelled ≡ false
      → (ps : List HeightRange) × (all_heights ps ≡ heights hr)
        × All (IsPage big_page) ps
        × (get_transactions client.error_text id range fuel big_page (ok hr)
            ≡ some (
                ok (record {
                  produced = all_outputs output ps;
                  direct = [];
                  started = true;
                  waits = true;
                })))
        × (s.sent ≡ send_resp id (all_outputs output ps))
        × All (λ p. IsDelivered client walk p (output p)) ps
  get_transactions-received fuel big_page hr capacity s above size far low enough succeeds r all
        ended calm =
      let (ps, paged, covered, small) = pages-cover big_page hr size far fuel low enough in
      let (handled, delivered) =
        get_transactions-IsDelivered client walk found made finds makes id range output fuel
          big_page hr ps above paged (succeeds ps paged) in
      (
        ps,
        covered,
        small,
        handled,
        Reach-send_resp r ended calm ∙ ap (send_resp id) (all ∙ ap put_into_out handled),
        delivered,
      )
