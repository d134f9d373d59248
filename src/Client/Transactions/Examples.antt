-- ===== src/Client/Transactions/Examples.antt =====
-- Requests for transactions at concrete ranges, and the theorems applied to them.
use mathlib.Core.Path.{subst}
use mathlib.Core.Option.{some-injective}
use mathlib.Core.List.{Permᴰ}
use terra_worker.Prelude.{
  add64, ℕ, ◌≡◌, refl, true, false, List, [], ◌∷◌, ◌++◌, ◌==◌, if◌then◌else◌, arith, some, All,
}
use terra_worker.Go.Outcome.{Outcome, ok, err, message}
use terra_worker.Structs.{HeightRange}
use terra_worker.Client.Stream.{
  send_one, send_resp, receive, drained, close, OutResp, Sender, start, send_end, Reach, here, next,
  produce, cancel, sender, done, numbered, end_response, error_response,
}
use terra_worker.Client.Paging.Cover.{heights, all_heights, IsPage}
use terra_worker.Client.Transactions.Delivers.{Succeeds, IsDelivered}
use terra_worker.Client.Transactions.{
  handle_range, behind_loop, run_pages, on_page, handle_pages, get_transactions,
}
use terra_worker.Client.Transactions.Complete.{all_outputs}
use terra_worker.Client.Transactions.Failing.{handle_pages-twice}
use terra_worker.Go.Text.{parse_uint}
use terra_worker.Api.Blocks.{
  with_block, no_blocks, add_blocks, add_block, block_of_v4, get_blocks_meta, read_blocks,
  decode_blocks_columbus4, gather, blocks_of,
}
use terra_worker.Client.Paging.{pages, page_range}
use terra_worker.Client.Transactions.Received.{get_transactions-received}
use terra_worker.Api.Transactions.{converted}
use terra_worker.Client.Ranges.{range_blocks, fetch_pages}
use terra_worker.Client.Pipeline.{loop_actions, start_pipeline, here, next}
use terra_worker.Client.Range.{convert, RangeSingular, fetched}
use terra_worker.Client.Range.Samples.{
  codec, tx_raw, client, finds, makes, meta, responses, Run-at_end, walk, range,
}

abbrev single : OutResp
single = record { type = "Block"; payload = "{}" }

abbrev output : HeightRange → List OutResp
output hr = single ∷ []

abbrev heights_of : ℕ → ℕ → HeightRange
heights_of a b = record {
  start_height = a;
  end_height = b;
  network = "terra";
  chain_id = "columbus-4";
}

-- the page that starts at height 5 succeeds, the others fail
abbrev up_to_5 : HeightRange → Outcome (List OutResp)
up_to_5 hr =
    if hr.start_height == 5 then ok (single ∷ []) else err (message "Errors Getting Blocks: - ")

abbrev produced_one : Sender
produced_one = record start { produced = single ∷ []; out = single ∷ [] }

-- the context is cancelled before the block is received
abbrev cut_off : Sender
cut_off = send_end "7" (record produced_one { cancelled = true })

Reach-cut_off : Reach "7" 201 start cut_off
Reach-cut_off =
    next (next (next here (produce single refl (omega arith))) cancel) (sender (done refl refl))

handle_pages-twice_example :
    (handle_pages
        (λ e. "failed")
        "7"
        up_to_5
        (heights_of 5 7 ∷ heights_of 8 10 ∷ heights_of 11 12 ∷ [])
      ≡ ok (record {
        produced = single ∷ [];
        direct = error_response "7" "failed" ∷ [];
        started = true;
        waits = false;
      }))
    × (received lost : List OutResp) × (single ∷ [] ≡ received ++ lost)
    × (cut_off.sent ≡ numbered "7" 0 received ++ end_response "7" 0 ∷ [])
unfolding send_end all_outputs
handle_pages-twice_example =
    handle_pages-twice (λ e. "failed") "7" up_to_5 output (heights_of 5 7 ∷ []) (heights_of 8 10)
      (heights_of 11 12 ∷ []) (message "Errors Getting Blocks: - ") (refl, tt) refl 201 cut_off
      Reach-cut_off refl refl

fetched_range : RangeSingular client walk range (ok responses)
unfolding range_blocks fetch_pages get_blocks_meta read_blocks decode_blocks_columbus4 gather
    blocks_of add_blocks add_block pages page_range convert loop_actions start_pipeline with_block
    block_of_v4 parse_uint
fetched_range =
    fetched 3 {ranges = range ∷ []} {m = add_blocks no_blocks (block_of_v4 meta ∷ [])} refl
      (Permᴰ.cons refl Permᴰ.nil) refl (Run-at_end _) refl

-- the block and the transaction are put into the channel and received
abbrev both_sent : Sender
both_sent = send_end "7" (record start {
  produced = responses;
  closed = true;
  order = 2;
  sent = numbered "7" 0 responses;
})

Reach-both_sent : Reach "7" 201 start both_sent
unfolding send_one send_end numbered add64
Reach-both_sent =
    next
      (next
        (next
          (next
            (next
              (next here
                (produce (record { type = "Block"; payload = "block" }) refl (omega arith)))
              (produce (record { type = "Transaction"; payload = "AB" }) refl (omega arith)))
            (sender (receive _ _ refl refl)))
          (sender (receive _ _ refl refl)))
        (close refl))
      (sender (drained refl refl refl))

abbrev OnPage : HeightRange → Type 0
OnPage =
    Succeeds client walk (λ g. tx_raw ∷ []) (λ blocks tx. converted codec tx blocks []) finds makes
      "7" (λ hr. ok responses) (λ hr. responses)

one_page : (ps : List HeightRange) → pages 3 5 range 0 ≡ some ps → All OnPage ps
unfolding pages page_range
one_page ps e = subst (All OnPage) (some-injective (range ∷ []) ps e) ((refl, fetched_range), tt)

get_transactions-received_example :
    (ps : List HeightRange) × (all_heights ps ≡ heights range)
    × All (IsPage 5) ps
    × (get_transactions client.error_text "7" (λ hr. ok responses) 3 5 (ok range)
        ≡ some (
            ok (record {
              produced = all_outputs (λ hr. responses) ps;
              direct = [];
              started = true;
              waits = true;
            })))
    × (both_sent.sent ≡ send_resp "7" (all_outputs (λ hr. responses) ps))
    × All (λ p. IsDelivered client walk p responses) ps
unfolding send_end get_transactions handle_range handle_pages behind_loop run_pages on_page pages
    page_range
get_transactions-received_example =
    get_transactions-received client walk (λ g. tx_raw ∷ [])
      (λ blocks tx. converted codec tx blocks []) finds makes "7" (λ hr. ok responses)
      (λ hr. responses) 3 5 range 201 both_sent (omega arith) (omega arith) (omega arith)
      (omega arith) (omega arith) one_page Reach-both_sent refl refl refl
