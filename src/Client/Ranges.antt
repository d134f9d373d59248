-- ===== src/Client/Ranges.antt =====
-- `getRangeSingular` and `GetLatest` of client/client.go: the blocks of a range, and the searches for
-- their transactions.
pub mod Cover
pub mod Fetched
pub mod Lowest
mod Examples
use Prim.Native.String.{◌++◌ as append}
use terra_worker.Prelude.{
  ℕ, zero, suc, ◌+◌, ◌/◌, String, Option, none, some, List, [], ◌∷◌, ◌++◌, map, ltb, leb,
  if◌then◌else◌,
}
use terra_worker.Go.Outcome.{GoError, Outcome, ok, err, panic, message, ◌>>=◌}
use terra_worker.Go.Float.{float64, divide, ceil}
use terra_worker.Structs.{HeightRange, Block}
use terra_worker.Api.Blocks.{BlocksMap, no_blocks, Node, get_blocks_meta}
use terra_worker.Api.Search.{ToGet}
use terra_worker.Client.Stream.{OutResp}
use terra_worker.Client.Heights.{get_starting_height}

-- page
abbrev pub page_size : ℕ
page_size = 100

-- what one fetch sends to `batchesCtrl`, with the map that it leaves
unfoldable pub batch : BlocksMap → Outcome BlocksMap → Outcome (BlocksMap × List GoError)
batch m (ok m') = ok (m', [])
batch m (err e) = ok (m, e ∷ [])
batch m panic = panic

-- The fetches of the pages of a range, in the order in which they take the map's lock, and the
-- errors among their results.
unfoldable pub fetch_pages :
    Node → ℕ → BlocksMap → List HeightRange → Outcome (BlocksMap × List GoError)
unfolding batch
fetch_pages node limit m [] = ok (m, [])
fetch_pages node limit m (bhr ∷ ranges) = do
  first ← batch m (get_blocks_meta node bhr limit m)
  rest ← fetch_pages node limit first.0 ranges
  ok (rest.0, first.1 ++ rest.1)

-- errString
unfoldable pub error_list : (GoError → String) → List GoError → String
error_list error_text [] = ""
error_list error_text (e ∷ es) = append (append (error_text e) " , ") (error_list error_text es)

unfoldable pub without_errors : (GoError → String) → BlocksMap × List GoError → Outcome BlocksMap
unfolding error_list
without_errors error_text (m, []) = ok m
without_errors error_text (m, e ∷ es) =
    err (message (append (append "Errors Getting Blocks: - " (error_list error_text (e ∷ es))) " "))

-- the blocks of a range, for getRangeSingular
unfoldable pub range_blocks : (GoError → String) → Node → List HeightRange → Outcome BlocksMap
unfolding without_errors
range_blocks error_text node ranges = do
  fetched ← fetch_pages node 0 no_blocks ranges
  without_errors error_text fetched

-- int(math.Ceil(float64(n) / float64(page)))
unfoldable pub to_be_done : ℕ → ℕ
to_be_done n = ceil (divide (float64 n) (float64 page_size))

-- the loop over the pages of a block's transactions, from the page behind `i` on
unfoldable pub block_pages : ℕ → ℕ → ℕ → List ToGet
block_pages height i zero = []
block_pages height i (suc left) =
    record { height = height; page = suc i; per_page = page_size } ∷ block_pages height (suc i) left

-- what is put into `toGet` for a block that stands under a height
unfoldable pub block_searches : ℕ → Block → List ToGet
unfolding block_pages
block_searches h block =
    if ltb 0 block.number_of_transactions
    then block_pages h 0 (to_be_done block.number_of_transactions)
    else []

-- the loop over the map, by its entries in the order in which it is walked
unfoldable pub all_searches : List (ℕ × Block) → List ToGet
unfolding block_searches
all_searches [] = []
all_searches ((h, block) ∷ entries) = block_searches h block ++ all_searches entries

-- what is put into `out` for a block
unfoldable pub block_response : (Block → String) → Block → OutResp
block_response encode block = record { type = "Block"; payload = encode block }

-- the entries of the map that the loop of GetLatest does not skip
unfoldable pub not_skipped : BlocksMap → List (ℕ × Block) → List (ℕ × Block)
not_skipped m [] = []
not_skipped m ((h, block) ∷ entries) =
    let rest = not_skipped m entries in
    if ltb m.start_height block.height then rest else (h, block) ∷ rest

-- what GetLatest searches for and sends, once it has its blocks
unfoldable pub latest_blocks : (Block → String) → BlocksMap → List (ℕ × Block) → List OutResp
unfolding block_response not_skipped
latest_blocks encode m entries =
    map (λ entry. block_response encode entry.1) (not_skipped m entries)

unfoldable pub latest_searches : BlocksMap → List (ℕ × Block) → List ToGet
unfolding all_searches not_skipped
latest_searches m entries = all_searches (not_skipped m entries)
