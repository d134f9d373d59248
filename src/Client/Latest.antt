-- ===== src/Client/Latest.antt =====
-- `GetLatest` of client/client.go, up to the searches that it starts. The goroutines that it shares with
-- `getRangeSingular` are those of Client.Pipeline.
pub mod Schedule
pub mod Delivers
mod Examples
use mathlib.Core.Option
use terra_worker.Prelude.{
  ℕ, zero, suc, ◌+◌, ◌*◌, String, Bool, true, false, Option, none, some, List, [], ◌∷◌, ◌++◌, ◌==◌,
  ltb, leb, add64, sub64, if◌then◌else◌,
}
use terra_worker.Go.Outcome.{GoError, Outcome, ok, err, panic, ◌>>=◌}
use terra_worker.Structs.{HeightRange, Block}
use terra_worker.Api.Blocks.{BlocksMap, no_blocks, Node, get_blocks_meta}
use terra_worker.Api.Search.{ToGet}
use terra_worker.Client.Stream.{OutResp, TaskResponse, error_response}
use terra_worker.Client.Heights.{get_starting_height}
use terra_worker.Client.Paging.{blockchain_endpoint_limit, page_range}
use terra_worker.Client.Pipeline.{Action, block_actions}
use terra_worker.Client.Ranges.{fetch_pages, without_errors, latest_blocks, latest_searches}

-- structs.LatestDataRequest, with the fields that are used
pub record LatestDataRequest : Type 0 where
  pub network : String
  pub chain_id : String
  pub last_height : ℕ

-- The range of the first fetch: the node answers a request without heights with its latest blocks.
unfoldable pub latest_range : LatestDataRequest → HeightRange
latest_range ldr = record {
  start_height = 0;
  end_height = 0;
  network = ldr.network;
  chain_id = ldr.chain_id;
}

-- The loop that starts the fetches reads the lowest height of the map while the fetches change it,
-- three times in a round where the page ends above it: `reads` has what the reads of a round see.
pub record Reads : Type 0 where
  pub compared : ℕ
  pub assigned : ℕ
  pub tested : ℕ

-- round `i`, from the height `start` on
unfoldable pub latest_page : LatestDataRequest → ℕ → Reads → ℕ → HeightRange
unfolding latest_range
latest_page ldr start reads i =
    let first = add64 start (i * blockchain_endpoint_limit) in
    let last = sub64 (add64 first blockchain_endpoint_limit) 1 in
    record (latest_range ldr) {
      start_height = first;
      end_height = if ltb reads.compared last then reads.assigned else last;
    }

-- The ranges that are fetched, from round `i` on. `none` means that the fuel ran out.
unfoldable pub latest_pages :
    LatestDataRequest → (ℕ → Reads) → ℕ → ℕ → ℕ → Option (List HeightRange)
latest_pages ldr reads zero start i = none
latest_pages ldr reads (suc fuel) start i =
    let page = latest_page ldr start (reads i) i in
    let rest = latest_pages ldr reads fuel start (suc i) in
    if page.end_height == (reads i).tested
    then some (page ∷ [])
    else Option.map (λ ps. page ∷ ps) rest

module _ (error_text : GoError → String) (node : Node) (ldr : LatestDataRequest) where
  -- the fetches of the pages into the map that the first fetch left
  unfoldable pub fetch_latest : BlocksMap → List HeightRange → Outcome BlocksMap
  fetch_latest m ranges = do
    fetched ← fetch_pages node blockchain_endpoint_limit m ranges
    without_errors error_text fetched

  unfoldable pub behind_first : (ℕ → Reads) → ℕ → ℕ → Outcome BlocksMap → Option (Outcome BlocksMap)
  unfolding fetch_latest
  behind_first reads fuel maximum_heights_to_get (ok m) =
      let start = get_starting_height ldr.last_height maximum_heights_to_get m.end_height in
      if leb start m.start_height
      then Option.map (fetch_latest m) (latest_pages ldr reads fuel start 0)
      else some (ok m)
  behind_first reads fuel maximum_heights_to_get (err e) = some (err e)
  behind_first reads fuel maximum_heights_to_get panic = some panic

  -- the blocks of the handler's map
  unfoldable pub latest_map : (ℕ → Reads) → ℕ → ℕ → Option (Outcome BlocksMap)
  unfolding behind_first latest_range
  latest_map reads fuel maximum_heights_to_get =
      behind_first reads fuel maximum_heights_to_get
        (get_blocks_meta node (latest_range ldr) blockchain_endpoint_limit no_blocks)

-- the loop over the map, by its entries in the order in which it is walked
unfoldable pub latest_actions : (Block → String) → BlocksMap → List (ℕ × Block) → List Action
latest_actions encode m [] = []
latest_actions encode m ((h, block) ∷ entries) =
    let rest = latest_actions encode m entries in
    if ltb m.start_height block.height then rest else block_actions encode h block ++ rest

-- What the handler does: the responses that it sends itself, the blocks that it puts into `out`,
-- and the searches that it starts. If there is an `out` it closes it and returns.
pub record LatestHandled : Type 0 where
  pub direct : List TaskResponse
  pub started : Bool
  pub blocks : List OutResp
  pub searches : List ToGet

-- `walk` is the order in which the entries of the map are walked.
unfoldable pub answer_latest :
    (GoError → String)
    → String
    → (Block → String)
    → (BlocksMap → List (ℕ × Block))
    → List TaskResponse
    → Outcome BlocksMap
    → Outcome LatestHandled
answer_latest error_text id encode walk before (ok m) = ok (record {
  direct = before;
  started = true;
  blocks = latest_blocks encode m (walk m);
  searches = latest_searches m (walk m);
})
answer_latest error_text id encode walk before (err e) = ok (record {
  direct = before ++ error_response id (error_text e) ∷ [];
  started = false;
  blocks = [];
  searches = [];
})
answer_latest error_text id encode walk before panic = panic

-- what is sent when the payload cannot be decoded; the handler goes on
unfoldable pub undecoded : String → Option GoError → List TaskResponse
undecoded id none = []
undecoded id (some e) = error_response id "Cannot unmarshal payment" ∷ []

-- The payload is what json.Unmarshal leaves in the request, also beside an error.
unfoldable pub get_latest :
    (GoError → String)
    → String
    → (Block → String)
    → (BlocksMap → List (ℕ × Block))
    → Node
    → (ℕ → Reads)
    → ℕ
    → ℕ
    → LatestDataRequest × Option GoError
    → Option (Outcome LatestHandled)
unfolding latest_map answer_latest undecoded
get_latest error_text id encode walk node reads fuel maximum_heights_to_get (ldr, failed) =
    Option.map (answer_latest error_text id encode walk (undecoded id failed))
      (latest_map error_text node ldr reads fuel maximum_heights_to_get)
