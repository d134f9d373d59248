-- ===== src/Api/Search.antt =====
-- The searches for transactions of api/transaction.go.
pub mod Lost
use Prim.Native.String.{◌++◌ as append}
use terra_worker.Prelude.{
  ℕ, String, Bool, Option, none, some, List, [], ◌∷◌, ◌++◌, ltb, ◌==◌, ◌&&◌, not, str_eq,
  if◌then◌else◌,
}
use terra_worker.Go.Outcome.{GoError, Outcome, ok, err, panic, message, wrap, ◌>>=◌}
use terra_worker.Go.Text.{format_uint}
use terra_worker.Structs.{HeightRange, Block}
use terra_worker.External.{External}
use terra_worker.Api.Blocks.{Answer, failed, answered}
use terra_worker.Api.Transactions.{TxResponse, TransactionResp, Codec, raw_to_transactions}

-- ToGet
pub record ToGet : Type 0 where
  pub height : ℕ
  pub page : ℕ
  pub per_page : ℕ

-- types.ResultTxSearch and types.GetTxSearchResponse, with the message of their errors
pub record SearchResult : Type 0 where
  pub error_message : String
  pub txs : List TxResponse

-- The node and the packages that it is reached through: http.NewRequest, the rate limiter, the HTTP
-- client on the parameters of a search, and the JSON decoders on a body, of SearchTx and of
-- SearchTxSingularHeight.
pub record SearchNode : Type 0 where
  pub new_request : Outcome {0} Unit
  pub wait : Outcome {0} Unit
  pub tx_search : List (String × String) → Answer
  pub decode_search : String → Outcome SearchResult
  pub decode : String → Outcome SearchResult

unfoldable pub search_query : String → ℕ → ℕ → List (String × String)
search_query query page per_page =
    ("query", query) ∷ ("page", format_uint page) ∷ ("per_page", format_uint per_page) ∷ []

-- "tx.height=H"
unfoldable pub height_query : ℕ → String
height_query height = append "\"tx.height=" (append (format_uint height) "\"")

-- "tx.height>=S AND tx.height<=E", or only the first part
unfoldable pub range_query : HeightRange → String
range_query r =
    let upper =
      if ltb 0 r.end_height && not (r.end_height == r.start_height)
      then append " AND " (append "tx.height<=" (format_uint r.end_height))
      else "" in
    append "\"tx.height>=" (append (format_uint r.start_height) (append upper "\""))

unfoldable pub wrapped {ℓ} : {A : Type ℓ} → String → Outcome A → Outcome A
wrapped text (ok a) = ok a
wrapped text (err e) = err (wrap text e)
wrapped text panic = panic

unfoldable pub found_txs : SearchResult → Outcome (List TxResponse)
found_txs result =
    if not (str_eq result.error_message "")
    then err (message "Error getting search: ")
    else ok result.txs

unfoldable pub read_search : (String → Outcome SearchResult) → Answer → Outcome (List TxResponse)
unfolding wrapped found_txs
read_search decode (failed e) = err e
read_search decode (answered status body) =
    if ltb 399 status
    then err (message "error getting response from server ")
    else (do result ← wrapped "unable to decode result body " (decode body); found_txs result)

unfoldable pub search_tx_singular_height : SearchNode → ToGet → Outcome (List TxResponse)
unfolding search_query height_query
search_tx_singular_height node current = do
  _ ← node.new_request
  _ ← node.wait
  read_search node.decode
      (node.tx_search (search_query (height_query current.height) current.page current.per_page))

-- what a failed search puts into `out`
unfoldable pub or_nothing : Outcome (List TxResponse) → Outcome (List TxResponse)
or_nothing (ok txs) = ok txs
or_nothing (err e) = ok []
or_nothing panic = panic

-- What SingularHeightWorker puts into `out` for what it takes from `in`.
unfoldable pub singular_height_worker : SearchNode → List ToGet → Outcome (List TxResponse)
singular_height_worker node [] = ok []
singular_height_worker node (current ∷ gets) = do
  resp ← or_nothing (search_tx_singular_height node current)
  rest ← singular_height_worker node gets
  ok (resp ++ rest)

-- do not block initial calls
unfoldable pub wait_unless_initial : SearchNode → HeightRange → Outcome {0} Unit
wait_unless_initial node r =
    if not (r.end_height == 0) && not (r.start_height == 0) then node.wait else ok tt

unfoldable pub search_txs : SearchNode → HeightRange → ℕ → ℕ → Outcome (List TxResponse)
unfolding wait_unless_initial search_query range_query
search_txs node r page per_page = do
  _ ← node.new_request
  _ ← wait_unless_initial node r
  read_search node.decode_search (node.tx_search (search_query (range_query r) page per_page))

-- What SearchTx puts into `out` and then into `fin`: the errors by themselves, and `none` for the
-- empty text. RawToTransaction returns no error.
unfoldable pub answered_search :
    External
    → Codec
    → (ℕ → Option Block)
    → Outcome (List TxResponse)
    → Outcome (List TransactionResp × Option GoError)
answered_search ext codec blocks (ok txs) = do
  rs ← raw_to_transactions ext codec blocks txs
  ok (rs, none)
answered_search ext codec blocks (err e) = ok ([], some e)
answered_search ext codec blocks panic = panic

unfoldable pub search_tx :
    External
    → Codec
    → SearchNode
    → HeightRange
    → (ℕ → Option Block)
    → ℕ
    → ℕ
    → Outcome (List TransactionResp × Option GoError)
unfolding search_txs answered_search
search_tx ext codec node r blocks page per_page =
    answered_search ext codec blocks (search_txs node r page per_page)
