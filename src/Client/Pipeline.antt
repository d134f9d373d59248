-- ===== src/Client/Pipeline.antt =====
-- The goroutines of `getRangeSingular` and `GetLatest` of client/client.go, once a range's blocks are
-- there: the loop over the map, five SingularHeightWorkers and RawToTransactionCh, with the channels
-- between them.
pub mod Weights
pub mod Orderly
pub mod Ordered
pub mod Settled
pub mod Progress
pub mod Completed
pub mod Delivered
use terra_worker.Prelude.{ℕ, zero, suc, ◌<◌, String, List, [], ◌∷◌, ◌++◌, ◌≡◌, map, length, All}
use terra_worker.Go.Outcome.{Outcome, ok}
use terra_worker.Structs.{Block}
use terra_worker.Api.Search.{ToGet}
use terra_worker.Api.Transactions.{TxResponse}
use terra_worker.Client.Stream.{OutResp}
use terra_worker.Client.Ranges.{block_response, block_searches}

-- what the loop over the map does: it puts a response into `out`, or a search into `toGet`
pub data Action : Type 0 where
  emit : OutResp → Action
  request : ToGet → Action

unfoldable pub block_actions : (Block → String) → ℕ → Block → List Action
block_actions encode h block =
    emit (block_response encode block) ∷ map request (block_searches h block)

-- the loop, by the entries of the map in the order in which it is walked
unfoldable pub loop_actions : (Block → String) → List (ℕ × Block) → List Action
unfolding block_actions
loop_actions encode [] = []
loop_actions encode ((h, block) ∷ entries) =
    block_actions encode h block ++ loop_actions encode entries

-- Where the function itself stands: in its loop, behind close(toGet), behind close(txIn), or at its
-- end.
pub data Main : Type 0 where
  walking : List Action → Main
  closed_to_get : Main
  closed_tx_in : Main
  returned : Main

-- A SingularHeightWorker waits for a search, or has what it found still to send.
pub data Worker : Type 0 where
  waiting : Worker
  sending : List TxResponse → Worker
  stopped : Worker

-- RawToTransactionCh waits for a transaction, or has converted one that it has still to send.
pub data Converter : Type 0 where
  receiving : Converter
  holding : OutResp → Converter
  finished : Converter

-- `out` has all that was ever put into it: sendResp takes it out again.
pub record Pipeline : Type 0 where
  pub main : Main
  pub to_get : List ToGet
  pub workers : List Worker
  pub tx_in : List TxResponse
  pub converter : Converter
  pub out : List OutResp

-- the capacities of `toGet` and `txIn`
abbrev pub to_get_capacity : ℕ
to_get_capacity = 10

abbrev pub tx_in_capacity : ℕ
tx_in_capacity = 20

unfoldable pub start_pipeline : List Action → Pipeline
start_pipeline todo = record {
  main = walking todo;
  to_get = [];
  workers = waiting ∷ waiting ∷ waiting ∷ waiting ∷ waiting ∷ [];
  tx_in = [];
  converter = receiving;
  out = [];
}

-- One step of one goroutine, by what a search finds and what a transaction is converted to. A panic
-- ends the program, so it has no step. A send into `out` is taken to return, as it does while sendResp
-- receives.
pub data Step (search : ToGet → Outcome (List TxResponse)) (convert : TxResponse → Outcome OutResp)
    (s : Pipeline) : Pipeline → Type 0 where
  -- out <- block
  put_block :
      (r : OutResp) (todo : List Action)
      → s.main ≡ walking (emit r ∷ todo)
      → Step search convert s (record s { main = walking todo; out = s.out ++ r ∷ [] })
  -- toGet <- search
  put_search :
      (g : ToGet) (todo : List Action)
      → s.main ≡ walking (request g ∷ todo)
      → length s.to_get < to_get_capacity
      → Step search convert s (record s { main = walking todo; to_get = s.to_get ++ g ∷ [] })
  -- close(toGet)
  close_to_get : s.main ≡ walking [] → Step search convert s (record s { main = closed_to_get })
  -- for current := range in, and the search
  take :
      (before behind : List Worker) (g : ToGet) (rest : List ToGet) (txs : List TxResponse)
      → s.workers ≡ before ++ waiting ∷ behind
      → s.to_get ≡ g ∷ rest
      → search g ≡ ok txs
      → Step search convert s (record s { to_get = rest; workers = before ++ sending txs ∷ behind })
  -- out <- r
  put_tx :
      (before behind : List Worker) (tx : TxResponse) (txs : List TxResponse)
      → s.workers ≡ before ++ sending (tx ∷ txs) ∷ behind
      → length s.tx_in < tx_in_capacity
      → Step search convert s
          (record s { tx_in = s.tx_in ++ tx ∷ []; workers = before ++ sending txs ∷ behind })
  all_put :
      (before behind : List Worker)
      → s.workers ≡ before ++ sending [] ∷ behind
      → Step search convert s (record s { workers = before ++ waiting ∷ behind })
  -- `toGet` is closed and empty
  stop :
      (before behind : List Worker)
      → s.workers ≡ before ++ waiting ∷ behind
      → s.to_get ≡ []
      → s.main ≡ closed_to_get
      → Step search convert s (record s { workers = before ++ stopped ∷ behind })
  -- httpReqWG.Wait() and close(txIn)
  close_tx_in :
      s.main ≡ closed_to_get
      → All (λ w. w ≡ stopped) s.workers
      → Step search convert s (record s { main = closed_tx_in })
  -- for txRaw := range in, and the conversion
  receive :
      (tx : TxResponse) (rest : List TxResponse) (r : OutResp)
      → s.converter ≡ receiving
      → s.tx_in ≡ tx ∷ rest
      → convert tx ≡ ok r
      → Step search convert s (record s { tx_in = rest; converter = holding r })
  -- out <- tx
  put_converted :
      (r : OutResp)
      → s.converter ≡ holding r
      → Step search convert s (record s { converter = receiving; out = s.out ++ r ∷ [] })
  -- `txIn` is closed and empty
  finish :
      s.converter ≡ receiving
      → s.tx_in ≡ []
      → s.main ≡ closed_tx_in
      → Step search convert s (record s { converter = finished })
  -- convertWG.Wait()
  leave :
      s.main ≡ closed_tx_in
      → s.converter ≡ finished
      → Step search convert s (record s { main = returned })

-- so many steps, one after the other
pub data Run (search : ToGet → Outcome (List TxResponse)) (convert : TxResponse → Outcome OutResp)
    (s : Pipeline) : ℕ → Pipeline → Type 0 where
  here : Run search convert s zero s
  next :
      {n : ℕ} {t u : Pipeline}
      → Run search convert s n t
      → Step search convert t u
      → Run search convert s (suc n) u
