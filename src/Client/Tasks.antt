-- ===== src/Client/Tasks.antt =====
-- The dispatch on the type of a task, in `Run` of client/client.go.
pub mod Answered
mod Examples
use Prim.Native.String.{◌++◌ as append}
use terra_worker.Prelude.{String, Option, List, [], ◌∷◌, str_eq, if◌then◌else◌}
use terra_worker.Go.Outcome.{Outcome, ok}
use terra_worker.Client.Stream.{TaskResponse, error_response}
use terra_worker.Client.Transactions.{Handled}
use terra_worker.Client.Latest.{LatestHandled}

-- cStructs.TaskRequest
pub record TaskRequest : Type 0 where
  pub id : String
  pub type : String
  pub payload : String

-- The names of the types of tasks, which package structs of the manager declares.
pub record ReqIds : Type 0 where
  pub get_transactions : String
  pub latest_data : String
  pub get_reward : String
  pub account_balance : String
  pub account_delegations : String

-- what a task comes to, by its handler
pub data TaskResult : Type 0 where
  transactions : Option (Outcome Handled) → TaskResult
  latest : Option (Outcome LatestHandled) → TaskResult
  responses : Outcome (List TaskResponse) → TaskResult

-- the methods of IndexerClient that handle a task
pub record Handlers : Type 0 where
  pub get_transactions : TaskRequest → Option (Outcome Handled)
  pub get_latest : TaskRequest → Option (Outcome LatestHandled)
  pub get_reward : TaskRequest → Outcome (List TaskResponse)
  pub get_account_balance : TaskRequest → Outcome (List TaskResponse)
  pub get_account_delegations : TaskRequest → Outcome (List TaskResponse)

unfoldable pub no_such_handler : TaskRequest → Outcome (List TaskResponse)
no_such_handler request =
    ok (error_response request.id (append "There is no such handler " request.type) ∷ [])

unfoldable pub run_task : ReqIds → Handlers → TaskRequest → TaskResult
unfolding no_such_handler
run_task ids handlers request =
    if str_eq request.type ids.get_transactions
    then transactions (handlers.get_transactions request)
    else if str_eq request.type ids.latest_data
    then latest (handlers.get_latest request)
    else if str_eq request.type ids.get_reward
    then responses (handlers.get_reward request)
    else if str_eq request.type ids.account_balance
    then responses (handlers.get_account_balance request)
    else if str_eq request.type ids.account_delegations
    then responses (handlers.get_account_delegations request)
    else responses (no_such_handler request)
