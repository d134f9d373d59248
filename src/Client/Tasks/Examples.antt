-- ===== src/Client/Tasks/Examples.antt =====
-- A task for rewards at a concrete payload, and the theorem applied to it.
use terra_worker.Prelude.{none, List, [], ◌∷◌, ◌≡◌, refl}
use terra_worker.Prelude.Int.{pos}
use terra_worker.Go.Outcome.{Outcome, ok}
use terra_worker.Mapper.Messages.{Coin}
use terra_worker.Api.Requests.{answered, Lcd}
use terra_worker.Api.Rewards.{DecCoin, RewardResult}
use terra_worker.Api.Delegations.{DelegationEntry}
use terra_worker.Client.Stream.{TaskResponse}
use terra_worker.Client.Accounts.{Json}
use terra_worker.Client.Accounts.Final.{IsAnswered}
use terra_worker.Client.Tasks.{TaskRequest, ReqIds, responses, Handlers, run_task}
use terra_worker.Client.Tasks.Answered.{with_account_tasks, run_task-IsAnswered}

abbrev json : Json
json = record {
  error_text = λ e. "failed";
  decode_account = λ payload. ok (record { account = payload; height = 7 });
  encode_rewards = λ height rewards. "{\"height\":7}";
  encode_balances = λ height balances. "{\"height\":7}";
  encode_delegations = λ height delegations. "{\"height\":7}";
}

-- a node that answers each request with a value
abbrev answering : (A : Type 0) → A → Lcd A
answering A result = record {
  new_request = λ account. ok tt;
  wait = ok tt;
  attempt = λ account query i. answered 200 "{}";
  decode_error = λ body. ok body;
  decode = λ body. ok result;
}

abbrev luna : DecCoin
luna = record { denom = "uluna"; text = "1.500000000000000000"; number = pos 1500000000000000000 }

abbrev rewards : RewardResult
rewards = record { total = luna ∷ []; validator_rewards = [] }

abbrev no_coins : List Coin
no_coins = []

abbrev delegations : List DelegationEntry
delegations =
    record {
      delegator_address = "terra1qqq";
      validator_address = "terravaloper1qqq";
      shares = "3.000000000000000000";
      balance_denom = "uluna";
      balance_amount = "3";
    }
    ∷ []

abbrev ids : ReqIds
ids = record {
  get_transactions = "GetTransactions";
  latest_data = "GetLatest";
  get_reward = "GetReward";
  account_balance = "GetAccountBalance";
  account_delegations = "GetAccountDelegations";
}

abbrev idle : Handlers
idle = record {
  get_transactions = λ r. none;
  get_latest = λ r. none;
  get_reward = λ r. ok [];
  get_account_balance = λ r. ok [];
  get_account_delegations = λ r. ok [];
}

abbrev handlers : Handlers
handlers =
    with_account_tasks json 18 (answering RewardResult rewards) (answering (List Coin) no_coins)
      (answering (List DelegationEntry) delegations) idle

abbrev request : TaskRequest
request = record { id = "7"; type = "GetReward"; payload = "terra1qqq" }

run_task-IsAnswered_example :
    (o : Outcome (List TaskResponse)) × (run_task ids handlers request ≡ responses o)
    × IsAnswered "7" o
run_task-IsAnswered_example =
    run_task-IsAnswered json 18 (answering RewardResult rewards) (answering (List Coin) no_coins)
      (answering (List DelegationEntry) delegations) ids idle request refl refl
