-- ===== src/Client/Tasks/Answered.antt =====
-- Each task that is not for a range of heights ends with one final response.
use terra_worker.Prelude.{ℕ, false, inl, inr, List, ◌≡◌, refl, str_eq, Bool-cases}
use terra_worker.Go.Outcome.{Outcome}
use terra_worker.Mapper.Messages.{Coin}
use terra_worker.Api.Requests.{Lcd}
use terra_worker.Api.Rewards.{RewardResult}
use terra_worker.Api.Delegations.{DelegationEntry}
use terra_worker.Client.Stream.{TaskResponse}
use terra_worker.Client.Accounts.{
  Json, get_reward_task, get_account_balance_task, get_account_delegations_task,
}
use terra_worker.Client.Accounts.Final.{
  IsAnswered, sent, error_response-EndsOnce, account_tasks-IsAnswered,
}
use terra_worker.Client.Tasks.{TaskRequest, ReqIds, responses, Handlers, no_such_handler, run_task}

no_such_handler-IsAnswered :
    (request : TaskRequest) → IsAnswered request.id (no_such_handler request)
unfolding no_such_handler
no_such_handler-IsAnswered request = sent _ (error_response-EndsOnce request.id _)

-- the handlers, of which those for an account are the client's
module _ (json : Json) (precision : ℕ) (rewards : Lcd RewardResult) (balances : Lcd (List Coin))
    (delegations : Lcd (List DelegationEntry)) where
  abbrev pub with_account_tasks : Handlers → Handlers
  with_account_tasks handlers = record handlers {
    get_reward = λ r. get_reward_task json r.id r.payload precision rewards;
    get_account_balance = λ r. get_account_balance_task json r.id r.payload balances;
    get_account_delegations = λ r. get_account_delegations_task json r.id r.payload delegations;
  }

  -- Each task whose type is none of those for a range of heights or for the latest data, whatever
  -- its payload and whatever the node answers, panics or is answered by responses with its id of
  -- which the last one and no other is final; this holds of the tasks for rewards, balances and
  -- delegations and of a type without a handler.
  pub run_task-IsAnswered :
      (ids : ReqIds) (handlers : Handlers) (request : TaskRequest)
      → str_eq request.type ids.get_transactions ≡ false
      → str_eq request.type ids.latest_data ≡ false
      → (o : Outcome (List TaskResponse)) × (run_task ids (with_account_tasks handlers) request
          ≡ responses o)
        × IsAnswered request.id o
  unfolding run_task
  run_task-IsAnswered ids handlers request other other' =
      let (r, b, d) =
        account_tasks-IsAnswered json request.id request.payload precision rewards balances
          delegations in
      elim (Bool-cases (str_eq request.type ids.get_reward)) [
        | inl at ↦ (_, rw (other, other', at) refl, r)
        | inr not_r ↦ elim (Bool-cases (str_eq request.type ids.account_balance)) [
          | inl at ↦ (_, rw (other, other', not_r, at) refl, b)
          | inr not_b ↦ elim (Bool-cases (str_eq request.type ids.account_delegations)) [
            | inl at ↦ (_, rw (other, other', not_r, not_b, at) refl, d)
            | inr not_d ↦ (
              _,
              rw (other, other', not_r, not_b, not_d) refl,
              no_such_handler-IsAnswered request,
            )
          ]
        ]
      ]
