-- ===== src/Client/Accounts.antt =====
-- The handlers of client/client.go for rewards, balances and delegations of an account.
pub mod Final
use Prim.Native.String.{◌++◌ as append}
use terra_worker.Prelude.{ℕ, String, List, [], ◌∷◌}
use terra_worker.Go.Outcome.{GoError, Outcome, ok, err, panic}
use terra_worker.Go.Map.{GoMap}
use terra_worker.Structs.{TransactionAmount}
use terra_worker.Mapper.Messages.{Coin}
use terra_worker.Api.Requests.{Lcd}
use terra_worker.Api.Rewards.{RewardResult, get_reward}
use terra_worker.Api.Balances.{get_account_balance}
use terra_worker.Api.Delegations.{DelegationEntry, Delegation, get_account_delegations}
use terra_worker.Client.Stream.{OutResp, TaskResponse, error_response, send_resp}

-- structs.HeightAccount
pub record HeightAccount : Type 0 where
  pub account : String
  pub height : ℕ

-- What the handlers use of other packages: the text of an error, and encoding/json on the payload of
-- a task and on the three responses.
pub record Json : Type 0 where
  pub error_text : GoError → String
  pub decode_account : String → Outcome HeightAccount
  pub encode_rewards : ℕ → GoMap (List TransactionAmount) → String
  pub encode_balances : ℕ → List TransactionAmount → String
  pub encode_delegations : ℕ → List Delegation → String

-- The handler behind the decoding of the payload. The context is not done while it answers: one
-- response is put into `out`, which is closed before sendResp starts.
unfoldable pub answer {ℓ} :
    {A : Type ℓ}
    → (GoError → String)
    → String
    → String
    → String
    → (A → String)
    → Outcome A
    → Outcome (List TaskResponse)
answer error_text id type text encode (ok a) =
    ok (send_resp id (record { type = type; payload = encode a } ∷ []))
answer error_text id type text encode (err e) =
    ok (error_response id (append text (error_text e)) ∷ [])
answer error_text id type text encode panic = panic

unfoldable pub account_task :
    String
    → (HeightAccount → Outcome (List TaskResponse))
    → Outcome HeightAccount
    → Outcome (List TaskResponse)
account_task id handle (ok ha) = handle ha
account_task id handle (err e) = ok (error_response id "Cannot unmarshal payload" ∷ [])
account_task id handle panic = panic

module _ (json : Json) (id payload : String) where
  unfoldable pub get_reward_task : ℕ → Lcd RewardResult → Outcome (List TaskResponse)
  get_reward_task precision lcd =
      account_task id
        (λ ha.
          answer json.error_text id "Reward" "Error getting reward data "
            (json.encode_rewards ha.height) (get_reward precision lcd ha.account ha.height))
        (json.decode_account payload)

  unfoldable pub get_account_balance_task : Lcd (List Coin) → Outcome (List TaskResponse)
  get_account_balance_task lcd =
      account_task id
        (λ ha.
          answer json.error_text id "AccountBalance" "Error getting account balance data "
            (json.encode_balances ha.height) (get_account_balance lcd ha.account ha.height))
        (json.decode_account payload)

  unfoldable pub get_account_delegations_task :
      Lcd (List DelegationEntry) → Outcome (List TaskResponse)
  get_account_delegations_task lcd =
      account_task id
        (λ ha.
          answer json.error_text id "AccountDelegations" "Error getting account balance data "
            (json.encode_delegations ha.height) (get_account_delegations lcd ha.account ha.height))
        (json.decode_account payload)
