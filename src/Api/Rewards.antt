-- ===== src/Api/Rewards.antt =====
-- `GetReward` of api/reward.go: the rewards of an account, by validator.
pub mod Lookup
mod Examples
use terra_worker.Prelude.{ℕ, String, Option, some, List, [], ◌∷◌, map}
use terra_worker.Prelude.Int.{ℤ}
use terra_worker.Go.Outcome.{Outcome, ok}
use terra_worker.Go.Map.{GoMap, put}
use terra_worker.Structs.{TransactionAmount}
use terra_worker.Api.Requests.{Lcd, account_request}

-- sdk.DecCoin, by what Amount.String() and Amount.BigInt() return
pub record DecCoin : Type 0 where
  pub denom : String
  pub text : String
  pub number : ℤ

-- types.ValidatorReward
pub record ValidatorReward : Type 0 where
  pub validator : String
  pub rewards : List DecCoin

-- types.RewardResult
pub record RewardResult : Type 0 where
  pub total : List DecCoin
  pub validator_rewards : List ValidatorReward

-- the round for a reward of a validator; `precision` is sdk.Precision
unfoldable pub reward_amount : ℕ → DecCoin → TransactionAmount
reward_amount precision reward = record {
  text = reward.text;
  numeric = some reward.number;
  currency = reward.denom;
  exp = precision;
}

-- the loop over the validators, from the map that was made so far
unfoldable pub add_rewards :
    ℕ → GoMap (List TransactionAmount) → List ValidatorReward → GoMap (List TransactionAmount)
add_rewards precision made [] = made
add_rewards precision made (r ∷ rs) =
    add_rewards precision (put made r.validator (map (reward_amount precision) r.rewards)) rs

unfoldable pub rewards_of : ℕ → List DecCoin → List ValidatorReward → GoMap (List TransactionAmount)
rewards_of precision [] rs = []
rewards_of precision (_ ∷ _) rs = add_rewards precision [] rs

unfoldable pub read_rewards : ℕ → RewardResult → Outcome (GoMap (List TransactionAmount))
unfolding rewards_of
read_rewards precision result = ok (rewards_of precision result.total result.validator_rewards)

-- the rewards of the response
unfoldable pub get_reward :
    ℕ → Lcd RewardResult → String → ℕ → Outcome (GoMap (List TransactionAmount))
get_reward precision =
    account_request "[COSMOS-API] Error fetching rewards: " (read_rewards precision)
