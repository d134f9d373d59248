-- ===== src/Api/Rewards/Examples.antt =====
-- A request for rewards at concrete answers, and the theorem applied to it.
use terra_worker.Prelude.{◌≡◌, refl, some, List, [], ◌∷◌, map, arith}
use terra_worker.Prelude.Int.{pos}
use terra_worker.Go.Outcome.{ok}
use terra_worker.Go.Map.{GoMap, get}
use terra_worker.Structs.{TransactionAmount}
use terra_worker.Api.Requests.{answered, Lcd}
use terra_worker.Api.Rewards.{DecCoin, ValidatorReward, RewardResult, reward_amount, get_reward}
use terra_worker.Api.Rewards.Lookup.{get_reward-get}

abbrev luna : DecCoin
luna = record { denom = "uluna"; text = "1.500000000000000000"; number = pos 1500000000000000000 }

abbrev one_validator : ValidatorReward
one_validator = record { validator = "terravaloper1qqq"; rewards = luna ∷ [] }

abbrev node : Lcd RewardResult
node = record {
  new_request = λ account. ok tt;
  wait = ok tt;
  attempt = λ account query i. answered 200 "{}";
  decode_error = λ body. ok body;
  decode = λ body. ok (record { total = luna ∷ []; validator_rewards = one_validator ∷ [] });
}

get_reward-get_example :
    (rewards : GoMap (List TransactionAmount)) × (get_reward 18 node "terra1qqq" 7 ≡ ok rewards)
    × (get rewards "terravaloper1qqq" ≡ some (map (reward_amount 18) (luna ∷ [])))
get_reward-get_example =
    get_reward-get 18 node "terra1qqq" 7 0 200 "{}" luna [] one_validator [] [] refl refl
      (omega arith) (λ j h. absurd (omega arith)) refl (omega arith) refl tt
