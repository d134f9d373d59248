-- ===== src/Api/Rewards/Lookup.antt =====
-- The rewards that a response has for a validator.
use terra_worker.Prelude.{
  ℕ, ◌+◌, ◌<◌, ◌≡◌, ◌≢◌, refl, ap, ◌∙◌, String, inl, inr, false, some, List, [], ◌∷◌, ◌++◌, map,
  All, Bool-cases, str_eq, eq_iff, eq_refl, if◌then◌else◌,
}
use terra_worker.Go.Outcome.{ok}
use terra_worker.Go.Map.{GoMap, get, put, get-put}
use terra_worker.Structs.{TransactionAmount}
use terra_worker.Api.Requests.{Lcd, answered}
use terra_worker.Api.Requests.Attempts.{IsRepeated, attempt_at, account_request_answered}
use terra_worker.Api.Rewards.{
  DecCoin, ValidatorReward, RewardResult, reward_amount, add_rewards, read_rewards, get_reward,
}

-- no reward of the list is for the validator
abbrev pub Others : String → List ValidatorReward → Type 0
Others v = All (λ r. r.validator ≢ v)

str_eq-ne : (s t : String) → s ≢ t → str_eq s t ≡ false
str_eq-ne s t h = elim (Bool-cases (str_eq s t)) [
  | inl same ↦ absurd (h ((eq_iff s t).0 same))
  | inr other ↦ other
]

get-add_rewards :
    (precision : ℕ) (v : String) (rs : List ValidatorReward) (made : GoMap (List TransactionAmount))
    → Others v rs
    → get (add_rewards precision made rs) v ≡ get made v
unfolding add_rewards
get-add_rewards precision v [] made h = refl
get-add_rewards precision v (r ∷ rs) made (h, hs) =
    let amounts = map (reward_amount precision) r.rewards in
    get-add_rewards precision v rs (put made r.validator amounts) hs
    ∙ get-put made r.validator v amounts
    ∙ ap (λ b. if b then some amounts else get made v) (str_eq-ne r.validator v h)

last_counts :
    (precision : ℕ) (r : ValidatorReward) (rs ss : List ValidatorReward)
    (made : GoMap (List TransactionAmount))
    → Others r.validator ss
    → get (add_rewards precision made (rs ++ r ∷ ss)) r.validator
      ≡ some (map (reward_amount precision) r.rewards)
unfolding add_rewards
last_counts precision r [] ss made h =
    let amounts = map (reward_amount precision) r.rewards in
    get-add_rewards precision r.validator ss (put made r.validator amounts) h
    ∙ get-put made r.validator r.validator amounts
    ∙ ap (λ b. if b then some amounts else get made r.validator) (eq_refl r.validator)
last_counts precision r (q ∷ rs) ss made h =
    last_counts precision r rs ss (put made q.validator (map (reward_amount precision) q.rewards)) h

module _ (precision : ℕ) (lcd : Lcd RewardResult) (account : String) (height : ℕ) where
  -- When a request for rewards is answered as it is for delegations, and the answer has a total,
  -- the result has, for a validator, the rewards of its last entry in the answer, in order, each
  -- with its text, number, denomination and the precision as its exponent.
  pub get_reward-get :
      (k status : ℕ) (body : String) (t : DecCoin) (ts : List DecCoin) (r : ValidatorReward)
      (rs ss : List ValidatorReward)
      → lcd.new_request account ≡ ok tt
      → lcd.wait ≡ ok tt
      → k < 3
      → ((j : ℕ) → j < k → IsRepeated (attempt_at lcd account height (1 + j)))
      → attempt_at lcd account height (1 + k) ≡ answered status body
      → status < 400
      → lcd.decode body ≡ ok (record { total = t ∷ ts; validator_rewards = rs ++ r ∷ ss })
      → Others r.validator ss
      → (rewards : GoMap (List TransactionAmount)) × (get_reward precision lcd account height
          ≡ ok rewards)
        × (get rewards r.validator ≡ some (map (reward_amount precision) r.rewards))
  unfolding get_reward read_rewards
  get_reward-get k status body t ts r rs ss made waited bound repeated here low decoded last = (
    add_rewards precision [] (rs ++ r ∷ ss),
    account_request_answered _ (read_rewards precision) lcd account height k status body _ made
        waited bound repeated here low decoded,
    last_counts precision r rs ss [] last,
  )
