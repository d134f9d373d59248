-- ===== src/Client/Accounts/Final.antt =====
-- Each account task ends with one final response.
use terra_worker.Prelude.{ℕ, String, true, false, List, [], ◌∷◌, ◌++◌, ◌≡◌, refl, All}
use terra_worker.Go.Outcome.{GoError, Outcome, ok, err, panic}
use terra_worker.Mapper.Messages.{Coin}
use terra_worker.Api.Requests.{Lcd}
use terra_worker.Api.Rewards.{RewardResult}
use terra_worker.Api.Delegations.{DelegationEntry}
use terra_worker.Client.Stream.{
  OutResp, TaskResponse, response, end_response, error_response, numbered, send_resp,
}
use terra_worker.Client.Accounts.{
  HeightAccount, Json, answer, account_task, get_reward_task, get_account_balance_task,
  get_account_delegations_task,
}

-- responses to the task, of which the last one and no other is final
pub record EndsOnce (id : String) (rs : List TaskResponse) : Type 0 where
  pub before : List TaskResponse
  pub last : TaskResponse
  pub together : rs ≡ before ++ last ∷ []
  pub open_still : All (λ r. (r.id ≡ id) × (r.final ≡ false)) before
  pub closes : (last.id ≡ id) × (last.final ≡ true)

-- The task panics, or it is answered so.
pub data IsAnswered (id : String) : Outcome (List TaskResponse) → Type 0 where
  crashed : IsAnswered id panic
  sent : (rs : List TaskResponse) → EndsOnce id rs → IsAnswered id (ok rs)

pub error_response-EndsOnce : (id text : String) → EndsOnce id (error_response id text ∷ [])
unfolding error_response
error_response-EndsOnce id text = record {
  before = [];
  last = error_response id text;
  together = refl;
  open_still = tt;
  closes = (refl, refl);
}

numbered-All :
    (id : String) (ts : List OutResp) (order : ℕ)
    → All (λ r. (r.id ≡ id) × (r.final ≡ false)) (numbered id order ts)
unfolding numbered response
numbered-All id [] order = tt
numbered-All id (t ∷ ts) order = ((refl, refl), numbered-All id ts _)

send_resp-EndsOnce : (id : String) (ts : List OutResp) → EndsOnce id (send_resp id ts)
unfolding send_resp end_response
send_resp-EndsOnce id ts = record {
  before = numbered id 0 ts;
  last = end_response id _;
  together = refl;
  open_still = numbered-All id ts 0;
  closes = (refl, refl);
}

answer-IsAnswered {ℓ} :
    {A : Type ℓ} (error_text : GoError → String) (id type text : String) (encode : A → String)
    (o : Outcome A)
    → IsAnswered id (answer error_text id type text encode o)
unfolding answer
answer-IsAnswered error_text id type text encode (ok a) = sent _ (send_resp-EndsOnce id _)
answer-IsAnswered error_text id type text encode (err e) = sent _ (error_response-EndsOnce id _)
answer-IsAnswered error_text id type text encode panic = crashed

account_task-IsAnswered :
    (id : String) (handle : HeightAccount → Outcome (List TaskResponse)) (o : Outcome HeightAccount)
    → ((ha : HeightAccount) → IsAnswered id (handle ha))
    → IsAnswered id (account_task id handle o)
unfolding account_task
account_task-IsAnswered id handle (ok ha) h = h ha
account_task-IsAnswered id handle (err e) h = sent _ (error_response-EndsOnce id _)
account_task-IsAnswered id handle panic h = crashed

pub account_tasks-IsAnswered :
    (json : Json) (id payload : String) (precision : ℕ) (rewards : Lcd RewardResult)
    (balances : Lcd (List Coin)) (delegations : Lcd (List DelegationEntry))
    → IsAnswered id (get_reward_task json id payload precision rewards)
      × IsAnswered id (get_account_balance_task json id payload balances)
      × IsAnswered id (get_account_delegations_task json id payload delegations)
unfolding get_reward_task get_account_balance_task get_account_delegations_task
account_tasks-IsAnswered json id payload precision rewards balances delegations = (
  account_task-IsAnswered id _ (json.decode_account payload) λ ha. answer-IsAnswered _ id _ _ _ _,
  account_task-IsAnswered id _ (json.decode_account payload) λ ha. answer-IsAnswered _ id _ _ _ _,
  account_task-IsAnswered id _ (json.decode_account payload) λ ha. answer-IsAnswered _ id _ _ _ _,
)
