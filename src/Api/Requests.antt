-- ===== src/Api/Requests.antt =====
-- The requests to the LCD for an account, as api/reward.go, api/account_balance.go and
-- api/delegations.go make them: one loop of attempts, and the conversion of the answer.
pub mod Attempts
use terra_worker.Prelude.{ℕ, zero, suc, String, List, [], ◌∷◌, ltb, if◌then◌else◌}
use terra_worker.Go.Outcome.{GoError, Outcome, ok, err, panic, message, ◌>>=◌}
use terra_worker.Api.Blocks.{parameter}

-- What one attempt gives. http.Client.Do documents that its errors are *url.Error, so net.Error,
-- which tell whether a timeout caused them.
pub data Attempt : Type 0 where
  timed_out : GoError → Attempt
  failed : GoError → Attempt
  answered : ℕ → String → Attempt

-- The node and the packages that it is reached through: http.NewRequest for an account, the rate
-- limiter, the attempts at a request, counted from 1, and the JSON decoder on an error and on an
-- answer.
pub record Lcd {ℓ} (A : Type ℓ) : Type ℓ where
  pub new_request : String → Outcome {0} Unit
  pub wait : Outcome {0} Unit
  pub attempt : String → List (String × String) → ℕ → Attempt
  pub decode_error : String → Outcome String
  pub decode : String → Outcome A

abbrev pub max_retries : ℕ
max_retries = 3

-- the last attempt, behind which nothing is tried again
unfoldable pub last_attempt : Attempt → Outcome (ℕ × String)
last_attempt (timed_out e) = err e
last_attempt (failed e) = err e
last_attempt (answered status body) = ok (status, body)

-- an attempt, by what the attempts behind it give
unfoldable pub or_again : Attempt → Outcome (ℕ × String) → Outcome (ℕ × String)
or_again (timed_out e) later = later
or_again (failed e) later = err e
or_again (answered status body) later = if ltb status 500 then ok (status, body) else later

-- The loop from attempt `i` on, when `left` attempts follow that one: i + left = maxRetries.
unfoldable pub attempts : (ℕ → Attempt) → ℕ → ℕ → Outcome (ℕ × String)
attempts attempt zero i = last_attempt (attempt i)
attempts attempt (suc left) i = or_again (attempt i) (attempts attempt left (suc i))

-- A status above 399: the body is decoded, and the result is an error either way.
unfoldable pub refused {κ} : {B : Type κ} → String → Outcome String → Outcome B
refused text (ok why) = err (message text)
refused text (err e) = err (message text)
refused text panic = panic

module _ {ℓ κ} {A : Type ℓ} {B : Type κ} (text : String) (convert : A → Outcome B)
    (lcd : Lcd A) where
  unfoldable pub read_answer : ℕ × String → Outcome B
  unfolding refused
  read_answer (status, body) =
      if ltb 399 status
      then refused text (lcd.decode_error body)
      else (do result ← lcd.decode body; convert result)

  -- the response without its height, which is that of the request
  unfoldable pub account_request : String → ℕ → Outcome B
  account_request account height = do
    _ ← lcd.new_request account
    _ ← lcd.wait
    answer ← attempts (lcd.attempt account (parameter "height" height)) 2 1
    read_answer answer
