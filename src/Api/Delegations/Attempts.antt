-- ===== src/Api/Delegations/Attempts.antt =====
-- The request for delegations: when it is answered, and when no attempt is.
use terra_worker.Prelude.{ℕ, ◌+◌, ◌<◌, ◌≡◌, ◌≢◌, String, List}
use terra_worker.Go.Outcome.{GoError, ok, err, panic}
use terra_worker.Api.Requests.{Lcd, answered}
use terra_worker.Api.Requests.Attempts.{
  IsRepeated, attempt_at, account_request_answered, account_request_exhausted,
}
use terra_worker.Api.Delegations.{DelegationEntry, delegations_of, get_account_delegations}

module _ (lcd : Lcd (List DelegationEntry)) (account : String) (height : ℕ) where
  -- When the request can be made and the rate limiter lets it pass, up to two attempts end with a
  -- timeout or a status of 500 and above, the next is answered with a status below 400, and its
  -- body is decoded, the result is the conversion of the delegations in that body: no attempt
  -- behind it counts.
  pub get_account_delegations_answered :
      (k status : ℕ) (body : String) (dels : List DelegationEntry)
      → lcd.new_request account ≡ ok tt
      → lcd.wait ≡ ok tt
      → k < 3
      → ((j : ℕ) → j < k → IsRepeated (attempt_at lcd account height (1 + j)))
      → attempt_at lcd account height (1 + k) ≡ answered status body
      → status < 400
      → lcd.decode body ≡ ok dels
      → get_account_delegations lcd account height ≡ delegations_of dels
  unfolding get_account_delegations
  get_account_delegations_answered = account_request_answered _ delegations_of lcd account height

  -- When the request can be made and the rate limiter lets it pass, all three attempts end with a
  -- timeout or a status of 500 and above, and the decoder of error bodies does not panic, the
  -- result is an error.
  get_account_delegations_exhausted :
      lcd.new_request account ≡ ok tt
      → lcd.wait ≡ ok tt
      → ((j : ℕ) → j < 3 → IsRepeated (attempt_at lcd account height (1 + j)))
      → ((body : String) → lcd.decode_error body ≢ panic)
      → (e : GoError) × (get_account_delegations lcd account height ≡ err e)
  unfolding get_account_delegations
  get_account_delegations_exhausted = account_request_exhausted _ delegations_of lcd account height
