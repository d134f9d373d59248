-- ===== src/Api/Delegations/Examples.antt =====
-- A request for delegations at concrete attempts, and the theorems applied to it.
use terra_worker.Prelude.{ℕ, ◌+◌, ◌<◌, ◌≡◌, refl, true, List, [], ◌∷◌, ltb, arith, if◌then◌else◌}
use terra_worker.Go.Outcome.{ok, message}
use terra_worker.Api.Delegations.{DelegationEntry, delegations_of, get_account_delegations}
use terra_worker.Api.Requests.{Attempt, timed_out, answered, Lcd}
use terra_worker.Api.Requests.Attempts.{IsRepeated, timeout}
use terra_worker.Api.Delegations.Attempts.{get_account_delegations_answered}

abbrev entry : DelegationEntry
entry = record {
  delegator_address = "terra1qqq";
  validator_address = "terravaloper1qqq";
  shares = "44.05";
  balance_denom = "uluna";
  balance_amount = "44";
}

-- the node times out twice
abbrev slow : ℕ → Attempt
slow i = if ltb i 3 then timed_out (message "timeout") else answered 200 "[]"

abbrev node : (ℕ → Attempt) → Lcd (List DelegationEntry)
node attempt = record {
  new_request = λ account. ok tt;
  wait = ok tt;
  attempt = λ account query. attempt;
  decode_error = λ body. ok body;
  decode = λ body. ok (entry ∷ []);
}

slow-IsRepeated : (j : ℕ) → j < 2 → IsRepeated (slow (1 + j))
slow-IsRepeated j h = let early : ltb (1 + j) 3 ≡ true = ground arith in rw early (timeout _)

get_account_delegations_answered_example :
    get_account_delegations (node slow) "terra1qqq" 7 ≡ delegations_of (entry ∷ [])
get_account_delegations_answered_example =
    get_account_delegations_answered (node slow) "terra1qqq" 7 2 200 "[]" (entry ∷ []) refl refl
      (omega arith) slow-IsRepeated refl (omega arith) refl
