-- ===== src/Api/Requests/Attempts.antt =====
-- When an attempt is repeated, and what a request ends with.
use mathlib.Core.Path.{subst}
use terra_worker.Prelude.{
  ℕ, zero, suc, ◌+◌, ◌<◌, ◌≤◌, ◌≡◌, refl, ap, ◌∙◌, ◌≢◌, true, false, String, arith, ltb,
}
use terra_worker.Go.Outcome.{GoError, Outcome, ok, err, panic, ◌>>=◌}
use terra_worker.Api.Blocks.{parameter}
use terra_worker.Api.Requests.{
  Attempt, timed_out, answered, Lcd, last_attempt, or_again, attempts, refused, read_answer,
  account_request,
}

-- an attempt behind which another follows: a timeout, or a status of 500 and above
pub data IsRepeated : Attempt → Type 0 where
  timeout : (e : GoError) → IsRepeated (timed_out e)
  server_error : (status : ℕ) (body : String) → 500 ≤ status → IsRepeated (answered status body)

or_again-IsRepeated :
    (a : Attempt) (later : Outcome (ℕ × String)) → IsRepeated a → or_again a later ≡ later
unfolding or_again
or_again-IsRepeated a later (timeout e) = refl
or_again-IsRepeated a later (server_error status body h) = ground arith

-- .
pub attempts_first :
    (attempt : ℕ → Attempt) (left i k status : ℕ) (body : String)
    → k ≤ left
    → ((j : ℕ) → j < k → IsRepeated (attempt (i + j)))
    → attempt (i + k) ≡ answered status body
    → status < 500
    → attempts attempt left i ≡ ok (status, body)
unfolding attempts last_attempt or_again
attempts_first attempt zero i k status body bound repeated here low =
    let at : attempt i ≡ answered status body = ap attempt (omega arith) ∙ here in rw at refl
attempts_first attempt (suc left) i zero status body bound repeated here low =
    let at : attempt i ≡ answered status body = ap attempt (omega arith) ∙ here in
    rw at (ground arith)
attempts_first attempt (suc left) i (suc k) status body bound repeated here low =
    let first : IsRepeated (attempt i) =
      subst (λ n. IsRepeated (attempt n)) (omega arith) (repeated 0 (omega arith)) in
    or_again-IsRepeated (attempt i) _ first
    ∙ attempts_first attempt left (suc i) k status body (omega arith)
        (λ j lt. subst (λ n. IsRepeated (attempt n)) (omega arith) (repeated (suc j) (omega arith)))
        (ap attempt (omega arith) ∙ here) low

attempts_repeated :
    (attempt : ℕ → Attempt) (left i : ℕ)
    → ((j : ℕ) → j < left → IsRepeated (attempt (i + j)))
    → attempts attempt left i ≡ last_attempt (attempt (i + left))
unfolding attempts
attempts_repeated attempt zero i repeated = ap last_attempt (ap attempt (omega arith))
attempts_repeated attempt (suc left) i repeated =
    let first : IsRepeated (attempt i) =
      subst (λ n. IsRepeated (attempt n)) (omega arith) (repeated 0 (omega arith)) in
    or_again-IsRepeated (attempt i) _ first
    ∙ attempts_repeated attempt left (suc i)
        (λ j lt. subst (λ n. IsRepeated (attempt n)) (omega arith) (repeated (suc j) (omega arith)))
    ∙ ap last_attempt (ap attempt (omega arith))

refused_fails {κ} :
    {B : Type κ} (text : String) (why : Outcome String)
    → why ≢ panic
    → (e : GoError) × (refused {B = B} text why ≡ err e)
unfolding refused
refused_fails text (ok why) h = (_, refl)
refused_fails text (err e) h = (_, refl)
refused_fails text panic h = absurd (h refl)

-- the attempts at the request for an account and a height
abbrev pub attempt_at {ℓ} : {A : Type ℓ} → Lcd A → String → ℕ → ℕ → Attempt
attempt_at lcd account height = lcd.attempt account (parameter "height" height)

module _ {ℓ κ} {A : Type ℓ} {B : Type κ} (text : String) (convert : A → Outcome B)
    (lcd : Lcd A) where
  -- a request that ends with an attempt that would have been repeated
  last_failed :
      (a : Attempt)
      → IsRepeated a
      → ((body : String) → lcd.decode_error body ≢ panic)
      → (e : GoError) × ((last_attempt a >>= read_answer text convert lcd) ≡ err e)
  unfolding last_attempt read_answer
  last_failed a (timeout e) decodes = (e, refl)
  last_failed a (server_error status body h) decodes =
      let bad : ltb 399 status ≡ true = ground arith in
      rw bad (refused_fails text (lcd.decode_error body) (decodes body))

  module _ (account : String) (height : ℕ) where
    pub account_request_answered :
        (k status : ℕ) (body : String) (result : A)
        → lcd.new_request account ≡ ok tt
        → lcd.wait ≡ ok tt
        → k < 3
        → ((j : ℕ) → j < k → IsRepeated (attempt_at lcd account height (1 + j)))
        → attempt_at lcd account height (1 + k) ≡ answered status body
        → status < 400
        → lcd.decode body ≡ ok result
        → account_request text convert lcd account height ≡ convert result
    unfolding account_request read_answer
    account_request_answered k status body result made waited bound repeated here low decoded =
        let answer =
          attempts_first (attempt_at lcd account height) 2 1 k status body (omega arith) repeated
            here (omega arith) in
        let fine : ltb 399 status ≡ false = ground arith in
        rw (made, waited, answer, fine, decoded) refl

    pub account_request_exhausted :
        lcd.new_request account ≡ ok tt
        → lcd.wait ≡ ok tt
        → ((j : ℕ) → j < 3 → IsRepeated (attempt_at lcd account height (1 + j)))
        → ((body : String) → lcd.decode_error body ≢ panic)
        → (e : GoError) × (account_request text convert lcd account height ≡ err e)
    unfolding account_request read_answer
    account_request_exhausted made waited repeated decodes =
        rw
          (
            made,
            waited,
            attempts_repeated (attempt_at lcd account height) 2 1
                (λ j lt. repeated j (omega arith)),
          )
          (last_failed (attempt_at lcd account height 3) (repeated 2 (omega arith)) decodes)
