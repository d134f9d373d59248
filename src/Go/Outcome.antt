-- ===== src/Go/Outcome.antt =====
-- What a Go call comes to: a value, an error, or a panic. Of a call that returns a value beside an
-- error only the error is kept: no caller in this repository looks at the value then.
use terra_worker.Prelude.{Bool, true, false, String, ◌≡◌, refl}

pub data GoError : Type 0 where
  -- errors.New, and fmt.Errorf of texts
  message : String → GoError
  -- fmt.Errorf with a text in front of %w
  wrap : String → GoError → GoError
  -- strconv.ErrSyntax and strconv.ErrRange
  syntax : String → GoError
  range : String → GoError
  -- errUnknownMessageType of api/transaction.go
  unknown_message_type : GoError

-- errors.Is(err, errUnknownMessageType)
unfoldable pub is_unknown_message_type : GoError → Bool
is_unknown_message_type (message s) = false
is_unknown_message_type (wrap s e) = is_unknown_message_type e
is_unknown_message_type (syntax s) = false
is_unknown_message_type (range s) = false
is_unknown_message_type unknown_message_type = true

pub data Outcome {ℓ} (A : Type ℓ) : Type ℓ where
  ok : A → Outcome A
  err : GoError → Outcome A
  panic : Outcome A

infixl 5 ◌>>=◌
abbrev pub ◌>>=◌ {ℓ κ} : {V : Type ℓ} {W : Type κ} → Outcome V → (V → Outcome W) → Outcome W
panic >>= next = panic
err e >>= next = err e
ok v >>= next = next v

-- A sequence that returns has a first call that returned, and a second that did.
pub ok_of_bind {ℓ κ} :
    {V : Type ℓ} {W : Type κ} {w : W} (first : Outcome V) (next : V → Outcome W)
    → (first >>= next) ≡ ok w
    → (v : V) × (first ≡ ok v) × (next v ≡ ok w)
ok_of_bind panic next returned = cc
ok_of_bind (err e) next returned = cc
ok_of_bind (ok v) next returned = (v, refl, returned)

pub ok-injective {ℓ} : {A : Type ℓ} (a b : A) → ok a ≡ ok b → a ≡ b
ok-injective a b h = cc
