-- ===== src/Client/Stream.antt =====
-- `sendResp` of client/client.go: the responses to a task, numbered and sent one by one.
pub mod Transcript
pub mod Ends
pub mod Stuck
mod Examples
use terra_worker.Prelude.{
  ℕ, suc, ◌%◌, two64, add64, ◌<◌, length, String, Bool, true, false, List, [], ◌∷◌, ◌++◌, ◌≡◌,
}

-- cStructs.OutResp, with its payload encoded by encoding/json; its field Error is nowhere read
pub record OutResp : Type 0 where
  pub type : String
  pub payload : String

-- cStructs.TaskResponse, with the message of its error
pub record TaskResponse : Type 0 where
  pub id : String
  pub type : String
  pub order : ℕ
  pub payload : String
  pub error : String
  pub final : Bool

unfoldable pub response : String → ℕ → OutResp → TaskResponse
response id order t = record {
  id = id;
  type = t.type;
  order = order;
  payload = t.payload;
  error = "";
  final = false;
}

unfoldable pub end_response : String → ℕ → TaskResponse
end_response id order = record {
  id = id;
  type = "END";
  order = order;
  payload = "";
  error = "";
  final = true;
}

-- A final response that carries an error, which the handlers send themselves.
unfoldable pub error_response : String → String → TaskResponse
error_response id text = record {
  id = id;
  type = "";
  order = 0;
  payload = "";
  error = text;
  final = true;
}

-- The sender and what it shares with the handler: the responses ever put into `out`, those of them
-- that are still in it, whether it is closed, and whether the context is done.
pub record Sender : Type 0 where
  pub produced : List OutResp
  pub out : List OutResp
  pub closed : Bool
  pub cancelled : Bool
  pub order : ℕ
  pub sent : List TaskResponse
  pub ended : Bool

abbrev pub start : Sender
start = record {
  produced = [];
  out = [];
  closed = false;
  cancelled = false;
  order = 0;
  sent = [];
  ended = false;
}

-- The body of the loop for a response that was received.
unfoldable pub send_one : String → Sender → OutResp → List OutResp → Sender
unfolding response
send_one id s t rest = record s {
  out = rest;
  order = add64 s.order 1;
  sent = s.sent ++ response id s.order t ∷ [];
}

-- What follows the loop.
unfoldable pub send_end : String → Sender → Sender
unfolding end_response
send_end id s = record s { sent = s.sent ++ end_response id s.order ∷ []; ended = true }

-- One round of the sender's loop. Where both cases of the select can proceed, Go chooses either. A
-- send on the stream is taken to return, with or without an error, which is only logged.
pub data Move (id : String) (s : Sender) : Sender → Type 0 where
  -- t, ok := <-out
  receive :
      (t : OutResp) (rest : List OutResp)
      → s.ended ≡ false
      → s.out ≡ t ∷ rest
      → Move id s (send_one id s t rest)
  drained : s.ended ≡ false → s.closed ≡ true → s.out ≡ [] → Move id s (send_end id s)
  -- <-ctx.Done()
  done : s.ended ≡ false → s.cancelled ≡ true → Move id s (send_end id s)

-- One step of the handler, or one round of the sender; `capacity` is that of `out`.
pub data Step (id : String) (capacity : ℕ) (s : Sender) : Sender → Type 0 where
  -- out <- t
  produce :
      (t : OutResp)
      → s.closed ≡ false
      → length s.out < capacity
      → Step id capacity s (record s { produced = s.produced ++ t ∷ []; out = s.out ++ t ∷ [] })
  -- close(out)
  close : s.closed ≡ false → Step id capacity s (record s { closed = true })
  -- cancel(), or a timeout
  cancel : Step id capacity s (record s { cancelled = true })
  sender : {t : Sender} → Move id s t → Step id capacity s t

pub data Reach (id : String) (capacity : ℕ) (s : Sender) : Sender → Type 0 where
  here : Reach id capacity s s
  next : {t u : Sender} → Reach id capacity s t → Step id capacity t u → Reach id capacity s u

-- What is sent for a list of responses, from an order on, which counts modulo 2^64.
unfoldable pub numbered : String → ℕ → List OutResp → List TaskResponse
unfolding response
numbered id order [] = []
numbered id order (t ∷ ts) = response id (order % two64) t ∷ numbered id (suc order) ts

-- All that is sent for the responses put into `out`, as long as the context is not done.
unfoldable pub send_resp : String → List OutResp → List TaskResponse
unfolding numbered end_response
send_resp id out = numbered id 0 out ++ end_response id (length out % two64) ∷ []
