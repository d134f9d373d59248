-- ===== src/Client/Stream/Transcript.antt =====
-- What a task's listener receives, whichever way the handler and the sender interleave.
use mathlib.Core.Bool.{false≢true}
use terra_worker.Prelude.{
  ℕ, suc, ◌+◌, ◌%◌, two64, add64, String, Bool, true, false, List, [], ◌∷◌, ◌++◌, ◌≡◌, refl, sym,
  ap, ◌∙◌, arith, length, length-append, append_assoc, append-nil,
}
use terra_worker.Client.Stream.{
  OutResp, TaskResponse, Sender, start, response, end_response, send_one, send_end, Move, receive,
  drained, done, Step, produce, close, cancel, sender, Reach, here, next, numbered, send_resp,
}

numbered-append :
    (id : String) (ts : List OutResp) (order : ℕ) (t : OutResp)
    → numbered id order (ts ++ t ∷ [])
      ≡ numbered id order ts ++ response id ((order + length ts) % two64) t ∷ []
unfolding numbered
numbered-append id [] order t = ap (λ n. response id (n % two64) t ∷ []) (omega arith)
numbered-append id (u ∷ ts) order t =
    ap (λ l. response id (order % two64) u ∷ l)
      (numbered-append id ts (suc order) t
        ∙ ap (λ n. numbered id (suc order) ts ++ response id (n % two64) t ∷ []) (omega arith))

-- The END behind a list of responses, once the sender has ended.
unfoldable pub ending : String → ℕ → Bool → List TaskResponse
ending id order false = []
ending id order true = end_response id order ∷ []

-- The listener has been sent a part of what was produced, from the start on, numbered from 0 modulo 2^64, and
-- then, once the sender has ended, the final END.
pub record IsTranscript (id : String) (s : Sender) : Type 0 where
  pub received : List OutResp
  pub kept : s.produced ≡ received ++ s.out
  pub counted : s.order ≡ length received % two64
  pub told : s.sent ≡ numbered id 0 received ++ ending id s.order s.ended

going_on :
    (id : String) (order : ℕ) (b : Bool) (l : List TaskResponse)
    → b ≡ false
    → l ++ ending id order b ≡ l
unfolding ending
going_on id order true l h = cc
going_on id order false l h = append-nil l

module _ {id : String} {s : Sender} (h : IsTranscript id s) (going : s.ended ≡ false) where
  before : s.sent ≡ numbered id 0 h.received
  before = h.told ∙ going_on id s.order s.ended (numbered id 0 h.received) going

  receive-IsTranscript :
      (t : OutResp) (rest : List OutResp)
      → s.out ≡ t ∷ rest
      → IsTranscript id (send_one id s t rest)
  unfolding send_one add64
  receive-IsTranscript t rest at = record {
    received = h.received ++ t ∷ [];
    kept = h.kept ∙ ap (λ l. h.received ++ l) at ∙ sym (append_assoc h.received (t ∷ []) rest);
    counted = omega (arith, h.counted, length-append h.received (t ∷ []));
    told =
        ap (λ l. l ++ response id s.order t ∷ []) before
        ∙ ap (λ n. numbered id 0 h.received ++ response id n t ∷ []) (omega (arith, h.counted))
        ∙ sym (numbered-append id h.received 0 t)
        ∙ sym (going_on id (add64 s.order 1) s.ended (numbered id 0 (h.received ++ t ∷ [])) going);
  }

  send_end-IsTranscript : IsTranscript id (send_end id s)
  unfolding send_end ending
  send_end-IsTranscript = record {
    received = h.received;
    kept = h.kept;
    counted = h.counted;
    told = ap (λ l. l ++ end_response id s.order ∷ []) before;
  }

Move-IsTranscript :
    {id : String} {s t : Sender} → Move id s t → IsTranscript id s → IsTranscript id t
Move-IsTranscript (receive t rest going at) h = receive-IsTranscript h going t rest at
Move-IsTranscript (drained going closed at) h = send_end-IsTranscript h going
Move-IsTranscript (done going cancelled) h = send_end-IsTranscript h going

Step-IsTranscript :
    {id : String} {capacity : ℕ} {s t : Sender}
    → Step id capacity s t
    → IsTranscript id s
    → IsTranscript id t
Step-IsTranscript {s = s} (produce t open_still room) h = record {
  received = h.received;
  kept = ap (λ l. l ++ t ∷ []) h.kept ∙ append_assoc h.received s.out (t ∷ []);
  counted = h.counted;
  told = h.told;
}
Step-IsTranscript (close open_still) h = record {
  received = h.received;
  kept = h.kept;
  counted = h.counted;
  told = h.told;
}
Step-IsTranscript cancel h = record {
  received = h.received;
  kept = h.kept;
  counted = h.counted;
  told = h.told;
}
Step-IsTranscript (sender m) h = Move-IsTranscript m h

start-IsTranscript : (id : String) → IsTranscript id start
unfolding numbered ending
start-IsTranscript id = record { received = []; kept = refl; counted = refl; told = refl }

-- In every state that the handler and sendResp can reach, in whichever order their steps and a
-- cancellation interleave, the listener was sent a part of the responses put into the channel,
-- from the first one on, each with its place, modulo 2^64, as its order number, and behind them,
-- once sendResp has ended and only then, one final END with the next number.
pub Reach-IsTranscript :
    {id : String} {capacity : ℕ} {s : Sender} → Reach id capacity start s → IsTranscript id s
Reach-IsTranscript {id} here = start-IsTranscript id
Reach-IsTranscript (next r st) = Step-IsTranscript st (Reach-IsTranscript r)

-- While the context is not done, the sender ends only when all was received.
record IsDrained (s : Sender) : Type 0 where
  emptied : s.ended ≡ true → s.cancelled ≡ false → (s.closed ≡ true) × (s.out ≡ [])

Move-IsDrained : {id : String} {s t : Sender} → Move id s t → IsDrained t
unfolding send_one send_end
Move-IsDrained (receive t rest going at) = record {
  emptied = λ e c. absurd (false≢true (sym going ∙ e));
}
Move-IsDrained (drained going closed at) = record { emptied = λ e c. (closed, at) }
Move-IsDrained (done going cancelled) = record {
  emptied = λ e c. absurd (false≢true (sym c ∙ cancelled));
}

Step-IsDrained :
    {id : String} {capacity : ℕ} {s t : Sender} → Step id capacity s t → IsDrained s → IsDrained t
Step-IsDrained (produce t open_still room) h = record {
  emptied = λ e c. absurd (false≢true (sym open_still ∙ (h.emptied e c).0));
}
Step-IsDrained (close open_still) h = record {
  emptied = λ e c. absurd (false≢true (sym open_still ∙ (h.emptied e c).0));
}
Step-IsDrained cancel h = record { emptied = λ e c. absurd (false≢true (sym c)) }
Step-IsDrained (sender m) h = Move-IsDrained m

Reach-IsDrained :
    {id : String} {capacity : ℕ} {s : Sender} → Reach id capacity start s → IsDrained s
Reach-IsDrained here = record { emptied = λ e c. absurd (false≢true e) }
Reach-IsDrained (next r st) = Step-IsDrained st (Reach-IsDrained r)

-- Where sendResp has ended and the context was not cancelled, what it sent is what send_resp gives
-- for the responses put into the channel: all of them, in order, and the final END.
pub Reach-send_resp :
    {id : String} {capacity : ℕ} {s : Sender}
    → Reach id capacity start s
    → s.ended ≡ true
    → s.cancelled ≡ false
    → s.sent ≡ send_resp id s.produced
unfolding ending send_resp
Reach-send_resp {id} {s = s} r ended calm =
    let h = Reach-IsTranscript r in
    let (_, empty) = (Reach-IsDrained r).emptied ended calm in
    let all : s.produced ≡ h.received =
      h.kept ∙ ap (λ l. h.received ++ l) empty ∙ append-nil h.received in
    let counted : s.order ≡ length s.produced % two64 =
      h.counted ∙ ap (λ l. length l % two64) (sym all) in
    h.told
    ∙ ap (λ l. numbered id 0 l ++ ending id s.order s.ended) (sym all)
    ∙ ap (λ n. numbered id 0 s.produced ++ ending id n s.ended) counted
    ∙ ap (λ b. numbered id 0 s.produced ++ ending id (length s.produced % two64) b) ended
