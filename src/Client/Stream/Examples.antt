-- ===== src/Client/Stream/Examples.antt =====
-- A sender at concrete responses, and the theorems applied to it.
use terra_worker.Prelude.{◌+◌, ◌≤◌, ◌⊎◌, ◌≡◌, refl, true, [], ◌∷◌, arith}
use terra_worker.Client.Stream.{
  OutResp, Sender, start, send_one, send_end, Move, receive, drained, produce, close, cancel,
  sender, Reach, here, next, end_response, send_resp,
}
use terra_worker.Client.Stream.Stuck.{Reach-stuck}
use terra_worker.Client.Stream.Transcript.{IsTranscript, Reach-IsTranscript, Reach-send_resp}
use terra_worker.Client.Stream.Ends.{
  rounds_left, filled, none_yet, and_one, Rounds-ends, cancel_loses,
}

abbrev reward : OutResp
reward = record { type = "Reward"; payload = "{}" }

-- the response is put into `out` and received
abbrev one_sent : Sender
one_sent = send_one "7" (filled (reward ∷ [])) reward []

Reach-one_sent : Reach "7" 1 start one_sent
unfolding send_one
Reach-one_sent =
    next (next here (produce reward refl (omega arith))) (sender (receive reward [] refl refl))

Reach-IsTranscript_example : IsTranscript "7" one_sent
Reach-IsTranscript_example = Reach-IsTranscript Reach-one_sent

-- `out` is closed, and the sender ends
abbrev all_sent : Sender
all_sent = send_end "7" (record one_sent { closed = true })

Reach-all_sent : Reach "7" 1 start all_sent
unfolding send_one
Reach-all_sent = next (next Reach-one_sent (close refl)) (sender (drained refl refl refl))

Reach-send_resp_example : all_sent.sent ≡ send_resp "7" (reward ∷ [])
unfolding send_one send_end
Reach-send_resp_example = Reach-send_resp Reach-all_sent refl refl

abbrev closed_off : Sender
closed_off = record (filled (reward ∷ [])) { closed = true }

-- one round is left: the END
abbrev reward_sent : Sender
reward_sent = send_one "7" closed_off reward []

Rounds-ends_example :
    (1 + rounds_left reward_sent ≤ rounds_left closed_off)
    × ((reward_sent.ended ≡ true) ⊎ ((u : Sender) × Move "7" reward_sent u))
Rounds-ends_example =
    Rounds-ends "7" closed_off reward_sent 1 refl (and_one none_yet (receive reward [] refl refl))

cancel_loses_example :
    (s : Sender) × Reach "7" 100 start s
    × (s.produced ≡ reward ∷ [])
    × (s.closed ≡ true)
    × (s.sent ≡ end_response "7" 0 ∷ [])
cancel_loses_example = cancel_loses "7" 100 (reward ∷ []) (omega arith)

-- the context times out before the one response that fits is received
abbrev timed_out : Sender
timed_out = send_end "7" (record (filled (reward ∷ [])) { cancelled = true })

Reach-stuck_example :
    (record timed_out { closed = true; cancelled = true }).produced ≡ timed_out.produced
unfolding send_end
Reach-stuck_example =
    Reach-stuck "7" 1 timed_out (record timed_out { closed = true; cancelled = true }) refl
      (omega arith) (next (next here (close refl)) cancel)
