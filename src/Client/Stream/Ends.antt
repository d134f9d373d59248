-- ===== src/Client/Stream/Ends.antt =====
-- How the sender comes to an end.
use mathlib.Core.Path.{subst}
use terra_worker.Prelude.{
  ℕ, suc, ◌+◌, ◌⊎◌, inl, inr, Bool-cases, ◌<◌, ◌≤◌, String, true, false, List, [], ◌∷◌, ◌++◌, ◌≡◌,
  refl, sym, arith, length, length-append, append_assoc, append-nil, if◌then◌else◌,
}
use terra_worker.Client.Stream.{
  OutResp, Sender, start, end_response, send_one, send_end, Move, receive, drained, done, produce,
  close, cancel, sender, Reach, here, next,
}

-- the rounds that are left to the sender, once `out` is closed
pub rounds_left : Sender → ℕ
rounds_left s = if s.ended then 0 else suc (length s.out)

some-Move :
    (id : String) (s : Sender) (out : List OutResp)
    → s.out ≡ out
    → s.closed ≡ true
    → s.ended ≡ false
    → (t : Sender) × Move id s t
some-Move id s [] at closed going = (send_end id s, drained going closed at)
some-Move id s (t ∷ rest) at closed going = (send_one id s t rest, receive t rest going at)

fewer_left : {id : String} {s t : Sender} → Move id s t → rounds_left t < rounds_left s
unfolding rounds_left send_one send_end
fewer_left (receive t rest going at) = rw (going, at) (omega arith)
fewer_left (drained going closed at) = rw going (omega arith)
fewer_left (done going cancelled) = rw going (omega arith)

closed_still : {id : String} {s t : Sender} → Move id s t → s.closed ≡ true → t.closed ≡ true
unfolding send_one send_end
closed_still (receive t rest going at) h = h
closed_still (drained going closed at) h = h
closed_still (done going cancelled) h = h

-- so many rounds of the sender, one after the other
pub data Rounds (id : String) (s : Sender) : ℕ → Sender → Type 0 where
  none_yet : Rounds id s 0 s
  and_one : {n : ℕ} {t u : Sender} → Rounds id s n t → Move id t u → Rounds id s (suc n) u

closed_after :
    {id : String} {s t : Sender} {n : ℕ} → Rounds id s n t → s.closed ≡ true → t.closed ≡ true
closed_after none_yet closed = closed
closed_after (and_one r m) closed = closed_still m (closed_after r closed)

Rounds-bounded :
    {id : String} {s t : Sender} {n : ℕ} → Rounds id s n t → n + rounds_left t ≤ rounds_left s
Rounds-bounded none_yet = omega arith
Rounds-bounded (and_one r m) = omega (arith, Rounds-bounded r, fewer_left m)

-- Once the channel is closed, sendResp does no more rounds of its loop than there are waiting
-- responses and one for the END, fewer by each that it has done, and after any number of rounds it
-- has ended or can do another.
pub Rounds-ends :
    (id : String) (s t : Sender) (n : ℕ)
    → s.closed ≡ true
    → Rounds id s n t
    → (n + rounds_left t ≤ rounds_left s) × ((t.ended ≡ true) ⊎ ((u : Sender) × Move id t u))
Rounds-ends id s t n closed r = (
  Rounds-bounded r,
  elim (Bool-cases t.ended) [
    | inl ended ↦ inl ended
    | inr going ↦ inr (some-Move id t t.out refl (closed_after r closed) going)
  ],
)

Reach-trans :
    {id : String} {capacity : ℕ} {s t u : Sender}
    → Reach id capacity s t
    → Reach id capacity t u
    → Reach id capacity s u
Reach-trans r here = r
Reach-trans r (next q st) = next (Reach-trans r q) st

-- the state in which the responses were put into `out`, and none was received
abbrev pub filled : List OutResp → Sender
filled ts = record start { produced = ts; out = ts }

fill_more :
    {id : String} {capacity : ℕ} (ts xs : List OutResp)
    → length (xs ++ ts) ≤ capacity
    → Reach id capacity (filled xs) (filled (xs ++ ts))
fill_more {id} {capacity} [] xs h =
    subst (λ l. Reach id capacity (filled xs) (filled l)) (sym (append-nil xs)) here
fill_more {id} {capacity} (t ∷ ts) xs h =
    let room : length xs < capacity = omega (arith, length-append xs (t ∷ ts)) in
    let regroup : xs ++ t ∷ [] ++ ts ≡ xs ++ t ∷ ts = append_assoc xs (t ∷ []) ts in
    let rest = fill_more ts (xs ++ t ∷ []) (rw regroup h) in
    Reach-trans (next here (produce t refl room))
      (subst (λ l. Reach id capacity (filled (xs ++ t ∷ [])) (filled l)) regroup rest)

-- Responses that fit into the channel can all be lost: the handler puts them in, closes the
-- channel and cancels the context, as GetLatest does when it returns, and sendResp sends only the
-- final END, with the number 0.
pub cancel_loses :
    (id : String) (capacity : ℕ) (ts : List OutResp)
    → length ts ≤ capacity
    → (s : Sender) × Reach id capacity start s
      × (s.produced ≡ ts)
      × (s.closed ≡ true)
      × (s.sent ≡ end_response id 0 ∷ [])
unfolding send_end
cancel_loses id capacity ts h = (
  _,
  next (next (next (fill_more ts [] h) (close refl)) cancel) (sender (done refl refl)),
  refl,
  refl,
  refl,
)
