-- ===== src/Client/Stream/Stuck.antt =====
-- The handler, once the sender has ended.
use mathlib.Core.Bool.{false≢true}
use terra_worker.Prelude.{ℕ, ◌≤◌, String, true, false, ◌∙◌, ◌≡◌, refl, sym, arith, length}
use terra_worker.Client.Stream.{
  Sender, Move, receive, drained, done, Step, produce, close, cancel, sender, Reach, here, next,
}

Move-going : {id : String} {s t : Sender} → Move id s t → s.ended ≡ false
Move-going (receive t rest going at) = going
Move-going (drained going closed at) = going
Move-going (done going cancelled) = going

-- the sender has ended, and `out` is full
record IsStuck (capacity : ℕ) (s t : Sender) : Type 0 where
  has_ended : t.ended ≡ true
  is_full : capacity ≤ length t.out
  same_produced : t.produced ≡ s.produced

Step-IsStuck :
    {id : String} {capacity : ℕ} {s t u : Sender}
    → IsStuck capacity s t
    → Step id capacity t u
    → IsStuck capacity s u
Step-IsStuck h (produce t unclosed room) = absurd (omega (arith, h.is_full))
Step-IsStuck h (close unclosed) = record {
  has_ended = h.has_ended;
  is_full = h.is_full;
  same_produced = h.same_produced;
}
Step-IsStuck h cancel = record {
  has_ended = h.has_ended;
  is_full = h.is_full;
  same_produced = h.same_produced;
}
Step-IsStuck h (sender m) = absurd (false≢true (sym (Move-going m) ∙ h.has_ended))

Reach-IsStuck :
    {id : String} {capacity : ℕ} {s t : Sender}
    → s.ended ≡ true
    → capacity ≤ length s.out
    → Reach id capacity s t
    → IsStuck capacity s t
Reach-IsStuck ended full here = record { has_ended = ended; is_full = full; same_produced = refl }
Reach-IsStuck ended full (next r st) = Step-IsStuck (Reach-IsStuck ended full r) st

-- Once sendResp has ended, with as many responses in the channel as fit into it, whatever else
-- happens the handler puts no further response into it.
pub Reach-stuck :
    (id : String) (capacity : ℕ) (s t : Sender)
    → s.ended ≡ true
    → capacity ≤ length s.out
    → Reach id capacity s t
    → t.produced ≡ s.produced
Reach-stuck id capacity s t ended full r = (Reach-IsStuck ended full r).same_produced
