-- ===== src/Worker/Servers/Stops.antt =====
-- The worker stops both of its servers.
use mathlib.Core.Path.{subst}
use mathlib.Core.Bool.{false≢true}
use terra_worker.Prelude.{
  ℕ, ◌+◌, String, Bool, true, false, ◌||◌, ◌⊎◌, inl, inr, List, [], ◌∷◌, ◌++◌, ◌≡◌, refl, sym, ◌∙◌,
  length, if◌then◌else◌,
}
use terra_worker.Worker.Servers.{
  Main, on_signal, on_exit, Step, grpc_exits, http_exits, signalled, exited, Reach, here, next,
}

abbrev pub one_if : Bool → ℕ
one_if b = if b then 1 else 0

-- `exit` has one message for each server that has ended
data IsQueued : Bool → Bool → List String → Type 0 where
  neither : IsQueued false false []
  only_grpc : IsQueued true false ("grpc" ∷ [])
  only_http : IsQueued false true ("http" ∷ [])
  grpc_first : IsQueued true true ("grpc" ∷ "http" ∷ [])
  http_first : IsQueued true true ("http" ∷ "grpc" ∷ [])

IsQueued-grpc :
    {g h : Bool} {q : List String} → IsQueued g h q → g ≡ false → IsQueued true h (q ++ "grpc" ∷ [])
IsQueued-grpc neither e = only_grpc
IsQueued-grpc only_http e = http_first
IsQueued-grpc only_grpc e = absurd (false≢true (sym e))
IsQueued-grpc grpc_first e = absurd (false≢true (sym e))
IsQueued-grpc http_first e = absurd (false≢true (sym e))

IsQueued-http :
    {g h : Bool} {q : List String} → IsQueued g h q → h ≡ false → IsQueued g true (q ++ "http" ∷ [])
IsQueued-http neither e = only_http
IsQueued-http only_grpc e = grpc_first
IsQueued-http only_http e = absurd (false≢true (sym e))
IsQueued-http grpc_first e = absurd (false≢true (sym e))
IsQueued-http http_first e = absurd (false≢true (sym e))

length-IsQueued : {g h : Bool} {q : List String} → IsQueued g h q → length q ≡ one_if g + one_if h
length-IsQueued neither = refl
length-IsQueued only_grpc = refl
length-IsQueued only_http = refl
length-IsQueued grpc_first = refl
length-IsQueued http_first = refl

-- the loop has ended, and each server was told to stop, or had ended
record IsOver (m : Main) : Type 0 where
  is_returned : m.returned ≡ true
  is_cancelled : m.cancelled ≡ true
  no_grpc : (m.grpc_stopped || m.grpc_ended) ≡ true
  no_http : (m.http_stopped || m.http_ended) ≡ true

record IsWaiting (m : Main) : Type 0 where
  queued : IsQueued m.grpc_ended m.http_ended m.exit
  goes_on : m.returned ≡ false

or_true : (a : Bool) → (a || true) ≡ true
or_true true = refl
or_true false = refl

first_of :
    {g h : Bool} {k : String} {rest : List String}
    → IsQueued g h (k ∷ rest)
    → ((k ≡ "grpc") × (g ≡ true)) ⊎ ((k ≡ "http") × (h ≡ true))
first_of only_grpc = inl (refl, refl)
first_of only_http = inr (refl, refl)
first_of grpc_first = inl (refl, refl)
first_of http_first = inr (refl, refl)

on_exit-IsOver :
    (m : Main) (k : String) (rest : List String)
    → IsQueued m.grpc_ended m.http_ended (k ∷ rest)
    → IsOver (on_exit m k rest)
unfolding on_exit
on_exit-IsOver m k rest h = elim (first_of h) [
  | inl (is, grpc) ↦ rw is (record {
    is_returned = refl;
    is_cancelled = refl;
    no_grpc = rw grpc (or_true m.grpc_stopped);
    no_http = refl;
  })
  | inr (is, http) ↦ rw is (record {
    is_returned = refl;
    is_cancelled = refl;
    no_grpc = refl;
    no_http = rw http (or_true m.http_stopped);
  })
]

Step-IsWaiting : {m m' : Main} → IsWaiting m → Step m m' → IsWaiting m' ⊎ IsOver m'
unfolding on_signal
Step-IsWaiting h (grpc_exits serving room) =
    inl (record { queued = IsQueued-grpc h.queued serving; goes_on = h.goes_on })
Step-IsWaiting h (http_exits serving room) =
    inl (record { queued = IsQueued-http h.queued serving; goes_on = h.goes_on })
Step-IsWaiting h (signalled on) =
    inr (record { is_returned = refl; is_cancelled = refl; no_grpc = refl; no_http = refl })
Step-IsWaiting {m} h (exited k rest on at) =
    inr (on_exit-IsOver m k rest (subst (λ q. IsQueued m.grpc_ended m.http_ended q) at h.queued))

Step-IsOver : {m m' : Main} → IsOver m → Step m m' → IsOver m'
unfolding on_signal
Step-IsOver {m} h (grpc_exits serving room) = record {
  is_returned = h.is_returned;
  is_cancelled = h.is_cancelled;
  no_grpc = or_true m.grpc_stopped;
  no_http = h.no_http;
}
Step-IsOver {m} h (http_exits serving room) = record {
  is_returned = h.is_returned;
  is_cancelled = h.is_cancelled;
  no_grpc = h.no_grpc;
  no_http = or_true m.http_stopped;
}
Step-IsOver h (signalled on) = absurd (false≢true (sym on ∙ h.is_returned))
Step-IsOver h (exited k rest on at) = absurd (false≢true (sym on ∙ h.is_returned))

Reach-IsOver : {m : Main} → Reach m → IsWaiting m ⊎ IsOver m
Reach-IsOver here = inl (record { queued = neither; goes_on = refl })
Reach-IsOver (next r st) = elim (Reach-IsOver r) [
  | inl waiting ↦ Step-IsWaiting waiting st
  | inr over ↦ inr (Step-IsOver over st)
]

-- Whichever way the servers end and signals come: as long as the loop of main goes on, `exit`
-- holds one message for each server that has ended, so that no send into it waits and a server
-- that has ended is noticed; and when the loop is over, the context is cancelled, and each of the
-- two servers was told to stop or has ended by itself.
pub Reach-stops :
    (m : Main)
    → Reach m
    → ((m.returned ≡ false) × (length m.exit ≡ one_if m.grpc_ended + one_if m.http_ended))
      ⊎ ((m.returned ≡ true)
          × (m.cancelled ≡ true)
          × ((m.grpc_stopped || m.grpc_ended) ≡ true)
          × ((m.http_stopped || m.http_ended) ≡ true))
Reach-stops m r = elim (Reach-IsOver r) [
  | inl waiting ↦ inl (waiting.goes_on, length-IsQueued waiting.queued)
  | inr over ↦ inr (over.is_returned, over.is_cancelled, over.no_grpc, over.no_http)
]
