-- ===== src/Api/Events/Ids.antt =====
-- The ids of the events of a transaction.
use terra_worker.Prelude.{
  ℕ, suc, ◌+◌, ◌<◌, ◌≤◌, ◌≡◌, ◌≢◌, refl, sym, inl, inr, String, List, [], ◌∷◌, ◌++◌, arith, length,
  Bool-cases, ◌==◌, ◌==◌, ltb, if◌then◌else◌,
}
use terra_worker.Go.Outcome.{Outcome, ok, err, panic, ok_of_bind, ok-injective}
use terra_worker.Go.Text.{format_uint}
use terra_worker.Structs.{TransactionEvent, SubsetEvent}
use terra_worker.Api.Types.{LogFormat}
use terra_worker.External.{External}
use terra_worker.Mapper.Messages.{Msg}
use terra_worker.Api.Dispatch.{get_sub_event}
use terra_worker.Api.Events.{
  find_log, message_event, kind_and_sub, message_events, type_of, is_present, log_events, no_error,
  error_events, append_events,
}
use terra_worker.Api.Events.Counts.{
  times, times-append, is_present-times, times-is_present, AreInOrder, str_eq-format_uint,
  times-log_events,
}

times-one :
    (i k : ℕ) (kind : String) (sub : List SubsetEvent)
    → times (format_uint k) (record { id = format_uint i; kind = kind; sub = sub } ∷ [])
      ≤ (if i == k then 1 else 0)
unfolding times
times-one i k kind sub = elim (Bool-cases (i == k)) [
  | inl same ↦ rw same (ground arith)
  | inr other ↦ rw (other, str_eq-format_uint i k (ground arith)) (omega arith)
]

-- an event of a message has the message's index as its id
times-message_event :
    (i k : ℕ) (type : String) (o : Outcome SubsetEvent) (evs : List TransactionEvent)
    → message_event i type o ≡ ok evs
    → times (format_uint k) evs ≤ (if i == k then 1 else 0)
unfolding message_event times
times-message_event i k type (ok ev) evs h =
    rw (sym (ok-injective _ evs h))
      (times-one i k (kind_and_sub type ev).0 (kind_and_sub type ev).1)
times-message_event i k type (err e) evs h = rw (sym (ok-injective _ evs h)) (ground arith)
times-message_event i k type panic evs h = cc

times_none : (id : String) → times id [] ≡ 0
unfolding times
times_none id = refl

sum_bound :
    (a b i k : ℕ)
    → a ≤ (if i == k then 1 else 0)
    → b ≤ (if ltb k (suc i) then 0 else 1)
    → a + b ≤ (if ltb k i then 0 else 1)
sum_bound a b i k one others = ground arith

-- the messages from an index on have no event of an index before it, and at most one of each other
times-message_events :
    (ext : External) (i k : ℕ) (ms : List Msg) (tx_log : List LogFormat)
    (evs : List TransactionEvent)
    → message_events ext i ms tx_log ≡ ok evs
    → times (format_uint k) evs ≤ (if ltb k i then 0 else 1)
unfolding message_events
times-message_events ext i k [] tx_log evs h =
    rw (sym (ok-injective _ evs h), times_none (format_uint k)) (omega arith)
times-message_events ext i k (m ∷ ms) tx_log evs h =
    let o = get_sub_event ext m (find_log tx_log i) in
    let (here, e, h1) = ok_of_bind (message_event i (type_of m) o) _ h in
    let (rest, r, h2) = ok_of_bind (message_events ext (suc i) ms tx_log) _ h1 in
    let one = times-message_event i k (type_of m) o here e in
    let others = times-message_events ext (suc i) k ms tx_log rest r in
    rw (sym (ok-injective _ evs h2), times-append (format_uint k) here rest)
      (sum_bound _ _ i k one others)

one_event :
    (k : ℕ) (present : List TransactionEvent)
    → times (format_uint k) present ≤ 1
    → times (format_uint k) present + (if is_present present (format_uint k) then 0 else 1) + 0 ≡ 1
one_event k present h = elim (Bool-cases (is_present present (format_uint k))) [
  | inl here ↦
      let some_event = times-is_present (format_uint k) present here in rw here (omega arith)
  | inr there ↦ rw (there, is_present-times (format_uint k) present there) refl
]

at_most_one : (n k : ℕ) → n ≤ (if ltb k 0 then 0 else 1) → n ≤ 1
at_most_one n k h = ground arith

nothing_added : error_events no_error ≡ []
unfolding error_events
nothing_added = refl

times_all :
    (k : ℕ) (present logged : List TransactionEvent)
    → times (format_uint k) present ≤ 1
    → times (format_uint k) logged ≡ (if is_present present (format_uint k) then 0 else 1)
    → times (format_uint k) (present ++ logged ++ error_events no_error) ≡ 1
times_all k present logged most h =
    rw
      (
        nothing_added,
        times-append (format_uint k) (present ++ logged) [],
        times-append (format_uint k) present logged,
        h,
        times_none (format_uint k),
      )
      (omega (arith, one_event k present most))

message_event_returns :
    (i : ℕ) (type : String) (o : Outcome SubsetEvent)
    → o ≢ panic
    → (evs : List TransactionEvent) × (message_event i type o ≡ ok evs)
unfolding message_event
message_event_returns i type (ok ev) h = (_, refl)
message_event_returns i type (err e) h = ([], refl)
message_event_returns i type panic h = absurd (h refl)

-- no mapper panics on the messages, from an index on
abbrev pub NonePanics : External → ℕ → List Msg → List LogFormat → Type 0
NonePanics ext i [] tx_log = Unit
NonePanics ext i (m ∷ ms) tx_log =
    (get_sub_event ext m (find_log tx_log i) ≢ panic) × NonePanics ext (suc i) ms tx_log

pub message_events_returns :
    (ext : External) (i : ℕ) (ms : List Msg) (tx_log : List LogFormat)
    → NonePanics ext i ms tx_log
    → (evs : List TransactionEvent) × (message_events ext i ms tx_log ≡ ok evs)
unfolding message_events
message_events_returns ext i [] tx_log h = ([], refl)
message_events_returns ext i (m ∷ ms) tx_log (h, hs) =
    let (here, e) =
      message_event_returns i (type_of m) (get_sub_event ext m (find_log tx_log i)) h in
    let (rest, r) = message_events_returns ext (suc i) ms tx_log hs in
    (here ++ rest, rw (e, r) refl)

-- When the logs of a transaction are numbered from 0 in order, no error text stands in their
-- place, and no mapper panics on a message, appendEvents returns, and of the events that it adds
-- exactly one has the id of each log, whether the message of that log was mapped or not.
pub append_events-times :
    (ext : External) (msgs : List Msg) (tx_log : List LogFormat)
    → AreInOrder 0 tx_log
    → NonePanics ext 0 msgs tx_log
    → (evs : List TransactionEvent) × (append_events ext msgs tx_log no_error ≡ ok evs)
      × ((k : ℕ) → k < length tx_log → times (format_uint k) evs ≡ 1)
unfolding append_events
append_events-times ext msgs tx_log order calm =
    let (present, e) = message_events_returns ext 0 msgs tx_log calm in
    (
      present ++ log_events present tx_log ++ error_events no_error,
      rw e refl,
      λ k bound.
          times_all k present (log_events present tx_log)
            (at_most_one _ k (times-message_events ext 0 k msgs tx_log present e))
            (times-log_events present tx_log 0 k order (omega arith) (omega arith)),
    )
