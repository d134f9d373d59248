-- ===== src/Client/Streams/Counted.antt =====
-- The goroutines of a stream and its tasks, counted.
use terra_worker.Prelude.{
  Option, none, some, ℕ, zero, suc, ◌+◌, ◌*◌, ◌≤◌, String, Bool, ◌&&◌, ◌↔◌, List, [], ◌∷◌, ◌++◌,
  ◌≡◌, refl, ap, arith, str_eq, eq_iff, length, true, if◌then◌else◌,
}
use terra_worker.Prelude.Bags.{count, count-append}
use terra_worker.Client.Tasks.{TaskRequest}
use terra_worker.Client.Streams.{
  StreamAccess, Runner, selecting, handling, gone, start_runners, Event, registered, closed,
  was_done, was_finished, took, handled,
}

pub same_request : TaskRequest → TaskRequest → Bool
same_request a b = str_eq a.id b.id && (str_eq a.type b.type && str_eq a.payload b.payload)

pub same_request_iff : (a b : TaskRequest) → (same_request a b ≡ true) ↔ (a ≡ b)
unfolding same_request
same_request_iff a b =
    ground (arith, eq_iff a.id b.id, eq_iff a.type b.type, eq_iff a.payload b.payload)

module _ (id : String) where
  -- a task, where it is of the stream
  unfoldable pub of_stream : StreamAccess → TaskRequest → List TaskRequest
  of_stream stream request = if str_eq stream.stream_id id then request ∷ [] else []

  -- 1 where the goroutine is of the stream and has not returned
  unfoldable pub live : StreamAccess → Runner → ℕ
  live stream selecting = if str_eq stream.stream_id id then 1 else 0
  live stream (handling request) = if str_eq stream.stream_id id then 1 else 0
  live stream gone = 0

  -- the goroutines of the stream that have not returned
  unfoldable pub runners_of : List (StreamAccess × Runner) → ℕ
  unfolding live
  runners_of [] = 0
  runners_of ((stream, r) ∷ runners) = live stream r + runners_of runners

  unfoldable pub task_of : StreamAccess → Runner → List TaskRequest
  unfolding of_stream
  task_of stream selecting = []
  task_of stream (handling request) = of_stream stream request
  task_of stream gone = []

  -- the tasks of the stream that are handled
  unfoldable pub in_progress : List (StreamAccess × Runner) → List TaskRequest
  unfolding task_of
  in_progress [] = []
  in_progress ((stream, r) ∷ runners) = task_of stream r ++ in_progress runners

  unfoldable pub registrations : List Event → ℕ
  registrations [] = 0
  registrations (registered stream ∷ events) =
      (if str_eq stream.stream_id id then 1 else 0) + registrations events
  registrations (closed stream_id ∷ events) = registrations events
  registrations (was_done stream ∷ events) = registrations events
  registrations (was_finished stream ∷ events) = registrations events
  registrations (took stream request ∷ events) = registrations events
  registrations (handled stream request ∷ events) = registrations events

  -- the goroutines of the stream that have returned
  unfoldable pub departures : List Event → ℕ
  departures [] = 0
  departures (registered stream ∷ events) = departures events
  departures (closed stream_id ∷ events) = departures events
  departures (was_done stream ∷ events) =
      (if str_eq stream.stream_id id then 1 else 0) + departures events
  departures (was_finished stream ∷ events) =
      (if str_eq stream.stream_id id then 1 else 0) + departures events
  departures (took stream request ∷ events) = departures events
  departures (handled stream request ∷ events) = departures events

  -- the entry of the table: that of the latest registration, unless the stream was closed or one of
  -- its goroutines found its context done behind it
  unfoldable pub last_entry : List Event → Option StreamAccess
  last_entry [] = none
  last_entry (registered stream ∷ events) =
      let before = last_entry events in if str_eq stream.stream_id id then some stream else before
  last_entry (closed stream_id ∷ events) =
      let before = last_entry events in if str_eq stream_id id then none else before
  last_entry (was_done stream ∷ events) =
      let before = last_entry events in if str_eq stream.stream_id id then none else before
  last_entry (was_finished stream ∷ events) = last_entry events
  last_entry (took stream request ∷ events) = last_entry events
  last_entry (handled stream request ∷ events) = last_entry events

  unfoldable pub all_taken : List Event → List TaskRequest
  unfolding of_stream
  all_taken [] = []
  all_taken (registered stream ∷ events) = all_taken events
  all_taken (closed stream_id ∷ events) = all_taken events
  all_taken (was_done stream ∷ events) = all_taken events
  all_taken (was_finished stream ∷ events) = all_taken events
  all_taken (took stream request ∷ events) = of_stream stream request ++ all_taken events
  all_taken (handled stream request ∷ events) = all_taken events

  unfoldable pub all_handled : List Event → List TaskRequest
  unfolding of_stream
  all_handled [] = []
  all_handled (registered stream ∷ events) = all_handled events
  all_handled (closed stream_id ∷ events) = all_handled events
  all_handled (was_done stream ∷ events) = all_handled events
  all_handled (was_finished stream ∷ events) = all_handled events
  all_handled (took stream request ∷ events) = all_handled events
  all_handled (handled stream request ∷ events) = of_stream stream request ++ all_handled events

  pub runners_of-append :
      (xs ys : List (StreamAccess × Runner)) → runners_of (xs ++ ys) ≡ runners_of xs + runners_of ys
  unfolding runners_of
  runners_of-append [] ys = omega arith
  runners_of-append ((stream, r) ∷ xs) ys = omega (arith, runners_of-append xs ys)

  pub runners_of-start_runners :
      (n : ℕ) (stream : StreamAccess)
      → runners_of (start_runners n stream) ≡ n * (if str_eq stream.stream_id id then 1 else 0)
  unfolding runners_of start_runners live
  runners_of-start_runners zero stream = omega arith
  runners_of-start_runners (suc n) stream = ground (arith, runners_of-start_runners n stream)

  -- how often a task is in progress
  abbrev pub busy : TaskRequest → List (StreamAccess × Runner) → ℕ
  busy a runners = count same_request same_request_iff a (in_progress runners)

  pub busy-append :
      (a : TaskRequest) (xs ys : List (StreamAccess × Runner))
      → busy a (xs ++ ys) ≡ busy a xs + busy a ys
  unfolding in_progress count
  busy-append a [] ys = omega arith
  busy-append a ((stream, r) ∷ xs) ys = omega (
    arith,
    busy-append a xs ys,
    count-append same_request same_request_iff a (task_of stream r) (in_progress (xs ++ ys)),
    count-append same_request same_request_iff a (task_of stream r) (in_progress xs),
  )

  pub in_progress-start_runners :
      (n : ℕ) (stream : StreamAccess) → in_progress (start_runners n stream) ≡ []
  unfolding in_progress start_runners task_of
  in_progress-start_runners zero stream = refl
  in_progress-start_runners (suc n) stream = in_progress-start_runners n stream

  pub in_progress-bounded :
      (runners : List (StreamAccess × Runner)) → length (in_progress runners) ≤ runners_of runners
  unfolding in_progress runners_of task_of of_stream live
  in_progress-bounded [] = omega arith
  in_progress-bounded ((stream, selecting) ∷ runners) = ground (arith, in_progress-bounded runners)
  in_progress-bounded ((stream, handling request) ∷ runners) =
      ground (arith, in_progress-bounded runners)
  in_progress-bounded ((stream, gone) ∷ runners) = ground (arith, in_progress-bounded runners)

  module _ {runners : List (StreamAccess × Runner)} (before behind : List (StreamAccess × Runner))
      (stream : StreamAccess) (r r' : Runner) (at : runners ≡ before ++ (stream, r) ∷ behind) where
    pub runners_of-changed :
        runners_of (before ++ (stream, r') ∷ behind) + live stream r
        ≡ runners_of runners + live stream r'
    unfolding runners_of
    runners_of-changed = omega (
      arith,
      ap runners_of at,
      runners_of-append before ((stream, r) ∷ behind),
      runners_of-append before ((stream, r') ∷ behind),
    )

    pub busy-changed :
        (a : TaskRequest)
        → busy a (before ++ (stream, r') ∷ behind)
            + count same_request same_request_iff a (task_of stream r)
          ≡ busy a runners + count same_request same_request_iff a (task_of stream r')
    unfolding in_progress
    busy-changed a = omega (
      arith,
      ap (busy a) at,
      busy-append a before ((stream, r) ∷ behind),
      busy-append a before ((stream, r') ∷ behind),
      count-append same_request same_request_iff a (task_of stream r) (in_progress behind),
      count-append same_request same_request_iff a (task_of stream r') (in_progress behind),
    )
