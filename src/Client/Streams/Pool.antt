-- ===== src/Client/Streams/Pool.antt =====
-- The goroutines of a stream, and the tasks that they take, at any time.
use terra_worker.Prelude.{◌+◌, ◌*◌, String, List, ◌≡◌}
use terra_worker.Prelude.Bags.{count}
use terra_worker.Go.Map.{get}
use terra_worker.Client.Tasks.{TaskRequest}
use terra_worker.Client.Streams.{IndexerClient, runners_per_stream, Event}
use terra_worker.Client.Streams.Counted.{
  same_request, same_request_iff, runners_of, departures, last_entry, registrations, all_taken,
  all_handled, busy,
}

module _ (id : String) where
  record IsBalanced (events : List Event) (ic : IndexerClient) : Type 0 where
    all_runners :
        runners_of id ic.runners + departures id events
        ≡ runners_per_stream * registrations id events
    each_task :
        (a : TaskRequest)
        → count same_request same_request_iff a (all_taken id events)
          ≡ count same_request same_request_iff a (all_handled id events) + busy id a ic.runners
    same_entry : get ic.streams id ≡ last_entry id events
