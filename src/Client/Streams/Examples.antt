-- ===== src/Client/Streams/Examples.antt =====
-- A stream with one task, and the theorem on its goroutines applied to it.
use terra_worker.Prelude.{List, [], ◌∷◌}
use terra_worker.Go.Map.{put}
use terra_worker.Client.Tasks.{TaskRequest}
use terra_worker.Client.Streams.{
  StreamAccess, handling, IndexerClient, start_runners, Event, registered, closed, took,
}

abbrev stream : StreamAccess
stream = record { stream_id = "s1" }

abbrev request : TaskRequest
request = record { id = "7"; type = "GetReward"; payload = "{}" }

-- one of the goroutines has taken the task
abbrev one_taken : IndexerClient
one_taken = record {
  streams = put [] "s1" stream;
  runners = (stream, handling request) ∷ start_runners 19 stream;
}

abbrev events : List Event
events = closed "s1" ∷ took stream request ∷ registered stream ∷ []
