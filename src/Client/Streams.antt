-- ===== src/Client/Streams.antt =====
-- `RegisterStream`, `CloseStream` and the loop of `Run` of client/client.go: the streams that are open,
-- and the goroutines that take their tasks.
pub mod Counted
pub mod Pool
mod Examples
use terra_worker.Prelude.{ℕ, zero, suc, String, List, [], ◌∷◌, ◌++◌, ◌≡◌, str_eq, if◌then◌else◌}
use terra_worker.Go.Map.{GoMap, put, delete}
use terra_worker.Client.Tasks.{TaskRequest}

-- cStructs.StreamAccess, without its channels
pub record StreamAccess : Type 0 where
  pub stream_id : String

-- A goroutine in the loop of `Run`: it waits in the select, or it handles a task, or it has returned.
pub data Runner : Type 0 where
  selecting : Runner
  handling : TaskRequest → Runner
  gone : Runner

-- IndexerClient, with the goroutines that were started, each with its stream
pub record IndexerClient : Type 0 where
  pub streams : GoMap StreamAccess
  pub runners : List (StreamAccess × Runner)

-- NewIndexerClient
abbrev pub new_indexer_client : IndexerClient
new_indexer_client = record { streams = []; runners = [] }

abbrev pub runners_per_stream : ℕ
runners_per_stream = 20

unfoldable pub close_stream : IndexerClient → String → IndexerClient
close_stream ic stream_id = record ic { streams = delete ic.streams stream_id }

-- so many goroutines, in the order in which they are started
unfoldable pub start_runners : ℕ → StreamAccess → List (StreamAccess × Runner)
start_runners zero stream = []
start_runners (suc n) stream = (stream, selecting) ∷ start_runners n stream

unfoldable pub register_stream : IndexerClient → StreamAccess → IndexerClient
register_stream ic stream = record ic {
  streams = put ic.streams stream.stream_id stream;
  runners = ic.runners ++ start_runners runners_per_stream stream;
}

-- What happens. The server registers and closes streams, ends their contexts, and sends on their
-- channels; what a task comes to is `run_task` of Client.Tasks.
pub data Event : Type 0 where
  registered : StreamAccess → Event
  closed : String → Event
  was_done : StreamAccess → Event
  was_finished : StreamAccess → Event
  took : StreamAccess → TaskRequest → Event
  handled : StreamAccess → TaskRequest → Event

pub data Step (ic : IndexerClient) : Event → IndexerClient → Type 0 where
  register : (stream : StreamAccess) → Step ic (registered stream) (register_stream ic stream)
  close : (stream_id : String) → Step ic (closed stream_id) (close_stream ic stream_id)
  -- <-ctx.Done()
  context_done :
      (before behind : List (StreamAccess × Runner)) (stream : StreamAccess)
      → ic.runners ≡ before ++ (stream, selecting) ∷ behind
      → Step ic (was_done stream) (record ic {
        streams = delete ic.streams stream.stream_id;
        runners = before ++ (stream, gone) ∷ behind;
      })
  -- <-stream.Finish
  finish :
      (before behind : List (StreamAccess × Runner)) (stream : StreamAccess)
      → ic.runners ≡ before ++ (stream, selecting) ∷ behind
      → Step ic (was_finished stream) (record ic { runners = before ++ (stream, gone) ∷ behind })
  -- taskRequest := <-stream.RequestListener
  take :
      (before behind : List (StreamAccess × Runner)) (stream : StreamAccess) (request : TaskRequest)
      → ic.runners ≡ before ++ (stream, selecting) ∷ behind
      → Step ic
          (took stream request)
          (record ic { runners = before ++ (stream, handling request) ∷ behind })
  -- the handler has returned
  again :
      (before behind : List (StreamAccess × Runner)) (stream : StreamAccess) (request : TaskRequest)
      → ic.runners ≡ before ++ (stream, handling request) ∷ behind
      → Step ic
          (handled stream request)
          (record ic { runners = before ++ (stream, selecting) ∷ behind })

-- from a new client on, by what happened, the latest first
pub data Reach : List Event → IndexerClient → Type 0 where
  here : Reach [] new_indexer_client
  next :
      {events : List Event} {e : Event} {ic ic' : IndexerClient}
      → Reach events ic
      → Step ic e ic'
      → Reach (e ∷ events) ic'
