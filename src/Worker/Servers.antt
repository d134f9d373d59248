-- ===== src/Worker/Servers.antt =====
-- The loop of `main` of cmd/terra-worker/main.go, with `runGRPC` and `runHTTP`: when one of the two
-- servers ends, or a signal comes, the worker stops.
pub mod Stops
mod Examples
use terra_worker.Prelude.{
  ℕ, ◌<◌, String, Bool, true, false, List, [], ◌∷◌, ◌++◌, ◌≡◌, length, str_eq, if◌then◌else◌,
}

-- What main shares with the goroutines of the servers: whether each server was told to stop, whether
-- it has ended, as it also does when it cannot listen, and the channel `exit`.
pub record Main : Type 0 where
  pub cancelled : Bool
  pub grpc_stopped : Bool
  pub grpc_ended : Bool
  pub http_stopped : Bool
  pub http_ended : Bool
  pub exit : List String
  pub returned : Bool

abbrev pub main_loop : Main
main_loop = record {
  cancelled = false;
  grpc_stopped = false;
  grpc_ended = false;
  http_stopped = false;
  http_ended = false;
  exit = [];
  returned = false;
}

-- the capacity of `exit`
abbrev pub exit_capacity : ℕ
exit_capacity = 2

-- cancel(), grpcServer.Stop(), s.Shutdown(ctx)
unfoldable pub on_signal : Main → Main
on_signal m = record m {
  cancelled = true;
  grpc_stopped = true;
  http_stopped = true;
  returned = true;
}

-- what follows k := <-exit
unfoldable pub on_exit : Main → String → List String → Main
on_exit m k rest =
    if str_eq k "grpc"
    then record m { exit = rest; cancelled = true; http_stopped = true; returned = true }
    else record m { exit = rest; cancelled = true; grpc_stopped = true; returned = true }

pub data Step (m : Main) : Main → Type 0 where
  -- runGRPC: exit <- "grpc"
  grpc_exits :
      m.grpc_ended ≡ false
      → length m.exit < exit_capacity
      → Step m (record m { grpc_ended = true; exit = m.exit ++ "grpc" ∷ [] })
  -- runHTTP: exit <- "http"
  http_exits :
      m.http_ended ≡ false
      → length m.exit < exit_capacity
      → Step m (record m { http_ended = true; exit = m.exit ++ "http" ∷ [] })
  -- <-osSig
  signalled : m.returned ≡ false → Step m (on_signal m)
  exited :
      (k : String) (rest : List String)
      → m.returned ≡ false
      → m.exit ≡ k ∷ rest
      → Step m (on_exit m k rest)

pub data Reach : Main → Type 0 where
  here : Reach main_loop
  next : {m m' : Main} → Reach m → Step m m' → Reach m'
